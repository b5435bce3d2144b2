-- ===== src/Broker/Topic/Matching.antt =====
-- `TopicMatch` decides the matching relation of MQTT 3.1.1, section 4.7.
use dmqtt.Base.{
  Bytes, List, [], ◌∷◌, length, nat_beq, ◌==◌, bytes_eq, bytes_beq_iff, true, ◌≡◌, refl, ◌↔◌, ◌⊎◌,
  inl, inr, arith, Bool-cases,
}
use dmqtt.Broker.Topic.{hash, plus, split, starts_with, match_parts, topic_match}

-- A list of filter levels matches a list of topic levels.
pub data Matches : List Bytes → List Bytes → Type 0 where
  all_levels : (fs ts : List Bytes) → Matches (hash ∷ fs) ts
  one_level : (t : Bytes) {fs ts : List Bytes} → Matches fs ts → Matches (plus ∷ fs) (t ∷ ts)
  same_level : (t : Bytes) {fs ts : List Bytes} → Matches fs ts → Matches (t ∷ fs) (t ∷ ts)
  no_levels : Matches [] []

match_parts-Matches :
    (fs ts : List Bytes)
    → match_parts fs ts (nat_beq (length fs) (length ts)) ≡ true
    → Matches fs ts
unfolding match_parts
match_parts-Matches [] [] h = no_levels
match_parts-Matches [] (t ∷ ts) h = ground arith
match_parts-Matches (f ∷ fs) [] h = rw ((bytes_beq_iff f hash).0 h) (all_levels fs [])
match_parts-Matches (f ∷ fs) (t ∷ ts) h = elim (Bool-cases (f == hash)) [
  | inl e ↦ rw ((bytes_beq_iff f hash).0 e) (all_levels fs (t ∷ ts))
  | inr ne ↦ elim (Bool-cases (f == plus)) [
    | inl e ↦
        rw ((bytes_beq_iff f plus).0 e) (one_level t (match_parts-Matches fs ts (ground arith)))
    | inr ne' ↦ elim (Bool-cases (f == t)) [
      | inl e ↦
          rw ((bytes_beq_iff f t).0 e) (same_level t (match_parts-Matches fs ts (ground arith)))
      | inr d ↦ ground arith
    ]
  ]
]

Matches-match_parts :
    {fs ts : List Bytes}
    → Matches fs ts
    → match_parts fs ts (nat_beq (length fs) (length ts)) ≡ true
unfolding match_parts
Matches-match_parts (all_levels fs []) = refl
Matches-match_parts (all_levels fs (t ∷ ts)) = refl
Matches-match_parts (one_level t {fs} {ts} m) = ground (arith, Matches-match_parts m)
Matches-match_parts (same_level t {fs} {ts} m) =
    ground (arith, Matches-match_parts m, bytes_beq_iff t t)
Matches-match_parts no_levels = refl

-- `$`-topics are hidden from filters that begin with a wildcard.
abbrev pub IsHidden : Bytes → Bytes → Type 0
IsHidden filter topic =
    (starts_with b'$' topic ≡ true)
    × ((starts_with b'+' filter ≡ true) ⊎ (starts_with b'#' filter ≡ true))

-- `TopicMatch` holds exactly where the filter's levels match the topic's by the relation, and the
-- topic is not one of the `$`-topics that the filter may not see.
pub topic_match_iff :
    (filter topic : Bytes)
    → (topic_match filter topic ≡ true)
      ↔ (Matches (split filter) (split topic) × ¬ IsHidden filter topic)
unfolding topic_match
topic_match_iff filter topic = (
  λ h. (match_parts-Matches (split filter) (split topic) (ground arith), λ hid. ground arith),
  λ (m, shown). ground (arith, Matches-match_parts m),
)
