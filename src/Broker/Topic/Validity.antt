-- ===== src/Broker/Topic/Validity.antt =====
-- What `TopicValid` and `TopicFilterValid` accept, and how a filter with no wildcard matches.
use dmqtt.Base.{
  ℕ, Bytes, List, [], ◌∷◌, ◌++◌, length, nat_beq, nat_beq_iff, ◌==◌, bytes_eq, bytes_beq_iff, true,
  false, ◌≡◌, refl, ap, ◌≢◌, ◌↔◌, ◌⊎◌, inl, inr, arith, Bool-cases, ◌∙◌, sym, All,
}
use dmqtt.Broker.Topic.{
  slash, hash, plus, cons_head, split, contains, starts_with, match_parts, topic_match, topic_valid,
  is_last, valid_parts, topic_filter_valid,
}

-- strings.Join(ps, "/"), to undo the split.
pub join : List Bytes → Bytes
join [] = []
join (p ∷ []) = p
join (p ∷ q ∷ ps) = p ++ (slash ∷ join (q ∷ ps))

join-cons_head : (c : ℕ) (ps : List Bytes) → ps ≢ [] → join (cons_head c ps) ≡ c ∷ join ps
unfolding join cons_head
join-cons_head c [] h = absurd (h refl)
join-cons_head c (p ∷ []) h = refl
join-cons_head c (p ∷ q ∷ ps) h = refl

split-ne-nil : (s : Bytes) → split s ≢ []
unfolding split
split-ne-nil [] = λ e. cc
split-ne-nil (c ∷ s) = elim (Bool-cases (nat_beq c slash)) [
  | inl e ↦ rw e (λ h. cc)
  | inr ne ↦ rw ne (cons_head-ne-nil (split s))
]
  where
    cons_head-ne-nil : (ps : List Bytes) → cons_head c ps ≢ []
    cons_head-ne-nil [] = λ e. cc
    cons_head-ne-nil (p ∷ ps) = λ e. cc

join_nil : (ps : List Bytes) → ps ≢ [] → join ([] ∷ ps) ≡ slash ∷ join ps
unfolding join
join_nil [] h = absurd (h refl)
join_nil (p ∷ ps) h = refl

join-split : (s : Bytes) → join (split s) ≡ s
unfolding split
join-split [] = unfold join in refl
join-split (c ∷ s) = elim (Bool-cases (nat_beq c slash)) [
  | inl e ↦
      rw e (join_nil (split s) (split-ne-nil s) ∙ ground (arith, join-split s, nat_beq_iff c slash))
  | inr ne ↦ rw ne (join-cons_head c (split s) (split-ne-nil s) ∙ ap (◌∷◌ c) (join-split s))
]

split-injective : (s t : Bytes) → split s ≡ split t → s ≡ t
split-injective s t e = sym (join-split s) ∙ ap join e ∙ join-split t

-- A level with no wildcard character.
abbrev pub IsPlain : Bytes → Type 0
IsPlain p = (contains b'#' p ≡ false) × (contains b'+' p ≡ false)

cons_head-All :
    (c : ℕ) (ps : List Bytes)
    → (nat_beq c b'#' ≡ false) × (nat_beq c b'+' ≡ false)
    → All IsPlain ps
    → All IsPlain (cons_head c ps)
unfolding cons_head contains
cons_head-All c [] h a = ground arith
cons_head-All c (p ∷ ps) h a = ground arith

split-All-IsPlain : (s : Bytes) → IsPlain s → All IsPlain (split s)
unfolding split contains
split-All-IsPlain [] h = ground arith
split-All-IsPlain (c ∷ s) h = ground (arith, split-All-IsPlain s, cons_head-All c (split s))

match_parts_plain :
    (fs ts : List Bytes)
    → All IsPlain fs
    → match_parts fs ts (nat_beq (length fs) (length ts)) ≡ true
    → fs ≡ ts
unfolding match_parts contains
match_parts_plain [] [] a h = refl
match_parts_plain [] (t ∷ ts) a h = ground arith
match_parts_plain (f ∷ fs) [] a h = ground (arith, bytes_beq_iff f hash)
match_parts_plain (f ∷ fs) (t ∷ ts) a h = ground (
  arith,
  bytes_beq_iff f hash,
  bytes_beq_iff f plus,
  bytes_beq_iff f t,
  match_parts_plain fs ts a.1,
)

match_parts_self : (ts : List Bytes) → match_parts ts ts (nat_beq (length ts) (length ts)) ≡ true
unfolding match_parts
match_parts_self [] = refl
match_parts_self (t ∷ ts) = ground (arith, match_parts_self ts, bytes_beq_iff t t)

starts_with-contains : (c : ℕ) (s : Bytes) → contains c s ≡ false → starts_with c s ≡ false
unfolding contains
starts_with-contains c [] h = refl
starts_with-contains c (b ∷ s) h = ground arith

-- A filter with no wildcard character matches exactly the topic that is spelled like it.
pub topic_match_plain :
    (filter topic : Bytes) → IsPlain filter → (topic_match filter topic ≡ true) ↔ (filter ≡ topic)
unfolding topic_match
topic_match_plain filter topic h = (
  λ m.
      split-injective filter topic (
        match_parts_plain (split filter) (split topic) (split-All-IsPlain filter h) (ground arith)),
  λ e. rw (← e) (
      ground (
        arith,
        match_parts_self (split filter),
        starts_with-contains b'#' filter,
        starts_with-contains b'+' filter,
      )),
)

-- The levels of a well-formed filter: `#` stands alone and last, `+` stands alone in its level.
abbrev pub IsFilter : List Bytes → Type 0
IsFilter [] = Unit {0}
IsFilter (p ∷ ps) =
    ((p ≡ hash) × (ps ≡ [])) ⊎ (((p ≡ plus) × IsFilter ps) ⊎ (IsPlain p × IsFilter ps))

is_last-eq-nil : (ps : List Bytes) → is_last ps ≡ true → ps ≡ []
is_last-eq-nil [] h = refl
is_last-eq-nil (p ∷ ps) h = cc

wildcards : (contains b'#' plus ≡ false) × (contains b'+' hash ≡ false)
unfolding contains
wildcards = (refl, refl)

valid_parts_sound : (ps : List Bytes) → valid_parts ps ≡ true → IsFilter ps
unfolding valid_parts
valid_parts_sound [] h = tt
valid_parts_sound (p ∷ ps) h = elim (Bool-cases (contains b'#' p)) [
  | inl c ↦ inl ((bytes_beq_iff p hash).0 (ground arith), is_last-eq-nil ps (ground arith))
  | inr no_hash ↦ inr (elim (Bool-cases (contains b'+' p)) [
    | inl c ↦ inl ((bytes_beq_iff p plus).0 (ground arith), valid_parts_sound ps (ground arith))
    | inr no_plus ↦ inr ((no_hash, no_plus), valid_parts_sound ps (ground arith))
  ])
]

valid_parts_complete : (ps : List Bytes) → IsFilter ps → valid_parts ps ≡ true
unfolding valid_parts
valid_parts_complete [] h = refl
valid_parts_complete (p ∷ ps) (inl (e, last)) = rw (e, last) (ground (arith, wildcards))
valid_parts_complete (p ∷ ps) (inr (inl (e, r))) =
    rw e (ground (arith, wildcards, valid_parts_complete ps r))
valid_parts_complete (p ∷ ps) (inr (inr (plain, r))) = ground (arith, valid_parts_complete ps r)

-- `TopicFilterValid` accepts exactly the non-empty texts whose levels form a filter: `#` alone in
-- the last level, `+` alone in its level, and no wildcard elsewhere.
pub topic_filter_valid_iff :
    (filter : Bytes)
    → (topic_filter_valid filter ≡ true) ↔ ((filter ≢ []) × IsFilter (split filter))
unfolding topic_filter_valid
topic_filter_valid_iff filter = (
  λ h. (
    λ e. ground (arith, bytes_beq_iff filter []),
    valid_parts_sound (split filter) (ground arith),
  ),
  λ (ne, f). elim (Bool-cases (filter == [])) [
    | inl e ↦ absurd (ne ((bytes_beq_iff filter []).0 e))
    | inr e ↦ rw e (valid_parts_complete (split filter) f)
  ],
)

All-IsPlain-IsFilter : (ps : List Bytes) → All IsPlain ps → IsFilter ps
All-IsPlain-IsFilter [] a = tt
All-IsPlain-IsFilter (p ∷ ps) (plain, a) = inr (inr (plain, All-IsPlain-IsFilter ps a))

topic_valid-IsPlain : (name : Bytes) → topic_valid name ≡ true → (name ≢ []) × IsPlain name
unfolding topic_valid
topic_valid-IsPlain name h = (λ e. ground (arith, bytes_beq_iff name []), ground arith)

-- Every topic name that may be published to is a valid filter, and as a filter it matches that
-- topic alone.
pub topic_valid-filter :
    (name topic : Bytes)
    → topic_valid name ≡ true
    → (topic_filter_valid name ≡ true) × ((topic_match name topic ≡ true) ↔ (name ≡ topic))
topic_valid-filter name topic h =
    let (ne, plain) = topic_valid-IsPlain name h in
    (
      (topic_filter_valid_iff name).1
          (ne, All-IsPlain-IsFilter (split name) (split-All-IsPlain name plain)),
      topic_match_plain name topic plain,
    )
