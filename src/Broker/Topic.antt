-- ===== src/Broker/Topic.antt =====
-- internal/broker/topic_matcher.go: topic names, topic filters and their matching.
pub mod Matching
pub mod Validity
use dmqtt.Base.{
  ℕ, Bytes, List, [], ◌∷◌, length, nat_beq, ◌==◌, bytes_eq, if◌then◌else◌, Bool, true, false, not,
  ◌&&◌, ◌||◌,
}

abbrev pub slash : ℕ
slash = b'/'

abbrev pub hash : Bytes
hash = b'#' ∷ []

abbrev pub plus : Bytes
plus = b'+' ∷ []

-- The first part grows by one byte.
unfoldable pub cons_head : ℕ → List Bytes → List Bytes
cons_head c [] = (c ∷ []) ∷ []
cons_head c (p ∷ ps) = (c ∷ p) ∷ ps

-- strings.Split(s, "/")
unfoldable pub split : Bytes → List Bytes
unfolding cons_head
split [] = [] ∷ []
split (c ∷ s) = if nat_beq c slash then [] ∷ split s else cons_head c (split s)

-- strings.Contains(s, "c") for a text of one byte.
unfoldable pub contains : ℕ → Bytes → Bool
contains c [] = false
contains c (b ∷ s) = nat_beq b c || contains c s

abbrev pub starts_with : ℕ → Bytes → Bool
starts_with c [] = false
starts_with c (b ∷ s) = nat_beq b c

-- The loop over the parts of the filter. The second list is what `i` has not reached of the topic's
-- parts, and `same_length` the test behind the loop.
unfoldable pub match_parts : List Bytes → List Bytes → Bool → Bool
match_parts [] ts same_length = same_length
match_parts (f ∷ fs) [] same_length = f == hash
match_parts (f ∷ fs) (t ∷ ts) same_length =
    let rest = match_parts fs ts same_length in
    if f == hash then true else if f == plus then rest else if not (f == t) then false else rest

unfoldable pub topic_match : Bytes → Bytes → Bool
topic_match filter topic =
    let filter_parts = split filter in
    let topic_parts = split topic in
    if starts_with b'$' topic && (starts_with b'+' filter || starts_with b'#' filter)
    then false
    else match_parts filter_parts topic_parts (nat_beq (length filter_parts) (length topic_parts))

unfoldable pub topic_valid : Bytes → Bool
topic_valid topic =
    if topic == [] then false else not (contains b'+' topic) && not (contains b'#' topic)

abbrev is_last : List Bytes → Bool
is_last [] = true
is_last (p ∷ ps) = false

-- The loop over the parts; the head is the last part if nothing follows it.
unfoldable pub valid_parts : List Bytes → Bool
valid_parts [] = true
valid_parts (p ∷ ps) =
    let rest = valid_parts ps in
    if contains b'#' p && (not (p == hash) || not (is_last ps))
    then false
    else if contains b'+' p && not (p == plus)
    then false
    else rest

unfoldable pub topic_filter_valid : Bytes → Bool
topic_filter_valid filter = if filter == [] then false else valid_parts (split filter)
