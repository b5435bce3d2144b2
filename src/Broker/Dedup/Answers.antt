-- ===== src/Broker/Dedup/Answers.antt =====
-- What `IsDuplicate` answers after the other operations.
use dmqtt.Base.{
  ℕ, ◌+◌, ◌≤◌, ◌<◌, ◌≡◌, Bytes, ltb, not, ◌==◌, bytes_eq, nat_eq, bytes_beq_iff, if◌then◌else◌,
  Bool, false, ◌&&◌, none, some, Option, arith,
}
use dmqtt.Base.Map.{lookup, lookup-insert, lookup-erase, lookup-retain, IsMap}
use dmqtt.Broker.Dedup.{DedupStore, dedup_key, is_duplicate, mark_received, remove, cleanup}
use dmqtt.Broker.Dedup.Keys.{dedup_key-injective}

-- The answer as a function of the entry that is found.
abbrev answer : ℕ → Option ℕ → Bool
answer now none = false
answer now (some expires_at) = not (ltb expires_at now)

is_duplicate-answer :
    (d : DedupStore) (c : Bytes) (p now : ℕ)
    → (is_duplicate d c p now).1 ≡ answer now (lookup (dedup_key c p) d.entries)
unfolding is_duplicate
is_duplicate-answer d c p now = ground arith

same_key :
    (c c' : Bytes) (p p' : ℕ)
    → p < 65536
    → p' < 65536
    → (dedup_key c p == dedup_key c' p') ≡ ((c == c') && (p == p'))
same_key c c' p p' hp hp' = ground (
  arith,
  bytes_beq_iff (dedup_key c p) (dedup_key c' p'),
  bytes_beq_iff c c',
  dedup_key-injective c c' p p' hp hp',
)

-- A message that was marked counts as a duplicate up to and including the end of its time to live,
-- and marking or releasing it changes the answer for no other client or identifier.
pub is_duplicate-mark_received :
    (d : DedupStore) (c c' : Bytes) (p p' t now : ℕ)
    → p < 65536
    → p' < 65536
    → ((is_duplicate (mark_received d c p t) c' p' now).1 ≡ (
        if (c == c') && (p == p') then not (ltb (t + d.ttl) now) else (is_duplicate d c' p' now).1))
      × ((is_duplicate (remove d c p) c' p' now).1
          ≡ (if (c == c') && (p == p') then false else (is_duplicate d c' p' now).1))
unfolding is_duplicate mark_received remove
is_duplicate-mark_received d c c' p p' t now hp hp' =
    let k = dedup_key c p in
    let k' = dedup_key c' p' in
    ground (
      arith,
      lookup-insert k k' (t + d.ttl) d.entries,
      lookup-erase k k' d.entries,
      same_key c c' p p' hp hp',
    )

-- Expired entries may be swept at any time, and a question may be asked at any time: neither
-- changes any answer from then on.
pub is_duplicate-cleanup :
    (d : DedupStore) (c c' : Bytes) (p p' t now : ℕ)
    → IsMap d.entries
    → t ≤ now
    → ((is_duplicate (cleanup d t) c p now).1 ≡ (is_duplicate d c p now).1)
      × ((is_duplicate (is_duplicate d c' p' t).0 c p now).1 ≡ (is_duplicate d c p now).1)
unfolding is_duplicate cleanup
is_duplicate-cleanup d c c' p p' t now m h =
    let k = dedup_key c p in
    let k' = dedup_key c' p' in
    ground (
      arith,
      lookup-retain (λ (x : ℕ). not (ltb x t)) k d.entries m,
      lookup-erase k' k d.entries,
      bytes_beq_iff k' k,
    )
