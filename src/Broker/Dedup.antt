-- ===== src/Broker/Dedup.antt =====
-- internal/broker/dedup.go: the QoS 2 messages that were received and not yet released. Times and
-- the time to live are nanoseconds; `now` is what time.Now() returns in the call.
pub mod Keys
pub mod Answers
use dmqtt.Base.{
  ℕ, zero, suc, ◌+◌, ◌/◌, ◌%◌, Bytes, [], ◌∷◌, ◌++◌, ltb, not, bytes_eq, if◌then◌else◌, Bool, true,
  false, none, some,
}
use dmqtt.Base.Map.{Map, lookup, insert, erase, retain}

-- The value of an entry is its `ExpiresAt`.
pub record DedupStore : Type 0 where
  pub entries : Map Bytes ℕ
  pub ttl : ℕ

unfoldable pub new_dedup_store : ℕ → DedupStore
new_dedup_store ttl = record { entries = []; ttl = ttl }

-- `%d` of a number with at most `k + 1` digits.
unfoldable pub decimal : ℕ → ℕ → Bytes
decimal zero n = (b'0' + n % 10) ∷ []
decimal (suc k) n =
    let front = decimal k (n / 10) in
    if ltb n 10 then (b'0' + n) ∷ [] else front ++ ((b'0' + n % 10) ∷ [])

-- A uint16 has at most five digits.
unfoldable pub dedup_key : Bytes → ℕ → Bytes
dedup_key client_id packet_id = client_id ++ (b':' ∷ decimal 4 packet_id)

unfoldable pub is_duplicate : DedupStore → Bytes → ℕ → ℕ → DedupStore × Bool
is_duplicate d client_id packet_id now =
    let key = dedup_key client_id packet_id in
    elim (lookup key d.entries) [
      | none ↦ (d, false)
      | some expires_at ↦
          if ltb expires_at now
          then (record d { entries = erase key d.entries }, false)
          else (d, true)
    ]

unfoldable pub mark_received : DedupStore → Bytes → ℕ → ℕ → DedupStore
mark_received d client_id packet_id now = record d {
  entries = insert (dedup_key client_id packet_id) (now + d.ttl) d.entries;
}

unfoldable pub remove : DedupStore → Bytes → ℕ → DedupStore
remove d client_id packet_id = record d {
  entries = erase (dedup_key client_id packet_id) d.entries;
}

unfoldable pub cleanup : DedupStore → ℕ → DedupStore
cleanup d now = record d { entries = retain (λ expires_at. not (ltb expires_at now)) d.entries }
