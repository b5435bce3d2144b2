-- ===== src/Broker/Inflight.antt =====
-- internal/broker/inflight.go: the messages that wait for their acknowledgement.
use dmqtt.Base.{
  ℕ, ◌≤◌, ◌<◌, ◌≡◌, Bytes, length, leb, ◌==◌, nat_eq, if◌then◌else◌, Bool, true, false, ◌⊎◌, inl,
  inr, Option, none, some, [], arith, Bool-cases,
}
use dmqtt.Base.Map.{
  Map, lookup, insert, erase, lookup-insert, lookup-erase, IsMap, insert-IsMap, erase-IsMap,
  length-insert-le, length-erase-le,
}

pub record InflightMessage : Type 0 where
  pub packet_id : ℕ
  pub topic : Bytes
  pub payload : Bytes
  pub qos : ℕ
  pub timestamp : ℕ

pub record InflightStore : Type 0 where
  pub messages : Map ℕ InflightMessage
  pub limit : ℕ

unfoldable pub new_inflight_store : ℕ → InflightStore
new_inflight_store limit = record { messages = []; limit = limit }

unfoldable pub add : InflightStore → InflightMessage → InflightStore × Bool
add s msg =
    if leb s.limit (length s.messages)
    then (s, false)
    else (record s { messages = insert msg.packet_id msg s.messages }, true)

unfoldable pub get : InflightStore → ℕ → Option InflightMessage
get s packet_id = lookup packet_id s.messages

unfoldable pub remove : InflightStore → ℕ → InflightStore
remove s packet_id = record s { messages = erase packet_id s.messages }

unfoldable pub count : InflightStore → ℕ
count s = length s.messages

pub record IsValid (s : InflightStore) : Type 0 where
  pub one_each : IsMap s.messages
  pub within : length s.messages ≤ s.limit

pub new-IsValid : (limit : ℕ) → IsValid (new_inflight_store limit)
unfolding new_inflight_store
new-IsValid limit = record { one_each = tt; within = omega arith }

-- The store never holds more messages than its limit, nor two under one packet identifier: adding
-- and removing keep that.
pub add-remove-IsValid :
    (s : InflightStore) (msg : InflightMessage) (p : ℕ)
    → IsValid s
    → IsValid (add s msg).0 × IsValid (remove s p)
unfolding add remove
add-remove-IsValid s msg p v = (
  elim (Bool-cases (leb s.limit (length s.messages))) [
    | inl full ↦ rw full v
    | inr room ↦ rw room (record {
      one_each = insert-IsMap msg.packet_id msg s.messages v.one_each;
      within = ground (arith, length-insert-le msg.packet_id msg s.messages);
    })
  ],
  record {
    one_each = erase-IsMap p s.messages v.one_each;
    within = omega (arith, length-erase-le p s.messages, v.within);
  },
)

-- A message that was taken in is found under its identifier and changes no other; a refused one
-- changes nothing, and it is refused exactly when the store is full.
pub get-add :
    (s : InflightStore) (msg : InflightMessage) (p : ℕ)
    → (((add s msg).1 ≡ true)
        × (count s < s.limit)
        × (get (add s msg).0 p ≡ (if msg.packet_id == p then some msg else get s p)))
      ⊎ (((add s msg).1 ≡ false) × (s.limit ≤ count s) × ((add s msg).0 ≡ s))
unfolding add get count
get-add s msg p = ground (arith, lookup-insert msg.packet_id p msg s.messages)

-- An acknowledged message is gone, and no other is touched.
pub get-remove :
    (s : InflightStore) (p q : ℕ) → get (remove s p) q ≡ (if p == q then none else get s q)
unfolding remove get
get-remove s p q = lookup-erase p q s.messages
