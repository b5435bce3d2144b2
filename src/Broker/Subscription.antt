-- ===== src/Broker/Subscription.antt =====
-- internal/broker/subscription.go: the index of local subscriptions. A slice of subscriptionEntry is
-- an association list from client to QoS, oldest first; a Go set is a map into the unit type.
pub mod Lookup
pub mod Index
pub mod Match
use dmqtt.Base.{
  ℕ, ◌+◌, Bytes, List, [], ◌∷◌, ltb, ◌==◌, bytes_eq, if◌then◌else◌, Option, none, some, Bool, true,
  false, length, map,
}
use dmqtt.Base.Map.{Map, lookup, insert, erase}
use dmqtt.Base.Nested.{or_empty, is_empty, put, remove_at}
use dmqtt.Broker.Topic.{topic_match}

abbrev pub Entries : Type 0
Entries = Map Bytes ℕ

abbrev pub Filters : Type 0
Filters = Map Bytes (Unit {0})

pub record SubscriptionIndex : Type 0 where
  pub filters : Map Bytes Entries
  pub clients : Map Bytes Filters

unfoldable pub new_subscription_index : SubscriptionIndex
new_subscription_index = record { filters = []; clients = [] }

-- An entry that is there keeps its place and takes the new QoS; else a new one is appended, and the
-- filter is noted for the client.
unfoldable pub add : SubscriptionIndex → Bytes → Bytes → ℕ → SubscriptionIndex
add idx client filter qos =
    let entries = or_empty (lookup filter idx.filters) in
    let filters' = insert filter (insert client qos entries) idx.filters in
    elim (lookup client entries) [
      | some old ↦ record idx { filters = filters' }
      | none ↦ record { filters = filters'; clients = put client filter tt idx.clients }
    ]

-- The loop with `break`: the first entry of the client goes.
unfoldable pub erase_first : Bytes → Entries → Entries
erase_first c [] = []
erase_first c ((d, q) ∷ es) = if d == c then es else (d, q) ∷ erase_first c es

-- The first part of what `Remove` and `RemoveAll` do to one filter.
unfoldable pub cut_entry : Bytes → Bytes → Map Bytes Entries → Map Bytes Entries
cut_entry client filter filters =
    let entries = or_empty (lookup filter filters) in
    elim (lookup client entries) [
      | none ↦ filters
      | some q ↦ insert filter (erase_first client entries) filters
    ]

-- What `Remove` and `RemoveAll` do to the entries of one filter; an empty slice is deleted.
unfoldable pub drop_entry : Bytes → Bytes → Map Bytes Entries → Map Bytes Entries
drop_entry client filter filters =
    let filters' = cut_entry client filter filters in
    if is_empty (or_empty (lookup filter filters')) then erase filter filters' else filters'

unfoldable pub remove : SubscriptionIndex → Bytes → Bytes → SubscriptionIndex
remove idx client filter = record {
  filters = drop_entry client filter idx.filters;
  clients = remove_at client filter idx.clients;
}

unfoldable pub drop_entries : Bytes → Filters → Map Bytes Entries → Map Bytes Entries
drop_entries client [] filters = filters
drop_entries client ((f, u) ∷ fs) filters = drop_entries client fs (drop_entry client f filters)

unfoldable pub remove_all : SubscriptionIndex → Bytes → SubscriptionIndex
remove_all idx client = elim (lookup client idx.clients) [
  | none ↦ idx
  | some fs ↦ record {
    filters = drop_entries client fs idx.filters;
    clients = erase client idx.clients;
  }
]

abbrev key : Bytes × Entries → Bytes
key (f, es) = f

abbrev set_key : Bytes × Unit {0} → Bytes
set_key (f, u) = f

unfoldable pub all_filters : SubscriptionIndex → List Bytes
all_filters idx = map key idx.filters

unfoldable pub client_filters : SubscriptionIndex → Bytes → List Bytes
client_filters idx client = map set_key (or_empty (lookup client idx.clients))

-- `if existing, ok := best[c]; !ok || q > existing { best[c] = q }`
unfoldable pub raise : Bytes → ℕ → Entries → Entries
raise c q best = elim (lookup c best) [
  | none ↦ insert c q best
  | some existing ↦ if ltb existing q then insert c q best else best
]

unfoldable pub raise_all : Entries → Entries → Entries
raise_all [] best = best
raise_all ((c, q) ∷ es) best = raise_all es (raise c q best)

unfoldable pub match_loop : Bytes → Map Bytes Entries → Entries → Entries
match_loop topic [] best = best
match_loop topic ((f, es) ∷ fs) best =
    match_loop topic fs (if topic_match f topic then raise_all es best else best)

-- The matches as pairs of client and QoS.
unfoldable pub match_topic : SubscriptionIndex → Bytes → Entries
match_topic idx topic = match_loop topic idx.filters []

unfoldable pub count_loop : Map Bytes Entries → ℕ → ℕ
count_loop [] count = count
count_loop ((f, es) ∷ fs) count = count_loop fs (count + length es)

unfoldable pub count : SubscriptionIndex → ℕ
count idx = count_loop idx.filters 0
