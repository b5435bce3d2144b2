-- ===== src/Broker/Runs.antt =====
-- The broker's stores on concrete inputs, and their theorems there.
use dmqtt.Base.{
  ℕ, Bytes, [], ◌∷◌, ◌≤◌, ◌+◌, ◌≡◌, ◌≢◌, ◌↔◌, refl, true, false, not, ◌&&◌, arith, ltb, ◌==◌,
  bytes_eq, nat_eq, if◌then◌else◌, none, some, codes,
}
use dmqtt.Base.Map.{lookup, insert, IsMap}
use dmqtt.Base.Nested.{or_empty, at}
use dmqtt.Broker.Topic.{
  split, contains, match_parts, topic_match, topic_valid, valid_parts, topic_filter_valid,
}
use dmqtt.Broker.Topic.Matching.{Matches, IsHidden, topic_match_iff}
use dmqtt.Broker.Topic.Validity.{IsFilter, topic_filter_valid_iff}
use dmqtt.Broker.Inflight
use dmqtt.Broker.Inflight.{
  InflightMessage, InflightStore, add-remove-IsValid, new-IsValid, new_inflight_store, get-add,
  get-remove,
}
use dmqtt.Broker.Dedup
use dmqtt.Broker.Dedup.{
  DedupStore, dedup_key, is_duplicate, mark_received, cleanup, new_dedup_store,
}
use dmqtt.Broker.Dedup.Answers.{is_duplicate-mark_received}
use dmqtt.Broker.Subscription
use dmqtt.Broker.Subscription.{SubscriptionIndex, new_subscription_index, match_topic}
use dmqtt.Broker.Subscription.Lookup.{qos_in, OneEach}
use dmqtt.Broker.Subscription.Index.{
  IsConsistent, new-IsConsistent, subscription_table, subscriptions-IsConsistent,
}
use dmqtt.Broker.Subscription.Match.{match_topic_upper, match_topic_attained}

match_deep : topic_match (codes "sport/+/player/#") (codes "sport/tennis/player") ≡ true
unfolding topic_match split match_parts
match_deep = refl

match_short : topic_match (codes "sport/+") (codes "sport") ≡ false
unfolding topic_match split match_parts
match_short = refl

match_sys : topic_match (codes "#") (codes "$SYS/uptime") ≡ false
unfolding topic_match split match_parts
match_sys = refl

filter_bad : topic_filter_valid (codes "a/#/b") ≡ false
unfolding topic_filter_valid split valid_parts contains
filter_bad = refl

topic_match_iff_example :
    (topic_match (codes "a/+") (codes "a/b") ≡ true)
    ↔ (Matches (split (codes "a/+")) (split (codes "a/b")) × ¬ IsHidden (codes "a/+") (codes "a/b"))
topic_match_iff_example = topic_match_iff (codes "a/+") (codes "a/b")

topic_filter_valid_iff_example :
    (topic_filter_valid (codes "a/#") ≡ true)
    ↔ ((codes "a/#" ≢ []) × IsFilter (split (codes "a/#")))
topic_filter_valid_iff_example = topic_filter_valid_iff (codes "a/#")

plain_topic : topic_valid (codes "a/b") ≡ true
unfolding topic_valid contains
plain_topic = refl

abbrev message : InflightMessage
message = record { packet_id = 7; topic = codes "a"; payload = 1 ∷ []; qos = 1; timestamp = 0 }

add-remove-IsValid_example :
    Inflight.IsValid (Inflight.add (new_inflight_store 2) message).0
    × Inflight.IsValid (Inflight.remove (new_inflight_store 2) 7)
add-remove-IsValid_example = add-remove-IsValid (new_inflight_store 2) message 7 (new-IsValid 2)

dedup_key_run : dedup_key (codes "c:1") 20 ≡ codes "c:1:20"
unfolding dedup_key Dedup.decimal
dedup_key_run = refl

abbrev dedup_store : DedupStore
dedup_store = record { entries = []; ttl = 100 }

is_duplicate-mark_received_example :
    ((is_duplicate (mark_received dedup_store (codes "c") 5 10) (codes "c") 5 110).1 ≡ (
      if (codes "c" == codes "c") && (◌==◌ {A = ℕ} 5 5)
      then not (ltb (10 + 100) 110)
      else (is_duplicate dedup_store (codes "c") 5 110).1))
    × ((is_duplicate (Dedup.remove dedup_store (codes "c") 5) (codes "c") 5 110).1 ≡ (
        if (codes "c" == codes "c") && (◌==◌ {A = ℕ} 5 5)
        then false
        else (is_duplicate dedup_store (codes "c") 5 110).1))
is_duplicate-mark_received_example =
    is_duplicate-mark_received dedup_store (codes "c") (codes "c") 5 5 10 110 (omega arith)
      (omega arith)

-- Client `c` at `a/b` with QoS 1 and at `a/#` with QoS 2.
abbrev two_filters : SubscriptionIndex
two_filters = record {
  filters =
      (codes "a/b", (codes "c", 1) ∷ []) ∷ (codes "a/#", (codes "c", 2) ∷ (codes "d", 0) ∷ []) ∷ [];
  clients =
      (codes "c", (codes "a/b", tt) ∷ (codes "a/#", tt) ∷ [])
      ∷ (codes "d", (codes "a/#", tt) ∷ [])
      ∷ [];
}

two_filters_match : match_topic two_filters (codes "a/b") ≡ (codes "c", 2) ∷ (codes "d", 0) ∷ []
unfolding match_topic Subscription.match_loop Subscription.raise_all Subscription.raise lookup
    insert topic_match split match_parts
two_filters_match = refl

two_filters-OneEach : OneEach two_filters.filters
unfolding lookup or_empty
two_filters-OneEach f = ground arith

two_filters-IsMap : IsMap two_filters.filters
unfolding lookup
two_filters-IsMap = (refl, (refl, tt))

match_topic_upper_example :
    (r : ℕ) × (lookup (codes "c") (match_topic two_filters (codes "a/b")) ≡ some r) × (1 ≤ r)
unfolding lookup or_empty at topic_match split match_parts
match_topic_upper_example =
    match_topic_upper two_filters (codes "a/b") (codes "c") (codes "a/b") 1 two_filters-IsMap
      two_filters-OneEach refl refl

match_topic_attained_example :
    (f : Bytes) × (topic_match f (codes "a/b") ≡ true)
    × (qos_in two_filters.filters (codes "c") f ≡ some 2)
unfolding lookup
match_topic_attained_example =
    match_topic_attained two_filters (codes "a/b") (codes "c") 2 two_filters-IsMap
      two_filters-OneEach (rw two_filters_match)

abbrev subscribed : SubscriptionIndex
subscribed = Subscription.add new_subscription_index (codes "c") (codes "a") 1

subscribed-IsConsistent : IsConsistent subscribed
subscribed-IsConsistent =
    (subscriptions-IsConsistent new_subscription_index (codes "c") (codes "a") 1 new-IsConsistent).0

subscription_table_example :
    (qos_in (Subscription.add subscribed (codes "c") (codes "a") 2).filters (codes "c") (codes "a")
      ≡ (if (codes "c" == codes "c") && (codes "a" == codes "a")
          then some 2
          else qos_in subscribed.filters (codes "c") (codes "a")))
    × (qos_in
          (Subscription.remove subscribed (codes "c") (codes "a")).filters
          (codes "c")
          (codes "a")
        ≡ (if (codes "c" == codes "c") && (codes "a" == codes "a")
            then none
            else qos_in subscribed.filters (codes "c") (codes "a")))
    × (qos_in (Subscription.remove_all subscribed (codes "c")).filters (codes "c") (codes "a") ≡ (
        if codes "c" == codes "c" then none else qos_in subscribed.filters (codes "c") (codes "a")))
subscription_table_example =
    subscription_table subscribed (codes "c") (codes "a") (codes "c") (codes "a") 2
      subscribed-IsConsistent
