-- ===== src/Cluster/RemoteSubs.antt =====
-- internal/cluster/remote_subs.go, and the subscription half of gossip_broadcast.go: which filters
-- have subscribers on which other nodes, with the highest QoS. `topicMatch` there is the text of the
-- broker's `TopicMatch`, and `Match` runs its loop over another map.
pub mod Laws
use dmqtt.Base.{
  ℕ, Bytes, List, [], ◌∷◌, ltb, ◌==◌, bytes_eq, if◌then◌else◌, Option, none, some, Bool, true,
  false,
}
use dmqtt.Base.Map.{Map, lookup, erase}
use dmqtt.Base.Nested.{at, put, remove_at}
use dmqtt.Broker.Topic.{topic_match}
use dmqtt.Broker.Subscription.{Entries, Filters, match_loop}

pub record RemoteSubIndex : Type 0 where
  pub subs : Map Bytes Entries
  pub nodes : Map Bytes Filters

unfoldable pub new_remote_sub_index : RemoteSubIndex
new_remote_sub_index = record { subs = []; nodes = [] }

-- The QoS of a node and filter only rises.
unfoldable pub raise_sub : Bytes → Bytes → ℕ → Map Bytes Entries → Map Bytes Entries
raise_sub node filter qos subs = elim (at subs filter node) [
  | none ↦ put filter node qos subs
  | some existing ↦ if ltb existing qos then put filter node qos subs else subs
]

unfoldable pub add : RemoteSubIndex → Bytes → Bytes → ℕ → RemoteSubIndex
add r node filter qos = record {
  subs = raise_sub node filter qos r.subs;
  nodes = put node filter tt r.nodes;
}

unfoldable pub remove : RemoteSubIndex → Bytes → Bytes → RemoteSubIndex
remove r node filter = record {
  subs = remove_at filter node r.subs;
  nodes = remove_at node filter r.nodes;
}

unfoldable pub drop_node : Bytes → Filters → Map Bytes Entries → Map Bytes Entries
drop_node node [] subs = subs
drop_node node ((f, u) ∷ fs) subs = drop_node node fs (remove_at f node subs)

unfoldable pub remove_node : RemoteSubIndex → Bytes → RemoteSubIndex
remove_node r node = elim (lookup node r.nodes) [
  | none ↦ r
  | some fs ↦ record { subs = drop_node node fs r.subs; nodes = erase node r.nodes }
]

unfoldable pub match_topic : RemoteSubIndex → Bytes → Entries
match_topic r topic = match_loop topic r.subs []

-- The `Type` of a SubBroadcast; any other text is logged and changes nothing.
pub data SubKind : Type 0 where
  sub unsub unknown : SubKind

pub record SubBroadcast : Type 0 where
  pub kind : SubKind
  pub node_id : Bytes
  pub topic_filter : Bytes
  pub qos : ℕ

unfoldable pub handle_sub_broadcast : RemoteSubIndex → SubBroadcast → RemoteSubIndex
handle_sub_broadcast idx msg = elim msg.kind [
  | sub ↦ add idx msg.node_id msg.topic_filter msg.qos
  | unsub ↦ remove idx msg.node_id msg.topic_filter
  | unknown ↦ idx
]
