-- ===== src/Cluster/Gossip.antt =====
-- internal/cluster/gossip_broadcast.go: which message takes the place of another one that still waits in
-- the queue of memberlist, and what the loss of that one means for the node that receives the gossip.
use dmqtt.Base.{
  ℕ, Bytes, ◌==◌, bytes_eq, bytes_beq_iff, if◌then◌else◌, Bool, true, false, ◌&&◌, none, some, ◌≡◌,
  ◌≢◌, arith,
}
use dmqtt.Base.Map.{lookup-insert, lookup-erase}
use dmqtt.Base.Nested.{at-remove_at}
use dmqtt.Cluster.Connections as Connections
use dmqtt.Cluster.Connections.{
  ConnectionIndex, ConnBroadcast, conn, disconn, unknown, lookup_device, handle_conn_broadcast,
}
use dmqtt.Cluster.RemoteSubs as RemoteSubs
use dmqtt.Cluster.RemoteSubs.{
  RemoteSubIndex, SubBroadcast, sub, unsub, raise_sub, handle_sub_broadcast,
}
use dmqtt.Cluster.RemoteSubs.Laws.{qos_of, highest, at-raise_sub}

-- The two types of broadcasts in the queue.
pub data GossipItem : Type 0 where
  sub_item : SubBroadcast → GossipItem
  conn_item : ConnBroadcast → GossipItem

-- Whether the first, which is newer, takes the place of the second.
unfoldable pub invalidates : GossipItem → GossipItem → Bool
invalidates (sub_item msg) (sub_item other) =
    (msg.node_id == other.node_id) && (msg.topic_filter == other.topic_filter)
invalidates (sub_item msg) (conn_item other) = false
invalidates (conn_item msg) (sub_item other) = false
invalidates (conn_item msg) (conn_item other) = msg.device_id == other.device_id

lookup-handle_conn_broadcast :
    (idx : ConnectionIndex) (msg : ConnBroadcast) (e : Bytes)
    → lookup_device (handle_conn_broadcast idx msg) e ≡ (elim msg.kind [
      | conn ↦ if msg.device_id == e then some msg.node_id else lookup_device idx e
      | disconn ↦ if msg.device_id == e then none else lookup_device idx e
      | unknown ↦ lookup_device idx e
    ])
unfolding handle_conn_broadcast lookup_device Connections.add Connections.remove
lookup-handle_conn_broadcast idx msg e = ground (
  arith,
  lookup-insert msg.device_id e msg.node_id idx.devices,
  lookup-erase msg.device_id e idx.devices,
  bytes_beq_iff msg.device_id e,
)

-- A connection or disconnection that takes the place of an earlier one in the queue: whoever receives
-- only the later one has the same table as one that receives both.
pub handle_conn_broadcast-invalidates :
    (idx : ConnectionIndex) (old new : ConnBroadcast) (e : Bytes)
    → new.kind ≢ unknown
    → invalidates (conn_item new) (conn_item old) ≡ true
    → lookup_device (handle_conn_broadcast (handle_conn_broadcast idx old) new) e
      ≡ lookup_device (handle_conn_broadcast idx new) e
unfolding invalidates
handle_conn_broadcast-invalidates idx old new e known h = ground (
  arith,
  lookup-handle_conn_broadcast (handle_conn_broadcast idx old) new e,
  lookup-handle_conn_broadcast idx old e,
  lookup-handle_conn_broadcast idx new e,
  bytes_beq_iff new.device_id old.device_id,
  bytes_beq_iff new.device_id e,
  bytes_beq_iff old.device_id e,
)

-- A subscription that follows an unsubscription of the same filter takes its place in the queue.
-- Whoever receives both has the QoS of the new subscription; one that receives only the new one keeps
-- the QoS from before the unsubscription if that is higher.
pub handle_sub_broadcast-invalidates :
    (r : RemoteSubIndex) (node filter : Bytes) (q : ℕ)
    → let old : SubBroadcast = record {
      kind = unsub;
      node_id = node;
      topic_filter = filter;
      qos = 0;
    } in
      let new : SubBroadcast = record {
        kind = sub;
        node_id = node;
        topic_filter = filter;
        qos = q;
      } in
      (invalidates (sub_item new) (sub_item old) ≡ true)
      × (qos_of (handle_sub_broadcast (handle_sub_broadcast r old) new) node filter ≡ some q)
      × (qos_of (handle_sub_broadcast r new) node filter ≡ some (highest (qos_of r node filter) q))
unfolding invalidates handle_sub_broadcast RemoteSubs.add RemoteSubs.remove
handle_sub_broadcast-invalidates r node filter q =
    let removed = RemoteSubs.remove r node filter in
    (
      ground (arith, bytes_beq_iff node node, bytes_beq_iff filter filter),
      ground (
        arith,
        at-raise_sub node node filter filter q removed.subs,
        at-remove_at filter filter node node r.subs,
        bytes_beq_iff node node,
        bytes_beq_iff filter filter,
      ),
      ground (
        arith,
        at-raise_sub node node filter filter q r.subs,
        bytes_beq_iff node node,
        bytes_beq_iff filter filter,
      ),
    )
