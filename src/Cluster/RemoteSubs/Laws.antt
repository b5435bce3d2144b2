-- ===== src/Cluster/RemoteSubs/Laws.antt =====
-- The remote index as a table from nodes and filters to QoS.
use dmqtt.Base.{
  ℕ, Bytes, [], ◌∷◌, ltb, ◌==◌, bytes_eq, bytes_beq_iff, if◌then◌else◌, Option, none, some, ◌&&◌,
  ◌≡◌, ◌↔◌, arith, Option-cases, inl, inr,
}
use dmqtt.Base.Map.{Map, lookup}
use dmqtt.Base.Nested.{
  or_empty, at, remove_at, at-put, at-remove_at, at-erase, at_absent, at_present,
}
use dmqtt.Broker.Subscription.{Entries, Filters}
use dmqtt.Cluster.RemoteSubs.{
  RemoteSubIndex, new_remote_sub_index, raise_sub, add, remove, drop_node, remove_node,
  SubBroadcast, handle_sub_broadcast,
}

-- The QoS at which a node subscribes to a filter.
abbrev pub qos_of : RemoteSubIndex → Bytes → Bytes → Option ℕ
qos_of r node filter = at r.subs filter node

-- Both sides of the index hold the same pairs.
abbrev pub IsConsistent : RemoteSubIndex → Type 0
IsConsistent r = (n f : Bytes) → (qos_of r n f ≡ none) ↔ (at r.nodes n f ≡ none)

pub new-remote_subs : IsConsistent new_remote_sub_index
unfolding new_remote_sub_index at lookup or_empty
new-remote_subs n f = ground arith

abbrev pub highest : Option ℕ → ℕ → ℕ
highest none q = q
highest (some x) q = if ltb x q then q else x

pub at-raise_sub :
    (n m f g : Bytes) (q : ℕ) (subs : Map Bytes Entries)
    → at (raise_sub n f q subs) g m
      ≡ (if (n == m) && (f == g) then some (highest (at subs f n) q) else at subs g m)
unfolding raise_sub
at-raise_sub n m f g q subs =
    ground (arith, at-put f g n m q subs, bytes_beq_iff n m, bytes_beq_iff f g)

at-drop_node :
    (n m g : Bytes) (fs : Filters) (subs : Map Bytes Entries)
    → at (drop_node n fs subs) g m ≡ (
        if n == m then (elim (lookup g fs) [ none ↦ at subs g m | some u ↦ none ]) else at subs g m)
unfolding drop_node lookup
at-drop_node n m g [] subs = ground arith
at-drop_node n m g ((f, u) ∷ fs) subs =
    ground (arith, at-drop_node n m g fs (remove_at f n subs), at-remove_at f g n m subs)

qos_of-remove_node :
    (r : RemoteSubIndex) (n m g : Bytes)
    → IsConsistent r
    → qos_of (remove_node r n) m g ≡ (if n == m then none else qos_of r m g)
unfolding remove_node
qos_of-remove_node r n m g v = elim (Option-cases (lookup n r.nodes)) [
  | inl h ↦ rw (h, remove_node) (ground (arith, v n g, at_absent r.nodes n g h, bytes_beq_iff n m))
  | inr (fs, h) ↦
      rw (h, remove_node)
        (ground (
          arith,
          at-drop_node n m g fs r.subs,
          v n g,
          at_present r.nodes n g fs h,
          bytes_beq_iff n m,
        ))
]

noted-remove_node :
    (r : RemoteSubIndex) (n m g : Bytes)
    → at (remove_node r n).nodes m g ≡ (if n == m then none else at r.nodes m g)
unfolding remove_node
noted-remove_node r n m g = elim (Option-cases (lookup n r.nodes)) [
  | inl h ↦ rw (h, remove_node) (ground (arith, at_absent r.nodes n g h, bytes_beq_iff n m))
  | inr (fs, h) ↦ rw (h, remove_node) (at-erase n m g r.nodes)
]

-- Every gossip about subscriptions, and the loss of a node, keeps the two sides of the index in
-- agreement.
pub remote_subs-IsConsistent :
    (r : RemoteSubIndex) (msg : SubBroadcast) (n : Bytes)
    → IsConsistent r
    → IsConsistent (handle_sub_broadcast r msg) × IsConsistent (remove_node r n)
unfolding handle_sub_broadcast add remove
remote_subs-IsConsistent r msg n v = (
  λ m g.
      let k = msg.node_id in
      let f = msg.topic_filter in
      ground (
        arith,
        v m g,
        at-raise_sub k m f g msg.qos r.subs,
        at-put k m f g tt r.nodes,
        at-remove_at f g k m r.subs,
        at-remove_at k m f g r.nodes,
      ),
  λ m g. ground (arith, v m g, qos_of-remove_node r n m g v, noted-remove_node r n m g),
)

-- Gossip about a subscription raises one place of the table to the higher QoS, an unsubscription
-- clears one place, and the loss of a node clears exactly its places.
pub remote_sub_table :
    (r : RemoteSubIndex) (n m f g : Bytes) (q : ℕ)
    → IsConsistent r
    → (qos_of (add r n f q) m g
        ≡ (if (n == m) && (f == g) then some (highest (qos_of r n f) q) else qos_of r m g))
      × (qos_of (remove r n f) m g ≡ (if (n == m) && (f == g) then none else qos_of r m g))
      × (qos_of (remove_node r n) m g ≡ (if n == m then none else qos_of r m g))
unfolding add remove
remote_sub_table r n m f g q v = (
  at-raise_sub n m f g q r.subs,
  ground (arith, at-remove_at f g n m r.subs),
  qos_of-remove_node r n m g v,
)
