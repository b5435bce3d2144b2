-- ===== src/Cluster/Connections/Agreement.antt =====
-- The two sides of the connection index agree under every operation.
use dmqtt.Base.{
  Bytes, [], ◌∷◌, ◌==◌, bytes_eq, bytes_beq_iff, if◌then◌else◌, Option, none, some, false, ◌≡◌, ◌≢◌,
  ◌↔◌, refl, arith, Option-cases, inl, inr,
}
use dmqtt.Base.Map.{Map, lookup, erase, lookup-insert, lookup-erase}
use dmqtt.Base.Nested.{or_empty, at, at-put, at-remove_at, at-erase, at_absent, at_present}
use dmqtt.Cluster.Connections.{
  ConnectionIndex, Devices, new_connection_index, leave_previous, add, remove, erase_all,
  remove_node, lookup_device, conn, disconn, handle_conn_broadcast,
}

-- A device is in the set of a node exactly when it is connected to that node: so it is in the set of
-- one node at most.
abbrev pub IsConsistent : ConnectionIndex → Type 0
IsConsistent idx = (d n : Bytes) → (at idx.by_node n d ≡ some tt) ↔ (lookup_device idx d ≡ some n)

pub new-connections : IsConsistent new_connection_index
unfolding new_connection_index at lookup_device lookup or_empty
new-connections d n = ground arith

-- Leaving touches no other device, and afterwards no node but the new one has the device.
at-leave_previous :
    (idx : ConnectionIndex) (d n m e : Bytes)
    → (d == e) ≡ false
    → at (leave_previous idx d n) m e ≡ at idx.by_node m e
unfolding leave_previous
at-leave_previous idx d n m e ne = elim (Option-cases (lookup d idx.devices)) [
  | inl h ↦ rw (h, leave_previous)
  | inr (p, h) ↦ rw (h, leave_previous) (ground (arith, at-remove_at p m d e idx.by_node))
]

left_previous :
    (idx : ConnectionIndex) (d n m : Bytes)
    → IsConsistent idx
    → (n == m) ≡ false
    → at (leave_previous idx d n) m d ≢ some tt
unfolding leave_previous lookup_device
left_previous idx d n m v ne = elim (Option-cases (lookup d idx.devices)) [
  | inl h ↦ rw (h, leave_previous) (λ a. ground (arith, v d m))
  | inr (p, h) ↦
      rw (h, leave_previous)
        (λ a. ground (
          arith,
          v d m,
          at-remove_at p m d d idx.by_node,
          bytes_beq_iff p m,
          bytes_beq_iff p n,
          bytes_beq_iff n m,
          bytes_beq_iff d d,
        ))
]

add-IsConsistent :
    (idx : ConnectionIndex) (d n : Bytes) → IsConsistent idx → IsConsistent (add idx d n)
unfolding add lookup_device
add-IsConsistent idx d n v e m = ground (
  arith,
  v e m,
  lookup-insert d e n idx.devices,
  at-put n m d e tt (leave_previous idx d n),
  at-leave_previous idx d n m e,
  left_previous idx d n m v,
  bytes_beq_iff d e,
  bytes_beq_iff n m,
)

remove-IsConsistent :
    (idx : ConnectionIndex) (d : Bytes) → IsConsistent idx → IsConsistent (remove idx d)
unfolding remove lookup_device
remove-IsConsistent idx d v e m = elim (Option-cases (lookup d idx.devices)) [
  | inl h ↦ rw (h, remove) (v e m)
  | inr (p, h) ↦
      rw (h, remove)
        (ground (
          arith,
          v e m,
          lookup-erase d e idx.devices,
          at-remove_at p m d e idx.by_node,
          bytes_beq_iff p m,
          bytes_beq_iff d e,
        ))
]

erase_all_lem :
    (e : Bytes) (ds : Devices) (devices : Map Bytes Bytes)
    → lookup e (erase_all ds devices)
      ≡ elim (lookup e ds) [ none ↦ lookup e devices | some u ↦ none ]
unfolding erase_all lookup
erase_all_lem e [] devices = refl
erase_all_lem e ((d, u) ∷ ds) devices =
    ground
      (arith, erase_all_lem e ds (erase d devices), lookup-erase d e devices, bytes_beq_iff d e)

unit_found : (o : Option (Unit {0})) → o ≢ none → o ≡ some tt
unit_found none h = absurd (h refl)
unit_found (some u) h = refl

-- What is left after a node has gone.
abbrev pub others : Bytes → Option Bytes → Option Bytes
others n none = none
others n (some m) = if n == m then none else some m

lookup-remove_node :
    (idx : ConnectionIndex) (n e : Bytes)
    → IsConsistent idx
    → lookup_device (remove_node idx n) e ≡ others n (lookup_device idx e)
unfolding remove_node lookup_device
lookup-remove_node idx n e v = elim (Option-cases (lookup n idx.by_node)) [
  | inl h ↦
      rw (h, remove_node)
        (elim (Option-cases (lookup e idx.devices)) [
          | inl k ↦ rw k
          | inr (m, k) ↦ ground (arith, v e n, at_absent idx.by_node n e h, bytes_beq_iff n m)
        ])
  | inr (ds, h) ↦
      rw (h, remove_node)
        (elim (Option-cases (lookup e idx.devices)) [
          | inl k ↦ rw (erase_all_lem e ds idx.devices) (ground arith)
          | inr (m, k) ↦ rw (erase_all_lem e ds idx.devices) (
              ground (
                arith,
                v e n,
                at_present idx.by_node n e ds h,
                bytes_beq_iff n m,
                unit_found (lookup e ds),
              ))
        ])
]

remove_node-IsConsistent :
    (idx : ConnectionIndex) (n : Bytes) → IsConsistent idx → IsConsistent (remove_node idx n)
unfolding remove_node
remove_node-IsConsistent idx n v e m =
    rw (lookup-remove_node idx n e v) (elim (Option-cases (lookup_device idx e)) [
      | inl k ↦ rw k (ground (arith, v e m, by_node e m, bytes_beq_iff n m))
      | inr (p, k) ↦ rw k (ground (arith, v e m, by_node e m, bytes_beq_iff n m, bytes_beq_iff n p))
    ])
  where
    by_node :
        (e m : Bytes)
        → at (remove_node idx n).by_node m e ≡ (if n == m then none else at idx.by_node m e)
    by_node e m = elim (Option-cases (lookup n idx.by_node)) [
      | inl h ↦ rw (h, remove_node) (ground (arith, at_absent idx.by_node n e h, bytes_beq_iff n m))
      | inr (ds, h) ↦ rw (h, remove_node) (at-erase n m e idx.by_node)
    ]

-- However devices connect, move between nodes, leave, or lose their node, the two sides of the index
-- agree: a device is in the set of the node that it is connected to, and in no other.
pub connections-IsConsistent :
    (idx : ConnectionIndex) (d n : Bytes)
    → IsConsistent idx
    → IsConsistent (add idx d n) × IsConsistent (remove idx d) × IsConsistent (remove_node idx n)
connections-IsConsistent idx d n v =
    (add-IsConsistent idx d n v, remove-IsConsistent idx d v, remove_node-IsConsistent idx n v)

-- The index as a table from devices to nodes: connecting writes one place, disconnecting clears one,
-- and losing a node clears exactly the places that hold it.
pub connection_table :
    (idx : ConnectionIndex) (d n e : Bytes)
    → IsConsistent idx
    → (lookup_device (add idx d n) e ≡ (if d == e then some n else lookup_device idx e))
      × (lookup_device (remove idx d) e ≡ (if d == e then none else lookup_device idx e))
      × (lookup_device (remove_node idx n) e ≡ others n (lookup_device idx e))
unfolding add remove lookup_device
connection_table idx d n e v = (
  lookup-insert d e n idx.devices,
  ground (arith, lookup-erase d e idx.devices, bytes_beq_iff d e),
  lookup-remove_node idx n e v,
)

-- A disconnection that is announced late, by the node that a device has left, removes the device
-- although it is connected elsewhere by then: the handler does not look at the announcing node.
pub late_disconn :
    (idx : ConnectionIndex) (d old new : Bytes)
    → lookup_device
        (handle_conn_broadcast
          (handle_conn_broadcast idx (record { kind = conn; node_id = new; device_id = d }))
          (record { kind = disconn; node_id = old; device_id = d }))
        d
      ≡ none
unfolding handle_conn_broadcast remove lookup_device
late_disconn idx d old new =
    let idx' = add idx d new in ground (arith, lookup-erase d d idx'.devices, bytes_beq_iff d d)
