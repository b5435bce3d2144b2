-- ===== src/Cluster/Executor/Redirect.antt =====
-- The connection index after a migration.
use dmqtt.Base.{
  ◌≡◌, ◌∙◌, refl, sym, Bool-cases, ◌⊎◌, inl, inr, Bytes, List, [], ◌∷◌, ◌==◌, bytes_eq,
  bytes_beq_iff, if◌then◌else◌, false, none, Option-cases, arith,
}
use mathlib.Core.List.{Memᴰ}
use dmqtt.Base.Map.{lookup, lookup-erase}
use dmqtt.Cluster.Connections.{ConnectionIndex, set_migrating, is_migrating, lookup_device, remove}
use dmqtt.Cluster.Migration.{ShardMigration}
use dmqtt.Cluster.Executor.{World, Log, mark_migrating, redirect_devices, execute}

-- The device is neither connected nor marked.
abbrev pub IsGone : Bytes → ConnectionIndex → Type 0
IsGone d idx = (lookup_device idx d ≡ none) × (is_migrating idx d ≡ false)

-- One round of the loop.
abbrev redirect : Bytes → ConnectionIndex → ConnectionIndex
redirect d idx = remove (set_migrating idx d false) d

lookup-redirect :
    (d e : Bytes) (idx : ConnectionIndex)
    → lookup_device (redirect d idx) e ≡ (if d == e then none else lookup_device idx e)
unfolding lookup_device remove set_migrating
lookup-redirect d e idx = elim (Option-cases (lookup d idx.devices)) [
  | inl f ↦ rw (remove, f) (ground (arith, bytes_beq_iff d e))
  | inr (node, f) ↦ rw (remove, f) (lookup-erase d e idx.devices)
]

migrating-remove :
    (d e : Bytes) (idx : ConnectionIndex) → is_migrating (remove idx d) e ≡ is_migrating idx e
unfolding is_migrating remove
migrating-remove d e idx = elim (Option-cases (lookup d idx.devices)) [
  | inl f ↦ rw (remove, f) refl
  | inr (node, f) ↦ rw (remove, f) refl
]

migrating-set_migrating :
    (d e : Bytes) (idx : ConnectionIndex)
    → is_migrating (set_migrating idx d false) e ≡ (if d == e then false else is_migrating idx e)
unfolding is_migrating set_migrating
migrating-set_migrating d e idx = elim (Bool-cases (d == e)) [
  | inl f ↦ rw (is_migrating, lookup-erase d e idx.migrating, f) refl
  | inr f ↦ rw (is_migrating, lookup-erase d e idx.migrating, f) refl
]

migrating-redirect :
    (d e : Bytes) (idx : ConnectionIndex)
    → is_migrating (redirect d idx) e ≡ (if d == e then false else is_migrating idx e)
migrating-redirect d e idx =
    migrating-remove d e (set_migrating idx d false) ∙ migrating-set_migrating d e idx

redirect-IsGone :
    (d e : Bytes) (idx : ConnectionIndex) → (d ≡ e) ⊎ IsGone e idx → IsGone e (redirect d idx)
redirect-IsGone d e idx h =
    ground (arith, lookup-redirect d e idx, migrating-redirect d e idx, bytes_beq_iff d e)

redirect_devices-IsGone :
    (ds : List Bytes) (e : Bytes) (idx : ConnectionIndex)
    → Memᴰ e ds ⊎ IsGone e idx
    → IsGone e (redirect_devices ds idx)
unfolding redirect_devices
redirect_devices-IsGone [] e idx (inr h) = h
redirect_devices-IsGone [] e idx (inl m) = elim m [ ]
redirect_devices-IsGone (d ∷ ds) e idx (inr h) =
    redirect_devices-IsGone ds e (redirect d idx) (inr (redirect-IsGone d e idx (inr h)))
redirect_devices-IsGone (d ∷ ds) e idx (inl (Memᴰ.head p)) =
    redirect_devices-IsGone ds e (redirect d idx) (inr (redirect-IsGone d e idx (inl (sym p))))
redirect_devices-IsGone (d ∷ ds) e idx (inl (Memᴰ.tail m)) =
    redirect_devices-IsGone ds e (redirect d idx) (inl m)

-- After a run every device of the migration is gone from the connection index of this node, neither
-- connected nor marked as migrating, whether its data was sent or not.
pub execute-IsGone :
    (W : World) (m : ShardMigration) (idx : ConnectionIndex) (log : Log W) (d : Bytes)
    → Memᴰ d m.affected_devices
    → IsGone d (execute W m idx log).1
unfolding execute
execute-IsGone W m idx log d h =
    redirect_devices-IsGone m.affected_devices d (mark_migrating m.affected_devices idx) (inl h)
