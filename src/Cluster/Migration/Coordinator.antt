-- ===== src/Cluster/Migration/Coordinator.antt =====
-- The coordinator's table of migrations.
use dmqtt.Base.{
  ℕ, ◌+◌, Bytes, [], ◌∷◌, true, false, not, ◌≡◌, ◌⊎◌, inl, inr, refl, arith, if◌then◌else◌, ◌==◌,
  bytes_eq, Option, none, some, Option-cases,
}
use dmqtt.Base.Map.{Map, lookup, retain, lookup-insert, lookup-retain, IsMap}
use dmqtt.Cluster.Migration.{
  ShardMigration, is_terminal, cancel, MigrationCoordinator, get, cancel_by_id, active_count,
  count_running, can_start_more, cleanup_terminal,
}

-- A migration that still matters.
abbrev unfinished : Option ShardMigration → Option ShardMigration
unfinished none = none
unfinished (some m) = if is_terminal m then none else some m

count_running-retain :
    (ms : Map Bytes ShardMigration) (n : ℕ)
    → count_running (retain (λ m. not (is_terminal m)) ms) n ≡ count_running ms n
unfolding count_running retain is_terminal
count_running-retain [] n = refl
count_running-retain ((id, m) ∷ ms) n =
    ground (arith, count_running-retain ms n, count_running-retain ms (n + 1))

-- Cleaning up removes exactly the migrations that have ended, and so changes neither the number of
-- running ones nor whether another may start.
pub cleanup_terminal_lem :
    (mc : MigrationCoordinator) (id : Bytes)
    → IsMap mc.migrations
    → (get (cleanup_terminal mc) id ≡ unfinished (get mc id))
      × (active_count (cleanup_terminal mc) ≡ active_count mc)
      × (can_start_more (cleanup_terminal mc) ≡ can_start_more mc)
unfolding get cleanup_terminal active_count can_start_more
cleanup_terminal_lem mc id m = (
  ground (arith, lookup-retain (λ (x : ShardMigration). not (is_terminal x)) id mc.migrations m),
  count_running-retain mc.migrations 0,
  rw (count_running-retain mc.migrations 0),
)

-- Cancelling answers whether the migration is known, and a known one is cancelled and no other touched.
pub cancel_by_id_lem :
    (mc : MigrationCoordinator) (id other : Bytes) (now : ℕ)
    → (((get mc id ≡ none) × (cancel_by_id mc id now ≡ (mc, false)))
        ⊎ ((m : ShardMigration) × (get mc id ≡ some m)
            × ((cancel_by_id mc id now).1 ≡ true)
            × (get (cancel_by_id mc id now).0 other
                ≡ (if id == other then some (cancel m now) else get mc other))))
unfolding get cancel_by_id
cancel_by_id_lem mc id other now = elim (Option-cases (lookup id mc.migrations)) [
  | inl e ↦ inl (e, rw (e, cancel_by_id))
  | inr (m, e) ↦ inr (
    m,
    e,
    rw (e, cancel_by_id),
    rw (e, cancel_by_id) (lookup-insert id other (cancel m now) mc.migrations),
  )
]
