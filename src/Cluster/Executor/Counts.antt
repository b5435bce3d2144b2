-- ===== src/Cluster/Executor/Counts.antt =====
-- Every device is counted once, in whatever batches.
use dmqtt.Base.{
  ℕ, zero, suc, ◌+◌, ◌≤◌, ◌<◌, ◌≡◌, refl, ◌↔◌, Bytes, List, [], ◌∷◌, length, take, drop, Bool, true,
  false, arith, length-take, length-drop,
}
use dmqtt.Cluster.Migration.{
  ShardMigration, completed, failed, advance_phase, record_migrated, record_failed, mark_failed,
  mark_completed,
}
use dmqtt.Cluster.Connections.{ConnectionIndex}
use dmqtt.Cluster.Executor.{
  World, Batch, Progressed, Log, migrate_device, counted, migrate_batch, new_batch, record_batch,
  migrate_batches, batch_size, migrate_phase, finish, execute, run_phases,
}

-- The devices counted so far.
abbrev pub done : ShardMigration → ℕ
done m = m.progress.migrated + m.progress.failures

module _ (W : World) where
  abbrev in_batch : Batch W.Payload → ℕ
  in_batch b = b.batch_migrated + b.batch_failed

  counted_one :
      (b : Batch W.Payload) (r : Log W × Bool) → in_batch (counted W b r) ≡ suc (in_batch b)
  counted_one b (log, true) = omega arith
  counted_one b (log, false) = omega arith

  in_batch-migrate_batch :
      (retries : ℕ) (node : Bytes) (ds : List Bytes) (b : Batch W.Payload)
      → in_batch (migrate_batch W retries node ds b) ≡ in_batch b + length ds
  unfolding migrate_batch
  in_batch-migrate_batch retries node [] b = omega arith
  in_batch-migrate_batch retries node (d ∷ ds) b =
      let r = migrate_device W retries node d b.log in
      omega (arith, counted_one b r, in_batch-migrate_batch retries node ds (counted W b r))

  done-record_batch :
      (m : ShardMigration) (b : Batch W.Payload)
      → done (record_batch W m b).migration ≡ done m + in_batch b
  unfolding record_batch record_migrated record_failed
  done-record_batch m b = omega arith

  done-migrate_batches :
      (fuel size : ℕ) (ds : List Bytes) (r : Progressed W.Payload)
      → length ds ≤ fuel
      → 0 < size
      → done (migrate_batches W fuel size ds r).migration ≡ done r.migration + length ds
  unfolding migrate_batches
  done-migrate_batches zero size [] r h pos = omega arith
  done-migrate_batches zero size (d ∷ ds) r h pos = absurd (omega arith)
  done-migrate_batches (suc fuel) size [] r h pos = omega arith
  done-migrate_batches (suc fuel) size (d ∷ ds) r h pos =
      let m = r.migration in
      let batch = take size (d ∷ ds) in
      let b = migrate_batch W m.config.max_retries m.to_node batch (new_batch W r.log) in
      let shorter : length (drop size (d ∷ ds)) ≤ fuel = omega (arith, length-drop size (d ∷ ds)) in
      omega (
        arith,
        done-migrate_batches fuel size (drop size (d ∷ ds)) (record_batch W m b) shorter pos,
        done-record_batch m b,
        in_batch-migrate_batch m.config.max_retries m.to_node batch (new_batch W r.log),
        length-take size (d ∷ ds),
        length-drop size (d ∷ ds),
      )

  batch_size_positive : (m : ShardMigration) → 0 < batch_size W m
  batch_size_positive m = ground arith

  done-advance_phase : (m : ShardMigration) (t : ℕ) → done (advance_phase m t) ≡ done m
  unfolding advance_phase
  done-advance_phase m t = refl

  finish_cases :
      (m : ShardMigration) (t : ℕ)
      → (done (finish W m t) ≡ done m)
        × (((finish W m t).status ≡ completed) ↔ ((finish W m t).progress.failures ≡ 0))
        × (((finish W m t).status ≡ failed) ↔ (0 < (finish W m t).progress.failures))
  unfolding finish mark_failed mark_completed
  finish_cases m t = ground arith

  -- However the devices fall into batches and whatever the transport answers, a run counts every device
  -- of the migration exactly once, as migrated or as failed; it ends as completed exactly if no failure
  -- is counted, and as failed exactly if one is.
  pub execute-counts :
      (m : ShardMigration) (idx : ConnectionIndex) (log : Log W)
      → (done (execute W m idx log).0.migration ≡ done m + length m.affected_devices)
        × (((execute W m idx log).0.migration.status ≡ completed)
            ↔ ((execute W m idx log).0.migration.progress.failures ≡ 0))
        × (((execute W m idx log).0.migration.status ≡ failed)
            ↔ (0 < (execute W m idx log).0.migration.progress.failures))
  unfolding execute run_phases migrate_phase advance_phase
  execute-counts m idx log =
      let t = W.now log in
      let third = advance_phase (advance_phase (advance_phase m t) t) t in
      let r = migrate_phase W third log in
      let end = W.now r.log in
      let (kept, ends_completed, ends_failed) =
        finish_cases (advance_phase (advance_phase r.migration end) end) end in
      (
        omega (
          arith,
          kept,
          done-migrate_batches (length m.affected_devices) (batch_size W m) m.affected_devices
              (record { log = log; migration = third }) (omega arith) (batch_size_positive m),
        ),
        ends_completed,
        ends_failed,
      )
