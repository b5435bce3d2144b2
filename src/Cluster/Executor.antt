-- ===== src/Cluster/Executor.antt =====
-- internal/cluster/migration_executor.go: one migration carried out. What the executor asks of the
-- broker and of the transport is a log, the newest entry first. What the broker knows of a device
-- (GetOfflineMessages and GetSessionData), whether SendMigrate succeeds and what the clock says may
-- depend on all that has happened, and are parameters. Phases that other goroutines set meanwhile are
-- not considered.
pub mod Deletions
pub mod Counts
pub mod Redirect
mod Runs
use dmqtt.Base.{
  ℕ, zero, suc, ◌+◌, Bytes, List, [], ◌∷◌, ◌++◌, length, take, drop, ltb, nat_beq, if◌then◌else◌,
  Bool, true, false, not, codes,
}
use dmqtt.Broker.Dedup.{decimal}
use dmqtt.Cluster.Migration.{
  ShardMigration, advance_phase, record_migrated, record_failed, mark_failed, mark_completed,
}
use dmqtt.Cluster.Connections.{ConnectionIndex, set_migrating, remove}

-- What the executor does to the connection index before and after the transfer.
unfoldable pub mark_migrating : List Bytes → ConnectionIndex → ConnectionIndex
mark_migrating [] idx = idx
mark_migrating (d ∷ ds) idx = mark_migrating ds (set_migrating idx d true)

unfoldable pub redirect_devices : List Bytes → ConnectionIndex → ConnectionIndex
redirect_devices [] idx = idx
redirect_devices (d ∷ ds) idx = redirect_devices ds (remove (set_migrating idx d false) d)

-- `sends node device payload ok` is one call of SendMigrate and whether it succeeded.
pub data Effect (D : Type 0) : Type 0 where
  disconnects deletes_messages deletes_session : Bytes → Effect D
  sends : Bytes → Bytes → D → Bool → Effect D

pub record World : Type 1 where
  pub Payload : Type 0
  pub gather : List (Effect Payload) → Bytes → Payload
  pub accepts : List (Effect Payload) → Bool
  pub now : List (Effect Payload) → ℕ

-- What a part of the run leaves: the log, and the numbers of devices that were and were not migrated.
pub record Batch (D : Type 0) : Type 0 where
  pub log : List (Effect D)
  pub batch_migrated : ℕ
  pub batch_failed : ℕ

pub record Progressed (D : Type 0) : Type 0 where
  pub log : List (Effect D)
  pub migration : ShardMigration

module _ (W : World) where
  abbrev pub Log : Type 0
  Log = List (Effect W.Payload)

  -- The loop over the attempts that are left, with `break` on success.
  unfoldable pub send_attempts : ℕ → Bytes → Bytes → W.Payload → Log → Log × Bool
  send_attempts zero node device payload log = (log, false)
  send_attempts (suc attempts) node device payload log =
      let ok = W.accepts log in
      let log' = sends node device payload ok ∷ log in
      let rest = send_attempts attempts node device payload log' in
      if ok then (log', true) else rest

  -- The body of the loop over the devices of a batch, and whether the device was migrated.
  unfoldable pub migrate_device : ℕ → Bytes → Bytes → Log → Log × Bool
  migrate_device max_retries node device log =
      let gone = disconnects device ∷ log in
      let (sent, ok) = send_attempts (suc max_retries) node device (W.gather gone device) gone in
      if ok then (deletes_session device ∷ deletes_messages device ∷ sent, true) else (sent, false)

  abbrev pub counted : Batch W.Payload → Log × Bool → Batch W.Payload
  counted b (log, ok) =
      if ok
      then record {
        log = log;
        batch_migrated = suc b.batch_migrated;
        batch_failed = b.batch_failed;
      }
      else record {
        log = log;
        batch_migrated = b.batch_migrated;
        batch_failed = suc b.batch_failed;
      }

  unfoldable pub migrate_batch : ℕ → Bytes → List Bytes → Batch W.Payload → Batch W.Payload
  migrate_batch max_retries node [] b = b
  migrate_batch max_retries node (d ∷ ds) b =
      migrate_batch max_retries node ds (counted b (migrate_device max_retries node d b.log))

  abbrev pub new_batch : Log → Batch W.Payload
  new_batch log = record { log = log; batch_migrated = 0; batch_failed = 0 }

  -- The counts of a batch go into the migration; the pause between batches changes nothing.
  unfoldable pub record_batch : ShardMigration → Batch W.Payload → Progressed W.Payload
  record_batch m b = record {
    log = b.log;
    migration =
        record_failed (record_migrated m b.batch_migrated (W.now b.log)) b.batch_failed
          (W.now b.log);
  }

  -- The loop over the batches of `size` devices, `fuel` of them at most.
  unfoldable pub migrate_batches : ℕ → ℕ → List Bytes → Progressed W.Payload → Progressed W.Payload
  migrate_batches zero size devices r = r
  migrate_batches (suc fuel) size [] r = r
  migrate_batches (suc fuel) size (d ∷ ds) r =
      let m = r.migration in
      let batch = take size (d ∷ ds) in
      let b = migrate_batch m.config.max_retries m.to_node batch (new_batch r.log) in
      migrate_batches fuel size (drop size (d ∷ ds)) (record_batch m b)

  -- `if batchSize <= 0 { batchSize = 1000 }`
  abbrev pub batch_size : ShardMigration → ℕ
  batch_size m = if nat_beq m.config.batch_size 0 then 1000 else m.config.batch_size

  -- A batch has one device at least, so as many batches as devices are enough.
  unfoldable pub migrate_phase : ShardMigration → Log → Progressed W.Payload
  migrate_phase m log =
      migrate_batches (length m.affected_devices) (batch_size m) m.affected_devices
        (record { log = log; migration = m })

  unfoldable pub failure_text : ℕ → Bytes
  failure_text n = decimal n n ++ codes " devices failed to migrate"

  unfoldable pub finish : ShardMigration → ℕ → ShardMigration
  finish m time =
      if ltb 0 m.progress.failures
      then mark_failed m (failure_text m.progress.failures) time
      else mark_completed m time

  -- The migration after all phases, and the log.
  unfoldable pub run_phases : ShardMigration → Log → Progressed W.Payload
  run_phases m log =
      let time = W.now log in
      let third = advance_phase (advance_phase (advance_phase m time) time) time in
      let r = migrate_phase third log in
      let end = W.now r.log in
      record {
        log = r.log;
        migration = finish (advance_phase (advance_phase r.migration end) end) end;
      }

  -- All of it, with the connection index. It returns an error exactly if the status is failed.
  unfoldable pub execute :
      ShardMigration → ConnectionIndex → Log → Progressed W.Payload × ConnectionIndex
  execute m idx log = (
    run_phases m log,
    redirect_devices m.affected_devices (mark_migrating m.affected_devices idx),
  )
