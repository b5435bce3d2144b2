-- ===== src/Cluster/Executor/Deletions.antt =====
-- No data of a device is deleted before it was sent.
use dmqtt.Base.{
  ℕ, zero, suc, ◌≡◌, refl, Bytes, List, [], ◌∷◌, take, drop, Bool, true, false, Bool-cases, inl,
  inr,
}
use mathlib.Core.List.{Memᴰ}
use dmqtt.Cluster.Migration.{ShardMigration}
use dmqtt.Cluster.Connections.{ConnectionIndex}
use dmqtt.Cluster.Executor.{
  Effect, disconnects, deletes_messages, deletes_session, sends, World, Batch, Progressed, Log,
  send_attempts, migrate_device, counted, migrate_batch, new_batch, record_batch, migrate_batches,
  migrate_phase, execute, run_phases,
}

module _ (W : World) where
  -- A call of SendMigrate for the device that succeeded.
  abbrev pub WasSent : Bytes → Log W → Type 0
  WasSent d log = (node : Bytes) × (payload : W.Payload) × Memᴰ (sends node d payload true) log

  -- Behind every deletion in the log stands a successful send for the device.
  abbrev pub IsSafe : Log W → Type 0
  IsSafe [] = Unit {0}
  IsSafe (disconnects d ∷ log) = IsSafe log
  IsSafe (sends node d payload ok ∷ log) = IsSafe log
  IsSafe (deletes_messages d ∷ log) = WasSent d log × IsSafe log
  IsSafe (deletes_session d ∷ log) = WasSent d log × IsSafe log

  send_attempts-IsSafe :
      (k : ℕ) (node d : Bytes) (x : W.Payload) (log : Log W)
      → IsSafe log
      → IsSafe (send_attempts W k node d x log).0
  unfolding send_attempts
  send_attempts-IsSafe zero node d x log h = h
  send_attempts-IsSafe (suc k) node d x log h = elim (Bool-cases (W.accepts log)) [
    | inl e ↦ rw e h
    | inr e ↦ rw e (send_attempts-IsSafe k node d x (sends node d x false ∷ log) h)
  ]

  send_attempts-WasSent :
      (k : ℕ) (node d : Bytes) (x : W.Payload) (log : Log W)
      → (send_attempts W k node d x log).1 ≡ true
      → WasSent d (send_attempts W k node d x log).0
  unfolding send_attempts
  send_attempts-WasSent zero node d x log = λ h. cc
  send_attempts-WasSent (suc k) node d x log = elim (Bool-cases (W.accepts log)) [
    | inl e ↦ rw e (λ h. (node, x, Memᴰ.head refl))
    | inr e ↦ rw e (send_attempts-WasSent k node d x (sends node d x false ∷ log))
  ]

  tail-WasSent :
      (d : Bytes) (e : Effect W.Payload) (log : Log W) → WasSent d log → WasSent d (e ∷ log)
  tail-WasSent d e log (node, x, m) = (node, x, Memᴰ.tail m)

  migrate_device-IsSafe :
      (retries : ℕ) (node d : Bytes) (log : Log W)
      → IsSafe log
      → IsSafe (migrate_device W retries node d log).0
  unfolding migrate_device
  migrate_device-IsSafe retries node d log h =
      let gone : Log W = disconnects d ∷ log in
      let s = send_attempts W (suc retries) node d (W.gather gone d) gone in
      let safe = send_attempts-IsSafe (suc retries) node d (W.gather gone d) gone h in
      elim (Bool-cases s.1) [
        | inl e ↦
            let sent = send_attempts-WasSent (suc retries) node d (W.gather gone d) gone e in
            rw e (tail-WasSent d (deletes_messages d) s.0 sent, (sent, safe))
        | inr e ↦ rw e safe
      ]

  log-counted : (b : Batch W.Payload) (r : Log W × Bool) → (counted W b r).log ≡ r.0
  log-counted b (log, true) = refl
  log-counted b (log, false) = refl

  migrate_batch-IsSafe :
      (retries : ℕ) (node : Bytes) (ds : List Bytes) (b : Batch W.Payload)
      → IsSafe b.log
      → IsSafe (migrate_batch W retries node ds b).log
  unfolding migrate_batch
  migrate_batch-IsSafe retries node [] b h = h
  migrate_batch-IsSafe retries node (d ∷ ds) b h =
      let r = migrate_device W retries node d b.log in
      migrate_batch-IsSafe retries node ds (counted W b r)
        (rw (log-counted b r) (migrate_device-IsSafe retries node d b.log h))

  migrate_batches-IsSafe :
      (fuel size : ℕ) (ds : List Bytes) (r : Progressed W.Payload)
      → IsSafe r.log
      → IsSafe (migrate_batches W fuel size ds r).log
  unfolding migrate_batches record_batch
  migrate_batches-IsSafe zero size ds r h = h
  migrate_batches-IsSafe (suc fuel) size [] r h = h
  migrate_batches-IsSafe (suc fuel) size (d ∷ ds) r h =
      let m = r.migration in
      let b =
        migrate_batch W m.config.max_retries m.to_node (take size (d ∷ ds)) (new_batch W r.log) in
      migrate_batches-IsSafe fuel size (drop size (d ∷ ds)) (record_batch W m b) (
        migrate_batch-IsSafe m.config.max_retries m.to_node (take size (d ∷ ds)) (new_batch W r.log)
          h)

  -- Whatever the transport answers, a run of a migration deletes the messages or the session of a
  -- device only after a send for that device succeeded, if the log before it has that property.
  pub execute-IsSafe :
      (m : ShardMigration) (idx : ConnectionIndex) (log : Log W)
      → IsSafe log
      → IsSafe (execute W m idx log).0.log
  unfolding execute run_phases migrate_phase
  execute-IsSafe m idx log h = migrate_batches-IsSafe _ _ _ _ h
