-- ===== src/Cluster/Migration/Phases.antt =====
-- The phases and statuses of one migration under any history of its operations.
use dmqtt.Base.{ℕ, ◌≤◌, Bytes, List, [], ◌∷◌, true, ◌≡◌, ◌≢◌, refl, arith}
use dmqtt.Cluster.Migration.{
  MigrationPhase, prepare, handshake, migrate, redirect, cleanup, pending, completed, failed,
  cancelled, ShardMigration, next_phase, advance_phase, mark_completed, mark_failed, cancel,
  record_migrated, record_failed, is_terminal,
}

pub data Op : Type 0 where
  advances completes cancels : ℕ → Op
  fails : Bytes → ℕ → Op
  migrates failing : ℕ → ℕ → Op

pub apply : ShardMigration → Op → ShardMigration
apply m (advances now) = advance_phase m now
apply m (completes now) = mark_completed m now
apply m (cancels now) = cancel m now
apply m (fails reason now) = mark_failed m reason now
apply m (migrates n now) = record_migrated m n now
apply m (failing n now) = record_failed m n now

pub apply_all : ShardMigration → List Op → ShardMigration
apply_all m [] = m
apply_all m (op ∷ ops) = apply_all (apply m op) ops

abbrev pub rank : MigrationPhase → ℕ
rank prepare = 0
rank handshake = 1
rank migrate = 2
rank redirect = 3
rank cleanup = 4

-- What one operation may change.
pub record Moves (m n : ShardMigration) : Type 0 where
  pub forward : rank m.phase ≤ rank n.phase
  pub never_pending_again : m.status ≢ pending → n.status ≢ pending
  pub more_migrated : m.progress.migrated ≤ n.progress.migrated
  pub more_failures : m.progress.failures ≤ n.progress.failures
  pub same_total : n.progress.total ≡ m.progress.total

Moves-refl : (m : ShardMigration) → Moves m m
Moves-refl m = ground arith

Moves-trans : (m n o : ShardMigration) → Moves m n → Moves n o → Moves m o
Moves-trans m n o a b = ground arith

apply-Moves : (m : ShardMigration) (op : Op) → Moves m (apply m op)
unfolding apply advance_phase next_phase mark_completed mark_failed cancel record_migrated
    record_failed
apply-Moves m (advances now) = ground arith
apply-Moves m (completes now) = ground arith
apply-Moves m (cancels now) = ground arith
apply-Moves m (fails reason now) = ground arith
apply-Moves m (migrates n now) = ground arith
apply-Moves m (failing n now) = ground arith

-- Through any history of operations the phase of a migration never goes back, it never becomes
-- pending again, its counts of migrated and failed devices never fall, and its total stays.
pub apply_all-Moves : (m : ShardMigration) (ops : List Op) → Moves m (apply_all m ops)
unfolding apply_all
apply_all-Moves m [] = Moves-refl m
apply_all-Moves m (op ∷ ops) =
    Moves-trans m (apply m op) (apply_all (apply m op) ops) (apply-Moves m op)
      (apply_all-Moves (apply m op) ops)

-- A status that the operations call terminal is not final: each of the other marks overwrites it.
pub terminal_overwritten :
    (m : ShardMigration) (now later : ℕ) (reason : Bytes)
    → (is_terminal (cancel m now) ≡ true)
      × ((mark_completed (cancel m now) later).status ≡ completed)
      × ((mark_failed (cancel m now) reason later).status ≡ failed)
      × ((cancel (mark_completed m now) later).status ≡ cancelled)
unfolding is_terminal cancel mark_completed mark_failed
terminal_overwritten m now later reason = (refl, refl, refl, refl)
