-- ===== src/Cluster/Migration.antt =====
-- internal/cluster/migration.go: a migration of devices and the coordinator of the migrations.
-- `now` is what time.Now() returns in the call. The coordinator holds each migration by its
-- identifier, so that a change of one is a write to the coordinator's map.
pub mod Phases
pub mod Coordinator
use dmqtt.Base.{
  ℕ, suc, ◌+◌, Bytes, List, [], ◌∷◌, ltb, leb, ◌==◌, bytes_eq, if◌then◌else◌, Option, none, some,
  Bool, true, false, not, ◌||◌, length, map, filterb,
}
use dmqtt.Base.Map.{Map, lookup, insert, erase, retain}

pub data MigrationPhase : Type 0 where
  prepare handshake migrate redirect cleanup : MigrationPhase

pub data MigrationStatus : Type 0 where
  pending running completed failed cancelled : MigrationStatus

pub record MigrationProgress : Type 0 where
  pub total : ℕ
  pub migrated : ℕ
  pub failures : ℕ

pub record MigrationConfig : Type 0 where
  pub batch_size : ℕ
  pub batch_interval : ℕ
  pub max_retries : ℕ

unfoldable pub default_migration_config : MigrationConfig
default_migration_config = record {
  batch_size = 1000;
  batch_interval = 1_000_000_000;
  max_retries = 3;
}

pub record ShardMigration : Type 0 where
  pub id : Bytes
  pub from_node : Bytes
  pub to_node : Bytes
  pub affected_devices : List Bytes
  pub phase : MigrationPhase
  pub progress : MigrationProgress
  pub config : MigrationConfig
  pub status : MigrationStatus
  pub error : Bytes
  pub created_at : ℕ
  pub updated_at : ℕ

unfoldable pub new_shard_migration :
    Bytes → Bytes → Bytes → List Bytes → MigrationConfig → ℕ → ShardMigration
new_shard_migration id from_node to_node devices cfg now = record {
  id = id;
  from_node = from_node;
  to_node = to_node;
  affected_devices = devices;
  phase = prepare;
  progress = record { total = length devices; migrated = 0; failures = 0 };
  config = cfg;
  status = pending;
  error = [];
  created_at = now;
  updated_at = now;
}

-- `Phase++` below the last phase.
unfoldable pub next_phase : MigrationPhase → MigrationPhase
next_phase prepare = handshake
next_phase handshake = migrate
next_phase migrate = redirect
next_phase redirect = cleanup
next_phase cleanup = cleanup

abbrev started : MigrationStatus → MigrationStatus
started pending = running
started s = s

unfoldable pub advance_phase : ShardMigration → ℕ → ShardMigration
advance_phase m now = record m {
  status = started m.status;
  phase = next_phase m.phase;
  updated_at = now;
}

unfoldable pub mark_completed : ShardMigration → ℕ → ShardMigration
mark_completed m now = record m { status = completed; updated_at = now }

unfoldable pub mark_failed : ShardMigration → Bytes → ℕ → ShardMigration
mark_failed m reason now = record m { status = failed; error = reason; updated_at = now }

unfoldable pub cancel : ShardMigration → ℕ → ShardMigration
cancel m now = record m { status = cancelled; updated_at = now }

unfoldable pub record_migrated : ShardMigration → ℕ → ℕ → ShardMigration
record_migrated m n now = record m {
  progress = record {
    total = m.progress.total;
    migrated = m.progress.migrated + n;
    failures = m.progress.failures;
  };
  updated_at = now;
}

unfoldable pub record_failed : ShardMigration → ℕ → ℕ → ShardMigration
record_failed m n now = record m {
  progress = record {
    total = m.progress.total;
    migrated = m.progress.migrated;
    failures = m.progress.failures + n;
  };
  updated_at = now;
}

unfoldable pub is_terminal : ShardMigration → Bool
is_terminal m = elim m.status [ pending ↦ false | running ↦ false | _ ↦ true ]

pub record MigrationCoordinator : Type 0 where
  pub migrations : Map Bytes ShardMigration
  pub max_parallel : ℕ

-- A limit of 0 stands for every limit that is not positive.
unfoldable pub new_migration_coordinator : ℕ → MigrationCoordinator
new_migration_coordinator max_parallel = record {
  migrations = [];
  max_parallel = if leb max_parallel 0 then 3 else max_parallel;
}

unfoldable pub submit : MigrationCoordinator → ShardMigration → MigrationCoordinator
submit mc m = record mc { migrations = insert m.id m mc.migrations }

unfoldable pub get : MigrationCoordinator → Bytes → Option ShardMigration
get mc id = lookup id mc.migrations

abbrev entry : Bytes × ShardMigration → ShardMigration
entry (id, m) = m

unfoldable pub list : MigrationCoordinator → List ShardMigration
list mc = map entry mc.migrations

unfoldable pub cancel_by_id : MigrationCoordinator → Bytes → ℕ → MigrationCoordinator × Bool
cancel_by_id mc id now = elim (lookup id mc.migrations) [
  | none ↦ (mc, false)
  | some m ↦ (record mc { migrations = insert id (cancel m now) mc.migrations }, true)
]

unfoldable pub count : MigrationCoordinator → ℕ
count mc = length mc.migrations

abbrev pub is_running : ShardMigration → Bool
is_running m = elim m.status [ running ↦ true | _ ↦ false ]

unfoldable pub count_running : Map Bytes ShardMigration → ℕ → ℕ
count_running [] n = n
count_running ((id, m) ∷ ms) n = count_running ms (if is_running m then n + 1 else n)

unfoldable pub active_count : MigrationCoordinator → ℕ
active_count mc = count_running mc.migrations 0

unfoldable pub can_start_more : MigrationCoordinator → Bool
can_start_more mc = ltb (active_count mc) mc.max_parallel

unfoldable pub cleanup_terminal : MigrationCoordinator → MigrationCoordinator
cleanup_terminal mc = record mc { migrations = retain (λ m. not (is_terminal m)) mc.migrations }
