-- ===== src/Http/Migrations.antt =====
-- internal/httpapi/server.go: the handlers for migrations, over the coordinator of the cluster.
use dmqtt.Base.{
  ℕ, Bytes, List, [], ◌∷◌, ◌==◌, bytes_eq, if◌then◌else◌, Bool, false, Option, none, some, codes,
}
use dmqtt.Broker.Topic.{split}
use dmqtt.Cluster.Migration.{MigrationCoordinator, ShardMigration, cancel_by_id, list}
use dmqtt.Cluster.Migration as Migration
use dmqtt.Http.{
  Method, get, post, Request, Server, nothing, no_migrations, migration_not_found, cancelled,
  migrations, migration, Response, respond, migrations_prefix,
}
use dmqtt.Http.Devices.{trim_prefix}

unfoldable pub handle_migrations : Server → Request → Response
handle_migrations s r = elim s.coordinator [
  | none ↦ respond 503 no_migrations
  | some mc ↦ elim r.method [ get ↦ respond 200 (migrations (list mc)) | _ ↦ respond 405 nothing ]
]

abbrev pub head_of : List Bytes → Bytes
head_of [] = []
head_of (p ∷ ps) = p

-- `len(parts) == 2 && parts[1] == "cancel" && r.Method == http.MethodPost`
unfoldable pub is_cancel : List Bytes → Method → Bool
is_cancel (id ∷ action ∷ []) post = action == codes "cancel"
is_cancel _ method = false

unfoldable pub cancel_migration : Server → MigrationCoordinator → Bytes → ℕ → Response × Server
cancel_migration s mc id now =
    let (mc', found) = cancel_by_id mc id now in
    (
      if found then respond 200 cancelled else respond 404 migration_not_found,
      record s { coordinator = some mc' },
    )

unfoldable pub get_migration : MigrationCoordinator → Bytes → Response
get_migration mc id = elim (Migration.get mc id) [
  | none ↦ respond 404 migration_not_found
  | some m ↦ respond 200 (migration m)
]

unfoldable pub handle_parts :
    Server → MigrationCoordinator → Method → List Bytes → ℕ → Response × Server
handle_parts s mc method parts now =
    if is_cancel parts method then cancel_migration s mc (head_of parts) now else (elim method [
      | get ↦ (get_migration mc (head_of parts), s)
      | _ ↦ (respond 405 nothing, s)
    ])

unfoldable pub handle_with : Server → Request → ℕ → Option MigrationCoordinator → Response × Server
handle_with s r now none = (respond 503 no_migrations, s)
handle_with s r now (some mc) =
    handle_parts s mc r.method (split (trim_prefix migrations_prefix r.path)) now

-- The response, and the server after it, at the time `now`.
unfoldable pub handle_migration_by_id : Server → Request → ℕ → Response × Server
handle_migration_by_id s r now = handle_with s r now s.coordinator
