-- ===== src/Cluster/Executor/Runs.antt =====
-- A migration of three devices over a transport that refuses every first attempt.
use dmqtt.Base.{ℕ, ◌+◌, ◌<◌, ◌≡◌, ◌↔◌, List, [], ◌∷◌, length, Bool, true, false, codes}
use dmqtt.Cluster.Migration.{ShardMigration, new_shard_migration, completed, failed}
use dmqtt.Cluster.Connections.{new_connection_index}
use dmqtt.Cluster.Executor.{
  Effect, disconnects, sends, deletes_messages, deletes_session, World, execute,
}
use dmqtt.Cluster.Executor.Deletions.{IsSafe, execute-IsSafe}
use dmqtt.Cluster.Executor.Counts.{done, execute-counts}

abbrev refused_before : List (Effect ℕ) → Bool
refused_before [] = false
refused_before (disconnects d ∷ log) = false
refused_before (deletes_messages d ∷ log) = false
refused_before (deletes_session d ∷ log) = false
refused_before (sends node d x ok ∷ log) = true

abbrev second_try : World
second_try = record {
  Payload = ℕ;
  gather = λ log d. length log;
  accepts = refused_before;
  now = λ log. length log;
}

abbrev of_three : ℕ → ShardMigration
of_three retries =
    new_shard_migration (codes "m") (codes "n1") (codes "n2")
      (codes "a" ∷ codes "b" ∷ codes "c" ∷ [])
      (record { batch_size = 2; batch_interval = 0; max_retries = retries }) 0

execute-IsSafe_example :
    IsSafe second_try (execute second_try (of_three 1) new_connection_index []).0.log
execute-IsSafe_example = execute-IsSafe second_try (of_three 1) new_connection_index [] tt

execute-counts_example :
    (done (execute second_try (of_three 1) new_connection_index []).0.migration
      ≡ done (of_three 1) + length (of_three 1).affected_devices)
    × (((execute second_try (of_three 1) new_connection_index []).0.migration.status ≡ completed)
        ↔ ((execute second_try (of_three 1) new_connection_index []).0.migration.progress.failures
            ≡ 0))
    × (((execute second_try (of_three 1) new_connection_index []).0.migration.status ≡ failed) ↔ (
        0
        < (execute second_try (of_three 1) new_connection_index []).0.migration.progress.failures))
execute-counts_example = execute-counts second_try (of_three 1) new_connection_index []
