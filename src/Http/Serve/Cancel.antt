-- ===== src/Http/Serve/Cancel.antt =====
-- The site's request to cancel a migration, from its path to the coordinator.
use dmqtt.Base.{bytes_eq}
use dmqtt.Http.Migrations as Migrations
use dmqtt.Http.Migrations.{head_of}
