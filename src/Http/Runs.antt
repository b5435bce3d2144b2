-- ===== src/Http/Runs.antt =====
-- The HTTP API on concrete requests, and its theorems at concrete inputs.
use dmqtt.Base.{
  ◌≡◌, ◌≢◌, refl, ◌≤◌, ◌*◌, Bytes, List, [], ◌∷◌, length, arith, Option, none, some, true, false,
  Bool, not, ◌&&◌, ℕ, ap, nat_beq, nat_beq_iff, codes, bytes_eq, ◌==◌, if◌then◌else◌, subst, sym,
  inl, inr, Bool-cases,
}
use dmqtt.Admin.Api as Api
use dmqtt.Admin.Api.{UrlParsing}
use dmqtt.Cluster.Migration.{
  MigrationCoordinator, ShardMigration, new_shard_migration, default_migration_config,
}
use dmqtt.Http.{status_text, ClientInfo, NodeInfo, BrokerApi, Server, Response, respond, route}
use dmqtt.Http.Devices.{atoi, page_size, page_ids, sort_strings, insert_string, string_leb}
use dmqtt.Http.Paging.{pages, pages-same}
use dmqtt.Http.Serve.Pages.{serve-admin}
use dmqtt.Http.Serve.{handle_ready, file_answer, Surroundings, serve}
use dmqtt.Http.Serve.Keys.{key_of, api_prefix, refusal, with_key, serve-key_of}
use dmqtt.Admin.Search.{is_prefix}

abbrev lamp : ClientInfo
lamp = record {
  client_id = codes "lamp";
  username = codes "u";
  remote_addr = codes "10.0.0.1:1883";
  protocol_version = 4;
  connected_at = codes "2024-01-01T00:00:00Z";
  keep_alive = 60;
}

abbrev api : BrokerApi
api = record {
  connected_client_ids = codes "lamp" ∷ [];
  client_info = (codes "lamp", lamp) ∷ [];
  session_data = [];
  client_count = 1;
  active_subscriptions = 0;
  retained_message_count = 0;
  cluster_node_count = 1;
}

abbrev alone : Server
alone = record {
  checker = some false;
  api_key = [];
  broker_api = some api;
  cluster_api = none;
  coordinator = none;
}

abbrev silent : NodeInfo → Option Response
silent node = none

-- Parsers that take every path as it is up to a `?`, and drop that and the rest.
abbrev before_query : Bytes → Bytes
before_query [] = []
before_query (c ∷ path) = if nat_beq c b'?' then [] else c ∷ before_query path

not_question : (behind : Bool) (path : Bytes) → Api.plain_rest behind (b'?' ∷ path) ≢ true
unfolding Api.plain_rest Api.is_unreserved
not_question behind path e = cc

plain_end :
    (behind : Bool) (c : ℕ) (path : Bytes)
    → Api.plain_rest behind (c ∷ path) ≡ true
    → (Api.plain_rest (nat_beq c b'/') path ≡ true) × (nat_beq c b'?' ≡ false)
unfolding Api.plain_rest
plain_end behind c path h = elim (Bool-cases (nat_beq c b'?')) [
  | inl e ↦ absurd (
      not_question behind path
        (subst (λ x. Api.plain_rest behind (x ∷ path) ≡ true) ((nat_beq_iff c b'?').0 e) h))
  | inr e ↦ (ground arith, e)
]

plain_kept :
    (behind : Bool) (path : Bytes) → Api.plain_rest behind path ≡ true → before_query path ≡ path
plain_kept behind [] h = refl
plain_kept behind (c ∷ path) h =
    let (rest, e) = plain_end behind c path h in
    rw e (ap (◌∷◌ c) (plain_kept (nat_beq c b'/') path rest))

path_kept : (path : Bytes) → Api.is_plain path ≡ true → before_query path ≡ path
unfolding Api.is_plain
path_kept [] h = refl
path_kept (c ∷ path) h =
    subst (λ x. before_query (x ∷ path) ≡ x ∷ path) (sym ((nat_beq_iff c b'/').0 (ground arith)))
      (ap (◌∷◌ b'/') (plain_kept true path (ground arith)))

abbrev kept : UrlParsing
kept = record { url_path = before_query; keeps_plain = path_kept }

abbrev five : List Bytes
five = codes "a" ∷ codes "b" ∷ codes "c" ∷ codes "d" ∷ codes "e" ∷ []

sorted_run :
    sort_strings (codes "b" ∷ codes "ab" ∷ codes "a" ∷ []) ≡ codes "a" ∷ codes "ab" ∷ codes "b" ∷ []
unfolding sort_strings insert_string string_leb
sorted_run = refl

second_page : page_ids five 2 2 ≡ codes "c" ∷ codes "d" ∷ []
unfolding page_ids
second_page = refl

atoi_run : (atoi (codes "120") ≡ 120) × (atoi (codes "+7") ≡ 7) × (atoi (codes "7x") ≡ 0)
unfolding atoi
atoi_run = (refl, refl, refl)

three_hold : length five ≤ 3 * page_size 2
unfolding page_size
three_hold = omega arith

pages-same_example :
    (pages five (page_size 2) 3 ≡ five) × (length (page_ids five 1 (page_size 2)) ≤ 100)
pages-same_example = pages-same five 3 2 1 (omega arith) three_hold

abbrev node_of : Bytes → NodeInfo
node_of id = record {
  id = id;
  host = codes "h";
  gossip_port = 7946;
  transport_port = 7947;
  mqtt_port = 1883;
  http_port = 8080;
  region = [];
}

-- Two nodes that know each other, without the device.
abbrev next_id : Bytes → Bytes
next_id id = if id == codes "n1" then codes "n2" else codes "n1"

abbrev without_device : Bytes → Server
without_device id = record alone {
  broker_api = some (record api { client_info = [] });
  cluster_api =
      some (record { self = node_of id; members = node_of id ∷ node_of (next_id id) ∷ [] });
}

abbrev guarded : Server
guarded = record alone { api_key = codes "secret" }

abbrev around : Surroundings
around = record {
  ask = silent;
  device_answers = λ n. none;
  stats_answers = λ n. none;
  now = 0;
  uptime_seconds = 0;
  goroutines = 1;
  memory_alloc_bytes = 0;
  memory_sys_bytes = 0;
  gc_pause_total_ns = 0;
  opens = λ path. path == codes "index.html";
}

has_key : guarded.api_key ≢ []
has_key = λ e. cc

serve-key_of_example : serve around guarded (Api.fetch_stats kept) ≡ (
    if is_prefix api_prefix (Api.fetch_stats kept).path
      && not (key_of (Api.fetch_stats kept) == guarded.api_key)
    then (refusal (route (Api.fetch_stats kept).path), guarded, none)
    else with_key guarded.api_key
        (serve around (record guarded { api_key = [] }) (Api.fetch_stats kept)))
serve-key_of_example = serve-key_of around guarded (Api.fetch_stats kept) has_key

not_ready : handle_ready guarded ≡ respond 503 (status_text (codes "not_ready"))
unfolding handle_ready
not_ready = refl

reloaded :
    serve around guarded (record (Api.fetch_stats kept) { path = codes "/admin/devices" })
    ≡ (file_answer [], guarded, none)
reloaded =
    serve-admin around guarded (record (Api.fetch_stats kept) { path = codes "/admin/devices" })
      (codes "devices") refl

abbrev move : ShardMigration
move =
    new_shard_migration (codes "m1") (codes "n1") (codes "n2") (codes "lamp" ∷ [])
      default_migration_config 5

abbrev moving : MigrationCoordinator
moving = record { migrations = (codes "m1", move) ∷ []; max_parallel = 3 }

abbrev coordinating : Server
coordinating = record alone { coordinator = some moving }
