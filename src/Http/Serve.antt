-- ===== src/Http/Serve.antt =====
-- internal/httpapi/server.go: the whole API of a node, and that of the site beside it. What other nodes
-- answer and the figures of the Go process are parameters.
pub mod Keys
pub mod Cancel
pub mod Pages
use dmqtt.Base.{
  ℕ, Bytes, List, [], ◌∷◌, ◌==◌, bytes_eq, if◌then◌else◌, Bool, Option, none, some, codes,
}
use dmqtt.Admin.Stats.{Stats}
use dmqtt.Http.{
  Method, Request, NodeInfo, BrokerApi, ClusterApi, Server, Body, nothing, no_broker, nodes,
  Response, respond, self_id, is_authorized, unauthorized, Route, cluster_devices, cluster_stats,
  migration_list, migration_by_id, device_pages, device_by_id, stats, node_list, health, ready,
  metrics, admin, moved, not_found, route, admin_prefix, status_text,
}
use dmqtt.Http.Devices.{handle_devices, handle_device_by_id, trim_prefix}
use dmqtt.Http.Migrations.{handle_migrations, handle_migration_by_id}
use dmqtt.Http.ClusterViews.{
  ClusterDevice, ClusterDevices, NodeStats, ClusterTotals, handle_cluster_devices,
  handle_cluster_stats,
}

-- What surrounds a handler: the other nodes, for a device, for lists and for figures, the clock, the
-- figures of the process, and whether a path can be opened in the embedded files of the site.
pub record Surroundings : Type 0 where
  pub ask : NodeInfo → Option Response
  pub device_answers : NodeInfo → Option (List ClusterDevice)
  pub stats_answers : NodeInfo → Option NodeStats
  pub now : ℕ
  pub uptime_seconds : ℕ
  pub goroutines : ℕ
  pub memory_alloc_bytes : ℕ
  pub memory_sys_bytes : ℕ
  pub gc_pause_total_ns : ℕ
  pub opens : Bytes → Bool

-- Without the API of a cluster no node is listed.
unfoldable pub handle_nodes : Server → Response
handle_nodes s = elim s.cluster_api [
  | none ↦ respond 200 (nodes [] [])
  | some c ↦ respond 200 (nodes c.self.id c.members)
]

unfoldable pub stats_of : Surroundings → Server → BrokerApi → Stats
stats_of around s api = record {
  node_id = self_id s;
  connected_clients = api.client_count;
  active_subscriptions = api.active_subscriptions;
  retained_messages = api.retained_message_count;
  cluster_nodes = api.cluster_node_count;
  uptime_seconds = around.uptime_seconds;
  goroutines = around.goroutines;
  memory_alloc_bytes = around.memory_alloc_bytes;
  memory_sys_bytes = around.memory_sys_bytes;
  gc_pause_total_ns = around.gc_pause_total_ns;
}

-- What comes back: an answer of a handler, or one of those whose values are not a `Response`; that of
-- http.FileServer for a path, and that of Prometheus.
pub data Answer : Type 0 where
  answer : Response → Answer
  stats_answer : Stats → Answer
  devices_answer : ClusterDevices → Answer
  totals_answer : ClusterTotals → Answer
  file_answer : Bytes → Answer
  metrics_answer panicked : Answer

unfoldable pub handle_stats : Surroundings → Server → Answer
handle_stats around s = elim s.broker_api [
  | none ↦ answer (respond 503 no_broker)
  | some api ↦ stats_answer (stats_of around s api)
]

unfoldable pub handle_health : Response
handle_health = respond 200 (status_text (codes "ok"))

unfoldable pub handle_ready : Server → Response
handle_ready s =
    if (elim s.checker [ none ↦ Bool.false | some is_ready ↦ is_ready ])
    then respond 200 (status_text (codes "ready"))
    else respond 503 (status_text (codes "not_ready"))

-- `adminHandler`: the path below /admin/ that the file server is asked for, where the empty one is the
-- root with its index.html.
unfoldable pub admin_handler : (Bytes → Bool) → Bytes → Bytes
admin_handler opens url_path =
    let path = trim_prefix admin_prefix url_path in
    let opened = if path == [] then codes "index.html" else path in
    trim_prefix admin_prefix (if opens opened then url_path else admin_prefix)

-- The answer, the server after it, and the device that is disconnected.
abbrev pub Served : Type 0
Served = Answer × Server × Option Bytes

-- A handler that changes nothing.
abbrev only : Server → Answer → Served
only s a = (a, s, none)

unfoldable pub handle : Surroundings → Server → Request → Route → Served
handle around s r cluster_devices = only s (elim (handle_cluster_devices s around.device_answers) [
  | none ↦ panicked
  | some devices ↦ devices_answer devices
])
handle around s r cluster_stats = only s (elim (handle_cluster_stats s around.stats_answers) [
  | none ↦ panicked
  | some totals ↦ totals_answer totals
])
handle around s r migration_list = only s (answer (handle_migrations s r))
handle around s r migration_by_id =
    let (response, s') = handle_migration_by_id s r around.now in (answer response, s', none)
handle around s r device_pages = only s (answer (handle_devices s r))
handle around s r device_by_id =
    let (response, device) = handle_device_by_id s around.ask r in (answer response, s, device)
handle around s r stats = only s (handle_stats around s)
handle around s r node_list = only s (answer (handle_nodes s))
handle around s r health = only s (answer handle_health)
handle around s r ready = only s (answer (handle_ready s))
handle around s r metrics = only s metrics_answer
handle around s r admin = only s (file_answer (admin_handler around.opens r.path))
handle around s r moved = only s (answer (respond 301 nothing))
handle around s r not_found = only s (answer (respond 404 nothing))

abbrev pub needs_key : Route → Bool
needs_key health = Bool.false
needs_key ready = Bool.false
needs_key metrics = Bool.false
needs_key admin = Bool.false
needs_key moved = Bool.false
needs_key not_found = Bool.false
needs_key _ = Bool.true

-- `authWrap` stands around the handlers under /api/v1/.
unfoldable pub serve : Surroundings → Server → Request → Served
serve around s r =
    if needs_key (route r.path)
    then (if is_authorized s r
        then handle around s r (route r.path)
        else only s (answer (respond 401 unauthorized)))
    else handle around s r (route r.path)
