-- ===== src/Http.antt =====
-- internal/httpapi/server.go: the HTTP API of a node. A handler is a function of the server and a
-- request into a response; JSON stands as the value that is encoded. A request's path is r.URL.Path,
-- already in the form that net/http cleans paths to, so without empty, `.` and `..` parts.
pub mod Devices
pub mod Paging
pub mod Migrations
pub mod Hops
pub mod ClusterViews
pub mod Totals
pub mod Serve
pub mod Site
mod Runs
use dmqtt.Base.{
  ℕ, Bytes, List, [], ◌∷◌, ◌++◌, ◌==◌, bytes_eq, if◌then◌else◌, Bool, true, false, ◌&&◌, not,
  Option, none, some, codes,
}
use dmqtt.Base.Map.{Map, lookup}
use dmqtt.Admin.Search.{is_prefix}
use dmqtt.Cluster.Migration.{ShardMigration, MigrationCoordinator}

pub data Method : Type 0 where
  get post other : Method

pub record Request : Type 0 where
  pub method : Method
  pub path : Bytes
  pub query : Map Bytes Bytes
  pub headers : Map Bytes Bytes

pub record ClientInfo : Type 0 where
  pub client_id : Bytes
  pub username : Bytes
  pub remote_addr : Bytes
  pub protocol_version : ℕ
  pub connected_at : Bytes
  pub keep_alive : ℕ

pub record SessionData : Type 0 where
  pub clean_start : Bool
  pub expiry_interval : ℕ
  pub subscriptions : Map Bytes ℕ

pub record NodeInfo : Type 0 where
  pub id : Bytes
  pub host : Bytes
  pub gossip_port : ℕ
  pub transport_port : ℕ
  pub mqtt_port : ℕ
  pub http_port : ℕ
  pub region : Bytes

-- What a BrokerAPI answers.
pub record BrokerApi : Type 0 where
  pub connected_client_ids : List Bytes
  pub client_info : Map Bytes ClientInfo
  pub session_data : Map Bytes SessionData
  pub client_count : ℕ
  pub active_subscriptions : ℕ
  pub retained_message_count : ℕ
  pub cluster_node_count : ℕ

pub record ClusterApi : Type 0 where
  pub self : NodeInfo
  pub members : List NodeInfo

-- The checker, if there is one, by what its IsReady answers.
pub record Server : Type 0 where
  pub checker : Option Bool
  pub api_key : Bytes
  pub broker_api : Option BrokerApi
  pub cluster_api : Option ClusterApi
  pub coordinator : Option MigrationCoordinator

pub record DeviceSummary : Type 0 where
  pub info : ClientInfo
  pub subscriptions : List Bytes

pub record DeviceList : Type 0 where
  pub devices : List DeviceSummary
  pub total : ℕ
  pub page : ℕ
  pub per_page : ℕ
  pub node_id : Bytes

pub record DeviceDetail : Type 0 where
  pub info : ClientInfo
  pub connected : Bool
  pub session : Option SessionData

pub data Body : Type 0 where
  nothing unauthorized no_migrations no_broker migration_not_found device_not_found : Body
  cancelled disconnected : Body
  migrations : List ShardMigration → Body
  migration : ShardMigration → Body
  device_list : DeviceList → Body
  device_detail : DeviceDetail → Body
  nodes : Bytes → List NodeInfo → Body
  status_text : Bytes → Body

pub record Response : Type 0 where
  pub status : ℕ
  pub body : Body

abbrev pub respond : ℕ → Body → Response
respond status body = record { status = status; body = body }

-- `r.URL.Query().Get(key)` and `r.Header.Get(key)`: a missing one is empty.
unfoldable pub value_of : Map Bytes Bytes → Bytes → Bytes
value_of m k = elim (lookup k m) [ none ↦ [] | some v ↦ v ]

-- `authWrap` lets a request pass.
unfoldable pub is_authorized : Server → Request → Bool
is_authorized s r =
    let header = value_of r.headers (codes "X-API-Key") in
    let key = if header == [] then value_of r.query (codes "api_key") else header in
    if s.api_key == [] then true else key == s.api_key

unfoldable pub auth_wrap : Server → Request → Response → Response
auth_wrap s r handled = if is_authorized s r then handled else respond 401 unauthorized

unfoldable pub self_id : Server → Bytes
self_id s = elim s.cluster_api [ none ↦ [] | some c ↦ c.self.id ]

-- The handlers, those under /api/v1/ first; `moved` is the mux, which sends /admin to /admin/, and
-- `not_found` the mux without a pattern that fits.
pub data Route : Type 0 where
  cluster_devices cluster_stats migration_list migration_by_id : Route
  device_pages device_by_id stats node_list : Route
  health ready metrics admin moved not_found : Route

abbrev pub exact_routes : Map Bytes Route
exact_routes =
    (codes "/api/v1/cluster/devices", cluster_devices)
    ∷ (codes "/api/v1/cluster/stats", cluster_stats)
    ∷ (codes "/api/v1/cluster/migrations", migration_list)
    ∷ (codes "/api/v1/devices", device_pages)
    ∷ (codes "/api/v1/stats", stats)
    ∷ (codes "/api/v1/nodes", node_list)
    ∷ (codes "/health", health)
    ∷ (codes "/ready", ready)
    ∷ (codes "/metrics", metrics)
    ∷ (codes "/admin", moved)
    ∷ []

abbrev pub devices_prefix : Bytes
devices_prefix = codes "/api/v1/devices/"

abbrev pub migrations_prefix : Bytes
migrations_prefix = codes "/api/v1/cluster/migrations/"

abbrev pub admin_prefix : Bytes
admin_prefix = codes "/admin/"

-- The pattern that fits: without a slash at its end the whole path, else the start of it.
unfoldable pub route : Bytes → Route
route path = elim (lookup path exact_routes) [
  | some r ↦ r
  | none ↦
      if is_prefix migrations_prefix path
      then migration_by_id
      else if is_prefix devices_prefix path
      then device_by_id
      else if is_prefix admin_prefix path
      then admin
      else not_found
]
