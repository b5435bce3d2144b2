-- ===== src/Admin/ClusterPage.antt =====
-- web/admin/src/views/Cluster.vue, with the types of web/admin/src/api/nodes.ts and migrations.ts: the
-- page with the nodes and the migrations.
pub mod Shown
use dmqtt.Base.{
  ℕ, Bytes, List, [], ◌∷◌, ◌++◌, ◌==◌, bytes_eq, nat_eq, if◌then◌else◌, Bool, true, false, not,
  ◌&&◌, Option, none, some, codes,
}
use dmqtt.Base.Map.{Map, lookup}
use dmqtt.Base.Nested.{or_empty, is_empty}
use dmqtt.Broker.Dedup.{decimal}

pub record NodeInfo : Type 0 where
  pub id : Bytes
  pub host : Bytes
  pub gossip_port : ℕ
  pub transport_port : ℕ
  pub mqtt_port : ℕ
  pub http_port : ℕ
  pub role : Bytes

pub record NodesResponse : Type 0 where
  pub nodes : Option (List NodeInfo)
  pub self : Bytes

pub record Migration : Type 0 where
  pub id : Bytes
  pub device_id : Bytes
  pub source_node : Bytes
  pub target_node : Bytes
  pub status : Bytes
  pub progress : ℕ
  pub started_at : Bytes

pub data Message : Type 0 where
  load_nodes_failed cancelled cancel_failed : Message

pub record ClusterPage : Type 0 where
  pub nodes : List NodeInfo
  pub self_id : Bytes
  pub migrations : List Migration
  pub mig_loading : Bool
  pub messages : List Message

unfoldable pub setup : ClusterPage
setup = record { nodes = []; self_id = []; migrations = []; mig_loading = false; messages = [] }

-- The address that `openNodeAdmin` opens.
unfoldable pub node_admin_url : NodeInfo → Bytes
node_admin_url node =
    codes "http://"
    ++ (node.host ++ (b':' ∷ (decimal node.http_port node.http_port ++ codes "/admin/")))

-- `node.httpPort && node.id !== selfId`: whether the node has a button that opens its site.
unfoldable pub has_admin_button : ClusterPage → NodeInfo → Bool
has_admin_button page node = not (node.http_port == 0) && not (node.id == page.self_id)

abbrev tag_types : Map Bytes Bytes
tag_types =
    (codes "running", codes "primary")
    ∷ (codes "completed", codes "success")
    ∷ (codes "failed", codes "danger")
    ∷ (codes "cancelled", codes "warning")
    ∷ []

unfoldable pub status_tag_type : Bytes → Bytes
status_tag_type status = elim (lookup status tag_types) [ some kind ↦ kind | none ↦ codes "info" ]

-- The button that cancels a migration is disabled unless it is running.
unfoldable pub cancel_disabled : Migration → Bool
cancel_disabled m = not (m.status == codes "running")

-- The page's answer to what its requests bring.
unfoldable pub nodes_loaded : ClusterPage → NodesResponse → ClusterPage
nodes_loaded page res = record page { nodes = or_empty res.nodes; self_id = res.self }

unfoldable pub nodes_failed : ClusterPage → ClusterPage
nodes_failed page = record page { messages = page.messages ++ (load_nodes_failed ∷ []) }

unfoldable pub load_migrations : ClusterPage → ClusterPage
load_migrations page = record page { mig_loading = true }

-- `data.migrations || []`
unfoldable pub migrations_loaded : ClusterPage → Option (List Migration) → ClusterPage
migrations_loaded page answer = record page { migrations = or_empty answer; mig_loading = false }

unfoldable pub migrations_failed : ClusterPage → ClusterPage
migrations_failed page = record page { migrations = []; mig_loading = false }

unfoldable pub cancel_done : ClusterPage → ClusterPage
cancel_done page = load_migrations (record page { messages = page.messages ++ (cancelled ∷ []) })

unfoldable pub cancel_not_done : ClusterPage → ClusterPage
cancel_not_done page = record page { messages = page.messages ++ (cancel_failed ∷ []) }

-- `!migLoading && migrations.length === 0`: the page says that there are no migrations.
unfoldable pub shows_empty : ClusterPage → Bool
shows_empty page = not page.mig_loading && is_empty page.migrations

-- `onMounted` starts both requests.
unfoldable pub mounted : ClusterPage → ClusterPage
mounted page = load_migrations page

-- What happens on the page, in order.
pub data Event : Type 0 where
  nodes_end : NodesResponse → Event
  nodes_fail load_starts migrations_fail cancels cancel_fails : Event
  migrations_end : Option (List Migration) → Event

unfoldable pub step : ClusterPage → Event → ClusterPage
step page (nodes_end res) = nodes_loaded page res
step page nodes_fail = nodes_failed page
step page load_starts = load_migrations page
step page (migrations_end answer) = migrations_loaded page answer
step page migrations_fail = migrations_failed page
step page cancels = cancel_done page
step page cancel_fails = cancel_not_done page

unfoldable pub run : ClusterPage → List Event → ClusterPage
run page [] = page
run page (e ∷ es) = run (step page e) es
