-- ===== src/Http/ClusterViews.antt =====
-- internal/httpapi/server.go: the handlers that ask every node of the cluster. What a node answers is a
-- parameter, nothing where its answer cannot be read; the answers are taken in the order of the
-- members, as one of the orders in which they may come.
use dmqtt.Base.{
  ℕ, ◌+◌, Bytes, List, [], ◌∷◌, ◌++◌, length, bytes_eq, if◌then◌else◌, Option, none, some,
}
use dmqtt.Base.Map.{lookup}
use dmqtt.Http.{ClientInfo, NodeInfo, BrokerApi, ClusterApi, Server, self_id}
use dmqtt.Http.Devices.{topics_of, string_leb, is_asked}

pub record ClusterDevice : Type 0 where
  pub info : ClientInfo
  pub subscriptions : List Bytes
  pub node_id : Bytes

pub record ClusterDevices : Type 0 where
  pub devices : List ClusterDevice
  pub total : ℕ
  pub self : Bytes

pub record NodeStats : Type 0 where
  pub node_id : Bytes
  pub connections : ℕ
  pub subs : ℕ
  pub retained : ℕ

pub record ClusterTotals : Type 0 where
  pub nodes : List NodeStats
  pub total_connections : ℕ
  pub total_subscriptions : ℕ
  pub self : Bytes

-- `collectLocalDevices`
unfoldable pub collect_devices : BrokerApi → Bytes → List Bytes → List ClusterDevice
collect_devices api node_id [] = []
collect_devices api node_id (id ∷ ids) =
    let rest = collect_devices api node_id ids in
    elim (lookup id api.client_info) [
      | none ↦ rest
      | some info ↦
          record {
            info = info;
            subscriptions = topics_of (lookup id api.session_data);
            node_id = node_id;
          }
          ∷ rest
    ]

-- `fetchRemoteDevices`: every device is put on the node that told of it.
unfoldable pub on_node : Bytes → List ClusterDevice → List ClusterDevice
on_node node_id [] = []
on_node node_id (d ∷ ds) = record d { node_id = node_id } ∷ on_node node_id ds

unfoldable pub fetch_remote_devices :
    (NodeInfo → Option (List ClusterDevice)) → NodeInfo → List ClusterDevice
fetch_remote_devices answer node = elim (answer node) [
  | none ↦ []
  | some devices ↦ on_node node.id devices
]

unfoldable pub remote_devices :
    ClusterApi → (NodeInfo → Option (List ClusterDevice)) → List NodeInfo → List ClusterDevice
remote_devices c answer [] = []
remote_devices c answer (node ∷ rest) =
    let others = remote_devices c answer rest in
    if is_asked c node then fetch_remote_devices answer node ++ others else others

unfoldable pub insert_device : ClusterDevice → List ClusterDevice → List ClusterDevice
insert_device d [] = d ∷ []
insert_device d (e ∷ es) =
    if string_leb d.info.client_id e.info.client_id then d ∷ e ∷ es else e ∷ insert_device d es

-- `sort.Slice` by the client's name, which leaves the order of equal names open.
unfoldable pub sort_devices : List ClusterDevice → List ClusterDevice
sort_devices [] = []
sort_devices (d ∷ ds) = insert_device d (sort_devices ds)

-- Without a broker the handler panics, which is no answer.
unfoldable pub handle_cluster_devices :
    Server → (NodeInfo → Option (List ClusterDevice)) → Option ClusterDevices
handle_cluster_devices s answer = elim s.broker_api [
  | none ↦ none
  | some api ↦
      let local = collect_devices api (self_id s) api.connected_client_ids in
      elim s.cluster_api [
        | none ↦ some (record { devices = local; total = length local; self = self_id s })
        | some c ↦
            let devices = sort_devices (local ++ remote_devices c answer c.members) in
            some (record { devices = devices; total = length devices; self = self_id s })
      ]
]

-- `fetchRemoteStats`, under the name of the node.
unfoldable pub fetch_remote_stats : (NodeInfo → Option NodeStats) → NodeInfo → Option NodeStats
fetch_remote_stats answer node = elim (answer node) [
  | none ↦ none
  | some ns ↦ some (record ns { node_id = node.id })
]

unfoldable pub add_stats : ClusterTotals → Option NodeStats → ClusterTotals
add_stats t none = t
add_stats t (some ns) = record t {
  nodes = t.nodes ++ (ns ∷ []);
  total_connections = t.total_connections + ns.connections;
  total_subscriptions = t.total_subscriptions + ns.subs;
}

unfoldable pub remote_stats :
    ClusterApi → (NodeInfo → Option NodeStats) → List NodeInfo → ClusterTotals → ClusterTotals
remote_stats c answer [] t = t
remote_stats c answer (node ∷ rest) t =
    remote_stats c answer rest
      (if is_asked c node then add_stats t (fetch_remote_stats answer node) else t)

-- The node itself.
unfoldable pub local_stats : Server → BrokerApi → NodeStats
local_stats s api = record {
  node_id = self_id s;
  connections = api.client_count;
  subs = api.active_subscriptions;
  retained = api.retained_message_count;
}

unfoldable pub local_totals : Server → NodeStats → ClusterTotals
local_totals s local = record {
  nodes = local ∷ [];
  total_connections = local.connections;
  total_subscriptions = local.subs;
  self = self_id s;
}

unfoldable pub cluster_totals :
    Server → (NodeInfo → Option NodeStats) → ClusterTotals → ClusterTotals
cluster_totals s answer totals = elim s.cluster_api [
  | none ↦ totals
  | some c ↦ remote_stats c answer c.members totals
]

unfoldable pub handle_cluster_stats : Server → (NodeInfo → Option NodeStats) → Option ClusterTotals
handle_cluster_stats s answer = elim s.broker_api [
  | none ↦ none
  | some api ↦ some (cluster_totals s answer (local_totals s (local_stats s api)))
]
