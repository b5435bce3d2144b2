-- ===== src/Admin/Views/NodeCards.antt =====
-- web/admin/src/views/Cluster.vue: the template of the page with the nodes and the migrations.
use dmqtt.Base.{
  ℕ, Bytes, List, [], ◌∷◌, ◌++◌, map, ◌==◌, bytes_eq, nat_beq, if◌then◌else◌, false, codes,
}
use dmqtt.Broker.Dedup.{decimal}
use dmqtt.Admin.ClusterPage.{
  NodeInfo, Migration, ClusterPage, has_admin_button, status_tag_type, cancel_disabled, shows_empty,
}
use dmqtt.Admin.Views.{key, raw, Item, text, tag, button, shown_if, flatten}
use dmqtt.Admin.Views.DeviceDrawer.{described}

unfoldable pub self_tag : ClusterPage → NodeInfo → Item
self_tag page node =
    if node.id == page.self_id
    then tag (codes "success") (key (codes "cluster") (codes "thisNode"))
    else tag (codes "info") (key (codes "common") (codes "online"))

abbrev number_text : ℕ → Bytes
number_text n = decimal n n

-- `node.httpPort || '-'`
unfoldable pub http_port_text : NodeInfo → Bytes
http_port_text node = if nat_beq node.http_port 0 then codes "-" else number_text node.http_port

unfoldable pub node_card : ClusterPage → NodeInfo → List Item
node_card page node =
    (self_tag page node ∷ text (raw node.id) ∷ [])
    ++ described (key (codes "cluster") (codes "address")) (raw node.host)
    ++ described (key (codes "cluster") (codes "mqttPort")) (raw (number_text node.mqtt_port))
    ++ described (key (codes "cluster") (codes "httpPort")) (raw (http_port_text node))
    ++ described (key (codes "cluster") (codes "gossip")) (raw (number_text node.gossip_port))
    ++ shown_if (has_admin_button page node)
        (button false (key (codes "cluster") (codes "openAdmin")) ∷ [])

unfoldable pub migration_columns : List Item
migration_columns =
    text (key (codes "cluster") (codes "id"))
    ∷ text (key (codes "cluster") (codes "device"))
    ∷ text (key (codes "cluster") (codes "sourceNode"))
    ∷ text (key (codes "cluster") (codes "targetNode"))
    ∷ text (key (codes "common") (codes "status"))
    ∷ text (key (codes "common") (codes "progress"))
    ∷ text (key (codes "common") (codes "operations"))
    ∷ []

unfoldable pub migration_cells : Migration → List (List Item)
migration_cells m =
    (text (raw m.id) ∷ [])
    ∷ (text (raw m.device_id) ∷ [])
    ∷ (text (raw m.source_node) ∷ [])
    ∷ (text (raw m.target_node) ∷ [])
    ∷ (tag (status_tag_type m.status) (raw m.status) ∷ [])
    ∷ (text (raw (number_text m.progress)) ∷ [])
    ∷ (text (key (codes "cluster") (codes "cancelMigration"))
        ∷ button (cancel_disabled m) (key (codes "common") (codes "cancel"))
        ∷ [])
    ∷ []

unfoldable pub migration_notice : ClusterPage → List Item
migration_notice page =
    text (key (codes "cluster") (codes "migrationTasks"))
    ∷ shown_if (shows_empty page) (text (key (codes "cluster") (codes "noMigrations")) ∷ [])

-- The whole page.
unfoldable pub cluster_view : ClusterPage → List Item
cluster_view page =
    flatten (map (node_card page) page.nodes)
    ++ (migration_columns
        ++ (flatten (map flatten (map migration_cells page.migrations)) ++ migration_notice page))
