-- ===== src/Admin/Views/Notices.antt =====
-- web/admin/src/views/Devices.vue, Cluster.vue and Dashboard.vue, and layouts/MainLayout.vue: the texts
-- besides the templates of the pages, which are the messages of ElMessage, the names of the charts' series
-- and the entries of the menu.
use dmqtt.Base.{Bytes, List, [], ◌∷◌, codes}
use dmqtt.Base.Map.{Map}
use dmqtt.Admin.Devices as Devices
use dmqtt.Admin.Devices.{
  DevicesPage, connection_restored, load_failed, disconnect_failed, load_detail_failed,
  disconnected,
}
use dmqtt.Admin.ClusterPage as ClusterPage
use dmqtt.Admin.ClusterPage.{ClusterPage, load_nodes_failed, cancelled, cancel_failed}
use dmqtt.Admin.Stats.{Dashboard}
use dmqtt.Admin.Stats.Charts.{
  connections_chart_option, memory_chart_option, goroutine_chart_option, subs_chart_option,
}
use dmqtt.Admin.Views.{Text, key, filled, Item, text}
use dmqtt.Admin.Views.Frame.{menu}

abbrev pub devices_message : Devices.Message → Text
devices_message connection_restored = key (codes "devices") (codes "connectionRestored")
devices_message load_failed = key (codes "devices") (codes "loadFailed")
devices_message disconnect_failed = key (codes "devices") (codes "disconnectFailed")
devices_message load_detail_failed = key (codes "devices") (codes "loadDetailFailed")
devices_message (disconnected id) = filled (codes "devices") (codes "disconnected") (codes "id") id

abbrev pub cluster_message : ClusterPage.Message → Text
cluster_message load_nodes_failed = key (codes "cluster") (codes "loadNodesFailed")
cluster_message cancelled = key (codes "cluster") (codes "cancelled")
cluster_message cancel_failed = key (codes "cluster") (codes "cancelFailed")

-- The messages that a page has shown.
abbrev pub devices_notice : Devices.Message → List Item
devices_notice m = text (devices_message m) ∷ []

abbrev pub cluster_notice : ClusterPage.Message → List Item
cluster_notice m = text (cluster_message m) ∷ []

unfoldable pub chart_names : Dashboard → List Item
chart_names page =
    text (connections_chart_option page).series_name
    ∷ text (memory_chart_option page).series_name
    ∷ text (goroutine_chart_option page).series_name
    ∷ text (subs_chart_option page).series_name
    ∷ []

abbrev entries : Map Bytes Text → List Item
entries [] = []
entries ((path, label) ∷ m) = text label ∷ entries m

unfoldable pub menu_view : List Item
menu_view = entries menu
