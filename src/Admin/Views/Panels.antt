-- ===== src/Admin/Views/Panels.antt =====
-- web/admin/src/views/Dashboard.vue and Metrics.vue: the templates of the two pages with figures.
use dmqtt.Base.{
  ℕ, Bytes, List, [], ◌∷◌, ◌++◌, length, ltb, ◌==◌, bytes_eq, if◌then◌else◌, Option, none, some,
  codes,
}
use dmqtt.Broker.Dedup.{decimal}
use dmqtt.Admin.Stats.{
  ClusterNodeStats, Dashboard, Label, online_devices, stat_cards, uptime_display,
}
use dmqtt.Admin.Metrics.{MetricsPage, latest_goroutines, latest_gc_pause}
use dmqtt.Admin.Views.{Text, key, raw, Item, text, tag, shown_if}

abbrev pub label_text : Label → Text
label_text online_devices = key (codes "dashboard") (codes "onlineDevices")
label_text Label.active_subscriptions = key (codes "dashboard") (codes "activeSubscriptions")
label_text Label.retained_messages = key (codes "dashboard") (codes "retainedMessages")
label_text Label.cluster_nodes = key (codes "dashboard") (codes "clusterNodes")

abbrev pub card_items : List (Label × ℕ) → List Item
card_items [] = []
card_items ((label, value) ∷ cards) =
    text (raw (decimal value value)) ∷ text (label_text label) ∷ card_items cards

-- The table of the nodes, which stands there only for more than one.
unfoldable pub overview_heads : List Item
overview_heads =
    text (key (codes "dashboard") (codes "nodeOverview"))
    ∷ text (key (codes "common") (codes "node"))
    ∷ text (key (codes "dashboard") (codes "connections"))
    ∷ text (key (codes "dashboard") (codes "subscriptions"))
    ∷ text (key (codes "dashboard") (codes "retained"))
    ∷ []

unfoldable pub overview_row : Bytes → ClusterNodeStats → List Item
overview_row self_node_id row =
    tag (if row.node_id == self_node_id then codes "success" else codes "info") (raw row.node_id)
    ∷ text (raw (decimal row.connections row.connections))
    ∷ text (raw (decimal row.subscriptions row.subscriptions))
    ∷ text (raw (decimal row.retained row.retained))
    ∷ []

abbrev pub overview_rows : Bytes → List ClusterNodeStats → List Item
overview_rows self_node_id [] = []
overview_rows self_node_id (row ∷ rows) =
    overview_row self_node_id row ++ overview_rows self_node_id rows

unfoldable pub node_overview : Dashboard → List Item
node_overview page =
    shown_if (ltb 1 (length page.cluster_nodes))
      (overview_heads ++ overview_rows page.self_node_id page.cluster_nodes)

unfoldable pub trend_heads : List Item
trend_heads =
    text (key (codes "dashboard") (codes "connectionsTrend"))
    ∷ text (key (codes "dashboard") (codes "memoryTrend"))
    ∷ text (key (codes "dashboard") (codes "goroutineTrend"))
    ∷ text (key (codes "dashboard") (codes "subscriptionsTrend"))
    ∷ []

-- The message of an error of the poll.
abbrev pub error_alert : Option Bytes → List Item
error_alert none = []
error_alert (some error) = text (raw error) ∷ []

unfoldable pub dashboard_view : Dashboard → Option Bytes → List Item
dashboard_view page error =
    card_items (stat_cards page) ++ (node_overview page ++ (trend_heads ++ error_alert error))

unfoldable pub metrics_cards : (ℕ → Bytes) → MetricsPage → List Item
metrics_cards fixed_pause page =
    text (raw (uptime_display page.stats))
    ∷ text (key (codes "metrics") (codes "uptime"))
    ∷ text (raw (latest_goroutines page))
    ∷ text (raw (codes "Goroutines"))
    ∷ text (raw (latest_gc_pause fixed_pause page))
    ∷ text (key (codes "metrics") (codes "gcPause"))
    ∷ []

unfoldable pub metrics_heads : List Item
metrics_heads =
    text (key (codes "metrics") (codes "memoryAlloc"))
    ∷ text (key (codes "metrics") (codes "memorySys"))
    ∷ text (key (codes "metrics") (codes "goroutineCount"))
    ∷ text (key (codes "metrics") (codes "gcPauseTime"))
    ∷ []

unfoldable pub metrics_view : (ℕ → Bytes) → MetricsPage → Option Bytes → List Item
metrics_view fixed_pause page error =
    metrics_cards fixed_pause page ++ (metrics_heads ++ error_alert error)
