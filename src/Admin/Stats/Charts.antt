-- ===== src/Admin/Stats/Charts.antt =====
-- web/admin/src/views/Dashboard.vue: the charts of the dashboard, and what happens on the page in order.
use dmqtt.Base.{ℕ, Bytes, List, [], ◌∷◌, map, codes}
use dmqtt.Admin.Views.{Text, key, raw}
use dmqtt.Admin.Stats.{Stats, ClusterStats, Point, Dashboard, cluster_stats_loaded, stats_changed}

-- What an option of echarts holds beyond its fixed settings: the times, which are not shown but label
-- the points, and the one series with its name and the name of its unit.
pub record ChartOption : Type 0 where
  pub x_axis : List Bytes
  pub unit : Bytes
  pub series_name : Text
  pub series : List ℕ

-- The name of a field of a point, as in `p[field]`.
pub data Field : Type 0 where
  connected_clients total_subscriptions memory_alloc_mb goroutines : Field

unfoldable pub value_at : Field → Point → ℕ
value_at connected_clients p = p.connected_clients
value_at total_subscriptions p = p.total_subscriptions
value_at memory_alloc_mb p = p.memory_alloc_mb
value_at goroutines p = p.goroutines

abbrev pub time_of : Point → Bytes
time_of p = p.time

unfoldable pub make_line_option : Text → Field → Bytes → Dashboard → ChartOption
make_line_option label field unit page = record {
  x_axis = map time_of page.points;
  unit = unit;
  series_name = label;
  series = map (value_at field) page.points;
}

unfoldable pub connections_chart_option : Dashboard → ChartOption
connections_chart_option =
    make_line_option (key (codes "dashboard") (codes "connections")) connected_clients []

unfoldable pub memory_chart_option : Dashboard → ChartOption
memory_chart_option =
    make_line_option (key (codes "dashboard") (codes "memory")) memory_alloc_mb (codes "MB")

unfoldable pub goroutine_chart_option : Dashboard → ChartOption
goroutine_chart_option = make_line_option (raw (codes "Goroutines")) goroutines []

unfoldable pub subs_chart_option : Dashboard → ChartOption
subs_chart_option =
    make_line_option (key (codes "dashboard") (codes "subscriptions")) total_subscriptions []

-- The answers that arrive, in their order: that of the node's own poll, at a local time, and that of
-- the cluster. Failures change nothing that is modelled here.
pub data Event : Type 0 where
  stats_end : Stats → Bytes → Event
  cluster_end : ClusterStats → Event

unfoldable pub step : Dashboard → Event → Dashboard
step page (stats_end val time) = stats_changed page val time
step page (cluster_end cs) = cluster_stats_loaded page cs

unfoldable pub run : Dashboard → List Event → Dashboard
run page [] = page
run page (e ∷ es) = run (step page e) es
