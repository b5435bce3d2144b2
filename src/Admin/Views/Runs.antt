-- ===== src/Admin/Views/Runs.antt =====
-- The templates, the charts and the frame on concrete states.
use dmqtt.Base.{ℕ, ◌≡◌, refl, Bytes, List, [], ◌∷◌, map, none, some, true, codes}
use dmqtt.Base.Nested.{or_empty}
use dmqtt.Admin.Timers.{no_timers}
use dmqtt.Admin.TimeSeries.{last}
use dmqtt.Admin.Devices as Devices
use dmqtt.Admin.Devices.{DevicesPage, load_ends}
use dmqtt.Admin.ClusterPage as ClusterPage
use dmqtt.Admin.Stats as Stats
use dmqtt.Admin.Stats.{Stats as NodeStats, ClusterStats}
use dmqtt.Admin.Stats.Charts as Charts
use dmqtt.Admin.Stats.Charts.{stats_end, cluster_end, make_line_option, value_at, time_of}
use dmqtt.Admin.Stats.Series.{points_of, run-make_line_option}
use dmqtt.Admin.Metrics as Metrics
use dmqtt.Admin.Views.{raw, flatten}
use dmqtt.Admin.Views.Notices.{devices_notice, cluster_notice, chart_names, menu_view}
use dmqtt.Admin.Views.DeviceDrawer.{devices_view}
use dmqtt.Admin.Views.NodeCards.{cluster_view}
use dmqtt.Admin.Views.Panels.{dashboard_view, metrics_view}
use dmqtt.Admin.Views.Frame as Frame
use dmqtt.Admin.Views.Frame.{header}
use dmqtt.Admin.Views.Translated.{english, IsTranslated}
use dmqtt.Admin.Views.Translated.Whole.{views-IsTranslated}

abbrev stats_of : ℕ → NodeStats
stats_of clients = record {
  node_id = codes "n1";
  connected_clients = clients;
  active_subscriptions = 2;
  retained_messages = 0;
  cluster_nodes = 2;
  uptime_seconds = 90;
  goroutines = 12;
  memory_alloc_bytes = 3000000;
  memory_sys_bytes = 9000000;
  gc_pause_total_ns = 1500000;
}

abbrev totals : ClusterStats
totals = record { nodes = none; total_connections = 7; total_subscriptions = 3; self = codes "n1" }

-- The answer of the cluster comes between two of the node.
abbrev answers : List Charts.Event
answers =
    stats_end (stats_of 4) (codes "10:00")
    ∷ cluster_end totals
    ∷ stats_end (stats_of 5) (codes "10:05")
    ∷ []

run-make_line_option_example :
    ((make_line_option
        (raw (codes "x"))
        Charts.connected_clients
        []
        (Charts.run Stats.setup answers)).series
      ≡ last 60 (map (value_at Charts.connected_clients) (points_of 0 0 answers)))
    × ((make_line_option
          (raw (codes "x"))
          Charts.connected_clients
          []
          (Charts.run Stats.setup answers)).x_axis
        ≡ last 60 (map time_of (points_of 0 0 answers)))
run-make_line_option_example =
    run-make_line_option answers (raw (codes "x")) Charts.connected_clients []

shown_run : (Charts.connections_chart_option (Charts.run Stats.setup answers)).series ≡ 4 ∷ 7 ∷ []
unfolding Charts.run Charts.step Charts.connections_chart_option Charts.make_line_option
    Charts.value_at Stats.setup Stats.stats_changed Stats.cluster_stats_loaded
    dmqtt.Admin.TimeSeries.push dmqtt.Admin.TimeSeries.slice dmqtt.Admin.TimeSeries.slice_start
    dmqtt.Admin.TimeSeries.last or_empty
shown_run = refl

abbrev lamp : Devices.DeviceSummary
lamp = record {
  client_id = codes "lamp";
  username = codes "u";
  remote_addr = codes "10.0.0.1";
  protocol_version = 4;
  connected_at = codes "2024-01-01T00:00:00Z";
  keep_alive = 60;
  subscriptions = some (codes "a/b" ∷ []);
  node_id = some (codes "n1");
}

-- A list with one device, and its drawer open.
abbrev opened : DevicesPage
opened = Devices.run (Devices.setup no_timers) (
    load_ends (record { devices = some (lamp ∷ []); total = 1; self = codes "n1" })
    ∷ Devices.shows (codes "lamp")
    ∷ Devices.disconnects (codes "lamp")
    ∷ Devices.detail_ends (record { summary = lamp; connected = true; session = none })
    ∷ [])

abbrev no_change : Bytes → Bytes
no_change s = s

abbrev no_digits : ℕ → Bytes
no_digits n = []

views-IsTranslated_example :
    IsTranslated english (devices_view no_change no_change opened)
    × IsTranslated english (cluster_view ClusterPage.setup)
    × IsTranslated english (dashboard_view Stats.setup none)
    × IsTranslated english (metrics_view no_digits Metrics.setup none)
    × IsTranslated english (header Frame.setup (codes "/devices") (codes "en"))
    × IsTranslated english (flatten (map devices_notice opened.messages))
    × IsTranslated english (flatten (map cluster_notice ClusterPage.setup.messages))
    × IsTranslated english (chart_names Stats.setup)
    × IsTranslated english menu_view
views-IsTranslated_example =
    views-IsTranslated english no_change no_change no_digits opened ClusterPage.setup Stats.setup
      Metrics.setup Frame.setup none (codes "/devices") (codes "en")
