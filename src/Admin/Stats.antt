-- ===== src/Admin/Stats.antt =====
-- web/admin/src/api/stats.ts, views/Dashboard.vue and views/Metrics.vue: the figures of a node and of
-- the cluster, and how the site shows them. Bytes are rounded to MB in whole numbers, as the double
-- arithmetic does exactly for a dividend that is divided by a power of two.
pub mod Uptime
pub mod Charts
pub mod Series
use dmqtt.Base.{
  ℕ, ◌+◌, ◌*◌, ◌/◌, ◌%◌, ◌^◌, Bytes, List, [], ◌∷◌, ◌++◌, length, ltb, nat_beq, if◌then◌else◌,
  Option, none, some, codes,
}
use dmqtt.Base.Nested.{or_empty}
use dmqtt.Broker.Dedup.{decimal}
use dmqtt.Admin.TimeSeries.{push}

pub record Stats : Type 0 where
  pub node_id : Bytes
  pub connected_clients : ℕ
  pub active_subscriptions : ℕ
  pub retained_messages : ℕ
  pub cluster_nodes : ℕ
  pub uptime_seconds : ℕ
  pub goroutines : ℕ
  pub memory_alloc_bytes : ℕ
  pub memory_sys_bytes : ℕ
  pub gc_pause_total_ns : ℕ

pub record ClusterNodeStats : Type 0 where
  pub node_id : Bytes
  pub connections : ℕ
  pub subscriptions : ℕ
  pub retained : ℕ

pub record ClusterStats : Type 0 where
  pub nodes : Option (List ClusterNodeStats)
  pub total_connections : ℕ
  pub total_subscriptions : ℕ
  pub self : Bytes

-- A point of the dashboard's charts.
pub record Point : Type 0 where
  pub time : Bytes
  pub connected_clients : ℕ
  pub total_subscriptions : ℕ
  pub memory_alloc_mb : ℕ
  pub goroutines : ℕ

pub record Dashboard : Type 0 where
  pub stats : Option Stats
  pub cluster_nodes : List ClusterNodeStats
  pub self_node_id : Bytes
  pub total_connections : ℕ
  pub total_subscriptions : ℕ
  pub points : List Point

unfoldable pub setup : Dashboard
setup = record {
  stats = none;
  cluster_nodes = [];
  self_node_id = [];
  total_connections = 0;
  total_subscriptions = 0;
  points = [];
}

-- `a || b` on numbers
abbrev pub or_else : ℕ → ℕ → ℕ
or_else a b = if nat_beq a 0 then b else a

-- `loadClusterStats` when its request has ended; a failure changes nothing.
unfoldable pub cluster_stats_loaded : Dashboard → ClusterStats → Dashboard
cluster_stats_loaded page cs = record page {
  cluster_nodes = or_empty cs.nodes;
  self_node_id = cs.self;
  total_connections = cs.total_connections;
  total_subscriptions = cs.total_subscriptions;
}

-- `Math.round(bytes / 1024 / 1024)`
abbrev pub round_mb : ℕ → ℕ
round_mb bytes = (bytes + 524288) / 1048576

-- The answer of the node's own poll, and the `watch` on it, at the local time `time`.
unfoldable pub stats_changed : Dashboard → Stats → Bytes → Dashboard
stats_changed page val time = record page {
  stats = some val;
  points = push 60 page.points (record {
    time = time;
    connected_clients = or_else page.total_connections val.connected_clients;
    total_subscriptions = or_else page.total_subscriptions val.active_subscriptions;
    memory_alloc_mb = round_mb val.memory_alloc_bytes;
    goroutines = val.goroutines;
  });
}

pub data Label : Type 0 where
  online_devices active_subscriptions retained_messages cluster_nodes : Label

unfoldable pub stat_cards : Dashboard → List (Label × ℕ)
stat_cards page = elim page.stats [
  | none ↦ []
  | some s ↦
      (online_devices, or_else page.total_connections s.connected_clients)
      ∷ (Label.active_subscriptions, or_else page.total_subscriptions s.active_subscriptions)
      ∷ (Label.retained_messages, s.retained_messages)
      ∷ (Label.cluster_nodes, or_else (length page.cluster_nodes) s.cluster_nodes)
      ∷ []
]

-- The parts of an uptime that the site shows.
pub data Shown : Type 0 where
  days : ℕ → ℕ → ℕ → Shown
  hours minutes : ℕ → ℕ → Shown

unfoldable pub uptime_shown : ℕ → Shown
uptime_shown s =
    let d = s / 86400 in
    let h = s % 86400 / 3600 in
    let m = s % 3600 / 60 in
    if ltb 0 d then days d h m else if ltb 0 h then hours h m else minutes m (s % 60)

abbrev with_unit : ℕ → Bytes → Bytes
with_unit n unit = decimal n n ++ unit

unfoldable pub show_uptime : Shown → Bytes
show_uptime (days d h m) =
    with_unit d (codes "d ") ++ (with_unit h (codes "h ") ++ with_unit m (codes "m"))
show_uptime (hours h m) = with_unit h (codes "h ") ++ with_unit m (codes "m")
show_uptime (minutes m s) = with_unit m (codes "m ") ++ with_unit s (codes "s")

unfoldable pub uptime_display : Option Stats → Bytes
uptime_display none = codes "-"
uptime_display (some s) = show_uptime (uptime_shown s.uptime_seconds)
