-- ===== src/Admin/Metrics.antt =====
-- web/admin/src/views/Metrics.vue: the page with the figures of the process. `round_pause` is the double
-- arithmetic of `Math.round(ns / 1e6 * 100)` and `fixed_pause` that of `(ns / 1e6).toFixed(1)`: a
-- division by 1e6 is not exact. Memory is counted in tenths of MB, and the pause in hundredths of ms.
pub mod Latest
use dmqtt.Base.{ℕ, ◌+◌, ◌*◌, ◌/◌, Bytes, List, [], ◌∷◌, ◌++◌, map, Option, none, some, codes}
use dmqtt.Broker.Dedup.{decimal}
use dmqtt.Admin.TimeSeries.{push}
use dmqtt.Admin.Stats.{Stats}
use dmqtt.Admin.Stats.Charts.{ChartOption}
use dmqtt.Admin.Views.{raw}

pub record MetricsPoint : Type 0 where
  pub time : Bytes
  pub alloc_mb : ℕ
  pub sys_mb : ℕ
  pub goroutines : ℕ
  pub gc_pause_ms : ℕ

pub record MetricsPage : Type 0 where
  pub stats : Option Stats
  pub points : List MetricsPoint

unfoldable pub setup : MetricsPage
setup = record { stats = none; points = [] }

-- `Math.round(bytes / 1024 / 1024 * 10)`
unfoldable pub tenths_of_mb : ℕ → ℕ
tenths_of_mb bytes = (bytes * 10 + 524288) / 1048576

-- The answer of the poll, and the `watch` on it.
unfoldable pub stats_changed : (ℕ → ℕ) → MetricsPage → Stats → Bytes → MetricsPage
stats_changed round_pause page val time = record {
  stats = some val;
  points = push 60 page.points (record {
    time = time;
    alloc_mb = tenths_of_mb val.memory_alloc_bytes;
    sys_mb = tenths_of_mb val.memory_sys_bytes;
    goroutines = val.goroutines;
    gc_pause_ms = round_pause val.gc_pause_total_ns;
  });
}

unfoldable pub latest_goroutines : MetricsPage → Bytes
latest_goroutines page = elim page.stats [
  | none ↦ codes "-"
  | some s ↦ decimal s.goroutines s.goroutines
]

unfoldable pub latest_gc_pause : (ℕ → Bytes) → MetricsPage → Bytes
latest_gc_pause fixed_pause page = elim page.stats [
  | none ↦ codes "-"
  | some s ↦ fixed_pause s.gc_pause_total_ns ++ codes "ms"
]

pub data Field : Type 0 where
  alloc_mb sys_mb goroutines gc_pause_ms : Field

unfoldable pub value_at : Field → MetricsPoint → ℕ
value_at alloc_mb p = p.alloc_mb
value_at sys_mb p = p.sys_mb
value_at goroutines p = p.goroutines
value_at gc_pause_ms p = p.gc_pause_ms

abbrev pub time_of : MetricsPoint → Bytes
time_of p = p.time

-- The colour of an area is left out.
unfoldable pub make_area_option : Bytes → Field → Bytes → MetricsPage → ChartOption
make_area_option label field unit page = record {
  x_axis = map time_of page.points;
  unit = unit;
  series_name = raw label;
  series = map (value_at field) page.points;
}

unfoldable pub alloc_chart_option : MetricsPage → ChartOption
alloc_chart_option = make_area_option (codes "Alloc") alloc_mb (codes "MB")

unfoldable pub sys_chart_option : MetricsPage → ChartOption
sys_chart_option = make_area_option (codes "Sys") sys_mb (codes "MB")

unfoldable pub goroutine_chart_option : MetricsPage → ChartOption
goroutine_chart_option = make_area_option (codes "Goroutines") goroutines []

unfoldable pub gc_chart_option : MetricsPage → ChartOption
gc_chart_option = make_area_option (codes "GC Pause") gc_pause_ms (codes "ms")

-- The answers that arrive, each at a local time, in their order.
unfoldable pub run : (ℕ → ℕ) → MetricsPage → List (Stats × Bytes) → MetricsPage
run round_pause page [] = page
run round_pause page ((val, time) ∷ answers) =
    run round_pause (stats_changed round_pause page val time) answers
