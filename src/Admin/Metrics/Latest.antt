-- ===== src/Admin/Metrics/Latest.antt =====
-- What the page of metrics shows after any answers.
use dmqtt.Base.{ℕ, ◌+◌, ◌*◌, ◌≤◌, ◌≡◌, refl, ap, ◌∙◌, Bytes, List, [], ◌∷◌, map, arith}
use dmqtt.Admin.TimeSeries as TimeSeries
use dmqtt.Admin.TimeSeries.{last, Change, pushes}
use dmqtt.Admin.TimeSeries.Window.{run-window}
use dmqtt.Admin.Stats.{Stats}
use dmqtt.Admin.Stats.Series.{since_clear-pushes, map-last}
use dmqtt.Admin.Metrics.{
  MetricsPoint, MetricsPage, setup, tenths_of_mb, stats_changed, Field, value_at, time_of,
  make_area_option, run,
}

-- The shown tenths of MB are off by at most half of a tenth.
tenths_of_mb_bounds :
    (bytes : ℕ)
    → (tenths_of_mb bytes * 1048576 ≤ bytes * 10 + 524288)
      × (bytes * 10 ≤ tenths_of_mb bytes * 1048576 + 524288)
unfolding tenths_of_mb
tenths_of_mb_bounds bytes = ground arith

-- The point of an answer.
unfoldable pub point_of : (ℕ → ℕ) → Stats × Bytes → MetricsPoint
point_of round_pause (val, time) = record {
  time = time;
  alloc_mb = tenths_of_mb val.memory_alloc_bytes;
  sys_mb = tenths_of_mb val.memory_sys_bytes;
  goroutines = val.goroutines;
  gc_pause_ms = round_pause val.gc_pause_total_ns;
}

module _ (round_pause : ℕ → ℕ) where
  run-points :
      (page : MetricsPage) (answers : List (Stats × Bytes))
      → (run round_pause page answers).points
        ≡ TimeSeries.run 60 page.points (map pushes (map (point_of round_pause) answers))
  unfolding run stats_changed point_of TimeSeries.run
  run-points page [] = refl
  run-points page ((val, time) ∷ answers) =
      run-points (stats_changed round_pause page val time) answers

  run-setup :
      (answers : List (Stats × Bytes))
      → (run round_pause setup answers).points ≡ last 60 (map (point_of round_pause) answers)
  unfolding setup
  run-setup answers =
      run-points setup answers
      ∙ run-window 60 (map pushes (map (point_of round_pause) answers)) (omega arith)
      ∙ ap (last 60) (since_clear-pushes [] (map (point_of round_pause) answers))

  -- After any answers, a chart of the page of metrics shows the field's values of the last 60 of them,
  -- labelled with their times.
  pub run-make_area_option :
      (answers : List (Stats × Bytes)) (label : Bytes) (field : Field) (unit : Bytes)
      → let points = map (point_of round_pause) answers in
        let option = make_area_option label field unit (run round_pause setup answers) in
        (option.series ≡ last 60 (map (value_at field) points))
        × (option.x_axis ≡ last 60 (map time_of points))
  unfolding make_area_option
  run-make_area_option answers label field unit = (
    ap (map (value_at field)) (run-setup answers)
        ∙ map-last (value_at field) 60 (map (point_of round_pause) answers),
    ap (map time_of) (run-setup answers) ∙ map-last time_of 60 (map (point_of round_pause) answers),
  )
