-- ===== src/Admin/Stats/Series.antt =====
-- What the charts of the dashboard show after any answers.
use dmqtt.Base.{
  ℕ, zero, suc, ◌-◌, ◌≡◌, refl, sym, ap, ◌∙◌, Bytes, List, [], ◌∷◌, ◌++◌, length, drop, map, arith,
}
use dmqtt.Admin.TimeSeries as TimeSeries
use dmqtt.Admin.TimeSeries.{push, last, Change, pushes}
use dmqtt.Admin.TimeSeries.Window.{since_clear, run-window}
use dmqtt.Admin.Stats.{
  Stats, Point, Dashboard, setup, or_else, round_mb, cluster_stats_loaded, stats_changed,
}
use dmqtt.Admin.Stats.Charts.{
  Field, value_at, time_of, make_line_option, Event, stats_end, cluster_end, step, run,
}
use dmqtt.Admin.Views.{Text}

-- The point of an answer, where the totals of the cluster are those of its last answer.
unfoldable pub point_of : ℕ → ℕ → Stats → Bytes → Point
point_of connections subs val time = record {
  time = time;
  connected_clients = or_else connections val.connected_clients;
  total_subscriptions = or_else subs val.active_subscriptions;
  memory_alloc_mb = round_mb val.memory_alloc_bytes;
  goroutines = val.goroutines;
}

-- One point for every answer of the node, from totals of the cluster to start with.
unfoldable pub points_of : ℕ → ℕ → List Event → List Point
points_of connections subs [] = []
points_of connections subs (stats_end val time ∷ es) =
    point_of connections subs val time ∷ points_of connections subs es
points_of connections subs (cluster_end cs ∷ es) =
    points_of cs.total_connections cs.total_subscriptions es

abbrev changes : List Point → List (Change Point)
changes ps = map pushes ps

run-points :
    (page : Dashboard) (es : List Event)
    → (run page es).points
      ≡ TimeSeries.run 60 page.points
          (changes (points_of page.total_connections page.total_subscriptions es))
unfolding run step stats_changed cluster_stats_loaded points_of point_of TimeSeries.run
run-points page [] = refl
run-points page (stats_end val time ∷ es) = run-points (stats_changed page val time) es
run-points page (cluster_end cs ∷ es) = run-points (cluster_stats_loaded page cs) es

module _ {ℓ} {A : Type ℓ} where
  append-nil : (xs : List A) → xs ++ [] ≡ xs
  append-nil [] = refl
  append-nil (x ∷ xs) = ap (◌∷◌ x) (append-nil xs)

  append_one : (xs : List A) (y : A) (ys : List A) → (xs ++ (y ∷ [])) ++ ys ≡ xs ++ (y ∷ ys)
  append_one [] y ys = refl
  append_one (x ∷ xs) y ys = ap (◌∷◌ x) (append_one xs y ys)

  pub since_clear-pushes : (seen ps : List A) → since_clear seen (map pushes ps) ≡ seen ++ ps
  unfolding since_clear
  since_clear-pushes seen [] = sym (append-nil seen)
  since_clear-pushes seen (p ∷ ps) = since_clear-pushes (seen ++ (p ∷ [])) ps ∙ append_one seen p ps

module _ {ℓ κ} {A : Type ℓ} {B : Type κ} (f : A → B) where
  length-map : (xs : List A) → length (map f xs) ≡ length xs
  length-map [] = refl
  length-map (x ∷ xs) = ap suc (length-map xs)

  map-drop : (n : ℕ) (xs : List A) → map f (drop n xs) ≡ drop n (map f xs)
  map-drop zero xs = refl
  map-drop (suc n) [] = refl
  map-drop (suc n) (x ∷ xs) = map-drop n xs

  pub map-last : (n : ℕ) (xs : List A) → map f (last n xs) ≡ last n (map f xs)
  unfolding last
  map-last n xs = rw (length-map xs) (map-drop (length xs - n) xs)

run-setup : (es : List Event) → (run setup es).points ≡ last 60 (points_of 0 0 es)
unfolding setup
run-setup es =
    run-points setup es
    ∙ run-window 60 (changes (points_of 0 0 es)) (omega arith)
    ∙ ap (last 60) (since_clear-pushes [] (points_of 0 0 es))

-- However the answers of the node and of the cluster are interleaved, a chart of the dashboard shows one
-- point for each of the last 60 answers of the node, with the value of its field, labelled with the times
-- of those answers; the totals of the cluster in a point are those of the last answer of the cluster
-- before it, or those of the node where that answer was 0 or none has come.
pub run-make_line_option :
    (es : List Event) (label : Text) (field : Field) (unit : Bytes)
    → ((make_line_option label field unit (run setup es)).series
        ≡ last 60 (map (value_at field) (points_of 0 0 es)))
      × ((make_line_option label field unit (run setup es)).x_axis
          ≡ last 60 (map time_of (points_of 0 0 es)))
unfolding make_line_option
run-make_line_option es label field unit = (
  ap (map (value_at field)) (run-setup es) ∙ map-last (value_at field) 60 (points_of 0 0 es),
  ap (map time_of) (run-setup es) ∙ map-last time_of 60 (points_of 0 0 es),
)
