-- ===== src/Admin/ClusterPage/Shown.antt =====
-- What the list of migrations shows after any events.
use dmqtt.Base.{◌≡◌, refl, List, [], ◌∷◌, Bool, true, false, not, ◌&&◌, ap}
use dmqtt.Base.Nested.{or_empty, is_empty}
use dmqtt.Admin.ClusterPage.{
  Migration, ClusterPage, setup, nodes_loaded, nodes_failed, load_migrations, migrations_loaded,
  migrations_failed, cancel_done, cancel_not_done, shows_empty, mounted, Event, nodes_end,
  nodes_fail, load_starts, migrations_end, migrations_fail, cancels, cancel_fails, step, run,
}

-- The list of the last request that ended, empty where it failed, and whether a later one has started.
unfoldable pub last_list : List Migration → Bool → List Event → List Migration × Bool
last_list ms loading [] = (ms, loading)
last_list ms loading (nodes_end res ∷ es) = last_list ms loading es
last_list ms loading (nodes_fail ∷ es) = last_list ms loading es
last_list ms loading (load_starts ∷ es) = last_list ms true es
last_list ms loading (migrations_end answer ∷ es) = last_list (or_empty answer) false es
last_list ms loading (migrations_fail ∷ es) = last_list [] false es
last_list ms loading (cancels ∷ es) = last_list ms true es
last_list ms loading (cancel_fails ∷ es) = last_list ms loading es

run-last_list :
    (page : ClusterPage) (es : List Event)
    → ((run page es).migrations, (run page es).mig_loading)
      ≡ last_list page.migrations page.mig_loading es
unfolding run step last_list nodes_loaded nodes_failed load_migrations migrations_loaded
    migrations_failed cancel_done cancel_not_done
run-last_list page [] = refl
run-last_list page (nodes_end res ∷ es) = run-last_list (step page (nodes_end res)) es
run-last_list page (nodes_fail ∷ es) = run-last_list (step page nodes_fail) es
run-last_list page (load_starts ∷ es) = run-last_list (step page load_starts) es
run-last_list page (migrations_end answer ∷ es) =
    run-last_list (step page (migrations_end answer)) es
run-last_list page (migrations_fail ∷ es) = run-last_list (step page migrations_fail) es
run-last_list page (cancels ∷ es) = run-last_list (step page cancels) es
run-last_list page (cancel_fails ∷ es) = run-last_list (step page cancel_fails) es

-- After any events on an opened page the list of migrations is that of the last request that ended,
-- empty where that failed, and the page says that there are none exactly when that list is empty and
-- no request has started since.
pub run-mounted :
    (es : List Event)
    → ((run (mounted setup) es).migrations ≡ (last_list [] true es).0)
      × (shows_empty (run (mounted setup) es)
          ≡ (not (last_list [] true es).1 && is_empty (last_list [] true es).0))
unfolding mounted setup load_migrations shows_empty
run-mounted es =
    let e = run-last_list (mounted setup) es in
    (ap (λ p. p.0) e, ap (λ p. not p.1 && is_empty p.0) e)
