-- ===== src/Admin/Devices/Recovery.antt =====
-- The polling of the device list, through errors and recovery.
use dmqtt.Base.{
  ℕ, ◌+◌, ◌<◌, ◌≡◌, ◌≢◌, refl, ◌⊎◌, inl, inr, List, [], ◌∷◌, none, some, arith, nat_eq, nat_beq,
  nat_beq_iff, false, subst, Bool-cases, ltb,
}
use dmqtt.Base.Map.{lookup, insert, erase, lookup-insert, lookup-erase}
use dmqtt.Admin.Timers.{Timers, no_timers, set_interval, clear_interval}
use dmqtt.Admin.Devices.{
  ClusterDeviceListResponse, DevicesPage, setup, restart_timer, notify, load_devices, show_devices,
  devices_loaded, devices_failed, unmounted, handle_refresh, disconnect_done, disconnect_not_done,
  show_detail, detail_loaded, detail_not_loaded, Event, load_starts, refreshes, load_fails,
  disconnect_fails, detail_fails, load_ends, disconnects, shows, detail_ends, searches, step, run,
}

-- Which interval the page polls at: 5 seconds, or 10 since the first of a row of errors.
abbrev pub IsPaced : ℕ → ℕ → Type 0
IsPaced errors interval = ((errors ≡ 0) × (interval ≡ 5000)) ⊎ ((0 < errors) × (interval ≡ 10000))

-- The timer `timer` runs at `interval`, and no other timer runs.
abbrev pub RunsAlone : Timers → ℕ → ℕ → Type 0
RunsAlone ts timer interval =
    (lookup timer ts.active ≡ some interval) × ((t : ℕ) → t ≢ timer → lookup t ts.active ≡ none)

abbrev pub IsPolling : DevicesPage → Type 0
IsPolling page =
    RunsAlone page.timers page.poll_timer page.poll_interval
    × IsPaced page.consecutive_errors page.poll_interval

set_interval_runs :
    (ts : Timers) (ms : ℕ) → lookup (set_interval ts ms).0 (set_interval ts ms).1.active ≡ some ms
unfolding set_interval
set_interval_runs ts ms = ground (
  arith,
  nat_beq_iff ts.next_timer ts.next_timer,
  lookup-insert ts.next_timer ts.next_timer ms ts.active,
)

-- Clearing the only timer and setting one leaves only the new one.
replaced :
    (ts : Timers) (old interval ms : ℕ)
    → RunsAlone ts old interval
    → RunsAlone
        (set_interval (clear_interval ts old) ms).1
        (set_interval (clear_interval ts old) ms).0
        ms
unfolding set_interval clear_interval
replaced ts old interval ms h = (
  set_interval_runs (clear_interval ts old) ms,
  λ t ne. ground (
    arith,
    nat_beq_iff ts.next_timer t,
    nat_beq_iff old t,
    lookup-insert ts.next_timer t ms (erase old ts.active),
    lookup-erase old t ts.active,
    h.1 t,
  ),
)

loaded-IsPolling :
    (page : DevicesPage) (res : ClusterDeviceListResponse)
    → IsPolling page
    → IsPolling (devices_loaded page res)
unfolding devices_loaded show_devices restart_timer notify
loaded-IsPolling page res h = elim (Bool-cases (ltb 0 page.consecutive_errors)) [
  | inl e ↦
      rw e (replaced page.timers page.poll_timer page.poll_interval 5000 h.0, inl (refl, refl))
  | inr e ↦ rw e h
]

not_first : (n : ℕ) → 0 < n → nat_beq (n + 1) 1 ≡ false
not_first n h = ground arith

at_first :
    (page : DevicesPage) → IsPolling page → page.consecutive_errors ≡ 0 → page.poll_interval ≡ 5000
at_first page h e = ground arith

failed-IsPolling : (page : DevicesPage) → IsPolling page → IsPolling (devices_failed page)
unfolding devices_failed restart_timer notify
failed-IsPolling page (alone, paced) = elim paced [
  | inl (none_yet, fast) ↦
      rw (none_yet, fast)
        (
          replaced page.timers page.poll_timer 5000 10000
              (subst (RunsAlone page.timers page.poll_timer) fast alone),
          inr (omega arith, refl),
        )
  | inr (some_yet, slow) ↦
      rw (not_first page.consecutive_errors some_yet) (alone, inr (omega arith, slow))
]

step-IsPolling : (page : DevicesPage) (e : Event) → IsPolling page → IsPolling (step page e)
unfolding step load_devices handle_refresh disconnect_done disconnect_not_done show_detail
    detail_loaded detail_not_loaded notify
step-IsPolling page load_starts h = h
step-IsPolling page refreshes h = h
step-IsPolling page load_fails h = failed-IsPolling page h
step-IsPolling page disconnect_fails h = h
step-IsPolling page detail_fails h = h
step-IsPolling page (load_ends res) h = loaded-IsPolling page res h
step-IsPolling page (disconnects id) h = h
step-IsPolling page (shows id) h = h
step-IsPolling page (detail_ends detail) h = h
step-IsPolling page (searches text) h = h

run-IsPolling : (page : DevicesPage) (es : List Event) → IsPolling page → IsPolling (run page es)
unfolding run
run-IsPolling page [] h = h
run-IsPolling page (e ∷ es) h = run-IsPolling (step page e) es (step-IsPolling page e h)

pub setup-IsPolling : IsPolling (setup no_timers)
unfolding setup set_interval insert lookup
setup-IsPolling = ((refl, λ t ne. ground (arith, nat_beq_iff 1 t)), inl (refl, refl))

-- Whatever happens on an open page, exactly one timer runs, the one that the page will clear, at the
-- page's interval: 5 seconds while the last requests succeed, and 10 seconds from the first of a row
-- of errors on, never more. When the page is left no timer runs.
pub run-setup-IsPolling :
    (es : List Event)
    → IsPolling (run (setup no_timers) es)
      × ((t : ℕ) → lookup t (unmounted (run (setup no_timers) es)).timers.active ≡ none)
unfolding unmounted clear_interval
run-setup-IsPolling es =
    let h = run-IsPolling (setup no_timers) es setup-IsPolling in
    let page = run (setup no_timers) es in
    (
      h,
      λ t. ground (
        arith,
        nat_beq_iff page.poll_timer t,
        lookup-erase page.poll_timer t page.timers.active,
        h.0.1 t,
      ),
    )

-- A request that is still on its way when the page is left, and then fails as the first error, starts a
-- new timer, which nothing clears.
pub unmounted-devices_failed :
    (page : DevicesPage)
    → IsPolling page
    → page.consecutive_errors ≡ 0
    → lookup
        (devices_failed (unmounted page)).poll_timer
        (devices_failed (unmounted page)).timers.active
      ≡ some 10000
unfolding devices_failed unmounted restart_timer notify
unmounted-devices_failed page h e =
    rw (e, at_first page h e)
      (set_interval_runs
        (clear_interval (clear_interval page.timers page.poll_timer) page.poll_timer) 10000)
