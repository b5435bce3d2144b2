-- ===== src/CircuitBreaker/Runs.antt =====
-- The breaker on concrete histories, and its theorems there.
use dmqtt.Base.{List, ◌≡◌, ◌↔◌, refl, false, [], ◌∷◌, some, arith}
use dmqtt.CircuitBreaker.{
  closed, open_state, half_open, Config, CircuitBreaker, new, trip, reset, allow, allow_or_error,
  record_success, record_failure, allows, successes, failures, step, Call, run, circuit_open,
}
use dmqtt.CircuitBreaker.Counters.{IsReachedBy, run-opens}
use dmqtt.CircuitBreaker.Isolation.{run-open_refuses}
use dmqtt.CircuitBreaker.Recovery.{succeed, trial}

-- A threshold of one half.
abbrev config : Config
config = record {
  error_threshold = record { num = 1; den = 2 };
  window_size = 10;
  open_duration = 30;
  half_open_max = 2;
  min_requests = 2;
}

two_failures : (run (new config) (failures 5 ∷ failures 6 ∷ [])).state ≡ open_state
unfolding run step record_failure trip new
two_failures = refl

recovers :
    (run
      (new config)
      (failures 5 ∷ failures 6 ∷ allows 40 ∷ successes 41 ∷ successes 42 ∷ [])).state
    ≡ closed
unfolding run step record_failure record_success trip reset allow new
recovers = refl

abbrev opened : CircuitBreaker
opened = record {
  state = open_state;
  fail_count = 0;
  success_count = 0;
  total_count = 0;
  half_open_succ = 0;
  opened_at = 6;
  config = config;
}

abbrev on_trial : CircuitBreaker
on_trial = record {
  state = half_open;
  fail_count = 0;
  success_count = 0;
  total_count = 0;
  half_open_succ = 0;
  opened_at = 6;
  config = config;
}

-- The second failure of three outcomes reaches the threshold.
abbrev outcomes : List Call
outcomes = successes 4 ∷ failures 5 ∷ failures 6 ∷ []

run-opens_example :
    (((run (new config) outcomes).state ≡ open_state)
      ↔ IsReachedBy config (new config).fail_count (new config).total_count outcomes)
    × (((run (new config) outcomes).state ≡ closed)
        ↔ (¬ IsReachedBy config (new config).fail_count (new config).total_count outcomes))
unfolding new
run-opens_example = run-opens (new config) outcomes refl (tt, (tt, (tt, tt)))

run-open_refuses_example :
    ((allow (run opened (successes 10 ∷ failures 20 ∷ [])) 36).1 ≡ false)
    × ((allow_or_error (run opened (successes 10 ∷ failures 20 ∷ [])) 36).1 ≡ some circuit_open)
    × ((allow_or_error (run opened (successes 10 ∷ failures 20 ∷ [])) 36).0
        ≡ run opened (successes 10 ∷ failures 20 ∷ []))
run-open_refuses_example =
    run-open_refuses opened (successes 10 ∷ failures 20 ∷ []) 36 refl (omega arith) (omega arith)

trial_example :
    (succeed 2 on_trial ≡ record (new config) { opened_at = 6 })
    × ((succeed 1 on_trial).state ≡ half_open)
    × (record_failure (succeed 1 on_trial) 50
        ≡ record (new config) { state = open_state; opened_at = 50 })
trial_example = trial 1 1 on_trial 50 refl refl (omega arith)
