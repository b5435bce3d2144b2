-- ===== src/CircuitBreaker/Counters.antt =====
-- The counters of the breaker after any history of calls.
use dmqtt.Base.{
  ℕ, ◌+◌, ◌*◌, ◌≤◌, ◌<◌, ◌≡◌, ◌≢◌, ◌⊎◌, ◌↔◌, refl, List, [], ◌∷◌, All, arith, inl, inr, Bool-cases,
  leb,
}
use dmqtt.CircuitBreaker.{
  State, closed, open_state, half_open, Config, reaches, CircuitBreaker, new, trip, reset, allow,
  record_success, record_failure, current_state, Call, allows, successes, failures, states, resets,
  step, run,
}

-- Every recorded outcome is a success or a failure; trial successes are counted in the half-open
-- state only, and stay short of the number that closes the breaker.
pub record Inv (cb : CircuitBreaker) : Type 0 where
  pub total : cb.total_count ≡ cb.success_count + cb.fail_count
  pub trials : cb.state ≢ half_open → cb.half_open_succ ≡ 0
  pub short : cb.half_open_succ ≡ 0 ⊎ (cb.half_open_succ < cb.config.half_open_max)

new-Inv : (cfg : Config) → Inv (new cfg)
unfolding new
new-Inv cfg = ground arith

step-Inv : (cb : CircuitBreaker) (c : Call) → Inv cb → Inv (step cb c)
unfolding step allow record_success record_failure current_state trip reset
step-Inv cb (allows now) v = ground arith
step-Inv cb (successes now) v = ground arith
step-Inv cb (failures now) v = ground arith
step-Inv cb (states now) v = ground arith
step-Inv cb resets v = ground arith

run-Inv : (cb : CircuitBreaker) (cs : List Call) → Inv cb → Inv (run cb cs)
unfolding run
run-Inv cb [] v = v
run-Inv cb (c ∷ cs) v = run-Inv (step cb c) cs (step-Inv cb c v)

-- After any history of calls the counters of a breaker add up, and a breaker that is not half-open
-- has no trial successes.
pub run-new-Inv : (cfg : Config) (cs : List Call) → Inv (run (new cfg) cs)
run-new-Inv cfg cs = run-Inv (new cfg) cs (new-Inv cfg)

-- A call that records an outcome.
abbrev pub IsOutcome : Call → Type 0
IsOutcome (successes now) = Unit {0}
IsOutcome (failures now) = Unit {0}
IsOutcome _ = ⊥

-- Enough requests, and the share of failures among them at least the threshold.
abbrev pub IsReached : Config → ℕ → ℕ → Type 0
IsReached cfg fails total =
    (cfg.min_requests ≤ total) × (cfg.error_threshold.num * total ≤ fails * cfg.error_threshold.den)

-- Some failure among the outcomes brings the failures and the requests, counted on from `fails` and
-- `total`, to the threshold.
abbrev pub IsReachedBy : Config → ℕ → ℕ → List Call → Type 0
IsReachedBy cfg fails total (failures now ∷ cs) =
    IsReached cfg (fails + 1) (total + 1) ⊎ IsReachedBy cfg (fails + 1) (total + 1) cs
IsReachedBy cfg fails total (successes now ∷ cs) = IsReachedBy cfg fails (total + 1) cs
IsReachedBy cfg fails total _ = ⊥

outcome-open :
    (cb : CircuitBreaker) (cs : List Call)
    → cb.state ≡ open_state
    → All IsOutcome cs
    → (run cb cs).state ≡ open_state
unfolding run step record_success record_failure
outcome-open cb [] h o = h
outcome-open cb (successes now ∷ cs) h (o, os) =
    outcome-open (record_success cb) cs (ground arith) os
outcome-open cb (failures now ∷ cs) h (o, os) =
    outcome-open (record_failure cb now) cs (ground arith) os
outcome-open cb (allows now ∷ cs) h (o, os) = absurd o
outcome-open cb (states now ∷ cs) h (o, os) = absurd o
outcome-open cb (resets ∷ cs) h (o, os) = absurd o

-- What one outcome makes of a closed breaker.
success-closed :
    (cb : CircuitBreaker)
    → cb.state ≡ closed
    → ((record_success cb).state ≡ closed)
      × ((record_success cb).fail_count ≡ cb.fail_count)
      × ((record_success cb).total_count ≡ cb.total_count + 1)
      × ((record_success cb).config ≡ cb.config)
unfolding record_success
success-closed cb h = rw h (refl, refl, refl, refl)

failure-closed :
    (cb : CircuitBreaker) (now : ℕ)
    → cb.state ≡ closed
    → (IsReached cb.config (cb.fail_count + 1) (cb.total_count + 1)
        × ((record_failure cb now).state ≡ open_state))
      ⊎ (¬ IsReached cb.config (cb.fail_count + 1) (cb.total_count + 1)
          × ((record_failure cb now).state ≡ closed)
          × ((record_failure cb now).fail_count ≡ cb.fail_count + 1)
          × ((record_failure cb now).total_count ≡ cb.total_count + 1)
          × ((record_failure cb now).config ≡ cb.config))
unfolding record_failure trip
failure-closed cb now h =
    let n = cb.total_count + 1 in
    let f = cb.fail_count + 1 in
    rw h (elim (Bool-cases (leb cb.config.min_requests n)) [
      | inl e ↦ elim (Bool-cases (reaches f n cb.config.error_threshold)) [
        | inl k ↦ rw (e, k) (inl ((ground arith, ground arith), refl))
        | inr k ↦ rw (e, k) (inr (ground arith, refl, refl, refl, refl))
      ]
      | inr e ↦ rw e (inr (ground arith, refl, refl, refl, refl))
    ])

-- What the state says of the outcomes.
abbrev Tells : State → Config → ℕ → ℕ → List Call → Type 0
Tells state cfg fails total cs =
    ((state ≡ open_state) ↔ IsReachedBy cfg fails total cs)
    × ((state ≡ closed) ↔ (¬ IsReachedBy cfg fails total cs))

carried :
    (state : State) (cfg cfg' : Config) (f f' n n' : ℕ) (cs : List Call)
    → cfg ≡ cfg'
    → f ≡ f'
    → n ≡ n'
    → Tells state cfg f n cs
    → Tells state cfg' f' n' cs
carried state cfg cfg' f f' n n' cs k e m t = rw (← k, ← e, ← m) t

-- A closed breaker that only outcomes are recorded on is open in the end exactly if some failure among
-- them brought the requests to the minimum and the share of failures to the threshold, both with this
-- failure included and counted on from the counts it had; otherwise it is closed.
pub run-opens :
    (cb : CircuitBreaker) (cs : List Call)
    → cb.state ≡ closed
    → All IsOutcome cs
    → (((run cb cs).state ≡ open_state) ↔ IsReachedBy cb.config cb.fail_count cb.total_count cs)
      × (((run cb cs).state ≡ closed) ↔ (¬ IsReachedBy cb.config cb.fail_count cb.total_count cs))
unfolding run step
run-opens cb [] h o = ground arith
run-opens cb (successes now ∷ cs) h (o, os) =
    let (c, f, n, k) = success-closed cb h in
    let cb' = record_success cb in
    carried (run cb' cs).state cb'.config cb.config cb'.fail_count cb.fail_count cb'.total_count
      (cb.total_count + 1) cs k f n (run-opens cb' cs c os)
run-opens cb (failures now ∷ cs) h (o, os) =
    let cb' = record_failure cb now in
    elim (failure-closed cb now h) [
      | inl (r, is_open) ↦ ground (arith, outcome-open cb' cs is_open os)
      | inr (short, c, f, n, k) ↦
          let t =
            carried (run cb' cs).state cb'.config cb.config cb'.fail_count (cb.fail_count + 1)
              cb'.total_count (cb.total_count + 1) cs k f n (run-opens cb' cs c os) in
          ground arith
    ]
run-opens cb (allows now ∷ cs) h (o, os) = absurd o
run-opens cb (states now ∷ cs) h (o, os) = absurd o
run-opens cb (resets ∷ cs) h (o, os) = absurd o
