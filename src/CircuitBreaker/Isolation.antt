-- ===== src/CircuitBreaker/Isolation.antt =====
-- An open breaker lets nothing through until its time has passed.
use dmqtt.Base.{ℕ, ◌+◌, ◌≤◌, ◌<◌, ◌≡◌, refl, true, false, List, [], ◌∷◌, arith, All, some, ◌↔◌, ◌∙◌}
use dmqtt.CircuitBreaker.{
  open_state, half_open, CircuitBreaker, allow, allow_or_error, record_success, record_failure,
  current_state, Call, allows, successes, failures, states, resets, step, run, circuit_open,
}

-- The call is no reset, and is made within the breaker's open time.
abbrev pub Within : ℕ → Call → Type 0
Within deadline (allows now) = now ≤ deadline
Within deadline (successes now) = now ≤ deadline
Within deadline (failures now) = now ≤ deadline
Within deadline (states now) = now ≤ deadline
Within deadline resets = ⊥

abbrev pub deadline_of : CircuitBreaker → ℕ
deadline_of cb = cb.opened_at + cb.config.open_duration

step-open :
    (cb : CircuitBreaker) (c : Call)
    → cb.state ≡ open_state
    → Within (deadline_of cb) c
    → ((step cb c).state ≡ open_state) × (deadline_of (step cb c) ≡ deadline_of cb)
unfolding step allow record_success record_failure current_state
step-open cb (allows now) h w = ground arith
step-open cb (successes now) h w = ground arith
step-open cb (failures now) h w = ground arith
step-open cb (states now) h w = ground arith
step-open cb resets h w = absurd w

run-open :
    (cb : CircuitBreaker) (cs : List Call)
    → cb.state ≡ open_state
    → All (Within (deadline_of cb)) cs
    → ((run cb cs).state ≡ open_state) × (deadline_of (run cb cs) ≡ deadline_of cb)
unfolding run
run-open cb [] h w = (h, refl)
run-open cb (c ∷ cs) h (w, ws) =
    let (h', d) = step-open cb c h w in
    let (a, b) = run-open (step cb c) cs h' (rw d ws) in (a, b ∙ d)

-- Once the breaker is open, no history of calls other than a reset makes it pass a request before
-- its open time is over; the request is refused with the breaker's error.
pub run-open_refuses :
    (cb : CircuitBreaker) (cs : List Call) (now : ℕ)
    → cb.state ≡ open_state
    → All (Within (deadline_of cb)) cs
    → now ≤ deadline_of cb
    → ((allow (run cb cs) now).1 ≡ false)
      × ((allow_or_error (run cb cs) now).1 ≡ some circuit_open)
      × ((allow_or_error (run cb cs) now).0 ≡ run cb cs)
unfolding allow_or_error allow
run-open_refuses cb cs now h w t = ground (arith, run-open cb cs h w)

-- An open breaker lets a request through as soon as more than its open time has passed, and is
-- half-open from then on.
pub allow_after_deadline :
    (cb : CircuitBreaker) (now : ℕ)
    → cb.state ≡ open_state
    → cb.opened_at ≤ now
    → (((allow cb now).1 ≡ true) ↔ (deadline_of cb < now))
      × (((allow cb now).0.state ≡ half_open) ↔ (deadline_of cb < now))
unfolding allow
allow_after_deadline cb now h t = ground arith
