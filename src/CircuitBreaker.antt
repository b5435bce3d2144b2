-- ===== src/CircuitBreaker.antt =====
-- internal/circuitbreaker/breaker.go. Times and durations are nanoseconds; `now` is what time.Now()
-- returns in the call. The counters are far from 2 ^ 63 and do not wrap.
pub mod Counters
mod Runs
pub mod Isolation
pub mod Recovery
use dmqtt.Base.{
  ℕ, suc, ◌+◌, ◌-◌, ◌*◌, Bool, true, false, ◌&&◌, ltb, leb, if◌then◌else◌, List, [], ◌∷◌, Option,
  none, some,
}

pub data State : Type 0 where
  closed open_state half_open : State

-- A float64 that is written as a decimal fraction, such as 0.1: 1 over 10. The denominator is not 0.
pub record Fraction : Type 0 where
  pub num : ℕ
  pub den : ℕ

pub record Config : Type 0 where
  pub error_threshold : Fraction
  pub window_size : ℕ
  pub open_duration : ℕ
  pub half_open_max : ℕ
  pub min_requests : ℕ

unfoldable pub default_config : Config
default_config = record {
  error_threshold = record { num = 1; den = 10 };
  window_size = 5000000000;
  open_duration = 30000000000;
  half_open_max = 5;
  min_requests = 10;
}

-- `float64(fail) / float64(total) >= threshold`, with the fractions multiplied out. The float64 of the
-- quotient and that of the threshold are rounded alike, so that equal fractions compare as equal, and
-- for `total * den` below 2 ^ 53 different ones, up to 1, stay apart by more than the rounding.
abbrev pub reaches : ℕ → ℕ → Fraction → Bool
reaches fail total threshold = leb (threshold.num * total) (fail * threshold.den)

pub record CircuitBreaker : Type 0 where
  pub state : State
  pub fail_count : ℕ
  pub success_count : ℕ
  pub total_count : ℕ
  pub half_open_succ : ℕ
  pub opened_at : ℕ
  pub config : Config

unfoldable pub new : Config → CircuitBreaker
new cfg = record {
  state = closed;
  fail_count = 0;
  success_count = 0;
  total_count = 0;
  half_open_succ = 0;
  opened_at = 0;
  config = cfg;
}

unfoldable pub trip : CircuitBreaker → ℕ → CircuitBreaker
trip cb now = record cb {
  state = open_state;
  opened_at = now;
  fail_count = 0;
  success_count = 0;
  total_count = 0;
  half_open_succ = 0;
}

unfoldable pub reset : CircuitBreaker → CircuitBreaker
reset cb = record cb {
  state = closed;
  fail_count = 0;
  success_count = 0;
  total_count = 0;
  half_open_succ = 0;
}

-- `time.Since(cb.openedAt) > cb.config.OpenDuration`; a clock that stands behind gives no time passed.
abbrev pub has_elapsed : CircuitBreaker → ℕ → Bool
has_elapsed cb now = ltb cb.config.open_duration (now - cb.opened_at)

unfoldable pub allow : CircuitBreaker → ℕ → CircuitBreaker × Bool
allow cb now = elim cb.state [
  | closed ↦ (cb, true)
  | open_state ↦
      if has_elapsed cb now
      then (record cb { state = half_open; half_open_succ = 0 }, true)
      else (cb, false)
  | half_open ↦ (cb, true)
]

pub data BreakerError : Type 0 where
  circuit_open : BreakerError

-- `none` is Go's nil error.
unfoldable pub allow_or_error : CircuitBreaker → ℕ → CircuitBreaker × Option BreakerError
allow_or_error cb now =
    let (cb', allowed) = allow cb now in (cb', if allowed then none else some circuit_open)

unfoldable pub record_success : CircuitBreaker → CircuitBreaker
record_success cb =
    let counted = record cb {
      success_count = cb.success_count + 1;
      total_count = cb.total_count + 1;
    } in
    let one_more = record counted { half_open_succ = cb.half_open_succ + 1 } in
    elim cb.state [
      | half_open ↦
          if leb cb.config.half_open_max one_more.half_open_succ then reset one_more else one_more
      | _ ↦ counted
    ]

unfoldable pub record_failure : CircuitBreaker → ℕ → CircuitBreaker
record_failure cb now =
    let counted = record cb { fail_count = cb.fail_count + 1; total_count = cb.total_count + 1 } in
    elim cb.state [
      | closed ↦
          if leb cb.config.min_requests counted.total_count
            && reaches counted.fail_count counted.total_count cb.config.error_threshold
          then trip counted now
          else counted
      | half_open ↦ trip counted now
      | open_state ↦ counted
    ]

unfoldable pub current_state : CircuitBreaker → ℕ → CircuitBreaker × State
current_state cb now =
    let cb' = elim cb.state as (λ s. CircuitBreaker) [
      | open_state ↦
          if has_elapsed cb now then record cb { state = half_open; half_open_succ = 0 } else cb
      | _ ↦ cb
    ] in
    (cb', cb'.state)

-- The calls that users of a breaker make, each at its time.
pub data Call : Type 0 where
  allows successes failures states : ℕ → Call
  resets : Call

unfoldable pub step : CircuitBreaker → Call → CircuitBreaker
step cb (allows now) = (allow cb now).0
step cb (successes now) = record_success cb
step cb (failures now) = record_failure cb now
step cb (states now) = (current_state cb now).0
step cb resets = reset cb

unfoldable pub run : CircuitBreaker → List Call → CircuitBreaker
run cb [] = cb
run cb (c ∷ cs) = run (step cb c) cs
