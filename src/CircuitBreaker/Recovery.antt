-- ===== src/CircuitBreaker/Recovery.antt =====
-- A half-open breaker on trial.
use dmqtt.Base.{ℕ, zero, suc, ◌+◌, ◌≤◌, ◌<◌, ◌≡◌, refl, true, leb, arith, ◌∙◌}
use dmqtt.CircuitBreaker.{
  open_state, half_open, open_state, CircuitBreaker, new, trip, reset, record_success,
  record_failure,
}

-- `n` successes in a row.
abbrev pub succeed : ℕ → CircuitBreaker → CircuitBreaker
succeed zero cb = cb
succeed (suc n) cb = succeed n (record_success cb)

success-waits :
    (cb : CircuitBreaker)
    → cb.state ≡ half_open
    → cb.half_open_succ + 1 < cb.config.half_open_max
    → ((record_success cb).state ≡ half_open)
      × ((record_success cb).half_open_succ ≡ cb.half_open_succ + 1)
      × ((record_success cb).config ≡ cb.config)
      × ((record_success cb).opened_at ≡ cb.opened_at)
unfolding record_success
success-waits cb h lt = ground arith

-- A half-open breaker stays on trial while the successes are short of the number that closes it.
succeed-short :
    (n : ℕ) (cb : CircuitBreaker)
    → cb.state ≡ half_open
    → cb.half_open_succ + n < cb.config.half_open_max
    → ((succeed n cb).state ≡ half_open)
      × ((succeed n cb).half_open_succ ≡ cb.half_open_succ + n)
      × ((succeed n cb).config ≡ cb.config)
      × ((succeed n cb).opened_at ≡ cb.opened_at)
succeed-short zero cb h lt = (h, omega arith, refl, refl)
succeed-short (suc n) cb h lt =
    let (a, b, c, d) = success-waits cb h (omega arith) in
    let (a', b', c', d') = succeed-short n (record_success cb) a (rw (b, c) (omega arith)) in
    (a', omega arith, c' ∙ c, d' ∙ d)

succeed-suc : (n : ℕ) (cb : CircuitBreaker) → succeed (suc n) cb ≡ record_success (succeed n cb)
succeed-suc zero cb = refl
succeed-suc (suc n) cb = succeed-suc n (record_success cb)

le→leb : (a b : ℕ) → a ≤ b → leb a b ≡ true
le→leb a b h = ground arith

success-closes :
    (cb : CircuitBreaker)
    → cb.state ≡ half_open
    → cb.config.half_open_max ≤ cb.half_open_succ + 1
    → record_success cb ≡ record (new cb.config) { opened_at = cb.opened_at }
unfolding record_success reset new
success-closes cb h le = rw (h, le→leb cb.config.half_open_max (cb.half_open_succ + 1) le) refl

failure-opens :
    (cb : CircuitBreaker) (now : ℕ)
    → cb.state ≡ half_open
    → record_failure cb now ≡ record (new cb.config) { state = open_state; opened_at = now }
unfolding record_failure trip new
failure-opens cb now h = rw h refl

-- On trial, with the last of `HalfOpenMax` successes in a row the breaker is closed and like a new one,
-- without any counts, but for the time at which it opened. After any `k` successes that are fewer it is
-- still half-open, and a failure then opens it from that time on, again without any counts.
pub trial :
    (n k : ℕ) (cb : CircuitBreaker) (now : ℕ)
    → cb.state ≡ half_open
    → cb.half_open_succ + n + 1 ≡ cb.config.half_open_max
    → k ≤ n
    → (succeed (suc n) cb ≡ record (new cb.config) { opened_at = cb.opened_at })
      × ((succeed k cb).state ≡ half_open)
      × (record_failure (succeed k cb) now
          ≡ record (new cb.config) { state = open_state; opened_at = now })
trial n k cb now h e le =
    let (a, b, c, d) = succeed-short n cb h (omega arith) in
    let (a', b', c', d') = succeed-short k cb h (omega arith) in
    (
      succeed-suc n cb
          ∙ (success-closes (succeed n cb) a (rw (b, c) (omega arith)) ∙ rw (c, d) refl),
      a',
      failure-opens (succeed k cb) now a' ∙ rw c' refl,
    )
