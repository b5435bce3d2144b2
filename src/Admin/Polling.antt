-- ===== src/Admin/Polling.antt =====
-- web/admin/src/composables/usePolling.ts: a value that is fetched again and again.
pub mod Latest
use dmqtt.Base.{ℕ, Bytes, List, [], ◌∷◌, Bool, true, false, Option, none, some, codes}
use dmqtt.Admin.Timers.{Timers, set_interval, clear_interval}

-- How a request ended: with a value, or with an exception and its `message`, if it has one.
pub data Outcome {ℓ} (T : Type ℓ) : Type ℓ where
  fetched : T → Outcome T
  thrown : Option Bytes → Outcome T

pub record Polling {ℓ} (T : Type ℓ) : Type ℓ where
  pub data_value : Option T
  pub error : Option Bytes
  pub loading : Bool
  pub timer : Option ℕ

-- `e.message || 'Request failed'`: an empty message counts as none.
unfoldable pub message_or_default : Option Bytes → Bytes
message_or_default none = codes "Request failed"
message_or_default (some []) = codes "Request failed"
message_or_default (some (c ∷ cs)) = c ∷ cs

module _ {ℓ} {T : Type ℓ} where
  unfoldable pub use_polling : Polling T
  use_polling = record { data_value = none; error = none; loading = true; timer = none }

  -- What `refresh` does when its request has ended. Before that it changes nothing.
  unfoldable pub refresh : Polling T → Outcome T → Polling T
  refresh p (fetched t) = record p { data_value = some t; error = none; loading = false }
  refresh p (thrown message) = record p {
    error = some (message_or_default message);
    loading = false;
  }

  -- The requests that `onMounted` and the timer start end later, by `refresh`.
  unfoldable pub mounted : Polling T → Timers → ℕ → Polling T × Timers
  mounted p timers interval_ms =
      let (timer, timers') = set_interval timers interval_ms in
      (record p { timer = some timer }, timers')

  unfoldable pub unmounted : Polling T → Timers → Timers
  unmounted p timers = elim p.timer [ none ↦ timers | some timer ↦ clear_interval timers timer ]

  -- The requests that end, in the order in which they end.
  unfoldable pub run : Polling T → List (Outcome T) → Polling T
  run p [] = p
  run p (o ∷ os) = run (refresh p o) os
