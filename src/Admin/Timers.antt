-- ===== src/Admin/Timers.antt =====
-- setInterval and clearInterval of the browser, as the admin site uses them: the timers that run, each
-- with its interval in milliseconds.
use dmqtt.Base.{ℕ, suc, [], nat_eq}
use dmqtt.Base.Map.{Map, insert, erase}

pub record Timers : Type 0 where
  pub active : Map ℕ ℕ
  pub next_timer : ℕ

abbrev pub no_timers : Timers
no_timers = record { active = []; next_timer = 1 }

unfoldable pub set_interval : Timers → ℕ → ℕ × Timers
set_interval ts interval = (
  ts.next_timer,
  record { active = insert ts.next_timer interval ts.active; next_timer = suc ts.next_timer },
)

unfoldable pub clear_interval : Timers → ℕ → Timers
clear_interval ts timer = record ts { active = erase timer ts.active }
