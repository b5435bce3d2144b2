-- ===== src/Admin/Stats/Uptime.antt =====
-- How much of an uptime the site shows.
use dmqtt.Base.{ℕ, ◌+◌, ◌*◌, ◌/◌, ◌%◌, ◌≤◌, ◌<◌, ltb, arith, inl, inr, Bool-cases}
use dmqtt.Admin.Stats.{Shown, days, hours, minutes, uptime_shown}

-- The seconds of the parts, and the seconds of the smallest of them.
unfoldable pub seconds : Shown → ℕ
seconds (days d h m) = d * 86400 + h * 3600 + m * 60
seconds (hours h m) = h * 3600 + m * 60
seconds (minutes m s) = m * 60 + s

unfoldable pub precision : Shown → ℕ
precision (days d h m) = 60
precision (hours h m) = 60
precision (minutes m s) = 1

-- Every part but the first is below one of the part before it.
unfoldable pub IsNormal : Shown → Type 0
IsNormal (days d h m) = (0 < d) × (h < 24) × (m < 60)
IsNormal (hours h m) = (0 < h) × (h < 24) × (m < 60)
IsNormal (minutes m s) = (m < 60) × (s < 60)

-- The parts shown are in their ranges, and short of the uptime by less than a minute from one hour on,
-- and by nothing below one hour.
pub uptime_shown_bounds :
    (s : ℕ)
    → IsNormal (uptime_shown s)
      × (seconds (uptime_shown s) ≤ s)
      × (s < seconds (uptime_shown s) + precision (uptime_shown s))
unfolding uptime_shown seconds precision IsNormal
uptime_shown_bounds s = elim (Bool-cases (ltb 0 (s / 86400))) [
  | inl e ↦ rw e (ground arith)
  | inr e ↦ elim (Bool-cases (ltb 0 (s % 86400 / 3600))) [
    | inl f ↦ rw (e, f) (ground arith)
    | inr f ↦ rw (e, f) (ground arith)
  ]
]
