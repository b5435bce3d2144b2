-- ===== src/Admin/TimeSeries.antt =====
-- web/admin/src/composables/useTimeSeriesBuffer.ts: the points of a chart.
pub mod Window
use dmqtt.Base.{ℕ, zero, suc, ◌-◌, List, [], ◌∷◌, ◌++◌, length, drop}

-- The argument of Array.prototype.slice: an index, or a count from the end.
pub data Start : Type 0 where
  from_start from_end : ℕ → Start

-- `-(maxPoints - 1)`: minus zero is the index 0, and no limit at all is the index 1.
unfoldable pub slice_start : ℕ → Start
slice_start zero = Start.from_start 1
slice_start (suc zero) = Start.from_start 0
slice_start (suc (suc n)) = Start.from_end (suc n)

module _ {ℓ} {A : Type ℓ} where
  -- The last `n` elements, or all if there are fewer.
  unfoldable pub last : ℕ → List A → List A
  last n xs = drop (length xs - n) xs

  unfoldable pub slice : Start → List A → List A
  slice (Start.from_start n) xs = drop n xs
  slice (Start.from_end n) xs = last n xs

  unfoldable pub push : ℕ → List A → A → List A
  push max_points points point = slice (slice_start max_points) points ++ (point ∷ [])

  unfoldable pub clear : List A → List A
  clear points = []

-- What a component does with its buffer.
pub data Change {ℓ} (A : Type ℓ) : Type ℓ where
  pushes : A → Change A
  clears : Change A

-- The buffer after some changes, the first one first.
unfoldable pub run {ℓ} : {A : Type ℓ} → ℕ → List A → List (Change A) → List A
run max_points points [] = points
run max_points points (pushes p ∷ cs) = run max_points (push max_points points p) cs
run max_points points (clears ∷ cs) = run max_points (clear points) cs
