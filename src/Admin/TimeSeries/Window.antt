-- ===== src/Admin/TimeSeries/Window.antt =====
-- The buffer is a window on the points that were pushed.
use dmqtt.Base.{
  ℕ, zero, suc, ◌+◌, ◌-◌, ◌≤◌, ◌≡◌, refl, subst, ap, List, [], ◌∷◌, ◌++◌, length, drop, drop-nil,
  drop-drop, arith, length-append, length-drop,
}
use dmqtt.Admin.TimeSeries.{slice_start, last, slice, push, clear, Change, pushes, clears, run}

module _ {ℓ} {A : Type ℓ} where
  drop-append : (n : ℕ) (xs ys : List A) → n ≤ length xs → drop n (xs ++ ys) ≡ drop n xs ++ ys
  drop-append zero xs ys h = refl
  drop-append (suc n) [] ys h = absurd (omega arith)
  drop-append (suc n) (x ∷ xs) ys h = drop-append n xs ys (omega arith)

  -- All points that were pushed after the last clear, with those that `seen` starts with.
  unfoldable pub since_clear : List A → List (Change A) → List A
  since_clear seen [] = seen
  since_clear seen (pushes p ∷ cs) = since_clear (seen ++ (p ∷ [])) cs
  since_clear seen (clears ∷ cs) = since_clear [] cs

  last-nil : (n : ℕ) → last {A = A} n [] ≡ []
  unfolding last
  last-nil n = drop-nil (0 - n)

  -- One push on a window gives the window on one point more.
  push-last :
      (n : ℕ) (xs : List A) (p : A)
      → push (suc (suc n)) (last (suc (suc n)) xs) p ≡ last (suc (suc n)) (xs ++ (p ∷ []))
  unfolding push last slice slice_start
  push-last n xs p =
      rw
        (
          drop-drop (length (drop (length xs - suc (suc n)) xs) - suc n) (length xs - suc (suc n))
              xs,
          length-drop (length xs - suc (suc n)) xs,
          length-append xs (p ∷ []),
          drop-append (length xs + 1 - suc (suc n)) xs (p ∷ []) (omega arith),
        )
        (ap (λ i. drop i xs ++ (p ∷ [])) (omega arith))

  run-last :
      (n : ℕ) (xs : List A) (cs : List (Change A))
      → run (suc (suc n)) (last (suc (suc n)) xs) cs ≡ last (suc (suc n)) (since_clear xs cs)
  unfolding run since_clear clear
  run-last n xs [] = refl
  run-last n xs (pushes p ∷ cs) = rw (push-last n xs p) (run-last n (xs ++ (p ∷ [])) cs)
  run-last n xs (clears ∷ cs) =
      subst (λ ys. run (suc (suc n)) ys cs ≡ last (suc (suc n)) (since_clear [] cs))
        (last-nil (suc (suc n))) (run-last n [] cs)

  -- With a limit of two points or more, a buffer that starts empty holds, after any pushes and clears,
  -- exactly the last points pushed since the last clear, as many as the limit allows.
  pub run-window :
      (max_points : ℕ) (cs : List (Change A))
      → 2 ≤ max_points
      → run max_points [] cs ≡ last max_points (since_clear [] cs)
  run-window (suc (suc n)) cs h =
      subst (λ xs. run (suc (suc n)) xs cs ≡ last (suc (suc n)) (since_clear [] cs))
        (last-nil (suc (suc n))) (run-last n [] cs)
  run-window (suc zero) cs h = absurd (omega arith)
  run-window zero cs h = absurd (omega arith)

  run_one : (xs : List A) (cs : List (Change A)) → run 1 xs cs ≡ since_clear xs cs
  unfolding run since_clear push slice slice_start clear
  run_one xs [] = refl
  run_one xs (pushes p ∷ cs) = run_one (xs ++ (p ∷ [])) cs
  run_one xs (clears ∷ cs) = run_one [] cs

  -- With a limit of one point the buffer is not bounded: it holds every point pushed since the last
  -- clear.
  pub run_limit_one : (cs : List (Change A)) → run 1 [] cs ≡ since_clear [] cs
  run_limit_one cs = run_one [] cs
