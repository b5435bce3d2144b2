-- ===== src/Base/Nested.antt =====
-- Maps of maps, as the indexes of the broker keep them: `map[string]map[string]T`, where a missing
-- inner map is made on the first write and an inner map that becomes empty is deleted.
use mathlib.Core.Path.{◌≡◌, refl}
use mathlib.Core.Bool.{Bool, true, false, ◌&&◌}
use mathlib.Core.Option.{Option, none, some}
use mathlib.Core.List.{List, [], ◌∷◌}
use native.Mathlib.Omega.{arith}
use dmqtt.Base.Tests.{Eq, ◌==◌, if◌then◌else◌}
use dmqtt.Base.Map.{Map, lookup, insert, erase, lookup-insert, lookup-erase}

-- Reading a missing key of a Go map gives the empty slice or map.
unfoldable pub or_empty {ℓ} : {A : Type ℓ} → Option (List A) → List A
or_empty none = []
or_empty (some xs) = xs

abbrev pub is_empty {ℓ} : {A : Type ℓ} → List A → Bool
is_empty [] = true
is_empty (x ∷ xs) = false

pub is_empty-eq-nil {ℓ} : {A : Type ℓ} (xs : List A) → is_empty xs ≡ true → xs ≡ []
is_empty-eq-nil [] h = refl
is_empty-eq-nil (x ∷ xs) h = cc

pub lookup_nil {κ μ} : {X : Type κ} {V : Type μ} ⦃d : Eq X⦄ (x : X) → lookup {V = V} x [] ≡ none
unfolding lookup
lookup_nil x = refl

module _ {ℓ κ μ} {K : Type ℓ} {X : Type κ} {V : Type μ} ⦃e : Eq K⦄ ⦃d : Eq X⦄ where
  -- The value under two keys.
  unfoldable pub at : Map K (Map X V) → K → X → Option V
  at m k x = lookup x (or_empty (lookup k m))

  -- `if m[k] == nil { m[k] = make(…) }; m[k][x] = v`
  unfoldable pub put : K → X → V → Map K (Map X V) → Map K (Map X V)
  put k x v m = insert k (insert x v (or_empty (lookup k m))) m

  -- `if inner, ok := m[k]; ok { delete(inner, x); if len(inner) == 0 { delete(m, k) } }`
  unfoldable pub remove_at : K → X → Map K (Map X V) → Map K (Map X V)
  remove_at k x m = elim (lookup k m) [
    | none ↦ m
    | some inner ↦
        let inner' = erase x inner in if is_empty inner' then erase k m else insert k inner' m
  ]

  pub at-put :
      (k l : K) (x y : X) (v : V) (m : Map K (Map X V))
      → at (put k x v m) l y ≡ (if (k == l) && (x == y) then some v else at m l y)
  unfolding at put or_empty
  at-put k l x y v m =
      let inner = or_empty (lookup k m) in
      ground (
        arith,
        lookup-insert k l (insert x v inner) m,
        lookup-insert x y v inner,
        e.beq_iff k l,
        d.beq_iff x y,
      )

  pub at-remove_at :
      (k l : K) (x y : X) (m : Map K (Map X V))
      → at (remove_at k x m) l y ≡ (if (k == l) && (x == y) then none else at m l y)
  unfolding at remove_at or_empty
  at-remove_at k l x y m =
      let inner = or_empty (lookup k m) in
      ground (
        arith,
        lookup-insert k l (erase x inner) m,
        lookup-erase k l m,
        lookup-erase x y inner,
        is_empty-eq-nil (erase x inner),
        e.beq_iff k l,
        d.beq_iff x y,
        lookup_nil {V = V} y,
      )

  pub at-erase :
      (k l : K) (y : X) (m : Map K (Map X V))
      → at (erase k m) l y ≡ (if k == l then none else at m l y)
  unfolding at or_empty
  at-erase k l y m = ground (arith, lookup-erase k l m, e.beq_iff k l, lookup_nil {V = V} y)

  pub at_absent : (m : Map K (Map X V)) (k : K) (x : X) → lookup k m ≡ none → at m k x ≡ none
  unfolding at or_empty
  at_absent m k x h = rw (h, or_empty) (lookup_nil x)

  pub at_present :
      (m : Map K (Map X V)) (k : K) (x : X) (inner : Map X V)
      → lookup k m ≡ some inner
      → at m k x ≡ lookup x inner
  unfolding at or_empty
  at_present m k x inner h = rw (h, or_empty)
