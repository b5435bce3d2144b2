-- ===== src/Broker/Dedup/Keys.antt =====
-- The text key of a client and a packet identifier determines both.
use dmqtt.Base.{
  ℕ, zero, suc, ◌+◌, ◌*◌, ◌-◌, ◌/◌, ◌%◌, ◌^◌, ◌<◌, ◌≤◌, ◌≡◌, refl, ap, sym, subst, Bytes, [], ◌∷◌,
  ◌++◌, ltb, Bool-cases, inl, inr, arith, All,
}
use dmqtt.Broker.Dedup.{decimal, dedup_key}

abbrev IsDigit : ℕ → Type 0
IsDigit c = (b'0' ≤ c) × (c < 58)

-- The number that a row of digits stands for.
value : ℕ → Bytes → ℕ
value acc [] = acc
value acc (c ∷ cs) = value (acc * 10 + (c - 48)) cs

value-append : (acc : ℕ) (xs ys : Bytes) → value acc (xs ++ ys) ≡ value (value acc xs) ys
unfolding value
value-append acc [] ys = refl
value-append acc (x ∷ xs) ys = value-append (acc * 10 + (x - 48)) xs ys

value-decimal : (k n : ℕ) → n < 10 ^ suc k → value 0 (decimal k n) ≡ n
unfolding value decimal
value-decimal zero n h = omega arith
value-decimal (suc k) n h =
    ground
      (arith, value-decimal k (n / 10), value-append 0 (decimal k (n / 10)) ((b'0' + n % 10) ∷ []))

All-IsDigit-append : (xs ys : Bytes) → All IsDigit xs → All IsDigit ys → All IsDigit (xs ++ ys)
All-IsDigit-append [] ys h k = k
All-IsDigit-append (x ∷ xs) ys h k = (h.0, All-IsDigit-append xs ys h.1 k)

decimal-IsDigit : (k n : ℕ) → All IsDigit (decimal k n)
unfolding decimal
decimal-IsDigit zero n = omega arith
decimal-IsDigit (suc k) n = elim (Bool-cases (ltb n 10)) [
  | inl small ↦ rw small (ground arith)
  | inr large ↦
      rw large
        (All-IsDigit-append (decimal k (n / 10)) _ (decimal-IsDigit k (n / 10)) (omega arith))
]

not-IsDigit-colon : (ys es : Bytes) → ¬ All IsDigit (ys ++ (b':' ∷ es))
not-IsDigit-colon [] es h = omega arith
not-IsDigit-colon (y ∷ ys) es h = not-IsDigit-colon ys es h.1

-- The last colon separates the two parts.
colon_splits :
    (xs ys ds es : Bytes)
    → All IsDigit ds
    → All IsDigit es
    → xs ++ (b':' ∷ ds) ≡ ys ++ (b':' ∷ es)
    → (xs ≡ ys) × (ds ≡ es)
colon_splits [] [] ds es hd he e = ground arith
colon_splits [] (y ∷ ys) ds es hd he e =
    let t : ds ≡ ys ++ (b':' ∷ es) = ground arith in
    absurd (not-IsDigit-colon ys es (subst (All IsDigit) t hd))
colon_splits (x ∷ xs) [] ds es hd he e =
    let t : xs ++ (b':' ∷ ds) ≡ es = ground arith in
    absurd (not-IsDigit-colon xs ds (subst (All IsDigit) (sym t) he))
colon_splits (x ∷ xs) (y ∷ ys) ds es hd he e = ground (arith, colon_splits xs ys ds es hd he)

-- Two clients or two identifiers never share a key, whatever characters a client's name has.
pub dedup_key-injective :
    (c c' : Bytes) (p p' : ℕ)
    → p < 65536
    → p' < 65536
    → dedup_key c p ≡ dedup_key c' p'
    → (c ≡ c') × (p ≡ p')
unfolding dedup_key
dedup_key-injective c c' p p' hp hp' e =
    let (e1, e2) = colon_splits c c' _ _ (decimal-IsDigit 4 p) (decimal-IsDigit 4 p') e in
    (
      e1,
      omega (
        arith,
        value-decimal 4 p (omega arith),
        value-decimal 4 p' (omega arith),
        ap (value 0) e2,
      ),
    )
