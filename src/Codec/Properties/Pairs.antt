-- ===== src/Codec/Properties/Pairs.antt =====
-- The pairs of the user read back where they stand.
use dmqtt.Base.{
  ℕ, zero, suc, ◌+◌, ◌≤◌, ◌<◌, ◌≡◌, refl, sym, ap, subst, ◌∙◌, Bytes, List, [], ◌∷◌, ◌++◌, length,
  length-append, append_assoc, arith, nat_eq,
}
use dmqtt.Base.Map.{lookup}
use dmqtt.Codec.{Result, ok}
use dmqtt.Codec.Values.{append_block}
use dmqtt.Codec.Values.Written.{Stands, Stands-length, Stands-after}
use dmqtt.Codec.Values.Written.Blocks.{length-append_block, prop_block_here}
use dmqtt.Codec.Properties.{Properties, read_pair, add_pair, read_as, read_property, encode_pairs}
use dmqtt.Codec.Properties.Fields.{PairsFit, GoesOn}
use dmqtt.Codec.Properties.Single.{round_here}

pair_read :
    (key value : Bytes) (bytes : Bytes) (offset end : ℕ) (s : Bytes)
    → length key < 65536
    → length value < 65536
    → offset + length (append_block key) + length (append_block value) ≤ end
    → Stands bytes offset (append_block key ++ (append_block value ++ s))
    → read_pair bytes offset end
      ≡ ok ((key, value), length (append_block key) + length (append_block value))
unfolding read_pair
pair_read key value bytes offset end s k v l h =
    let after = Stands-after bytes offset (append_block key) (append_block value ++ s) h in
    rw
      (
        prop_block_here _ _ bytes offset end key (append_block value ++ s) k
            (omega (arith, l, length-append_block key)) h,
        ← length-append_block key,
        prop_block_here _ _ bytes (offset + length (append_block key)) end value s v
            (omega (arith, l, length-append_block key, length-append_block value)) after,
        ← length-append_block value,
      )
      refl

with_pairs : Properties → List (Bytes × Bytes) → Properties
with_pairs p pairs = record p { user_properties = pairs }

pair_property :
    (key value : Bytes) (p : Properties) (bytes : Bytes) (offset end : ℕ) (s : Bytes)
    → length key < 65536
    → length value < 65536
    → offset + length (append_block key) + length (append_block value) ≤ end
    → Stands bytes offset (append_block key ++ (append_block value ++ s))
    → read_property 0x26 p bytes offset end
      ≡ ok (
        with_pairs p (p.user_properties ++ ((key, value) ∷ [])),
        length (append_block key) + length (append_block value),
      )
unfolding with_pairs read_property read_as lookup
pair_property key value p bytes offset end s k v l h =
    ap (add_pair p) (pair_read key value bytes offset end s k v l h)

append-nil {ℓ} : {A : Type ℓ} (xs : List A) → xs ++ [] ≡ xs
append-nil [] = refl
append-nil (x ∷ xs) = ap (◌∷◌ x) (append-nil xs)

pub pairs_here :
    (pairs : List (Bytes × Bytes)) (bytes : Bytes) (end : ℕ) (p : Properties) (s : Bytes)
    (r : Result Properties)
    → PairsFit pairs
    → length bytes ≤ end + length s
    → GoesOn bytes end (record p { user_properties = p.user_properties ++ pairs }) s r
    → GoesOn bytes end p (encode_pairs pairs ++ s) r
unfolding with_pairs encode_pairs
pairs_here [] bytes end p s r fit g k =
    subst (λ x. GoesOn bytes end (with_pairs p x) s r) (append-nil p.user_properties) k
pairs_here ((key, value) ∷ pairs) bytes end p s r (f1, f2, fits) g k = pair_here (
    pairs_here pairs bytes end (with_pairs p (p.user_properties ++ ((key, value) ∷ []))) s r fits g
      (subst (λ x. GoesOn bytes end (with_pairs p x) s r)
        (sym (append_assoc p.user_properties ((key, value) ∷ []) pairs)) k))
  where
    pair_here :
        GoesOn bytes end
          (with_pairs p (p.user_properties ++ ((key, value) ∷ [])))
          (encode_pairs pairs ++ s)
          r
        → GoesOn bytes end p
            (0x26 ∷ (append_block key ++ (append_block value ++ encode_pairs pairs)) ++ s)
            r
    pair_here next zero offset w e h = absurd (omega arith)
    pair_here next (suc fuel) offset w e h =
        let a = append_block key in
        let b = append_block value in
        let ps = encode_pairs pairs in
        let h1 : Stands bytes offset (0x26 ∷ (a ++ (b ++ (ps ++ s)))) =
          subst (λ x. Stands bytes offset (0x26 ∷ x))
            (append_assoc a (b ++ ps) s ∙ ap (a ++◌) (append_assoc b ps s)) h in
        let h2 = Stands-after bytes offset (0x26 ∷ []) (a ++ (b ++ (ps ++ s))) h1 in
        let h3 = Stands-after bytes (offset + 1) a (b ++ (ps ++ s)) h2 in
        let h4 = Stands-after bytes (offset + 1 + length a) b (ps ++ s) h3 in
        let l : offset + 1 + length a + length b ≤ end = omega (
          arith,
          g,
          Stands-length bytes (offset + 1 + length a + length b) (ps ++ s) h4,
          length-append ps s,
        ) in
        let h5 : Stands bytes (offset + 1 + (length a + length b)) (ps ++ s) =
          subst (λ o. Stands bytes o (ps ++ s)) (omega arith) h4 in
        round_here fuel bytes offset end 0x26 (length a + length b) p _ _ (omega (arith, l)) h1
          (pair_property key value p bytes (offset + 1) end (ps ++ s) f1 f2 l h2)
        ∙ next fuel (offset + 1 + (length a + length b)) (omega (arith, l, e)) (omega (arith, l, e))
            h5
