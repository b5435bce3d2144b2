-- ===== src/Codec/Properties/Fields.antt =====
-- The fields of the properties read back where they stand.
use dmqtt.Base.{
  ℕ, zero, suc, ◌+◌, ◌≤◌, ◌<◌, ◌≡◌, refl, sym, subst, ◌∙◌, Bytes, List, [], ◌∷◌, ◌++◌, length,
  length-append, append_assoc, arith, none, some, inl, inr, Option-cases, nat_eq,
}
use dmqtt.Base.Map.{Map, lookup, insert}
use dmqtt.Codec.{Result}
use dmqtt.Codec.Values.Written.{Stands, Stands-length, Stands-after}
use dmqtt.Codec.Properties.{
  Kind, Value, Properties, kinds, property_loop, encode_value, encode_fields,
}
use dmqtt.Codec.Properties.Single.{Fits, round_here, field_read}

-- The entries of `kinds` that a part of it still has, and the values that fit them.
abbrev pub Known : Map ℕ Kind → Type 0
Known [] = Unit
Known ((id, kind) ∷ ks) = (lookup id kinds ≡ some kind) × Known ks

abbrev pub AllFit : Map ℕ Kind → Map ℕ Value → Type 0
AllFit [] values = Unit
AllFit ((id, kind) ∷ ks) values =
    ((v : Value) → lookup id values ≡ some v → Fits kind v) × AllFit ks values

-- What the loop makes of the fields, from what it has.
unfoldable pub add_fields : Map ℕ Kind → Map ℕ Value → Map ℕ Value → Map ℕ Value
add_fields [] values acc = acc
add_fields ((id, kind) ∷ ks) values acc = elim (lookup id values) [
  | none ↦ add_fields ks values acc
  | some v ↦ add_fields ks values (insert id v acc)
]

encode_fields-none :
    (id : ℕ) (kind : Kind) (ks : Map ℕ Kind) (values : Map ℕ Value)
    → lookup id values ≡ none
    → encode_fields ((id, kind) ∷ ks) values ≡ encode_fields ks values
unfolding encode_fields
encode_fields-none id kind ks values e = rw e refl

encode_fields-some :
    (id : ℕ) (kind : Kind) (ks : Map ℕ Kind) (values : Map ℕ Value) (v : Value)
    → lookup id values ≡ some v
    → encode_fields ((id, kind) ∷ ks) values ≡ id ∷ (encode_value kind v ++ encode_fields ks values)
unfolding encode_fields
encode_fields-some id kind ks values v e = rw e refl

pub add_fields-none :
    (id : ℕ) (kind : Kind) (ks : Map ℕ Kind) (values acc : Map ℕ Value)
    → lookup id values ≡ none
    → add_fields ((id, kind) ∷ ks) values acc ≡ add_fields ks values acc
unfolding add_fields
add_fields-none id kind ks values acc e = rw (e, add_fields) refl

pub add_fields-some :
    (id : ℕ) (kind : Kind) (ks : Map ℕ Kind) (values acc : Map ℕ Value) (v : Value)
    → lookup id values ≡ some v
    → add_fields ((id, kind) ∷ ks) values acc ≡ add_fields ks values (insert id v acc)
unfolding add_fields
add_fields-some id kind ks values acc v e = rw (e, add_fields) refl

-- Reading on at any offset where `s` stands, with enough fuel for what is left.
abbrev pub GoesOn : Bytes → ℕ → Properties → Bytes → Result Properties → Type 0
GoesOn bytes end q s r =
    (fuel offset : ℕ)
    → 0 < fuel
    → end < offset + fuel
    → Stands bytes offset s
    → property_loop fuel bytes offset end q ≡ r

with_values : Properties → Map ℕ Value → Properties
with_values p values = record p { values = values }

-- The loop over the fields, where what follows them reaches to `end` at least.
pub fields_here :
    (ks : Map ℕ Kind) (values : Map ℕ Value) (bytes : Bytes) (end : ℕ) (p : Properties) (s : Bytes)
    (r : Result Properties)
    → Known ks
    → AllFit ks values
    → length bytes ≤ end + length s
    → GoesOn bytes end (record p { values = add_fields ks values p.values }) s r
    → GoesOn bytes end p (encode_fields ks values ++ s) r
unfolding with_values add_fields encode_fields
fields_here [] values bytes end p s r known fit g k = k
fields_here ((id, kind) ∷ ks) values bytes end p s r (known, knowns) (fit, fits) g k =
    elim (Option-cases (lookup id values)) [
      | inl e ↦
          subst (λ x. GoesOn bytes end p (x ++ s) r) (sym (encode_fields-none id kind ks values e))
            (fields_here ks values bytes end p s r knowns fits g (
              subst (λ x. GoesOn bytes end (with_values p x) s r)
                (add_fields-none id kind ks values p.values e) k))
      | inr (v, e) ↦
          subst (λ x. GoesOn bytes end p (x ++ s) r)
            (sym (encode_fields-some id kind ks values v e))
            (field_here v (fit v e) (
              fields_here ks values bytes end (with_values p (insert id v p.values)) s r knowns fits
                g
                (subst (λ x. GoesOn bytes end (with_values p x) s r)
                  (add_fields-some id kind ks values p.values v e) k)))
    ]
  where
    field_here :
        (v : Value)
        → Fits kind v
        → GoesOn bytes end (with_values p (insert id v p.values)) (encode_fields ks values ++ s) r
        → GoesOn bytes end p (id ∷ (encode_value kind v ++ encode_fields ks values) ++ s) r
    field_here v f next zero offset w e h = absurd (omega arith)
    field_here v f next (suc fuel) offset w e h =
        let enc = encode_value kind v in
        let fs = encode_fields ks values in
        let h1 : Stands bytes offset (id ∷ (enc ++ (fs ++ s))) =
          subst (λ x. Stands bytes offset (id ∷ x)) (append_assoc enc fs s) h in
        let h2 = Stands-after bytes offset (id ∷ []) (enc ++ (fs ++ s)) h1 in
        let h3 = Stands-after bytes (offset + 1) enc (fs ++ s) h2 in
        let l : offset + 1 + length enc ≤ end = omega (
          arith,
          g,
          Stands-length bytes (offset + 1 + length enc) (fs ++ s) h3,
          length-append fs s,
        ) in
        round_here fuel bytes offset end id (length enc) p _ _ (omega (arith, l)) h1
          (field_read kind id v p bytes (offset + 1) end (fs ++ s) known f l h2)
        ∙ next fuel (offset + 1 + length enc) (omega (arith, l, e)) (omega (arith, l, e)) h3

-- Pairs of texts whose lengths fit two bytes.
abbrev pub PairsFit : List (Bytes × Bytes) → Type 0
PairsFit [] = Unit
PairsFit ((key, value) ∷ pairs) = (length key < 65536) × (length value < 65536) × PairsFit pairs
