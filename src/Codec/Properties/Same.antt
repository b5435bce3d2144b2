-- ===== src/Codec/Properties/Same.antt =====
-- The decoder puts the fields of written properties in another order, and keeps their values.
use dmqtt.Base.{
  ℕ, ◌^◌, ◌<◌, ◌≡◌, refl, ap, sym, ◌∙◌, Bytes, [], ◌∷◌, ◌++◌, length, Option, none, some, inl, inr,
  Option-cases, true, false, Bool, if◌then◌else◌, nat_eq, nat_beq, nat_beq_iff,
}
use dmqtt.Base.Map.{Map, lookup, insert, lookup-insert}
use dmqtt.Base.Nested.{lookup_nil}
use dmqtt.Codec.{ok}
use dmqtt.Codec.Values.Written.{Stands}
use dmqtt.Codec.Properties.{Kind, Value, Properties, kinds, read_properties, encode_properties}
use dmqtt.Codec.Properties.Fields.{AllFit, PairsFit, add_fields, add_fields-none, add_fields-some}
use dmqtt.Codec.Properties.RoundTrip.{body_of, in_order, read_properties-encode}

abbrev pick : Option Value → Option Value → Option Value
pick none old = old
pick (some v) old = some v

abbrev pub is_in : ℕ → Map ℕ Kind → Bool
is_in id [] = false
is_in id ((j, kind) ∷ ks) = if nat_beq j id then true else is_in id ks

abbrev picked : Bool → Option Value → Option Value → Option Value
picked known new old = if known then pick new old else old

missing_step :
    (same known : Bool) (new old : Option Value)
    → (same ≡ true → new ≡ none)
    → picked known new old ≡ picked (if same then true else known) new old
missing_step true true new old h = refl
missing_step true false new old h = rw (h refl) refl
missing_step false known new old h = refl

present_step :
    (same known : Bool) (new old : Option Value) (v : Value)
    → (same ≡ true → new ≡ some v)
    → picked known new (if same then some v else old)
      ≡ picked (if same then true else known) new old
present_step true true new old v h = rw (h refl) refl
present_step true false new old v h = rw (h refl) refl
present_step false known new old v h = refl

lookup-add_fields :
    (ks : Map ℕ Kind) (values acc : Map ℕ Value) (id : ℕ)
    → lookup id (add_fields ks values acc) ≡ picked (is_in id ks) (lookup id values) (lookup id acc)
unfolding add_fields
lookup-add_fields [] values acc id = refl
lookup-add_fields ((j, kind) ∷ ks) values acc id = elim (Option-cases (lookup j values)) [
  | inl e ↦
      rw (add_fields-none j kind ks values acc e, lookup-add_fields ks values acc id)
        (missing_step (nat_beq j id) (is_in id ks) (lookup id values) (lookup id acc)
          (λ f. ap (λ k. lookup k values) (sym ((nat_beq_iff j id).0 f)) ∙ e))
  | inr (v, e) ↦
      rw
        (
          add_fields-some j kind ks values acc v e,
          lookup-add_fields ks values (insert j v acc) id,
          lookup-insert j id v acc,
        )
        (present_step (nat_beq j id) (is_in id ks) (lookup id values) (lookup id acc) v
          (λ f. ap (λ k. lookup k values) (sym ((nat_beq_iff j id).0 f)) ∙ e))
]

-- The same fields, wherever they stand, and the same pairs in the same order.
unfoldable pub SameProperties : Properties → Properties → Type 0
SameProperties p q =
    ((id : ℕ) → lookup id p.values ≡ lookup id q.values) × (p.user_properties ≡ q.user_properties)

pick-none : (new : Option Value) → pick new none ≡ new
pick-none none = refl
pick-none (some v) = refl

known_step :
    (known : Bool) (new : Option Value) → (known ≡ false → new ≡ none) → picked known new none ≡ new
known_step true new h = pick-none new
known_step false new h = sym (h refl)

pub in_order-SameProperties :
    (p : Properties)
    → ((id : ℕ) → is_in id kinds ≡ false → lookup id p.values ≡ none)
    → SameProperties (in_order p) p
unfolding SameProperties
in_order-SameProperties p only = (
  λ id.
      lookup-add_fields kinds p.values [] id
      ∙ ap (picked (is_in id kinds) (lookup id p.values)) (lookup_nil id)
      ∙ known_step (is_in id kinds) (lookup id p.values) (only id),
  refl,
)

-- Properties of MQTT 5 that are written are read back with the same fields and the same pairs of the
-- user, wherever they stand in a packet: for values of the types of the fields, with texts of at most
-- 65535 bytes, and for a length that fits four bytes.
pub read_properties-SameProperties :
    (p : Properties) (bytes : Bytes) (offset : ℕ) (s : Bytes)
    → ((id : ℕ) → is_in id kinds ≡ false → lookup id p.values ≡ none)
    → AllFit kinds p.values
    → PairsFit p.user_properties
    → length (body_of p) < 128 ^ 4
    → Stands bytes offset (encode_properties (some p) ++ s)
    → (q : Properties) × (read_properties bytes offset
        ≡ ok (q, length (encode_properties (some p))))
      × SameProperties q p
read_properties-SameProperties p bytes offset s only fit pairs small h = (
  in_order p,
  read_properties-encode p bytes offset s fit pairs small h,
  in_order-SameProperties p only,
)
