-- ===== src/Codec/Properties/Bounds.antt =====
-- Decoding properties on any bytes.
use dmqtt.Base.{
  ℕ, zero, suc, ◌+◌, ◌≤◌, ◌<◌, ◌≡◌, refl, Bytes, length, drop, ltb, leb, nat_beq, length-drop,
  arith, Option, none, some, inl, inr, Bool-cases, nat_eq,
}
use dmqtt.Base.Map.{lookup}
use dmqtt.Codec.{Result, panic, err, ok, ◌>>=◌, slice_from, Returns}
use dmqtt.Codec.Values.Within.{
  Within, then_Within, then_Returns, index_inside, read_prop_block-Within, read_byte-Within,
  read_uint16-Within, read_uint32-Within, decode_var_int-Within,
}
use dmqtt.Codec.Properties.{
  Kind, byte, two_bytes, four_bytes, string, binary, var_int, user, Properties, kinds, read_value,
  read_pair, set_value, read_as, read_property, property_loop, decode_properties, read_properties,
  no_properties,
}

read_value-Within :
    (kind : Kind) (bytes : Bytes) (offset end : ℕ)
    → Within bytes offset (read_value kind bytes offset end)
unfolding read_value
read_value-Within byte bytes offset end =
    then_Within bytes offset offset _ _ (read_byte-Within bytes offset end) (λ v n h. h)
read_value-Within two_bytes bytes offset end =
    then_Within bytes offset offset _ _ (read_uint16-Within bytes offset end) (λ v n h. h)
read_value-Within four_bytes bytes offset end =
    then_Within bytes offset offset _ _ (read_uint32-Within bytes offset end) (λ v n h. h)
read_value-Within string bytes offset end =
    then_Within bytes offset offset _ _ (read_prop_block-Within _ _ bytes offset end) (λ v n h. h)
read_value-Within binary bytes offset end =
    then_Within bytes offset offset _ _ (read_prop_block-Within _ _ bytes offset end) (λ v n h. h)
read_value-Within var_int bytes offset end =
    then_Within bytes offset offset _ _ (decode_var_int-Within bytes offset) (λ v n h. h)
read_value-Within user bytes offset end = tt

read_pair-Within :
    (bytes : Bytes) (offset end : ℕ) → Within bytes offset (read_pair bytes offset end)
unfolding read_pair
read_pair-Within bytes offset end =
    then_Within bytes offset offset _ _ (read_prop_block-Within _ _ bytes offset end) (λ key n1 h.
      then_Within bytes offset (offset + n1) _ _
        (read_prop_block-Within _ _ bytes (offset + n1) end) (λ value n2 k. omega (arith, k)))

set_value-Within :
    (kind : Kind) (id : ℕ) (p : Properties) (bytes : Bytes) (offset end : ℕ)
    → Within bytes offset (set_value p id (read_value kind bytes offset end))
set_value-Within kind id p bytes offset end =
    then_Within bytes offset offset _ _ (read_value-Within kind bytes offset end) (λ v n h. h)

read_as-Within :
    (kind : Option Kind) (id : ℕ) (p : Properties) (bytes : Bytes) (offset end : ℕ)
    → Within bytes offset (read_as kind id p bytes offset end)
unfolding read_as
read_as-Within none id p bytes offset end = tt
read_as-Within (some user) id p bytes offset end =
    then_Within bytes offset offset _ _ (read_pair-Within bytes offset end) (λ pair n h. h)
read_as-Within (some byte) id p bytes offset end = set_value-Within byte id p bytes offset end
read_as-Within (some two_bytes) id p bytes offset end =
    set_value-Within two_bytes id p bytes offset end
read_as-Within (some four_bytes) id p bytes offset end =
    set_value-Within four_bytes id p bytes offset end
read_as-Within (some string) id p bytes offset end = set_value-Within string id p bytes offset end
read_as-Within (some binary) id p bytes offset end = set_value-Within binary id p bytes offset end
read_as-Within (some var_int) id p bytes offset end = set_value-Within var_int id p bytes offset end

-- A property takes at least its identifier, so that the bytes up to `end` bound the rounds.
property_loop-Returns :
    (fuel : ℕ) (bytes : Bytes) (offset end : ℕ) (p : Properties)
    → 0 < fuel
    → end < offset + fuel
    → Returns (property_loop fuel bytes offset end p)
unfolding property_loop read_property
property_loop-Returns zero bytes offset end p w h = absurd (omega arith)
property_loop-Returns (suc fuel) bytes offset end p w h = elim (Bool-cases (ltb offset end)) [
  | inl e ↦ elim (Bool-cases (leb (length bytes) offset)) [
    | inl f ↦ rw (e, f) (λ q. cc)
    | inr f ↦
        let (id, g) = index_inside bytes offset (ground arith) in
        rw (e, f, g)
          (then_Returns bytes (offset + 1) _ _
            (read_as-Within (lookup id kinds) id p bytes (offset + 1) end)
            (λ p' n k.
              property_loop-Returns fuel bytes (offset + 1 + n) end p' (ground arith)
                (omega (arith, h))))
  ]
  | inr e ↦ rw e (λ q. cc)
]

-- Decoding properties returns on any bytes and for any announced length, and where it gives properties
-- the bytes hold that length.
pub decode_properties-Returns :
    (bytes : Bytes) (property_length : ℕ)
    → Returns (decode_properties bytes property_length)
      × ((p : Properties)
          → decode_properties bytes property_length ≡ ok p
          → property_length ≤ length bytes)
unfolding decode_properties
decode_properties-Returns bytes n = elim (Bool-cases (nat_beq n 0)) [
  | inl e ↦ (rw e (λ q. cc), λ p h. ground arith)
  | inr e ↦ elim (Bool-cases (ltb (length bytes) n)) [
    | inl f ↦ (rw (e, f) (λ q. cc), rw (e, f) (λ p h. cc))
    | inr f ↦ (
      rw (e, f) (property_loop-Returns (n + 1) bytes 0 n no_properties (omega arith) (omega arith)),
      λ p h. ground arith,
    )
  ]
]

pub slice_from_inside :
    (bytes : Bytes) (lo : ℕ) → lo ≤ length bytes → slice_from bytes lo ≡ ok (drop lo bytes)
unfolding slice_from
slice_from_inside bytes lo h = ground arith

-- The properties of the length `n`, which follow at `offset + m`.
section_Within :
    (bytes : Bytes) (offset m n : ℕ) (r : Result Properties)
    → Returns r
    → ((p : Properties) → r ≡ ok p → offset + m + n ≤ length bytes)
    → Within bytes offset (r >>= (λ p. ok (p, m + n)))
section_Within bytes offset m n panic h k = absurd (h refl)
section_Within bytes offset m n (err e) h k = tt
section_Within bytes offset m n (ok p) h k = omega (arith, k p refl)

pub read_properties-Within :
    (bytes : Bytes) (offset : ℕ) → Within bytes offset (read_properties bytes offset)
unfolding read_properties
read_properties-Within bytes offset =
    then_Within bytes offset offset _ _ (decode_var_int-Within bytes offset) (λ n m h.
      let (safe, fits) = decode_properties-Returns (drop (offset + m) bytes) n in
      rw (slice_from_inside bytes (offset + m) h) (
        section_Within bytes offset m n _ safe
          (λ p e. omega (arith, h, fits p e, length-drop (offset + m) bytes))))
