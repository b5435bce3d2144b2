-- ===== src/Codec/Properties/Single.antt =====
-- One property reads back where it stands.
use dmqtt.Base.{
  ℕ, suc, ◌+◌, ◌^◌, ◌≤◌, ◌<◌, ◌≡◌, refl, sym, ap, subst, ◌∙◌, Bytes, ◌∷◌, ◌++◌, length, ltb, leb,
  arith, some, true, false, nat_eq, ◌%◌,
}
use dmqtt.Base.Map.{lookup, insert}
use dmqtt.Codec.{ok}
use dmqtt.Codec.Values.{put_uint16, put_uint32}
use dmqtt.Codec.Values.Written.{Stands, Stands-length, index_here}
use dmqtt.Codec.Values.Written.Blocks.{
  length-append_block, prop_block_here, byte_here, read_uint16_here, read_uint32_here, var_int_here,
}
use dmqtt.Codec.Properties.{
  Kind, byte, two_bytes, four_bytes, string, binary, var_int, user, Value, number, text, Properties,
  kinds, read_value, set_value, read_as, read_property, property_loop, encode_value,
}

-- A value of the type of its property.
abbrev pub Fits : Kind → Value → Type 0
Fits byte (number n) = n < 256
Fits two_bytes (number n) = n < 65536
Fits four_bytes (number n) = n < 4294967296
Fits var_int (number n) = n < 128 ^ 4
Fits string (text s) = length s < 65536
Fits binary (text s) = length s < 65536
Fits _ v = 1 ≤ 0

small_byte : (n : ℕ) → n < 256 → n % 256 ≡ n
small_byte n h = omega arith

value_here :
    (kind : Kind) (v : Value) (bytes : Bytes) (offset end : ℕ) (s : Bytes)
    → Fits kind v
    → offset + length (encode_value kind v) ≤ end
    → Stands bytes offset (encode_value kind v ++ s)
    → read_value kind bytes offset end ≡ ok (v, length (encode_value kind v))
unfolding read_value encode_value put_uint16 put_uint32
value_here byte (number n) bytes offset end s f l h =
    rw
      (byte_here bytes offset end n s l
        (subst (λ c. Stands bytes offset (c ∷ s)) (small_byte n f) h))
      refl
value_here two_bytes (number n) bytes offset end s f l h =
    rw (read_uint16_here bytes offset end n s f l h) refl
value_here four_bytes (number n) bytes offset end s f l h =
    rw (read_uint32_here bytes offset end n s f l h) refl
value_here var_int (number n) bytes offset end s f l h = rw (var_int_here bytes offset n s f h) refl
value_here string (text x) bytes offset end s f l h =
    rw (prop_block_here _ _ bytes offset end x s f (omega (arith, l, length-append_block x)) h)
      (ap (λ n. ok (text x, n)) (sym (length-append_block x)))
value_here binary (text x) bytes offset end s f l h =
    rw (prop_block_here _ _ bytes offset end x s f (omega (arith, l, length-append_block x)) h)
      (ap (λ n. ok (text x, n)) (sym (length-append_block x)))
value_here string (number n) bytes offset end s f l h = absurd (omega (arith, f))
value_here binary (number n) bytes offset end s f l h = absurd (omega (arith, f))
value_here user (number n) bytes offset end s f l h = absurd (omega (arith, f))
value_here byte (text x) bytes offset end s f l h = absurd (omega (arith, f))
value_here two_bytes (text x) bytes offset end s f l h = absurd (omega (arith, f))
value_here four_bytes (text x) bytes offset end s f l h = absurd (omega (arith, f))
value_here var_int (text x) bytes offset end s f l h = absurd (omega (arith, f))
value_here user (text x) bytes offset end s f l h = absurd (omega (arith, f))

-- One round of the loop on a property that reads well.
pub round_here :
    (fuel : ℕ) (bytes : Bytes) (offset end id n : ℕ) (p q : Properties) (s : Bytes)
    → offset < end
    → Stands bytes offset (id ∷ s)
    → read_property id p bytes (offset + 1) end ≡ ok (q, n)
    → property_loop (suc fuel) bytes offset end p ≡ property_loop fuel bytes (offset + 1 + n) end q
unfolding property_loop
round_here fuel bytes offset end id n p q s l h e =
    let inside : leb (length bytes) offset ≡ false =
      ground (arith, Stands-length bytes offset (id ∷ s) h) in
    let below : ltb offset end ≡ true = ground arith in
    rw (below, inside, index_here bytes offset id s h, e) refl

-- A kind that fits a value is read by `read_value`.
read_as-value :
    (kind : Kind) (id : ℕ) (v : Value) (p : Properties) (bytes : Bytes) (offset end : ℕ)
    → Fits kind v
    → read_as (some kind) id p bytes offset end ≡ set_value p id (read_value kind bytes offset end)
unfolding read_as
read_as-value byte id v p bytes offset end f = refl
read_as-value two_bytes id v p bytes offset end f = refl
read_as-value four_bytes id v p bytes offset end f = refl
read_as-value string id v p bytes offset end f = refl
read_as-value binary id v p bytes offset end f = refl
read_as-value var_int id v p bytes offset end f = refl
read_as-value user id (number n) p bytes offset end f = absurd (omega (arith, f))
read_as-value user id (text x) p bytes offset end f = absurd (omega (arith, f))

pub field_read :
    (kind : Kind) (id : ℕ) (v : Value) (p : Properties) (bytes : Bytes) (offset end : ℕ) (s : Bytes)
    → lookup id kinds ≡ some kind
    → Fits kind v
    → offset + length (encode_value kind v) ≤ end
    → Stands bytes offset (encode_value kind v ++ s)
    → read_property id p bytes offset end
      ≡ ok (record p { values = insert id v p.values }, length (encode_value kind v))
unfolding read_property
field_read kind id v p bytes offset end s known f l h =
    ap (λ o. read_as o id p bytes offset end) known
    ∙ read_as-value kind id v p bytes offset end f
    ∙ ap (set_value p id) (value_here kind v bytes offset end s f l h)
