-- ===== src/Codec/Values/Written.antt =====
-- A value that was written reads back where it stands.
pub mod Blocks
use dmqtt.Base.{
  ℕ, zero, suc, ◌+◌, ◌*◌, ◌-◌, ◌/◌, ◌%◌, ◌^◌, ◌≤◌, ◌<◌, ◌≡◌, refl, sym, ap, subst, ◌∙◌, Bytes, List,
  [], ◌∷◌, ◌++◌, length, take, drop, ltb, leb, nat_beq, length-append, length-drop,
  take-length_append, drop-length_append, drop-drop, bit_and, arith, inl, inr, Bool-cases, ◌||◌,
  if◌then◌else◌,
}
use dmqtt.Codec.{Reason, Result, panic, err, ok, ◌>>=◌, index, slice, uint16, uint32, >>=-eq-ok}
use dmqtt.Codec.FixedHeader.{decode_loop, decode_remaining_length, encode_remaining_length}
use dmqtt.Codec.FixedHeader.RoundTrip.{decode_remaining_length-encode}
use dmqtt.Codec.Values.{
  uint16_at, uint32_at, counted, read_block, read_prop_block, read_byte, read_uint16, read_uint32,
  var_int_loop, decode_var_int, encode_var_int, put_uint16, put_uint32, append_block,
}
use dmqtt.Codec.Values.Within.{slice_inside}

-- From `offset` on the bytes are `s`.
pub record Stands (bytes : Bytes) (offset : ℕ) (s : Bytes) : Type 0 where
  pub inside : offset ≤ length bytes
  pub rest : drop offset bytes ≡ s

pub Stands-start : (bytes : Bytes) → Stands bytes 0 bytes
Stands-start bytes = record { inside = omega arith; rest = refl }

pub Stands-length :
    (bytes : Bytes) (offset : ℕ) (s : Bytes)
    → Stands bytes offset s
    → length bytes ≡ offset + length s
Stands-length bytes offset s h =
    let k = h.inside in omega (arith, length-drop offset bytes, ap length h.rest, k)

pub Stands-after :
    (bytes : Bytes) (offset : ℕ) (x s : Bytes)
    → Stands bytes offset (x ++ s)
    → Stands bytes (offset + length x) s
Stands-after bytes offset x s h = record {
  inside = omega (arith, Stands-length bytes offset (x ++ s) h, length-append x s);
  rest =
      sym (drop-drop (length x) offset bytes)
      ∙ ap (drop (length x)) h.rest
      ∙ drop-length_append x s;
}

index-drop : (bytes : Bytes) (i c : ℕ) (s : Bytes) → drop i bytes ≡ c ∷ s → index bytes i ≡ ok c
unfolding index
index-drop [] zero c s h = cc
index-drop [] (suc i) c s h = cc
index-drop (b ∷ bs) zero c s h = cc
index-drop (b ∷ bs) (suc i) c s h = index-drop bs i c s h

pub index_here :
    (bytes : Bytes) (offset c : ℕ) (s : Bytes)
    → Stands bytes offset (c ∷ s)
    → index bytes offset ≡ ok c
index_here bytes offset c s h = index-drop bytes offset c s h.rest

pub slice_here :
    (bytes : Bytes) (offset : ℕ) (x s : Bytes)
    → Stands bytes offset (x ++ s)
    → slice bytes offset (offset + length x) ≡ ok x
slice_here bytes offset x s h =
    slice_inside bytes offset (offset + length x) (omega arith)
      (omega (arith, Stands-length bytes offset (x ++ s) h, length-append x s))
    ∙ ap ok (
        ap (λ (n : ℕ). take n (drop offset bytes)) (omega arith)
        ∙ ap (take (length x)) h.rest
        ∙ take-length_append x s)

uint16-put_uint16 : (n : ℕ) → n < 65536 → uint16 (put_uint16 n) ≡ ok n
unfolding uint16 put_uint16
uint16-put_uint16 n h = ap ok (omega arith)

uint32-put_uint32 : (n : ℕ) → n < 4294967296 → uint32 (put_uint32 n) ≡ ok n
unfolding uint32 put_uint32
uint32-put_uint32 n h = ap ok (omega arith)

length-put_uint16 : (n : ℕ) → length (put_uint16 n) ≡ 2
unfolding put_uint16
length-put_uint16 n = refl

length-put_uint32 : (n : ℕ) → length (put_uint32 n) ≡ 4
unfolding put_uint32
length-put_uint32 n = refl

pub uint16_here :
    (bytes : Bytes) (offset n : ℕ) (s : Bytes)
    → n < 65536
    → Stands bytes offset (put_uint16 n ++ s)
    → uint16_at bytes offset ≡ ok n
unfolding uint16_at put_uint16
uint16_here bytes offset n s k h =
    rw (slice_here bytes offset (put_uint16 n) s h) (uint16-put_uint16 n k)

uint32_here :
    (bytes : Bytes) (offset n : ℕ) (s : Bytes)
    → n < 4294967296
    → Stands bytes offset (put_uint32 n ++ s)
    → uint32_at bytes offset ≡ ok n
unfolding uint32_at put_uint32
uint32_here bytes offset n s k h =
    rw (slice_here bytes offset (put_uint32 n) s h) (uint32-put_uint32 n k)
