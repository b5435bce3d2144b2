-- ===== src/Codec.antt =====
-- internal/codec: the results of its decoders, and Go's indexing and slicing of byte slices.
-- `panic` stands for a Go run-time panic (an index or a slice out of range).
pub mod FixedHeader
pub mod Values
pub mod Properties
pub mod Packets
mod Runs
use dmqtt.Base.{
  ℕ, zero, suc, ◌+◌, ◌*◌, ◌/◌, ◌%◌, ◌-◌, ◌≡◌, refl, Bytes, List, [], ◌∷◌, length, take, drop, ltb,
  leb, if◌then◌else◌, Option, none, some, ◌≢◌, arith, Bool, ◌||◌,
}

-- The `Reason` texts of `ErrMalformedPacket`.
pub data Reason : Type 0 where
  remaining_length_exceeds_4_bytes : Reason
  connect_too_short missing_protocol_level missing_connect_flags missing_keep_alive : Reason
  unsupported_protocol_level : ℕ → Reason
  insufficient_utf8_length insufficient_utf8 insufficient_binary_length insufficient_binary : Reason
  subscribe_too_short missing_qos_byte subscribe_without_filter : Reason
  unsubscribe_too_short unsubscribe_without_filter : Reason
  missing_packet_id puback_too_short pubrec_too_short pubrel_too_short pubcomp_too_short : Reason
  property_length_exceeds_data truncated_property unknown_property : Reason
  truncated_var_int var_int_exceeds_4_bytes : Reason
  truncated_byte truncated_uint16 truncated_uint32 truncated_string_length truncated_string : Reason
  truncated_binary_length truncated_binary : Reason

-- `eof` and `unexpected_eof` are io.EOF and io.ErrUnexpectedEOF.
pub data Error : Type 0 where
  eof unexpected_eof : Error
  malformed : Reason → Error

pub data Result {ℓ} (A : Type ℓ) : Type ℓ where
  panic : Result A
  err : Error → Result A
  ok : A → Result A

infixl 5 ◌>>=◌
abbrev pub ◌>>=◌ {ℓ κ} : {A : Type ℓ} {B : Type κ} → Result A → (A → Result B) → Result B
panic >>= k = panic
err why >>= k = err why
ok a >>= k = k a

-- `data[i]`
unfoldable pub index : Bytes → ℕ → Result ℕ
index [] i = panic
index (b ∷ bs) zero = ok b
index (b ∷ bs) (suc i) = index bs i

-- `data[lo:hi]`, for a slice whose capacity is its length.
unfoldable pub slice : Bytes → ℕ → ℕ → Result Bytes
slice bs lo hi = if ltb (length bs) hi || ltb hi lo then panic else ok (take (hi - lo) (drop lo bs))

-- `data[lo:]`
unfoldable pub slice_from : Bytes → ℕ → Result Bytes
slice_from bs lo = if ltb (length bs) lo then panic else ok (drop lo bs)

-- `binary.BigEndian.Uint16(b)` and `Uint32(b)`
unfoldable pub uint16 : Bytes → Result ℕ
uint16 (a ∷ b ∷ bs) = ok (a * 256 + b)
uint16 _ = panic

unfoldable pub uint32 : Bytes → Result ℕ
uint32 (a ∷ b ∷ c ∷ d ∷ bs) = ok (((a * 256 + b) * 256 + c) * 256 + d)
uint32 _ = panic

-- A call that does not panic.
abbrev pub Returns {ℓ} : {A : Type ℓ} → Result A → Type ℓ
Returns r = r ≢ panic

pub >>=-eq-ok {ℓ κ} :
    {A : Type ℓ} {B : Type κ} (r : Result A) (k : A → Result B) {b : B}
    → (r >>= k) ≡ ok b
    → (a : A) × (r ≡ ok a) × (k a ≡ ok b)
>>=-eq-ok panic k h = cc
>>=-eq-ok (err why) k h = cc
>>=-eq-ok (ok a) k h = (a, refl, h)

-- A chain does not panic where its parts do not.
pub >>=-Returns {ℓ κ} :
    {A : Type ℓ} {B : Type κ} (m : Result A) (f : A → Result B)
    → Returns m
    → ((a : A) → m ≡ ok a → Returns (f a))
    → Returns (m >>= f)
>>=-Returns (ok a) f h k = k a refl
>>=-Returns (err e) f h k = λ p. cc
>>=-Returns panic f h k = absurd (h refl)
