-- ===== src/Codec/Properties.antt =====
-- internal/codec/properties.go: the properties of MQTT 5. A field of `Properties` that is a pointer or a
-- byte slice is found under the identifier of its property, and is missing where it is nil; the 26
-- branches of the switch that differ only in the field and its type are one, by the type's kind.
pub mod Bounds
pub mod Single
pub mod Fields
pub mod Pairs
pub mod RoundTrip
pub mod Same
pub mod Overrun
use dmqtt.Base.{
  ℕ, zero, suc, ◌+◌, ◌%◌, Bytes, List, [], ◌∷◌, ◌++◌, length, ltb, leb, nat_beq, if◌then◌else◌,
  nat_eq, Option, none, some,
}
use dmqtt.Base.Map.{Map, lookup, insert}
use dmqtt.Codec.{
  malformed, Result, panic, err, ok, ◌>>=◌, index, slice_from, property_length_exceeds_data,
  truncated_property, unknown_property, truncated_string_length, truncated_string,
  truncated_binary_length, truncated_binary,
}
use dmqtt.Codec.Values.{
  read_prop_block, read_byte, read_uint16, read_uint32, decode_var_int, encode_var_int, put_uint16,
  put_uint32, append_block,
}

pub data Kind : Type 0 where
  byte two_bytes four_bytes string binary var_int user : Kind

-- The identifiers, in the order in which `Encode` writes them, with what they hold.
abbrev pub kinds : Map ℕ Kind
kinds =
    (0x11, four_bytes)
    ∷ (0x21, two_bytes)
    ∷ (0x24, byte)
    ∷ (0x25, byte)
    ∷ (0x27, four_bytes)
    ∷ (0x12, string)
    ∷ (0x22, two_bytes)
    ∷ (0x1f, string)
    ∷ (0x28, byte)
    ∷ (0x29, byte)
    ∷ (0x2a, byte)
    ∷ (0x13, two_bytes)
    ∷ (0x1c, string)
    ∷ (0x1a, string)
    ∷ (0x01, byte)
    ∷ (0x02, four_bytes)
    ∷ (0x23, two_bytes)
    ∷ (0x08, string)
    ∷ (0x09, binary)
    ∷ (0x03, string)
    ∷ (0x0b, var_int)
    ∷ (0x18, four_bytes)
    ∷ (0x15, string)
    ∷ (0x16, binary)
    ∷ (0x17, byte)
    ∷ (0x19, byte)
    ∷ (0x26, user)
    ∷ []

pub data Value : Type 0 where
  number : ℕ → Value
  text : Bytes → Value

pub record Properties : Type 0 where
  pub values : Map ℕ Value
  pub user_properties : List (Bytes × Bytes)

abbrev pub no_properties : Properties
no_properties = record { values = []; user_properties = [] }

abbrev as_number : Result (ℕ × ℕ) → Result (Value × ℕ)
as_number r = r >>= (λ (v, n). ok (number v, n))

abbrev as_text : Result (Bytes × ℕ) → Result (Value × ℕ)
as_text r = r >>= (λ (s, n). ok (text s, n))

-- A value of a kind; that of a `SubscriptionIdentifier` is not held to `end`.
unfoldable pub read_value : Kind → Bytes → ℕ → ℕ → Result (Value × ℕ)
read_value byte bytes offset end = as_number (read_byte bytes offset end)
read_value two_bytes bytes offset end = as_number (read_uint16 bytes offset end)
read_value four_bytes bytes offset end = as_number (read_uint32 bytes offset end)
read_value string bytes offset end =
    as_text (read_prop_block truncated_string_length truncated_string bytes offset end)
read_value binary bytes offset end =
    as_text (read_prop_block truncated_binary_length truncated_binary bytes offset end)
read_value var_int bytes offset end = as_number (decode_var_int bytes offset)
read_value user bytes offset end = err (malformed unknown_property)

unfoldable pub read_pair : Bytes → ℕ → ℕ → Result ((Bytes × Bytes) × ℕ)
read_pair bytes offset end =
    read_prop_block truncated_string_length truncated_string bytes offset end >>= (λ (key, n1).
      read_prop_block truncated_string_length truncated_string bytes (offset + n1) end
      >>= (λ (value, n2). ok ((key, value), n1 + n2)))

abbrev pub add_pair : Properties → Result ((Bytes × Bytes) × ℕ) → Result (Properties × ℕ)
add_pair p r =
    r >>= (λ (pair, n). ok (record p { user_properties = p.user_properties ++ (pair ∷ []) }, n))

abbrev pub set_value : Properties → ℕ → Result (Value × ℕ) → Result (Properties × ℕ)
set_value p id r = r >>= (λ (v, n). ok (record p { values = insert id v p.values }, n))

-- One property behind its identifier, by the kind of its identifier.
unfoldable pub read_as : Option Kind → ℕ → Properties → Bytes → ℕ → ℕ → Result (Properties × ℕ)
read_as none id p bytes offset end = err (malformed unknown_property)
read_as (some user) id p bytes offset end = add_pair p (read_pair bytes offset end)
read_as (some kind) id p bytes offset end = set_value p id (read_value kind bytes offset end)

unfoldable pub read_property : ℕ → Properties → Bytes → ℕ → ℕ → Result (Properties × ℕ)
read_property id p bytes offset end = read_as (lookup id kinds) id p bytes offset end

-- The loop; it ends before `fuel` does, which would count as a panic.
unfoldable pub property_loop : ℕ → Bytes → ℕ → ℕ → Properties → Result Properties
property_loop zero bytes offset end p = panic
property_loop (suc fuel) bytes offset end p =
    if ltb offset end
    then (if leb (length bytes) offset
        then err (malformed truncated_property)
        else index bytes offset >>= (λ id.
          read_property id p bytes (offset + 1) end
          >>= (λ (p', n). property_loop fuel bytes (offset + 1 + n) end p')))
    else ok p

unfoldable pub decode_properties : Bytes → ℕ → Result Properties
decode_properties bytes property_length =
    if nat_beq property_length 0
    then ok no_properties
    else if ltb (length bytes) property_length
    then err (malformed property_length_exceeds_data)
    else property_loop (property_length + 1) bytes 0 property_length no_properties

-- The lines that every decoder has: `decodeVarInt(data, offset)`, `DecodeProperties` on what follows,
-- and the offset behind it.
unfoldable pub read_properties : Bytes → ℕ → Result (Properties × ℕ)
read_properties bytes offset = decode_var_int bytes offset >>= (λ (prop_len, n).
    slice_from bytes (offset + n)
    >>= (λ rest. decode_properties rest prop_len >>= (λ p. ok (p, n + prop_len))))

unfoldable pub encode_value : Kind → Value → Bytes
encode_value byte (number n) = n % 256 ∷ []
encode_value two_bytes (number n) = put_uint16 n
encode_value four_bytes (number n) = put_uint32 n
encode_value var_int (number n) = encode_var_int n
encode_value _ (number n) = []
encode_value _ (text s) = append_block s

-- The fields that are set, in the order of `kinds`.
unfoldable pub encode_fields : Map ℕ Kind → Map ℕ Value → Bytes
encode_fields [] values = []
encode_fields ((id, kind) ∷ rest) values =
    (elim (lookup id values) [ none ↦ [] | some v ↦ id ∷ encode_value kind v ])
    ++ encode_fields rest values

unfoldable pub encode_pairs : List (Bytes × Bytes) → Bytes
encode_pairs [] = []
encode_pairs ((key, value) ∷ pairs) =
    0x26 ∷ append_block key ++ (append_block value ++ encode_pairs pairs)

unfoldable pub encode_properties : Option Properties → Bytes
encode_properties none = 0x00 ∷ []
encode_properties (some p) =
    let body = encode_fields kinds p.values ++ encode_pairs p.user_properties in
    encode_var_int (length body) ++ body
