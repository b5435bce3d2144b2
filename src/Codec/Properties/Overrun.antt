-- ===== src/Codec/Properties/Overrun.antt =====
-- A SubscriptionIdentifier at the end of a section of properties.
use dmqtt.Base.{
  ℕ, ◌+◌, ◌^◌, ◌<◌, ◌≡◌, refl, ◌∙◌, Bytes, [], ◌∷◌, ◌++◌, length, ltb, false, arith, nat_eq,
}
use dmqtt.Base.Map.{lookup, insert}
use dmqtt.Codec.{ok}
use dmqtt.Codec.Values.{encode_var_int}
use dmqtt.Codec.Values.Written.{Stands, Stands-start, Stands-after}
use dmqtt.Codec.Values.Written.Blocks.{var_int_here}
use dmqtt.Codec.Properties.{
  number, no_properties, read_value, read_as, read_property, property_loop, decode_properties,
}
use dmqtt.Codec.Properties.Single.{round_here}
use dmqtt.Codec.Properties.RoundTrip.{whole_section}

identifier_read :
    (n : ℕ) (bytes : Bytes) (end : ℕ) (s : Bytes)
    → n < 128 ^ 4
    → Stands bytes 1 (encode_var_int n ++ s)
    → read_property 0x0b no_properties bytes (0 + 1) end
      ≡ ok (
        record { values = (0x0b, number n) ∷ []; user_properties = [] },
        length (encode_var_int n),
      )
unfolding read_property read_as read_value lookup insert
identifier_read n bytes end s small h = rw (var_int_here bytes 1 n s small h) refl

-- A section of one byte, which is the identifier of a SubscriptionIdentifier without its value, is not
-- refused: the value is read from the bytes behind the section, which belong to what follows.
pub decode_properties-overrun :
    (n : ℕ) (s : Bytes)
    → n < 128 ^ 4
    → decode_properties (0x0b ∷ (encode_var_int n ++ s)) 1
      ≡ ok (record { values = (0x0b, number n) ∷ []; user_properties = [] })
unfolding property_loop
decode_properties-overrun n s small =
    let bytes = 0x0b ∷ (encode_var_int n ++ s) in
    let past : ltb (0 + 1 + length (encode_var_int n)) 1 ≡ false = ground arith in
    whole_section bytes 1 (omega arith)
    ∙ round_here 1 bytes 0 1 0x0b (length (encode_var_int n)) no_properties _
        (encode_var_int n ++ s) (omega arith) (Stands-start bytes)
        (identifier_read n bytes 1 s small
          (Stands-after bytes 0 (0x0b ∷ []) (encode_var_int n ++ s) (Stands-start bytes)))
    ∙ rw past refl
