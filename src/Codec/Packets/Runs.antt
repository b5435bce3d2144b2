-- ===== src/Codec/Packets/Runs.antt =====
-- Packets on concrete bytes, and their theorems at concrete inputs.
use dmqtt.Base.{
  ℕ, ◌^◌, ◌<◌, ◌≡◌, refl, ap, sym, ◌∙◌, drop, ◌≢◌, inl, inr, Bool-cases, Bytes, [], ◌∷◌, ◌++◌,
  length, arith, Option, none, some, true, false, codes, nat_eq, nat_beq,
}
use dmqtt.Base.Map.{Map, lookup}
use dmqtt.Codec.{
  Result, ok, err, malformed, Returns, index, slice, slice_from, uint16, puback_too_short,
  unknown_property,
}
use dmqtt.Codec.FixedHeader.{read_packet, encode_remaining_length}
use dmqtt.Codec.Values.{uint16_at, read_block, encode_var_int, put_uint16, put_uint32, append_block}
use dmqtt.Codec.Values.Written.{Stands-start}
use dmqtt.Codec.Properties.{
  Kind, four_bytes, Value, Properties, number, text, kinds, decode_properties, read_properties,
  encode_value, encode_fields, encode_pairs, encode_properties,
}
use dmqtt.Codec.Properties.Fields.{AllFit}
use dmqtt.Codec.Properties.Single.{Fits}
use dmqtt.Codec.Properties.RoundTrip.{body_of}
use dmqtt.Codec.Properties.Same.{is_in, SameProperties, read_properties-SameProperties}
use dmqtt.Codec.Properties.Overrun.{decode_properties-overrun}
use dmqtt.Codec.Packets.{
  PublishPacket, decode_publish_packet, publish_body, encode_publish_packet, decode_ack,
}
use dmqtt.Codec.Packets.Filters.{decode_subscribe_packet, decode_unsubscribe_packet}
use dmqtt.Codec.Packets.RoundTrip.{
  PacketFits, Writable, received, header_of, read_packet-encode_publish_packet,
}
use dmqtt.Codec.Packets.Returning.{decoders-Returns}
use dmqtt.Codec.Packets.Connect.{decode_connect_packet}
use dmqtt.Codec.Packets.Connecting.{decode_connect_packet-Returns}
use dmqtt.Codec.Packets.Replies.{decode_disconnect_packet}

abbrev hello : PublishPacket
hello = record {
  topic = codes "a/b";
  packet_id = 258;
  qos = 1;
  dup = true;
  retain = false;
  payload = codes "hi";
  properties = none;
  protocol_version = 4;
}

hello_fits : PacketFits hello
unfolding PacketFits Writable put_uint16 append_block
hello_fits = (omega arith, omega arith, omega arith, omega arith, tt)

hello_body : publish_body hello ≡ 0 ∷ 3 ∷ codes "a/b" ++ (1 ∷ 2 ∷ codes "hi")
unfolding put_uint16 append_block
hello_body = refl

read_packet-encode_publish_packet_example :
    (read_packet (encode_publish_packet hello ++ (7 ∷ []))
      ≡ ok (header_of hello, publish_body hello, 7 ∷ []))
    × (decode_publish_packet (publish_body hello) (header_of hello).qos hello.protocol_version
        ≡ ok (received hello))
read_packet-encode_publish_packet_example =
    read_packet-encode_publish_packet hello (7 ∷ []) hello_fits

short_publish :
    decode_publish_packet (0 ∷ 9 ∷ codes "a") 0 4 ≡ err (malformed dmqtt.Codec.insufficient_utf8)
unfolding decode_publish_packet read_block uint16_at slice uint16
short_publish = refl

decoders-Returns_example :
    Returns (decode_publish_packet (0 ∷ 9 ∷ []) 1 5)
    × Returns (decode_ack puback_too_short (0 ∷ 9 ∷ []) 5)
    × Returns (decode_subscribe_packet (0 ∷ 9 ∷ []) 5)
    × Returns (decode_unsubscribe_packet (0 ∷ 9 ∷ []) 5)
decoders-Returns_example = decoders-Returns (0 ∷ 9 ∷ []) 1 5 puback_too_short

decode_connect_packet-Returns_example :
    Returns (decode_connect_packet (0 ∷ 4 ∷ codes "MQTT"))
    × Returns (decode_disconnect_packet (0 ∷ 4 ∷ codes "MQTT"))
decode_connect_packet-Returns_example = decode_connect_packet-Returns (0 ∷ 4 ∷ codes "MQTT")

-- A session that ends after 5 seconds, and one pair.
abbrev session_properties : Properties
session_properties = record {
  values = (0x11, number 5) ∷ [];
  user_properties = (codes "k", codes "v") ∷ [];
}

written_run :
    encode_properties (some session_properties)
    ≡ 12 ∷ 0x11 ∷ 0 ∷ 0 ∷ 0 ∷ 5 ∷ 0x26 ∷ 0 ∷ 1 ∷ b'k' ∷ 0 ∷ 1 ∷ b'v' ∷ []
unfolding encode_properties encode_fields encode_pairs encode_value encode_var_int
    encode_remaining_length put_uint16 put_uint32 append_block lookup
written_run = refl

decode_properties-overrun_example :
    decode_properties (0x0b ∷ (encode_var_int 7 ++ codes "topic")) 1
    ≡ ok (record { values = (0x0b, number 7) ∷ []; user_properties = [] })
decode_properties-overrun_example = decode_properties-overrun 7 (codes "topic") (omega arith)

abbrev number_of : Option Value → ℕ
number_of (some (number n)) = n
number_of _ = 0

session_size : length (body_of session_properties) < 128 ^ 4
unfolding encode_fields encode_pairs encode_value put_uint16 put_uint32 append_block lookup
session_size = omega arith

five-Fits : (v : Value) → lookup 0x11 session_properties.values ≡ some v → Fits four_bytes v
unfolding lookup
five-Fits (number n) e = let f : 5 ≡ n = ap number_of e in omega (arith, f)
five-Fits (text x) e = absurd (not_text x e)
  where
    not_text : (y : Bytes) → some (number 5) ≢ some (text y)
    not_text y = λ f. cc

nothing_at : (id : ℕ) → nat_beq id 0x11 ≡ false → lookup id session_properties.values ≡ none
unfolding lookup
nothing_at id h = let e : nat_beq 0x11 id ≡ false = ground arith in rw e refl

elsewhere_fits : (ks : Map ℕ Kind) → is_in 0x11 ks ≡ false → AllFit ks session_properties.values
elsewhere_fits [] h = tt
elsewhere_fits ((id, kind) ∷ ks) h = elim (Bool-cases (nat_beq id 0x11)) [
  | inl e ↦ absurd (true_false (sym (rw e refl) ∙ h))
  | inr e ↦ (λ v f. absurd (not_some v (sym (nothing_at id e) ∙ f)), elsewhere_fits ks (rw e at h))
]
  where
    true_false : true ≢ false
    true_false = λ f. cc

    not_some : (v : Value) → none ≢ some v
    not_some v = λ f. cc

session_fits : AllFit kinds session_properties.values
session_fits = (five-Fits, elsewhere_fits (drop 1 kinds) refl)

only_known : (id : ℕ) → is_in id kinds ≡ false → lookup id session_properties.values ≡ none
unfolding lookup
only_known id h = elim (Bool-cases (nat_beq 0x11 id)) [
  | inl e ↦ absurd (is_known id e h)
  | inr e ↦ rw e refl
]
  where
    is_known : (j : ℕ) → nat_beq 0x11 j ≡ true → is_in j kinds ≢ false
    is_known j e = rw e (λ f. cc)

read_properties-SameProperties_example :
    (q : Properties) × (read_properties
        (encode_properties (some session_properties) ++ codes "rest")
        0
      ≡ ok (q, length (encode_properties (some session_properties))))
    × SameProperties q session_properties
read_properties-SameProperties_example =
    read_properties-SameProperties session_properties
      (encode_properties (some session_properties) ++ codes "rest") 0 (codes "rest") only_known
      session_fits (omega arith, omega arith, tt) (session_size)
      (Stands-start (encode_properties (some session_properties) ++ codes "rest"))
