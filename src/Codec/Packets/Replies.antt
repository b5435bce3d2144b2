-- ===== src/Codec/Packets/Replies.antt =====
-- internal/codec: the packets of the broker's side (CONNACK, SUBACK, UNSUBACK), and DISCONNECT both ways.
use dmqtt.Base.{
  ℕ, Bytes, [], ◌∷◌, ◌++◌, length, ltb, nat_beq, if◌then◌else◌, Bool, false, Option, none, arith,
  inl, inr, Bool-cases,
}
use dmqtt.Codec.{Result, ok, ◌>>=◌, index, Returns}
use dmqtt.Codec.FixedHeader.{encode}
use dmqtt.Codec.Values.{put_uint16}
use dmqtt.Codec.Values.Within.{then_Returns, index_inside}
use dmqtt.Codec.Properties.{Properties, encode_properties}
use dmqtt.Codec.Packets.{read_properties_if}
use dmqtt.Codec.Packets.Returning.{read_properties_if-Within}

-- A header without flags, and what follows it.
abbrev pub with_header : ℕ → Bytes → Bytes
with_header packet_type body =
    encode (record {
      packet_type = packet_type;
      dup = false;
      qos = 0;
      retain = false;
      remaining_length = length body;
    })
    ++ body

pub record ConnackPacket : Type 0 where
  pub session_present : Bool
  pub return_code : ℕ
  pub reason_code : ℕ
  pub properties : Option Properties
  pub protocol_version : ℕ

unfoldable pub encode_connack_packet : ConnackPacket → Bytes
encode_connack_packet p =
    let sp = if p.session_present then 0x01 else 0x00 in
    if nat_beq p.protocol_version 5
    then with_header 2 (sp ∷ p.reason_code ∷ encode_properties p.properties)
    else with_header 2 (sp ∷ p.return_code ∷ [])

pub record SubackPacket : Type 0 where
  pub packet_id : ℕ
  pub return_codes : Bytes
  pub properties : Option Properties
  pub protocol_version : ℕ

unfoldable pub encode_suback_packet : SubackPacket → Bytes
encode_suback_packet p =
    if nat_beq p.protocol_version 5
    then with_header 9
        (put_uint16 p.packet_id ++ (encode_properties p.properties ++ p.return_codes))
    else with_header 9 (put_uint16 p.packet_id ++ p.return_codes)

pub record UnsubackPacket : Type 0 where
  pub packet_id : ℕ
  pub reason_codes : Bytes
  pub properties : Option Properties
  pub protocol_version : ℕ

-- Version 3.1.1 has no codes.
unfoldable pub encode_unsuback_packet : UnsubackPacket → Bytes
encode_unsuback_packet p =
    if nat_beq p.protocol_version 5
    then with_header 11
        (put_uint16 p.packet_id ++ (encode_properties p.properties ++ p.reason_codes))
    else with_header 11 (put_uint16 p.packet_id)

pub record DisconnectPacket : Type 0 where
  pub reason_code : ℕ
  pub properties : Option Properties
  pub protocol_version : ℕ

unfoldable pub encode_disconnect_packet : DisconnectPacket → Bytes
encode_disconnect_packet p =
    if nat_beq p.protocol_version 5
    then with_header 14 (p.reason_code ∷ encode_properties p.properties)
    else with_header 14 []

-- The version is not read.
unfoldable pub decode_disconnect_packet : Bytes → Result DisconnectPacket
decode_disconnect_packet bytes =
    if nat_beq (length bytes) 0
    then ok (record { reason_code = 0; properties = none; protocol_version = 0 })
    else index bytes 0 >>= (λ code.
      read_properties_if (ltb 1 (length bytes)) bytes 1 >>= (λ (properties, n).
        ok (record { reason_code = code; properties = properties; protocol_version = 0 })))

pub decode_disconnect_packet-Returns : (bytes : Bytes) → Returns (decode_disconnect_packet bytes)
unfolding decode_disconnect_packet
decode_disconnect_packet-Returns bytes = elim (Bool-cases (nat_beq (length bytes) 0)) [
  | inl e ↦ rw e (λ q. cc)
  | inr e ↦
      let (code, f) = index_inside bytes 0 (ground arith) in
      rw (e, f)
        (then_Returns bytes 1 _ _
          (read_properties_if-Within (ltb 1 (length bytes)) bytes 1 (ground arith)) (λ p n h q. cc))
]
