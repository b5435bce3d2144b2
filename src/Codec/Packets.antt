-- ===== src/Codec/Packets.antt =====
-- internal/codec/publish.go, subscribe.go, unsubscribe.go, disconnect.go and connect.go: the packets
-- behind their fixed headers. Text that is put before a wrapped error is left out.
pub mod Filters
pub mod Returning
pub mod RoundTrip
pub mod Connect
pub mod Replies
pub mod Connecting
mod Runs
use dmqtt.Base.{
  ℕ, zero, suc, ◌+◌, ◌*◌, ◌/◌, ◌%◌, Bytes, List, [], ◌∷◌, ◌++◌, length, ltb, leb, nat_beq, not,
  ◌&&◌, ◌||◌, if◌then◌else◌, Bool, true, false, Option, none, some,
}
use dmqtt.Base.Nested.{is_empty}
use dmqtt.Codec.{
  Reason, malformed, Result, panic, err, ok, ◌>>=◌, index, slice, slice_from, uint16,
  insufficient_utf8_length, insufficient_utf8, subscribe_too_short, missing_qos_byte,
  subscribe_without_filter, unsubscribe_too_short, unsubscribe_without_filter, missing_packet_id,
  puback_too_short, pubrec_too_short, pubrel_too_short, pubcomp_too_short,
}
use dmqtt.Codec.FixedHeader.{FixedHeader, encode}
use dmqtt.Codec.Values.{uint16_at, read_block, put_uint16, append_block}
use dmqtt.Codec.Properties.{Properties, no_properties, read_properties, encode_properties}

abbrev pub read_utf8_string : Bytes → ℕ → Result (Bytes × ℕ)
read_utf8_string bytes offset = read_block insufficient_utf8_length insufficient_utf8 bytes offset

pub record PublishPacket : Type 0 where
  pub topic : Bytes
  pub packet_id : ℕ
  pub qos : ℕ
  pub dup : Bool
  pub retain : Bool
  pub payload : Bytes
  pub properties : Option Properties
  pub protocol_version : ℕ

-- The packet identifier, which stands there for a QoS above 0.
unfoldable pub read_packet_id : Bytes → ℕ → ℕ → Result (ℕ × ℕ)
read_packet_id bytes offset qos =
    if ltb 0 qos
    then (if ltb (length bytes) (offset + 2)
        then err (malformed missing_packet_id)
        else uint16_at bytes offset >>= (λ id. ok (id, 2)))
    else ok (0, 0)

-- The properties, which stand there for version 5.
unfoldable pub read_properties_if : Bool → Bytes → ℕ → Result (Option Properties × ℕ)
read_properties_if true bytes offset = read_properties bytes offset >>= (λ (p, n). ok (some p, n))
read_properties_if false bytes offset = ok (none, 0)

unfoldable pub decode_publish_packet : Bytes → ℕ → ℕ → Result PublishPacket
decode_publish_packet bytes qos protocol_version = read_utf8_string bytes 0 >>= (λ (topic, n).
    read_packet_id bytes n qos >>= (λ (packet_id, m).
      read_properties_if (nat_beq protocol_version 5) bytes (n + m) >>= (λ (properties, k).
        slice_from bytes (n + m + k) >>= (λ payload. ok (record {
          topic = topic;
          packet_id = packet_id;
          qos = qos;
          dup = false;
          retain = false;
          payload = payload;
          properties = properties;
          protocol_version = protocol_version;
        })))))

abbrev pub publish_body : PublishPacket → Bytes
publish_body p =
    let id = if ltb 0 p.qos then put_uint16 p.packet_id else [] in
    let properties = if nat_beq p.protocol_version 5 then encode_properties p.properties else [] in
    append_block p.topic ++ (id ++ (properties ++ p.payload))

-- `remaining` is the length of what follows the header.
unfoldable pub encode_publish_packet : PublishPacket → Bytes
encode_publish_packet p =
    encode (record {
      packet_type = 3;
      dup = p.dup;
      qos = p.qos;
      retain = p.retain;
      remaining_length = length (publish_body p);
    })
    ++ publish_body p

-- PUBACK, PUBREC, PUBREL and PUBCOMP: one type and one codec each in the source, which differ in the
-- packet's type, the QoS bits of its header and the reason for a packet that is too short.
pub record AckPacket : Type 0 where
  pub packet_id : ℕ
  pub reason_code : ℕ
  pub properties : Option Properties
  pub protocol_version : ℕ

abbrev is_some : Option Properties → Bool
is_some none = false
is_some (some p) = true

unfoldable pub ack_body : AckPacket → Bytes
ack_body p =
    if nat_beq p.protocol_version 5 && (not (nat_beq p.reason_code 0) || is_some p.properties)
    then put_uint16 p.packet_id ++ (p.reason_code ∷ encode_properties p.properties)
    else put_uint16 p.packet_id

unfoldable pub encode_ack : ℕ → ℕ → AckPacket → Bytes
encode_ack packet_type header_qos p =
    encode (record {
      packet_type = packet_type;
      dup = false;
      qos = header_qos;
      retain = false;
      remaining_length = length (ack_body p);
    })
    ++ ack_body p

-- The reason code and the properties of version 5, each only if bytes are left.
unfoldable pub read_ack_end : Bytes → ℕ → Result (ℕ × Option Properties)
read_ack_end bytes protocol_version =
    if nat_beq protocol_version 5 && ltb 2 (length bytes)
    then index bytes 2 >>= (λ code.
      read_properties_if (ltb 3 (length bytes)) bytes 3
      >>= (λ (properties, n). ok (code, properties)))
    else ok (0, none)

unfoldable pub decode_ack : Reason → Bytes → ℕ → Result AckPacket
decode_ack too_short bytes protocol_version =
    if ltb (length bytes) 2
    then err (malformed too_short)
    else uint16_at bytes 0 >>= (λ packet_id.
      read_ack_end bytes protocol_version >>= (λ (code, properties). ok (record {
        packet_id = packet_id;
        reason_code = code;
        properties = properties;
        protocol_version = protocol_version;
      })))

unfoldable pub decode_puback_packet : Bytes → ℕ → Result AckPacket
decode_puback_packet = decode_ack puback_too_short

unfoldable pub decode_pubrec_packet : Bytes → ℕ → Result AckPacket
decode_pubrec_packet = decode_ack pubrec_too_short

unfoldable pub decode_pubrel_packet : Bytes → ℕ → Result AckPacket
decode_pubrel_packet = decode_ack pubrel_too_short

unfoldable pub decode_pubcomp_packet : Bytes → ℕ → Result AckPacket
decode_pubcomp_packet = decode_ack pubcomp_too_short

unfoldable pub encode_puback_packet : AckPacket → Bytes
encode_puback_packet = encode_ack 4 0

unfoldable pub encode_pubrec_packet : AckPacket → Bytes
encode_pubrec_packet = encode_ack 5 0

unfoldable pub encode_pubrel_packet : AckPacket → Bytes
encode_pubrel_packet = encode_ack 6 1

unfoldable pub encode_pubcomp_packet : AckPacket → Bytes
encode_pubcomp_packet = encode_ack 7 0
