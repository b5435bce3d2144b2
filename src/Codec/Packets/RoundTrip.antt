-- ===== src/Codec/Packets/RoundTrip.antt =====
-- A PUBLISH packet that is written to a stream reads back.
use dmqtt.Base.{
  ℕ, ◌+◌, ◌^◌, ◌<◌, ◌≡◌, ◌≢◌, refl, sym, ap, subst, ◌∙◌, Bytes, [], ◌∷◌, ◌++◌, length, ltb, nat_beq,
  append_assoc, arith, Option, none, some, inl, inr, Bool-cases, Bool, true, false, if◌then◌else◌,
  nat_eq,
}
use dmqtt.Codec.{ok}
use dmqtt.Codec.FixedHeader.{FixedHeader, encode, encode_remaining_length, read_packet}
use dmqtt.Codec.FixedHeader.RoundTrip.{read_packet-encode}
use dmqtt.Base.Map.{Map, lookup}
use dmqtt.Base.Nested.{lookup_nil}
use dmqtt.Codec.Values.{put_uint16, append_block, encode_var_int}
use dmqtt.Codec.Values.Written.{Stands, Stands-start, Stands-length, Stands-after, uint16_here}
use dmqtt.Codec.Values.Written.Blocks.{length-append_block, block_here}
use dmqtt.Codec.Properties.{
  Kind, Value, Properties, no_properties, kinds, read_properties, encode_properties, encode_fields,
  encode_pairs,
}
use dmqtt.Codec.Properties.Bounds.{slice_from_inside}
use dmqtt.Codec.Properties.Fields.{AllFit, PairsFit, add_fields}
use dmqtt.Codec.Properties.RoundTrip.{body_of, in_order, read_properties-encode}
use dmqtt.Codec.Packets.{
  PublishPacket, read_packet_id, read_properties_if, decode_publish_packet, publish_body,
  encode_publish_packet,
}

-- What the decoder makes of properties that were written, where it looks for them.
unfoldable pub read_back : Bool → Option Properties → Option Properties
read_back false ps = none
read_back true none = some no_properties
read_back true (some p) = some (in_order p)

unfoldable pub Writable : Bool → Option Properties → Type 0
Writable true (some p) =
    AllFit kinds p.values × PairsFit p.user_properties × (length (body_of p) < 128 ^ 4)
Writable _ ps = Unit

abbrev written_if : Bool → Option Properties → Bytes
written_if test ps = if test then encode_properties ps else []

-- Missing properties are written like empty ones.
none_written : encode_properties none ≡ encode_properties (some no_properties)
unfolding encode_properties encode_fields encode_pairs encode_var_int encode_remaining_length lookup
none_written = refl

nothing_fits : (ks : Map ℕ Kind) → AllFit ks []
nothing_fits [] = tt
nothing_fits ((id, kind) ∷ ks) =
    (λ v e. absurd (not_some v (sym (lookup_nil id) ∙ e)), nothing_fits ks)
  where
    not_some : (v : Value) → none ≢ some v
    not_some v = λ e. cc

add_nothing : (ks : Map ℕ Kind) (acc : Map ℕ Value) → add_fields ks [] acc ≡ acc
unfolding add_fields lookup
add_nothing [] acc = refl
add_nothing ((id, kind) ∷ ks) acc = add_nothing ks acc

none_read :
    (bytes : Bytes) (offset : ℕ) (s : Bytes)
    → Stands bytes offset (encode_properties (some no_properties) ++ s)
    → read_properties bytes offset
      ≡ ok (no_properties, length (encode_properties (some no_properties)))
unfolding encode_fields encode_pairs lookup
none_read bytes offset s h =
    read_properties-encode no_properties bytes offset s (nothing_fits kinds) tt (omega arith) h
    ∙ ap
        (λ (values : Map ℕ Value). ok (
          record { values = values; user_properties = [] },
          length (encode_properties (some no_properties)),
        ))
        (add_nothing kinds [])

properties_if_here :
    (test : Bool) (ps : Option Properties) (bytes : Bytes) (offset : ℕ) (s : Bytes)
    → Writable test ps
    → Stands bytes offset (written_if test ps ++ s)
    → read_properties_if test bytes offset ≡ ok (read_back test ps, length (written_if test ps))
unfolding read_properties_if read_back Writable
properties_if_here false ps bytes offset s fit h = refl
properties_if_here true (some p) bytes offset s (fit, pairs, small) h =
    rw (read_properties-encode p bytes offset s fit pairs small h) refl
properties_if_here true none bytes offset s fit h =
    rw
      (
        none_read bytes offset s (subst (λ x. Stands bytes offset (x ++ s)) none_written h),
        ← none_written,
      )
      refl

abbrev id_if : ℕ → ℕ → Bytes
id_if qos id = if ltb 0 qos then put_uint16 id else []

packet_id_here :
    (qos id : ℕ) (bytes : Bytes) (offset : ℕ) (s : Bytes)
    → id < 65536
    → Stands bytes offset (id_if qos id ++ s)
    → read_packet_id bytes offset qos ≡ ok (if ltb 0 qos then id else 0, length (id_if qos id))
unfolding read_packet_id put_uint16
packet_id_here qos id bytes offset s small h = elim (Bool-cases (ltb 0 qos)) [
  | inl e ↦
      let written : id_if qos id ≡ put_uint16 id = rw e refl in
      let here : Stands bytes offset (put_uint16 id ++ s) =
        subst (λ x. Stands bytes offset (x ++ s)) written h in
      let fits : ltb (length bytes) (offset + 2) ≡ false =
        ground (arith, Stands-length bytes offset (put_uint16 id ++ s) here) in
      rw (e, fits, uint16_here bytes offset id s small here) refl
  | inr e ↦ rw e refl
]

-- The packet that the receiver gets: the flags of the header are not in the body.
unfoldable pub received : PublishPacket → PublishPacket
received p = record p {
  packet_id = if ltb 0 p.qos then p.packet_id else 0;
  dup = false;
  retain = false;
  properties = read_back (nat_beq p.protocol_version 5) p.properties;
}

unfoldable pub PacketFits : PublishPacket → Type 0
PacketFits p =
    (length p.topic < 65536)
    × (p.packet_id < 65536)
    × (p.qos < 4)
    × (length (publish_body p) < 128 ^ 4)
    × Writable (nat_beq p.protocol_version 5) p.properties

decode_publish_packet-body :
    (p : PublishPacket)
    → PacketFits p
    → decode_publish_packet (publish_body p) p.qos p.protocol_version ≡ ok (received p)
unfolding decode_publish_packet PacketFits received
decode_publish_packet-body p (topic_fits, id_fits, qos_fits, body_fits, fits) =
    let bytes = publish_body p in
    let id = id_if p.qos p.packet_id in
    let props = written_if (nat_beq p.protocol_version 5) p.properties in
    let n = 2 + length p.topic in
    let h0 : Stands bytes 0 (append_block p.topic ++ (id ++ (props ++ p.payload))) =
      Stands-start bytes in
    let h1 : Stands bytes n (id ++ (props ++ p.payload)) =
      subst (λ o. Stands bytes o (id ++ (props ++ p.payload)))
        (omega (arith, length-append_block p.topic))
        (Stands-after bytes 0 (append_block p.topic) (id ++ (props ++ p.payload)) h0) in
    let h2 = Stands-after bytes n id (props ++ p.payload) h1 in
    let h3 = Stands-after bytes (n + length id) props p.payload h2 in
    rw
      (
        block_here _ _ bytes 0 p.topic (id ++ (props ++ p.payload)) topic_fits h0,
        packet_id_here p.qos p.packet_id bytes n (props ++ p.payload) id_fits h1,
        properties_if_here (nat_beq p.protocol_version 5) p.properties bytes (n + length id)
            p.payload fits h2,
        slice_from_inside bytes (n + length id + length props) h3.inside,
        h3.rest,
      )
      refl

-- The header of a PUBLISH packet.
abbrev pub header_of : PublishPacket → FixedHeader
header_of p = record {
  packet_type = 3;
  dup = p.dup;
  qos = p.qos;
  retain = p.retain;
  remaining_length = length (publish_body p);
}

-- A PUBLISH packet of either version that is written to a stream is read back with its topic, its
-- identifier where the QoS is above 0, its QoS and its payload; in version 5 with its properties, the
-- fields in the order of the writer, where missing ones come back empty. The flags come back in the
-- header. Topic, identifier, properties and the whole body fit their lengths.
pub read_packet-encode_publish_packet :
    (p : PublishPacket) (rest : Bytes)
    → PacketFits p
    → (read_packet (encode_publish_packet p ++ rest) ≡ ok (header_of p, publish_body p, rest))
      × (decode_publish_packet (publish_body p) (header_of p).qos p.protocol_version
          ≡ ok (received p))
unfolding encode_publish_packet PacketFits
read_packet-encode_publish_packet p rest (topic_fits, id_fits, qos_fits, body_fits, fits) = (
  ap read_packet (append_assoc (encode (header_of p)) (publish_body p) rest)
      ∙ read_packet-encode (header_of p) (publish_body p) rest (omega arith) qos_fits body_fits
          refl,
  decode_publish_packet-body p (topic_fits, id_fits, qos_fits, body_fits, fits),
)
