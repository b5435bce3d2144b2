-- ===== src/Codec/Packets/Returning.antt =====
-- The decoders of the packets return on any bytes: they do not index or slice out of range, and their
-- loops end.
use dmqtt.Base.{
  ℕ, zero, suc, ◌+◌, ◌≤◌, ◌<◌, Bytes, length, ltb, leb, nat_beq, arith, inl, inr, Bool-cases, Bool,
  true, false, ◌&&◌,
}
use dmqtt.Base.Nested.{is_empty}
use dmqtt.Codec.{Reason, Returns, >>=-Returns}
use dmqtt.Codec.Values.Within.{
  Within, then_Within, then_Returns, then_block, index_inside, uint16_inside, read_block-Within,
}
use dmqtt.Codec.Properties.Bounds.{slice_from_inside, read_properties-Within}
use dmqtt.Codec.Packets.{
  read_packet_id, read_properties_if, decode_publish_packet, read_ack_end, decode_ack,
}
use dmqtt.Codec.Packets.Filters.{
  subscription_loop, filter_loop, decode_subscribe_packet, decode_unsubscribe_packet,
}

read_packet_id-Within :
    (bytes : Bytes) (offset qos : ℕ)
    → offset ≤ length bytes
    → Within bytes offset (read_packet_id bytes offset qos)
unfolding read_packet_id
read_packet_id-Within bytes offset qos h = elim (Bool-cases (ltb 0 qos)) [
  | inl e ↦ elim (Bool-cases (ltb (length bytes) (offset + 2))) [
    | inl f ↦ rw (e, f) tt
    | inr f ↦ let (id, g) = uint16_inside bytes offset (ground arith) in rw (e, f, g) (ground arith)
  ]
  | inr e ↦ rw e (omega arith)
]

pub read_properties_if-Within :
    (test : Bool) (bytes : Bytes) (offset : ℕ)
    → offset ≤ length bytes
    → Within bytes offset (read_properties_if test bytes offset)
unfolding read_properties_if
read_properties_if-Within true bytes offset h =
    then_Within bytes offset offset _ _ (read_properties-Within bytes offset) (λ p n k. k)
read_properties_if-Within false bytes offset h = omega arith

-- A PUBLISH packet is decoded without a panic, whatever its bytes, its QoS and the version.
decode_publish_packet-Returns :
    (bytes : Bytes) (qos version : ℕ) → Returns (decode_publish_packet bytes qos version)
unfolding decode_publish_packet
decode_publish_packet-Returns bytes qos version =
    then_Returns bytes 0 _ _ (read_block-Within _ _ bytes 0) (λ topic n h.
      then_Returns bytes n _ _ (read_packet_id-Within bytes n qos (omega (arith, h))) (λ id m k.
        then_Returns bytes (n + m) _ _
          (read_properties_if-Within (nat_beq version 5) bytes (n + m) k)
          (λ p i l. rw (slice_from_inside bytes (n + m + i) l) (λ q. cc))))

read_ack_end-Returns : (bytes : Bytes) (version : ℕ) → Returns (read_ack_end bytes version)
unfolding read_ack_end
read_ack_end-Returns bytes version = elim (Bool-cases (nat_beq version 5 && ltb 2 (length bytes))) [
  | inl e ↦
      let (code, f) = index_inside bytes 2 (ground arith) in
      rw (e, f)
        (then_Returns bytes 3 _ _
          (read_properties_if-Within (ltb 3 (length bytes)) bytes 3 (ground arith)) (λ p n h q. cc))
  | inr e ↦ rw e (λ q. cc)
]

decode_ack-Returns :
    (too_short : Reason) (bytes : Bytes) (version : ℕ)
    → Returns (decode_ack too_short bytes version)
unfolding decode_ack
decode_ack-Returns too_short bytes version = elim (Bool-cases (ltb (length bytes) 2)) [
  | inl e ↦ rw e (λ q. cc)
  | inr e ↦
      let (id, f) = uint16_inside bytes 0 (ground arith) in
      rw (e, f) (>>=-Returns _ _ (read_ack_end-Returns bytes version) (λ a h q. cc))
]

-- Every round takes at least the two bytes of a length.
subscription_loop-Returns :
    (fuel : ℕ) (bytes : Bytes) (offset : ℕ)
    → 0 < fuel
    → length bytes < offset + fuel
    → Returns (subscription_loop fuel bytes offset)
unfolding subscription_loop
subscription_loop-Returns zero bytes offset w h = absurd (omega arith)
subscription_loop-Returns (suc fuel) bytes offset w h =
    elim (Bool-cases (ltb offset (length bytes))) [
      | inl e ↦ rw e (
          then_Returns bytes offset _ _ (read_block-Within _ _ bytes offset) (λ filter n k.
            elim (Bool-cases (leb (length bytes) (offset + n))) [
              | inl f ↦ rw f (λ q. cc)
              | inr f ↦
                  let (qos, g) = index_inside bytes (offset + n) (ground arith) in
                  rw (f, g)
                    (>>=-Returns _ _
                      (subscription_loop-Returns fuel bytes (offset + n + 1) (ground arith)
                        (omega (arith, h)))
                      (λ a i q. cc))
            ]))
      | inr e ↦ rw e (λ q. cc)
    ]

filter_loop-Returns :
    (fuel : ℕ) (bytes : Bytes) (offset : ℕ)
    → 0 < fuel
    → length bytes < offset + fuel
    → Returns (filter_loop fuel bytes offset)
unfolding filter_loop
filter_loop-Returns zero bytes offset w h = absurd (omega arith)
filter_loop-Returns (suc fuel) bytes offset w h = elim (Bool-cases (ltb offset (length bytes))) [
  | inl e ↦ rw e (
      then_block _ _ bytes offset _ (λ filter n two k.
        >>=-Returns _ _
          (filter_loop-Returns fuel bytes (offset + n) (ground arith) (omega (arith, h, two)))
          (λ a i q. cc)))
  | inr e ↦ rw e (λ q. cc)
]

decode_subscribe_packet-Returns :
    (bytes : Bytes) (version : ℕ) → Returns (decode_subscribe_packet bytes version)
unfolding decode_subscribe_packet
decode_subscribe_packet-Returns bytes version = elim (Bool-cases (ltb (length bytes) 5)) [
  | inl e ↦ rw e (λ q. cc)
  | inr e ↦
      let (id, f) = uint16_inside bytes 0 (ground arith) in
      rw (e, f)
        (then_Returns bytes 2 _ _
          (read_properties_if-Within (nat_beq version 5) bytes 2 (ground arith))
          (λ p n h.
            >>=-Returns _ _
              (subscription_loop-Returns (length bytes + 1) bytes (2 + n) (omega arith)
                (omega arith))
              (λ subs i. elim (Bool-cases (is_empty subs)) [
                | inl g ↦ rw g (λ q. cc)
                | inr g ↦ rw g (λ q. cc)
              ])))
]

decode_unsubscribe_packet-Returns :
    (bytes : Bytes) (version : ℕ) → Returns (decode_unsubscribe_packet bytes version)
unfolding decode_unsubscribe_packet
decode_unsubscribe_packet-Returns bytes version = elim (Bool-cases (ltb (length bytes) 4)) [
  | inl e ↦ rw e (λ q. cc)
  | inr e ↦
      let (id, f) = uint16_inside bytes 0 (ground arith) in
      rw (e, f)
        (then_Returns bytes 2 _ _
          (read_properties_if-Within (nat_beq version 5) bytes 2 (ground arith))
          (λ p n h.
            >>=-Returns _ _
              (filter_loop-Returns (length bytes + 1) bytes (2 + n) (omega arith) (omega arith))
              (λ filters i. elim (Bool-cases (is_empty filters)) [
                | inl g ↦ rw g (λ q. cc)
                | inr g ↦ rw g (λ q. cc)
              ])))
]

-- PUBLISH, the four acknowledgements, SUBSCRIBE and UNSUBSCRIBE are decoded without a panic, whatever
-- their bytes and the version of the protocol: they give a packet or an error, and their loops end.
pub decoders-Returns :
    (bytes : Bytes) (qos version : ℕ) (too_short : Reason)
    → Returns (decode_publish_packet bytes qos version)
      × Returns (decode_ack too_short bytes version)
      × Returns (decode_subscribe_packet bytes version)
      × Returns (decode_unsubscribe_packet bytes version)
decoders-Returns bytes qos version too_short = (
  decode_publish_packet-Returns bytes qos version,
  decode_ack-Returns too_short bytes version,
  decode_subscribe_packet-Returns bytes version,
  decode_unsubscribe_packet-Returns bytes version,
)
