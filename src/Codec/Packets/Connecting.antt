-- ===== src/Codec/Packets/Connecting.antt =====
-- A CONNECT packet is decoded without a panic, whatever its bytes.
use dmqtt.Base.{
  ℕ, ◌+◌, ◌≤◌, Bytes, length, ltb, leb, nat_beq, not, ◌&&◌, arith, inl, inr, Bool-cases,
}
use dmqtt.Codec.{Returns}
use dmqtt.Codec.Values.Within.{
  Within, then_Within, then_Returns, index_inside, uint16_inside, read_block-Within,
}
use dmqtt.Codec.Packets.Returning.{read_properties_if-Within}
use dmqtt.Codec.Packets.Replies.{decode_disconnect_packet, decode_disconnect_packet-Returns}
use dmqtt.Codec.Packets.Connect.{
  ConnectHead, read_level, read_flags, read_keep_alive, read_head, read_will, read_username,
  read_password, decode_connect_packet,
}

read_level-Within : (bytes : Bytes) (offset : ℕ) → Within bytes offset (read_level bytes offset)
unfolding read_level
read_level-Within bytes offset = elim (Bool-cases (leb (length bytes) offset)) [
  | inl e ↦ rw e tt
  | inr e ↦
      let (level, f) = index_inside bytes offset (ground arith) in
      elim (Bool-cases (not (nat_beq level 4) && not (nat_beq level 5))) [
        | inl g ↦ rw (e, f, g) tt
        | inr g ↦ rw (e, f, g) (ground arith)
      ]
]

read_flags-Within : (bytes : Bytes) (offset : ℕ) → Within bytes offset (read_flags bytes offset)
unfolding read_flags
read_flags-Within bytes offset = elim (Bool-cases (leb (length bytes) offset)) [
  | inl e ↦ rw e tt
  | inr e ↦ let (flags, f) = index_inside bytes offset (ground arith) in rw (e, f) (ground arith)
]

read_keep_alive-Within :
    (bytes : Bytes) (offset : ℕ) → Within bytes offset (read_keep_alive bytes offset)
unfolding read_keep_alive
read_keep_alive-Within bytes offset = elim (Bool-cases (ltb (length bytes) (offset + 2))) [
  | inl e ↦ rw e tt
  | inr e ↦ let (seconds, f) = uint16_inside bytes offset (ground arith) in rw (e, f) (ground arith)
]

read_head-Within : (bytes : Bytes) → Within bytes 0 (read_head bytes)
unfolding read_head
read_head-Within bytes = then_Within bytes 0 0 _ _ (read_block-Within _ _ bytes 0) (λ name n h.
    then_Within bytes 0 n _ _ (read_level-Within bytes n) (λ level m k.
      then_Within bytes 0 (n + m) _ _ (read_flags-Within bytes (n + m)) (λ flags i l.
        then_Within bytes 0 (n + m + i) _ _ (read_keep_alive-Within bytes (n + m + i)) (λ ka j o.
          then_Within bytes 0 (n + m + i + j) _ _
            (read_properties_if-Within (nat_beq level 5) bytes (n + m + i + j) o)
            (λ p k' q. omega (arith, q))))))

read_will-Within :
    (head : ConnectHead) (bytes : Bytes) (offset : ℕ)
    → offset ≤ length bytes
    → Within bytes offset (read_will head bytes offset)
unfolding read_will
read_will-Within head bytes offset h = elim (Bool-cases head.flags.will_flag) [
  | inl e ↦ rw e (
      then_Within bytes offset offset _ _
        (read_properties_if-Within (nat_beq head.protocol_level 5) bytes offset h)
        (λ p n k.
          then_Within bytes offset (offset + n) _ _ (read_block-Within _ _ bytes (offset + n))
            (λ topic m l.
              then_Within bytes offset (offset + n + m) _ _
                (read_block-Within _ _ bytes (offset + n + m)) (λ payload i o. omega (arith, o)))))
  | inr e ↦ rw e (omega arith)
]

read_username-Within :
    (head : ConnectHead) (bytes : Bytes) (offset : ℕ)
    → offset ≤ length bytes
    → Within bytes offset (read_username head bytes offset)
unfolding read_username
read_username-Within head bytes offset h = elim (Bool-cases head.flags.username_flag) [
  | inl e ↦
      rw e (then_Within bytes offset offset _ _ (read_block-Within _ _ bytes offset) (λ s n k. k))
  | inr e ↦ rw e (omega arith)
]

read_password-Within :
    (head : ConnectHead) (bytes : Bytes) (offset : ℕ)
    → offset ≤ length bytes
    → Within bytes offset (read_password head bytes offset)
unfolding read_password
read_password-Within head bytes offset h = elim (Bool-cases head.flags.password_flag) [
  | inl e ↦
      rw e (then_Within bytes offset offset _ _ (read_block-Within _ _ bytes offset) (λ s n k. k))
  | inr e ↦ rw e (omega arith)
]

-- CONNECT and DISCONNECT are decoded without a panic, whatever their bytes: they give a packet or an
-- error.
pub decode_connect_packet-Returns :
    (bytes : Bytes)
    → Returns (decode_connect_packet bytes) × Returns (decode_disconnect_packet bytes)
unfolding decode_connect_packet
decode_connect_packet-Returns bytes = (
  elim (Bool-cases (ltb (length bytes) 10)) [
    | inl e ↦ rw e (λ q. cc)
    | inr e ↦ rw e (
        then_Returns bytes 0 _ _ (read_head-Within bytes) (λ head n h.
          then_Returns bytes n _ _ (read_block-Within _ _ bytes n) (λ id m k.
            then_Returns bytes (n + m) _ _ (read_will-Within head bytes (n + m) k) (λ will i l.
              then_Returns bytes (n + m + i) _ _ (read_username-Within head bytes (n + m + i) l)
                (λ name j o.
                  then_Returns bytes (n + m + i + j) _ _
                    (read_password-Within head bytes (n + m + i + j) o) (λ password k' p q. cc))))))
  ],
  decode_disconnect_packet-Returns bytes,
)
