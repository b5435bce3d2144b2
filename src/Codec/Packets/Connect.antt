-- ===== src/Codec/Packets/Connect.antt =====
-- internal/codec/connect.go and disconnect.go: CONNECT and DISCONNECT, and the encoders that only the
-- broker uses.
use dmqtt.Base.{
  ℕ, ◌+◌, ◌/◌, Bytes, length, ltb, leb, nat_beq, not, ◌&&◌, if◌then◌else◌, Bool, Option, none, some,
  bit_and,
}
use dmqtt.Codec.{
  malformed, Result, err, ok, ◌>>=◌, index, connect_too_short, missing_protocol_level,
  missing_connect_flags, missing_keep_alive, unsupported_protocol_level, insufficient_binary_length,
  insufficient_binary,
}
use dmqtt.Codec.Values.{uint16_at, read_block}
use dmqtt.Codec.Properties.{Properties}
use dmqtt.Codec.Packets.{read_utf8_string, read_properties_if}

abbrev read_binary_data : Bytes → ℕ → Result (Bytes × ℕ)
read_binary_data bytes offset =
    read_block insufficient_binary_length insufficient_binary bytes offset

-- What the flags of a CONNECT packet say.
pub record ConnectFlags : Type 0 where
  pub clean_session : Bool
  pub will_flag : Bool
  pub will_qos : ℕ
  pub will_retain : Bool
  pub password_flag : Bool
  pub username_flag : Bool

abbrev is_set : ℕ → ℕ → Bool
is_set flags bit = not (nat_beq (bit_and flags bit) 0)

unfoldable pub connect_flags : ℕ → ConnectFlags
connect_flags flags = record {
  clean_session = is_set flags 0x02;
  will_flag = is_set flags 0x04;
  will_qos = bit_and (flags / 8) 0x03;
  will_retain = is_set flags 0x20;
  password_flag = is_set flags 0x40;
  username_flag = is_set flags 0x80;
}

-- The part before the payload.
pub record ConnectHead : Type 0 where
  pub protocol_name : Bytes
  pub protocol_level : ℕ
  pub flags : ConnectFlags
  pub keep_alive : ℕ
  pub properties : Option Properties

pub record Will : Type 0 where
  pub properties : Option Properties
  pub topic : Bytes
  pub payload : Bytes

-- The fields of the source that stay empty without their flag are missing.
pub record ConnectPacket : Type 0 where
  pub head : ConnectHead
  pub client_id : Bytes
  pub will : Option Will
  pub username : Option Bytes
  pub password : Option Bytes

unfoldable pub read_level : Bytes → ℕ → Result (ℕ × ℕ)
read_level bytes offset =
    if leb (length bytes) offset
    then err (malformed missing_protocol_level)
    else index bytes offset >>= (λ level.
      if not (nat_beq level 4) && not (nat_beq level 5)
      then err (malformed (unsupported_protocol_level level))
      else ok (level, 1))

unfoldable pub read_flags : Bytes → ℕ → Result (ConnectFlags × ℕ)
read_flags bytes offset =
    if leb (length bytes) offset
    then err (malformed missing_connect_flags)
    else index bytes offset >>= (λ flags. ok (connect_flags flags, 1))

unfoldable pub read_keep_alive : Bytes → ℕ → Result (ℕ × ℕ)
read_keep_alive bytes offset =
    if ltb (length bytes) (offset + 2)
    then err (malformed missing_keep_alive)
    else uint16_at bytes offset >>= (λ seconds. ok (seconds, 2))

unfoldable pub read_head : Bytes → Result (ConnectHead × ℕ)
read_head bytes = read_utf8_string bytes 0 >>= (λ (name, n). read_level bytes n >>= (λ (level, m).
    read_flags bytes (n + m) >>= (λ (flags, i).
      read_keep_alive bytes (n + m + i) >>= (λ (keep_alive, j).
        read_properties_if (nat_beq level 5) bytes (n + m + i + j) >>= (λ (properties, k). ok (
          record {
            protocol_name = name;
            protocol_level = level;
            flags = flags;
            keep_alive = keep_alive;
            properties = properties;
          },
          n + m + i + j + k,
        ))))))

unfoldable pub read_will : ConnectHead → Bytes → ℕ → Result (Option Will × ℕ)
read_will head bytes offset =
    if head.flags.will_flag
    then read_properties_if (nat_beq head.protocol_level 5) bytes offset >>= (λ (properties, n).
      read_utf8_string bytes (offset + n) >>= (λ (topic, m).
        read_binary_data bytes (offset + n + m) >>= (λ (payload, k). ok (
          some (record { properties = properties; topic = topic; payload = payload }),
          n + m + k,
        ))))
    else ok (none, 0)

abbrev as_some : Result (Bytes × ℕ) → Result (Option Bytes × ℕ)
as_some r = r >>= (λ (s, n). ok (some s, n))

unfoldable pub read_username : ConnectHead → Bytes → ℕ → Result (Option Bytes × ℕ)
read_username head bytes offset =
    if head.flags.username_flag then as_some (read_utf8_string bytes offset) else ok (none, 0)

unfoldable pub read_password : ConnectHead → Bytes → ℕ → Result (Option Bytes × ℕ)
read_password head bytes offset =
    if head.flags.password_flag then as_some (read_binary_data bytes offset) else ok (none, 0)

unfoldable pub decode_connect_packet : Bytes → Result ConnectPacket
decode_connect_packet bytes =
    if ltb (length bytes) 10
    then err (malformed connect_too_short)
    else read_head bytes >>= (λ (head, n). read_utf8_string bytes n >>= (λ (client_id, m).
      read_will head bytes (n + m) >>= (λ (will, i).
        read_username head bytes (n + m + i) >>= (λ (username, j).
          read_password head bytes (n + m + i + j) >>= (λ (password, k). ok (record {
            head = head;
            client_id = client_id;
            will = will;
            username = username;
            password = password;
          }))))))
