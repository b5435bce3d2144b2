-- ===== src/Codec/Packets/Filters.antt =====
-- internal/codec/subscribe.go and unsubscribe.go: the packets with lists of topic filters.
use dmqtt.Base.{
  ℕ, zero, suc, ◌+◌, Bytes, List, [], ◌∷◌, length, ltb, leb, nat_beq, if◌then◌else◌, Option,
}
use dmqtt.Base.Nested.{is_empty}
use dmqtt.Codec.{
  malformed, Result, panic, err, ok, ◌>>=◌, index, subscribe_too_short, missing_qos_byte,
  subscribe_without_filter, unsubscribe_too_short, unsubscribe_without_filter,
}
use dmqtt.Codec.Values.{uint16_at}
use dmqtt.Codec.Properties.{Properties}
use dmqtt.Codec.Packets.{read_utf8_string, read_properties_if}

pub record SubscribePacket : Type 0 where
  pub packet_id : ℕ
  pub subscriptions : List (Bytes × ℕ)
  pub properties : Option Properties

-- The filters with their QoS; the loop ends before `fuel` does, which would count as a panic.
unfoldable pub subscription_loop : ℕ → Bytes → ℕ → Result (List (Bytes × ℕ))
subscription_loop zero bytes offset = panic
subscription_loop (suc fuel) bytes offset =
    if ltb offset (length bytes)
    then read_utf8_string bytes offset >>= (λ (filter, n).
      if leb (length bytes) (offset + n)
      then err (malformed missing_qos_byte)
      else index bytes (offset + n) >>= (λ qos.
        subscription_loop fuel bytes (offset + n + 1) >>= (λ rest. ok ((filter, qos) ∷ rest))))
    else ok []

unfoldable pub filter_loop : ℕ → Bytes → ℕ → Result (List Bytes)
filter_loop zero bytes offset = panic
filter_loop (suc fuel) bytes offset =
    if ltb offset (length bytes)
    then read_utf8_string bytes offset
      >>= (λ (filter, n). filter_loop fuel bytes (offset + n) >>= (λ rest. ok (filter ∷ rest)))
    else ok []

unfoldable pub decode_subscribe_packet : Bytes → ℕ → Result SubscribePacket
decode_subscribe_packet bytes protocol_version =
    if ltb (length bytes) 5
    then err (malformed subscribe_too_short)
    else uint16_at bytes 0 >>= (λ packet_id.
      read_properties_if (nat_beq protocol_version 5) bytes 2 >>= (λ (properties, n).
        subscription_loop (length bytes + 1) bytes (2 + n) >>= (λ subscriptions.
          if is_empty subscriptions
          then err (malformed subscribe_without_filter)
          else ok (record {
            packet_id = packet_id;
            subscriptions = subscriptions;
            properties = properties;
          }))))

pub record UnsubscribePacket : Type 0 where
  pub packet_id : ℕ
  pub topic_filters : List Bytes
  pub properties : Option Properties

unfoldable pub decode_unsubscribe_packet : Bytes → ℕ → Result UnsubscribePacket
decode_unsubscribe_packet bytes protocol_version =
    if ltb (length bytes) 4
    then err (malformed unsubscribe_too_short)
    else uint16_at bytes 0 >>= (λ packet_id.
      read_properties_if (nat_beq protocol_version 5) bytes 2 >>= (λ (properties, n).
        filter_loop (length bytes + 1) bytes (2 + n) >>= (λ filters.
          if is_empty filters
          then err (malformed unsubscribe_without_filter)
          else ok (record {
            packet_id = packet_id;
            topic_filters = filters;
            properties = properties;
          }))))
