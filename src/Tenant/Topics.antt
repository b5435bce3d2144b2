-- ===== src/Tenant/Topics.antt =====
-- internal/tenant/interceptor.go: the interceptor that gives each tenant a part of the topics of its own.
use dmqtt.Base.{
  ℕ, Bytes, [], ◌∷◌, ◌++◌, length, drop, nat_beq, ◌==◌, bytes_eq, if◌then◌else◌, Bool, true, false,
  not, ◌&&◌, none, some,
}
use dmqtt.Tenant.{
  RateLibrary, Manager, Result, done, failed, try_connect, on_disconnect, check_publish,
  get_topic_prefix,
}

-- strings.HasPrefix(s, prefix)
abbrev pub has_prefix : Bytes → Bytes → Bool
has_prefix s [] = true
has_prefix [] (c ∷ prefix) = false
has_prefix (d ∷ s) (c ∷ prefix) = nat_beq d c && has_prefix s prefix

-- strings.TrimPrefix(s, prefix)
abbrev pub trim_prefix : Bytes → Bytes → Bytes
trim_prefix s prefix = if has_prefix s prefix then drop (length prefix) s else s

-- How a topic or a filter of a client is written inside the broker.
unfoldable pub with_prefix : Bytes → Bytes → Bytes
with_prefix prefix topic =
    if not (prefix == []) && not (has_prefix topic (b'$' ∷ []))
    then prefix ++ (b'/' ∷ topic)
    else topic

unfoldable pub without_prefix : Bytes → Bytes → Bytes
without_prefix prefix topic =
    let pfx = prefix ++ (b'/' ∷ []) in
    if not (prefix == [])
    then (if has_prefix topic pfx then trim_prefix topic pfx else topic)
    else topic

module _ (R : RateLibrary) where
  -- `resolve` is the TenantResolver: the tenant of a user.
  unfoldable pub on_connect : (Bytes → Bytes) → Manager R → Bytes → Bytes → Result (Manager R)
  on_connect resolve m client username = try_connect R m client (resolve username)

  -- The topic as the rest of the broker sees it, or why the message is refused.
  unfoldable pub on_publish : Manager R → Bytes → Bytes → ℕ → ℕ → Manager R × Result Bytes
  on_publish m client topic payload_size now =
      let (m', refused) = check_publish R m client payload_size now in
      elim refused [
        | some e ↦ (m', failed e)
        | none ↦ (m', done (with_prefix (get_topic_prefix R m' client) topic))
      ]

  unfoldable pub on_subscribe : Manager R → Bytes → Bytes → Bytes
  on_subscribe m client filter = with_prefix (get_topic_prefix R m client) filter

  unfoldable pub on_unsubscribe : Manager R → Bytes → Bytes → Bytes
  on_unsubscribe m client filter = with_prefix (get_topic_prefix R m client) filter

  unfoldable pub on_delivery : Manager R → Bytes → Bytes → Bytes
  on_delivery m client topic = without_prefix (get_topic_prefix R m client) topic

  unfoldable pub interceptor_on_disconnect : Manager R → Bytes → Manager R
  interceptor_on_disconnect m client = on_disconnect R m client
