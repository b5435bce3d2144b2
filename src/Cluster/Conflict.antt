-- ===== src/Cluster/Conflict.antt =====
-- internal/cluster/conflict.go: which of two sessions of one client survives. Epochs are uint64 and
-- timestamps int64 after 1970; both are only compared.
use dmqtt.Base.{ℕ, ◌<◌, Bytes, ltb, if◌then◌else◌, Bool, true, false, ◌≡◌, ◌⊎◌, ◌↔◌, arith}

pub record SessionMeta : Type 0 where
  pub client_id : Bytes
  pub epoch : ℕ
  pub connect_timestamp : ℕ
  pub node_id : Bytes

-- `true` if the remote session wins and the local one should yield.
unfoldable pub resolve : SessionMeta → SessionMeta → Bool
resolve local remote =
    if ltb local.epoch remote.epoch
    then true
    else if ltb remote.epoch local.epoch
    then false
    else if ltb local.connect_timestamp remote.connect_timestamp
    then true
    else if ltb remote.connect_timestamp local.connect_timestamp
    then false
    else false

-- One session is newer than another: a higher epoch, or the same and a later timestamp.
abbrev pub IsNewer : SessionMeta → SessionMeta → Type 0
IsNewer a b =
    (b.epoch < a.epoch) ⊎ ((b.epoch ≡ a.epoch) × (b.connect_timestamp < a.connect_timestamp))

-- The local session yields exactly to a newer remote one.
pub resolve-IsNewer :
    (local remote : SessionMeta) → (resolve local remote ≡ true) ↔ IsNewer remote local
unfolding resolve
resolve-IsNewer local remote = ground arith

-- Two nodes that resolve the same conflict, each from its side, never both yield; and one of them
-- does, unless epoch and timestamp are both equal, when both keep their session.
pub resolve_both_sides :
    (a b : SessionMeta)
    → ((resolve a b ≡ true) × (resolve b a ≡ false))
      ⊎ (((resolve a b ≡ false) × (resolve b a ≡ true))
          ⊎ ((a.epoch ≡ b.epoch)
              × (a.connect_timestamp ≡ b.connect_timestamp)
              × (resolve a b ≡ false)
              × (resolve b a ≡ false)))
unfolding resolve
resolve_both_sides a b = ground arith
