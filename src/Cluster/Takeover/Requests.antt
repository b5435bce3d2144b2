-- ===== src/Cluster/Takeover/Requests.antt =====
-- What a node does on another node's takeover request.
use dmqtt.Base.{
  Bytes, [], ◌∷◌, ◌==◌, bytes_eq, if◌then◌else◌, none, some, true, false, ◌≡◌, ◌⊎◌, inl, inr, arith,
  Option-cases, Bool-cases,
}
use dmqtt.Base.Map.{lookup, lookup-erase}
use dmqtt.Cluster.Conflict.{SessionMeta, resolve, IsNewer, resolve-IsNewer}
use dmqtt.Cluster.Takeover.{
  TakeoverRequest, TakeoverManager, disconnect_device, answer, remote_meta, no_reason,
  local_session_wins, handle_takeover_request,
}

-- A request for a client with no session here is granted and changes nothing. One for a client with
-- an older session is granted: the session is removed, no other is touched, and the client is
-- disconnected before the answer goes out. Otherwise it is refused, and the session stays.
pub handle_takeover_request_cases :
    (tm : TakeoverManager) (req : TakeoverRequest) (other : Bytes)
    → ((lookup req.client_id tm.sessions ≡ none)
        × (handle_takeover_request tm req ≡ (tm, answer req true no_reason ∷ [])))
      ⊎ (((local : SessionMeta) × (lookup req.client_id tm.sessions ≡ some local)
            × IsNewer (remote_meta req) local
            × ((handle_takeover_request tm req).1
                ≡ disconnect_device req.client_id ∷ answer req true no_reason ∷ [])
            × (lookup other (handle_takeover_request tm req).0.sessions
                ≡ (if req.client_id == other then none else lookup other tm.sessions)))
          ⊎ ((local : SessionMeta) × (lookup req.client_id tm.sessions ≡ some local)
              × ¬ IsNewer (remote_meta req) local
              × (handle_takeover_request tm req ≡ (tm, answer req false local_session_wins ∷ []))))
unfolding handle_takeover_request
handle_takeover_request_cases tm req other =
    elim (Option-cases (lookup req.client_id tm.sessions)) [
      | inl e ↦ inl (e, rw (e, handle_takeover_request))
      | inr (local, e) ↦ inr (elim (Bool-cases (resolve local (remote_meta req))) [
        | inl t ↦ inl (
          local,
          e,
          (resolve-IsNewer local (remote_meta req)).0 t,
          rw (e, handle_takeover_request) (rw t),
          rw (e, handle_takeover_request) (rw t (lookup-erase req.client_id other tm.sessions)),
        )
        | inr f ↦ inr (
          local,
          e,
          (λ newer. ground (arith, (resolve-IsNewer local (remote_meta req)).1 newer)),
          rw (e, handle_takeover_request) (rw f),
        )
      ])
    ]
