-- ===== src/Tenant/Overlaps.antt =====
-- Connections of one client, or for the last free place of a tenant, that overlap.
use dmqtt.Base.{suc, ◌+◌, ◌<◌, ◌≡◌, refl, ap, ◌∙◌, Bytes, true, none, some, arith, bytes_eq, []}
use dmqtt.Base.Map.{lookup, beq_self, lookup-insert, lookup-erase}
use dmqtt.Tenant.{
  RateLibrary, Manager, find_tenant, get_state, set_state, has_room, open_connection, on_disconnect,
  get_topic_prefix,
}
use dmqtt.Tenant.Quota.{
  get_state-set_state, clients-set_state, get_state-clients, left, on_disconnect-known,
  on_disconnect-unknown, one_more, one_fewer,
}

module _ (R : RateLibrary) where
  get_state-open_connection :
      (m : Manager R) (client tenant : Bytes)
      → get_state R (open_connection R m client tenant) tenant ≡ one_more R (get_state R m tenant)
  unfolding open_connection
  get_state-open_connection m client tenant =
      get_state-clients R (set_state R m tenant (one_more R (get_state R m tenant))) tenant _
      ∙ get_state-set_state R m tenant (one_more R (get_state R m tenant))

  client-open_connection :
      (m : Manager R) (client tenant : Bytes)
      → lookup client (open_connection R m client tenant).clients ≡ some tenant
  unfolding open_connection
  client-open_connection m client tenant =
      rw
        (
          lookup-insert client client tenant
              (set_state R m tenant (one_more R (get_state R m tenant))).clients,
          beq_self client,
        )
        refl

  -- Two clients that ask for the last free place of a tenant at once, both before either is counted, are
  -- both let in: the tenant has one connection more than its quota.
  pub overlapping_connects :
      (m : Manager R) (first second tenant : Bytes)
      → 0 < (get_state R m tenant).config.max_connections
      → (get_state R m tenant).decrements + (get_state R m tenant).config.max_connections
        ≡ suc (get_state R m tenant).increments
      → let both = open_connection R (open_connection R m first tenant) second tenant in
        (has_room R m tenant ≡ true)
        × ((get_state R both tenant).increments
            ≡ suc (
                (get_state R both tenant).decrements
                + (get_state R both tenant).config.max_connections))
  unfolding has_room
  overlapping_connects m first second tenant bounded last_place = (
    ground arith,
    rw
        (
          get_state-open_connection (open_connection R m first tenant) second tenant,
          get_state-open_connection m first tenant,
        )
        (omega (arith, last_place)),
  )

  -- The mapping and the state after a connection ends whose client is known.
  clients-on_disconnect :
      (m : Manager R) (client : Bytes) {tenant : Bytes}
      → lookup client m.clients ≡ some tenant
      → lookup client (on_disconnect R m client).clients ≡ none
  unfolding left
  clients-on_disconnect m client {tenant} e =
      rw
        (
          on_disconnect-known R m client e,
          clients-set_state R (left R m client) tenant
              (one_fewer R (get_state R (left R m client) tenant)),
          lookup-erase client client m.clients,
          beq_self client,
        )
        refl

  state-on_disconnect :
      (m : Manager R) (client : Bytes) {tenant : Bytes}
      → lookup client m.clients ≡ some tenant
      → get_state R (on_disconnect R m client) tenant ≡ one_fewer R (get_state R m tenant)
  unfolding left get_state find_tenant
  state-on_disconnect m client {tenant} e =
      rw (on_disconnect-known R m client e)
        (get_state-set_state R (left R m client) tenant (one_fewer R (get_state R m tenant)))

  prefix_of_unknown :
      (m : Manager R) (client : Bytes)
      → lookup client m.clients ≡ none
      → get_topic_prefix R m client ≡ []
  unfolding get_topic_prefix
  prefix_of_unknown m client e = rw (e, get_topic_prefix) refl

  -- A client connects again before its old connection has ended, as in a session takeover on one node,
  -- and the old connection ends. The client then has no tenant: its topics get no prefix. When it ends
  -- itself nothing is released: of its two connections the tenant keeps one for good.
  pub reconnected :
      (m : Manager R) (client tenant : Bytes)
      → let again = open_connection R (open_connection R m client tenant) client tenant in
        let ended = on_disconnect R again client in
        (get_topic_prefix R ended client ≡ [])
        × (on_disconnect R ended client ≡ ended)
        × ((get_state R ended tenant).increments ≡ suc (suc (get_state R m tenant).increments))
        × ((get_state R ended tenant).decrements ≡ suc (get_state R m tenant).decrements)
  reconnected m client tenant =
      let again = open_connection R (open_connection R m client tenant) client tenant in
      let known = client-open_connection (open_connection R m client tenant) client tenant in
      let unknown = clients-on_disconnect again client known in
      let state : get_state R (on_disconnect R again client) tenant
          ≡ one_fewer R (one_more R (one_more R (get_state R m tenant))) =
        state-on_disconnect again client known
        ∙ ap (one_fewer R) (
            get_state-open_connection (open_connection R m client tenant) client tenant
            ∙ ap (one_more R) (get_state-open_connection m client tenant)) in
      (
        prefix_of_unknown (on_disconnect R again client) client unknown,
        on_disconnect-unknown R (on_disconnect R again client) client unknown,
        ap (λ s. s.increments) state,
        ap (λ s. s.decrements) state,
      )
