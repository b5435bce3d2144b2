-- ===== src/Tenant/Quota.antt =====
-- The connections of a tenant against its quota.
use dmqtt.Base.{
  suc, ◌+◌, ◌≤◌, ◌<◌, ◌≡◌, refl, ◌⊎◌, Bytes, List, [], ◌∷◌, ◌==◌, bytes_eq, bytes_beq_iff,
  if◌then◌else◌, true, false, Bool-cases, Option-cases, inl, inr, none, some, arith,
}
use dmqtt.Base.Map.{Map, lookup, insert, erase, lookup-insert, beq_self}
use dmqtt.Tenant.{
  RateLibrary, Manager, State, Result, done, failed, find_tenant, get_state, set_state, has_room,
  open_connection, try_connect, on_disconnect,
}

pub data Call : Type 0 where
  connects : Bytes → Bytes → Call
  disconnects : Bytes → Call

module _ (R : RateLibrary) where
  pub find_tenant-insert :
      (m : Manager R) (t u : Bytes) (s : State R)
      → (t == []) ≡ false
      → find_tenant R (record m { tenants = insert t s m.tenants }) u
        ≡ (if t == u then some s else find_tenant R m u)
  unfolding find_tenant
  find_tenant-insert m t u s h = ground (
    arith,
    lookup-insert t u s m.tenants,
    bytes_beq_iff t u,
    bytes_beq_iff u [],
    bytes_beq_iff t [],
  )

  pub found_named :
      (m : Manager R) (t : Bytes) {s : State R} → find_tenant R m t ≡ some s → (t == []) ≡ false
  unfolding find_tenant
  found_named m t h = ground arith

  -- The two ways that a write can go.
  pub set_default :
      (m : Manager R) (t : Bytes) (s : State R)
      → find_tenant R m t ≡ none
      → set_state R m t s ≡ record m { default_state = s }
  unfolding set_state
  set_default m t s f = rw (f, set_state) refl

  pub set_named :
      (m : Manager R) (t : Bytes) (s : State R) {old : State R}
      → find_tenant R m t ≡ some old
      → set_state R m t s ≡ record m { tenants = insert t s m.tenants }
  unfolding set_state
  set_named m t s f = rw (f, set_state) refl

  pub find_tenant-default :
      (m : Manager R) (u : Bytes) (s : State R)
      → find_tenant R (record m { default_state = s }) u ≡ find_tenant R m u
  unfolding find_tenant
  find_tenant-default m u s = refl

  pub get_state-set_state :
      (m : Manager R) (t : Bytes) (s : State R) → get_state R (set_state R m t s) t ≡ s
  unfolding get_state
  get_state-set_state m t s = elim (Option-cases (find_tenant R m t)) [
    | inl f ↦ rw (set_default m t s f, get_state, find_tenant-default m t s, f) refl
    | inr (old, f) ↦
        rw
          (set_named m t s f, get_state, find_tenant-insert m t t s (found_named m t f), beq_self t)
          refl
  ]

  pub clients-set_state :
      (m : Manager R) (t : Bytes) (s : State R) → (set_state R m t s).clients ≡ m.clients
  clients-set_state m t s = elim (Option-cases (find_tenant R m t)) [
    | inl f ↦ rw (set_default m t s f) refl
    | inr (old, f) ↦ rw (set_named m t s f) refl
  ]

  -- What every name reads after a write: the state written, or what it read before.
  get_state-after :
      (m : Manager R) (t u : Bytes) (s : State R)
      → (get_state R (set_state R m t s) u ≡ s)
        ⊎ (get_state R (set_state R m t s) u ≡ get_state R m u)
  unfolding get_state
  get_state-after m t u s = elim (Option-cases (find_tenant R m t)) [
    | inl f ↦ rw (set_default m t s f) (shared (Option-cases (find_tenant R m u)))
    | inr (old, f) ↦ rw (set_named m t s f) (own f (Bool-cases (t == u)))
  ]
    where
      shared :
          (find_tenant R m u ≡ none) ⊎ ((v : State R) × (find_tenant R m u ≡ some v))
          → (get_state R (record m { default_state = s }) u ≡ s)
            ⊎ (get_state R (record m { default_state = s }) u ≡ get_state R m u)
      shared (inl e) = inl (rw (get_state, find_tenant-default m u s, e) refl)
      shared (inr (v, e)) = inr (rw (get_state, find_tenant-default m u s, e) refl)

      own :
          {old : State R}
          → find_tenant R m t ≡ some old
          → ((t == u) ≡ true) ⊎ ((t == u) ≡ false)
          → (get_state R (record m { tenants = insert t s m.tenants }) u ≡ s)
            ⊎ (get_state R (record m { tenants = insert t s m.tenants }) u ≡ get_state R m u)
      own f (inl e) = inl (rw (get_state, find_tenant-insert m t u s (found_named m t f), e) refl)
      own f (inr e) = inr (rw (get_state, find_tenant-insert m t u s (found_named m t f), e) refl)

  -- A state in which the quota holds.
  abbrev pub HasQuota : State R → Type 0
  HasQuota s = 0 < s.config.max_connections → s.increments ≤ s.decrements + s.config.max_connections

  -- Every tenant keeps its quota.
  abbrev pub KeepsQuota : Manager R → Type 0
  KeepsQuota m = (t : Bytes) → HasQuota (get_state R m t)

  set_state-KeepsQuota :
      (m : Manager R) (t : Bytes) (s : State R)
      → HasQuota s
      → KeepsQuota m
      → KeepsQuota (set_state R m t s)
  set_state-KeepsQuota m t s hs hm u = elim (get_state-after m t u s) [
    | inl e ↦ rw e hs
    | inr e ↦ rw e (hm u)
  ]

  -- The tenants and the default state alone decide what a name reads.
  pub get_state-clients :
      (m : Manager R) (u : Bytes) (cs : Map Bytes Bytes)
      → get_state R (record m { clients = cs }) u ≡ get_state R m u
  unfolding get_state find_tenant
  get_state-clients m u cs = refl

  -- One more connection, and one fewer.
  abbrev pub one_more : State R → State R
  one_more s = record s { increments = suc s.increments }

  abbrev pub one_fewer : State R → State R
  one_fewer s = record s { decrements = suc s.decrements }

  open_connection-KeepsQuota :
      (m : Manager R) (client tenant : Bytes)
      → has_room R m tenant ≡ true
      → KeepsQuota m
      → KeepsQuota (open_connection R m client tenant)
  unfolding open_connection has_room
  open_connection-KeepsQuota m client tenant room h u =
      rw
        (get_state-clients (set_state R m tenant (one_more (get_state R m tenant))) u
          (insert client tenant (set_state R m tenant (one_more (get_state R m tenant))).clients))
        (set_state-KeepsQuota m tenant (one_more (get_state R m tenant)) (λ bounded. ground arith) h
          u)

  unfoldable pub left : Manager R → Bytes → Manager R
  left m client = record m { clients = erase client m.clients }

  pub on_disconnect-known :
      (m : Manager R) (client : Bytes) {tenant : Bytes}
      → lookup client m.clients ≡ some tenant
      → on_disconnect R m client
        ≡ set_state R (left m client) tenant (one_fewer (get_state R (left m client) tenant))
  unfolding on_disconnect left
  on_disconnect-known m client e = rw (e, on_disconnect) refl

  pub on_disconnect-unknown :
      (m : Manager R) (client : Bytes)
      → lookup client m.clients ≡ none
      → on_disconnect R m client ≡ m
  unfolding on_disconnect
  on_disconnect-unknown m client e = rw (e, on_disconnect) refl

  on_disconnect-KeepsQuota :
      (m : Manager R) (client : Bytes) → KeepsQuota m → KeepsQuota (on_disconnect R m client)
  unfolding left get_state find_tenant
  on_disconnect-KeepsQuota m client h u = elim (Option-cases (lookup client m.clients)) [
    | inl e ↦ rw (on_disconnect-unknown m client e) (h u)
    | inr (tenant, e) ↦ rw (on_disconnect-known m client e) (
        set_state-KeepsQuota (left m client) tenant (one_fewer (get_state R (left m client) tenant))
          (λ bounded. omega (arith, h tenant bounded)) h u)
  ]

  -- The calls of the broker for its clients, one after the other; a refused connection changes nothing.
  abbrev pub or_same : Manager R → Result (Manager R) → Manager R
  or_same m (done m') = m'
  or_same m (failed e) = m

  unfoldable pub step : Manager R → Call → Manager R
  step m (connects client tenant) = or_same m (try_connect R m client tenant)
  step m (disconnects client) = on_disconnect R m client

  unfoldable pub run : Manager R → List Call → Manager R
  run m [] = m
  run m (c ∷ cs) = run (step m c) cs

  step-KeepsQuota : (m : Manager R) (c : Call) → KeepsQuota m → KeepsQuota (step m c)
  unfolding step try_connect
  step-KeepsQuota m (connects client tenant) h = elim (Bool-cases (has_room R m tenant)) [
    | inl e ↦ rw (step, try_connect, e) (open_connection-KeepsQuota m client tenant e h)
    | inr e ↦ rw (step, try_connect, e) h
  ]
  step-KeepsQuota m (disconnects client) h = on_disconnect-KeepsQuota m client h

  -- However clients connect and leave, one after the other, no tenant with a quota ever has more
  -- connections than it allows, if it has not at the start.
  pub run-KeepsQuota : (m : Manager R) (cs : List Call) → KeepsQuota m → KeepsQuota (run m cs)
  unfolding run
  run-KeepsQuota m [] h = h
  run-KeepsQuota m (c ∷ cs) h = run-KeepsQuota (step m c) cs (step-KeepsQuota m c h)
