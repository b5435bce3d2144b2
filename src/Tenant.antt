-- ===== src/Tenant.antt =====
-- internal/tenant/tenant.go and manager.go: the tenants, their quotas, and which client belongs to which.
-- A tenant's number of connections is an int64 that may fall below zero: it is kept as the number of
-- its increments and the number of its decrements.
pub mod Topics
pub mod Isolation
pub mod Quota
pub mod Overlaps
mod Runs
use dmqtt.Base.{
  ℕ, suc, ◌+◌, Bytes, List, [], ◌∷◌, length, ltb, leb, ◌==◌, bytes_eq, if◌then◌else◌, Bool, true,
  false, not, ◌&&◌, ◌||◌, Option, none, some,
}
use dmqtt.Base.Map.{Map, lookup, insert, erase}

pub record Tenant : Type 0 where
  pub id : Bytes
  pub max_connections : ℕ
  pub max_message_rate : ℕ
  pub max_message_size : ℕ
  pub topic_prefix : Bytes

-- The errors of this package.
pub data Error : Type 0 where
  empty_tenant_id quota_exhausted message_too_large rate_limit_exceeded : Error
  duplicate_tenant_id : Bytes → Error

pub data Result {ℓ} (A : Type ℓ) : Type ℓ where
  done : A → Result A
  failed : Error → Result A

-- The loop of `ParseTenants` over the decoded file, with the names in `seen`.
pub check_tenants : List Tenant → Map Bytes Bool → Result (List Tenant)
check_tenants [] seen = done []
check_tenants (t ∷ ts) seen =
    let prefixed = if t.topic_prefix == [] then record t { topic_prefix = t.id } else t in
    let rest = check_tenants ts (insert t.id true seen) in
    if t.id == [] then failed empty_tenant_id else elim (lookup t.id seen) [
      | some b ↦ failed (duplicate_tenant_id t.id)
      | none ↦ elim rest [ done checked ↦ done (prefixed ∷ checked) | failed e ↦ failed e ]
    ]

unfoldable pub parse_tenants : List Tenant → Result (List Tenant)
unfolding check_tenants
parse_tenants ts = check_tenants ts []

-- golang.org/x/time/rate: limiters of a rate, which `allow` asks at a time.
pub record RateLibrary : Type 1 where
  pub Limiter : Type 0
  pub of_rate : ℕ → Limiter
  pub infinite : Limiter
  pub allow : Limiter → ℕ → Limiter × Bool

pub record TenantState (L : Type 0) : Type 0 where
  pub config : Tenant
  pub increments : ℕ
  pub decrements : ℕ
  pub rate_limiter : L

-- `default_state` is the package's variable defaultTenant.
pub record TenantManager (L : Type 0) : Type 0 where
  pub tenants : Map Bytes (TenantState L)
  pub default_state : TenantState L
  pub clients : Map Bytes Bytes

abbrev pub or_default {ℓ} : {A : Type ℓ} → A → Option A → A
or_default d none = d
or_default d (some a) = a

module _ (R : RateLibrary) where
  abbrev pub Manager : Type 0
  Manager = TenantManager R.Limiter

  abbrev pub State : Type 0
  State = TenantState R.Limiter

  unfoldable pub new_manager : Manager
  new_manager = record {
    tenants = [];
    default_state = record {
      config = record {
        id = [];
        max_connections = 0;
        max_message_rate = 0;
        max_message_size = 0;
        topic_prefix = [];
      };
      increments = 0;
      decrements = 0;
      rate_limiter = R.infinite;
    };
    clients = [];
  }

  unfoldable pub limiter_of : Tenant → R.Limiter
  limiter_of t = if ltb 0 t.max_message_rate then R.of_rate t.max_message_rate else R.infinite

  -- The state of one tenant of the new file: an existing one keeps its connections.
  unfoldable pub loaded_state : Map Bytes State → Tenant → State
  loaded_state old t = elim (lookup t.id old) [
    | some existing ↦ record existing { config = t; rate_limiter = limiter_of t }
    | none ↦ record { config = t; increments = 0; decrements = 0; rate_limiter = limiter_of t }
  ]

  unfoldable pub load_loop : Map Bytes State → List Tenant → Map Bytes State → Map Bytes State
  load_loop old [] new = new
  load_loop old (t ∷ ts) new = load_loop old ts (insert t.id (loaded_state old t) new)

  unfoldable pub load_tenants : Manager → List Tenant → Result Manager
  load_tenants m decoded = elim (parse_tenants decoded) [
    | failed e ↦ failed e
    | done parsed ↦ done (record m { tenants = load_loop m.tenants parsed [] })
  ]

  unfoldable pub tenant_count : Manager → ℕ
  tenant_count m = length m.tenants

  -- The state of a tenant of the table; the empty name has none.
  unfoldable pub find_tenant : Manager → Bytes → Option State
  find_tenant m tenant = if tenant == [] then none else lookup tenant m.tenants

  unfoldable pub get_state : Manager → Bytes → State
  get_state m tenant = or_default m.default_state (find_tenant m tenant)

  -- A write to what `get_state` points to.
  unfoldable pub set_state : Manager → Bytes → State → Manager
  set_state m tenant s = elim (find_tenant m tenant) [
    | none ↦ record m { default_state = s }
    | some old ↦ record m { tenants = insert tenant s m.tenants }
  ]

  -- The first part of `TryConnect`: whether the quota lets one more connection in. Between it and the
  -- second part other goroutines can run.
  unfoldable pub has_room : Manager → Bytes → Bool
  has_room m tenant =
      let s = get_state m tenant in
      not (
        ltb 0 s.config.max_connections
        && leb (s.decrements + s.config.max_connections) s.increments)

  unfoldable pub open_connection : Manager → Bytes → Bytes → Manager
  open_connection m client tenant =
      let s = get_state m tenant in
      let counted = set_state m tenant (record s { increments = suc s.increments }) in
      record counted { clients = insert client tenant counted.clients }

  -- Both parts with nothing between them.
  unfoldable pub try_connect : Manager → Bytes → Bytes → Result Manager
  try_connect m client tenant =
      if has_room m tenant then done (open_connection m client tenant) else failed quota_exhausted

  unfoldable pub on_disconnect : Manager → Bytes → Manager
  on_disconnect m client = elim (lookup client m.clients) [
    | none ↦ m
    | some tenant ↦
        let left = record m { clients = erase client m.clients } in
        let s = get_state left tenant in
        set_state left tenant (record s { decrements = suc s.decrements })
  ]

  -- The limiter is asked, and so changed, only when the size is allowed.
  unfoldable pub check_publish : Manager → Bytes → ℕ → ℕ → Manager × Option Error
  check_publish m client payload_size now = elim (lookup client m.clients) [
    | none ↦ (m, none)
    | some tenant ↦
        let s = get_state m tenant in
        let (limiter, allowed) = R.allow s.rate_limiter now in
        let asked = set_state m tenant (record s { rate_limiter = limiter }) in
        if ltb 0 s.config.max_message_size && ltb s.config.max_message_size payload_size
        then (m, some message_too_large)
        else (asked, if allowed then none else some rate_limit_exceeded)
  ]

  unfoldable pub get_topic_prefix : Manager → Bytes → Bytes
  get_topic_prefix m client = elim (lookup client m.clients) [
    | none ↦ []
    | some tenant ↦ (get_state m tenant).config.topic_prefix
  ]

  -- An unknown client reads as the tenant with the empty name.
  unfoldable pub get_tenant_id : Manager → Bytes → Bytes
  get_tenant_id m client = elim (lookup client m.clients) [ none ↦ [] | some tenant ↦ tenant ]

  -- The number as a pair, what was opened and what was closed.
  unfoldable pub active_connections : Manager → Bytes → ℕ × ℕ
  active_connections m tenant = let s = get_state m tenant in (s.increments, s.decrements)
