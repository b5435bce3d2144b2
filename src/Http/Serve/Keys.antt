-- ===== src/Http/Serve/Keys.antt =====
-- What the key of the API guards.
use dmqtt.Base.{
  ◌≡◌, ◌≢◌, ◌⊎◌, refl, ap, subst, sym, ◌∙◌, ℕ, Option, List, Bytes, [], ◌∷◌, ◌++◌, Bool, true,
  false, not, ◌&&◌, none, some, ◌==◌, bytes_eq, bytes_beq_iff, if◌then◌else◌, arith, codes, inl,
  inr, Bool-cases, Option-cases, nat_beq_iff,
}
use dmqtt.Base.Map.{Map, lookup}
use dmqtt.Admin.Search.{is_prefix}
use dmqtt.Http.{
  Method, get, post, other, self_id, Request, Server, respond, unauthorized, nothing, is_authorized,
  value_of, Route, exact_routes, migrations_prefix, devices_prefix, admin_prefix, route, health,
  ready, metrics, admin, moved, cluster_devices, cluster_stats, migration_list, migration_by_id,
  device_pages, device_by_id, stats, node_list, not_found,
}
use dmqtt.Broker.Topic.{split}
use dmqtt.Cluster.Migration.{MigrationCoordinator}
use dmqtt.Http.Devices as Devices
use dmqtt.Http.Devices.{trim_prefix, handle_devices, handle_device_by_id, handle_device, elsewhere}
use dmqtt.Http.ClusterViews.{
  handle_cluster_devices, handle_cluster_stats, local_stats, local_totals, cluster_totals,
}
use dmqtt.Http.Migrations as Migrations
use dmqtt.Http.Migrations.{
  is_cancel, handle_parts, handle_with, handle_migrations, handle_migration_by_id,
}
use dmqtt.Http.Serve.{
  Surroundings, Answer, answer, Served, handle, needs_key, serve, handle_stats, stats_of,
  handle_nodes, handle_ready,
}

-- The key of a request: that of the header, or without one that of the query.
unfoldable pub key_of : Request → Bytes
key_of r =
    let header = value_of r.headers (codes "X-API-Key") in
    if header == [] then value_of r.query (codes "api_key") else header

abbrev pub api_prefix : Bytes
api_prefix = codes "/api/v1/"

-- What a request without the key is answered.
abbrev pub refusal : Route → Answer
refusal not_found = answer (respond 404 nothing)
refusal _ = answer (respond 401 unauthorized)

-- The server gets its key back.
abbrev pub with_key : Bytes → Served → Served
with_key key (a, s, device) = (a, record s { api_key = key }, device)

is_authorized-key_of :
    (s : Server) (r : Request) → s.api_key ≢ [] → is_authorized s r ≡ (key_of r == s.api_key)
unfolding is_authorized key_of
is_authorized-key_of s r h = ground (arith, bytes_beq_iff s.api_key [])

-- `agree b c`: both or neither.
abbrev agree : Bool → Bool → Bool
agree b c = if b then c else not c

abbrev all_agree : Map Bytes Route → Bool
all_agree [] = true
all_agree ((path, r) ∷ m) = agree (needs_key r) (is_prefix api_prefix path) && all_agree m

unwrapped : (v r : Route) → some v ≡ some r → v ≡ r
unwrapped v r e = cc

lookup-agree :
    (m : Map Bytes Route) (path : Bytes) (r : Route)
    → all_agree m ≡ true
    → lookup path m ≡ some r
    → agree (needs_key r) (is_prefix api_prefix path) ≡ true
unfolding lookup
lookup-agree [] path r h e = absurd (ground arith)
lookup-agree ((k, v) ∷ m) path r h e = elim (Bool-cases (k == path)) [
  | inl here ↦
      subst (λ p. agree (needs_key r) (is_prefix api_prefix p) ≡ true)
        ((bytes_beq_iff k path).0 here)
        (subst (λ q. agree (needs_key q) (is_prefix api_prefix k) ≡ true)
          (unwrapped v r (ap (λ b. if b then some v else lookup path m) (sym here) ∙ e))
          (ground arith))
  | inr there ↦
      lookup-agree m path r (ground arith)
        (ap (λ b. if b then some v else lookup path m) (sym there) ∙ e)
]

prefix_split : (p path : Bytes) → is_prefix p path ≡ true → (rest : Bytes) × (path ≡ p ++ rest)
prefix_split [] path h = (path, refl)
prefix_split (c ∷ p) [] h = absurd (ground arith)
prefix_split (c ∷ p) (d ∷ path) h =
    let (rest, e) = prefix_split p path (ground arith) in
    (rest, ap (◌∷◌ d) e ∙ ap (λ x. x ∷ (p ++ rest)) (sym ((nat_beq_iff c d).0 (ground arith))))

-- Paths that start alike are alike below /api/v1/ or not.
prefix_of :
    (p path : Bytes) (b : Bool)
    → is_prefix p path ≡ true
    → ((rest : Bytes) → is_prefix api_prefix (p ++ rest) ≡ b)
    → is_prefix api_prefix path ≡ b
prefix_of p path b h all = let (rest, e) = prefix_split p path h in rw e (all rest)

-- The paths below /api/v1/ need the key, but for those without a handler; others do not.
needs_key-route :
    (path : Bytes)
    → ((is_prefix api_prefix path ≡ true)
        × ((needs_key (route path) ≡ true) ⊎ (route path ≡ not_found)))
      ⊎ ((is_prefix api_prefix path ≡ false) × (needs_key (route path) ≡ false))
unfolding route lookup
needs_key-route path = elim (Option-cases (lookup path exact_routes)) [
  | inr (r, e) ↦
      rw (e, needs_key)
        (elim (Bool-cases (needs_key r)) [
          | inl k ↦ inl (ground (arith, lookup-agree exact_routes path r refl e), inl k)
          | inr k ↦ inr (ground (arith, lookup-agree exact_routes path r refl e), k)
        ])
  | inl e ↦
      rw (e, needs_key)
        (elim (Bool-cases (is_prefix migrations_prefix path)) [
          | inl m ↦ rw m (inl (prefix_of migrations_prefix path true m (λ rest. refl), inl refl))
          | inr m ↦ elim (Bool-cases (is_prefix devices_prefix path)) [
            | inl d ↦
                rw (m, d) (inl (prefix_of devices_prefix path true d (λ rest. refl), inl refl))
            | inr d ↦ elim (Bool-cases (is_prefix admin_prefix path)) [
              | inl a ↦
                  rw (m, d, a) (inr (prefix_of admin_prefix path false a (λ rest. refl), refl))
              | inr a ↦
                  rw (m, d, a)
                    (elim (Bool-cases (is_prefix api_prefix path)) [
                      | inl p ↦ inl (p, inr refl)
                      | inr p ↦ inr (p, refl)
                    ])
            ]
          ]
        ])
]

parts-open :
    (s : Server) (mc : MigrationCoordinator) (m : Method) (parts : List Bytes) (now : ℕ)
    → let opened = handle_parts (record s { api_key = [] }) mc m parts now in
      let (response, s') = handle_parts s mc m parts now in
      with_key s.api_key (answer opened.0, opened.1, none) ≡ (answer response, s', none)
unfolding handle_parts Migrations.cancel_migration
parts-open s mc get parts now = elim (Bool-cases (is_cancel parts get)) [
  | inl e ↦ rw e refl
  | inr e ↦ rw e refl
]
parts-open s mc post parts now = elim (Bool-cases (is_cancel parts post)) [
  | inl e ↦ rw e refl
  | inr e ↦ rw e refl
]
parts-open s mc other parts now = elim (Bool-cases (is_cancel parts other)) [
  | inl e ↦ rw e refl
  | inr e ↦ rw e refl
]

migrations-open :
    (s : Server) (r : Request) (now : ℕ) (coordinator : Option MigrationCoordinator)
    → let opened = handle_with (record s { api_key = [] }) r now coordinator in
      let (response, s') = handle_with s r now coordinator in
      with_key s.api_key (answer opened.0, opened.1, none) ≡ (answer response, s', none)
unfolding handle_with
migrations-open s r now none = refl
migrations-open s r now (some mc) =
    parts-open s mc r.method (split (trim_prefix migrations_prefix r.path)) now

handle-open :
    (around : Surroundings) (s : Server) (r : Request) (rt : Route)
    → with_key s.api_key (handle around (record s { api_key = [] }) r rt) ≡ handle around s r rt
unfolding handle handle_cluster_devices handle_cluster_stats local_stats local_totals cluster_totals
    self_id handle_migrations handle_migration_by_id handle_devices handle_device_by_id
    Devices.handle_with Devices.handle_parts handle_device elsewhere handle_stats stats_of
    handle_nodes handle_ready
handle-open around s r cluster_devices = refl
handle-open around s r cluster_stats = refl
handle-open around s r migration_list = refl
handle-open around s r migration_by_id = migrations-open s r around.now s.coordinator
handle-open around s r device_pages = refl
handle-open around s r device_by_id = refl
handle-open around s r stats = refl
handle-open around s r node_list = refl
handle-open around s r health = refl
handle-open around s r ready = refl
handle-open around s r metrics = refl
handle-open around s r admin = refl
handle-open around s r moved = refl
handle-open around s r not_found = refl

refusal-needed : (rt : Route) → needs_key rt ≡ true → refusal rt ≡ answer (respond 401 unauthorized)
refusal-needed cluster_devices k = refl
refusal-needed cluster_stats k = refl
refusal-needed migration_list k = refl
refusal-needed migration_by_id k = refl
refusal-needed device_pages k = refl
refusal-needed device_by_id k = refl
refusal-needed stats k = refl
refusal-needed node_list k = refl
refusal-needed health k = refl
refusal-needed ready k = refl
refusal-needed metrics k = refl
refusal-needed admin k = refl
refusal-needed moved k = refl
refusal-needed not_found k = absurd (ground arith)

serve-open :
    (around : Surroundings) (s : Server) (r : Request)
    → serve around (record s { api_key = [] }) r
      ≡ handle around (record s { api_key = [] }) r (route r.path)
unfolding serve is_authorized
serve-open around s r = elim (Bool-cases (needs_key (route r.path))) [
  | inl k ↦ rw k refl
  | inr k ↦ rw k refl
]

serve-refused :
    (around : Surroundings) (s : Server) (r : Request)
    → s.api_key ≢ []
    → serve around s r ≡ (
        if needs_key (route r.path) && not (key_of r == s.api_key)
        then (answer (respond 401 unauthorized), s, none)
        else handle around s r (route r.path))
unfolding serve
serve-refused around s r h =
    rw (is_authorized-key_of s r h) (elim (Bool-cases (needs_key (route r.path))) [
      | inr k ↦ rw k refl
      | inl k ↦ elim (Bool-cases (key_of r == s.api_key)) [
        | inl e ↦ rw (k, e) refl
        | inr e ↦ rw (k, e) refl
      ]
    ])

-- What is refused below /api/v1/.
prefixed_refused :
    (around : Surroundings) (s : Server) (r : Request) (rt : Route) (wrong : Bool)
    → (needs_key rt ≡ true) ⊎ (rt ≡ not_found)
    → (if needs_key rt && wrong
        then (answer (respond 401 unauthorized), s, none)
        else handle around s r rt)
      ≡ (if wrong then (refusal rt, s, none) else handle around s r rt)
unfolding handle
prefixed_refused around s r rt true (inl k) = rw (k, refusal-needed rt k) refl
prefixed_refused around s r rt false (inl k) = rw k refl
prefixed_refused around s r rt true (inr e) = rw e refl
prefixed_refused around s r rt false (inr e) = rw e refl

-- On a server with a key, a request for a path below /api/v1/ that has another key or none is answered
-- with 401, or with 404 where no handler has the path; it disconnects no device and leaves the server as
-- it is. Every other request is answered as by the same server without a key, with the same effects.
pub serve-key_of :
    (around : Surroundings) (s : Server) (r : Request)
    → s.api_key ≢ []
    → serve around s r ≡ (
        if is_prefix api_prefix r.path && not (key_of r == s.api_key)
        then (refusal (route r.path), s, none)
        else with_key s.api_key (serve around (record s { api_key = [] }) r))
serve-key_of around s r h =
    let wrong = not (key_of r == s.api_key) in
    serve-refused around s r h
    ∙ rw (serve-open around s r, handle-open around s r (route r.path))
        (elim (needs_key-route r.path) [
          | inr (p, k) ↦ rw (p, k) refl
          | inl (p, n) ↦ rw p (prefixed_refused around s r (route r.path) wrong n)
        ])
