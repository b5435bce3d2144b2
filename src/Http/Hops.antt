-- ===== src/Http/Hops.antt =====
-- internal/httpapi/server.go: a request for a device that no node has, in a cluster of nodes that each
-- know the others.
use dmqtt.Base.{
  ℕ, zero, suc, ◌≡◌, Bytes, List, [], ◌∷◌, bytes_eq, ◌==◌, ◌||◌, Bool, true, false, Option, none,
  some, if◌then◌else◌, codes,
}
use dmqtt.Base.Map.{lookup}
use dmqtt.Http.{
  Request, NodeInfo, BrokerApi, ClusterApi, Server, Response, respond, device_not_found, value_of,
  auth_wrap,
}
use dmqtt.Http.Devices.{is_asked, ask_members, handle_device_by_id}

-- What a request for a device is answered on a node, if the nodes pass it on in turn, `hops` times one
-- inside the other with the first; a request that would be passed on once more gets `last`.
unfoldable pub passed_on :
    (NodeInfo → Server) → (NodeInfo → Option Response) → Request → ℕ → NodeInfo → Option Response
passed_on cluster last r zero node = last node
passed_on cluster last r (suc hops) node =
    let s = cluster node in
    some (auth_wrap s r (handle_device_by_id s (passed_on cluster last r hops) r).0)

abbrev pub any_asked : ClusterApi → List NodeInfo → Bool
any_asked c [] = false
any_asked c (node ∷ rest) = is_asked c node || any_asked c rest

-- A node that serves without a key, does not have the device, and has a member to ask.
pub record Lacks (s : Server) (id : Bytes) : Type 0 where
  pub api : BrokerApi
  pub cluster : ClusterApi
  pub is_open : s.api_key ≡ []
  pub has_api : s.broker_api ≡ some api
  pub has_cluster : s.cluster_api ≡ some cluster
  pub is_absent : lookup id api.client_info ≡ none
  pub asks : any_asked cluster cluster.members ≡ true

-- What a node without the device answers, by its API of the cluster, and whether a key lets a request
-- pass.
abbrev asked_of : (NodeInfo → Option Response) → Option ClusterApi → Response
asked_of ask cluster = elim cluster [
  | none ↦ respond 404 device_not_found
  | some c ↦ elim (ask_members c ask c.members) [
    | none ↦ respond 404 device_not_found
    | some answer ↦ answer
  ]
]

abbrev is_open_to : Bytes → Request → Bool
is_open_to key r =
    let header = value_of r.headers (codes "X-API-Key") in
    let given = if header == [] then value_of r.query (codes "api_key") else header in
    if key == [] then true else given == key
