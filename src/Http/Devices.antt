-- ===== src/Http/Devices.antt =====
-- internal/httpapi/server.go: the handlers for devices, with the requests to other nodes as a
-- parameter: what a node answers, or nothing where the request fails or takes too long.
use dmqtt.Base.{
  ℕ, ◌+◌, ◌*◌, ◌-◌, Bytes, List, [], ◌∷◌, length, take, drop, ltb, leb, nat_beq, ◌==◌, bytes_eq,
  if◌then◌else◌, Bool, true, false, ◌&&◌, ◌||◌, not, Option, none, some, codes,
}
use dmqtt.Base.Map.{Map, lookup}
use dmqtt.Admin.Search.{is_prefix}
use dmqtt.Http.{
  Method, get, post, Request, ClientInfo, SessionData, NodeInfo, BrokerApi, ClusterApi, Server,
  DeviceSummary, DeviceDetail, nothing, no_broker, device_not_found, disconnected, device_list,
  device_detail, Response, respond, value_of, self_id, devices_prefix,
}

-- `strconv.Atoi` with its error ignored, on what no caller tells apart: 0 stands for every number
-- below 1 and for a text that is no number.
abbrev digits_from : Bytes → ℕ → Option ℕ
digits_from [] n = some n
digits_from (c ∷ s) n =
    let rest = digits_from s (n * 10 + (c - b'0')) in
    if leb b'0' c && leb c b'9' then rest else none

unfoldable pub atoi : Bytes → ℕ
atoi [] = 0
atoi (c ∷ s) =
    elim (if nat_beq c b'+' && not (s == []) then digits_from s 0 else digits_from (c ∷ s) 0) [
      | none ↦ 0
      | some n ↦ n
    ]

unfoldable pub page_number : ℕ → ℕ
page_number n = if ltb n 1 then 1 else if ltb 10000 n then 10000 else n

unfoldable pub page_size : ℕ → ℕ
page_size n = if ltb n 1 then 20 else if ltb 100 n then 100 else n

-- Go's order of strings, by their bytes.
unfoldable pub string_leb : Bytes → Bytes → Bool
string_leb [] t = true
string_leb (c ∷ s) [] = false
string_leb (c ∷ s) (d ∷ t) = ltb c d || (nat_beq c d && string_leb s t)

unfoldable pub insert_string : Bytes → List Bytes → List Bytes
insert_string s [] = s ∷ []
insert_string s (t ∷ ts) = if string_leb s t then s ∷ t ∷ ts else t ∷ insert_string s ts

-- `sort.Strings`
unfoldable pub sort_strings : List Bytes → List Bytes
sort_strings [] = []
sort_strings (s ∷ ss) = insert_string s (sort_strings ss)

-- `ids[start:end]` of a page; the products stay far below 2^63.
unfoldable pub page_ids : List Bytes → ℕ → ℕ → List Bytes
page_ids ids page per_page =
    let total = length ids in
    let from = (page - 1) * per_page in
    let start = if ltb total from then total else from in
    let end = if ltb total (start + per_page) then total else start + per_page in
    take (end - start) (drop start ids)

abbrev keys : Map Bytes ℕ → List Bytes
keys [] = []
keys ((topic, qos) ∷ m) = topic ∷ keys m

-- The subscriptions of a session; the order of a Go map is any.
unfoldable pub topics_of : Option SessionData → List Bytes
topics_of none = []
topics_of (some sess) = keys sess.subscriptions

-- A device that has left in the meantime is left out.
unfoldable pub summaries : BrokerApi → List Bytes → List DeviceSummary
summaries api [] = []
summaries api (id ∷ ids) =
    let rest = summaries api ids in
    elim (lookup id api.client_info) [
      | none ↦ rest
      | some info ↦
          record { info = info; subscriptions = topics_of (lookup id api.session_data) } ∷ rest
    ]

unfoldable pub handle_devices : Server → Request → Response
handle_devices s r = elim s.broker_api [
  | none ↦ respond 503 no_broker
  | some api ↦
      let page = page_number (atoi (value_of r.query (codes "page"))) in
      let per_page = page_size (atoi (value_of r.query (codes "per_page"))) in
      let ids = sort_strings api.connected_client_ids in
      respond 200 (
        device_list (record {
          devices = summaries api (page_ids ids page per_page);
          total = length ids;
          page = page;
          per_page = per_page;
          node_id = self_id s;
        }))
]

-- Whether a member is asked: not the node itself, and only if it has an HTTP port.
unfoldable pub is_asked : ClusterApi → NodeInfo → Bool
is_asked c node = not (node.id == c.self.id) && not (nat_beq node.http_port 0)

-- `proxyDeviceDetail` and `proxyDeviceDisconnect`: the answer is passed on unless it is 404.
unfoldable pub proxy : Option Response → Option Response
proxy none = none
proxy (some answer) = if nat_beq answer.status 404 then none else some answer

-- The loop over the members, up to the first that has the device.
unfoldable pub ask_members :
    ClusterApi → (NodeInfo → Option Response) → List NodeInfo → Option Response
ask_members c ask [] = none
ask_members c ask (node ∷ rest) =
    let others = ask_members c ask rest in
    if is_asked c node
    then (elim (proxy (ask node)) [ none ↦ others | some answer ↦ some answer ])
    else others

-- What happens to a request for a device that is not connected here.
unfoldable pub elsewhere : Server → (NodeInfo → Option Response) → Response
elsewhere s ask = elim s.cluster_api [
  | none ↦ respond 404 device_not_found
  | some c ↦ elim (ask_members c ask c.members) [
    | none ↦ respond 404 device_not_found
    | some answer ↦ answer
  ]
]

-- `strings.TrimPrefix(path, prefix)`
unfoldable pub trim_prefix : Bytes → Bytes → Bytes
trim_prefix prefix path = if is_prefix prefix path then drop (length prefix) path else path

-- `strings.SplitN(path, "/", 2)`: the first part, and the rest after a slash if there is one.
unfoldable pub split_two : Bytes → Bytes × Option Bytes
split_two [] = ([], none)
split_two (c ∷ s) =
    let (first, rest) = split_two s in if nat_beq c b'/' then ([], some s) else (c ∷ first, rest)

unfoldable pub is_disconnect : Option Bytes → Method → Bool
is_disconnect (some action) post = action == codes "disconnect"
is_disconnect (some action) _ = false
is_disconnect none method = false

unfoldable pub detail_of : BrokerApi → Bytes → ClientInfo → DeviceDetail
detail_of api id info = record {
  info = info;
  connected = true;
  session = lookup id api.session_data;
}

-- `ask` is the request to a node for the same device and action. The second result is the device that
-- `DisconnectDevice` is called for.
unfoldable pub handle_device :
    Server
    → BrokerApi
    → (NodeInfo → Option Response)
    → Bytes
    → Option Bytes
    → Method
    → Response × Option Bytes
handle_device s api ask id action method =
    if is_disconnect action method
    then (elim (lookup id api.client_info) [
      | none ↦ (elsewhere s ask, none)
      | some info ↦ (respond 200 disconnected, some id)
    ])
    else (elim method [
      | get ↦ elim (lookup id api.client_info) [
        | none ↦ (elsewhere s ask, none)
        | some info ↦ (respond 200 (device_detail (detail_of api id info)), none)
      ]
      | _ ↦ (respond 405 nothing, none)
    ])

unfoldable pub handle_parts :
    Server
    → BrokerApi
    → (NodeInfo → Option Response)
    → Request
    → Bytes × Option Bytes
    → Response × Option Bytes
handle_parts s api ask r (id, action) =
    if id == [] then (handle_devices s r, none) else handle_device s api ask id action r.method

unfoldable pub handle_with :
    Server → (NodeInfo → Option Response) → Request → Option BrokerApi → Response × Option Bytes
handle_with s ask r none = (respond 503 no_broker, none)
handle_with s ask r (some api) =
    handle_parts s api ask r (split_two (trim_prefix devices_prefix r.path))

unfoldable pub handle_device_by_id :
    Server → (NodeInfo → Option Response) → Request → Response × Option Bytes
handle_device_by_id s ask r = handle_with s ask r s.broker_api
