-- ===== src/Admin/Views/DeviceDrawer.antt =====
-- web/admin/src/views/Devices.vue: the template of the drawer with one device, with the formatting of
-- dates as a parameter.
use dmqtt.Base.{ℕ, Bytes, List, [], ◌∷◌, ◌++◌, map, if◌then◌else◌, Bool, none, some, codes}
use dmqtt.Base.Map.{Map}
use dmqtt.Broker.Dedup.{decimal}
use dmqtt.Admin.Devices.{DeviceDetail, DeviceSession, DevicesPage}
use dmqtt.Admin.Search.{format_protocol, subscription_list}
use dmqtt.Admin.Views.{Text, key, filled, raw, Item, text, tag, shown_if, flatten}
use dmqtt.Admin.Views.DeviceTable.{search_bar, device_columns, device_rows, device_total}

abbrev seconds_text : ℕ → Bytes
seconds_text s = decimal s s ++ codes "s"

abbrev flag_text : Bool → Bytes
flag_text b = if b then codes "true" else codes "false"

unfoldable pub drawer_title : DevicesPage → Item
drawer_title page =
    text (filled (codes "devices") (codes "deviceDetail") (codes "id") page.selected_id)

-- A label and what stands beside it.
abbrev pub described : Text → Text → List Item
described label content = text label ∷ text content ∷ []

unfoldable pub drawer_status : DeviceDetail → Item
drawer_status detail =
    if detail.connected
    then tag (codes "success") (key (codes "common") (codes "online"))
    else tag (codes "danger") (key (codes "common") (codes "offline"))

unfoldable pub drawer_items : (Bytes → Bytes) → DeviceDetail → List Item
drawer_items format_time detail =
    let d = detail.summary in
    described (key (codes "devices") (codes "deviceId")) (raw d.client_id)
    ++ described (key (codes "devices") (codes "username")) (raw d.username)
    ++ described (key (codes "devices") (codes "ipAddress")) (raw d.remote_addr)
    ++ described (key (codes "devices") (codes "protocolVersion"))
        (raw (format_protocol d.protocol_version))
    ++ described (key (codes "devices") (codes "connectTime")) (raw (format_time d.connected_at))
    ++ described (key (codes "devices") (codes "keepAlive")) (raw (seconds_text d.keep_alive))
    ++ (text (key (codes "common") (codes "status")) ∷ drawer_status detail ∷ [])

-- `label="过期时间"` stands in the template in every language.
unfoldable pub session_items : DeviceSession → List Item
session_items session =
    (text (key (codes "devices") (codes "sessionInfo")) ∷ [])
    ++ described (raw (codes "Clean Start")) (raw (flag_text session.clean_start))
    ++ described (raw (codes "过期时间")) (raw (seconds_text session.expiry_interval))
    ++ (text (key (codes "devices") (codes "subscription"))
        ∷ text (key (codes "devices") (codes "topic"))
        ∷ text (raw (codes "QoS"))
        ∷ [])

-- The drawer is empty until a device was loaded.
unfoldable pub drawer_body : (Bytes → Bytes) → DevicesPage → List Item
drawer_body format_time page = elim page.device_detail [
  | none ↦ []
  | some detail ↦
      let of_session : List Item = elim detail.session [
        | none ↦ []
        | some session ↦ session_items session
      ] in
      drawer_items format_time detail ++ of_session
]

abbrev pub subscription_items : Map Bytes ℕ → List Item
subscription_items [] = []
subscription_items ((topic, qos) ∷ subs) =
    text (raw topic) ∷ text (raw (decimal qos qos)) ∷ subscription_items subs

-- The whole page: the list of devices, and the drawer while it is open.
unfoldable pub devices_view : (Bytes → Bytes) → (Bytes → Bytes) → DevicesPage → List Item
devices_view to_lower format_time page =
    let table =
      device_columns page ++ flatten (map flatten (device_rows to_lower format_time page)) in
    let subscriptions = subscription_items (subscription_list page.device_detail) in
    let drawer = drawer_title page ∷ (drawer_body format_time page ++ subscriptions) in
    search_bar ++ (table ++ (device_total to_lower page ∷ shown_if page.drawer_visible drawer))
