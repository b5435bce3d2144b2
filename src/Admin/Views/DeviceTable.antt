-- ===== src/Admin/Views/DeviceTable.antt =====
-- web/admin/src/views/Devices.vue: the template of the list of devices. `format_time` is the
-- formatting of a date in the browser's own locale, `to_lower` its toLowerCase.
use dmqtt.Base.{
  Bytes, List, [], ◌∷◌, ◌++◌, length, map, ◌==◌, bytes_eq, if◌then◌else◌, false, none, some, codes,
}
use dmqtt.Base.Nested.{or_empty, is_empty}
use dmqtt.Broker.Dedup.{decimal}
use dmqtt.Admin.Devices.{DeviceSummary, DevicesPage}
use dmqtt.Admin.Search.{filtered_devices, format_protocol}
use dmqtt.Admin.Views.{key, filled, raw, Item, text, tag, button, shown_if}

unfoldable pub search_bar : List Item
search_bar =
    text (key (codes "devices") (codes "searchPlaceholder"))
    ∷ button false (key (codes "common") (codes "search"))
    ∷ button false (key (codes "common") (codes "refresh"))
    ∷ []

unfoldable pub device_columns : DevicesPage → List Item
device_columns page =
    text (key (codes "devices") (codes "deviceId"))
      ∷ shown_if page.cluster_mode (text (key (codes "devices") (codes "nodeLocation")) ∷ [])
    ++ (text (key (codes "devices") (codes "subscribedTopics"))
        ∷ text (key (codes "devices") (codes "ipAddress"))
        ∷ text (key (codes "devices") (codes "protocolVersion"))
        ∷ text (key (codes "devices") (codes "connectTime"))
        ∷ text (key (codes "common") (codes "operations"))
        ∷ [])

-- The tag of the node a device is on; a missing name is no name, and shown as nothing.
unfoldable pub node_tag : DevicesPage → DeviceSummary → Item
node_tag page d = elim d.node_id [
  | none ↦ tag (codes "info") (raw [])
  | some id ↦ tag (if id == page.current_node_id then codes "success" else codes "info") (raw id)
]

abbrev pub topic_tag : Bytes → Item
topic_tag topic = tag (codes "warning") (raw topic)

unfoldable pub topic_cell : DeviceSummary → List Item
topic_cell d =
    if is_empty (or_empty d.subscriptions)
    then text (key (codes "common") (codes "none")) ∷ []
    else map topic_tag (or_empty d.subscriptions)

unfoldable pub device_cells : (Bytes → Bytes) → DevicesPage → DeviceSummary → List (List Item)
device_cells format_time page d =
    (text (raw d.client_id) ∷ []) ∷ shown_if page.cluster_mode ((node_tag page d ∷ []) ∷ [])
    ++ (topic_cell d
        ∷ (text (raw d.remote_addr) ∷ [])
        ∷ (text (raw (format_protocol d.protocol_version)) ∷ [])
        ∷ (text (raw (format_time d.connected_at)) ∷ [])
        ∷ (text (key (codes "devices") (codes "confirmDisconnect"))
            ∷ button false (key (codes "common") (codes "confirm"))
            ∷ button false (key (codes "common") (codes "cancel"))
            ∷ button false (key (codes "devices") (codes "disconnect"))
            ∷ [])
        ∷ [])

unfoldable pub device_rows :
    (Bytes → Bytes) → (Bytes → Bytes) → DevicesPage → List (List (List Item))
device_rows to_lower format_time page =
    map (device_cells format_time page) (filtered_devices to_lower page.search_text page.devices)

unfoldable pub device_total : (Bytes → Bytes) → DevicesPage → Item
device_total to_lower page =
    let count = length (filtered_devices to_lower page.search_text page.devices) in
    text (filled (codes "devices") (codes "totalDevices") (codes "count") (decimal count count))
