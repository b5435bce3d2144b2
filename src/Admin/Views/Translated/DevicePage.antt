-- ===== src/Admin/Views/Translated/DevicePage.antt =====
-- The texts of the page of devices, in both languages.
use dmqtt.Base.{
  ℕ, refl, Bytes, List, [], ◌∷◌, ◌++◌, map, Bool, true, false, inl, inr, Bool-cases, Option-cases,
  codes,
}
use dmqtt.Base.Map.{Map, lookup}
use dmqtt.Base.Nested.{or_empty, is_empty}
use dmqtt.Admin.Locales.{message}
use dmqtt.Admin.Devices.{DeviceSummary, DeviceDetail, DeviceSession, DevicesPage}
use dmqtt.Admin.Search.{filtered_devices, format_protocol, subscription_list}
use dmqtt.Admin.Views.{
  key, filled, raw, Item, text, button, shown_if, flatten, has_text, all_have_text,
}
use dmqtt.Admin.Views.DeviceTable.{
  search_bar, device_columns, topic_tag, topic_cell, device_cells, device_rows, device_total,
  node_tag,
}
use dmqtt.Admin.Views.DeviceDrawer.{
  drawer_title, drawer_status, drawer_items, session_items, drawer_body, devices_view,
  subscription_items,
}
use dmqtt.Admin.Views.Translated.{
  Language, english, chinese, table_of, IsTranslated, append-IsTranslated, shown_if-IsTranslated,
  flatten_rows, cons-IsTranslated, nil-IsTranslated,
}

search_bar-IsTranslated : (lang : Language) → IsTranslated lang search_bar
unfolding IsTranslated all_have_text search_bar has_text message lookup table_of
search_bar-IsTranslated english = refl
search_bar-IsTranslated chinese = refl

device_columns-IsTranslated :
    (lang : Language) (page : DevicesPage) → IsTranslated lang (device_columns page)
unfolding IsTranslated all_have_text device_columns has_text message lookup table_of
device_columns-IsTranslated english page = elim (Bool-cases page.cluster_mode) [
  | inl e ↦ rw e refl
  | inr e ↦ rw e refl
]
device_columns-IsTranslated chinese page = elim (Bool-cases page.cluster_mode) [
  | inl e ↦ rw e refl
  | inr e ↦ rw e refl
]

node_tag-IsTranslated :
    (lang : Language) (page : DevicesPage) (d : DeviceSummary)
    → IsTranslated lang (node_tag page d ∷ [])
unfolding IsTranslated all_have_text node_tag has_text
node_tag-IsTranslated lang page d = elim (Option-cases d.node_id) [
  | inl e ↦ rw e refl
  | inr (id, e) ↦ rw e refl
]

topics-IsTranslated :
    (lang : Language) (topics : List Bytes) → IsTranslated lang (map topic_tag topics)
unfolding IsTranslated all_have_text has_text
topics-IsTranslated lang [] = refl
topics-IsTranslated lang (t ∷ ts) = topics-IsTranslated lang ts

none-IsTranslated :
    (lang : Language) → IsTranslated lang (text (key (codes "common") (codes "none")) ∷ [])
unfolding IsTranslated all_have_text has_text message lookup table_of
none-IsTranslated english = refl
none-IsTranslated chinese = refl

topic_cell-IsTranslated : (lang : Language) (d : DeviceSummary) → IsTranslated lang (topic_cell d)
unfolding topic_cell
topic_cell-IsTranslated lang d = elim (Bool-cases (is_empty (or_empty d.subscriptions))) [
  | inl e ↦ rw e (none-IsTranslated lang)
  | inr e ↦ rw e (topics-IsTranslated lang (or_empty d.subscriptions))
]

-- The cells of a row after the one with the topics.
last_cells-IsTranslated :
    (lang : Language) (address protocol time : Bytes)
    → IsTranslated lang (
        text (raw address)
        ∷ text (raw protocol)
        ∷ text (raw time)
        ∷ text (key (codes "devices") (codes "confirmDisconnect"))
        ∷ button false (key (codes "common") (codes "confirm"))
        ∷ button false (key (codes "common") (codes "cancel"))
        ∷ button false (key (codes "devices") (codes "disconnect"))
        ∷ [])
unfolding IsTranslated all_have_text has_text message lookup table_of
last_cells-IsTranslated english address protocol time = refl
last_cells-IsTranslated chinese address protocol time = refl

raw-IsTranslated : (lang : Language) (s : Bytes) → IsTranslated lang (text (raw s) ∷ [])
unfolding IsTranslated all_have_text has_text
raw-IsTranslated lang s = refl

-- The cells of a row, with or without its node.
row-IsTranslated :
    (lang : Language) (with_node : Bool) (id node : Item) (topics : List Item)
    (others : List (List Item))
    → IsTranslated lang (id ∷ [])
    → IsTranslated lang (node ∷ [])
    → IsTranslated lang topics
    → IsTranslated lang (flatten others)
    → IsTranslated lang
        (flatten ((id ∷ []) ∷ shown_if with_node ((node ∷ []) ∷ []) ++ (topics ∷ others)))
row-IsTranslated lang true id node topics others h k l m =
    cons-IsTranslated lang id _ h
      (cons-IsTranslated lang node _ k (append-IsTranslated lang topics _ l m))
row-IsTranslated lang false id node topics others h k l m =
    cons-IsTranslated lang id _ h (append-IsTranslated lang topics _ l m)

total-IsTranslated :
    (lang : Language) (count : Bytes)
    → IsTranslated lang
        (text (filled (codes "devices") (codes "totalDevices") (codes "count") count) ∷ [])
unfolding IsTranslated all_have_text has_text message lookup table_of
total-IsTranslated english count = refl
total-IsTranslated chinese count = refl

drawer_title-IsTranslated :
    (lang : Language) (page : DevicesPage) → IsTranslated lang (drawer_title page ∷ [])
unfolding IsTranslated all_have_text has_text message lookup table_of drawer_title
drawer_title-IsTranslated english page = refl
drawer_title-IsTranslated chinese page = refl

drawer_status-IsTranslated :
    (lang : Language) (detail : DeviceDetail) → IsTranslated lang (drawer_status detail ∷ [])
unfolding IsTranslated all_have_text has_text message lookup table_of drawer_status
drawer_status-IsTranslated english detail = elim (Bool-cases detail.connected) [
  | inl e ↦ rw e refl
  | inr e ↦ rw e refl
]
drawer_status-IsTranslated chinese detail = elim (Bool-cases detail.connected) [
  | inl e ↦ rw e refl
  | inr e ↦ rw e refl
]

drawer_items-IsTranslated :
    (lang : Language) (format_time : Bytes → Bytes) (detail : DeviceDetail)
    → IsTranslated lang (drawer_items format_time detail)
unfolding IsTranslated all_have_text has_text message lookup table_of drawer_items
drawer_items-IsTranslated english format_time detail = drawer_status-IsTranslated english detail
drawer_items-IsTranslated chinese format_time detail = drawer_status-IsTranslated chinese detail

session_items-IsTranslated :
    (lang : Language) (session : DeviceSession) → IsTranslated lang (session_items session)
unfolding IsTranslated all_have_text has_text message lookup table_of session_items
session_items-IsTranslated english session = refl
session_items-IsTranslated chinese session = refl

drawer_body-IsTranslated :
    (lang : Language) (format_time : Bytes → Bytes) (page : DevicesPage)
    → IsTranslated lang (drawer_body format_time page)
unfolding drawer_body
drawer_body-IsTranslated lang format_time page = elim (Option-cases page.device_detail) [
  | inl e ↦ rw e (nil-IsTranslated lang)
  | inr (detail, e) ↦ rw e (
      append-IsTranslated lang (drawer_items format_time detail) _
        (drawer_items-IsTranslated lang format_time detail)
        (elim (Option-cases detail.session) [
          | inl f ↦ rw f (nil-IsTranslated lang)
          | inr (session, f) ↦ rw f (session_items-IsTranslated lang session)
        ]))
]

subscription_items-IsTranslated :
    (lang : Language) (subs : Map Bytes ℕ) → IsTranslated lang (subscription_items subs)
unfolding IsTranslated all_have_text has_text
subscription_items-IsTranslated lang [] = refl
subscription_items-IsTranslated lang ((topic, qos) ∷ subs) =
    subscription_items-IsTranslated lang subs

module _ (to_lower format_time : Bytes → Bytes) (lang : Language) (page : DevicesPage) where
  device_cells-IsTranslated :
      (d : DeviceSummary) → IsTranslated lang (flatten (device_cells format_time page d))
  unfolding device_cells
  device_cells-IsTranslated d =
      row-IsTranslated lang page.cluster_mode (text (raw d.client_id)) (node_tag page d)
        (topic_cell d) _ (raw-IsTranslated lang d.client_id) (node_tag-IsTranslated lang page d)
        (topic_cell-IsTranslated lang d)
        (last_cells-IsTranslated lang d.remote_addr (format_protocol d.protocol_version)
          (format_time d.connected_at))

  -- In both languages every text that the page of devices shows, whatever its state, has a text in the
  -- table, in which just the names in braces stand that the page fills in.
  pub devices_view-IsTranslated : IsTranslated lang (devices_view to_lower format_time page)
  unfolding devices_view device_rows device_total
  devices_view-IsTranslated =
      let shown = filtered_devices to_lower page.search_text page.devices in
      let rows =
        flatten_rows lang (device_cells format_time page) shown device_cells-IsTranslated in
      let table =
        append-IsTranslated lang (device_columns page) _ (device_columns-IsTranslated lang page)
          rows in
      let drawer =
        cons-IsTranslated lang (drawer_title page) _ (drawer_title-IsTranslated lang page) (
          append-IsTranslated lang (drawer_body format_time page) _
            (drawer_body-IsTranslated lang format_time page)
            (subscription_items-IsTranslated lang (subscription_list page.device_detail))) in
      append-IsTranslated lang search_bar _ (search_bar-IsTranslated lang) (
        append-IsTranslated lang _ _ table (
          cons-IsTranslated lang _ _ (total-IsTranslated lang _)
            (shown_if-IsTranslated lang page.drawer_visible _ drawer)))
