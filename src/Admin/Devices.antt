-- ===== src/Admin/Devices.antt =====
-- web/admin/src/views/Devices.vue and the types of web/admin/src/api/devices.ts: the page with the
-- list of devices, its search, its detail drawer, and its polling with error recovery.
pub mod Recovery
pub mod Drawer
use dmqtt.Base.{
  ℕ, suc, ◌+◌, ◌*◌, min, Bytes, List, [], ◌∷◌, ◌++◌, length, filterb, ltb, nat_beq, ◌==◌, bytes_eq,
  if◌then◌else◌, Bool, true, false, not, ◌&&◌, ◌||◌, Option, none, some, codes,
}
use dmqtt.Base.Map.{Map, lookup, insert}
use dmqtt.Base.Nested.{or_empty}
use dmqtt.Admin.Timers.{Timers, set_interval, clear_interval}

-- `node_id` and `subscriptions` may be missing in the answer of a server.
pub record DeviceSummary : Type 0 where
  pub client_id : Bytes
  pub username : Bytes
  pub remote_addr : Bytes
  pub protocol_version : ℕ
  pub connected_at : Bytes
  pub keep_alive : ℕ
  pub subscriptions : Option (List Bytes)
  pub node_id : Option Bytes

pub record ClusterDeviceListResponse : Type 0 where
  pub devices : Option (List DeviceSummary)
  pub total : ℕ
  pub self : Bytes

pub record DeviceSession : Type 0 where
  pub clean_start : Bool
  pub expiry_interval : ℕ
  pub subscriptions : Option (Map Bytes ℕ)

pub record DeviceDetail : Type 0 where
  pub summary : DeviceSummary
  pub connected : Bool
  pub session : Option DeviceSession

-- The messages of ElMessage, by the keys of their texts.
pub data Message : Type 0 where
  connection_restored load_failed disconnect_failed load_detail_failed : Message
  disconnected : Bytes → Message

pub record DevicesPage : Type 0 where
  pub search_text : Bytes
  pub devices : List DeviceSummary
  pub loading : Bool
  pub cluster_mode : Bool
  pub current_node_id : Bytes
  pub drawer_visible : Bool
  pub selected_id : Bytes
  pub device_detail : Option DeviceDetail
  pub detail_loading : Bool
  pub poll_interval : ℕ
  pub poll_timer : ℕ
  pub consecutive_errors : ℕ
  pub timers : Timers
  pub messages : List Message

-- The page as its script leaves it, the first request on its way.
unfoldable pub setup : Timers → DevicesPage
setup timers =
    let (poll_timer, timers') = set_interval timers 5000 in
    record {
      search_text = [];
      devices = [];
      loading = true;
      cluster_mode = false;
      current_node_id = [];
      drawer_visible = false;
      selected_id = [];
      device_detail = none;
      detail_loading = false;
      poll_interval = 5000;
      poll_timer = poll_timer;
      consecutive_errors = 0;
      timers = timers';
      messages = [];
    }

-- `new Set(devices.map(d => d.node_id).filter(Boolean))`: an empty or missing name is left out.
unfoldable pub node_ids : List DeviceSummary → Map Bytes (Unit {0})
node_ids [] = []
node_ids (d ∷ ds) =
    let rest = node_ids ds in
    elim d.node_id [ none ↦ rest | some id ↦ if id == [] then rest else insert id tt rest ]

-- `clearInterval(pollTimer); pollInterval = ms; pollTimer = setInterval(loadDevices, pollInterval)`
unfoldable pub restart_timer : DevicesPage → ℕ → DevicesPage
restart_timer page ms =
    let (poll_timer, timers) = set_interval (clear_interval page.timers page.poll_timer) ms in
    record page { poll_interval = ms; poll_timer = poll_timer; timers = timers }

unfoldable pub notify : DevicesPage → Message → DevicesPage
notify page m = record page { messages = page.messages ++ (m ∷ []) }

-- `loadDevices` up to its `await`, from the timer, a button or another handler.
unfoldable pub load_devices : DevicesPage → DevicesPage
load_devices page = record page { loading = true }

-- The fields that a successful answer writes before errors are forgotten.
unfoldable pub show_devices : DevicesPage → ClusterDeviceListResponse → DevicesPage
show_devices page res =
    let devices = or_empty res.devices in
    record page {
      devices = devices;
      current_node_id = res.self;
      cluster_mode = ltb 1 (length (node_ids devices));
    }

unfoldable pub devices_loaded : DevicesPage → ClusterDeviceListResponse → DevicesPage
devices_loaded page res =
    let shown = show_devices page res in
    let recovered =
      notify (restart_timer (record shown { consecutive_errors = 0 }) 5000) connection_restored in
    record (if ltb 0 page.consecutive_errors then recovered else shown) { loading = false }

unfoldable pub devices_failed : DevicesPage → DevicesPage
devices_failed page =
    let counted = record page { consecutive_errors = page.consecutive_errors + 1 } in
    let slowed = restart_timer (notify counted load_failed) (min (page.poll_interval * 2) 30000) in
    record (if nat_beq counted.consecutive_errors 1 then slowed else counted) { loading = false }

unfoldable pub unmounted : DevicesPage → DevicesPage
unmounted page = record page { timers = clear_interval page.timers page.poll_timer }

unfoldable pub handle_refresh : DevicesPage → DevicesPage
handle_refresh page = load_devices (record page { search_text = [] })

-- `handleDisconnect` after its `await`.
unfoldable pub disconnect_done : DevicesPage → Bytes → DevicesPage
disconnect_done page id = load_devices (notify page (disconnected id))

unfoldable pub disconnect_not_done : DevicesPage → DevicesPage
disconnect_not_done page = notify page disconnect_failed

-- `showDetail` up to its `await`, and after it.
unfoldable pub show_detail : DevicesPage → Bytes → DevicesPage
show_detail page id = record page { selected_id = id; drawer_visible = true; detail_loading = true }

unfoldable pub detail_loaded : DevicesPage → DeviceDetail → DevicesPage
detail_loaded page detail = record page { device_detail = some detail; detail_loading = false }

unfoldable pub detail_not_loaded : DevicesPage → DevicesPage
detail_not_loaded page = record (notify page load_detail_failed) { detail_loading = false }

-- Everything that changes the page while it is open, in the order in which it happens.
pub data Event : Type 0 where
  load_starts refreshes load_fails disconnect_fails detail_fails : Event
  load_ends : ClusterDeviceListResponse → Event
  disconnects shows : Bytes → Event
  detail_ends : DeviceDetail → Event
  searches : Bytes → Event

unfoldable pub step : DevicesPage → Event → DevicesPage
step page load_starts = load_devices page
step page refreshes = handle_refresh page
step page load_fails = devices_failed page
step page disconnect_fails = disconnect_not_done page
step page detail_fails = detail_not_loaded page
step page (load_ends res) = devices_loaded page res
step page (disconnects id) = disconnect_done page id
step page (shows id) = show_detail page id
step page (detail_ends detail) = detail_loaded page detail
step page (searches text) = record page { search_text = text }

unfoldable pub run : DevicesPage → List Event → DevicesPage
run page [] = page
run page (e ∷ es) = run (step page e) es
