-- ===== src/Cluster/Connections.antt =====
-- internal/cluster/connections.go, and the connection half of gossip_broadcast.go: which device is
-- connected to which node.
pub mod Agreement
use dmqtt.Base.{
  ℕ, Bytes, List, [], ◌∷◌, ◌==◌, bytes_eq, if◌then◌else◌, Option, none, some, Bool, true, false,
  not, length, map,
}
use dmqtt.Base.Map.{Map, lookup, insert, erase}
use dmqtt.Base.Nested.{or_empty, put, remove_at}

abbrev pub Devices : Type 0
Devices = Map Bytes (Unit {0})

pub record ConnectionIndex : Type 0 where
  pub devices : Map Bytes Bytes
  pub by_node : Map Bytes Devices
  pub migrating : Map Bytes Bool

unfoldable pub new_connection_index : ConnectionIndex
new_connection_index = record { devices = []; by_node = []; migrating = [] }

-- The device leaves the set of the node that it was on, if that was another.
unfoldable pub leave_previous : ConnectionIndex → Bytes → Bytes → Map Bytes Devices
leave_previous idx device node = elim (lookup device idx.devices) [
  | none ↦ idx.by_node
  | some prev ↦ if not (prev == node) then remove_at prev device idx.by_node else idx.by_node
]

unfoldable pub add : ConnectionIndex → Bytes → Bytes → ConnectionIndex
add idx device node = record idx {
  devices = insert device node idx.devices;
  by_node = put node device tt (leave_previous idx device node);
}

unfoldable pub remove : ConnectionIndex → Bytes → ConnectionIndex
remove idx device = elim (lookup device idx.devices) [
  | none ↦ idx
  | some node ↦ record idx {
    devices = erase device idx.devices;
    by_node = remove_at node device idx.by_node;
  }
]

unfoldable pub erase_all : Devices → Map Bytes Bytes → Map Bytes Bytes
erase_all [] devices = devices
erase_all ((d, u) ∷ ds) devices = erase_all ds (erase d devices)

unfoldable pub remove_node : ConnectionIndex → Bytes → ConnectionIndex
remove_node idx node = elim (lookup node idx.by_node) [
  | none ↦ idx
  | some devs ↦ record idx {
    devices = erase_all devs idx.devices;
    by_node = erase node idx.by_node;
  }
]

unfoldable pub lookup_device : ConnectionIndex → Bytes → Option Bytes
lookup_device idx device = lookup device idx.devices

abbrev set_key : Bytes × Unit {0} → Bytes
set_key (d, u) = d

abbrev flag_key : Bytes × Bool → Bytes
flag_key (d, b) = d

unfoldable pub node_devices : ConnectionIndex → Bytes → List Bytes
node_devices idx node = map set_key (or_empty (lookup node idx.by_node))

unfoldable pub count : ConnectionIndex → ℕ
count idx = length idx.devices

unfoldable pub set_migrating : ConnectionIndex → Bytes → Bool → ConnectionIndex
set_migrating idx device flag =
    if flag
    then record idx { migrating = insert device true idx.migrating }
    else record idx { migrating = erase device idx.migrating }

-- A missing flag reads as false.
unfoldable pub is_migrating : ConnectionIndex → Bytes → Bool
is_migrating idx device = elim (lookup device idx.migrating) [ none ↦ false | some b ↦ b ]

unfoldable pub migrating_devices : ConnectionIndex → List Bytes
migrating_devices idx = map flag_key idx.migrating

unfoldable pub clear_all_migrating : ConnectionIndex → ConnectionIndex
clear_all_migrating idx = record idx { migrating = [] }

-- The `Type` of a ConnBroadcast; any other text is logged and changes nothing.
pub data ConnKind : Type 0 where
  conn disconn unknown : ConnKind

pub record ConnBroadcast : Type 0 where
  pub kind : ConnKind
  pub node_id : Bytes
  pub device_id : Bytes

unfoldable pub handle_conn_broadcast : ConnectionIndex → ConnBroadcast → ConnectionIndex
handle_conn_broadcast idx msg = elim msg.kind [
  | conn ↦ add idx msg.device_id msg.node_id
  | disconn ↦ remove idx msg.device_id
  | unknown ↦ idx
]
