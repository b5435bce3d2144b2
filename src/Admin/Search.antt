-- ===== src/Admin/Search.antt =====
-- web/admin/src/views/Devices.vue: the search over the devices, and how their fields are shown.
pub mod Hits
use dmqtt.Base.{
  ℕ, zero, suc, Bytes, List, [], ◌∷◌, ◌++◌, map, filterb, nat_beq, ◌==◌, nat_eq, if◌then◌else◌,
  Bool, true, false, ◌&&◌, ◌||◌, Option, none, some, codes,
}
use dmqtt.Base.Map.{Map, lookup}
use dmqtt.Base.Nested.{or_empty, is_empty}
use dmqtt.Broker.Dedup.{decimal}
use dmqtt.Admin.Devices.{DeviceSummary, DeviceDetail}

abbrev pub is_prefix : Bytes → Bytes → Bool
is_prefix [] s = true
is_prefix (c ∷ q) [] = false
is_prefix (c ∷ q) (d ∷ s) = nat_beq c d && is_prefix q s

-- `s.includes(q)`
unfoldable pub includes : Bytes → Bytes → Bool
includes q [] = is_prefix q []
includes q (d ∷ s) = is_prefix q (d ∷ s) || includes q s

-- `xs.some(t => t.toLowerCase().includes(q))`
unfoldable pub any_includes : (Bytes → Bytes) → Bytes → List Bytes → Bool
any_includes to_lower q [] = false
any_includes to_lower q (t ∷ ts) = includes q (to_lower t) || any_includes to_lower q ts

unfoldable pub is_hit : (Bytes → Bytes) → Bytes → DeviceSummary → Bool
is_hit to_lower q d =
    includes q (to_lower d.client_id) || any_includes to_lower q (or_empty d.subscriptions)

-- `to_lower` is toLowerCase with its Unicode tables.
unfoldable pub filtered_devices : (Bytes → Bytes) → Bytes → List DeviceSummary → List DeviceSummary
filtered_devices to_lower search_text devices =
    if is_empty search_text
    then devices
    else filterb (is_hit to_lower (to_lower search_text)) devices

abbrev protocol_names : Map ℕ Bytes
protocol_names = (3, codes "v3.1") ∷ (4, codes "v3.1.1") ∷ (5, codes "v5.0") ∷ []

unfoldable pub format_protocol : ℕ → Bytes
format_protocol v = elim (lookup v protocol_names) [ some name ↦ name | none ↦ b'v' ∷ decimal v v ]

-- Object.entries, or nothing where the device, its session or its subscriptions are missing.
unfoldable pub subscription_list : Option DeviceDetail → Map Bytes ℕ
subscription_list none = []
subscription_list (some detail) = elim detail.session [
  | none ↦ []
  | some session ↦ or_empty session.subscriptions
]
