-- ===== src/Admin/Views/Frame.antt =====
-- web/admin/src/layouts/MainLayout.vue and router/index.ts: the frame around the pages, its menu, and
-- the paths of the pages below the site's base `/admin/`.
use dmqtt.Base.{
  Bytes, List, [], ◌∷◌, ◌==◌, bytes_eq, if◌then◌else◌, Bool, false, not, Option, none, some, codes,
}
use dmqtt.Base.Map.{Map, lookup}
use dmqtt.Base.Nested.{is_empty}
use dmqtt.Admin.Stats.{Stats}
use dmqtt.Admin.Views.{Text, key, raw, Item, text, tag, choice, shown_if}

pub data View : Type 0 where
  dashboard devices cluster metrics : View

-- The children of the one route `/` with the layout, by their paths.
abbrev pub children : Map Bytes View
children =
    ([], dashboard)
    ∷ (codes "devices", devices)
    ∷ (codes "cluster", cluster)
    ∷ (codes "metrics", metrics)
    ∷ []

-- A child of the route `/` stands at `/` and its own path.
unfoldable pub view_at : Bytes → Option View
view_at [] = none
view_at (c ∷ path) = if c ∷ [] == codes "/" then lookup path children else none

abbrev pub titles : Map Bytes Text
titles =
    (codes "/", key (codes "nav") (codes "dashboard"))
    ∷ (codes "/devices", key (codes "nav") (codes "devices"))
    ∷ (codes "/cluster", key (codes "nav") (codes "cluster"))
    ∷ (codes "/metrics", key (codes "nav") (codes "metrics"))
    ∷ []

unfoldable pub page_title : Bytes → Text
page_title path = elim (lookup path titles) [ some title ↦ title | none ↦ raw (codes "DMQTT") ]

-- The entries of the menu: where they lead, and their texts.
abbrev pub menu : Map Bytes Text
menu =
    (codes "/", key (codes "nav") (codes "dashboard"))
    ∷ (codes "/devices", key (codes "nav") (codes "devices"))
    ∷ (codes "/cluster", key (codes "nav") (codes "cluster"))
    ∷ (codes "/metrics", key (codes "nav") (codes "metrics"))
    ∷ []

pub record Layout : Type 0 where
  pub is_collapsed : Bool
  pub node_id : Bytes

unfoldable pub setup : Layout
setup = record { is_collapsed = false; node_id = [] }

-- The icon beside the title: `isCollapsed = !isCollapsed`.
unfoldable pub toggle : Layout → Layout
toggle layout = record layout { is_collapsed = not layout.is_collapsed }

-- `onMounted` when its request has ended; a failure changes nothing.
unfoldable pub mounted : Layout → Option Stats → Layout
mounted layout none = layout
mounted layout (some stats) = record layout { node_id = stats.node_id }

unfoldable pub aside_width : Layout → Bytes
aside_width layout = if layout.is_collapsed then codes "64px" else codes "200px"

unfoldable pub logo : Layout → Item
logo layout = text (raw (if layout.is_collapsed then codes "D" else codes "DMQTT"))

-- A button of a language and the type it has under the locale.
unfoldable pub language_button : Bytes → Bytes → Bytes → Item
language_button locale lang label =
    choice (if locale == lang then codes "primary" else codes "default") (raw label)

unfoldable pub header : Layout → Bytes → Bytes → List Item
header layout path locale =
    text (page_title path)
    ∷ language_button locale (codes "zh") (codes "中文")
    ∷ language_button locale (codes "en") (codes "EN")
    ∷ shown_if (not (is_empty layout.node_id)) (
        tag (codes "success") (key (codes "common") (codes "node"))
        ∷ text (raw layout.node_id)
        ∷ [])
