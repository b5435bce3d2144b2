-- ===== src/Admin/Locales.antt =====
-- web/admin/src/locales: the texts of the admin site in Chinese and English, in zh.ts and en.ts, and
-- the choice between them in index.ts and MainLayout.vue. A table maps the name of a section to its
-- texts by their keys.
pub mod En
pub mod Zh
pub mod Agreement
use dmqtt.Base.{ℕ, Bytes, List, [], ◌∷◌, ◌==◌, bytes_eq, if◌then◌else◌, Option, none, some, codes}
use dmqtt.Base.Map.{Map, lookup, insert}

abbrev pub Texts : Type 0
Texts = Map Bytes Bytes

abbrev pub Messages : Type 0
Messages = Map Bytes Texts

-- The text `section.key` of a table.
unfoldable pub message : Messages → Bytes → Bytes → Option Bytes
message ms section key = elim (lookup section ms) [ none ↦ none | some texts ↦ lookup key texts ]

-- `localStorage.getItem('dmqtt-locale') || 'zh'`
unfoldable pub saved_locale : Map Bytes Bytes → Bytes
saved_locale storage = elim (lookup (codes "dmqtt-locale") storage) [
  | none ↦ codes "zh"
  | some lang ↦ if lang == [] then codes "zh" else lang
]

-- `switchLang`: the locale that is shown, and what the browser keeps.
unfoldable pub switch_lang : Map Bytes Bytes → Bytes → Bytes × Map Bytes Bytes
switch_lang storage lang = (lang, insert (codes "dmqtt-locale") lang storage)
