-- ===== src/Admin/Views.antt =====
-- web/admin/src/views and layouts: what the templates of the site show. A template is a function of the
-- state of its page: the texts, in the order of the markup, and for a table its columns and the cells of
-- each row. Layout (widths, margins, icons, colours of texts) is left out.
pub mod DeviceTable
pub mod DeviceDrawer
pub mod NodeCards
pub mod Panels
pub mod Frame
pub mod Notices
pub mod Translated
mod Runs
use dmqtt.Base.{
  ℕ, Bytes, List, [], ◌∷◌, ◌++◌, map, Bool, true, false, ◌&&◌, ◌==◌, bytes_eq, Option, none, some,
  if◌then◌else◌, codes,
}
use dmqtt.Admin.Locales.{Messages, message}
use dmqtt.Admin.Locales.Agreement.{placeholders}

-- A text of a template: `t('section.key')`, the same with a value for a name in braces, or a text that
-- does not depend on the language.
pub data Text : Type 0 where
  key : Bytes → Bytes → Text
  filled : Bytes → Bytes → Bytes → Bytes → Text
  raw : Bytes → Text

-- `el-tag` stands with its type, a button with whether it is disabled, and a button of a choice with its
-- type, which shows what is chosen.
pub data Item : Type 0 where
  text : Text → Item
  tag choice : Bytes → Text → Item
  button : Bool → Text → Item

-- `v-if` without and with `v-else`.
abbrev pub shown_if {ℓ} : {A : Type ℓ} → Bool → List A → List A
shown_if test items = if test then items else []

-- All items of some rows, or of the cells of a row.
abbrev pub flatten {ℓ} : {A : Type ℓ} → List (List A) → List A
flatten [] = []
flatten (xs ∷ xss) = xs ++ flatten xss

abbrev pub text_of : Item → Text
text_of (text s) = s
text_of (tag kind s) = s
text_of (choice kind s) = s
text_of (button disabled s) = s

-- Whether a language has the text, with just the names in braces that are filled in.
unfoldable pub has_text : Messages → Text → Bool
has_text ms (key section name) = elim (placeholders (message ms section name)) [
  | none ↦ false
  | some names ↦ names == []
]
has_text ms (filled section name place value) = elim (placeholders (message ms section name)) [
  | none ↦ false
  | some names ↦ names == b'{' ∷ (place ++ codes "}")
]
has_text ms (raw s) = true

unfoldable pub all_have_text : Messages → List Item → Bool
all_have_text ms [] = true
all_have_text ms (i ∷ is) = has_text ms (text_of i) && all_have_text ms is
