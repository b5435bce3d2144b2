-- ===== src/Admin/Views/Translated/Header.antt =====
-- The header of the frame: its texts in both languages, and its titles and menu against the router.
use dmqtt.Base.{
  ℕ, bytes_beq, nat_beq_iff, subst, sym, ◌≡◌, refl, Bytes, [], ◌∷◌, Bool, true, false, ◌&&◌, Option,
  none, some, inl, inr, Bool-cases, ◌==◌, bytes_eq, arith, codes, nat_beq,
}
use dmqtt.Base.Map.{Map, lookup}
use dmqtt.Base.Nested.{is_empty}
use dmqtt.Admin.Locales.{Messages, message}
use dmqtt.Admin.Views.{Text, raw, has_text, all_have_text}
use dmqtt.Admin.Views.Frame.{view_at, titles, menu, Layout, page_title, language_button, header}
use dmqtt.Admin.Views.Translated.{Language, english, chinese, table_of, IsTranslated}

abbrev all_stand : Messages → Map Bytes Text → Bool
all_stand ms [] = true
all_stand ms ((path, t) ∷ m) = has_text ms t && all_stand ms m

lookup-has_text :
    (ms : Messages) (m : Map Bytes Text) (path : Bytes)
    → all_stand ms m ≡ true
    → has_text ms (elim (lookup path m) [ some title ↦ title | none ↦ raw (codes "DMQTT") ]) ≡ true
unfolding lookup has_text
lookup-has_text ms [] path h = refl
lookup-has_text ms ((k, t) ∷ m) path h = elim (Bool-cases (k == path)) [
  | inl e ↦ rw e (ground arith)
  | inr e ↦ rw e (lookup-has_text ms m path (ground arith))
]

titles_stand : (lang : Language) → all_stand (table_of lang) titles ≡ true
unfolding table_of has_text message lookup
titles_stand english = refl
titles_stand chinese = refl

title-IsTranslated :
    (lang : Language) (path : Bytes) → has_text (table_of lang) (page_title path) ≡ true
unfolding page_title
title-IsTranslated lang path = lookup-has_text (table_of lang) titles path (titles_stand lang)

rest-IsTranslated :
    (lang : Language) (layout : Layout) (path locale : Bytes)
    → has_text (table_of lang) (page_title path) ≡ true
    → IsTranslated lang (header layout path locale)
unfolding IsTranslated all_have_text has_text message lookup table_of header language_button
rest-IsTranslated english layout path locale h = elim (Bool-cases (is_empty layout.node_id)) [
  | inl e ↦ rw (e, h) refl
  | inr e ↦ rw (e, h) refl
]
rest-IsTranslated chinese layout path locale h = elim (Bool-cases (is_empty layout.node_id)) [
  | inl e ↦ rw (e, h) refl
  | inr e ↦ rw (e, h) refl
]

-- In both languages every text of the header, on every path and for every locale, stands in the table.
pub header-IsTranslated :
    (lang : Language) (layout : Layout) (path locale : Bytes)
    → IsTranslated lang (header layout path locale)
header-IsTranslated lang layout path locale =
    rest-IsTranslated lang layout path locale (title-IsTranslated lang path)

-- Whether there is something.
abbrev is_some {ℓ} : {A : Type ℓ} → Option A → Bool
is_some none = false
is_some (some a) = true

below_root :
    (c : ℕ) (path : Bytes)
    → nat_beq c b'/' ≡ true
    → is_some (view_at (c ∷ path)) ≡ is_some (lookup (b'/' ∷ path) menu)
unfolding view_at lookup
below_root c path h = rw h (elim (Bool-cases (bytes_beq [] path)) [
  | inl e ↦ rw e refl
  | inr e ↦ elim (Bool-cases (bytes_beq (codes "devices") path)) [
    | inl f ↦ rw (e, f) refl
    | inr f ↦ elim (Bool-cases (bytes_beq (codes "cluster") path)) [
      | inl g ↦ rw (e, f, g) refl
      | inr g ↦ elim (Bool-cases (bytes_beq (codes "metrics") path)) [
        | inl k ↦ rw (e, f, g, k) refl
        | inr k ↦ rw (e, f, g, k) refl
      ]
    ]
  ]
])

nat_beq-swap : (a b : ℕ) → nat_beq a b ≡ nat_beq b a
nat_beq-swap a b = ground arith

view_at-menu : (path : Bytes) → is_some (view_at path) ≡ is_some (lookup path menu)
unfolding view_at lookup
view_at-menu [] = refl
view_at-menu (c ∷ path) = elim (Bool-cases (nat_beq c b'/')) [
  | inl e ↦
      subst (λ d. is_some (view_at (c ∷ path)) ≡ is_some (lookup (d ∷ path) menu))
        (sym ((nat_beq_iff c b'/').0 e)) (below_root c path e)
  | inr e ↦ rw (e, nat_beq-swap b'/' c, e) refl
]

-- The router has a page at exactly the paths where the menu has an entry, and there the title of the
-- page is the text of that entry; on all other paths the title is `DMQTT`.
pub page_title-menu :
    (path : Bytes)
    → (is_some (view_at path) ≡ is_some (lookup path menu))
      × (page_title path
          ≡ (elim (lookup path menu) [ some label ↦ label | none ↦ raw (codes "DMQTT") ]))
unfolding page_title
page_title-menu path = (view_at-menu path, refl)
