-- ===== src/Admin/Views/Translated.antt =====
-- Whether every text that a template shows stands in the tables of both languages, of
-- web/admin/src/locales/index.ts.
pub mod DevicePage
pub mod NodePage
pub mod Figures
pub mod Header
pub mod Notices
pub mod Whole
use dmqtt.Base.{◌≡◌, refl, List, [], ◌∷◌, ◌++◌, map, Bool, true, false, arith}
use dmqtt.Admin.Locales.{Messages}
use dmqtt.Admin.Locales.En.{en}
use dmqtt.Admin.Locales.Zh.{zh}
use dmqtt.Admin.Views.{Item, shown_if, flatten, text_of, has_text, all_have_text}

-- The languages of the site, and their tables.
pub data Language : Type 0 where
  english chinese : Language

unfoldable pub table_of : Language → Messages
table_of english = en
table_of chinese = zh

unfoldable pub IsTranslated : Language → List Item → Type 0
IsTranslated lang items = all_have_text (table_of lang) items ≡ true

pub append-IsTranslated :
    (lang : Language) (xs ys : List Item)
    → IsTranslated lang xs
    → IsTranslated lang ys
    → IsTranslated lang (xs ++ ys)
unfolding IsTranslated all_have_text
append-IsTranslated lang [] ys h k = k
append-IsTranslated lang (x ∷ xs) ys h k = ground (arith, append-IsTranslated lang xs ys)

pub shown_if-IsTranslated :
    (lang : Language) (test : Bool) (xs : List Item)
    → IsTranslated lang xs
    → IsTranslated lang (shown_if test xs)
unfolding IsTranslated all_have_text
shown_if-IsTranslated lang true xs h = h
shown_if-IsTranslated lang false xs h = refl

pub flatten-IsTranslated {ℓ} :
    {A : Type ℓ} (lang : Language) (f : A → List Item) (xs : List A)
    → ((a : A) → IsTranslated lang (f a))
    → IsTranslated lang (flatten (map f xs))
unfolding IsTranslated all_have_text
flatten-IsTranslated lang f [] h = refl
flatten-IsTranslated lang f (x ∷ xs) h =
    append-IsTranslated lang (f x) (flatten (map f xs)) (h x) (flatten-IsTranslated lang f xs h)

pub cons-IsTranslated :
    (lang : Language) (x : Item) (xs : List Item)
    → IsTranslated lang (x ∷ [])
    → IsTranslated lang xs
    → IsTranslated lang (x ∷ xs)
cons-IsTranslated lang x xs h k = append-IsTranslated lang (x ∷ []) xs h k

pub nil-IsTranslated : (lang : Language) → IsTranslated lang []
unfolding IsTranslated all_have_text
nil-IsTranslated lang = refl

-- The cells of all rows of a table.
pub flatten_rows {ℓ} :
    {A : Type ℓ} (lang : Language) (cells : A → List (List Item)) (rows : List A)
    → ((a : A) → IsTranslated lang (flatten (cells a)))
    → IsTranslated lang (flatten (map flatten (map cells rows)))
flatten_rows lang cells [] h = nil-IsTranslated lang
flatten_rows lang cells (r ∷ rs) h =
    append-IsTranslated lang (flatten (cells r)) _ (h r) (flatten_rows lang cells rs h)
