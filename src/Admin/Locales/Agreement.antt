-- ===== src/Admin/Locales/Agreement.antt =====
-- Both languages have the same texts, with the same places to fill in.
use dmqtt.Base.{
  ◌≡◌, ◌≢◌, refl, Bytes, [], ◌∷◌, Bool, true, false, ◌&&◌, Option, none, some, ◌==◌, bytes_eq,
  bytes_beq_iff, nat_beq, if◌then◌else◌, arith, codes,
}
use dmqtt.Base.Map.{Map, lookup, lookup-insert}
use dmqtt.Admin.Locales.En.{en}
use dmqtt.Admin.Locales.Zh.{zh}
use dmqtt.Admin.Locales.{Texts, Messages, message, saved_locale, switch_lang}

-- The names in braces, in order: the letters between them, one name after the other.
abbrev placeholders_from : Bytes → Bool → Bytes
placeholders_from [] inside = []
placeholders_from (c ∷ s) inside =
    let outer = placeholders_from s false in
    let inner = placeholders_from s true in
    if nat_beq c b'{'
    then c ∷ inner
    else if nat_beq c b'}'
    then c ∷ outer
    else if inside
    then c ∷ inner
    else outer

abbrev pub placeholders : Option Bytes → Option Bytes
placeholders none = none
placeholders (some s) = some (placeholders_from s false)

abbrev texts_agree : Texts → Texts → Bool
texts_agree [] [] = true
texts_agree [] (q ∷ b) = false
texts_agree (p ∷ a) [] = false
texts_agree ((k, s) ∷ a) ((l, t) ∷ b) =
    k == l && (placeholders_from s false == placeholders_from t false && texts_agree a b)

abbrev messages_agree : Messages → Messages → Bool
messages_agree [] [] = true
messages_agree [] (q ∷ b) = false
messages_agree (p ∷ a) [] = false
messages_agree ((k, s) ∷ a) ((l, t) ∷ b) = k == l && (texts_agree s t && messages_agree a b)

texts_agree-lookup :
    (a b : Texts) (key : Bytes)
    → texts_agree a b ≡ true
    → placeholders (lookup key a) ≡ placeholders (lookup key b)
unfolding lookup
texts_agree-lookup [] [] key h = refl
texts_agree-lookup [] (q ∷ b) key h = cc
texts_agree-lookup (p ∷ a) [] key h = cc
texts_agree-lookup ((k, s) ∷ a) ((l, t) ∷ b) key h = ground (
  arith,
  bytes_beq_iff k l,
  bytes_beq_iff k key,
  bytes_beq_iff l key,
  bytes_beq_iff (placeholders_from s false) (placeholders_from t false),
  texts_agree-lookup a b key,
)

messages_agree-lookup :
    (a b : Messages) (section key : Bytes)
    → messages_agree a b ≡ true
    → placeholders (message a section key) ≡ placeholders (message b section key)
unfolding lookup message
messages_agree-lookup [] [] section key h = refl
messages_agree-lookup [] (q ∷ b) section key h = cc
messages_agree-lookup (p ∷ a) [] section key h = cc
messages_agree-lookup ((k, s) ∷ a) ((l, t) ∷ b) section key h = ground (
  arith,
  bytes_beq_iff k l,
  bytes_beq_iff k section,
  bytes_beq_iff l section,
  texts_agree-lookup s t key,
  messages_agree-lookup a b section key,
)

tables_agree : messages_agree en zh ≡ true
tables_agree = refl

-- Every text that one language has the other has too, with the same names in braces to fill in.
pub message-en-zh :
    (section key : Bytes)
    → placeholders (message en section key) ≡ placeholders (message zh section key)
message-en-zh section key = messages_agree-lookup en zh section key tables_agree

-- A language that was chosen is the one that the site starts with the next time.
pub saved_locale-switch_lang :
    (storage : Map Bytes Bytes) (lang : Bytes)
    → lang ≢ []
    → saved_locale (switch_lang storage lang).1 ≡ lang
unfolding saved_locale switch_lang
saved_locale-switch_lang storage lang h = ground (
  arith,
  bytes_beq_iff (codes "dmqtt-locale") (codes "dmqtt-locale"),
  bytes_beq_iff lang [],
  lookup-insert (codes "dmqtt-locale") (codes "dmqtt-locale") lang storage,
)
