-- ===== src/Admin/Search/Hits.antt =====
-- Which devices the search finds.
use dmqtt.Base.{
  ℕ, ◌≡◌, refl, subst, ap, ◌↔◌, ◌⊎◌, inl, inr, Bytes, List, [], ◌∷◌, ◌++◌, Bool, true, false,
  nat_beq_iff, arith, filterb, Bool-cases,
}
use mathlib.Core.List.{Memᴰ}
use mathlib.Core.List.Memᴰ
use dmqtt.Base.Nested.{or_empty}
use dmqtt.Admin.Devices.{DeviceSummary}
use dmqtt.Admin.Search.{is_prefix, includes, any_includes, is_hit, filtered_devices}

-- The text `q` stands somewhere in `s`.
abbrev pub Occurs : Bytes → Bytes → Type 0
Occurs q s = (before : Bytes) × (after : Bytes) × (s ≡ before ++ (q ++ after))

is_prefix-append : (q after : Bytes) → is_prefix q (q ++ after) ≡ true
is_prefix-append [] after = refl
is_prefix-append (c ∷ q) after = ground (arith, nat_beq_iff c c, is_prefix-append q after)

rest_of_prefix : (q s : Bytes) → is_prefix q s ≡ true → (after : Bytes) × (s ≡ q ++ after)
rest_of_prefix [] s h = (s, refl)
rest_of_prefix (c ∷ q) [] h = cc
rest_of_prefix (c ∷ q) (d ∷ s) h =
    let same : c ≡ d = ground (arith, nat_beq_iff c d) in
    let (after, e) = rest_of_prefix q s (ground arith) in (after, cc)

includes-append : (q before after : Bytes) → includes q (before ++ (q ++ after)) ≡ true
unfolding includes
includes-append [] [] [] = refl
includes-append [] [] (c ∷ after) = refl
includes-append (c ∷ q) [] after = ground (arith, nat_beq_iff c c, is_prefix-append q after)
includes-append q (b ∷ before) after = ground (arith, includes-append q before after)

includes-Occurs : (q s : Bytes) → includes q s ≡ true → Occurs q s
unfolding includes
includes-Occurs q [] h = let (after, e) = rest_of_prefix q [] h in ([], after, e)
includes-Occurs q (d ∷ s) h = elim (Bool-cases (is_prefix q (d ∷ s))) [
  | inl p ↦ let (after, e) = rest_of_prefix q (d ∷ s) p in ([], after, e)
  | inr n ↦
      let (before, after, e) = includes-Occurs q s (ground arith) in
      (d ∷ before, after, ap (◌∷◌ d) e)
]

includes_iff : (q s : Bytes) → (includes q s ≡ true) ↔ Occurs q s
includes_iff q s =
    (includes-Occurs q s, λ (before, after, e). rw e (includes-append q before after))

-- A device that the search for `q` is to find: by its name or by one of its filters.
abbrev pub IsFound : (Bytes → Bytes) → Bytes → DeviceSummary → Type 0
IsFound to_lower q d =
    Occurs q (to_lower d.client_id)
    ⊎ ((t : Bytes) × Memᴰ t (or_empty d.subscriptions) × Occurs q (to_lower t))

any_includes-Occurs :
    (to_lower : Bytes → Bytes) (q : Bytes) (ts : List Bytes)
    → any_includes to_lower q ts ≡ true
    → (t : Bytes) × Memᴰ t ts × Occurs q (to_lower t)
unfolding any_includes
any_includes-Occurs to_lower q [] h = cc
any_includes-Occurs to_lower q (t ∷ ts) h = elim (Bool-cases (includes q (to_lower t))) [
  | inl holds ↦ (t, Memᴰ.head refl, includes-Occurs q (to_lower t) holds)
  | inr fails ↦
      let (u, m, o) = any_includes-Occurs to_lower q ts (ground arith) in (u, Memᴰ.tail m, o)
]

Occurs-any_includes :
    (to_lower : Bytes → Bytes) (q : Bytes) {t : Bytes} {ts : List Bytes}
    → Memᴰ t ts
    → Occurs q (to_lower t)
    → any_includes to_lower q ts ≡ true
unfolding any_includes
Occurs-any_includes to_lower q {t} (Memᴰ.head e) o =
    rw (← e) (rw ((includes_iff q (to_lower t)).1 o) refl)
Occurs-any_includes to_lower q (Memᴰ.tail m) o = ground (arith, Occurs-any_includes to_lower q m o)

is_hit_iff :
    (to_lower : Bytes → Bytes) (q : Bytes) (d : DeviceSummary)
    → (is_hit to_lower q d ≡ true) ↔ IsFound to_lower q d
unfolding is_hit
is_hit_iff to_lower q d = (
  λ h. elim (Bool-cases (includes q (to_lower d.client_id))) [
    | inl holds ↦ inl (includes-Occurs q (to_lower d.client_id) holds)
    | inr fails ↦ inr (any_includes-Occurs to_lower q (or_empty d.subscriptions) (ground arith))
  ],
  λ f. elim f [
    | inl o ↦ rw ((includes_iff q (to_lower d.client_id)).1 o) refl
    | inr (t, m, o) ↦
        ground (arith, Occurs-any_includes to_lower q {t = t} {ts = or_empty d.subscriptions} m o)
  ],
)

module _ {ℓ} {A : Type ℓ} where
  Memᴰ-filterb :
      (p : A → Bool) {a : A} (xs : List A) → Memᴰ a (filterb p xs) → Memᴰ a xs × (p a ≡ true)
  Memᴰ-filterb p [] m = elim m [ ]
  Memᴰ-filterb p {a} (x ∷ xs) m = elim (Bool-cases (p x)) [
    | inl holds ↦ elim (Memᴰ.cases_cons (subst (Memᴰ a) (kept holds) m)) [
      | inl e ↦ (Memᴰ.head e, rw e holds)
      | inr k ↦ let (k', t) = Memᴰ-filterb p xs k in (Memᴰ.tail k', t)
    ]
    | inr fails ↦ let (k, t) = Memᴰ-filterb p xs (subst (Memᴰ a) (cut fails) m) in (Memᴰ.tail k, t)
  ]
    where
      kept : p x ≡ true → filterb p (x ∷ xs) ≡ x ∷ filterb p xs
      kept h = rw h refl

      cut : p x ≡ false → filterb p (x ∷ xs) ≡ filterb p xs
      cut h = rw h refl

  filterb-Memᴰ :
      (p : A → Bool) {a : A} (xs : List A) → Memᴰ a xs → p a ≡ true → Memᴰ a (filterb p xs)
  filterb-Memᴰ p [] m h = elim m [ ]
  filterb-Memᴰ p {a} (x ∷ xs) (Memᴰ.head e) h = rw (← e, h) (Memᴰ.head refl)
  filterb-Memᴰ p {a} (x ∷ xs) (Memᴰ.tail m) h = elim (Bool-cases (p x)) [
    | inl holds ↦ rw holds (Memᴰ.tail (filterb-Memᴰ p xs m h))
    | inr fails ↦ rw fails (filterb-Memᴰ p xs m h)
  ]

-- With a text to search for, the page lists exactly the devices whose lower-case name, or one of whose
-- lower-case filters, contains the lower-case text; without one it lists all devices.
pub filtered_devices_iff :
    (to_lower : Bytes → Bytes) (c : ℕ) (text : Bytes) (ds : List DeviceSummary) (d : DeviceSummary)
    → (filtered_devices to_lower [] ds ≡ ds)
      × (Memᴰ d (filtered_devices to_lower (c ∷ text) ds)
          ↔ (Memᴰ d ds × IsFound to_lower (to_lower (c ∷ text)) d))
unfolding filtered_devices
filtered_devices_iff to_lower c text ds d =
    let q = to_lower (c ∷ text) in
    (
      refl,
      (
        λ m.
            let (k, t) = Memᴰ-filterb (is_hit to_lower q) ds m in
            (k, (is_hit_iff to_lower q d).0 t),
        λ (k, f). filterb-Memᴰ (is_hit to_lower q) ds k ((is_hit_iff to_lower q d).1 f),
      ),
    )
