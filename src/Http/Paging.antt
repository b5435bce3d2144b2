-- ===== src/Http/Paging.antt =====
-- The pages of the list of devices.
use dmqtt.Base.{
  ℕ, zero, suc, ◌+◌, ◌*◌, ◌-◌, ◌≤◌, ◌≡◌, refl, ap, sym, ◌∙◌, Bytes, List, [], ◌∷◌, ◌++◌, length,
  take, drop, ltb, arith, length-take, length-drop, inl, inr, Bool-cases, if◌then◌else◌,
}
use dmqtt.Http.Devices.{page_number, page_size, page_ids}

module _ {ℓ} {A : Type ℓ} where
  take_all : (n : ℕ) (xs : List A) → length xs ≤ n → take n xs ≡ xs
  take_all zero [] h = refl
  take_all zero (x ∷ xs) h = absurd (omega arith)
  take_all (suc n) [] h = refl
  take_all (suc n) (x ∷ xs) h = ap (◌∷◌ x) (take_all n xs (omega arith))

  drop_all : (n : ℕ) (xs : List A) → length xs ≤ n → drop n xs ≡ []
  drop_all zero [] h = refl
  drop_all zero (x ∷ xs) h = absurd (omega arith)
  drop_all (suc n) [] h = refl
  drop_all (suc n) (x ∷ xs) h = drop_all n xs (omega arith)

  take_at : {m n : ℕ} (xs : List A) → m ≡ n → take m xs ≡ take n xs
  take_at xs h = ap (λ i. take i xs) h

  take-nil : (n : ℕ) → take {A = A} n [] ≡ []
  take-nil zero = refl
  take-nil (suc n) = refl

  take_more : (n m : ℕ) (xs : List A) → take (n + m) xs ≡ take n xs ++ take m (drop n xs)
  take_more zero m xs = take_at xs (omega arith)
  take_more (suc n) m [] = take-nil (suc n + m) ∙ sym (take-nil m)
  take_more (suc n) m (x ∷ xs) =
      take_at {n = suc (n + m)} (x ∷ xs) (omega arith) ∙ ap (◌∷◌ x) (take_more n m xs)

-- `ids[start:end]` of a page that begins at `from`.
slice_take :
    (ids : List Bytes) (from size : ℕ)
    → let total = length ids in
      let start = if ltb total from then total else from in
      let end = if ltb total (start + size) then total else start + size in
      take (end - start) (drop start ids) ≡ take size (drop from ids)
slice_take ids from size = elim (Bool-cases (ltb (length ids) from)) [
  | inl e ↦
      rw (e, drop_all (length ids) ids (omega arith), drop_all from ids (ground arith))
        (take-nil _ ∙ sym (take-nil size))
  | inr e ↦ elim (Bool-cases (ltb (length ids) (from + size))) [
    | inl f ↦
        rw
          (
            e,
            f,
            take_all (length ids - from) (drop from ids) (omega (arith, length-drop from ids)),
            take_all size (drop from ids) (ground (arith, length-drop from ids)),
          )
          refl
    | inr f ↦ rw (e, f) (take_at (drop from ids) (omega arith))
  ]
]

-- A page is the part of the list behind the pages before it.
page_ids-take :
    (ids : List Bytes) (page per_page : ℕ)
    → page_ids ids page per_page ≡ take per_page (drop ((page - 1) * per_page) ids)
unfolding page_ids
page_ids-take ids page per_page = slice_take ids ((page - 1) * per_page) per_page

-- The pages from the first on, one after the other.
abbrev pub pages : List Bytes → ℕ → ℕ → List Bytes
pages ids per_page zero = []
pages ids per_page (suc n) = pages ids per_page n ++ page_ids ids (page_number (suc n)) per_page

page_number-same : (n : ℕ) → suc n ≤ 10000 → page_number (suc n) ≡ suc n
unfolding page_number
page_number-same n h = ground arith

pages-take :
    (ids : List Bytes) (per_page n : ℕ) → n ≤ 10000 → pages ids per_page n ≡ take (n * per_page) ids
pages-take ids per_page zero h = take_at {m = 0} ids (omega arith)
pages-take ids per_page (suc n) h =
    rw
      (
        page_number-same n h,
        page_ids-take ids (suc n) per_page,
        pages-take ids per_page n (omega arith),
        take_at {m = suc n * per_page} {n = n * per_page + per_page} ids (omega arith),
        take_more (n * per_page) per_page ids,
      )
      (ap (λ (k : ℕ). take (n * per_page) ids ++ take per_page (drop (k * per_page) ids))
        (omega arith))

-- The first n pages of the list of devices, one after the other, are the whole list, if n is at most
-- 10000 and they have room for it; and no page holds more than 100 devices, whatever is asked for.
pub pages-same :
    (ids : List Bytes) (n query page : ℕ)
    → n ≤ 10000
    → length ids ≤ n * page_size query
    → (pages ids (page_size query) n ≡ ids) × (length (page_ids ids page (page_size query)) ≤ 100)
unfolding page_size
pages-same ids n query page h k = (
  pages-take ids (page_size query) n h ∙ take_all (n * page_size query) ids k,
  rw (page_ids-take ids page (page_size query))
      (ground (arith, length-take (page_size query) (drop ((page - 1) * page_size query) ids))),
)
