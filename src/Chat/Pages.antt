-- ===== src/Chat/Pages.antt =====
-- `Messages` page by page.
use mathlib.Core.List.{map-append}
use lanxfer.Base.{
  ℕ, zero, suc, ◌+◌, ◌-◌, ◌≤◌, ◌<◌, ◌≡◌, refl, ap, subst, ◌∙◌, sym, inl, inr, false, List, [], ◌∷◌,
  ◌++◌, Option, none, some, arith, leb, Bool-cases, length, take, drop, ◌==◌,
}
use lanxfer.History.{Entry}
use lanxfer.Chat.{Item, entries, page, page_limit, page_size}

-- Page after page, from the newest to the oldest, as a reader that scrolls back.
unfoldable pub read_back : ℕ → List Item → ℕ → ℕ → List Entry
read_back zero items before limit = []
read_back (suc n) items before limit = elim (page items before limit).1 [
  | none ↦ (page items before limit).0
  | some next ↦ read_back n items next limit ++ (page items before limit).0
]

page_limit_lem : (limit : ℕ) → (1 ≤ page_limit limit) × (page_limit limit ≤ page_size)
unfolding page_limit
page_limit_lem limit = ground arith

take-none : (n : ℕ) → take {A = Item} n [] ≡ []
take-none zero = refl
take-none (suc n) = refl

take-drop :
    (a n : ℕ) (items : List Item)
    → a ≤ n
    → take a items ++ take (n - a) (drop a items) ≡ take n items
take-drop zero n items h = ap (λ m. take m items) (omega arith)
take-drop (suc a) zero items h = absurd (omega (arith, h))
take-drop (suc a) (suc n) [] h = take-none (suc n - suc a)
take-drop (suc a) (suc n) (x ∷ items) h =
    let e : suc n - suc a ≡ n - a = omega arith in
    rw e (ap (◌∷◌ x) (take-drop a n items (omega (arith, h))))

take-drop_last :
    (l n : ℕ) (items : List Item)
    → l ≤ n
    → take (n - l) items ++ take l (drop (n - l) items) ≡ take n items
take-drop_last l n items h =
    let e : n - (n - l) ≡ l = omega (arith, h) in
    subst (λ m. take (n - l) items ++ take m (drop (n - l) items) ≡ take n items) e
      (take-drop (n - l) n items (omega arith))

take-all : (n : ℕ) (items : List Item) → length items ≤ n → take n items ≡ items
take-all zero [] h = refl
take-all zero (x ∷ items) h = absurd (omega (arith, h))
take-all (suc n) [] h = refl
take-all (suc n) (x ∷ items) h = ap (◌∷◌ x) (take-all n items (omega (arith, h)))

page_last :
    (items : List Item) (before limit : ℕ)
    → length items - before ≤ page_limit limit
    → page items before limit ≡ (entries (take (length items - before) items), none)
unfolding page
page_last items before limit h = elim (Bool-cases (leb (length items) before)) [
  | inl e ↦ let z : length items - before ≡ 0 = ground (arith, e) in rw (e, page, z) refl
  | inr e ↦
      let z : (length items - before) - page_limit limit ≡ 0 = omega (arith, h) in
      let same : (length items - before) - 0 ≡ length items - before = omega arith in
      rw (e, page, z, same) refl
]

page_more :
    (items : List Item) (before limit : ℕ)
    → page_limit limit < length items - before
    → page items before limit ≡ (
      entries (take (page_limit limit) (drop ((length items - before) - page_limit limit) items)),
      some (before + page_limit limit),
    )
unfolding page
page_more items before limit h =
    let e : leb (length items) before ≡ false = ground (arith, h) in
    let f : (length items - before) - page_limit limit == 0 ≡ false = ground (arith, h) in
    let lim : (length items - before) - ((length items - before) - page_limit limit)
        ≡ page_limit limit =
      omega (arith, h) in
    let next : length items - ((length items - before) - page_limit limit)
        ≡ before + page_limit limit =
      omega (arith, h) in
    rw (e, page, f, lim, next) refl

read_back-take :
    (n : ℕ) (items : List Item) (before limit : ℕ)
    → length items - before ≤ n
    → read_back n items before limit ≡ entries (take (length items - before) items)
unfolding read_back
read_back-take zero items before limit h =
    let z : length items - before ≡ 0 = omega (arith, h) in rw z refl
read_back-take (suc n) items before limit h =
    elim (Bool-cases (leb (length items - before) (page_limit limit))) [
      | inl e ↦
          let last = page_last items before limit (ground (arith, e)) in
          rw (last, read_back) (ap (λ (r : List Entry × Option ℕ). r.0) last)
      | inr e ↦
          let more : page_limit limit < length items - before = ground (arith, e) in
          let room = (page_limit_lem limit).0 in
          let less : length items - (before + page_limit limit)
              ≡ (length items - before) - page_limit limit =
            omega arith in
          let front = take ((length items - before) - page_limit limit) items in
          let back =
            take (page_limit limit) (drop ((length items - before) - page_limit limit) items) in
          let shown = page_more items before limit more in
          rw
            (
              shown,
              read_back,
              read_back-take n items (before + page_limit limit) limit (omega (arith, h, room)),
              less,
            )
            (ap (λ (r : List Entry × Option ℕ). entries front ++ r.0) shown
              ∙ sym (map-append (λ (it : Item). it.e) front back)
              ∙ ap entries (
                  take-drop_last (page_limit limit) (length items - before) items
                    (omega (arith, more))))
    ]

-- Reading page after page from the newest back gives every entry of the chat exactly once and in
-- order, whatever page size is asked for: a page holds at least one entry, so as many pages as there
-- are entries are enough.
pub read_back-entries :
    (n : ℕ) (items : List Item) (limit : ℕ)
    → length items ≤ n
    → read_back n items 0 limit ≡ entries items
read_back-entries n items limit h =
    let all : length items - 0 ≡ length items = omega arith in
    read_back-take n items 0 limit (omega (arith, h))
    ∙ ap (λ k. entries (take k items)) all
    ∙ ap entries (take-all (length items) items (omega arith))
