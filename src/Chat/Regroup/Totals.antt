-- ===== src/Chat/Regroup/Totals.antt =====
-- Sums over the chats of a map.
use lanxfer.Base.{
  ℕ, ◌+◌, ◌≡◌, refl, ap, subst, ◌∙◌, inl, inr, Bool, List, [], ◌∷◌, ◌++◌, none, some, Text, arith,
  Bool-cases, Map, lookup, insert, delete, lookup-insert, lookup-delete, total, text_eq,
  text_eq_iff, count_by, count_by-append,
}
use lanxfer.History.{Entry}
use lanxfer.Chat.{Item, entries, Chat, chat_for}

-- Each key has one chat.
abbrev pub IsDistinct : Map Chat → Type 0
IsDistinct [] = Unit
IsDistinct ((k, c) ∷ m) = (lookup k m ≡ none) × IsDistinct m

module _ (p : Entry → Bool) where
  -- The entries with the property.
  abbrev pub tally : List Item → ℕ
  tally items = count_by (λ (it : Item). p it.e) items

  abbrev pub tally_of : Chat → ℕ
  tally_of c = tally c.items

  pub tally-append : (xs ys : List Item) → tally (xs ++ ys) ≡ tally xs + tally ys
  tally-append xs ys = count_by-append (λ (it : Item). p it.e) xs ys

  pub tally-entries : (items : List Item) → tally items ≡ count_by p (entries items)
  tally-entries [] = refl
  tally-entries (it ∷ items) = ground (arith, tally-entries items)

  -- Replacing and removing a chat.
  pub total-insert_over :
      (k : Text) (v : Chat) (m : Map Chat)
      → total tally_of (insert k v m) + tally_of (chat_for k m) ≡ total tally_of m + tally_of v
  unfolding insert chat_for lookup
  total-insert_over k v [] = omega arith
  total-insert_over k v ((j, w) ∷ m) = elim (Bool-cases (text_eq j k)) [
    | inl t ↦ rw (t, insert, chat_for, lookup) (omega arith)
    | inr f ↦ rw (f, insert, chat_for, lookup) (omega (arith, total-insert_over k v m))
  ]

  delete_absent : (k : Text) (m : Map Chat) → lookup k m ≡ none → delete k m ≡ m
  unfolding delete lookup
  delete_absent k [] h = refl
  delete_absent k ((j, w) ∷ m) h = elim (Bool-cases (text_eq j k)) [
    | inl t ↦ absurd (ground (arith, h, t))
    | inr f ↦ rw (f, delete) (ap (◌∷◌ (j, w)) (delete_absent k m (ground (arith, h, f))))
  ]

  pub total-delete :
      (k : Text) (c : Chat) (m : Map Chat)
      → IsDistinct m
      → lookup k m ≡ some c
      → total tally_of (delete k m) + tally_of c ≡ total tally_of m
  unfolding delete lookup
  total-delete k c [] h e = cc
  total-delete k c ((j, w) ∷ m) h e = elim (Bool-cases (text_eq j k)) [
    | inl t ↦
        let same : j ≡ k = (text_eq_iff j k).0 t in
        let gone : delete k m ≡ m = delete_absent k m (subst (λ i. lookup i m ≡ none) same h.0) in
        let it : w ≡ c = ground (arith, e, t) in
        rw (t, delete)
          (ap (λ x. total tally_of x + tally_of c) gone ∙ omega (arith, ap tally_of it))
    | inr f ↦ rw (f, delete) (omega (arith, total-delete k c m h.1 (ground (arith, e, f))))
  ]

pub insert-IsDistinct :
    (k : Text) (v : Chat) (m : Map Chat) → IsDistinct m → IsDistinct (insert k v m)
unfolding insert
insert-IsDistinct k v [] h = (unfold lookup in refl, tt)
insert-IsDistinct k v ((j, w) ∷ m) h = elim (Bool-cases (text_eq j k)) [
  | inl t ↦
      let same : j ≡ k = (text_eq_iff j k).0 t in
      rw (t, insert) (subst (λ i. lookup i m ≡ none) same h.0, h.1)
  | inr f ↦
      rw (f, insert)
        (
          lookup-insert k j v m ∙ ground (arith, h.0, f, text_eq_iff j k, text_eq_iff k j),
          insert-IsDistinct k v m h.1,
        )
]

pub delete-IsDistinct : (k : Text) (m : Map Chat) → IsDistinct m → IsDistinct (delete k m)
unfolding delete
delete-IsDistinct k [] h = tt
delete-IsDistinct k ((j, w) ∷ m) h = elim (Bool-cases (text_eq j k)) [
  | inl t ↦ rw (t, delete) (delete-IsDistinct k m h.1)
  | inr f ↦ rw (f, delete) (lookup-delete k j m ∙ ground (arith, h.0), delete-IsDistinct k m h.1)
]
