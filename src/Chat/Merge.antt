-- ===== src/Chat/Merge.antt =====
-- `mergeByTime`.
use lanxfer.Base.{
  ℕ, ◌+◌, ◌≤◌, ◌≡◌, refl, ap, subst, ◌∙◌, sym, inl, inr, Bool, false, List, [], ◌∷◌, ◌++◌, arith,
  ltb, Bool-cases, count_by,
}
use lanxfer.Chat.{Item, merge, last_time, merge_by_time}

-- The entries stand in the order of their times, from a time on.
abbrev pub IsSortedFrom : ℕ → List Item → Type 0
IsSortedFrom t [] = Unit
IsSortedFrom t (x ∷ items) = (t ≤ x.e.time) × IsSortedFrom x.e.time items

abbrev pub IsSorted : List Item → Type 0
IsSorted items = IsSortedFrom 0 items

-- The last entry is the latest.
last_time_lem :
    (x : Item) (items : List Item) → IsSortedFrom x.e.time items → x.e.time ≤ last_time x items
unfolding last_time
last_time_lem x [] h = omega arith
last_time_lem x (y ∷ items) h = omega (arith, h.0, last_time_lem y items h.1)

merge_later :
    (x y : Item) (dst add : List Item)
    → x.e.time ≤ y.e.time
    → merge (x ∷ dst) (y ∷ add) ≡ x ∷ merge dst (y ∷ add)
unfolding merge
merge_later x y dst add late =
    let e : ltb y.e.time x.e.time ≡ false = ground (arith, late) in rw (e, merge) refl

-- The short cut of `mergeByTime` is the merge.
merge-append :
    (x y : Item) (dst add : List Item)
    → IsSortedFrom x.e.time dst
    → last_time x dst ≤ y.e.time
    → merge (x ∷ dst) (y ∷ add) ≡ (x ∷ dst) ++ (y ∷ add)
unfolding last_time
merge-append x y [] add h late = merge_later x y [] add late ∙ ap (◌∷◌ x) (unfold merge in refl)
merge-append x y (z ∷ dst) add h late =
    merge_later x y (z ∷ dst) add (omega (arith, late, h.0, last_time_lem z dst h.1))
    ∙ ap (◌∷◌ x) (merge-append z y dst add h.1 late)

pub merge-count_by :
    (p : Item → Bool) (dst add : List Item)
    → count_by p (merge dst add) ≡ count_by p dst + count_by p add
unfolding merge
merge-count_by p [] add = omega arith
merge-count_by p (x ∷ dst) [] = ground arith
merge-count_by p (x ∷ dst) (y ∷ add) =
    ground (arith, merge-count_by p (x ∷ dst) add, merge-count_by p dst (y ∷ add))

merge-IsSortedFrom :
    (t : ℕ) (dst add : List Item)
    → IsSortedFrom t dst
    → IsSortedFrom t add
    → IsSortedFrom t (merge dst add)
unfolding merge
merge-IsSortedFrom t [] add hd ha = ha
merge-IsSortedFrom t (x ∷ dst) [] hd ha = hd
merge-IsSortedFrom t (x ∷ dst) (y ∷ add) hd ha = elim (Bool-cases (ltb y.e.time x.e.time)) [
  | inl e ↦
      rw (e, merge) (ha.0, merge-IsSortedFrom y.e.time (x ∷ dst) add (ground arith, hd.1) ha.1)
  | inr e ↦
      rw (e, merge) (hd.0, merge-IsSortedFrom x.e.time dst (y ∷ add) hd.1 (ground arith, ha.1))
]

merge_by_time-merge : (dst add : List Item) → IsSorted dst → merge_by_time dst add ≡ merge dst add
unfolding merge_by_time merge
merge_by_time-merge [] [] h = refl
merge_by_time-merge (x ∷ dst) [] h = refl
merge_by_time-merge [] (y ∷ add) h = refl
merge_by_time-merge (x ∷ dst) (y ∷ add) h = elim (Bool-cases (ltb y.e.time (last_time x dst))) [
  | inl e ↦ rw (e, merge_by_time) refl
  | inr e ↦ rw (e, merge_by_time) (sym (merge-append x y dst add h.1 (ground arith)))
]

-- Of two lists in the order of time `mergeByTime` makes the list that a plain merge makes, short cut
-- or not: it is in the order of time and has every entry of both as often as they have it.
pub merge_by_time_lem :
    (dst add : List Item)
    → IsSorted dst
    → IsSorted add
    → (merge_by_time dst add ≡ merge dst add)
      × IsSorted (merge_by_time dst add)
      × ((p : Item → Bool) → count_by p (merge_by_time dst add) ≡ count_by p dst + count_by p add)
merge_by_time_lem dst add hd ha =
    let e = merge_by_time-merge dst add hd in
    (
      e,
      subst IsSorted (sym e) (merge-IsSortedFrom 0 dst add hd ha),
      λ p. ap (count_by p) e ∙ merge-count_by p dst add,
    )
