-- ===== src/Base/Lists.antt =====
-- Lists measured and indexed by native numbers, and predicates on all elements.
use Prim.Native.Nat.{ℕ, zero, suc, ◌+◌}
use mathlib.Core.Path.{◌≡◌, refl, sym, ap, ◌∙◌}
use mathlib.Core.Logic.{◌⊎◌, inl, inr}
use mathlib.Core.Bool.{Bool, true, false, ◌&&◌, ◌||◌}
use mathlib.Core.List.{List, [], ◌∷◌, ◌++◌}
use native.Mathlib.Omega.{arith}
use lanxfer.Base.Tests.{if◌then◌else◌, Bool-cases}

module _ {ℓ} {A : Type ℓ} where
  abbrev pub length : List A → ℕ
  length [] = 0
  length (x ∷ xs) = suc (length xs)

  abbrev pub take : ℕ → List A → List A
  take zero xs = []
  take (suc n) [] = []
  take (suc n) (x ∷ xs) = x ∷ take n xs

  abbrev pub drop : ℕ → List A → List A
  drop zero xs = xs
  drop (suc n) [] = []
  drop (suc n) (x ∷ xs) = drop n xs

  -- `filter` of the library wants a decision; the code's tests are Booleans.
  abbrev pub filter_by : (A → Bool) → List A → List A
  filter_by p [] = []
  filter_by p (x ∷ xs) = if p x then x ∷ filter_by p xs else filter_by p xs

  abbrev pub all_by : (A → Bool) → List A → Bool
  all_by p [] = true
  all_by p (x ∷ xs) = p x && all_by p xs

  abbrev pub any_by : (A → Bool) → List A → Bool
  any_by p [] = false
  any_by p (x ∷ xs) = p x || any_by p xs

  abbrev pub count_by : (A → Bool) → List A → ℕ
  count_by p [] = 0
  count_by p (x ∷ xs) = if p x then suc (count_by p xs) else count_by p xs

  abbrev pub All {κ} : (A → Type κ) → List A → Type κ
  All P [] = Unit
  All P (x ∷ xs) = P x × All P xs

  pub length-append : (xs ys : List A) → length (xs ++ ys) ≡ length xs + length ys
  length-append [] ys = omega arith
  length-append (x ∷ xs) ys = omega (arith, length-append xs ys)

  pub count_by-append :
      (p : A → Bool) (xs ys : List A) → count_by p (xs ++ ys) ≡ count_by p xs + count_by p ys
  count_by-append p [] ys = omega arith
  count_by-append p (x ∷ xs) ys = ground (arith, count_by-append p xs ys)

  pub All-append {κ} :
      (P : A → Type κ) (front back : List A) → All P back → All P front → All P (front ++ back)
  All-append P [] back tail_ok _ = tail_ok
  All-append P (y ∷ front) back tail_ok both = (both.0, All-append P front back tail_ok both.1)

-- Membership, with the place.
pub data In {ℓ} {A : Type ℓ} (a : A) : List A → Type ℓ where
  here : {x : A} {xs : List A} → x ≡ a → In a (x ∷ xs)
  there : {x : A} {xs : List A} → In a xs → In a (x ∷ xs)

pub In-cons {ℓ} : {A : Type ℓ} {a x : A} {xs : List A} → In a (x ∷ xs) → (x ≡ a) ⊎ In a xs
In-cons (here e) = inl e
In-cons (there i) = inr i

module _ {ℓ} {A : Type ℓ} (p : A → Bool) where
  pub In-filter_by : (xs : List A) (a : A) → In a (filter_by p xs) → In a xs × (p a ≡ true)
  In-filter_by [] a i = elim i [ ]
  In-filter_by (x ∷ xs) a i = elim (Bool-cases (p x)) [
    | inr e ↦ let (later, holds) = In-filter_by xs a (rw e at i) in (there later, holds)
    | inl e ↦
        let j : In a (x ∷ filter_by p xs) = rw e at i in
        elim (In-cons j) [
          | inl same ↦ (here same, ap p (sym same) ∙ e)
          | inr rest ↦ (there (In-filter_by xs a rest).0, (In-filter_by xs a rest).1)
        ]
  ]

  pub filter_by-In : (xs : List A) (a : A) → In a xs → p a ≡ true → In a (filter_by p xs)
  filter_by-In [] a i h = elim i [ ]
  filter_by-In (x ∷ xs) a (here e) h = rw (ap p e ∙ h) (here e)
  filter_by-In (x ∷ xs) a (there i) h = elim (Bool-cases (p x)) [
    | inl e ↦ rw e (there (filter_by-In xs a i h))
    | inr e ↦ rw e (filter_by-In xs a i h)
  ]

  pub length-filter_by : (xs : List A) → length (filter_by p xs) ≡ count_by p xs
  length-filter_by [] = refl
  length-filter_by (x ∷ xs) = ground (arith, length-filter_by xs)
