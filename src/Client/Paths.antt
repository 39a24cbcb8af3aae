-- ===== src/Client/Paths.antt =====
-- Paths of accepted names, as a sender joins them and a receiver reads them.
use mathlib.Core.List.{reverse, reverse-reverse, reverse-append}
use lanxfer.Base.{
  ◌+◌, ◌≡◌, ◌≢◌, refl, ap, sym, subst, ◌∙◌, ◌⊎◌, inl, inr, append-nil, append_assoc, false, List,
  [], ◌∷◌, ◌++◌, Text, codes, arith, ltb, length, Bool-cases, Option-cases, ok, Result-unit-cases,
  All, split, split_from, split_from-append, text_eq, text_eq_iff, trim_suffix, trim_prefix,
  cut_prefix, append-cut_prefix,
}
use lanxfer.Unicode.{Unicode}
use lanxfer.Server.Filename.{validate_filename}
use lanxfer.Server.Filename.Safe.{IsSafeName, validate_filename-IsSafeName}
use lanxfer.Server.Extract.{check_parts, entry_path, max_entry_depth, max_entry_path_len}
use lanxfer.Server.Extract.Paths.{check_parts-IsSafeName}
use lanxfer.Client.{count_byte, check_entry_path, join}

All-right {ℓ} : {A : Type ℓ} (P : A → Type 0) (xs ys : List A) → All P (xs ++ ys) → All P ys
All-right P [] ys h = h
All-right P (x ∷ xs) ys h = All-right P xs ys h.1

length-split_from : (s cur : Text) → length (split_from b'/' cur s) ≡ count_byte b'/' s + 1
unfolding split_from count_byte
length-split_from [] cur = refl
length-split_from (c ∷ s) cur =
    ground (arith, length-split_from s [], length-split_from s (cur ++ c ∷ []))

split_from-whole :
    (s cur : Text) → All (λ c. (c ≢ b'/') × (c ≢ b'\\')) s → split_from b'/' cur s ≡ (cur ++ s) ∷ []
unfolding split_from
split_from-whole [] cur h = ap (λ x. x ∷ []) (sym (append-nil cur))
split_from-whole (c ∷ s) cur h =
    ground (arith, split_from-whole s (cur ++ c ∷ []) h.1, h.0, append_assoc cur (c ∷ []) s)

module _ (u : Unicode) (goos : Text) where
  check_parts-append :
      (xs ys : List Text)
      → check_parts u goos xs ≡ ok tt
      → check_parts u goos ys ≡ ok tt
      → check_parts u goos (xs ++ ys) ≡ ok tt
  unfolding check_parts
  check_parts-append [] ys h k = k
  check_parts-append (x ∷ xs) ys h k = elim (Result-unit-cases (validate_filename u x goos)) [
    | inl e ↦ ground (arith, e, check_parts-append xs ys (ground arith) k)
    | inr (bad, e) ↦ absurd (ground arith)
  ]

  -- A path of accepted names.
  abbrev pub AreNames : Text → Type 0
  AreNames rel = check_parts u goos (split rel b'/') ≡ ok tt

  names_safe : (rel : Text) → AreNames rel → All IsSafeName (split rel b'/')
  names_safe rel h = check_parts-IsSafeName u goos (split rel b'/') h

  not_ended : (rel t : Text) → AreNames rel → rel ≢ t ++ codes "/"
  unfolding split split_from
  not_ended rel t h e =
      let parts =
        subst (All IsSafeName) (ap (λ p. split p b'/') e ∙ split_from-append b'/' [] t [])
          (names_safe rel h) in
      (All-right IsSafeName (split t b'/') ([] ∷ []) parts).0.not_empty refl

  not_started : (rel t : Text) → AreNames rel → rel ≢ codes "./" ++ t
  unfolding split split_from
  not_started rel t h e =
      let parts =
        subst (All IsSafeName) (ap (λ p. split p b'/') e ∙ split_from-append b'/' [] (codes ".") t)
          (names_safe rel h) in
      parts.0.not_here refl

  pub trim_suffix-whole : (rel : Text) → AreNames rel → trim_suffix rel (codes "/") ≡ rel
  unfolding trim_suffix
  trim_suffix-whole rel h = elim (Option-cases (cut_prefix (reverse (codes "/")) (reverse rel))) [
    | inl e ↦ rw (e, trim_suffix) refl
    | inr (r, e) ↦ absurd (
        not_ended rel (reverse r) h (
          sym (reverse-reverse rel)
          ∙ ap reverse (append-cut_prefix (reverse (codes "/")) (reverse rel) r e)
          ∙ reverse-append (reverse (codes "/")) r))
  ]

  pub trim_suffix-slash : (rel : Text) → trim_suffix (rel ++ codes "/") (codes "/") ≡ rel
  unfolding trim_suffix
  trim_suffix-slash rel = rw (trim_suffix, reverse-append rel (codes "/")) (reverse-reverse rel)

  trim_prefix-whole : (rel : Text) → AreNames rel → trim_prefix rel (codes "./") ≡ rel
  unfolding trim_prefix
  trim_prefix-whole rel h = elim (Option-cases (cut_prefix (codes "./") rel)) [
    | inl e ↦ rw (e, trim_prefix) refl
    | inr (r, e) ↦ absurd (not_started rel r h (append-cut_prefix (codes "./") rel r e))
  ]

  not_here :
      (rel x : Text)
      → AreNames rel
      → (IsSafeName x → ⊥)
      → split x b'/' ≡ x ∷ []
      → text_eq rel x ≡ false
  not_here rel x h bad single = elim (Bool-cases (text_eq rel x)) [
    | inl e ↦ absurd (
        bad
          (subst (All IsSafeName) (ap (λ p. split p b'/') ((text_eq_iff rel x).0 e) ∙ single)
            (names_safe rel h)).0)
    | inr e ↦ e
  ]

  check_entry_path-bounds :
      (rel : Text)
      → check_entry_path rel ≡ ok tt
      → (ltb max_entry_depth (length (split rel b'/')) ≡ false)
        × (ltb max_entry_path_len (length rel) ≡ false)
  unfolding check_entry_path split
  check_entry_path-bounds rel h = ground (arith, length-split_from rel [])

  abbrev pub IsAccepted : Text → Type 0
  IsAccepted rel = AreNames rel × (check_entry_path rel ≡ ok tt)

  pub accepted_path :
      (rel name : Text)
      → IsAccepted rel
      → trim_suffix name (codes "/") ≡ rel
      → entry_path u goos name ≡ ok rel
  unfolding entry_path split
  accepted_path rel name (h, k) e =
      let (deep, long) = check_entry_path-bounds rel k in
      let p : trim_prefix (trim_suffix name (codes "/")) (codes "./") ≡ rel =
        ap (λ t. trim_prefix t (codes "./")) e ∙ trim_prefix-whole rel h in
      let empty : text_eq rel [] ≡ false = not_here rel [] h (λ x. x.not_empty refl) refl in
      let here : text_eq rel (codes ".") ≡ false =
        not_here rel (codes ".") h (λ x. x.not_here refl) refl in
      rw (entry_path, p, empty, here, long, deep, h) refl

  pub joined :
      (parent name : Text)
      → (parent ≡ []) ⊎ AreNames parent
      → validate_filename u name goos ≡ ok tt
      → AreNames (join parent name)
  unfolding join split check_parts
  joined [] name h k =
      let single =
        split_from-whole name [] (validate_filename-IsSafeName u name goos k).no_separator in
      rw single (ground (arith, k))
  joined (c ∷ parent) name (inl e) k = cc
  joined (c ∷ parent) name (inr h) k =
      let single =
        split_from-whole name [] (validate_filename-IsSafeName u name goos k).no_separator in
      rw (split_from-append b'/' [] (c ∷ parent) name, single)
        (check_parts-append (split (c ∷ parent) b'/') (name ∷ []) h (ground (arith, k)))
