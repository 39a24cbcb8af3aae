-- ===== src/Base/Texts.antt =====
-- Go strings: lists of bytes, with the functions of package strings that the code calls.
use Prim.Native.Char.{code}
use Prim.Native.Nat.{ℕ}
use Prim.Native.String.{String}
use mathlib.Core.Path.{◌≡◌, refl, sym, ap, ◌∙◌}
use mathlib.Core.Logic.{◌↔◌, inl, inr}
use mathlib.Core.Bool.{Bool, true, false, ◌&&◌, ◌||◌}
use mathlib.Core.List.{List, [], ◌∷◌, ◌++◌, reverse, reverse-reverse, reverse-append}
use mathlib.Core.Option.{Option, none, some}
use native.Mathlib.Omega.{arith}
use lanxfer.Base.Tests.{◌==◌, ltb, if◌then◌else◌, Option-cases}

abbrev pub Text : Type 0
Text = List ℕ

-- A string literal of the source, which is ASCII.
abbrev pub codes : String → Text
codes (String.◌∷◌ letter more) = code letter ∷ codes more
codes String.[] = []

-- `a == b` on strings.
unfoldable pub text_eq : Text → Text → Bool
text_eq [] [] = true
text_eq [] (d ∷ t) = false
text_eq (c ∷ s) [] = false
text_eq (c ∷ s) (d ∷ t) = c == d && text_eq s t

pub text_eq_iff : (s t : Text) → (text_eq s t ≡ true) ↔ (s ≡ t)
unfolding text_eq
text_eq_iff [] [] = (λ _. refl, λ _. refl)
text_eq_iff [] (d ∷ t) = (λ e. cc, λ e. cc)
text_eq_iff (c ∷ s) [] = (λ e. cc, λ e. cc)
text_eq_iff (c ∷ s) (d ∷ t) =
    (λ e. ground (arith, text_eq_iff s t), λ e. ground (arith, text_eq_iff s t))

pub text_eq_refl : (s : Text) → text_eq s s ≡ true
text_eq_refl s = (text_eq_iff s s).1 refl

-- `strings.HasPrefix` with the rest, as `strings.CutPrefix`.
unfoldable pub cut_prefix : Text → Text → Option Text
cut_prefix [] s = some s
cut_prefix (c ∷ p) [] = none
cut_prefix (c ∷ p) (d ∷ s) = if c == d then cut_prefix p s else none

unfoldable pub has_prefix : Text → Text → Bool
unfolding cut_prefix
has_prefix s p = elim (cut_prefix p s) [ none ↦ false | some _ ↦ true ]

unfoldable pub trim_prefix : Text → Text → Text
unfolding cut_prefix
trim_prefix s p = elim (cut_prefix p s) [ none ↦ s | some r ↦ r ]

unfoldable pub has_suffix : Text → Text → Bool
unfolding has_prefix
has_suffix s x = has_prefix (reverse s) (reverse x)

unfoldable pub trim_suffix : Text → Text → Text
unfolding cut_prefix
trim_suffix s x = elim (cut_prefix (reverse x) (reverse s)) [ none ↦ s | some r ↦ reverse r ]

-- `strings.Split(s, sep)` for a separator of one byte.
unfoldable pub split_from : ℕ → Text → Text → List Text
split_from sep cur [] = cur ∷ []
split_from sep cur (c ∷ s) = elim (c == sep) [
  | true ↦ cur ∷ split_from sep [] s
  | false ↦ split_from sep (cur ++ c ∷ []) s
]

unfoldable pub split : Text → ℕ → List Text
unfolding split_from
split s sep = split_from sep [] s

split_slash : split (codes "a/b//c") b'/' ≡ codes "a" ∷ codes "b" ∷ [] ∷ codes "c" ∷ []
unfolding split
split_slash = refl

-- `strings.ContainsAny`, and one byte in a string.
unfoldable pub contains : ℕ → Text → Bool
contains b [] = false
contains b (c ∷ s) = c == b || contains b s

unfoldable pub contains_any : Text → Text → Bool
unfolding contains
contains_any s [] = false
contains_any s (b ∷ chars) = contains b s || contains_any s chars

pub cut_prefix-append : (p s : Text) → cut_prefix p (p ++ s) ≡ some s
unfolding cut_prefix
cut_prefix-append [] s = refl
cut_prefix-append (c ∷ p) s = ground (arith, cut_prefix-append p s)

pub append-cut_prefix : (p s r : Text) → cut_prefix p s ≡ some r → s ≡ p ++ r
unfolding cut_prefix
append-cut_prefix [] s r h = ground arith
append-cut_prefix (c ∷ p) [] r h = cc
append-cut_prefix (c ∷ p) (d ∷ s) r h = ground (arith, append-cut_prefix p s r)

has_prefix-some : (p s : Text) → cut_prefix p (p ++ s) ≡ some s → has_prefix (p ++ s) p ≡ true
unfolding has_prefix
has_prefix-some p s h = ground arith

-- `x` ends `s`.
abbrev pub EndsWith : Text → Text → Type 0
EndsWith s x = (t : Text) × (s ≡ t ++ x)

pub has_suffix_iff : (s x : Text) → (has_suffix s x ≡ true) ↔ EndsWith s x
unfolding has_suffix has_prefix
has_suffix_iff s x = (there, back)
  where
    there : has_suffix s x ≡ true → EndsWith s x
    there h = elim (Option-cases (cut_prefix (reverse x) (reverse s))) [
      | inl e ↦ absurd (ground arith)
      | inr (r, e) ↦ (
        reverse r,
        sym (reverse-reverse s)
            ∙ ap reverse (append-cut_prefix (reverse x) (reverse s) r e)
            ∙ reverse-append (reverse x) r
            ∙ ap (◌++◌ (reverse r)) (reverse-reverse x),
      )
    ]

    back : EndsWith s x → has_suffix s x ≡ true
    back (t, e) =
        rw (e, reverse-append t x)
          (has_prefix-some (reverse x) (reverse t) (cut_prefix-append (reverse x) (reverse t)))

pub split_from-append :
    (sep : ℕ) (cur a b : Text)
    → split_from sep cur (a ++ sep ∷ b) ≡ split_from sep cur a ++ split_from sep [] b
unfolding split_from
split_from-append sep cur [] b = ground arith
split_from-append sep cur (c ∷ a) b =
    ground (arith, split_from-append sep [] a b, split_from-append sep (cur ++ c ∷ []) a b)

-- Strings are compared byte by byte.
unfoldable pub text_ltb : Text → Text → Bool
text_ltb [] [] = false
text_ltb [] (c ∷ t) = true
text_ltb (c ∷ s) [] = false
text_ltb (c ∷ s) (d ∷ t) =
    let rest = text_ltb s t in if ltb c d then true else if ltb d c then false else rest
