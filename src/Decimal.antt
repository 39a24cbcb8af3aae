-- ===== src/Decimal.antt =====
-- The verb `%d` for numbers that are not negative.
use lanxfer.Base.{
  ℕ, zero, suc, ◌+◌, ◌-◌, ◌*◌, ◌/◌, ◌%◌, ◌<◌, ◌≡◌, refl, ap, sym, ◌∙◌, inl, inr, [], ◌∷◌, Text,
  codes, arith, ltb, if◌then◌else◌, Bool-cases,
}

-- One digit a round: more fuel than `n` is enough.
decimal_from : ℕ → ℕ → Text → Text
decimal_from zero n out = out
decimal_from (suc f) n out =
    let rest = decimal_from f (n / 10) ((b'0' + n % 10) ∷ out) in
    if ltb n 10 then (b'0' + n) ∷ out else rest

unfoldable pub decimal : ℕ → Text
unfolding decimal_from
decimal n = decimal_from (suc n) n []

decimal_9999 : decimal 9999 ≡ codes "9999"
unfolding decimal
decimal_9999 = refl

-- The number that digits stand for, after those read so far.
abbrev read_from : ℕ → Text → ℕ
read_from acc [] = acc
read_from acc (c ∷ s) = read_from (10 * acc + (c - b'0')) s

read_from-decimal_from :
    (f n : ℕ) (out : Text) → n < f → read_from 0 (decimal_from f n out) ≡ read_from n out
unfolding decimal_from
read_from-decimal_from zero n out h = absurd (omega (arith, h))
read_from-decimal_from (suc f) n out h = elim (Bool-cases (ltb n 10)) [
  | inl e ↦ rw e (ap (λ k. read_from k out) (omega arith))
  | inr e ↦ rw e (
      read_from-decimal_from f (n / 10) _ (ground (arith, h, e))
      ∙ ap (λ k. read_from k out) (ground arith))
]

pub decimal-injective : (m n : ℕ) → decimal m ≡ decimal n → m ≡ n
unfolding decimal
decimal-injective m n e =
    sym (read_from-decimal_from (suc m) m [] (omega arith))
    ∙ ap (read_from 0) e
    ∙ read_from-decimal_from (suc n) n [] (omega arith)
