-- ===== src/Transfer/Progress.antt =====
-- `scaleProgress`.
use native.Mathlib.Nat.{
  div-lt_iff_lt-mul, div-add-mod', div-le_of_le-mul, mul-le-mul, zero-div, zero-mul, mul-zero,
}
use lanxfer.Base.{
  ℕ, zero, suc, ◌+◌, ◌*◌, ◌/◌, ◌%◌, ◌^◌, ◌≤◌, ◌<◌, ◌≡◌, refl, sym, inl, inr, true, false, ◌||◌,
  Option, none, some, arith, Bool-cases, leb, ◌==◌, if◌then◌else◌,
}

-- bits.Mul64 gives the high and the low word of a product.
unfoldable pub mul64 : ℕ → ℕ → ℕ × ℕ
mul64 x y = (x * y / 2 ^ 64, x * y % 2 ^ 64)

-- bits.Div64 panics, here `none`, if the quotient does not fit.
unfoldable pub div64 : ℕ → ℕ → ℕ → Option ℕ
div64 hi lo y = if leb y hi then none else some ((hi * 2 ^ 64 + lo) / y)

-- A negative number reads as 0.
unfoldable pub scale_progress : ℕ → ℕ → ℕ → Option ℕ
scale_progress sent tar_size content =
    if sent == 0 || (tar_size == 0 || content == 0)
    then some 0
    else if leb tar_size sent
    then some content
    else div64 (mul64 sent content).0 (mul64 sent content).1 tar_size

div64_quotient : (n y : ℕ) → n < y * 2 ^ 64 → div64 (n / 2 ^ 64) (n % 2 ^ 64) y ≡ some (n / y)
unfolding div64
div64_quotient n y h =
    let word : 0 < 2 ^ 64 = ground arith in
    let low : n / 2 ^ 64 < y = (div-lt_iff_lt-mul word).1 h in
    let fits : leb y (n / 2 ^ 64) ≡ false = ground (arith, low) in
    rw (fits, div64, div-add-mod' n (2 ^ 64)) refl

product_in_range :
    (sent tar content : ℕ) → sent < tar → content < 2 ^ 63 → sent * content < tar * 2 ^ 64
product_in_range sent tar content s c =
    let first : sent * content ≤ tar * content = mul-le-mul (omega (arith, s)) (omega arith) in
    let second : tar * content ≤ tar * 2 ^ 63 = mul-le-mul (omega arith) (omega (arith, c)) in
    omega (arith, first, second, s)

-- What `scaleProgress` promises of its result.
pub record IsScaled (sent tar content q : ℕ) : Type 0 where
  pub bounded : q ≤ content
  pub whole : tar ≤ sent → 1 ≤ tar → q ≡ content
  pub part : sent < tar → q ≡ sent * content / tar

quotient-IsScaled :
    (sent tar content : ℕ) → sent < tar → IsScaled sent tar content (sent * content / tar)
quotient-IsScaled sent tar content s = record {
  bounded = div-le_of_le-mul tar (mul-le-mul (omega (arith, s)) (omega arith));
  whole = λ all _. absurd (omega (arith, s, all));
  part = λ _. refl;
}

zero_quotient : (n tar : ℕ) → n ≡ 0 → n / tar ≡ 0
zero_quotient n tar e = rw e (zero-div tar)

product_zero :
    (sent tar content : ℕ)
    → (sent == 0 || (tar == 0 || content == 0)) ≡ true
    → sent < tar
    → sent * content ≡ 0
product_zero zero tar content e s = zero-mul content
product_zero (suc sent) tar zero e s = mul-zero (suc sent)
product_zero (suc sent) tar (suc content) e s = absurd (ground (arith, e, s))

-- With content sizes in the range of int64, `scaleProgress` never panics in its division: for every
-- number of bytes sent its result is at most the content size, is the content size once the whole
-- stream was sent, and before that is the exact fraction, rounded down.
pub scale_progress_lem :
    (sent tar content : ℕ)
    → content < 2 ^ 63
    → (q : ℕ) × (scale_progress sent tar content ≡ some q) × IsScaled sent tar content q
unfolding scale_progress mul64
scale_progress_lem sent tar content c =
    elim (Bool-cases (sent == 0 || (tar == 0 || content == 0))) [
      | inl none_sent ↦ (
        0,
        rw none_sent refl,
        record {
          bounded = omega arith;
          whole = λ all some_tar. ground (arith, none_sent, all, some_tar);
          part = λ s.
              sym (zero_quotient (sent * content) tar (product_zero sent tar content none_sent s));
        },
      )
      | inr full ↦ elim (Bool-cases (leb tar sent)) [
        | inl all ↦ (
          content,
          rw (full, all) refl,
          record {
            bounded = omega arith;
            whole = λ _ _. refl;
            part = λ s. absurd (ground (arith, all, s));
          },
        )
        | inr some_left ↦
            let s : sent < tar = ground (arith, some_left) in
            (
              sent * content / tar,
              rw (full, some_left)
                  (div64_quotient (sent * content) tar (product_in_range sent tar content s c)),
              quotient-IsScaled sent tar content s,
            )
      ]
    ]
