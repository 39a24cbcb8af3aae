-- ===== src/Server/Terminal/Clean.antt =====
-- What `sanitize` lets through.
use lanxfer.Base.{
  ℕ, ◌/◌, ◌%◌, ◌≤◌, ◌<◌, ◌≡◌, ◌⊎◌, inl, inr, refl, true, ◌||◌, List, [], ◌∷◌, arith, Bool-cases,
  All, All-append, ltb, leb, ◌&&◌, ◌==◌,
}
use lanxfer.Server.Terminal.{
  is_unicode_control, is_bidi_control, hex_digit, escape, sanitize_rune, sanitize_runes,
}

-- A newline, a tab, or a rune that neither controls the terminal nor reorders the text.
abbrev pub IsShowable : ℕ → Type 0
IsShowable r =
    (r ≡ b'\n')
    ⊎ (r ≡ b'\t')
    ⊎ ((0x20 ≤ r)
        × ((r < 0x7F) ⊎ (0x9F < r))
        × ((r < 0x202A) ⊎ (0x202E < r))
        × ((r < 0x2066) ⊎ (0x2069 < r)))

hex_digit-IsShowable : (n : ℕ) → n < 16 → IsShowable (hex_digit n)
unfolding hex_digit
hex_digit-IsShowable n h = inr (inr (ground arith, ground arith, ground arith, ground arith))

escape-IsShowable : (r : ℕ) → All IsShowable (escape r)
unfolding escape
escape-IsShowable r = elim (Bool-cases (leb r 0x7F)) [
  | inl e ↦ rw (e, escape) (letter b'\\' refl, (letter b'x' refl, (digit (r / 16), (digit r, tt))))
  | inr e ↦
      rw (e, escape)
        (
          letter b'\\' refl,
          (
            letter b'u' refl,
            (digit (r / 4096), (digit (r / 256), (digit (r / 16), (digit r, tt)))),
          ),
        )
]
  where
    digit : (n : ℕ) → IsShowable (hex_digit (n % 16))
    digit n = hex_digit-IsShowable (n % 16) (omega arith)

    letter : (n : ℕ) → (leb 0x20 n && ltb n 0x7F) ≡ true → IsShowable n
    letter n h = inr (inr (ground arith, ground arith, ground arith, ground arith))

sanitize_rune-IsShowable : (r : ℕ) → All IsShowable (sanitize_rune r)
unfolding sanitize_rune is_unicode_control is_bidi_control
sanitize_rune-IsShowable r = elim (Bool-cases (r == b'\n' || r == b'\t')) [
  | inl plain ↦ rw (plain, sanitize_rune) (ground (arith, plain), tt)
  | inr other ↦ elim (Bool-cases (is_unicode_control r || is_bidi_control r)) [
    | inl bad ↦ rw (other, bad, sanitize_rune) (escape-IsShowable r)
    | inr good ↦ rw (other, good, sanitize_rune) (ground (arith, good), tt)
  ]
]

-- Of any text, valid UTF-8 or not, only showable runes are printed.
pub sanitize_runes-IsShowable : (rs : List ℕ) → All IsShowable (sanitize_runes rs)
unfolding sanitize_runes
sanitize_runes-IsShowable [] = tt
sanitize_runes-IsShowable (r ∷ rs) =
    All-append IsShowable (sanitize_rune r) (sanitize_runes rs) (sanitize_runes-IsShowable rs)
      (sanitize_rune-IsShowable r)
