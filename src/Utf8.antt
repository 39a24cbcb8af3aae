-- ===== src/Utf8.antt =====
-- The loop `for _, r := range s` of Go over the bytes of a string: a byte that starts no valid
-- UTF-8 sequence yields the rune 0xFFFD and advances by one byte.
use lanxfer.Base.{
  ℕ, zero, suc, ◌+◌, ◌*◌, ◌/◌, ◌%◌, ◌≤◌, ◌≡◌, refl, Bool, false, ◌&&◌, ◌||◌, List, [], ◌∷◌, arith,
  Text, ltb, leb, ◌==◌, if◌then◌else◌, any_by,
}

-- The byte at an offset, and 0, which continues no sequence, behind the end.
byte_at : ℕ → Text → ℕ
byte_at i [] = 0
byte_at zero (c ∷ s) = c
byte_at (suc i) (c ∷ s) = byte_at i s

in_range : ℕ → ℕ → ℕ → Bool
in_range lo hi c = leb lo c && leb c hi

-- The second byte is limited further behind 0xE0, 0xED, 0xF0 and 0xF4.
second : ℕ → ℕ → Bool
unfolding in_range
second a b =
    in_range (if a == 0xE0 then 0xA0 else if a == 0xF0 then 0x90 else 0x80)
      (if a == 0xED then 0x9F else if a == 0xF4 then 0x8F else 0xBF) b

-- The rune that byte `a` starts in front of `s`, and how many bytes of `s` belong to it.
decode_rune : ℕ → Text → ℕ × ℕ
unfolding byte_at in_range second
decode_rune a s =
    let b = byte_at 0 s in
    let c = byte_at 1 s in
    let d = byte_at 2 s in
    if ltb a 0x80
    then (a, 0)
    else if in_range 0xC2 0xDF a && second a b
    then (a % 32 * 64 + b % 64, 1)
    else if in_range 0xE0 0xEF a && (second a b && in_range 0x80 0xBF c)
    then (a % 16 * 4096 + b % 64 * 64 + c % 64, 2)
    else if in_range 0xF0 0xF4 a && (second a b && (in_range 0x80 0xBF c && in_range 0x80 0xBF d))
    then (a % 8 * 262144 + b % 64 * 4096 + c % 64 * 64 + d % 64, 3)
    else (0xFFFD, 0)

-- The first argument counts the bytes that still belong to the last rune.
runes_from : ℕ → Text → List ℕ
runes_from n [] = []
runes_from (suc n) (c ∷ s) = runes_from n s
runes_from zero (c ∷ s) = (decode_rune c s).0 ∷ runes_from (decode_rune c s).1 s

unfoldable pub runes : Text → List ℕ
unfolding runes_from decode_rune
runes s = runes_from 0 s

-- `utf8.AppendRune`, for runes that a decoding yields.
unfoldable pub encode_rune : ℕ → Text
encode_rune r =
    if ltb r 0x80
    then r ∷ []
    else if ltb r 0x800
    then (0xC0 + r / 64) ∷ (0x80 + r % 64) ∷ []
    else if ltb r 0x10000
    then (0xE0 + r / 4096) ∷ (0x80 + r / 64 % 64) ∷ (0x80 + r % 64) ∷ []
    else (0xF0 + r / 262144) ∷ (0x80 + r / 4096 % 64) ∷ (0x80 + r / 64 % 64) ∷ (0x80 + r % 64) ∷ []

-- `r < 0x20 || r == 0x7F`
unfoldable pub is_control : ℕ → Bool
is_control r = ltb r 0x20 || r == 0x7F

abbrev HighBytes : ℕ → Text → Type 0
HighBytes zero s = Unit
HighBytes (suc n) [] = Unit
HighBytes (suc n) (c ∷ s) = (0x80 ≤ c) × HighBytes n s

decode_rune-HighBytes : (a : ℕ) (s : Text) → HighBytes (decode_rune a s).1 s
unfolding decode_rune
decode_rune-HighBytes a [] = ground arith
decode_rune-HighBytes a (b ∷ []) = ground arith
decode_rune-HighBytes a (b ∷ c ∷ []) = ground arith
decode_rune-HighBytes a (b ∷ c ∷ d ∷ s) = ground arith

is_control-decode_rune : (a : ℕ) (s : Text) → is_control (decode_rune a s).0 ≡ is_control a
unfolding decode_rune is_control
is_control-decode_rune a s = ground arith

is_control_high : (c : ℕ) → 0x80 ≤ c → is_control c ≡ false
unfolding is_control
is_control_high c h = ground arith

any_control-runes_from :
    (n : ℕ) (s : Text) → HighBytes n s → any_by is_control (runes_from n s) ≡ any_by is_control s
unfolding runes_from
any_control-runes_from zero [] h = refl
any_control-runes_from (suc n) [] h = refl
any_control-runes_from (suc n) (c ∷ s) h =
    rw (is_control_high c h.0) (any_control-runes_from n s h.1)
any_control-runes_from zero (c ∷ s) h = rw (
  is_control-decode_rune c s,
  any_control-runes_from (decode_rune c s).1 s (decode_rune-HighBytes c s),
)

-- A string holds a control rune exactly when it holds a control byte.
pub any_control-runes : (s : Text) → any_by is_control (runes s) ≡ any_by is_control s
unfolding runes
any_control-runes s = any_control-runes_from 0 s tt

runes_mixed : runes (0x61 ∷ 0xC3 ∷ 0xA9 ∷ 0xFF ∷ []) ≡ 0x61 ∷ 0xE9 ∷ 0xFFFD ∷ []
unfolding runes
runes_mixed = refl
