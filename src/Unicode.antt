-- ===== src/Unicode.antt =====
-- The case tables of Go's unicode package, an argument of the code that folds case.
use lanxfer.Base.{
  Text, Bool, true, ◌≡◌, text_eq, text_eq_refl, map, ℕ, ◌+◌, ◌-◌, ◌&&◌, leb, if◌then◌else◌,
}

pub record Unicode : Type 0 where
  pub to_lower : Text → Text
  pub to_upper : Text → Text
  pub equal_fold : Text → Text → Bool
  pub equal_fold_refl : (s : Text) → equal_fold s s ≡ true

lower_byte : ℕ → ℕ
lower_byte c = if leb b'A' c && leb c b'Z' then c + 32 else c

upper_byte : ℕ → ℕ
upper_byte c = if leb b'a' c && leb c b'z' then c - 32 else c

ascii_fold : Text → Text → Bool
ascii_fold s t = text_eq (map lower_byte s) (map lower_byte t)

ascii_fold_refl : (s : Text) → ascii_fold s s ≡ true
unfolding ascii_fold
ascii_fold_refl s = text_eq_refl (map lower_byte s)

-- The tables on ASCII text.
unfoldable pub ascii : Unicode
unfolding lower_byte upper_byte ascii_fold ascii_fold_refl
ascii = record {
  to_lower = map lower_byte;
  to_upper = map upper_byte;
  equal_fold = ascii_fold;
  equal_fold_refl = ascii_fold_refl;
}
