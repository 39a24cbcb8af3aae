-- ===== src/Peername.antt =====
-- internal/peername/peername.go: the names that machines announce to each other.
pub mod Bounds
use lanxfer.Base.{
  ℕ, ◌≤◌, ◌≡◌, refl, Bool, true, false, ◌||◌, List, [], ◌∷◌, arith, Text, codes, ltb, ◌==◌, length,
  if◌then◌else◌, any_by, Result, ok, err, ◌>>=◌, ◌>>◌, refuse_if, text_eq, trim_suffix,
}
use lanxfer.Utf8.{runes, is_control}

abbrev pub max_len : ℕ
max_len = 64

pub data NameError : Type 0 where
  bad_length control_character : NameError

unfoldable pub validate : Text → Result NameError (Unit {0})
validate name = do
  refuse_if (length name == 0 || ltb max_len (length name)) bad_length
  refuse_if (any_by is_control (runes name)) control_character
  ok tt

abbrev pub lanxfer_name : Text
lanxfer_name = codes "lanxfer"

abbrev or_lanxfer : Result NameError (Unit {0}) → Text → Result NameError Text
or_lanxfer (ok _) name = ok name
or_lanxfer (err _) name = ok lanxfer_name

-- `Default`: a given flag must be valid, a host name need not be.
unfoldable pub default_name : Text → Text → Result NameError Text
default_name [] hostname =
    let name = trim_suffix hostname (codes ".local") in or_lanxfer (validate name) name
default_name (c ∷ flag) hostname = do validate (c ∷ flag); ok (c ∷ flag)

default_host : default_name [] (codes "mac1.local") ≡ ok (codes "mac1")
unfolding default_name validate trim_suffix runes is_control
default_host = refl

default_bad_host : default_name [] [] ≡ ok lanxfer_name
unfolding default_name validate trim_suffix
default_bad_host = refl
