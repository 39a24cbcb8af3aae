-- ===== src/Server/Filename.antt =====
-- internal/server/storage.go: which names a receiver accepts.
pub mod Safe
use lanxfer.Base.{
  ℕ, ◌+◌, ◌≡◌, refl, Bool, true, false, ◌||◌, ◌&&◌, not, List, [], ◌∷◌, Option, none, some, Text,
  codes, ltb, ◌==◌, length, if◌then◌else◌, any_by, Result, ok, err, ◌>>=◌, ◌>>◌, refuse_if, text_eq,
  cut_prefix, contains, contains_any, has_suffix,
}
use lanxfer.Unicode.{Unicode, ascii}
use lanxfer.Utf8.{runes, is_control}

pub data FilenameError : Type 0 where
  empty_or_dots too_long separator control_character : FilenameError
  windows_character trailing reserved temporary : FilenameError

abbrev pub windows : Text
windows = codes "windows"

abbrev pub darwin : Text
darwin = codes "darwin"

abbrev pub windows_reserved : List Text
windows_reserved =
    codes "CON"
    ∷ codes "PRN"
    ∷ codes "AUX"
    ∷ codes "NUL"
    ∷ codes "COM1"
    ∷ codes "COM2"
    ∷ codes "COM3"
    ∷ codes "COM4"
    ∷ codes "COM5"
    ∷ codes "COM6"
    ∷ codes "COM7"
    ∷ codes "COM8"
    ∷ codes "COM9"
    ∷ codes "LPT1"
    ∷ codes "LPT2"
    ∷ codes "LPT3"
    ∷ codes "LPT4"
    ∷ codes "LPT5"
    ∷ codes "LPT6"
    ∷ codes "LPT7"
    ∷ codes "LPT8"
    ∷ codes "LPT9"
    ∷ []

-- `utf16.RuneLen`, for the runes of a string, which are no surrogates.
rune_len : ℕ → ℕ
rune_len r = if ltb r 0x10000 then 1 else 2

pub units : List ℕ → ℕ
unfolding rune_len
units [] = 0
units (r ∷ rs) = rune_len r + units rs

unfoldable pub check_name_length : Text → Text → Result FilenameError (Unit {0})
unfolding units
check_name_length name goos =
    refuse_if
      (ltb 255
        (if text_eq goos darwin || text_eq goos windows then units (runes name) else length name))
      too_long

-- `filepath.Match(".lanxfer-*.part", name)`: the star stands for no separator.
unfoldable pub is_part : Text → Bool
is_part name = elim (cut_prefix (codes ".lanxfer-") name) [
  | none ↦ false
  | some rest ↦ has_suffix rest (codes ".part") && not (contains b'/' rest)
]

-- `/` and `\`, and what Windows does not allow.
abbrev separators : Text
separators = codes "/\\"

abbrev windows_characters : Text
windows_characters = codes "<>:\"|?*"

unfoldable pub validate_filename : Unicode → Text → Text → Result FilenameError (Unit {0})
validate_filename u name goos = do
  refuse_if (text_eq name [] || (text_eq name (codes ".") || text_eq name (codes "..")))
      empty_or_dots
  check_name_length name goos
  refuse_if (contains_any name separators) separator
  refuse_if (any_by is_control (runes name)) control_character
  refuse_if (text_eq goos windows && contains_any name windows_characters) windows_character
  refuse_if (has_suffix name (codes ".") || has_suffix name (codes " ")) trailing
  refuse_if (any_by (text_eq (u.to_upper name)) windows_reserved) reserved
  refuse_if (is_part name) temporary
  ok tt

accepts_photo : validate_filename ascii (codes "photo 1.jpg") (codes "linux") ≡ ok tt
unfolding validate_filename check_name_length is_part text_eq contains_any runes is_control
    has_suffix ascii
accepts_photo = refl

refuses_parent : validate_filename ascii (codes "../x") (codes "linux") ≡ err separator
unfolding validate_filename check_name_length is_part text_eq contains_any runes is_control
    has_suffix ascii
refuses_parent = refl

refuses_nul : validate_filename ascii (codes "nul") (codes "darwin") ≡ err reserved
unfolding validate_filename check_name_length is_part text_eq contains_any runes is_control
    has_suffix ascii
refuses_nul = refl

refuses_part : validate_filename ascii (codes ".lanxfer-7.part") (codes "darwin") ≡ err temporary
unfolding validate_filename check_name_length is_part text_eq contains_any runes is_control
    has_suffix ascii
refuses_part = refl
