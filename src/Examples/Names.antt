-- ===== src/Examples/Names.antt =====
-- Peer names, device IDs and file names at concrete inputs.
use lanxfer.Base.{refl, [], ◌∷◌, Text, codes, text_eq, contains_any, has_suffix}
use lanxfer.Unicode.{ascii}
use lanxfer.Utf8.{runes, is_control}
use lanxfer.Server.Filename.{validate_filename, check_name_length, is_part}
use lanxfer.Server.Filename.Safe.{IsAllowed, validate_filename-IsAllowed}

abbrev accented : Text
accented = 0xC3 ∷ 0xA9 ∷ 0x31 ∷ []

validate_filename-IsAllowed_example : IsAllowed ascii (codes "windows") (codes ".profile.txt")
unfolding validate_filename check_name_length is_part text_eq contains_any runes is_control
    has_suffix ascii
validate_filename-IsAllowed_example =
    (validate_filename-IsAllowed ascii (codes ".profile.txt") (codes "windows")).0 refl
