-- ===== src/Examples/Storage.antt =====
-- `Save` into a folder that holds `a.txt` already.
use lanxfer.Base.{
  ◌≡◌, refl, subst, true, false, [], ◌∷◌, some, none, Text, codes, ok, arith, lookup, insert,
  text_eq, contains_any, has_suffix, trim_suffix,
}
use lanxfer.Unicode.{ascii}
use lanxfer.Utf8.{runes, is_control}
use lanxfer.Decimal.{decimal}
use lanxfer.Server.Filename.{validate_filename, check_name_length, is_part}
use lanxfer.Server.Numbered.{numbered_name, ext}
use lanxfer.Server.Storage.{System, Dir, file, save, commit, cleanup}
use lanxfer.Server.Storage.Save.{IsFresh, SaveOutcome, save-SaveOutcome, save_total}

abbrev part : Text
part = codes ".lanxfer-1.part"

abbrev pub quiet : System
quiet = record {
  part_name = some part;
  close_ok = true;
  reserve_ok = λ _. true;
  reserve_close_ok = λ _. true;
  remove_ok = true;
  rename_ok = true;
  left = none;
}

abbrev pub received : Dir
received = (codes "a.txt", file (codes "old")) ∷ []

pub received-IsFresh : IsFresh quiet received
unfolding lookup text_eq
received-IsFresh p e = let same : part ≡ p = cc in subst (λ q. lookup q received ≡ none) same refl

save-SaveOutcome_example :
    SaveOutcome quiet ascii
      (codes "linux")
      (codes "a.txt")
      (codes "new")
      true
      3
      received
      (save quiet ascii (codes "linux") (codes "a.txt") (codes "new") true 3 received)
save-SaveOutcome_example =
    save-SaveOutcome quiet ascii (codes "linux") (codes "a.txt") (codes "new") true 3 received
      received-IsFresh refl

save_total_example :
    (final : Text) × ((save quiet ascii
        (codes "linux")
        (codes "a.txt")
        (codes "new")
        true
        3
        received).0
      ≡ ok final)
unfolding validate_filename check_name_length is_part text_eq contains_any runes is_control
    has_suffix ascii numbered_name ext decimal trim_suffix lookup insert
save_total_example =
    save_total quiet ascii (codes "linux") part (codes "a.txt") (codes "new") 1 received
      (record {
        made = refl;
        closes = refl;
        reserves = λ _. refl;
        closes_reserved = λ _. refl;
        renames = refl;
      })
      refl (omega arith) refl

-- The placeholder cannot be closed: it stays, although `Save` fails.
unclosed :
    lookup
      (codes "b.txt")
      (save
        (record quiet { reserve_close_ok = λ _. false })
        ascii
        (codes "linux")
        (codes "b.txt")
        (codes "new")
        true
        3
        received).1
    ≡ some (file [])
unfolding save commit cleanup validate_filename check_name_length is_part text_eq contains_any runes
    is_control has_suffix ascii numbered_name ext decimal trim_suffix lookup insert
    lanxfer.Base.delete
unclosed = refl
