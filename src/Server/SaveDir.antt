-- ===== src/Server/SaveDir.antt =====
-- internal/server/extract.go: `SaveDir`, which unpacks into a temporary folder and moves it.
pub mod Whole
use lanxfer.Base.{ℕ, ◌≡◌, Bool, true, false, [], Option, none, some, Text, Result, ok, err, insert}
use lanxfer.Unicode.{Unicode}
use lanxfer.Server.Filename.{validate_filename}
use lanxfer.Server.Storage.{
  Dir, folder, System, SaveError, invalid_filename, create_temp, commit, cleanup,
}
use lanxfer.Server.Extract.{Files, Extractor, ExtractError, Stream, extract_into}

pub data SaveDirError : Type 0 where
  bad_stream : ExtractError → SaveDirError
  not_saved : SaveError → SaveDirError

-- The final name, the number of files and their bytes.
pub record Received : Type 0 where
  pub final : Text
  pub files : ℕ
  pub content : ℕ

unfoldable pub report : ℕ → ℕ → Result SaveError Text × Dir → Result SaveDirError Received × Dir
report files content (ok final, d) =
    (ok (record { final = final; files = files; content = content }), d)
report files content (err e, d) = (err (not_saved e), d)

-- A refused stream leaves the temporary folder with some of its entries, which is then removed.
unfoldable pub refuse : System → Text → ExtractError → Dir → Result SaveDirError Received × Dir
refuse sys part e d =
    (err (bad_stream e), (cleanup sys part (err create_temp, insert part (folder []) d)).1)

-- `SaveDir` behind the extraction.
unfoldable pub settle :
    System
    → Text
    → Text
    → Result ExtractError (ℕ × Extractor)
    → Dir
    → Result SaveDirError Received × Dir
settle sys part name (err e) d = refuse sys part e d
settle sys part name (ok (files, ex)) d =
    report files ex.written
      (cleanup sys part (commit sys part name true (insert part (folder ex.root) d)))

unfoldable pub dir_with_part :
    System
    → Option Text
    → Text
    → Result ExtractError (ℕ × Extractor)
    → Dir
    → Result SaveDirError Received × Dir
dir_with_part sys none name unpacked d = (err (not_saved create_temp), d)
dir_with_part sys (some part) name unpacked d = settle sys part name unpacked d

unfoldable pub save_dir :
    System → Files → Unicode → Text → Text → Stream → ℕ → Dir → Result SaveDirError Received × Dir
save_dir sys fs u goos name s size d = elim (validate_filename u name goos) [
  | err e ↦ (err (not_saved (invalid_filename e)), d)
  | ok _ ↦ dir_with_part sys sys.part_name name (extract_into fs u goos s size) d
]
