-- ===== src/Server/Extract.antt =====
-- internal/server/extract.go: unpacking the tar stream of a folder.
pub mod Paths
pub mod Growth
pub mod Accepted
pub mod Unpacked
use mathlib.Core.List.{reverse}
use lanxfer.Base.{
  ℕ, ◌+◌, ◌-◌, ◌/◌, ◌^◌, ◌≡◌, refl, Bool, true, false, not, ◌||◌, List, [], ◌∷◌, ◌++◌, Option, none,
  some, min, Text, codes, ltb, leb, ◌==◌, length, if◌then◌else◌, Result, ok, err, ◌>>=◌, ◌>>◌,
  refuse_if, Map, lookup, insert, text_eq, trim_prefix, trim_suffix, split,
}
use lanxfer.Unicode.{Unicode, ascii}
use lanxfer.Server.Filename.{FilenameError, validate_filename}
use lanxfer.Server.Storage.{Leaf, dir, regular}

abbrev pub max_entry_depth : ℕ
max_entry_depth = 64

abbrev pub max_entry_path_len : ℕ
max_entry_path_len = 4096

-- All but the last three are `ErrInvalidEntry`.
pub data ExtractError : Type 0 where
  bad_header sparse path_too_long too_deep : ExtractError
  bad_part : FilenameError → ExtractError
  file_and_folder letter_case too_many_folders too_large twice wrong_type : ExtractError
  read_failed os_failed incomplete_stream : ExtractError

unfoldable pub check_parts : Unicode → Text → List Text → Result ExtractError (Unit {0})
check_parts u goos [] = ok tt
check_parts u goos (part ∷ parts) = elim (validate_filename u part goos) [
  | err e ↦ err (bad_part e)
  | ok _ ↦ check_parts u goos parts
]

unfoldable pub entry_path : Unicode → Text → Text → Result ExtractError Text
entry_path u goos name =
    let p = trim_prefix (trim_suffix name (codes "/")) (codes "./") in
    if text_eq p [] || text_eq p (codes ".") then ok [] else do
      refuse_if (ltb max_entry_path_len (length p)) path_too_long
      refuse_if (ltb max_entry_depth (length (split p b'/'))) too_deep
      check_parts u goos (split p b'/')
      ok p

unfoldable pub folder_budget : ℕ → ℕ
folder_budget size = min (size / 512) (2 ^ 30) + max_entry_depth

-- `canon` is the file system's view of a path: the same for names that it takes to be one.
pub record Files : Type 0 where
  pub canon : Text → Text
  pub mkdir_ok : Text → Bool
  pub open_ok : Text → Bool
  pub times_ok : Bool

pub record Extractor : Type 0 where
  pub root : Map Leaf
  pub created : Map Bool
  pub written : ℕ
  pub limit : ℕ
  pub folders : ℕ
  pub max_dirs : ℕ

abbrev pub exists : Files → Text → Extractor → Bool
exists fs path ex = elim (lookup (fs.canon path) ex.root) [ none ↦ false | some _ ↦ true ]

-- One round of `mkdirAll`.
unfoldable pub make_dir : Files → Text → Extractor → Result ExtractError Extractor
make_dir fs prefix ex = elim (lookup prefix ex.created) [
  | some is_dir ↦ if is_dir then ok ex else err file_and_folder
  | none ↦
      if exists fs prefix ex
      then err letter_case
      else if leb ex.max_dirs ex.folders
      then err too_many_folders
      else if not (fs.mkdir_ok prefix)
      then err os_failed
      else ok (record ex {
        root = insert (fs.canon prefix) dir ex.root;
        created = insert prefix true ex.created;
        folders = ex.folders + 1;
      })
]

-- `mkdirAll`, with the bytes of the path before the index and from it on.
unfoldable pub mkdir_from : Files → Text → Text → Extractor → Result ExtractError Extractor
mkdir_from fs done [] ex = make_dir fs done ex
mkdir_from fs done (c ∷ rest) ex = elim (c == b'/') [
  | true ↦ make_dir fs done ex >>= mkdir_from fs (done ++ c ∷ []) rest
  | false ↦ mkdir_from fs (done ++ c ∷ []) rest ex
]

abbrev pub mkdir_all : Files → Text → Extractor → Result ExtractError Extractor
mkdir_all fs rel ex = mkdir_from fs [] rel ex

pub data EntryType : Type 0 where
  type_dir type_reg type_other : EntryType

-- A tar entry: its header, the bytes that its reader yields, and whether the reader then ended.
pub record Entry : Type 0 where
  pub name : Text
  pub type_flag : EntryType
  pub size : ℕ
  pub exec : Bool
  pub is_sparse : Bool
  pub content : Text
  pub content_ok : Bool

-- The path in front of the last slash, from the path reversed.
unfoldable pub parent_from : Text → Option Text
parent_from [] = none
parent_from (c ∷ s) = let more = parent_from s in if c == b'/' then some (reverse s) else more

unfoldable pub make_parent : Files → Text → Extractor → Result ExtractError Extractor
unfolding parent_from
make_parent fs rel ex = elim (parent_from (reverse rel)) [
  | none ↦ ok ex
  | some parent ↦ mkdir_all fs parent ex
]

-- `writeEntry` behind the folder of the file.
unfoldable pub put_file : Files → Text → Entry → Extractor → Result ExtractError Extractor
put_file fs rel e ex = elim (lookup rel ex.created) [
  | some is_dir ↦ err (if is_dir then file_and_folder else twice)
  | none ↦
      if exists fs rel ex
      then err twice
      else if not (fs.open_ok rel)
      then err os_failed
      else if not e.content_ok
      then err read_failed
      else if not fs.times_ok
      then err os_failed
      else ok (record ex {
        root = insert (fs.canon rel) (regular e.exec e.content) ex.root;
        created = insert rel false ex.created;
        written = ex.written + length e.content;
      })
]

unfoldable pub write_entry : Files → Text → Entry → Extractor → Result ExtractError Extractor
write_entry fs rel e ex =
    if ltb (ex.limit - ex.written) e.size
    then err too_large
    else make_parent fs rel ex >>= put_file fs rel e

-- What `tr.Next` returns before the end of the archive.
pub data Item : Type 0 where
  entry : Entry → Item
  header_error io_error : Item

-- The switch on the type of an entry. The result counts the files.
unfoldable pub store_entry :
    Files → EntryType → Text → Entry → ℕ → Extractor → Result ExtractError (ℕ × Extractor)
store_entry fs type_dir rel e files ex = mkdir_all fs rel ex >>= λ ex'. ok (files, ex')
store_entry fs type_reg rel e files ex = write_entry fs rel e ex >>= λ ex'. ok (files + 1, ex')
store_entry fs type_other rel e files ex = err wrong_type

-- One entry of the loop of `extractInto`.
unfoldable pub take_entry :
    Files → Unicode → Text → Entry → ℕ → Extractor → Result ExtractError (ℕ × Extractor)
take_entry fs u goos e files ex =
    if e.is_sparse
    then err sparse
    else entry_path u goos e.name >>= λ rel.
        if text_eq rel [] then ok (files, ex) else store_entry fs e.type_flag rel e files ex

unfoldable pub extract_items :
    Files → Unicode → Text → List Item → ℕ → Extractor → Result ExtractError (ℕ × Extractor)
extract_items fs u goos [] files ex = ok (files, ex)
extract_items fs u goos (header_error ∷ items) files ex = err bad_header
extract_items fs u goos (io_error ∷ items) files ex = err read_failed
extract_items fs u goos (entry e ∷ items) files ex = elim (take_entry fs u goos e files ex) [
  | err e' ↦ err e'
  | ok (files', ex') ↦ extract_items fs u goos items files' ex'
]

unfoldable pub start : ℕ → Extractor
start size = record {
  root = [];
  created = [];
  written = 0;
  limit = size;
  folders = 0;
  max_dirs = folder_budget size;
}

-- The stream: its entries, whether what follows them can be read, and the bytes read in all.
pub record Stream : Type 0 where
  pub items : List Item
  pub rest_ok : Bool
  pub total : ℕ

unfoldable pub extract_into :
    Files → Unicode → Text → Stream → ℕ → Result ExtractError (ℕ × Extractor)
extract_into fs u goos s size = extract_items fs u goos s.items 0 (start size) >>= λ r.
    (if not s.rest_ok
      then err read_failed
      else if not (s.total == size)
      then err incomplete_stream
      else if not fs.times_ok
      then err os_failed
      else ok r)
