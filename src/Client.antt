-- ===== src/Client.antt =====
-- internal/client/senddir.go: the walk of `ScanDir` over what stands below a folder.
pub mod Stream
pub mod Scan
pub mod Paths
pub mod Accepted
pub mod Scanned
pub mod Record
pub mod Send
pub mod Peers
use lanxfer.Base.{
  ℕ, ◌+◌, ◌*◌, ◌/◌, ◌≡◌, refl, Bool, true, false, not, ◌||◌, List, [], ◌∷◌, ◌++◌, Option, none,
  some, Text, codes, ltb, ◌==◌, length, if◌then◌else◌, any_by, Result, ok, err, ◌>>◌, ◌>>=◌,
  refuse_if, text_eq, has_prefix,
}
use lanxfer.Unicode.{Unicode}
use lanxfer.Server.Filename.{FilenameError, validate_filename}
use lanxfer.Server.Extract.{max_entry_depth, max_entry_path_len}

abbrev pub junk_files : List Text
junk_files = codes ".DS_Store" ∷ codes "Icon\r" ∷ codes "Thumbs.db" ∷ codes "desktop.ini" ∷ []

abbrev pub junk_dirs : List Text
junk_dirs =
    codes "__MACOSX"
    ∷ codes ".Spotlight-V100"
    ∷ codes ".fseventsd"
    ∷ codes ".Trashes"
    ∷ codes ".TemporaryItems"
    ∷ codes ".DocumentRevisions-V100"
    ∷ []

unfoldable pub is_junk : Text → Bool → Bool
is_junk name true = any_by (text_eq name) junk_dirs
is_junk name false = any_by (text_eq name) junk_files || has_prefix name (codes "._")

-- What `Info` says of a file or a folder.
pub record FileInfo : Type 0 where
  pub size : ℕ
  pub mod_time : ℕ
  pub exec : Bool

pub data FileType : Type 0 where
  directory regular_file symbolic_link special_file : FileType

-- An entry of a folder; `Info` can fail.
pub record Entry : Type 0 where
  pub name : Text
  pub type : FileType
  pub info : Option FileInfo

-- What WalkDir finds below a folder, in its order: an entry that is a folder stands as `folder`, with
-- whether it can be read and what is in it, and any other as `leaf`.
mutual
  pub data Tree : Type 0 where
    leaf : Entry → Tree
    folder : Entry → Bool → Forest → Tree

  pub data Forest : Type 0 where
    nil : Forest
    cons : Tree → Forest → Forest

pub record PlanEntry : Type 0 where
  pub rel : Text
  pub is_dir : Bool
  pub size : ℕ
  pub mod_time : ℕ
  pub exec : Bool

pub record DirPlan : Type 0 where
  pub name : Text
  pub files : ℕ
  pub content_size : ℕ
  pub tar_size : ℕ
  pub skipped : List (Text × Text)
  pub entries : List PlanEntry

pub data ScanError : Type 0 where
  abs_failed resolve_failed stat_failed not_a_folder : ScanError
  walk_failed cancelled info_failed header_failed : ScanError
  bad_name : FilenameError → ScanError
  too_deep path_too_long : ScanError

abbrev pub is_directory : FileType → Bool
is_directory directory = true
is_directory _ = false

-- `strings.Count` of one byte.
unfoldable pub count_byte : ℕ → Text → ℕ
count_byte b [] = 0
count_byte b (c ∷ s) = let rest = count_byte b s in if c == b then rest + 1 else rest

unfoldable pub check_entry_path : Text → Result ScanError (Unit {0})
check_entry_path rel =
    refuse_if (ltb max_entry_depth (count_byte b'/' rel + 1)) too_deep
    >> refuse_if (ltb max_entry_path_len (length rel)) path_too_long

-- The path of an entry, relative to the root and with slashes.
unfoldable pub join : Text → Text → Text
join [] name = name
join (c ∷ parent) name = (c ∷ parent) ++ b'/' ∷ name

-- What the walk's function makes of an entry.
pub data Visit : Type 0 where
  refused : ScanError → Visit
  left_out : Text → Visit
  kept : PlanEntry → Visit

unfoldable pub plan_entry : Text → FileType → FileInfo → PlanEntry
plan_entry rel directory i = record {
  rel = rel;
  is_dir = true;
  size = 0;
  mod_time = i.mod_time;
  exec = false;
}
plan_entry rel type i = record {
  rel = rel;
  is_dir = false;
  size = i.size;
  mod_time = i.mod_time;
  exec = i.exec;
}

unfoldable pub with_info : Text → FileType → Option FileInfo → Visit
unfolding plan_entry
with_info rel type none = refused info_failed
with_info rel type (some i) = kept (plan_entry rel type i)

unfoldable pub checked : Text → FileType → Option FileInfo → Result ScanError (Unit {0}) → Visit
unfolding with_info
checked rel type info (err e) = refused e
checked rel type info (ok _) = with_info rel type info

unfoldable pub named : Text → FileType → Option FileInfo → Result FilenameError (Unit {0}) → Visit
unfolding checked
named rel type info (err e) = refused (bad_name e)
named rel type info (ok _) = checked rel type info (check_entry_path rel)

abbrev pub junk_reason : FileType → Text
junk_reason directory = codes "system folder"
junk_reason _ = codes "system file"

-- Links and special files are not sent.
unfoldable pub unless_special : FileType → Text → Visit → Visit
unless_special symbolic_link rel v = left_out (codes "symbolic link")
unless_special special_file rel v = left_out (codes "special file")
unless_special _ rel v = v

unfoldable pub visit : Unicode → Text → Bool → Text → Entry → Visit
unfolding named unless_special
visit u goos is_cancelled rel e =
    if is_cancelled
    then refused cancelled
    else if is_junk e.name (is_directory e.type)
    then left_out (junk_reason e.type)
    else unless_special e.type rel (named rel e.type e.info (validate_filename u e.name goos))

unfoldable pub skip : Text → Text → DirPlan → DirPlan
skip rel reason plan = record plan { skipped = plan.skipped ++ (rel, reason) ∷ [] }

unfoldable pub add_entry : PlanEntry → DirPlan → DirPlan
add_entry e plan = record plan {
  files = if e.is_dir then plan.files else plan.files + 1;
  content_size = if e.is_dir then plan.content_size else plan.content_size + e.size;
  entries = plan.entries ++ e ∷ [];
}

unfoldable pub leaf_visited : Text → DirPlan → Visit → Result ScanError DirPlan
unfolding skip add_entry
leaf_visited rel plan (refused e) = err e
leaf_visited rel plan (left_out reason) = ok (skip rel reason plan)
leaf_visited rel plan (kept p) = ok (add_entry p plan)

-- A folder that is kept is read, and the walk goes on below it.
unfoldable pub folder_visited :
    Text → Bool → DirPlan → (DirPlan → Result ScanError DirPlan) → Visit → Result ScanError DirPlan
unfolding skip add_entry
folder_visited rel readable plan below (refused e) = err e
folder_visited rel readable plan below (left_out reason) = ok (skip rel reason plan)
folder_visited rel true plan below (kept p) = below (add_entry p plan)
folder_visited rel false plan below (kept p) = err walk_failed

-- The walk; `done` says of a path whether the context is cancelled when it is visited.
module _ (u : Unicode) (goos : Text) (done : Text → Bool) where
  unfoldable mutual
    unfolding visit leaf_visited folder_visited join

    pub scan_tree : Tree → Text → DirPlan → Result ScanError DirPlan
    scan_tree (leaf e) parent plan =
        leaf_visited (join parent e.name) plan
          (visit u goos (done (join parent e.name)) (join parent e.name) e)
    scan_tree (folder e readable children) parent plan =
        folder_visited (join parent e.name) readable plan
          (λ plan'. scan_forest children (join parent e.name) plan')
          (visit u goos (done (join parent e.name)) (join parent e.name) e)

    pub scan_forest : Forest → Text → DirPlan → Result ScanError DirPlan
    scan_forest nil parent plan = ok plan
    scan_forest (cons t ts) parent plan =
        scan_tree t parent plan >>= λ plan'. scan_forest ts parent plan'

-- The name in an entry's header.
unfoldable pub header_name : PlanEntry → Text
header_name e = if e.is_dir then e.rel ++ codes "/" else e.rel
