-- ===== src/Server/Storage.antt =====
-- internal/server/storage.go: `Save`, `commit` and `reserve` over the entries of the receive folder.
pub mod Commit
pub mod Save
use lanxfer.Base.{
  ℕ, zero, suc, ◌≡◌, refl, Bool, true, false, not, ◌||◌, List, [], ◌∷◌, Option, none, some, Text,
  codes, ◌==◌, length, if◌then◌else◌, Result, ok, err, Map, lookup, insert, delete,
}
use lanxfer.Unicode.{Unicode}
use lanxfer.Server.Filename.{FilenameError, validate_filename}
use lanxfer.Server.Numbered.{numbered_name}

-- What a received folder holds, by slash-separated path.
pub data Leaf : Type 0 where
  dir : Leaf
  regular : (exec : Bool) → Text → Leaf

pub data Node : Type 0 where
  file : Text → Node
  folder : Map Leaf → Node

abbrev pub Dir : Type 0
Dir = Map Node

-- What the operating system answers: the name that `CreateTemp` or `MkdirTemp` made, if any; which
-- of the calls fail for another reason than an existing entry; and what the removal of an entry at
-- the temporary name leaves there, which is nothing unless it fails.
pub record System : Type 0 where
  pub part_name : Option Text
  pub close_ok : Bool
  pub reserve_ok : Text → Bool
  pub reserve_close_ok : Text → Bool
  pub remove_ok : Bool
  pub rename_ok : Bool
  pub left : Option Node

pub data SaveError : Type 0 where
  invalid_filename : FilenameError → SaveError
  create_temp write incomplete close_temp reserve_failed finalize_failed collisions : SaveError

placeholder : Bool → Node
placeholder true = folder []
placeholder false = file []

-- `Rename(part, final)`, which fails without a `part`.
rename : Text → Text → Dir → Result SaveError Text × Dir
rename part final d = elim (lookup part d) [
  | none ↦ (err finalize_failed, d)
  | some n ↦ (ok final, insert final n (delete part d))
]

-- A reserved name: the placeholder is removed, and `part` renamed to it.
finalize : System → Text → Text → Bool → Dir → Result SaveError Text × Dir
unfolding rename placeholder
finalize sys part final is_dir d =
    let reserved = insert final (placeholder is_dir) d in
    let removed = if sys.remove_ok then delete final reserved else reserved in
    if sys.rename_ok then rename part final removed else (err finalize_failed, removed)

-- The round of `commit` at a candidate that is free. The placeholder of a file is made and then
-- closed; if the close fails, the placeholder stays.
at_free : System → Text → Text → Bool → Dir → Result SaveError Text × Dir
unfolding finalize
at_free sys part final is_dir d =
    if not (sys.reserve_ok final)
    then (err reserve_failed, d)
    else if is_dir || sys.reserve_close_ok final
    then finalize sys part final is_dir d
    else (err reserve_failed, insert final (file []) d)

-- The loop of `commit`, with the number of rounds left and the counter.
commit_from : System → ℕ → ℕ → Text → Text → Bool → Dir → Result SaveError Text × Dir
unfolding at_free
commit_from sys zero i part name is_dir d = (err collisions, d)
commit_from sys (suc n) i part name is_dir d = elim (lookup (numbered_name name i is_dir) d) [
  | some _ ↦ commit_from sys n (suc i) part name is_dir d
  | none ↦ at_free sys part (numbered_name name i is_dir) is_dir d
]

abbrev pub max_names : ℕ
max_names = 10000

unfoldable pub commit : System → Text → Text → Bool → Dir → Result SaveError Text × Dir
unfolding commit_from
commit sys part name is_dir d = commit_from sys max_names 0 part name is_dir d

-- The entry at the temporary name is removed, or what cannot be removed of it stays.
unfoldable pub remove_part : Option Node → Text → Dir → Dir
remove_part none part d = delete part d
remove_part (some n) part d = insert part n d

-- The deferred cleanup: what was not committed is removed, and an error of that is ignored.
unfoldable pub cleanup : System → Text → Result SaveError Text × Dir → Result SaveError Text × Dir
unfolding remove_part
cleanup sys part (ok final, d) = (ok final, d)
cleanup sys part (err e, d) = (err e, remove_part sys.left part d)

-- `Save` behind `CreateTemp`: the reader yielded `body`, which stands in `part`, and then ended, or
-- failed if `read_ok` does not hold.
receive : System → Text → Text → Text → Bool → ℕ → Dir → Result SaveError Text × Dir
receive sys part name body read_ok size d =
    if not read_ok
    then (err write, d)
    else if not (length body == size)
    then (err incomplete, d)
    else if not sys.close_ok
    then (err close_temp, d)
    else commit sys part name false d

-- `Save` with the answer of `CreateTemp`.
with_part : System → Option Text → Text → Text → Bool → ℕ → Dir → Result SaveError Text × Dir
unfolding receive
with_part sys none name body read_ok size d = (err create_temp, d)
with_part sys (some part) name body read_ok size d =
    cleanup sys part (receive sys part name body read_ok size (insert part (file body) d))

unfoldable pub save :
    System → Unicode → Text → Text → Text → Bool → ℕ → Dir → Result SaveError Text × Dir
unfolding with_part
save sys u goos name body read_ok size d = elim (validate_filename u name goos) [
  | err e ↦ (err (invalid_filename e), d)
  | ok _ ↦ with_part sys sys.part_name name body read_ok size d
]
