-- ===== src/Identity/Created.antt =====
-- internal/identity/identity.go: `LoadOrCreate`, step by step, as other processes see it.
pub mod Agreed
use lanxfer.Base.{
  ℕ, zero, suc, ◌≡◌, refl, Bool, true, false, not, List, [], ◌∷◌, ◌++◌, Option, none, some, Text,
  codes, if◌then◌else◌, Result, ok, err,
}
use lanxfer.Identity.{valid, hex_encode}

-- What the operating system answers to the calls of one step. A link fails for another reason than an
-- existing file where there are no hard links.
pub record Answers : Type 0 where
  pub read_ok : Bool
  pub mkdir_ok : Bool
  pub random : Option (List ℕ)
  pub temp_ok : Bool
  pub links : Bool
  pub rename_ok : Bool

pub data IdError : Type 0 where
  read_failed mkdir_failed random_failed write_failed rename_failed : IdError

-- Where a call of `LoadOrCreate` stands, with the new ID once there is one.
pub data Phase : Type 0 where
  begin creating : Phase
  linking rereading renaming : Text → Phase
  finished : Text → Phase
  failed : IdError → Phase

-- The file `device-id`, if it exists.
abbrev pub IdFile : Type 0
IdFile = Option Text

-- The content of the file of an ID.
abbrev pub id_content : Text → Text
id_content id = id ++ codes "\n"

unfoldable pub created : Bool → Option (List ℕ) → Phase
created temp_ok none = failed random_failed
created temp_ok (some raw) = if not temp_ok then failed write_failed else linking (hex_encode raw)

unfoldable pub create : Answers → Phase
create a = if not a.mkdir_ok then failed mkdir_failed else created a.temp_ok a.random

-- The hard link, which never replaces a file.
unfoldable pub link : Bool → Text → IdFile → Phase × IdFile
link false id file = (renaming id, file)
link true id none = (finished id, some (id_content id))
link true id (some content) = (rereading id, some content)

unfoldable pub rename : Bool → Text → IdFile → Phase × IdFile
rename false id file = (failed rename_failed, file)
rename true id file = (finished id, some (id_content id))

module _ (trim_space : Text → Text) where
  unfoldable pub valid_in : Text → Option Text
  valid_in content = if valid (trim_space content) then some (trim_space content) else none

  unfoldable pub read_id : Bool → IdFile → Result IdError (Option Text)
  read_id false file = err read_failed
  read_id true none = ok none
  read_id true (some content) = ok (valid_in content)

  -- The ID that is there, or the phase to go on with.
  unfoldable pub unless_there : Phase → Result IdError (Option Text) → Phase
  unless_there next (err e) = failed e
  unless_there next (ok (some id)) = finished id
  unless_there next (ok none) = next

  -- One call of the operating system, or several on the process's own files.
  unfoldable pub step : Answers → Phase → IdFile → Phase × IdFile
  step a begin file = (unless_there creating (read_id a.read_ok file), file)
  step a creating file = (create a, file)
  step a (linking id) file = link a.links id file
  step a (rereading id) file = (unless_there (renaming id) (read_id a.read_ok file), file)
  step a (renaming id) file = rename a.rename_ok id file
  step a (finished id) file = (finished id, file)
  step a (failed e) file = (failed e, file)

  -- A call that no other process interrupts.
  unfoldable pub steps : List Answers → Phase → IdFile → Phase × IdFile
  steps [] ph file = (ph, file)
  steps (a ∷ as') ph file = let (ph', file') = step a ph file in steps as' ph' file'

  -- The processes, and the one whose turn it is.
  unfoldable pub turn : ℕ → Answers → List Phase → IdFile → List Phase × IdFile
  turn i a [] file = ([], file)
  turn zero a (ph ∷ phs) file = let (ph', file') = step a ph file in (ph' ∷ phs, file')
  turn (suc i) a (ph ∷ phs) file = let (phs', file') = turn i a phs file in (ph ∷ phs', file')

  unfoldable pub run : List (ℕ × Answers) → List Phase → IdFile → List Phase × IdFile
  run [] phs file = (phs, file)
  run ((i, a) ∷ turns) phs file = let (phs', file') = turn i a phs file in run turns phs' file'
