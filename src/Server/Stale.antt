-- ===== src/Server/Stale.antt =====
-- internal/server/storage.go: `RemoveStaleParts`.
pub mod Spared
use lanxfer.Base.{
  ℕ, zero, suc, ◌+◌, ◌≡◌, refl, Bool, true, false, not, List, [], ◌∷◌, Option, none, some, Text,
  ltb, if◌then◌else◌,
}
use lanxfer.Server.Filename.{is_part}

pub data Kind : Type 0 where
  regular directory special : Kind

-- What `WalkDir` passes on: an error, a folder or file with the result of `Info`, or a special entry.
pub data Walked : Type 0 where
  unreadable passed_over : Walked
  counted : Option ℕ → Walked

-- An entry of the receive folder: the result of `Info`, the walk below it, and whether it can be removed.
pub record DirEntry : Type 0 where
  pub name : Text
  pub kind : Kind
  pub mod_time : Option ℕ
  pub walk : List Walked
  pub removable : Bool

-- The walk ends at the first error.
unfoldable pub newest_from : ℕ → List Walked → Option ℕ
newest_from newest [] = some newest
newest_from newest (unreadable ∷ ws) = none
newest_from newest (passed_over ∷ ws) = newest_from newest ws
newest_from newest (counted none ∷ ws) = none
newest_from newest (counted (some t) ∷ ws) = newest_from (if ltb newest t then t else newest) ws

unfoldable pub newest_mod_time : List Walked → Option ℕ
newest_mod_time ws = newest_from 0 ws

unfoldable pub last_touched : Kind → DirEntry → Option ℕ
last_touched regular e = e.mod_time
last_touched directory e = newest_mod_time e.walk
last_touched special e = none

pub data Verdict : Type 0 where
  left removed not_removed : Verdict

-- `time.Since(newest) < olderThan`
unfoldable pub judge : ℕ → ℕ → Bool → Option ℕ → Verdict
judge now older_than removable none = left
judge now older_than removable (some newest) =
    if ltb now (newest + older_than) then left else if removable then removed else not_removed

unfoldable pub verdict : ℕ → ℕ → DirEntry → Verdict
verdict now older_than e =
    if not (is_part e.name) then left else judge now older_than e.removable (last_touched e.kind e)

-- What is left in the folder, how many entries were removed, and how many could not be.
pub record Swept : Type 0 where
  pub entries : List DirEntry
  pub count : ℕ
  pub errors : ℕ

unfoldable pub after : DirEntry → Verdict → Swept → Swept
after e left s = record s { entries = e ∷ s.entries }
after e removed s = record s { count = 1 + s.count }
after e not_removed s = record s { entries = e ∷ s.entries; errors = 1 + s.errors }

unfoldable pub sweep : ℕ → ℕ → List DirEntry → Swept
sweep now older_than [] = record { entries = []; count = 0; errors = 0 }
sweep now older_than (e ∷ es) = after e (verdict now older_than e) (sweep now older_than es)

unfoldable pub remove_stale_parts : ℕ → ℕ → Option (List DirEntry) → Option Swept
remove_stale_parts now older_than none = none
remove_stale_parts now older_than (some es) = some (sweep now older_than es)
