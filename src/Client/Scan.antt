-- ===== src/Client/Scan.antt =====
-- internal/client/senddir.go: `ScanDir`.
use lanxfer.Base.{
  ℕ, ◌≡◌, refl, Bool, not, Option, none, some, Text, [], Result, ok, err, ◌>>=◌, ◌>>◌, refuse_if,
}
use lanxfer.Unicode.{Unicode}
use lanxfer.Server.Filename.{FilenameError, validate_filename}
use lanxfer.Client.{
  Forest, DirPlan, ScanError, abs_failed, resolve_failed, stat_failed, not_a_folder, walk_failed,
  cancelled, header_failed, bad_name, scan_forest,
}
use lanxfer.Client.Stream.{Header, tar_size}

-- What the system says of the path of a folder: whether it has an absolute form, its last part,
-- whether its links can be resolved, whether that is a folder, whether the walk finds it and can
-- read it, and what stands below it.
pub record Place : Type 0 where
  pub has_abs : Bool
  pub base : Text
  pub resolves : Bool
  pub stat : Option Bool
  pub is_found : Bool
  pub is_readable : Bool
  pub below : Forest

unfoldable pub check_base : Result FilenameError (Unit {0}) → Result ScanError (Unit {0})
check_base (err e) = err (bad_name e)
check_base (ok _) = ok tt

unfoldable pub check_folder : Option Bool → Result ScanError (Unit {0})
check_folder none = err stat_failed
check_folder (some is_dir) = refuse_if (not is_dir) not_a_folder

abbrev pub empty_plan : Text → DirPlan
empty_plan name = record {
  name = name;
  files = 0;
  content_size = 0;
  tar_size = 0;
  skipped = [];
  entries = [];
}

unfoldable pub with_tar_size : DirPlan → Option ℕ → Result ScanError DirPlan
with_tar_size plan none = err header_failed
with_tar_size plan (some n) = ok (record plan { tar_size = n })

module _ (u : Unicode) (goos : Text) (done : Text → Bool) where
  -- The walk calls its function for the root first.
  unfoldable pub walk : Place → Result ScanError DirPlan
  unfolding scan_forest
  walk p =
      refuse_if (not p.is_found) walk_failed
      >> refuse_if (done []) cancelled
      >> refuse_if (not p.is_readable) walk_failed
      >> scan_forest u goos done p.below [] (empty_plan p.base)

  unfoldable pub plan_folder : Place → Result ScanError DirPlan
  unfolding check_base check_folder walk
  plan_folder p =
      refuse_if (not p.has_abs) abs_failed
      >> check_base (validate_filename u p.base goos)
      >> refuse_if (not p.resolves) resolve_failed
      >> check_folder p.stat
      >> walk p

  unfoldable pub scan_dir : (Header → Option ℕ) → Place → Result ScanError DirPlan
  unfolding plan_folder with_tar_size
  scan_dir header_len p =
      plan_folder p >>= λ plan. with_tar_size plan (tar_size header_len plan.entries)

pub >>-ok :
    {A : Type 0} (m : Result ScanError (Unit {0})) (n : Result ScanError A) {a : A}
    → (m >> n) ≡ ok a
    → n ≡ ok a
>>-ok (ok _) n h = h
>>-ok (err e) n h = cc

pub >>-first :
    {A : Type 0} (m : Result ScanError (Unit {0})) (n : Result ScanError A) {a : A}
    → (m >> n) ≡ ok a
    → m ≡ ok tt
>>-first (ok _) n h = refl
>>-first (err e) n h = cc
