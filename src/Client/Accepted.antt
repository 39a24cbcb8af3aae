-- ===== src/Client/Accepted.antt =====
-- The walk of ScanDir keeps only what a receiver accepts.
use lanxfer.Base.{
  if◌then◌else◌, ℕ, ◌+◌, ◌≡◌, refl, ap, sym, subst, ◌∙◌, ◌⊎◌, inl, inr, Bool, true, false, List, [],
  ◌∷◌, ◌++◌, Option, none, some, Text, arith, Bool-cases, Result, ok, err, ◌>>=◌, Result-unit-cases,
  All, All-append,
}
use lanxfer.Unicode.{Unicode}
use lanxfer.Server.Filename.{validate_filename}
use lanxfer.Client.Paths.{AreNames, IsAccepted, joined}
use lanxfer.Client.Stream.{IsSized}
use lanxfer.Client.{
  FileType, FileInfo, Entry, Tree, leaf, folder, Forest, nil, cons, PlanEntry, DirPlan, ScanError,
  Visit, refused, left_out, kept, check_entry_path, join, visit, leaf_visited, folder_visited, skip,
  add_entry, scan_tree, scan_forest, named, checked, with_info, plan_entry, unless_special,
  directory, regular_file, symbolic_link, special_file, is_junk, is_directory,
}

-- The files among the entries, and their bytes.
unfoldable pub count_files : List PlanEntry → ℕ
count_files [] = 0
count_files (e ∷ es) = (if e.is_dir then 0 else 1) + count_files es

unfoldable pub content_of : List PlanEntry → ℕ
content_of [] = 0
content_of (e ∷ es) = (if e.is_dir then 0 else e.size) + content_of es

count_files-append :
    (es : List PlanEntry) (e : PlanEntry)
    → count_files (es ++ e ∷ []) ≡ (if e.is_dir then count_files es else count_files es + 1)
unfolding count_files
count_files-append [] e = ground arith
count_files-append (d ∷ es) e = ground (arith, count_files-append es e)

content_of-append :
    (es : List PlanEntry) (e : PlanEntry)
    → content_of (es ++ e ∷ []) ≡ (if e.is_dir then content_of es else content_of es + e.size)
unfolding content_of
content_of-append [] e = ground arith
content_of-append (d ∷ es) e = ground (arith, content_of-append es e)

module _ (u : Unicode) (goos : Text) where
  abbrev pub IsSent : PlanEntry → Type 0
  IsSent e = IsAccepted u goos e.rel × IsSized e

  abbrev pub AreAccepted : DirPlan → Type 0
  AreAccepted plan =
      (validate_filename u plan.name goos ≡ ok tt)
      × All IsSent plan.entries
      × (plan.files ≡ count_files plan.entries)
      × (plan.content_size ≡ content_of plan.entries)

  -- An entry that the scan keeps.
  record IsKept (rel name : Text) (p : PlanEntry) : Type 0 where
    same : p.rel ≡ rel
    valid : validate_filename u name goos ≡ ok tt
    short : check_entry_path rel ≡ ok tt
    sized : IsSized p

  abbrev SizedIn : Visit → Type 0
  SizedIn (kept p) = IsSized p
  SizedIn (refused e) = Unit
  SizedIn (left_out reason) = Unit

  with_info_sized : (rel : Text) (t : FileType) (i : Option FileInfo) → SizedIn (with_info rel t i)
  unfolding with_info plan_entry
  with_info_sized rel t none = tt
  with_info_sized rel directory (some i) = inr refl
  with_info_sized rel regular_file (some i) = inl refl
  with_info_sized rel symbolic_link (some i) = inl refl
  with_info_sized rel special_file (some i) = inl refl

  rel_of : Text → Visit → Text
  rel_of rel (kept p) = p.rel
  rel_of rel (refused e) = rel
  rel_of rel (left_out reason) = rel

  with_info_rel :
      (rel : Text) (t : FileType) (i : Option FileInfo) → rel_of rel (with_info rel t i) ≡ rel
  unfolding with_info plan_entry rel_of
  with_info_rel rel t none = refl
  with_info_rel rel directory (some i) = refl
  with_info_rel rel regular_file (some i) = refl
  with_info_rel rel symbolic_link (some i) = refl
  with_info_rel rel special_file (some i) = refl

  unless_special-kept :
      (t : FileType) (rel : Text) (v : Visit) (p : PlanEntry)
      → unless_special t rel v ≡ kept p
      → v ≡ kept p
  unfolding unless_special
  unless_special-kept directory rel v p h = h
  unless_special-kept regular_file rel v p h = h
  unless_special-kept symbolic_link rel v p h = cc
  unless_special-kept special_file rel v p h = cc

  checked-IsKept :
      (rel : Text) (t : FileType) (i : Option FileInfo) (r : Result ScanError (Unit {0}))
      (p : PlanEntry)
      → checked rel t i r ≡ kept p
      → (r ≡ ok tt) × (p.rel ≡ rel) × IsSized p
  unfolding checked rel_of
  checked-IsKept rel t i (err e) p h = cc
  checked-IsKept rel t i (ok x) p h = (
    refl,
    sym (ap (rel_of rel) h) ∙ with_info_rel rel t i,
    subst SizedIn h (with_info_sized rel t i),
  )

  named-IsKept :
      (rel name : Text) (t : FileType) (i : Option FileInfo) (p : PlanEntry)
      → named rel t i (validate_filename u name goos) ≡ kept p
      → IsKept rel name p
  unfolding named
  named-IsKept rel name t i p h = elim (Result-unit-cases (validate_filename u name goos)) [
    | inr (e, bad) ↦ absurd (ground (arith, h, bad))
    | inl good ↦
        let (short, same, sized) =
          checked-IsKept rel t i (check_entry_path rel) p (sym (ap (named rel t i) good) ∙ h) in
        record { same = same; valid = good; short = short; sized = sized }
  ]

  visit-IsKept :
      (is_cancelled : Bool) (rel : Text) (e : Entry) (p : PlanEntry)
      → visit u goos is_cancelled rel e ≡ kept p
      → IsKept rel e.name p
  unfolding visit
  visit-IsKept true rel e p h = cc
  visit-IsKept false rel e p h = elim (Bool-cases (is_junk e.name (is_directory e.type))) [
    | inl j ↦ absurd (ground (arith, h, j))
    | inr j ↦
        named-IsKept rel e.name e.type e.info p
          (unless_special-kept e.type rel _ p (ground (arith, h, j)))
  ]

  abbrev IsParent : Text → Type 0
  IsParent parent = (parent ≡ []) ⊎ AreNames u goos parent

  added :
      (p : PlanEntry) (plan : DirPlan) (parent name : Text)
      → IsParent parent
      → IsKept (join parent name) name p
      → AreAccepted plan
      → AreAccepted (add_entry p plan)
  unfolding add_entry
  added p plan parent name g k h =
      let sent : IsSent p = (
        subst (IsAccepted u goos) (sym k.same) (joined u goos parent name g k.valid, k.short),
        k.sized,
      ) in
      (
        h.0,
        All-append IsSent plan.entries (p ∷ []) (sent, tt) h.1,
        ground (arith, h.2, count_files-append plan.entries p),
        ground (arith, h.3, content_of-append plan.entries p),
      )

  abbrev pub OkAccepted : Result ScanError DirPlan → Type 0
  OkAccepted (err e) = Unit
  OkAccepted (ok plan) = AreAccepted plan

  bind_accepted :
      (r : Result ScanError DirPlan) (k : DirPlan → Result ScanError DirPlan)
      → OkAccepted r
      → ((plan : DirPlan) → AreAccepted plan → OkAccepted (k plan))
      → OkAccepted (r >>= k)
  bind_accepted (err e) k h f = tt
  bind_accepted (ok plan) k h f = f plan h

  -- What the visit of an entry says of it.
  abbrev IsVisited : Text → Text → Visit → Type 0
  IsVisited rel name (refused e) = Unit
  IsVisited rel name (left_out reason) = Unit
  IsVisited rel name (kept p) = IsKept rel name p

  visited :
      (is_cancelled : Bool) (rel : Text) (e : Entry) (v : Visit)
      → visit u goos is_cancelled rel e ≡ v
      → IsVisited rel e.name v
  visited is_cancelled rel e (refused x) h = tt
  visited is_cancelled rel e (left_out reason) h = tt
  visited is_cancelled rel e (kept p) h = visit-IsKept is_cancelled rel e p h

  leaf_accepted :
      (parent name : Text) (plan : DirPlan) (v : Visit)
      → IsParent parent
      → AreAccepted plan
      → IsVisited (join parent name) name v
      → OkAccepted (leaf_visited (join parent name) plan v)
  unfolding leaf_visited skip
  leaf_accepted parent name plan (refused e) g h k = tt
  leaf_accepted parent name plan (left_out reason) g h k = h
  leaf_accepted parent name plan (kept p) g h k = added p plan parent name g k h

  folder_accepted :
      (parent name : Text) (readable : Bool) (plan : DirPlan)
      (below : DirPlan → Result ScanError DirPlan) (v : Visit)
      → IsParent parent
      → AreAccepted plan
      → IsVisited (join parent name) name v
      → ((plan' : DirPlan)
          → IsParent (join parent name)
          → AreAccepted plan'
          → OkAccepted (below plan'))
      → OkAccepted (folder_visited (join parent name) readable plan below v)
  unfolding folder_visited skip
  folder_accepted parent name readable plan below (refused e) g h k f = tt
  folder_accepted parent name readable plan below (left_out reason) g h k f = h
  folder_accepted parent name false plan below (kept p) g h k f = tt
  folder_accepted parent name true plan below (kept p) g h k f =
      f (add_entry p plan) (inr (joined u goos parent name g k.valid))
        (added p plan parent name g k h)

  module _ (done : Text → Bool) where
    mutual
      unfolding scan_tree scan_forest

      pub scan_tree_accepted :
          (t : Tree) (parent : Text) (plan : DirPlan)
          → IsParent parent
          → AreAccepted plan
          → OkAccepted (scan_tree u goos done t parent plan)
      scan_tree_accepted (leaf e) parent plan g h =
          let rel = join parent e.name in
          leaf_accepted parent e.name plan (visit u goos (done rel) rel e) g h
            (visited (done rel) rel e (visit u goos (done rel) rel e) refl)
      scan_tree_accepted (folder e readable children) parent plan g h =
          let rel = join parent e.name in
          folder_accepted parent e.name readable plan
            (λ plan'. scan_forest u goos done children rel plan') (visit u goos (done rel) rel e) g
            h (visited (done rel) rel e (visit u goos (done rel) rel e) refl)
            (λ plan' g' h'. scan_forest_accepted children rel plan' g' h')

      pub scan_forest_accepted :
          (ts : Forest) (parent : Text) (plan : DirPlan)
          → IsParent parent
          → AreAccepted plan
          → OkAccepted (scan_forest u goos done ts parent plan)
      scan_forest_accepted nil parent plan g h = h
      scan_forest_accepted (cons t ts) parent plan g h =
          bind_accepted (scan_tree u goos done t parent plan)
            (λ plan'. scan_forest u goos done ts parent plan')
            (scan_tree_accepted t parent plan g h)
            (λ plan' h'. scan_forest_accepted ts parent plan' g h')
