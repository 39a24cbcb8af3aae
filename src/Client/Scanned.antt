-- ===== src/Client/Scanned.antt =====
-- What the plan and the stream of a scanned folder are for a receiver.
use lanxfer.Base.{
  Result-cases, ℕ, ◌≡◌, refl, ap, sym, subst, ◌∙◌, inl, inr, Bool, List, [], ◌∷◌, ◌++◌, Option,
  some, Text, codes, arith, Bool-cases, Option-cases, ok, err, Result-unit-cases, All,
}
use lanxfer.Unicode.{Unicode}
use lanxfer.Server.Filename.{FilenameError, validate_filename}
use lanxfer.Server.Extract.{entry_path}
use lanxfer.Client.Paths.{trim_suffix-whole, trim_suffix-slash, accepted_path}
use lanxfer.Client.Scan.{
  Place, walk, plan_folder, scan_dir, with_tar_size, empty_plan, check_base, >>-ok, >>-first,
}
use lanxfer.Client.Accepted.{
  IsSent, AreAccepted, OkAccepted, scan_forest_accepted, count_files, content_of,
}
use lanxfer.Client.Stream.{
  Header, FileNow, IsSized, tar_size, StreamOutcome, write_tar-StreamOutcome,
}
use lanxfer.Client.{PlanEntry, DirPlan, header_name}

module _ (u : Unicode) (goos : Text) (done : Text → Bool) where
  read_back :
      (es : List PlanEntry)
      → All (IsSent u goos) es
      → All (λ (e : PlanEntry). entry_path u goos (header_name e) ≡ ok e.rel) es
  unfolding header_name
  read_back [] h = tt
  read_back (e ∷ es) h = (
    elim (Bool-cases e.is_dir) [
      | inl d ↦
          rw (d, header_name)
            (accepted_path u goos e.rel (e.rel ++ codes "/") h.0.0 (trim_suffix-slash u goos e.rel))
      | inr d ↦
          rw (d, header_name)
            (accepted_path u goos e.rel e.rel h.0.0 (trim_suffix-whole u goos e.rel h.0.0.0))
    ],
    read_back es h.1,
  )

  sized : (es : List PlanEntry) → All (IsSent u goos) es → All IsSized es
  sized [] h = tt
  sized (e ∷ es) h = (h.0.1, sized es h.1)

  walked :
      (p : Place) (plan : DirPlan)
      → validate_filename u p.base goos ≡ ok tt
      → walk u goos done p ≡ ok plan
      → AreAccepted u goos plan
  unfolding walk count_files content_of
  walked p plan v h = subst (OkAccepted u goos) (>>-ok _ _ h) (
      scan_forest_accepted u goos done p.below [] (empty_plan p.base) (inl refl)
        (v, tt, refl, refl))

  not_ok : (e : FilenameError) → check_base (err e) ≡ ok tt → ⊥
  unfolding check_base
  not_ok e h = cc

  planned :
      (p : Place) (plan : DirPlan) → plan_folder u goos done p ≡ ok plan → AreAccepted u goos plan
  unfolding plan_folder check_base
  planned p plan h = elim (Result-unit-cases (validate_filename u p.base goos)) [
    | inl v ↦ walked p plan v (>>-ok _ _ h)
    | inr (e, bad) ↦
        let based = >>-ok _ _ (>>-first _ _ (>>-first _ _ (>>-first _ _ h))) in
        absurd (not_ok e (sym (ap check_base bad) ∙ based))
  ]

  scanned :
      (header_len : Header → Option ℕ) (p : Place) (plan : DirPlan)
      → scan_dir u goos done header_len p ≡ ok plan
      → AreAccepted u goos plan × (tar_size header_len plan.entries ≡ some plan.tar_size)
  unfolding scan_dir with_tar_size
  scanned header_len p plan h = elim (Result-cases (plan_folder u goos done p)) [
    | inr (e, bad) ↦ absurd (ground (arith, h, bad))
    | inl (plan', got) ↦ elim (Option-cases (tar_size header_len plan'.entries)) [
      | inl unsized ↦ absurd (ground (arith, h, got, unsized))
      | inr (n, size) ↦
          let same : record plan' { tar_size = n } ≡ plan = ground (arith, h, got, size) in
          let all = planned p plan' got in
          subst
            (λ (q : DirPlan).
              AreAccepted u goos q × (tar_size header_len q.entries ≡ some q.tar_size))
            same (all, size)
    ]
  ]

  -- What a plan says, in the words of a receiver: its folder has an accepted name, the path of every
  -- entry is read as the scan wrote it, and the files and their bytes are those of the entries.
  abbrev pub IsReadBack : DirPlan → Type 0
  IsReadBack plan =
      (validate_filename u plan.name goos ≡ ok tt)
      × All (λ (e : PlanEntry). entry_path u goos (header_name e) ≡ ok e.rel) plan.entries
      × (plan.files ≡ count_files plan.entries)
      × (plan.content_size ≡ content_of plan.entries)

  -- A receiver on the same system accepts the name of every folder that ScanDir plans to send and
  -- the path of every entry of it, of files and of folders, and reads each as the path that the scan
  -- found; and the plan's numbers of files and of bytes are those of its entries.
  pub scan_dir-IsReadBack :
      (header_len : Header → Option ℕ) (p : Place) (plan : DirPlan)
      → scan_dir u goos done header_len p ≡ ok plan
      → IsReadBack plan
  scan_dir-IsReadBack header_len p plan h =
      let (a, t) = scanned header_len p plan h in (a.0, read_back plan.entries a.1, a.2, a.3)

  -- The stream of a scanned folder has exactly the length that the plan says, with the same lengths
  -- of headers, if every file can be read and has the size that it had in the scan, and else
  -- writeTar returns an error.
  pub scan_dir-StreamOutcome :
      (header_len : Header → Option ℕ) (now : PlanEntry → FileNow) (p : Place) (plan : DirPlan)
      → scan_dir u goos done header_len p ≡ ok plan
      → StreamOutcome header_len now plan.entries plan.tar_size
  scan_dir-StreamOutcome header_len now p plan h =
      let (a, t) = scanned header_len p plan h in
      write_tar-StreamOutcome header_len now plan.entries plan.tar_size (sized plan.entries a.1) t
