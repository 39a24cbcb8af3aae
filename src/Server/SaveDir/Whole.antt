-- ===== src/Server/SaveDir/Whole.antt =====
-- `SaveDir`: all or nothing, and what the stored folder holds.
use lanxfer.Base.{
  ℕ, ◌≡◌, refl, subst, ◌⊎◌, inl, inr, true, [], Option, none, some, Text, Result, ok, err,
  Result-unit-cases, lookup, insert, lookup-insert, text_eq_refl,
}
use lanxfer.Unicode.{Unicode}
use lanxfer.Server.Filename.{validate_filename}
use lanxfer.Server.Storage.{Dir, folder, System, SaveError, invalid_filename, create_temp}
use lanxfer.Server.Storage.Commit.{commit-Committed}
use lanxfer.Server.Storage.Save.{
  Stored, Remains, unchanged, Settled, cleanup-Remains, cleanup-Settled, IsFresh,
}
use lanxfer.Server.Extract.{Files, Extractor, ExtractError, Stream, extract_into}
use lanxfer.Server.Extract.Growth.{IsBounded}
use lanxfer.Server.Extract.Unpacked.{Unpacked, extract_into-Unpacked}
use lanxfer.Server.SaveDir.{
  SaveDirError, bad_stream, not_saved, Received, report, refuse, settle, dir_with_part, save_dir,
}

-- A whole folder under a name that was free, or a receive folder that is unchanged but
-- for what could not be removed of the temporary folder.
abbrev pub SaveDirOutcome :
    System
    → Files
    → Unicode
    → Text
    → Text
    → Stream
    → ℕ
    → Dir
    → Result SaveDirError Received × Dir
    → Type 0
SaveDirOutcome sys fs u goos name s size d r =
    ((got : Received) × (ex : Extractor) × (r.0 ≡ ok got)
      × (validate_filename u name goos ≡ ok tt)
      × Unpacked fs size got.files ex
      × (s.total ≡ size)
      × (got.content ≡ ex.written)
      × Stored (folder ex.root) d got.final r.1)
    ⊎ ((e : SaveDirError) × (r.0 ≡ err e) × Remains sys true d r.1)

refuse-Remains :
    (sys : System) (part : Text) (e : ExtractError) (d : Dir)
    → sys.part_name ≡ some part
    → lookup part d ≡ none
    → Remains sys true d (refuse sys part e d).1
unfolding refuse
refuse-Remains sys part e d made fresh =
    cleanup-Remains sys part true (folder []) d (insert part (folder []) d) [] create_temp made
      fresh (λ k. inl refl)

report-Outcome :
    (sys : System) (fs : Files) (u : Unicode) (goos part name : Text) (s : Stream) (size files : ℕ)
    (d : Dir) (ex : Extractor) (r : Result SaveError Text × Dir)
    → validate_filename u name goos ≡ ok tt
    → Unpacked fs size files ex
    → s.total ≡ size
    → Settled sys part name true (folder ex.root) d r
    → SaveDirOutcome sys fs u goos name s size d (report files ex.written r)
unfolding report
report-Outcome sys fs u goos part name s size files d ex (ok got, d') valid un whole
      (inl (final, e, first, stored)) =
    let same : final ≡ got = cc in
    inl (
      record { final = got; files = files; content = ex.written },
      ex,
      refl,
      valid,
      un,
      whole,
      refl,
      subst (λ f. Stored (folder ex.root) d f d') same stored,
    )
report-Outcome sys fs u goos part name s size files d ex (err bad, d') valid un whole
      (inl (final, e, first, stored)) =
    cc
report-Outcome sys fs u goos part name s size files d ex (ok got, d') valid un whole
      (inr (bad, e, same)) =
    cc
report-Outcome sys fs u goos part name s size files d ex (err bad', d') valid un whole
      (inr (bad, e, same)) =
    inr (not_saved bad', refl, same)

dir_with_part-Outcome :
    (sys : System) (o : Option Text) (fs : Files) (u : Unicode) (goos name : Text) (s : Stream)
    (size : ℕ) (d : Dir) (x : Result ExtractError (ℕ × Extractor))
    → extract_into fs u goos s size ≡ x
    → validate_filename u name goos ≡ ok tt
    → IsBounded s.items
    → sys.part_name ≡ o
    → IsFresh sys d
    → sys.remove_ok ≡ true
    → SaveDirOutcome sys fs u goos name s size d (dir_with_part sys o name x d)
unfolding dir_with_part settle
dir_with_part-Outcome sys none fs u goos name s size d x run valid bounded made fresh removes =
    inr (not_saved create_temp, refl, unchanged sys true d)
dir_with_part-Outcome sys (some part) fs u goos name s size d (err e) run valid bounded made fresh
      removes =
    inr (bad_stream e, unfold refuse in refl, refuse-Remains sys part e d made (fresh part made))
dir_with_part-Outcome sys (some part) fs u goos name s size d (ok (files, ex)) run valid bounded
      made fresh removes =
    let (un, whole) = extract_into-Unpacked fs u goos s size files ex run bounded in
    report-Outcome sys fs u goos part name s size files d ex _ valid un whole (
      cleanup-Settled sys part name true (folder ex.root) d _ made (fresh part made) (
        commit-Committed sys part name true (insert part (folder ex.root) d) (folder ex.root)
          (simp (lookup-insert, text_eq_refl)) removes))

save_dir_valid :
    (sys : System) (fs : Files) (u : Unicode) (goos name : Text) (s : Stream) (size : ℕ) (d : Dir)
    → validate_filename u name goos ≡ ok tt
    → save_dir sys fs u goos name s size d
      ≡ dir_with_part sys sys.part_name name (extract_into fs u goos s size) d
unfolding save_dir
save_dir_valid sys fs u goos name s size d valid = rw (valid, save_dir)

-- `SaveDir` is all or nothing. If it succeeds, the name was valid, exactly the declared bytes of the
-- stream were read, the returned name was free and now holds a folder whose entries all stand at
-- safe paths below it, the returned counts of files and bytes are those of the folder, its bytes and
-- folders are within the limits of the stream, and every other entry of the receive folder is as
-- before. If it fails, every entry is as before, but that what could not be removed of the temporary
-- folder may stay at its name. The tar reader is assumed to yield at most the bytes that a header
-- declares, and the operating system to make temporary names that are not in use and not to fail at
-- removing the reserved placeholder.
pub save_dir-SaveDirOutcome :
    (sys : System) (fs : Files) (u : Unicode) (goos name : Text) (s : Stream) (size : ℕ) (d : Dir)
    → IsBounded s.items
    → IsFresh sys d
    → sys.remove_ok ≡ true
    → SaveDirOutcome sys fs u goos name s size d (save_dir sys fs u goos name s size d)
save_dir-SaveDirOutcome sys fs u goos name s size d bounded fresh removes =
    elim (Result-unit-cases (validate_filename u name goos)) [
      | inr (e, bad) ↦
          unfold save_dir in
          rw (bad, save_dir) (inr (not_saved (invalid_filename e), refl, unchanged sys true d))
      | inl valid ↦ rw (save_dir_valid sys fs u goos name s size d valid) (
          dir_with_part-Outcome sys sys.part_name fs u goos name s size d _ refl valid bounded refl
            fresh removes)
    ]
