-- ===== src/Client/Stream.antt =====
-- internal/client/senddir.go: the length of a folder's tar stream, before and while it is written.
use lanxfer.Base.{
  ℕ, ◌+◌, ◌-◌, ◌*◌, ◌/◌, ◌%◌, ◌≡◌, refl, sym, subst, ◌⊎◌, inl, inr, Bool, true, false, not, ◌||◌,
  List, [], ◌∷◌, Option, none, some, Text, arith, ◌==◌, ==_iff, if◌then◌else◌, Bool-cases,
  Option-cases, Result, ok, err, ◌>>=◌, All,
}
use lanxfer.Client.{PlanEntry, header_name}

-- The fields of tar.Header that are set.
pub record Header : Type 0 where
  pub name : Text
  pub is_dir : Bool
  pub mode : ℕ
  pub size : ℕ
  pub mod_time : ℕ

unfoldable pub header : PlanEntry → Header
header e = record {
  name = header_name e;
  is_dir = e.is_dir;
  mode = if e.is_dir || e.exec then 448 else 384;
  size = if e.is_dir then 0 else e.size;
  mod_time = e.mod_time;
}

pub data StreamError : Type 0 where
  header_failed open_failed stat_failed changed copy_failed : StreamError

-- What opening, examining and copying a file gives while the stream is written.
pub record FileNow : Type 0 where
  pub opened : Bool
  pub stat : Option (Bool × ℕ)
  pub copied : Bool

-- `copyFile`, with the number of bytes copied.
unfoldable pub examined : ℕ → Bool → Option (Bool × ℕ) → Result StreamError ℕ
examined size copied none = err stat_failed
examined size copied (some (is_regular, now)) =
    if not is_regular || not (now == size)
    then err changed
    else if not copied
    then err copy_failed
    else ok size

unfoldable pub copy_file : FileNow → ℕ → Result StreamError ℕ
unfolding examined
copy_file f size = if not f.opened then err open_failed else examined size f.copied f.stat

-- tar.Writer fills the last block of a file with zeros.
abbrev padding : ℕ → ℕ
padding n = (512 - n % 512) % 512

-- The bytes of an entry in the stream.
unfoldable pub write_content : FileNow → PlanEntry → Result StreamError ℕ
unfolding copy_file
write_content f e =
    if e.is_dir
    then ok 0
    else elim (copy_file f e.size) [ err x ↦ err x | ok n ↦ ok (n + padding n) ]

-- The length of a header as tar.Writer encodes it is an argument.
module _ (header_len : Header → Option ℕ) where
  unfoldable pub sizes : List PlanEntry → Option ℕ
  unfolding header
  sizes [] = some 0
  sizes (e ∷ es) = elim (header_len (header e)) [
    | none ↦ none
    | some n ↦ elim (sizes es) [
      | none ↦ none
      | some rest ↦ some (n + (e.size + 511) / 512 * 512 + rest)
    ]
  ]

  -- `tarSize`
  unfoldable pub tar_size : List PlanEntry → Option ℕ
  unfolding sizes
  tar_size es = elim (sizes es) [ none ↦ none | some total ↦ some (total + 1024) ]

  unfoldable pub write_entry : FileNow → PlanEntry → Result StreamError ℕ
  unfolding header write_content
  write_entry f e = elim (header_len (header e)) [
    | none ↦ err header_failed
    | some n ↦ elim (write_content f e) [ err x ↦ err x | ok more ↦ ok (n + more) ]
  ]

  -- `writeTar`: the length of the stream. `now` gives the state of each file when its turn comes.
  unfoldable pub write_tar : (PlanEntry → FileNow) → List PlanEntry → Result StreamError ℕ
  unfolding write_entry
  write_tar now [] = ok 1024
  write_tar now (e ∷ es) = write_entry (now e) e >>= λ n. write_tar now es >>= λ rest. ok (n + rest)

abbrev pub IsUnchanged : FileNow → ℕ → Type 0
IsUnchanged f size = (f.opened ≡ true) × (f.stat ≡ some (true, size)) × (f.copied ≡ true)

-- A folder, or a file that is as it was scanned.
abbrev pub IsAsScanned : (PlanEntry → FileNow) → PlanEntry → Type 0
IsAsScanned now e = (e.is_dir ≡ true) ⊎ IsUnchanged (now e) e.size

-- Folders of a plan have no size.
abbrev pub IsSized : PlanEntry → Type 0
IsSized e = (e.is_dir ≡ false) ⊎ (e.size ≡ 0)

padded : (n : ℕ) → n + padding n ≡ (n + 511) / 512 * 512
padded n = omega arith

examined_lem :
    (size : ℕ) (copied : Bool) (s : Option (Bool × ℕ))
    → ((examined size copied s ≡ ok size) × (s ≡ some (true, size)) × (copied ≡ true))
      ⊎ (((x : StreamError) × (examined size copied s ≡ err x))
          × ((s ≡ some (true, size)) × (copied ≡ true) → ⊥))
unfolding examined
examined_lem size copied none = inr ((stat_failed, refl), λ h. cc)
examined_lem size copied (some (is_regular, now)) = ground (arith, ==_iff now size)

-- A copy is whole, or the file is not as it was.
copy_file_lem :
    (f : FileNow) (size : ℕ)
    → ((copy_file f size ≡ ok size) × IsUnchanged f size)
      ⊎ (((x : StreamError) × (copy_file f size ≡ err x)) × (IsUnchanged f size → ⊥))
unfolding copy_file
copy_file_lem f size = elim (Bool-cases f.opened) [
  | inr o ↦ inr ((open_failed, ground (arith, o)), λ h. ground (arith, h.0, o))
  | inl o ↦ elim (examined_lem size f.copied f.stat) [
    | inl (e, s, c) ↦ inl (ground (arith, o, e), (o, s, c))
    | inr ((x, e), bad) ↦ inr ((x, ground (arith, o, e)), λ h. bad (h.1, h.2))
  ]
]

content_len : PlanEntry → ℕ
content_len e = if e.is_dir then 0 else e.size + padding e.size

write_content_lem :
    (f : FileNow) (e : PlanEntry)
    → ((write_content f e ≡ ok (content_len e)) × ((e.is_dir ≡ true) ⊎ IsUnchanged f e.size))
      ⊎ (((x : StreamError) × (write_content f e ≡ err x))
          × ((e.is_dir ≡ true) ⊎ IsUnchanged f e.size → ⊥))
unfolding write_content content_len
write_content_lem f e = elim (Bool-cases e.is_dir) [
  | inl d ↦ inl (ground (arith, d), inl d)
  | inr d ↦ elim (copy_file_lem f e.size) [
    | inl (c, h) ↦ inl (ground (arith, d, c), inr h)
    | inr ((x, c), bad) ↦ inr ((x, ground (arith, d, c)), elim [ inl d' ↦ cc | inr h ↦ bad h ])
  ]
]

content_len_sized : (e : PlanEntry) → IsSized e → content_len e ≡ (e.size + 511) / 512 * 512
unfolding content_len
content_len_sized e s = elim (Bool-cases e.is_dir) [
  | inl d ↦ elim s [ inl f ↦ cc | inr z ↦ rw (d, z) refl ]
  | inr d ↦ rw d (padded e.size)
]

module _ (header_len : Header → Option ℕ) (now : PlanEntry → FileNow) where
  -- The stream has the length found before, or it ends with an error and a file has changed.
  abbrev pub StreamOutcome : List PlanEntry → ℕ → Type 0
  StreamOutcome es total =
      ((write_tar header_len now es ≡ ok total) × All (IsAsScanned now) es)
      ⊎ (((x : StreamError) × (write_tar header_len now es ≡ err x))
          × (All (IsAsScanned now) es → ⊥))

  written :
      (e : PlanEntry) (es : List PlanEntry) (n rest : ℕ)
      → header_len (header e) ≡ some n
      → IsSized e
      → StreamOutcome es (rest + 1024)
      → StreamOutcome (e ∷ es) (n + (e.size + 511) / 512 * 512 + rest + 1024)
  unfolding write_tar write_entry
  written e es n rest k s out = elim (write_content_lem (now e) e) [
    | inr ((x, c), bad) ↦ inr ((x, ground (arith, k, c)), λ h. bad h.0)
    | inl (c, same) ↦ elim out [
      | inl (w, all) ↦ inl (ground (arith, k, c, w, content_len_sized e s), (same, all))
      | inr ((x, w), bad) ↦ inr ((x, ground (arith, k, c, w)), λ h. bad h.1)
    ]
  ]

  stream_from :
      (es : List PlanEntry) (rest : ℕ)
      → All IsSized es
      → sizes header_len es ≡ some rest
      → StreamOutcome es (rest + 1024)
  unfolding sizes write_tar
  stream_from [] rest s h = inl (ground (arith, h), tt)
  stream_from (e ∷ es) rest s h = elim (Option-cases (header_len (header e))) [
    | inl k ↦ absurd (ground (arith, h, k))
    | inr (n, k) ↦ elim (Option-cases (sizes header_len es)) [
      | inl m ↦ absurd (ground (arith, h, k, m))
      | inr (more, m) ↦
          let same : rest ≡ n + (e.size + 511) / 512 * 512 + more = ground (arith, h, k, m) in
          subst (λ r. StreamOutcome (e ∷ es) (r + 1024)) (sym same)
            (written e es n more k s.0 (stream_from es more s.1 m))
    ]
  ]

  -- stream
  pub write_tar-StreamOutcome :
      (es : List PlanEntry) (total : ℕ)
      → All IsSized es
      → tar_size header_len es ≡ some total
      → StreamOutcome es total
  unfolding tar_size
  write_tar-StreamOutcome es total s h = elim (Option-cases (sizes header_len es)) [
    | inl m ↦ absurd (ground (arith, h, m))
    | inr (rest, m) ↦
        let same : total ≡ rest + 1024 = ground (arith, h, m) in
        subst (StreamOutcome es) (sym same) (stream_from es rest s m)
  ]
