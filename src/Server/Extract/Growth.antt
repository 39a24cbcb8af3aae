-- ===== src/Server/Extract/Growth.antt =====
-- The extractor as a relation: it only adds folders and files, at safe paths that were free.
use mathlib.Core.List.{reverse, reverse-cons, reverse-reverse}
use lanxfer.Base.{
  ℕ, ◌+◌, ◌-◌, ◌≤◌, ◌<◌, ◌≡◌, sym, ap, subst, ◌∙◌, ◌⊎◌, inl, inr, true, false, List, [], ◌∷◌, ◌++◌,
  none, some, Text, arith, ◌==◌, ==_iff, length, ok, Result-cases, Option-cases, Bool-cases, lookup,
  insert, append_assoc, append-nil,
}
use lanxfer.Server.Storage.{dir, regular}
use lanxfer.Server.Extract.{
  Files, Extractor, Entry, Item, entry, header_error, io_error, exists, make_dir, mkdir_from,
  parent_from, make_parent, put_file,
}
use lanxfer.Server.Extract.Paths.{IsSafePath, IsSafePath-parent}

abbrev pub with_dir : Files → Text → Extractor → Extractor
with_dir fs path ex = record ex {
  root = insert (fs.canon path) dir ex.root;
  created = insert path true ex.created;
  folders = ex.folders + 1;
}

abbrev pub with_file : Files → Text → Entry → Extractor → Extractor
with_file fs path e ex = record ex {
  root = insert (fs.canon path) (regular e.exec e.content) ex.root;
  created = insert path false ex.created;
  written = ex.written + length e.content;
}

-- What the extractor may do, with the number of files stored so far.
pub data Growth (fs : Files) (base : ℕ) (ex : Extractor) : ℕ → Extractor → Type 0 where
  unchanged : Growth fs base ex base ex
  folder_made :
      {n : ℕ} {mid : Extractor} (path : Text)
      → Growth fs base ex n mid
      → IsSafePath path
      → lookup (fs.canon path) mid.root ≡ none
      → mid.folders < mid.max_dirs
      → Growth fs base ex n (with_dir fs path mid)
  file_stored :
      {n : ℕ} {mid : Extractor} (path : Text) (e : Entry)
      → Growth fs base ex n mid
      → IsSafePath path
      → lookup (fs.canon path) mid.root ≡ none
      → length e.content ≤ mid.limit - mid.written
      → Growth fs base ex (n + 1) (with_file fs path e mid)

-- The tar reader yields at most the bytes that the header declares.
abbrev pub IsBounded : List Item → Type 0
IsBounded [] = Unit
IsBounded (entry e ∷ items) = (length e.content ≤ e.size) × IsBounded items
IsBounded (header_error ∷ items) = IsBounded items
IsBounded (io_error ∷ items) = IsBounded items

pub exists_lem :
    (fs : Files) (path : Text) (ex : Extractor)
    → exists fs path ex ≡ false
    → lookup (fs.canon path) ex.root ≡ none
exists_lem fs path ex h = ground arith

module _ (fs : Files) (base : ℕ) (ex : Extractor) where
  make_dir-cases :
      (path : Text) (mid out : Extractor)
      → make_dir fs path mid ≡ ok out
      → (out ≡ mid)
        ⊎ ((exists fs path mid ≡ false)
            × (mid.folders < mid.max_dirs)
            × (out ≡ with_dir fs path mid))
  unfolding make_dir
  make_dir-cases path mid out h = ground arith

  make_dir-Growth :
      (n : ℕ) (path : Text) (mid out : Extractor)
      → make_dir fs path mid ≡ ok out
      → IsSafePath path
      → Growth fs base ex n mid
      → Growth fs base ex n out
  make_dir-Growth n path mid out h safe g = elim (make_dir-cases path mid out h) [
    | inl e ↦ subst (Growth fs base ex n) (sym e) g
    | inr (free, room, e) ↦
        subst (Growth fs base ex n) (sym e)
          (folder_made path g safe (exists_lem fs path mid free) room)
  ]

  pub mkdir_from-Growth :
      (n : ℕ) (done rest : Text) (mid out : Extractor)
      → mkdir_from fs done rest mid ≡ ok out
      → IsSafePath (done ++ rest)
      → Growth fs base ex n mid
      → Growth fs base ex n out
  unfolding mkdir_from
  mkdir_from-Growth n done [] mid out h safe g =
      make_dir-Growth n done mid out h (subst IsSafePath (append-nil done) safe) g
  mkdir_from-Growth n done (c ∷ rest) mid out h safe g =
      let safe' : IsSafePath ((done ++ c ∷ []) ++ rest) = rw append_assoc safe in
      elim (Bool-cases (c == b'/')) [
        | inr plain ↦
            mkdir_from-Growth n (done ++ c ∷ []) rest mid out (rw (plain, mkdir_from) at h) safe' g
        | inl slash ↦ elim (Result-cases (make_dir fs done mid)) [
          | inr (bad, e) ↦ absurd (ground arith)
          | inl (next, e) ↦
              mkdir_from-Growth n (done ++ c ∷ []) rest next out (ground arith) safe' (
                make_dir-Growth n done mid next e
                  (IsSafePath-parent done rest
                    (subst (λ b. IsSafePath (done ++ b ∷ rest)) ((==_iff c b'/').0 slash) safe))
                  g)
        ]
      ]

parent_from_lem :
    (s parent : Text)
    → parent_from s ≡ some parent
    → (last : Text) × (reverse s ≡ parent ++ b'/' ∷ last)
unfolding parent_from
parent_from_lem [] parent h = absurd (ground arith)
parent_from_lem (c ∷ s) parent h = elim (Bool-cases (c == b'/')) [
  | inl slash ↦
      let same : reverse s ≡ parent = ground arith in
      ([], reverse-cons c s ∙ rw ((==_iff c b'/').0 slash, same))
  | inr plain ↦
      let (last, e) = parent_from_lem s parent (ground arith) in
      (last ++ c ∷ [], reverse-cons c s ∙ rw (e, append_assoc))
]

module _ (fs : Files) (base : ℕ) (ex : Extractor) where
  pub make_parent-Growth :
      (n : ℕ) (rel : Text) (mid out : Extractor)
      → make_parent fs rel mid ≡ ok out
      → IsSafePath rel
      → Growth fs base ex n mid
      → Growth fs base ex n out
  unfolding make_parent
  make_parent-Growth n rel mid out h safe g = elim (Option-cases (parent_from (reverse rel))) [
    | inl e ↦ let same : mid ≡ out = ground arith in subst (Growth fs base ex n) same g
    | inr (parent, e) ↦
        let (last, eq) = parent_from_lem (reverse rel) parent e in
        let rel_eq : rel ≡ parent ++ b'/' ∷ last = sym (reverse-reverse rel) ∙ eq in
        mkdir_from-Growth fs base ex n [] parent mid out (ground arith)
          (IsSafePath-parent parent last (subst IsSafePath rel_eq safe)) g
  ]

  pub put_file-cases :
      (rel : Text) (e : Entry) (mid out : Extractor)
      → put_file fs rel e mid ≡ ok out
      → (exists fs rel mid ≡ false) × (out ≡ with_file fs rel e mid)
  unfolding put_file
  put_file-cases rel e mid out h = ground arith

-- Making folders leaves the count of bytes and the limits alone.
abbrev tally : Extractor → ℕ × ℕ
tally ex = (ex.written, ex.limit)

make_dir-tally :
    (fs : Files) (path : Text) (mid out : Extractor)
    → make_dir fs path mid ≡ ok out
    → tally out ≡ tally mid
make_dir-tally fs path mid out h = elim (make_dir-cases fs 0 mid path mid out h) [
  | inl e ↦ ap tally e
  | inr (free, room, e) ↦ ap tally e
]

mkdir_from-tally :
    (fs : Files) (done rest : Text) (mid out : Extractor)
    → mkdir_from fs done rest mid ≡ ok out
    → tally out ≡ tally mid
unfolding mkdir_from
mkdir_from-tally fs done [] mid out h = make_dir-tally fs done mid out h
mkdir_from-tally fs done (c ∷ rest) mid out h = elim (Bool-cases (c == b'/')) [
  | inr plain ↦ mkdir_from-tally fs (done ++ c ∷ []) rest mid out (rw (plain, mkdir_from) at h)
  | inl slash ↦ elim (Result-cases (make_dir fs done mid)) [
    | inr (bad, e) ↦ absurd (ground arith)
    | inl (next, e) ↦
        mkdir_from-tally fs (done ++ c ∷ []) rest next out (ground arith)
        ∙ make_dir-tally fs done mid next e
  ]
]

pub make_parent-tally :
    (fs : Files) (rel : Text) (mid out : Extractor)
    → make_parent fs rel mid ≡ ok out
    → tally out ≡ tally mid
unfolding make_parent
make_parent-tally fs rel mid out h = elim (Option-cases (parent_from (reverse rel))) [
  | inl e ↦ let same : mid ≡ out = ground arith in ap tally (sym same)
  | inr (parent, e) ↦ mkdir_from-tally fs [] parent mid out (ground arith)
]
