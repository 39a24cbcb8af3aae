-- ===== src/Server/Extract/Unpacked.antt =====
-- What a folder upload leaves in the temporary folder.
use lanxfer.Base.{
  ℕ, ◌+◌, ◌/◌, ◌≤◌, ◌≡◌, refl, sym, inl, inr, List, some, Text, arith, length, ok, Result-cases,
  Bool-cases, lookup, insert, lookup-insert, text_eq, text_eq_iff, total, total-insert,
}
use lanxfer.Unicode.{Unicode}
use lanxfer.Server.Storage.{Leaf, dir, regular}
use lanxfer.Server.Extract.{
  Files, Extractor, Item, Stream, extract_items, extract_into, start, folder_budget,
  max_entry_depth,
}
use lanxfer.Server.Extract.Paths.{IsSafePath}
use lanxfer.Server.Extract.Accepted.{extract_items-Growth}
use lanxfer.Server.Extract.Growth.{
  Growth, unchanged, folder_made, file_stored, IsBounded, with_dir, with_file,
}

abbrev pub is_file : Leaf → ℕ
is_file dir = 0
is_file (regular exec content) = 1

abbrev pub is_dir : Leaf → ℕ
is_dir dir = 1
is_dir (regular exec content) = 0

abbrev pub bytes : Leaf → ℕ
bytes dir = 0
bytes (regular exec content) = length content

-- Every entry stands at a safe path below the folder.
abbrev pub IsContained : Files → Extractor → Type 0
IsContained fs ex =
    (k : Text) (x : Leaf)
    → lookup k ex.root ≡ some x
    → (path : Text) × IsSafePath path × (k ≡ fs.canon path)

-- The counts that the extractor keeps are those of the tree, and within its limits.
pub record IsCounted (n : ℕ) (ex : Extractor) : Type 0 where
  pub files : total is_file ex.root ≡ n
  pub folders : total is_dir ex.root ≡ ex.folders
  pub content : total bytes ex.root ≡ ex.written
  pub in_limit : ex.written ≤ ex.limit
  pub in_budget : ex.folders ≤ ex.max_dirs

insert-IsContained :
    (fs : Files) (path : Text) (x : Leaf) (ex out : Extractor)
    → IsSafePath path
    → out.root ≡ insert (fs.canon path) x ex.root
    → IsContained fs ex
    → IsContained fs out
insert-IsContained fs path x ex out safe e c k y found =
    elim (Bool-cases (text_eq (fs.canon path) k)) [
      | inl same ↦ (path, safe, sym ((text_eq_iff (fs.canon path) k).0 same))
      | inr other ↦ c k y (ground (arith, lookup-insert (fs.canon path) k x ex.root))
    ]

Growth-IsContained :
    {fs : Files} {base : ℕ} {ex out : Extractor} {n : ℕ}
    → Growth fs base ex n out
    → IsContained fs ex
    → IsContained fs out
Growth-IsContained unchanged c = c
Growth-IsContained {fs} (folder_made {mid = mid} path g safe free room) c =
    insert-IsContained fs path dir mid (with_dir fs path mid) safe refl (Growth-IsContained g c)
Growth-IsContained {fs} (file_stored {mid = mid} path e g safe free fits) c =
    insert-IsContained fs path (regular e.exec e.content) mid (with_file fs path e mid) safe refl
      (Growth-IsContained g c)

Growth-IsCounted :
    {fs : Files} {base : ℕ} {ex out : Extractor} {n : ℕ}
    → Growth fs base ex n out
    → IsCounted base ex
    → IsCounted n out
Growth-IsCounted unchanged c = c
Growth-IsCounted {fs} (folder_made {mid = mid} path g safe free room) c =
    let ih = Growth-IsCounted g c in
    record {
      files = omega (arith, ih.files, total-insert is_file (fs.canon path) dir mid.root free);
      folders = omega (arith, ih.folders, total-insert is_dir (fs.canon path) dir mid.root free);
      content = omega (arith, ih.content, total-insert bytes (fs.canon path) dir mid.root free);
      in_limit = ih.in_limit;
      in_budget = omega (arith, room);
    }
Growth-IsCounted {fs} (file_stored {mid = mid} path e g safe free fits) c =
    let ih = Growth-IsCounted g c in
    let x = regular e.exec e.content in
    record {
      files = omega (arith, ih.files, total-insert is_file (fs.canon path) x mid.root free);
      folders = omega (arith, ih.folders, total-insert is_dir (fs.canon path) x mid.root free);
      content = omega (arith, ih.content, total-insert bytes (fs.canon path) x mid.root free);
      in_limit = omega (arith, ih.in_limit, fits);
      in_budget = ih.in_budget;
    }

Growth-keeps :
    {fs : Files} {base : ℕ} {ex out : Extractor} {n : ℕ} (k : Text) (x : Leaf)
    → Growth fs base ex n out
    → lookup k ex.root ≡ some x
    → lookup k out.root ≡ some x
Growth-keeps k x unchanged e = e
Growth-keeps {fs} k x (folder_made {mid = mid} path g safe free room) e =
    let ih = Growth-keeps k x g e in
    ground (arith, lookup-insert (fs.canon path) k dir mid.root, text_eq_iff (fs.canon path) k)
Growth-keeps {fs} k x (file_stored {mid = mid} path f g safe free fits) e =
    let ih = Growth-keeps k x g e in
    ground (
      arith,
      lookup-insert (fs.canon path) k (regular f.exec f.content) mid.root,
      text_eq_iff (fs.canon path) k,
    )

Growth-limits :
    {fs : Files} {base : ℕ} {ex out : Extractor} {n : ℕ}
    → Growth fs base ex n out
    → (out.limit ≡ ex.limit) × (out.max_dirs ≡ ex.max_dirs)
Growth-limits unchanged = (refl, refl)
Growth-limits (folder_made path g safe free room) = Growth-limits g
Growth-limits (file_stored path e g safe free fits) = Growth-limits g

start-IsContained : (fs : Files) (size : ℕ) → IsContained fs (start size)
unfolding start lookup
start-IsContained fs size k x e = cc

start-IsCounted : (size : ℕ) → IsCounted 0 (start size)
unfolding start
start-IsCounted size = omega arith

-- What `extractInto` promises of a stream of `size` bytes.
pub record Unpacked (fs : Files) (size files : ℕ) (ex : Extractor) : Type 0 where
  pub contained : IsContained fs ex
  pub all_files : total is_file ex.root ≡ files
  pub all_bytes : total bytes ex.root ≡ ex.written
  pub bytes_in_limit : ex.written ≤ size
  pub folders_in_budget : total is_dir ex.root ≤ size / 512 + max_entry_depth

-- A later entry never replaces or removes what an earlier one created.
extract_items_keeps :
    (fs : Files) (u : Unicode) (goos : Text) (items : List Item) (n n' : ℕ) (mid out : Extractor)
    (k : Text) (x : Leaf)
    → extract_items fs u goos items n mid ≡ ok (n', out)
    → IsBounded items
    → lookup k mid.root ≡ some x
    → lookup k out.root ≡ some x
extract_items_keeps fs u goos items n n' mid out k x h bounded found =
    Growth-keeps k x (extract_items-Growth fs n mid u goos items n n' mid out h bounded unchanged)
      found

extract_into-parts :
    (fs : Files) (u : Unicode) (goos : Text) (s : Stream) (size files : ℕ) (ex : Extractor)
    → extract_into fs u goos s size ≡ ok (files, ex)
    → (extract_items fs u goos s.items 0 (start size) ≡ ok (files, ex)) × (s.total ≡ size)
unfolding extract_into
extract_into-parts fs u goos s size files ex h =
    elim (Result-cases (extract_items fs u goos s.items 0 (start size))) [
      | inr (bad, e) ↦ absurd (ground arith)
      | inl (r, e) ↦ ground arith
    ]

-- If a stream is accepted, exactly the declared number of bytes was read; every file and folder that
-- was created stands at a path of at most 64 safe names and 4096 bytes below the folder, as the file
-- system sees that path; the returned number of files and the bytes written are those of the tree;
-- the files hold at most as many bytes as the stream was declared to have; and there are at most
-- `size / 512 + 64` folders. The tar reader is assumed to yield at most the bytes that an entry's
-- header declares.
pub extract_into-Unpacked :
    (fs : Files) (u : Unicode) (goos : Text) (s : Stream) (size files : ℕ) (ex : Extractor)
    → extract_into fs u goos s size ≡ ok (files, ex)
    → IsBounded s.items
    → Unpacked fs size files ex × (s.total ≡ size)
unfolding start folder_budget
extract_into-Unpacked fs u goos s size files ex h bounded =
    let (run, whole) = extract_into-parts fs u goos s size files ex h in
    let g =
      extract_items-Growth fs 0 (start size) u goos s.items 0 files (start size) ex run bounded
        unchanged in
    let c = Growth-IsCounted g (start-IsCounted size) in
    (
      record {
        contained = Growth-IsContained g (start-IsContained fs size);
        all_files = c.files;
        all_bytes = c.content;
        bytes_in_limit = omega (arith, c.in_limit, (Growth-limits g).0);
        folders_in_budget = omega (arith, c.folders, c.in_budget, (Growth-limits g).1);
      },
      whole,
    )
