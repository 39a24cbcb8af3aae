-- ===== src/Server/Extract/Accepted.antt =====
-- What the loop over the entries of a stream adds to the folder.
use lanxfer.Base.{
  ℕ, ◌+◌, ◌-◌, ◌≤◌, ◌≡◌, sym, ap, subst, subst₂, inl, inr, List, [], ◌∷◌, Text, arith, length, ok,
  Result-cases, Bool-cases, text_eq, text_eq_iff,
}
use lanxfer.Unicode.{Unicode}
use lanxfer.Server.Extract.{
  Files, Extractor, Entry, Item, entry, header_error, io_error, mkdir_all, make_parent, write_entry,
  store_entry, take_entry, extract_items, entry_path, EntryType, type_dir, type_reg, type_other,
}
use lanxfer.Server.Extract.Paths.{IsSafePath, entry_path-IsSafePath}
use lanxfer.Server.Extract.Growth.{
  file_stored, IsBounded, exists_lem, mkdir_from-Growth, make_parent-Growth, put_file-cases,
  make_parent-tally, Growth,
}

module _ (fs : Files) (base : ℕ) (ex : Extractor) where
  write_entry-Growth :
      (n : ℕ) (rel : Text) (e : Entry) (mid out : Extractor)
      → write_entry fs rel e mid ≡ ok out
      → IsSafePath rel
      → length e.content ≤ e.size
      → Growth fs base ex n mid
      → Growth fs base ex (n + 1) out
  unfolding write_entry
  write_entry-Growth n rel e mid out h safe bounded g =
      elim (Result-cases (make_parent fs rel mid)) [
        | inr (bad, eq) ↦ absurd (ground arith)
        | inl (next, eq) ↦
            let same = make_parent-tally fs rel mid next eq in
            let (free, stored) = put_file-cases fs base ex rel e next out (ground arith) in
            let fits : e.size ≤ mid.limit - mid.written = ground arith in
            subst (Growth fs base ex (n + 1)) (sym stored) (
              file_stored rel e (make_parent-Growth fs base ex n rel mid next eq safe g) safe
                (exists_lem fs rel next free)
                (omega (
                  arith,
                  bounded,
                  fits,
                  ap (λ (b : ℕ × ℕ). b.0) same,
                  ap (λ (b : ℕ × ℕ). b.1) same,
                )))
      ]

  store_entry-Growth :
      (t : EntryType) (n n' : ℕ) (rel : Text) (e : Entry) (mid out : Extractor)
      → store_entry fs t rel e n mid ≡ ok (n', out)
      → IsSafePath rel
      → length e.content ≤ e.size
      → Growth fs base ex n mid
      → Growth fs base ex n' out
  unfolding store_entry
  store_entry-Growth type_dir n n' rel e mid out h safe bounded g =
      elim (Result-cases (mkdir_all fs rel mid)) [
        | inr (bad, eq) ↦ absurd (ground arith)
        | inl (next, eq) ↦
            subst₂ (Growth fs base ex) (ground arith) (ground arith)
              (mkdir_from-Growth fs base ex n [] rel mid next eq safe g)
      ]
  store_entry-Growth type_reg n n' rel e mid out h safe bounded g =
      elim (Result-cases (write_entry fs rel e mid)) [
        | inr (bad, eq) ↦ absurd (ground arith)
        | inl (next, eq) ↦
            subst₂ (Growth fs base ex) (ground arith) (ground arith)
              (write_entry-Growth n rel e mid next eq safe bounded g)
      ]
  store_entry-Growth type_other n n' rel e mid out h safe bounded g = absurd (ground arith)

  take_entry-Growth :
      (u : Unicode) (goos : Text) (n n' : ℕ) (e : Entry) (mid out : Extractor)
      → take_entry fs u goos e n mid ≡ ok (n', out)
      → length e.content ≤ e.size
      → Growth fs base ex n mid
      → Growth fs base ex n' out
  unfolding take_entry
  take_entry-Growth u goos n n' e mid out h bounded g =
      elim (Result-cases (entry_path u goos e.name)) [
        | inr (bad, eq) ↦ absurd (ground arith)
        | inl (rel, eq) ↦ elim (Bool-cases (text_eq rel [])) [
          | inl itself ↦ subst₂ (Growth fs base ex) (ground arith) (ground arith) g
          | inr inner ↦
              store_entry-Growth e.type_flag n n' rel e mid out (ground arith)
                (entry_path-IsSafePath u goos e.name rel eq
                  (λ empty. cc ((text_eq_iff rel []).1 empty)))
                bounded g
        ]
      ]

  pub extract_items-Growth :
      (u : Unicode) (goos : Text) (items : List Item) (n n' : ℕ) (mid out : Extractor)
      → extract_items fs u goos items n mid ≡ ok (n', out)
      → IsBounded items
      → Growth fs base ex n mid
      → Growth fs base ex n' out
  unfolding extract_items
  extract_items-Growth u goos [] n n' mid out h bounded g =
      subst₂ (Growth fs base ex) (ground arith) (ground arith) g
  extract_items-Growth u goos (header_error ∷ items) n n' mid out h bounded g =
      absurd (ground arith)
  extract_items-Growth u goos (io_error ∷ items) n n' mid out h bounded g = absurd (ground arith)
  extract_items-Growth u goos (entry e ∷ items) n n' mid out h bounded g =
      elim (Result-cases (take_entry fs u goos e n mid)) [
        | inr (bad, eq) ↦ absurd (ground arith)
        | inl ((k, next), eq) ↦
            extract_items-Growth u goos items k n' next out (ground arith) bounded.1
              (take_entry-Growth u goos n k e mid next eq bounded.0 g)
      ]
