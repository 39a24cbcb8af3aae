-- ===== src/History/Append.antt =====
-- `Append` and `ReadAll` together.
use lanxfer.Base.{
  ℕ, ◌≡◌, refl, inl, inr, true, false, [], ◌∷◌, ◌++◌, none, some, Text, ◌==◌, All, ok, err, Result,
  take, Result-cases, Bool-cases, Option-cases,
}
use lanxfer.History.{
  Entry, Codec, FileSystem, newline, fresh_line, stamp, write_line, append, read_line, read_all,
  validate, version, AppendError, refused, encode_failed, open_failed, write_failed, close_failed,
}
use lanxfer.History.Valid.{IsWritable, validate-IsWritable_iff}
use lanxfer.History.Lines.{read_all-fresh}

abbrev pub Added : Codec → Entry → Text → Text → Type 0
Added c e file after = read_all c after ≡ read_all c file ++ e ∷ []

-- What `Append` leaves for each of its results.
abbrev pub AppendOutcome : Codec → Entry → Text → Result AppendError (Unit {0}) × Text → Type 0
AppendOutcome c e file (ok _, after) = Added c e file after
AppendOutcome c e file (err close_failed, after) = Added c e file after
AppendOutcome c e file (err write_failed, after) = (part : Text) × (after ≡ file ++ part)
AppendOutcome c e file (err (refused _), after) = after ≡ file
AppendOutcome c e file (err encode_failed, after) = after ≡ file
AppendOutcome c e file (err open_failed, after) = after ≡ file

v_stamp : (now : ℕ) (e : Entry) → (stamp now e).v ≡ version
unfolding stamp
v_stamp now e = refl

-- `Append` succeeds on a writable entry when encoding and the calls on the file do.
pub append_total :
    (c : Codec) (fs : FileSystem) (now : ℕ) (e : Entry) (file line : Text)
    → IsWritable (stamp now e)
    → c.encode (stamp now e) ≡ some line
    → fs.open_ok ≡ true
    → fs.write_cut ≡ none
    → fs.close_ok ≡ true
    → (append c fs now e file).0 ≡ ok tt
unfolding append write_line
append_total c fs now e file line w j o n k =
    rw ((validate-IsWritable_iff (stamp now e)).1 w, append, j, o, n, k, write_line) refl

module _ (c : Codec) (blank : (l : Text) → c.decode (l ++ newline ∷ []) ≡ c.decode l) where
  -- An entry's line as encoding/json writes it: no newline inside, and read back as the entry.
  abbrev pub IsLine : Entry → Text → Type 0
  IsLine e line = All (λ b. b == newline ≡ false) line × (c.decode line ≡ some e)

  read_all-line :
      (fs : FileSystem) (file line : Text) (e : Entry)
      → fs.inspect_ok ≡ true
      → e.v ≡ version
      → IsLine e line
      → Added c e file (file ++ fresh_line fs file (line ++ newline ∷ []))
  unfolding read_line
  read_all-line fs file line e i v l =
      rw (read_all-fresh c blank fs file line i l.0, l.1, v, read_line) refl

  write_line-AppendOutcome :
      (fs : FileSystem) (file line : Text) (e : Entry)
      → Added c e file (file ++ line)
      → AppendOutcome c e file (write_line fs file line)
  unfolding write_line
  write_line-AppendOutcome fs file line e a = elim (Option-cases fs.write_cut) [
    | inl n ↦ elim (Bool-cases fs.close_ok) [ inl t ↦ rw (n, t) a | inr f ↦ rw (n, f) a ]
    | inr (n, w) ↦ rw w (take n line, refl)
  ]

  -- `Append` adds exactly its entry at the end of what `ReadAll` returns, also behind a broken last
  -- line, when it returns without an error or only closing fails; a failed write leaves a tail;
  -- every other error leaves the file. Assumed: json.Unmarshal reads a line with and without its
  -- newline alike, the entry's JSON has no newline inside and reads back as the entry, and the
  -- file's last byte can be read.
  pub append-AppendOutcome :
      (fs : FileSystem) (now : ℕ) (e : Entry) (file : Text)
      → fs.inspect_ok ≡ true
      → ((l : Text) → c.encode (stamp now e) ≡ some l → IsLine (stamp now e) l)
      → AppendOutcome c (stamp now e) file (append c fs now e file)
  unfolding append fresh_line write_line
  append-AppendOutcome fs now e file i lines = elim (Result-cases (validate (stamp now e))) [
    | inr (bad, r) ↦ rw (r, append) refl
    | inl (_, r) ↦ elim (Option-cases (c.encode (stamp now e))) [
      | inl n ↦ rw (r, append, n) refl
      | inr (l, j) ↦ elim (Bool-cases fs.open_ok) [
        | inr f ↦ rw (r, append, j, f) refl
        | inl t ↦
            rw (r, append, j, t)
              (write_line-AppendOutcome fs file (fresh_line fs file (l ++ newline ∷ []))
                (stamp now e) (read_all-line fs file l (stamp now e) i (v_stamp now e) (lines l j)))
      ]
    ]
  ]
