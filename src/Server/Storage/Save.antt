-- ===== src/Server/Storage/Save.antt =====
-- `Save`: all or nothing.
use lanxfer.Base.{
  ℕ, ◌<◌, ◌≡◌, ◌≢◌, refl, sym, [], Option-cases, ap, ◌∙◌, ◌⊎◌, inl, inr, Bool, true, false, Option,
  none, some, Text, arith, length, ◌==◌, if◌then◌else◌, Result, ok, err, lookup, insert,
  lookup-insert, lookup-delete, text_eq, text_eq_iff, text_eq_refl, Result-unit-cases, Bool-cases,
}
use lanxfer.Unicode.{Unicode}
use lanxfer.Server.Filename.{validate_filename}
use lanxfer.Server.Storage.{
  Node, file, Dir, System, SaveError, commit, remove_part, cleanup, receive, with_part, save,
  invalid_filename, create_temp, write, incomplete, close_temp, max_names,
}
use lanxfer.Server.Storage.Commit.{
  Committed, Placed, FirstFree, MovedTo, commit-Committed, commit_total,
}
use lanxfer.Server.Numbered.{numbered_name}

-- The entry was stored whole under a name that was free, and nothing else changed.
abbrev pub Stored : Node → Dir → Text → Dir → Type 0
Stored n d final d' =
    (lookup final d ≡ none)
    × ((k : Text) → lookup k d' ≡ (if text_eq final k then some n else lookup k d))

-- What may stay at a name that was free after a failure: the one placeholder `p` of a file whose
-- close failed, empty, or what the removal of the temporary entry left when it failed.
abbrev pub IsLeft : System → Bool → Text → Text → Option Node → Type 0
IsLeft sys is_dir p k o =
    ((is_dir ≡ false) × (k ≡ p) × (sys.reserve_close_ok k ≡ false) × (o ≡ some (file [])))
    ⊎ ((sys.part_name ≡ some k) × (sys.left ≢ none) × (o ≡ sys.left))

-- Every entry is as before, but for what could not be closed or removed.
abbrev pub Remains : System → Bool → Dir → Dir → Type 0
Remains sys is_dir d d' =
    (p : Text) × ((k : Text)
      → (lookup k d' ≡ lookup k d) ⊎ ((lookup k d ≡ none) × IsLeft sys is_dir p k (lookup k d')))

abbrev pub unchanged : (sys : System) (is_dir : Bool) (d : Dir) → Remains sys is_dir d d
unchanged sys is_dir d = ([], λ k. inl refl)

-- The outcome of work that began with a new entry at `part`.
abbrev pub Settled : System → Text → Text → Bool → Node → Dir → Result SaveError Text × Dir → Type 0
Settled sys part name is_dir n d r =
    ((final : Text) × (r.0 ≡ ok final)
      × FirstFree name is_dir (insert part n d) final
      × Stored n d final r.1)
    ⊎ ((e : SaveError) × (r.0 ≡ err e) × Remains sys is_dir d r.1)

lookup-remove_part :
    (left : Option Node) (part k : Text) (d : Dir)
    → lookup k (remove_part left part d) ≡ (if text_eq part k then left else lookup k d)
unfolding remove_part
lookup-remove_part none part k d = lookup-delete part k d
lookup-remove_part (some n) part k d = lookup-insert part k n d

module _ (sys : System) (part : Text) (is_dir : Bool) (n : Node) (d d' : Dir) where
  remove_part-IsLeft :
      (p k : Text)
      → sys.part_name ≡ some part
      → lookup part d ≡ none
      → Placed sys is_dir p (insert part n d) d' k
      → (lookup k (remove_part sys.left part d') ≡ lookup k d)
        ⊎ ((lookup k d ≡ none) × IsLeft sys is_dir p k (lookup k (remove_part sys.left part d')))
  remove_part-IsLeft p k made fresh placed = elim (Bool-cases (text_eq part k)) [
    | inl t ↦
        let same : part ≡ k = (text_eq_iff part k).0 t in
        let after = lookup-remove_part sys.left part k d' in
        elim (Option-cases sys.left) [
          | inl gone ↦ inl (ground (arith, after, t, gone, same, fresh))
          | inr (m, stays) ↦ inr (
            ground (arith, same, fresh),
            inr (made ∙ ap some same, (λ gone. cc), ground (arith, after, t)),
          )
        ]
    | inr f ↦
        let after = lookup-remove_part sys.left part k d' in
        let before = lookup-insert part k n d in
        elim placed [
          | inl kept ↦ inl (ground (arith, after, before, kept, f))
          | inr (free, of_file, at, open_file, here) ↦ inr (
            ground (arith, before, free, f),
            inl (of_file, at, open_file, ground (arith, after, here, f)),
          )
        ]
  ]

  pub cleanup-Remains :
      (p : Text) (e : SaveError)
      → sys.part_name ≡ some part
      → lookup part d ≡ none
      → ((k : Text) → Placed sys is_dir p (insert part n d) d' k)
      → Remains sys is_dir d (cleanup sys part (err e, d')).1
  unfolding cleanup
  cleanup-Remains p e made fresh placed = (p, λ k. remove_part-IsLeft p k made fresh (placed k))

cleanup-ok :
    (sys : System) (part name : Text) (is_dir : Bool) (n : Node) (d : Dir) (final : Text) (d' : Dir)
    → lookup part d ≡ none
    → FirstFree name is_dir (insert part n d) final
    → MovedTo part n (insert part n d) final d'
    → Settled sys part name is_dir n d (cleanup sys part (ok final, d'))
unfolding cleanup
cleanup-ok sys part name is_dir n d final d' fresh first (free, after) = inl (
  final,
  refl,
  first,
  (
    ground (arith, lookup-insert part final n d),
    λ k. ground (arith, after k, lookup-insert part k n d, text_eq_iff part k),
  ),
)

pub cleanup-Settled :
    (sys : System) (part name : Text) (is_dir : Bool) (n : Node) (d : Dir)
    (r : Result SaveError Text × Dir)
    → sys.part_name ≡ some part
    → lookup part d ≡ none
    → Committed sys part n name is_dir (insert part n d) r
    → Settled sys part name is_dir n d (cleanup sys part r)
cleanup-Settled sys part name is_dir n d (ok got, d') made fresh (inl (final, e, first, moved)) =
    let g : got ≡ final = cc in
    rw g (cleanup-ok sys part name is_dir n d final d' fresh first moved)
cleanup-Settled sys part name is_dir n d (err bad, d') made fresh (inl (final, e, first, moved)) =
    cc
cleanup-Settled sys part name is_dir n d (ok got, d') made fresh (inr (bad', p, e, placed)) = cc
cleanup-Settled sys part name is_dir n d (err bad, d') made fresh (inr (bad', p, e, placed)) =
    inr
      (bad, unfold cleanup in refl, cleanup-Remains sys part is_dir n d d' p bad made fresh placed)

receive-Committed :
    (sys : System) (part name body : Text) (read_ok : Bool) (size : ℕ) (d : Dir)
    → lookup part d ≡ some (file body)
    → sys.remove_ok ≡ true
    → Committed sys part (file body) name false d (receive sys part name body read_ok size d)
unfolding receive
receive-Committed sys part name body false size d here removes =
    inr (write, [], refl, λ k. inl refl)
receive-Committed sys part name body true size d here removes =
    elim (Bool-cases (length body == size)) [
      | inr short ↦ rw short (inr (incomplete, [], refl, λ k. inl refl))
      | inl whole ↦ rw whole (elim (Bool-cases sys.close_ok) [
        | inr bad ↦ rw bad (inr (close_temp, [], refl, λ k. inl refl))
        | inl good ↦ simp good (commit-Committed sys part name false d (file body) here removes)
      ])
    ]

-- What a successful `receive` has checked.
receive-ok :
    (sys : System) (part name body final : Text) (read_ok : Bool) (size : ℕ) (d : Dir)
    → (receive sys part name body read_ok size d).0 ≡ ok final
    → (read_ok ≡ true) × (length body ≡ size)
unfolding receive
receive-ok sys part name body final read_ok size d e = ground arith

receive_total :
    (sys : System) (part name body : Text) (d : Dir)
    → sys.close_ok ≡ true
    → (receive sys part name body true (length body) d).0 ≡ (commit sys part name false d).0
unfolding receive
receive_total sys part name body d closes = ground arith

cleanup-fst :
    (sys : System) (part : Text) (r : Result SaveError Text × Dir) → (cleanup sys part r).0 ≡ r.0
unfolding cleanup
cleanup-fst sys part (ok final, d) = refl
cleanup-fst sys part (err e, d) = refl

-- `CreateTemp` makes a name that is not in use.
abbrev pub IsFresh : System → Dir → Type 0
IsFresh sys d = (part : Text) → sys.part_name ≡ some part → lookup part d ≡ none

-- What `Save` returns and leaves: a whole file under a free name, or a folder that is
-- unchanged but for what could not be closed or removed.
abbrev pub SaveOutcome :
    System → Unicode → Text → Text → Text → Bool → ℕ → Dir → Result SaveError Text × Dir → Type 0
SaveOutcome sys u goos name body read_ok size d r =
    ((final : Text) × (r.0 ≡ ok final)
      × (validate_filename u name goos ≡ ok tt)
      × (read_ok ≡ true)
      × (length body ≡ size)
      × Stored (file body) d final r.1)
    ⊎ ((e : SaveError) × (r.0 ≡ err e) × Remains sys false d r.1)

Settled-SaveOutcome :
    (sys : System) (u : Unicode) (goos part name body : Text) (read_ok : Bool) (size : ℕ) (d : Dir)
    → validate_filename u name goos ≡ ok tt
    → let r = receive sys part name body read_ok size (insert part (file body) d) in
      Settled sys part name false (file body) d (cleanup sys part r)
      → SaveOutcome sys u goos name body read_ok size d (cleanup sys part r)
Settled-SaveOutcome sys u goos part name body read_ok size d valid (inl (final, e, first, stored)) =
    let r = receive sys part name body read_ok size (insert part (file body) d) in
    let (reads, whole) =
      receive-ok sys part name body final read_ok size (insert part (file body) d)
        (sym (cleanup-fst sys part r) ∙ e) in
    inl (final, e, valid, reads, whole, stored)
Settled-SaveOutcome sys u goos part name body read_ok size d valid (inr failed) = inr failed

with_part-SaveOutcome :
    (sys : System) (u : Unicode) (o : Option Text) (goos name body : Text) (read_ok : Bool)
    (size : ℕ) (d : Dir)
    → validate_filename u name goos ≡ ok tt
    → sys.part_name ≡ o
    → IsFresh sys d
    → sys.remove_ok ≡ true
    → SaveOutcome sys u goos name body read_ok size d (with_part sys o name body read_ok size d)
unfolding with_part
with_part-SaveOutcome sys u none goos name body read_ok size d valid made fresh removes =
    inr (create_temp, refl, unchanged sys false d)
with_part-SaveOutcome sys u (some part) goos name body read_ok size d valid made fresh removes =
    Settled-SaveOutcome sys u goos part name body read_ok size d valid (
      cleanup-Settled sys part name false (file body) d _ made (fresh part made) (
        receive-Committed sys part name body read_ok size (insert part (file body) d)
          (simp (lookup-insert, text_eq_refl)) removes))

save_valid :
    (sys : System) (u : Unicode) (goos name body : Text) (read_ok : Bool) (size : ℕ) (d : Dir)
    → validate_filename u name goos ≡ ok tt
    → save sys u goos name body read_ok size d
      ≡ with_part sys sys.part_name name body read_ok size d
unfolding save
save_valid sys u goos name body read_ok size d valid = rw (valid, save)

-- `Save` is all or nothing. If it returns a name, the request's name was valid, the reader ended
-- without an error after exactly the declared number of bytes, the returned name was free, and
-- afterwards it holds exactly those bytes while every other entry is as before. If it returns an
-- error, every entry is as before, but that an empty placeholder may stay under one free name if its
-- close failed, and the temporary file if its removal failed. The operating system is assumed to
-- make temporary names that are not in use, and not to fail at removing a placeholder that it closed.
pub save-SaveOutcome :
    (sys : System) (u : Unicode) (goos name body : Text) (read_ok : Bool) (size : ℕ) (d : Dir)
    → IsFresh sys d
    → sys.remove_ok ≡ true
    → SaveOutcome sys u goos name body read_ok size d (save sys u goos name body read_ok size d)
save-SaveOutcome sys u goos name body read_ok size d fresh removes =
    elim (Result-unit-cases (validate_filename u name goos)) [
      | inr (e, bad) ↦
          unfold save in rw (bad, save) (inr (invalid_filename e, refl, unchanged sys false d))
      | inl valid ↦ rw (save_valid sys u goos name body read_ok size d valid) (
          with_part-SaveOutcome sys u sys.part_name goos name body read_ok size d valid refl fresh
            removes)
    ]

with_part-some :
    (sys : System) (o : Option Text) (part name body : Text) (read_ok : Bool) (size : ℕ) (d : Dir)
    → o ≡ some part
    → (with_part sys o name body read_ok size d).0
      ≡ (receive sys part name body read_ok size (insert part (file body) d)).0
unfolding with_part
with_part-some sys o part name body read_ok size d e = rw (e, with_part) (cleanup-fst sys part _)

-- No call of the operating system fails.
pub record NoFaults (sys : System) (part : Text) : Type 0 where
  pub made : sys.part_name ≡ some part
  pub closes : sys.close_ok ≡ true
  pub reserves : (final : Text) → sys.reserve_ok final ≡ true
  pub closes_reserved : (final : Text) → sys.reserve_close_ok final ≡ true
  pub renames : sys.rename_ok ≡ true

-- `Save` succeeds whenever the name is valid, the declared bytes arrive, the operating system does
-- not fail and one of the 10,000 candidate names is free.
pub save_total :
    (sys : System) (u : Unicode) (goos part name body : Text) (j : ℕ) (d : Dir)
    → NoFaults sys part
    → validate_filename u name goos ≡ ok tt
    → j < max_names
    → lookup (numbered_name name j false) (insert part (file body) d) ≡ none
    → (final : Text) × ((save sys u goos name body true (length body) d).0 ≡ ok final)
save_total sys u goos part name body j d quiet valid in_range free =
    let d' = insert part (file body) d in
    let here : lookup part d' ≡ some (file body) = simp (lookup-insert, text_eq_refl) in
    let (final, e) =
      commit_total sys part name false d' (file body) j here (quiet.reserves)
        (quiet.closes_reserved) quiet.renames in_range free in
    (
      final,
      ap (λ r. r.0) (save_valid sys u goos name body true (length body) d valid)
          ∙ with_part-some sys sys.part_name part name body true (length body) d quiet.made
          ∙ receive_total sys part name body d' quiet.closes
          ∙ e,
    )
