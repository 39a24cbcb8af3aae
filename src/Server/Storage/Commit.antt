-- ===== src/Server/Storage/Commit.antt =====
-- `commit`: the first free name is taken, and no other entry is touched.
use lanxfer.Base.{
  ℕ, zero, suc, ◌+◌, ◌≤◌, ◌<◌, ◌≡◌, ◌≢◌, refl, sym, ap, ◌||◌, [], ◌∙◌, ◌⊎◌, inl, inr, Bool, true,
  false, none, some, Text, arith, if◌then◌else◌, Result, ok, err, lookup, insert, delete,
  lookup-insert, lookup-delete, text_eq, text_eq_iff, Option-cases, Result-cases, Bool-cases,
  ℕ_discrete,
}
use lanxfer.Server.Numbered.{numbered_name}
use lanxfer.Server.Storage.{
  Node, file, Dir, System, SaveError, collisions, at_free, placeholder, commit_from, commit,
  max_names,
}

-- Every candidate from `i` on and before `j` is in use.
abbrev pub Taken : Text → Bool → Dir → ℕ → ℕ → Type 0
Taken name is_dir d i j = (k : ℕ) → i ≤ k → k < j → lookup (numbered_name name k is_dir) d ≢ none

-- The first free candidate is used, or there is none.
abbrev Outcome : System → Text → Text → Bool → Dir → ℕ → ℕ → Result SaveError Text × Dir → Type 0
Outcome sys part name is_dir d i last r =
    ((j : ℕ) × (i ≤ j)
      × (j < last)
      × Taken name is_dir d i j
      × (lookup (numbered_name name j is_dir) d ≡ none)
      × (r ≡ at_free sys part (numbered_name name j is_dir) is_dir d))
    ⊎ (Taken name is_dir d i last × (r ≡ (err collisions, d)))

Taken-step :
    (name : Text) (is_dir : Bool) (d : Dir) (i j : ℕ)
    → lookup (numbered_name name i is_dir) d ≢ none
    → Taken name is_dir d (suc i) j
    → Taken name is_dir d i j
Taken-step name is_dir d i j used t k lo hi = elim (ℕ_discrete k i) [
  | yes e ↦ rw e used
  | no ne ↦ t k (omega arith) hi
]

Outcome-step :
    (sys : System) (part name : Text) (is_dir : Bool) (d : Dir) (i last : ℕ)
    (r : Result SaveError Text × Dir)
    → lookup (numbered_name name i is_dir) d ≢ none
    → Outcome sys part name is_dir d (suc i) last r
    → Outcome sys part name is_dir d i last r
Outcome-step sys part name is_dir d i last r used (inl (j, lo, hi, taken, free, e)) =
    inl (j, omega arith, hi, Taken-step name is_dir d i j used taken, free, e)
Outcome-step sys part name is_dir d i last r used (inr (taken, e)) =
    inr (Taken-step name is_dir d i last used taken, e)

commit_from-Outcome :
    (sys : System) (n i last : ℕ) (part name : Text) (is_dir : Bool) (d : Dir)
    → last ≡ i + n
    → Outcome sys part name is_dir d i last (commit_from sys n i part name is_dir d)
unfolding commit_from
commit_from-Outcome sys zero i last part name is_dir d e =
    inr ((λ k lo hi. absurd (omega arith)), refl)
commit_from-Outcome sys (suc n) i last part name is_dir d e =
    elim (Option-cases (lookup (numbered_name name i is_dir) d)) [
      | inl free ↦ inl (
        i,
        omega arith,
        omega arith,
        (λ k lo hi. absurd (omega arith)),
        free,
        rw (free, commit_from) refl,
      )
      | inr (x, used) ↦
          Outcome-step sys part name is_dir d i last _ (λ none_here. cc)
            (rw (used, commit_from)
              (commit_from-Outcome sys n (suc i) last part name is_dir d (omega arith)))
    ]

commit-Outcome :
    (sys : System) (part name : Text) (is_dir : Bool) (d : Dir)
    → Outcome sys part name is_dir d 0 max_names (commit sys part name is_dir d)
unfolding commit
commit-Outcome sys part name is_dir d =
    commit_from-Outcome sys max_names 0 max_names part name is_dir d (omega arith)

-- The folder after the placeholder was made and perhaps removed.
lookup-reserved :
    (final k : Text) (n : Node) (removed : Bool) (d : Dir)
    → lookup final d ≡ none
    → lookup k (if removed then delete final (insert final n d) else insert final n d)
      ≡ (if text_eq final k then if removed then none else some n else lookup k d)
lookup-reserved final k n true d free =
    ground (arith, lookup-delete final k (insert final n d), lookup-insert final k n d)
lookup-reserved final k n false d free = lookup-insert final k n d

final-ne-part :
    (part final : Text) (d : Dir) (n : Node)
    → lookup part d ≡ some n
    → lookup final d ≡ none
    → text_eq final part ≡ false
final-ne-part part final d n here free = ground (arith, text_eq_iff final part)

-- An entry after a commit that failed: as it was, or the empty file that reserved the free name `p`
-- and whose close failed.
abbrev pub Placed : System → Bool → Text → Dir → Dir → Text → Type 0
Placed sys is_dir p d d' k =
    (lookup k d' ≡ lookup k d)
    ⊎ ((lookup k d ≡ none)
        × (is_dir ≡ false)
        × (k ≡ p)
        × (sys.reserve_close_ok k ≡ false)
        × (lookup k d' ≡ some (file [])))

module _ (sys : System) (part final : Text) (is_dir : Bool) (d : Dir) (n : Node) where
  -- What a successful round at a free name leaves in each entry `k`.
  at_free-ok :
      (got k : Text)
      → lookup part d ≡ some n
      → lookup final d ≡ none
      → (at_free sys part final is_dir d).0 ≡ ok got
      → (got ≡ final)
        × (lookup k (at_free sys part final is_dir d).1
            ≡ (if text_eq final k then some n else if text_eq part k then none else lookup k d))
  unfolding at_free
  at_free-ok got k here free e =
      let ph = placeholder is_dir in
      let removed = if sys.remove_ok then delete final (insert final ph d) else insert final ph d in
      ground (
        arith,
        final-ne-part part final d n here free,
        lookup-reserved final part ph sys.remove_ok d free,
        lookup-reserved final k ph sys.remove_ok d free,
        lookup-insert final k n (delete part removed),
        lookup-delete part k removed,
      )

  -- A failed round that closed its placeholder, or made none.
  at_free-closed :
      (bad : SaveError) (k : Text)
      → lookup part d ≡ some n
      → lookup final d ≡ none
      → sys.remove_ok ≡ true
      → is_dir || sys.reserve_close_ok final ≡ true
      → (at_free sys part final is_dir d).0 ≡ err bad
      → lookup k (at_free sys part final is_dir d).1 ≡ lookup k d
  unfolding at_free
  at_free-closed bad k here free r c e =
      let ph = placeholder is_dir in
      ground (
        arith,
        final-ne-part part final d n here free,
        lookup-reserved final part ph true d free,
        lookup-reserved final k ph true d free,
        text_eq_iff final k,
      )

  at_free-err :
      (bad : SaveError) (k : Text)
      → lookup part d ≡ some n
      → lookup final d ≡ none
      → sys.remove_ok ≡ true
      → (at_free sys part final is_dir d).0 ≡ err bad
      → Placed sys is_dir final d (at_free sys part final is_dir d).1 k
  unfolding at_free
  at_free-err bad k here free r e = elim (Bool-cases (is_dir || sys.reserve_close_ok final)) [
    | inl c ↦ inl (at_free-closed bad k here free r c e)
    | inr c ↦ elim (Bool-cases (sys.reserve_ok final)) [
      | inr o ↦ inl (ground (arith, o))
      | inl o ↦ elim (Bool-cases (text_eq final k)) [
        | inr f ↦ inl (ground (arith, o, c, f, lookup-insert final k (file []) d))
        | inl t ↦
            let same : final ≡ k = (text_eq_iff final k).0 t in
            inr (
              ground (arith, same, free),
              ground (arith, c),
              sym same,
              ground (arith, same, c),
              ground (arith, o, c, t, lookup-insert final k (file []) d),
            )
      ]
    ]
  ]

  at_free_total :
      lookup part d ≡ some n
      → lookup final d ≡ none
      → sys.reserve_ok final ≡ true
      → sys.reserve_close_ok final ≡ true
      → sys.rename_ok ≡ true
      → (at_free sys part final is_dir d).0 ≡ ok final
  unfolding at_free
  at_free_total here free r c e =
      let ph = placeholder is_dir in
      ground (
        arith,
        final-ne-part part final d n here free,
        lookup-reserved final part ph sys.remove_ok d free,
      )

-- The entry at `part` was moved to a name that was free, and nothing else changed.
abbrev pub MovedTo : Text → Node → Dir → Text → Dir → Type 0
MovedTo part n d final d' =
    (lookup final d ≡ none)
    × ((k : Text)
        → lookup k d'
          ≡ (if text_eq final k then some n else if text_eq part k then none else lookup k d))

-- The candidate with the lowest number that is free.
abbrev pub FirstFree : Text → Bool → Dir → Text → Type 0
FirstFree name is_dir d final =
    (j : ℕ) × (j < max_names) × Taken name is_dir d 0 j × (final ≡ numbered_name name j is_dir)

abbrev pub Committed :
    System → Text → Node → Text → Bool → Dir → Result SaveError Text × Dir → Type 0
Committed sys part n name is_dir d r =
    ((final : Text) × (r.0 ≡ ok final) × FirstFree name is_dir d final × MovedTo part n d final r.1)
    ⊎ ((e : SaveError) × (p : Text) × (r.0 ≡ err e) × ((k : Text) → Placed sys is_dir p d r.1 k))

pub commit-Committed :
    (sys : System) (part name : Text) (is_dir : Bool) (d : Dir) (n : Node)
    → lookup part d ≡ some n
    → sys.remove_ok ≡ true
    → Committed sys part n name is_dir d (commit sys part name is_dir d)
commit-Committed sys part name is_dir d n here removes =
    elim (commit-Outcome sys part name is_dir d) [
      | inr (taken, e) ↦ rw e (inr (collisions, [], refl, λ k. inl refl))
      | inl (j, lo, hi, taken, free, e) ↦
          rw e (elim (Result-cases (at_free sys part (numbered_name name j is_dir) is_dir d).0) [
            | inr (bad, f) ↦ inr (
              bad,
              numbered_name name j is_dir,
              f,
              λ k.
                  at_free-err sys part (numbered_name name j is_dir) is_dir d n bad k here free
                    removes f,
            )
            | inl (got, f) ↦ inl (
              numbered_name name j is_dir,
              f
                  ∙ ap {B = Result SaveError Text} ok
                      (at_free-ok sys part (numbered_name name j is_dir) is_dir d n got part here
                        free f).0,
              (j, hi, taken, refl),
              (
                free,
                λ k.
                    (at_free-ok sys part (numbered_name name j is_dir) is_dir d n got k here free
                      f).1,
              ),
            )
          ])
    ]

pub commit_total :
    (sys : System) (part name : Text) (is_dir : Bool) (d : Dir) (n : Node) (j : ℕ)
    → lookup part d ≡ some n
    → ((final : Text) → sys.reserve_ok final ≡ true)
    → ((final : Text) → sys.reserve_close_ok final ≡ true)
    → sys.rename_ok ≡ true
    → j < max_names
    → lookup (numbered_name name j is_dir) d ≡ none
    → (final : Text) × ((commit sys part name is_dir d).0 ≡ ok final)
commit_total sys part name is_dir d n j here reserves closes renames in_range free =
    elim (commit-Outcome sys part name is_dir d) [
      | inr (taken, e) ↦ absurd (taken j (omega arith) in_range free)
      | inl (i, lo, hi, taken, free_i, e) ↦
          let final = numbered_name name i is_dir in
          (
            final,
            rw e (
                at_free_total sys part final is_dir d n here free_i (reserves final) (closes final)
                  renames),
          )
    ]
