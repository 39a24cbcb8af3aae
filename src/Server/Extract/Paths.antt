-- ===== src/Server/Extract/Paths.antt =====
-- What `entryPath` accepts.
use lanxfer.Base.{
  ◌≤◌, ◌≡◌, ◌≢◌, ap, subst, ◌⊎◌, inl, inr, List, [], ◌∷◌, ◌++◌, Text, arith, length, All, ok,
  Result-unit-cases, split, split_from-append, length-append,
}
use lanxfer.Unicode.{Unicode}
use lanxfer.Server.Filename.{validate_filename}
use lanxfer.Server.Filename.Safe.{IsSafeName, validate_filename-IsSafeName}
use lanxfer.Server.Extract.{check_parts, entry_path, max_entry_depth, max_entry_path_len}

-- A path of at most 64 safe names that stays below the folder it starts from.
pub record IsSafePath (p : Text) : Type 0 where
  pub safe_parts : All IsSafeName (split p b'/')
  pub shallow : length (split p b'/') ≤ max_entry_depth
  pub short : length p ≤ max_entry_path_len

pub check_parts-IsSafeName :
    (u : Unicode) (goos : Text) (parts : List Text)
    → check_parts u goos parts ≡ ok tt
    → All IsSafeName parts
unfolding check_parts
check_parts-IsSafeName u goos [] h = tt
check_parts-IsSafeName u goos (part ∷ parts) h =
    elim (Result-unit-cases (validate_filename u part goos)) [
      | inl e ↦ (
        validate_filename-IsSafeName u part goos e,
        check_parts-IsSafeName u goos parts (ground arith),
      )
      | inr (bad, e) ↦ absurd (ground arith)
    ]

entry_path_checks :
    (u : Unicode) (goos name rel : Text)
    → entry_path u goos name ≡ ok rel
    → (rel ≡ [])
      ⊎ ((check_parts u goos (split rel b'/') ≡ ok tt)
          × (length (split rel b'/') ≤ max_entry_depth)
          × (length rel ≤ max_entry_path_len))
unfolding entry_path
entry_path_checks u goos name rel h = ground arith

pub entry_path-IsSafePath :
    (u : Unicode) (goos name rel : Text)
    → entry_path u goos name ≡ ok rel
    → rel ≢ []
    → IsSafePath rel
entry_path-IsSafePath u goos name rel h full = elim (entry_path_checks u goos name rel h) [
  | inl e ↦ absurd (full e)
  | inr (parts, depth, len) ↦ record {
    safe_parts = check_parts-IsSafeName u goos (split rel b'/') parts;
    shallow = depth;
    short = len;
  }
]

All-left {ℓ} : {A : Type ℓ} (P : A → Type 0) (xs ys : List A) → All P (xs ++ ys) → All P xs
All-left P [] ys h = tt
All-left P (x ∷ xs) ys h = (h.0, All-left P xs ys h.1)

-- The folders on the way to a safe path have safe paths.
pub IsSafePath-parent : (a b : Text) → IsSafePath (a ++ b'/' ∷ b) → IsSafePath a
unfolding split
IsSafePath-parent a b s =
    let e = split_from-append b'/' [] a b in
    record {
      safe_parts =
          All-left IsSafeName (split a b'/') (split b b'/') (subst (All IsSafeName) e s.safe_parts);
      shallow = omega (arith, s.shallow, ap length e, length-append (split a b'/') (split b b'/'));
      short = omega (arith, s.short, length-append a (b'/' ∷ b));
    }
