-- ===== src/Server/Filename/Safe.antt =====
-- What an accepted name is.
use lanxfer.Base.{
  ◌≡◌, ◌≢◌, ◌≤◌, ◌⊎◌, inl, inr, refl, List, ltb, length, ◌&&◌, ◌||◌, if◌then◌else◌, Bool-cases,
  false, [], ◌∷◌, arith, Text, codes, All, any_by, ok, text_eq, text_eq_iff, contains, contains_any,
  EndsWith, has_suffix_iff, has_suffix, sym, ◌∙◌,
}
use lanxfer.Unicode.{Unicode}
use lanxfer.Utf8.{runes, is_control, any_control-runes}
use lanxfer.Server.Filename.{
  validate_filename, check_name_length, is_part, separators, windows_characters, windows_reserved,
  units, windows, darwin,
}
use lanxfer.Peername.Bounds.{IsPrintable, any_control_iff}

-- A name of one entry directly under the folder that holds it, on whatever system.
pub record IsSafeName (name : Text) : Type 0 where
  pub not_empty : name ≢ []
  pub not_here : name ≢ codes "."
  pub not_parent : name ≢ codes ".."
  pub no_separator : All (λ c. (c ≢ b'/') × (c ≢ b'\\')) name
  pub printable : All IsPrintable name
  pub no_last_dot : ¬ EndsWith name (codes ".")
  pub no_last_space : ¬ EndsWith name (codes " ")
  pub not_temporary : is_part name ≡ false

contains_any-separators :
    (s : Text) → contains_any s separators ≡ false → All (λ c. (c ≢ b'/') × (c ≢ b'\\')) s
unfolding contains_any contains
contains_any-separators [] h = tt
contains_any-separators (c ∷ s) h = ground (arith, contains_any-separators s)

pub record Guards (u : Unicode) (name goos : Text) : Type 0 where
  pub g_empty : text_eq name [] ≡ false
  pub g_here : text_eq name (codes ".") ≡ false
  pub g_parent : text_eq name (codes "..") ≡ false
  pub g_separators : contains_any name separators ≡ false
  pub g_controls : any_by is_control (runes name) ≡ false
  pub g_dot : has_suffix name (codes ".") ≡ false
  pub g_space : has_suffix name (codes " ") ≡ false
  pub g_part : is_part name ≡ false
  pub g_length :
      ltb 255
        (if text_eq goos darwin || text_eq goos windows then units (runes name) else length name)
      ≡ false
  pub g_windows : text_eq goos windows && contains_any name windows_characters ≡ false
  pub g_reserved : any_by (text_eq (u.to_upper name)) windows_reserved ≡ false

validate_filename-Guards :
    (u : Unicode) (name goos : Text) → validate_filename u name goos ≡ ok tt → Guards u name goos
unfolding validate_filename check_name_length
validate_filename-Guards u name goos h = ground arith

text_ne : (s t : Text) → text_eq s t ≡ false → s ≢ t
text_ne s t h e = cc ((text_eq_iff s t).1 e)

not_EndsWith : (s x : Text) → has_suffix s x ≡ false → ¬ EndsWith s x
not_EndsWith s x h e = cc ((has_suffix_iff s x).1 e)

pub validate_filename-IsSafeName :
    (u : Unicode) (name goos : Text) → validate_filename u name goos ≡ ok tt → IsSafeName name
validate_filename-IsSafeName u name goos h =
    let g = validate_filename-Guards u name goos h in
    record {
      not_empty = text_ne name [] g.g_empty;
      not_here = text_ne name (codes ".") g.g_here;
      not_parent = text_ne name (codes "..") g.g_parent;
      no_separator = contains_any-separators name g.g_separators;
      printable = (any_control_iff name).0 (sym (any_control-runes name) ∙ g.g_controls);
      no_last_dot = not_EndsWith name (codes ".") g.g_dot;
      no_last_space = not_EndsWith name (codes " ") g.g_space;
      not_temporary = g.g_part;
    }

Guards-validate_filename :
    (u : Unicode) (name goos : Text) → Guards u name goos → validate_filename u name goos ≡ ok tt
unfolding validate_filename check_name_length
Guards-validate_filename u name goos g =
    rw
      (
        validate_filename, g.g_empty, g.g_here, g.g_parent, check_name_length, g.g_length,
        g.g_separators, g.g_controls, g.g_windows, g.g_dot, g.g_space, g.g_reserved, g.g_part,
      )
      refl

-- A name that the system takes for one new entry, under no other name.
pub record IsAllowed (u : Unicode) (goos name : Text) : Type 0 where
  pub safe : IsSafeName name
  pub short_in_units : (goos ≡ darwin) ⊎ (goos ≡ windows) → units (runes name) ≤ 255
  pub short_in_bytes : goos ≢ darwin → goos ≢ windows → length name ≤ 255
  pub for_windows : goos ≡ windows → All (λ c. contains c windows_characters ≡ false) name
  pub not_reserved : All (λ r. u.to_upper name ≢ r) windows_reserved

contains_any-windows :
    (s : Text)
    → (contains_any s windows_characters ≡ false
        → All (λ c. contains c windows_characters ≡ false) s)
      × (All (λ c. contains c windows_characters ≡ false) s
          → contains_any s windows_characters ≡ false)
unfolding contains_any
contains_any-windows [] = ((λ h. tt), λ h. refl)
contains_any-windows (c ∷ s) =
    let (to, from) = contains_any-windows s in
    ((λ h. (ground (arith, h), to (ground (arith, h)))), λ h. ground (arith, h.0, from h.1))

separators-contains_any :
    (s : Text) → All (λ c. (c ≢ b'/') × (c ≢ b'\\')) s → contains_any s separators ≡ false
unfolding contains_any contains
separators-contains_any [] h = refl
separators-contains_any (c ∷ s) h = ground (arith, separators-contains_any s h.1, h.0.0, h.0.1)

any_by-none :
    (t : Text) (rs : List Text)
    → (any_by (text_eq t) rs ≡ false → All (λ r. t ≢ r) rs)
      × (All (λ r. t ≢ r) rs → any_by (text_eq t) rs ≡ false)
any_by-none t [] = ((λ h. tt), λ h. refl)
any_by-none t (r ∷ rs) =
    let (to, from) = any_by-none t rs in
    (
      (λ h. (text_ne t r (ground (arith, h)), to (ground (arith, h)))),
      λ h. ground (arith, text_eq_iff t r, h.0, from h.1),
    )

text_eq-ne : (s t : Text) → s ≢ t → text_eq s t ≡ false
text_eq-ne s t h = ground (arith, text_eq_iff s t, h)

has_suffix-not : (s x : Text) → ¬ EndsWith s x → has_suffix s x ≡ false
has_suffix-not s x h = ground (arith, has_suffix_iff s x, h)

IsAllowed-Guards : (u : Unicode) (name goos : Text) → IsAllowed u goos name → Guards u name goos
IsAllowed-Guards u name goos a = record {
  g_empty = text_eq-ne name [] a.safe.not_empty;
  g_here = text_eq-ne name (codes ".") a.safe.not_here;
  g_parent = text_eq-ne name (codes "..") a.safe.not_parent;
  g_separators = separators-contains_any name a.safe.no_separator;
  g_controls = any_control-runes name ∙ (any_control_iff name).1 a.safe.printable;
  g_dot = has_suffix-not name (codes ".") a.safe.no_last_dot;
  g_space = has_suffix-not name (codes " ") a.safe.no_last_space;
  g_part = a.safe.not_temporary;
  g_length = elim (Bool-cases (text_eq goos darwin)) [
    | inl d ↦ rw (d) (ground (arith, a.short_in_units (inl ((text_eq_iff goos darwin).0 d))))
    | inr d ↦ elim (Bool-cases (text_eq goos windows)) [
      | inl w ↦ rw (d, w) (ground (arith, a.short_in_units (inr ((text_eq_iff goos windows).0 w))))
      | inr w ↦
          rw (d, w)
            (ground (arith, a.short_in_bytes (text_ne goos darwin d) (text_ne goos windows w)))
    ]
  ];
  g_windows = elim (Bool-cases (text_eq goos windows)) [
    | inr w ↦ rw (w) refl
    | inl w ↦
        rw (w) ((contains_any-windows name).1 (a.for_windows ((text_eq_iff goos windows).0 w)))
  ];
  g_reserved = (any_by-none (u.to_upper name) windows_reserved).1 a.not_reserved;
}

-- A name is accepted exactly if it is not empty, `.` or `..`, has no separator and no control byte,
-- no dot or space at its end, and not the form of a temporary file; has at most 255 UTF-16 units on
-- macOS and Windows and at most 255 bytes elsewhere; has, on Windows, none of the characters that
-- Windows forbids; and is, in upper case, none of the names that Windows reserves.
pub validate_filename-IsAllowed :
    (u : Unicode) (name goos : Text)
    → (validate_filename u name goos ≡ ok tt → IsAllowed u goos name)
      × (IsAllowed u goos name → validate_filename u name goos ≡ ok tt)
validate_filename-IsAllowed u name goos = (
  (λ h.
      let g = validate_filename-Guards u name goos h in
      record {
        safe = validate_filename-IsSafeName u name goos h;
        short_in_units =
            λ on. ground (arith, g.g_length, on, text_eq_iff goos darwin, text_eq_iff goos windows);
        short_in_bytes =
            λ d w. ground (arith, g.g_length, text_eq-ne goos darwin d, text_eq-ne goos windows w);
        for_windows = λ w.
            (contains_any-windows name).0
              (ground (arith, g.g_windows, text_eq_iff goos windows, w));
        not_reserved = (any_by-none (u.to_upper name) windows_reserved).0 g.g_reserved;
      }),
  λ a. Guards-validate_filename u name goos (IsAllowed-Guards u name goos a),
)
