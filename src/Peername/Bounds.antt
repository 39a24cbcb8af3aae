-- ===== src/Peername/Bounds.antt =====
-- What `Validate` accepts and `Default` returns.
use lanxfer.Base.{
  ℕ, ◌≤◌, ◌≡◌, ◌≢◌, ◌↔◌, ◌⊎◌, inl, inr, refl, false, [], ◌∷◌, arith, Text, codes, length, All,
  any_by, ok, err, Result-unit-cases, trim_suffix,
}
use lanxfer.Utf8.{runes, is_control, any_control-runes}
use lanxfer.Peername.{NameError, validate, default_name, max_len, lanxfer_name}

abbrev pub IsPrintable : ℕ → Type 0
IsPrintable c = (0x20 ≤ c) × (c ≢ 0x7F)

pub any_control_iff : (s : Text) → (any_by is_control s ≡ false) ↔ All IsPrintable s
unfolding is_control
any_control_iff [] = (λ _. tt, λ _. refl)
any_control_iff (c ∷ s) =
    (λ e. ground (arith, any_control_iff s), λ e. ground (arith, any_control_iff s))

-- `Validate` accepts exactly the names of 1 to 64 bytes none of which is a control character, also
-- where the name is not valid UTF-8.
pub validate_iff :
    (name : Text)
    → (validate name ≡ ok tt) ↔ ((1 ≤ length name) × (length name ≤ max_len) × All IsPrintable name)
unfolding validate
validate_iff name = ground (arith, any_control-runes name, any_control_iff name)

lanxfer_name_ok : validate lanxfer_name ≡ ok tt
unfolding validate runes is_control
lanxfer_name_ok = refl

host_name :
    (hostname : Text)
    → (name : Text) × (default_name [] hostname ≡ ok name) × (validate name ≡ ok tt)
unfolding default_name
host_name hostname =
    let name = trim_suffix hostname (codes ".local") in
    elim (Result-unit-cases (validate name)) [
      | inl e ↦ (name, rw (e, default_name), e)
      | inr (e, eq) ↦ (lanxfer_name, rw (eq, default_name), lanxfer_name_ok)
    ]

-- `Default` never returns a name that `Validate` refuses, it cannot fail without a flag, and with a
-- flag it fails exactly as `Validate` does and otherwise returns the flag.
pub default_name_lem :
    (flag hostname : Text)
    → ((flag ≡ [])
        × ((name : Text) × (default_name flag hostname ≡ ok name) × (validate name ≡ ok tt)))
      ⊎ ((flag ≢ []) × (validate flag ≡ ok tt) × (default_name flag hostname ≡ ok flag))
      ⊎ ((flag ≢ [])
          × ((e : NameError) × (validate flag ≡ err e) × (default_name flag hostname ≡ err e)))
unfolding default_name
default_name_lem [] hostname = inl (refl, host_name hostname)
default_name_lem (c ∷ flag) hostname = elim (Result-unit-cases (validate (c ∷ flag))) [
  | inl e ↦ inr (inl ((cc), e, rw (e, default_name)))
  | inr (e, eq) ↦ inr (inr ((cc), (e, eq, rw (eq, default_name))))
]
