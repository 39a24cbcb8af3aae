-- ===== src/Server/Stale/Spared.antt =====
-- What the sweep of temporary entries spares.
use lanxfer.Base.{
  ℕ, ◌+◌, ◌≤◌, ◌≡◌, ◌⊎◌, refl, subst, inl, inr, Bool, true, false, List, [], ◌∷◌, Option, none,
  some, Text, arith, ltb, length, if◌then◌else◌, Bool-cases, All, In, here, there, In-cons, ok,
}
use lanxfer.Unicode.{Unicode}
use lanxfer.Server.Filename.{is_part, validate_filename}
use lanxfer.Server.Filename.Safe.{validate_filename-IsSafeName}
use lanxfer.Server.Stale.{
  Kind, regular, directory, special, Walked, unreadable, passed_over, counted, DirEntry,
  newest_from, newest_mod_time, last_touched, Verdict, left, removed, not_removed, judge, verdict,
  Swept, after, sweep,
}

-- A part of a walk that was last changed at the time or before.
abbrev pub IsUntouched : ℕ → Walked → Type 0
IsUntouched t unreadable = ⊥
IsUntouched t passed_over = Unit
IsUntouched t (counted none) = ⊥
IsUntouched t (counted (some s)) = s ≤ t

-- A regular file or a folder, itself and all below it not changed for the time.
abbrev pub IsOld : ℕ → ℕ → Kind → DirEntry → Type 0
IsOld now older_than regular e = (t : ℕ) × (e.mod_time ≡ some t) × (t + older_than ≤ now)
IsOld now older_than directory e = (t : ℕ) × All (IsUntouched t) e.walk × (t + older_than ≤ now)
IsOld now older_than special e = ⊥

abbrev pub IsStale : ℕ → ℕ → DirEntry → Type 0
IsStale now older_than e =
    (is_part e.name ≡ true) × (e.removable ≡ true) × IsOld now older_than e.kind e

IsUntouched-later :
    (s t : ℕ) → s ≤ t → (ws : List Walked) → All (IsUntouched s) ws → All (IsUntouched t) ws
IsUntouched-later s t h [] hs = tt
IsUntouched-later s t h (unreadable ∷ ws) hs = absurd hs.0
IsUntouched-later s t h (passed_over ∷ ws) hs = (tt, IsUntouched-later s t h ws hs.1)
IsUntouched-later s t h (counted none ∷ ws) hs = absurd hs.0
IsUntouched-later s t h (counted (some r) ∷ ws) hs =
    (omega (arith, h, hs.0), IsUntouched-later s t h ws hs.1)

newest_from_lem :
    (n : ℕ) (ws : List Walked) (t : ℕ)
    → newest_from n ws ≡ some t
    → (n ≤ t) × All (IsUntouched t) ws
unfolding newest_from
newest_from_lem n [] t h = (ground (arith, h), tt)
newest_from_lem n (unreadable ∷ ws) t h = cc
newest_from_lem n (passed_over ∷ ws) t h =
    let (le, all) = newest_from_lem n ws t h in (le, (tt, all))
newest_from_lem n (counted none ∷ ws) t h = cc
newest_from_lem n (counted (some s) ∷ ws) t h =
    let (le, all) = newest_from_lem (if ltb n s then s else n) ws t h in
    (ground (arith, le), (ground (arith, le), all))

judge-removed :
    (now older_than : ℕ) (removable : Bool) (newest : Option ℕ)
    → judge now older_than removable newest ≡ removed
    → (removable ≡ true) × ((t : ℕ) × (newest ≡ some t) × (t + older_than ≤ now))
unfolding judge
judge-removed now older_than removable none h = cc
judge-removed now older_than false (some t) h = absurd (ground (arith, h))
judge-removed now older_than true (some t) h = (refl, (t, refl, ground (arith, h)))

last_touched-IsOld :
    (now older_than : ℕ) (kind : Kind) (e : DirEntry) (t : ℕ)
    → last_touched kind e ≡ some t
    → t + older_than ≤ now
    → IsOld now older_than kind e
unfolding last_touched newest_mod_time
last_touched-IsOld now older_than regular e t h le = (t, h, le)
last_touched-IsOld now older_than directory e t h le = (t, (newest_from_lem 0 e.walk t h).1, le)
last_touched-IsOld now older_than special e t h le = cc

verdict-IsStale :
    (now older_than : ℕ) (e : DirEntry)
    → verdict now older_than e ≡ removed
    → IsStale now older_than e
unfolding verdict
verdict-IsStale now older_than e h = elim (Bool-cases (is_part e.name)) [
  | inr f ↦ absurd (ground (arith, h, f))
  | inl p ↦
      let (removable, old) =
        judge-removed now older_than e.removable (last_touched e.kind e) (ground (arith, h, p)) in
      let (t, touched, le) = old in
      (p, removable, last_touched-IsOld now older_than e.kind e t touched le)
]

-- What a sweep leaves, by what it finds.
abbrev pub Spared : ℕ → ℕ → List DirEntry → Swept → Type 0
Spared now older_than es s =
    (s.count + length s.entries ≡ length es)
    × ((e : DirEntry) → In e es → In e s.entries ⊎ IsStale now older_than e)

after-Spared :
    (now older_than : ℕ) (e : DirEntry) (v : Verdict) (es : List DirEntry) (s : Swept)
    → verdict now older_than e ≡ v
    → Spared now older_than es s
    → Spared now older_than (e ∷ es) (after e v s)
unfolding after
after-Spared now older_than e left es s h (n, rest) = (
  omega (arith, n),
  λ d i. elim (In-cons i) [
    | inl same ↦ inl (here same)
    | inr j ↦ elim (rest d j) [ inl k ↦ inl (there k) | inr stale ↦ inr stale ]
  ],
)
after-Spared now older_than e not_removed es s h (n, rest) = (
  omega (arith, n),
  λ d i. elim (In-cons i) [
    | inl same ↦ inl (here same)
    | inr j ↦ elim (rest d j) [ inl k ↦ inl (there k) | inr stale ↦ inr stale ]
  ],
)
after-Spared now older_than e removed es s h (n, rest) = (
  omega (arith, n),
  λ d i. elim (In-cons i) [
    | inl same ↦ inr (subst (IsStale now older_than) same (verdict-IsStale now older_than e h))
    | inr j ↦ rest d j
  ],
)

sweep-Spared :
    (now older_than : ℕ) (es : List DirEntry) → Spared now older_than es (sweep now older_than es)
unfolding sweep
sweep-Spared now older_than [] = (omega arith, λ e i. elim i [ ])
sweep-Spared now older_than (e ∷ es) =
    after-Spared now older_than e (verdict now older_than e) es (sweep now older_than es) refl
      (sweep-Spared now older_than es)

-- The sweep counts exactly the entries that it removes. It removes only an entry with the name of a
-- temporary one that is a regular file or a folder and that, with everything below it, was not
-- changed for at least the given time; so nothing under a name that a receiver accepts is removed.
pub sweep_lem :
    (u : Unicode) (goos : Text) (now older_than : ℕ) (es : List DirEntry)
    → Spared now older_than es (sweep now older_than es)
      × ((e : DirEntry)
          → In e es
          → validate_filename u e.name goos ≡ ok tt
          → In e (sweep now older_than es).entries)
sweep_lem u goos now older_than es = (
  sweep-Spared now older_than es,
  λ e i valid. elim ((sweep-Spared now older_than es).1 e i) [
    | inl stays ↦ stays
    | inr stale ↦
        absurd (cc (stale.0, (validate_filename-IsSafeName u e.name goos valid).not_temporary))
  ],
)
