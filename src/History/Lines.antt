-- ===== src/History/Lines.antt =====
-- The lines of a file to which a line is added.
use lanxfer.Base.{
  ℕ, ◌≡◌, refl, ap, ◌∙◌, inl, inr, true, false, List, [], ◌∷◌, ◌++◌, none, some, Text, arith, ◌==◌,
  ==_iff, All, Bool-cases, append_assoc, append-nil, Option-cases,
}
use lanxfer.History.{
  Codec, FileSystem, newline, last_byte, fresh_line, lines_from, rest_line, read_line, read_lines,
  read_all,
}

read_lines-append :
    (c : Codec) (xs ys : List Text) → read_lines c (xs ++ ys) ≡ read_lines c xs ++ read_lines c ys
unfolding read_lines
read_lines-append c [] ys = refl
read_lines-append c (x ∷ xs) ys = rw (read_lines-append c xs ys, append_assoc)

-- Behind a newline a new line begins.
lines_from-append :
    (cur s b : Text)
    → last_byte s ≡ some newline
    → lines_from cur (s ++ b) ≡ lines_from cur s ++ lines_from [] b
unfolding lines_from rest_line last_byte
lines_from-append cur [] b h = cc
lines_from-append cur (c ∷ []) b h = ground arith
lines_from-append cur (c ∷ d ∷ s) b h =
    ground (arith, lines_from-append [] (d ∷ s) b h, lines_from-append (cur ++ c ∷ []) (d ∷ s) b h)

rest_line-append : (cur : Text) (k : ℕ) → rest_line (cur ++ k ∷ []) ≡ (cur ++ k ∷ []) ∷ []
unfolding rest_line
rest_line-append [] k = refl
rest_line-append (c ∷ cur) k = refl

-- A line that was encoded has no newline inside.
lines_from-line :
    (cur line : Text)
    → All (λ b. b == newline ≡ false) line
    → lines_from cur (line ++ newline ∷ []) ≡ (cur ++ (line ++ newline ∷ [])) ∷ []
unfolding lines_from rest_line
lines_from-line cur [] h = refl
lines_from-line cur (k ∷ line) h =
    rw (h.0, lines_from, lines_from-line (cur ++ k ∷ []) line h.1, append_assoc)

lines_from-cons_in :
    (cur s : Text) (d : ℕ)
    → d == newline ≡ false
    → lines_from cur (d ∷ s) ≡ lines_from (cur ++ d ∷ []) s
unfolding lines_from
lines_from-cons_in cur s d e = rw (e, lines_from) refl

lines_from-cons_end :
    (cur s : Text) (d : ℕ)
    → d == newline ≡ true
    → lines_from cur (d ∷ s) ≡ (cur ++ d ∷ []) ∷ lines_from [] s
unfolding lines_from
lines_from-cons_end cur s d e = rw (e, lines_from) refl

lines_from-end : (cur : Text) (d : ℕ) → lines_from (cur ++ d ∷ []) [] ≡ (cur ++ d ∷ []) ∷ []
unfolding lines_from
lines_from-end cur d = rest_line-append cur d

last_byte-none : (s : Text) → last_byte s ≡ none → s ≡ []
unfolding last_byte
last_byte-none [] h = refl
last_byte-none (c ∷ []) h = cc
last_byte-none (c ∷ d ∷ s) h = absurd (later (last_byte-none (d ∷ s) h))
  where
    later : d ∷ s ≡ [] → ⊥
    later h2 = cc

fresh_line_empty : (fs : FileSystem) (line : Text) → fresh_line fs [] line ≡ line
unfolding fresh_line last_byte
fresh_line_empty fs line = refl

module _ (fs : FileSystem) (file line : Text) (k : ℕ) where
  fresh_line_same : last_byte file ≡ some k → k == newline ≡ true → fresh_line fs file line ≡ line
  unfolding fresh_line
  fresh_line_same e t = rw (e, t, fresh_line) refl

  fresh_line_broken :
      fs.inspect_ok ≡ true
      → last_byte file ≡ some k
      → k == newline ≡ false
      → fresh_line fs file line ≡ newline ∷ line
  unfolding fresh_line
  fresh_line_broken i e f = ground (arith, i, e, f)

module _ (c : Codec) (blank : (l : Text) → c.decode (l ++ newline ∷ []) ≡ c.decode l) where
  read_line-newline : (l : Text) → read_line c (l ++ newline ∷ []) ≡ read_line c l
  unfolding read_line
  read_line-newline l = rw (blank l, read_line) refl

  -- A newline behind a fragment changes no entry.
  read_lines-fragment :
      (cur s b : Text) (k : ℕ)
      → last_byte s ≡ some k
      → k == newline ≡ false
      → read_lines c (lines_from cur (s ++ newline ∷ b))
        ≡ read_lines c (lines_from cur s) ++ read_lines c (lines_from [] b)
  unfolding last_byte read_lines
  read_lines-fragment cur [] b k h e = cc
  read_lines-fragment cur (d ∷ []) b k h e =
      let last : d == newline ≡ false = ground (arith, h, e) in
      rw
        (
          lines_from-cons_in cur (newline ∷ b) d last,
          lines_from-cons_in cur [] d last,
          lines_from-cons_end (cur ++ d ∷ []) b newline refl,
          read_line-newline (cur ++ d ∷ []),
          lines_from-end cur d,
          append-nil,
        )
        refl
  read_lines-fragment cur (d ∷ d2 ∷ s) b k h e = elim (Bool-cases (d == newline)) [
    | inl t ↦ rw (
      lines_from-cons_end cur (d2 ∷ s ++ newline ∷ b) d t,
      lines_from-cons_end cur (d2 ∷ s) d t,
      read_lines-fragment [] (d2 ∷ s) b k h e,
      append_assoc,
    )
    | inr f ↦
        rw (lines_from-cons_in cur (d2 ∷ s ++ newline ∷ b) d f, lines_from-cons_in cur (d2 ∷ s) d f)
          (read_lines-fragment (cur ++ d ∷ []) (d2 ∷ s) b k h e)
  ]

  read_lines-line :
      (line : Text)
      → All (λ b. b == newline ≡ false) line
      → read_lines c (lines_from [] (line ++ newline ∷ [])) ≡ read_line c line
  unfolding read_lines
  read_lines-line line plain =
      rw (lines_from-line [] line plain, append-nil) (read_line-newline line)

  read_lines_empty : read_lines c (lines_from [] []) ≡ []
  unfolding lines_from rest_line read_lines
  read_lines_empty = refl

  -- What `fresh_line` adds is read behind what was there.
  pub read_all-fresh :
      (fs : FileSystem) (file line : Text)
      → fs.inspect_ok ≡ true
      → All (λ b. b == newline ≡ false) line
      → read_all c (file ++ fresh_line fs file (line ++ newline ∷ []))
        ≡ read_all c file ++ read_line c line
  unfolding read_all
  read_all-fresh fs file line i plain = elim (Option-cases (last_byte file)) [
    | inl e ↦
        rw (last_byte-none file e, fresh_line_empty fs (line ++ newline ∷ []), read_lines_empty)
          (read_lines-line line plain)
    | inr (k, e) ↦ elim (Bool-cases (k == newline)) [
      | inl t ↦
          rw
            (
              fresh_line_same fs file (line ++ newline ∷ []) k e t,
              lines_from-append [] file (line ++ newline ∷ [])
                  (e ∙ ap some ((==_iff k newline).0 t)),
              read_lines-append c (lines_from [] file) (lines_from [] (line ++ newline ∷ [])),
              read_lines-line line plain,
            )
            refl
      | inr f ↦
          rw
            (
              fresh_line_broken fs file (line ++ newline ∷ []) k i e f,
              read_lines-fragment [] file (line ++ newline ∷ []) k e f,
              read_lines-line line plain,
            )
            refl
    ]
  ]
