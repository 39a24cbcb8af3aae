-- ===== src/Identity/Created/Agreed.antt =====
-- Concurrent calls of `LoadOrCreate` agree.
use lanxfer.Base.{
  ℕ, zero, suc, ◌<◌, ◌≡◌, refl, sym, ap, subst, ◌∙◌, inl, inr, Bool, true, false, List, [], ◌∷◌,
  Option, none, some, Text, arith, length, if◌then◌else◌, ok, All, In, In-cons, Bool-cases,
}
use lanxfer.Identity.{valid, valid_iff, hex_encode, hex_encode-IsHex}
use lanxfer.Identity.Created.{
  Answers, Phase, begin, creating, linking, rereading, renaming, finished, failed, IdFile,
  id_content, valid_in, read_id, unless_there, create, created, link, rename, step, steps, turn,
  run,
}

-- There are hard links, and random bytes are 16 bytes.
abbrev pub IsSound : Answers → Type 0
IsSound a =
    (a.links ≡ true)
    × ((raw : List ℕ) → a.random ≡ some raw → (length raw ≡ 16) × All (λ b. b < 256) raw)

abbrev pub replicate : ℕ → Phase → List Phase
replicate zero ph = []
replicate (suc n) ph = ph ∷ replicate n ph

abbrev pub able : Bool → List ℕ → Answers
able links raw = record {
  read_ok = true;
  mkdir_ok = true;
  random = some raw;
  temp_ok = true;
  links = links;
  rename_ok = true;
}

content_unique : {file : IdFile} {c d : Text} → file ≡ some c → file ≡ some d → c ≡ d
content_unique e f = cc

module _ (trim_space : Text → Text)
    (trims : (id : Text) → valid id ≡ true → trim_space (id_content id) ≡ id) where
  -- The file is not there, or holds a valid ID.
  abbrev pub IsWhole : IdFile → Type 0
  IsWhole none = Unit
  IsWhole (some content) = valid (trim_space content) ≡ true

  -- A finished call has the ID of the file; a new ID is valid.
  abbrev pub Agrees : IdFile → Phase → Type 0
  Agrees file begin = Unit
  Agrees file creating = Unit
  Agrees file (linking id) = valid id ≡ true
  Agrees file (rereading id) = (content : Text) × (file ≡ some content)
  Agrees file (renaming id) = ⊥
  Agrees file (finished id) = (content : Text) × (file ≡ some content) × (trim_space content ≡ id)
  Agrees file (failed e) = Unit

  -- The file only ever comes into being.
  abbrev Extends : IdFile → IdFile → Type 0
  Extends file file' = (content : Text) → file ≡ some content → file' ≡ some content

  Agrees-Extends :
      (file file' : IdFile) (ph : Phase) → Extends file file' → Agrees file ph → Agrees file' ph
  Agrees-Extends file file' begin h a = tt
  Agrees-Extends file file' creating h a = tt
  Agrees-Extends file file' (linking id) h a = a
  Agrees-Extends file file' (rereading id) h (content, e) = (content, h content e)
  Agrees-Extends file file' (renaming id) h a = a
  Agrees-Extends file file' (finished id) h (content, e, same) = (content, h content e, same)
  Agrees-Extends file file' (failed e) h a = tt

  read_id-Agrees :
      (next : Phase) (read_ok : Bool) (file : IdFile)
      → IsWhole file
      → ((file ≡ none) → Agrees file next)
      → Agrees file (unless_there trim_space next (read_id trim_space read_ok file))
  unfolding read_id unless_there valid_in
  read_id-Agrees next false file w h = tt
  read_id-Agrees next true none w h = h refl
  read_id-Agrees next true (some content) w h =
      subst
        (λ b.
          Agrees (some content)
            (unless_there trim_space next (ok (if b then some (trim_space content) else none))))
        (sym w) (content, refl, refl)

  created-Agrees :
      (temp_ok : Bool) (random : Option (List ℕ)) (file : IdFile)
      → ((raw : List ℕ) → random ≡ some raw → (length raw ≡ 16) × All (λ b. b < 256) raw)
      → Agrees file (created temp_ok random)
  unfolding created
  created-Agrees temp_ok none file s = tt
  created-Agrees false (some raw) file s = tt
  created-Agrees true (some raw) file s =
      let (len, bytes) = s raw refl in
      let (digits, double) = hex_encode-IsHex raw bytes in
      (valid_iff (hex_encode raw)).1 (omega (arith, len, double), digits)

  create-Agrees : (a : Answers) (file : IdFile) → IsSound a → Agrees file (create a)
  unfolding create
  create-Agrees a file s = elim (Bool-cases a.mkdir_ok) [
    | inr m ↦ rw (m, create) tt
    | inl m ↦ rw (m, create) (created-Agrees a.temp_ok a.random file s.1)
  ]

  link-Agrees :
      (links : Bool) (id : Text) (file : IdFile)
      → links ≡ true
      → valid id ≡ true
      → IsWhole file
      → let (ph', file') = link links id file in
        IsWhole file' × Agrees file' ph' × Extends file file'
  unfolding link
  link-Agrees false id file l v w = cc
  link-Agrees true id none l v w =
      (ap valid (trims id v) ∙ v, (id_content id, refl, trims id v), λ c e. cc)
  link-Agrees true id (some content) l v w = (w, (content, refl), λ c e. e)

  step-Agrees :
      (a : Answers) (ph : Phase) (file : IdFile)
      → IsSound a
      → IsWhole file
      → Agrees file ph
      → let (ph', file') = step trim_space a ph file in
        IsWhole file' × Agrees file' ph' × Extends file file'
  unfolding step link rename
  step-Agrees a begin file s w h = (w, read_id-Agrees creating a.read_ok file w (λ e. tt), λ c e. e)
  step-Agrees a creating file s w h = (w, create-Agrees a file s, λ c e. e)
  step-Agrees a (linking id) file s w h = link-Agrees a.links id file s.0 h w
  step-Agrees a (rereading id) file s w (content, e) =
      (w, read_id-Agrees (renaming id) a.read_ok file w (λ f. absurd (cc (e, f))), λ c k. k)
  step-Agrees a (renaming id) file s w h = absurd h
  step-Agrees a (finished id) file s w h = (w, h, λ c e. e)
  step-Agrees a (failed e) file s w h = (w, tt, λ c k. k)

  -- An uninterrupted call, whose other calls succeed.
  abbrev Returned : Phase × IdFile → Type 0
  Returned (ph, file) =
      (id : Text) × (content : Text) × (ph ≡ finished id)
      × (file ≡ some content)
      × (trim_space content ≡ id)
      × (valid id ≡ true)

  steps-Returned :
      (links : Bool) (raw : List ℕ) (file : IdFile)
      → valid (hex_encode raw) ≡ true
      → let a = able links raw in Returned (steps trim_space (a ∷ a ∷ a ∷ a ∷ a ∷ []) begin file)
  unfolding steps step read_id valid_in unless_there create created link rename
  steps-Returned true raw none v =
      (hex_encode raw, id_content (hex_encode raw), refl, refl, trims _ v, v)
  steps-Returned false raw none v =
      (hex_encode raw, id_content (hex_encode raw), refl, refl, trims _ v, v)
  steps-Returned true raw (some content) v = elim (Bool-cases (valid (trim_space content))) [
    | inl w ↦ rw (w) (trim_space content, content, refl, refl, refl, w)
    | inr w ↦
        rw (w) (rw (w) (hex_encode raw, id_content (hex_encode raw), refl, refl, trims _ v, v))
  ]
  steps-Returned false raw (some content) v = elim (Bool-cases (valid (trim_space content))) [
    | inl w ↦ rw (w) (trim_space content, content, refl, refl, refl, w)
    | inr w ↦ rw (w) (hex_encode raw, id_content (hex_encode raw), refl, refl, trims _ v, v)
  ]

  -- A call that no other process interrupts, and whose other calls of the system succeed, has returned
  -- a valid ID after five steps, whatever the file holds and with or without hard links, and the file
  -- then holds that ID. TrimSpace is assumed to take the newline off an ID.
  pub steps_total :
      (links : Bool) (raw : List ℕ) (file : IdFile)
      → length raw ≡ 16
      → All (λ b. b < 256) raw
      → let a = able links raw in
        let res = steps trim_space (a ∷ a ∷ a ∷ a ∷ a ∷ []) begin file in
        (id : Text) × (content : Text) × (res.0 ≡ finished id)
        × (res.1 ≡ some content)
        × (trim_space content ≡ id)
        × (valid id ≡ true)
  steps_total links raw file len bytes =
      let (digits, double) = hex_encode-IsHex raw bytes in
      steps-Returned links raw file
        ((valid_iff (hex_encode raw)).1 (omega (arith, len, double), digits))

  -- All calls agree with the file.
  abbrev AllAgree : IdFile → List Phase → Type 0
  AllAgree file phs = All (Agrees file) phs

  AllAgree-Extends :
      (file file' : IdFile) (phs : List Phase)
      → Extends file file'
      → AllAgree file phs
      → AllAgree file' phs
  AllAgree-Extends file file' [] h hs = tt
  AllAgree-Extends file file' (ph ∷ phs) h hs =
      (Agrees-Extends file file' ph h hs.0, AllAgree-Extends file file' phs h hs.1)

  turn-AllAgree :
      (i : ℕ) (a : Answers) (phs : List Phase) (file : IdFile)
      → IsSound a
      → IsWhole file
      → AllAgree file phs
      → let (phs', file') = turn trim_space i a phs file in
        IsWhole file' × AllAgree file' phs' × Extends file file'
  unfolding turn
  turn-AllAgree i a [] file s w h = (w, tt, λ c e. e)
  turn-AllAgree zero a (ph ∷ phs) file s w (h, hs) =
      let (w', h', ext) = step-Agrees a ph file s w h in
      (w', (h', AllAgree-Extends file (step trim_space a ph file).1 phs ext hs), ext)
  turn-AllAgree (suc i) a (ph ∷ phs) file s w (h, hs) =
      let (w', hs', ext) = turn-AllAgree i a phs file s w hs in
      (w', (Agrees-Extends file (turn trim_space i a phs file).1 ph ext h, hs'), ext)

  run-AllAgree :
      (turns : List (ℕ × Answers)) (phs : List Phase) (file : IdFile)
      → All (λ (t : ℕ × Answers). IsSound t.1) turns
      → IsWhole file
      → AllAgree file phs
      → let (phs', file') = run trim_space turns phs file in
        IsWhole file' × AllAgree file' phs' × Extends file file'
  unfolding run
  run-AllAgree [] phs file s w h = (w, h, λ c e. e)
  run-AllAgree ((i, a) ∷ turns) phs file (s, ss) w h =
      let (w', h', ext) = turn-AllAgree i a phs file s w h in
      let (w'', h'', ext') =
        run-AllAgree turns (turn trim_space i a phs file).0 (turn trim_space i a phs file).1 ss w'
          h' in
      (w'', h'', λ c e. ext' c (ext c e))

  AllAgree-In :
      (file : IdFile) (phs : List Phase) (id : Text)
      → AllAgree file phs
      → In (finished id) phs
      → (content : Text) × (file ≡ some content) × (trim_space content ≡ id)
  AllAgree-In file [] id h i = elim i [ ]
  AllAgree-In file (ph ∷ phs) id h i = elim (In-cons i) [
    | inl e ↦ subst (Agrees file) e h.0
    | inr j ↦ AllAgree-In file phs id h.1 j
  ]

  all_begin : (n : ℕ) (file : IdFile) → AllAgree file (replicate n begin)
  all_begin zero file = tt
  all_begin (suc n) file = (tt, all_begin n file)

  -- However the steps of any number of calls of `LoadOrCreate` interleave, all calls that have
  -- returned an ID returned the same one: it is valid, and the file holds it, and still the ID that
  -- it held at the start, if any. This is so where there are hard links and the file is at the start
  -- not there or holds a valid ID; the system's random bytes are 16 bytes, and TrimSpace is assumed
  -- to take the newline off an ID.
  pub run-agreed :
      (n : ℕ) (turns : List (ℕ × Answers)) (file : IdFile) (id : Text)
      → All (λ (t : ℕ × Answers). IsSound t.1) turns
      → IsWhole file
      → In (finished id) (run trim_space turns (replicate n begin) file).0
      → (valid id ≡ true)
        × ((content : Text) × ((run trim_space turns (replicate n begin) file).1 ≡ some content)
            × (trim_space content ≡ id))
        × ((content : Text) → file ≡ some content → trim_space content ≡ id)
        × ((other : Text)
            → In (finished other) (run trim_space turns (replicate n begin) file).0
            → other ≡ id)
  run-agreed n turns file id s w i =
      let res = run trim_space turns (replicate n begin) file in
      let (w', h, ext) = run-AllAgree turns (replicate n begin) file s w (all_begin n file) in
      let (content, e, same) = AllAgree-In res.1 res.0 id h i in
      (
        ap valid (sym same) ∙ subst IsWhole e w',
        (content, e, same),
        λ c f. ap trim_space (content_unique (ext c f) e) ∙ same,
        λ other j.
            let (c, f, named) = AllAgree-In res.1 res.0 other h j in
            sym named ∙ ap trim_space (content_unique f e) ∙ same,
      )
