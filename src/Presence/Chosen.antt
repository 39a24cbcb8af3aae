-- ===== src/Presence/Chosen.antt =====
-- Which peer `Choose` picks.
use lanxfer.Base.{
  ◌≤◌, ◌≡◌, refl, sym, ap, subst, ◌∙◌, ◌⊎◌, inl, inr, Bool, true, ◌&&◌, List, [], ◌∷◌, Text, arith,
  ltb, if◌then◌else◌, Result, ok, err, length, filter_by, count_by, In, here, there, In-cons,
  In-filter_by, filter_by-In, length-filter_by, Bool-cases,
}
use lanxfer.Unicode.{Unicode}
use lanxfer.Presence.{Peer, ChooseError, not_found, ambiguous, most_recent, pick, choose}

-- `best` is in the list, and no other peer of it was seen later.
abbrev pub IsLatest : Peer → List Peer → Type 0
IsLatest best ps = In best ps × ((q : Peer) → In q ps → q.last_seen ≤ best.last_seen)

best_loses :
    (best p r : Peer) (ps : List Peer)
    → best.last_seen ≤ p.last_seen
    → In r (p ∷ ps)
    → ((q : Peer) → In q (p ∷ ps) → q.last_seen ≤ r.last_seen)
    → IsLatest r (best ∷ p ∷ ps)
best_loses best p r ps le i top = (
  there i,
  λ q j. elim (In-cons j) [
    | inl e ↦ subst (λ (x : Peer). x.last_seen ≤ r.last_seen) e (omega (arith, top p (here refl)))
    | inr k ↦ top q k
  ],
)

best_wins :
    (best p r : Peer) (ps : List Peer)
    → p.last_seen ≤ best.last_seen
    → In r (best ∷ ps)
    → ((q : Peer) → In q (best ∷ ps) → q.last_seen ≤ r.last_seen)
    → IsLatest r (best ∷ p ∷ ps)
best_wins best p r ps le i top = (
  elim (In-cons i) [ inl e ↦ here e | inr k ↦ there (there k) ],
  λ q j. elim (In-cons j) [
    | inl e ↦ top q (here e)
    | inr k ↦ elim (In-cons k) [
      | inl e ↦
          subst (λ (x : Peer). x.last_seen ≤ r.last_seen) e (omega (arith, top best (here refl)))
      | inr l ↦ top q (there l)
    ]
  ],
)

IsLatest-cons :
    (best p r : Peer) (ps : List Peer)
    → IsLatest r ((if ltb best.last_seen p.last_seen then p else best) ∷ ps)
    → IsLatest r (best ∷ p ∷ ps)
IsLatest-cons best p r ps (i, top) = elim (Bool-cases (ltb best.last_seen p.last_seen)) [
  | inl later ↦ best_loses best p r ps (ground arith) (rw later at i) (λ q j. top q (rw later j))
  | inr earlier ↦
      best_wins best p r ps (ground arith) (rw earlier at i) (λ q j. top q (rw earlier j))
]

most_recent-IsLatest : (best : Peer) (ps : List Peer) → IsLatest (most_recent best ps) (best ∷ ps)
unfolding most_recent
most_recent-IsLatest best [] =
    (here refl, λ q i. elim (In-cons i) [ inl e ↦ rw e (omega arith) | inr j ↦ elim j [ ] ])
most_recent-IsLatest best (p ∷ ps) =
    IsLatest-cons best p _ ps
      (most_recent-IsLatest (if ltb best.last_seen p.last_seen then p else best) ps)

Picked : List Peer → List Peer → Result ChooseError Peer → Type 0
Picked ms online (ok p) = (online ≡ p ∷ []) ⊎ ((online ≡ []) × IsLatest p ms)
Picked ms online (err not_found) = ms ≡ []
Picked ms online (err ambiguous) = 2 ≤ length online

pick-Picked : (ms online : List Peer) → Picked ms online (pick ms online)
unfolding pick Picked
pick-Picked [] online = refl
pick-Picked (m ∷ ms) [] = inr (refl, most_recent-IsLatest m ms)
pick-Picked (m ∷ ms) (p ∷ []) = inl refl
pick-Picked (m ∷ ms) (p ∷ q ∷ ps) = omega arith

module _ (u : Unicode) (name : Text) where
  abbrev pub fits : Peer → Bool
  fits p = u.equal_fold p.name name

  abbrev pub fits_online : Peer → Bool
  fits_online p = fits p && p.online

  -- What the result of `Choose` says of the list.
  abbrev pub Chosen : List Peer → Result ChooseError Peer → Type 0
  Chosen ps (ok p) =
      In p ps
      × (fits p ≡ true)
      × (((p.online ≡ true) × (count_by fits_online ps ≡ 1))
          ⊎ ((count_by fits_online ps ≡ 0)
              × ((q : Peer) → In q ps → fits q ≡ true → q.last_seen ≤ p.last_seen)))
  Chosen ps (err not_found) = count_by fits ps ≡ 0
  Chosen ps (err ambiguous) = 2 ≤ count_by fits_online ps

  count_online :
      (ps : List Peer)
      → length (filter_by (λ (p : Peer). p.online) (filter_by fits ps)) ≡ count_by fits_online ps
  count_online [] = refl
  count_online (p ∷ ps) = ground (arith, count_online ps)

  Picked-Chosen :
      (ps : List Peer) (r : Result ChooseError Peer)
      → Picked (filter_by fits ps) (filter_by (λ (p : Peer). p.online) (filter_by fits ps)) r
      → Chosen ps r
  unfolding Picked
  Picked-Chosen ps (ok p) (inl only) =
      let online = filter_by (λ (p : Peer). p.online) (filter_by fits ps) in
      let (i, on) =
        In-filter_by (λ (p : Peer). p.online) (filter_by fits ps) p
          (subst (In p) (sym only) (here refl)) in
      let (j, fit) = In-filter_by fits ps p i in
      (j, fit, inl (on, sym (count_online ps) ∙ ap length only))
  Picked-Chosen ps (ok p) (inr (nobody, (i, top))) =
      let (j, fit) = In-filter_by fits ps p i in
      (
        j,
        fit,
        inr (
          sym (count_online ps) ∙ ap length nobody,
          λ q k fit_q. top q (filter_by-In fits ps q k fit_q),
        ),
      )
  Picked-Chosen ps (err not_found) none_fits = sym (length-filter_by fits ps) ∙ ap length none_fits
  Picked-Chosen ps (err ambiguous) several = omega (arith, count_online ps)

  -- With exactly one online match `Choose` returns it; with several it reports that the name is
  -- ambiguous, and only then; with none it returns the match that was seen last, and it reports that
  -- there is no such peer only if nothing matches.
  pub choose-Chosen : (ps : List Peer) → Chosen ps (choose u ps name)
  unfolding choose
  choose-Chosen ps =
      Picked-Chosen ps _
        (pick-Picked (filter_by fits ps) (filter_by (λ (p : Peer). p.online) (filter_by fits ps)))
