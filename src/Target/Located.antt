-- ===== src/Target/Located.antt =====
-- Which machine `Locate` chooses.
use lanxfer.Base.{
  ◌≤◌, ◌≡◌, ◌⊎◌, ◌↔◌, refl, sym, subst, ◌∙◌, inl, inr, Bool, true, false, List, [], ◌∷◌, none, some,
  arith, Bool-cases, Result, ok, err, length, filter_by, All, In, here, there, In-filter_by,
  text_eq_iff,
}
use lanxfer.Netaddr.{Addr}
use lanxfer.Unicode.{Unicode}
use lanxfer.Presence.{Peer, has_id}
use lanxfer.Discovery.Search.{Found, SearchError}
use lanxfer.Target.{
  Target, LocateError, offline, several, is_same, target_of, addrs_of, pick, first_same,
  choose_match, is_match, by_broadcast, replies_of, locate,
}

-- The machine is the peer: it has the peer's ID, or the name of a peer without ID.
abbrev pub IsPeer : Unicode → Peer → Found → Type 0
IsPeer u p r =
    ((has_id p.id ≡ true) × (r.id ≡ p.id))
    ⊎ ((has_id p.id ≡ false) × (u.equal_fold r.name p.name ≡ true))

abbrev pub Nowhere : Unicode → Peer → List Found → Type 0
Nowhere u p = All (λ r. IsPeer u p r → ⊥)

-- A target for a machine that answered; a peer with an ID keeps it.
abbrev pub Reaches : Unicode → Peer → Found → Target → Type 0
Reaches u p r tg =
    IsPeer u p r
    × (tg.addr ≡ r.addr)
    × (tg.name ≡ r.name)
    × ((tg.id ≡ p.id) ⊎ ((has_id p.id ≡ false) × (tg.id ≡ r.id)))

-- The result of a search by broadcast.
abbrev pub Searched : Unicode → Peer → List Found → Result LocateError Target → Type 0
Searched u p found (ok tg) = (r : Found) × In r found × Reaches u p r tg
Searched u p found (err offline) = Nowhere u p found
Searched u p found (err (several addrs)) =
    (has_id p.id ≡ false)
    × (2 ≤ length addrs)
    × ((a : Addr) → In a addrs → (r : Found) × In r found × IsPeer u p r × (a ≡ r.addr.addr))

abbrev pub LocateOutcome :
    Unicode → Peer → List Found → Bool → List Found → Result LocateError Target → Type 0
LocateOutcome u p replies is_cancelled found res =
    ((p.online ≡ true) × (res ≡ ok (record { addr = p.addr; id = p.id; name = p.name })))
    ⊎ ((p.online ≡ false)
        × ((r : Found) × (tg : Target) × (res ≡ ok tg) × In r replies × Reaches u p r tg))
    ⊎ ((p.online ≡ false) × Nowhere u p replies × (is_cancelled ≡ true) × (res ≡ err offline))
    ⊎ ((p.online ≡ false) × Nowhere u p replies × (is_cancelled ≡ false) × Searched u p found res)

is_same-IsPeer_iff : (u : Unicode) (p : Peer) (r : Found) → (is_same u p r ≡ true) ↔ IsPeer u p r
unfolding is_same
is_same-IsPeer_iff u p r = ground (arith, text_eq_iff r.id p.id)

is_match_lem : (u : Unicode) (p : Peer) (r : Found) → is_match u p r ≡ is_same u p r
unfolding is_match is_same
is_match_lem u p r = ground arith

first_same_lem :
    (u : Unicode) (p : Peer) (rs : List Found)
    → ((r : Found) × (first_same u p rs ≡ some r) × In r rs × IsPeer u p r)
      ⊎ ((first_same u p rs ≡ none) × Nowhere u p rs)
unfolding first_same
first_same_lem u p [] = inr (refl, tt)
first_same_lem u p (r ∷ rs) = elim (Bool-cases (is_same u p r)) [
  | inl e ↦ inl (r, rw (e, first_same) refl, here refl, (is_same-IsPeer_iff u p r).0 e)
  | inr e ↦
      let other : IsPeer u p r → ⊥ = λ s. absurd (cc (e, (is_same-IsPeer_iff u p r).1 s)) in
      elim (first_same_lem u p rs) [
        | inl (q, found, i, s) ↦ inl (q, rw (e, first_same) found, there i, s)
        | inr (lost, rest) ↦ inr (rw (e, first_same) lost, (other, rest))
      ]
]

filter_by-Nowhere :
    (u : Unicode) (p : Peer) (rs : List Found) → filter_by (is_match u p) rs ≡ [] → Nowhere u p rs
filter_by-Nowhere u p [] h = tt
filter_by-Nowhere u p (r ∷ rs) h = elim (Bool-cases (is_match u p r)) [
  | inl e ↦ absurd (ground (arith, h, e))
  | inr e ↦ (
    λ s. absurd (cc (e, is_match_lem u p r, (is_same-IsPeer_iff u p r).1 s)),
    filter_by-Nowhere u p rs (rw e at h),
  )
]

addrs_of-In :
    (rs : List Found) (a : Addr) → In a (addrs_of rs) → (r : Found) × In r rs × (a ≡ r.addr.addr)
unfolding addrs_of
addrs_of-In [] a i = elim i [ ]
addrs_of-In (r ∷ rs) a (here e) = (r, here refl, sym e)
addrs_of-In (r ∷ rs) a (there i) = let (q, j, e) = addrs_of-In rs a i in (q, there j, e)

target_of-Reaches :
    (u : Unicode) (p : Peer) (r : Found) → IsPeer u p r → Reaches u p r (target_of r)
unfolding target_of
target_of-Reaches u p r s = (
  s,
  refl,
  refl,
  elim s [ inl (named, same) ↦ inl same | inr (nameless, same) ↦ inr (nameless, refl) ],
)

pick-Searched :
    (u : Unicode) (p : Peer) (found : List Found) (r : Found) (rs : List Found)
    → has_id p.id ≡ false
    → ((q : Found) → In q (r ∷ rs) → In q found × IsPeer u p q)
    → Searched u p found (pick (r ∷ rs))
unfolding pick addrs_of
pick-Searched u p found r [] e each =
    let (i, s) = each r (here refl) in (r, i, target_of-Reaches u p r s)
pick-Searched u p found r (q ∷ rs) e each = (
  e,
  omega arith,
  λ a j.
      let (z, k, same) = addrs_of-In (r ∷ q ∷ rs) a j in let (i, s) = each z k in (z, i, s, same),
)

choose_match-Searched :
    (u : Unicode) (p : Peer) (found ms : List Found)
    → ((r : Found) → In r ms → In r found × IsPeer u p r)
    → (ms ≡ [] → Nowhere u p found)
    → Searched u p found (choose_match p ms)
unfolding choose_match pick
choose_match-Searched u p found [] each lost = lost refl
choose_match-Searched u p found (r ∷ rs) each lost = elim (Bool-cases (has_id p.id)) [
  | inl e ↦
      let (i, s) = each r (here refl) in rw (e, choose_match) (r, i, target_of-Reaches u p r s)
  | inr e ↦ rw (e, choose_match) (pick-Searched u p found r rs e each)
]

by_broadcast-Searched :
    (u : Unicode) (p : Peer) (found : Result SearchError (List Found))
    → Searched u p (replies_of found) (by_broadcast u p found)
unfolding by_broadcast replies_of
by_broadcast-Searched u p (err e) = tt
by_broadcast-Searched u p (ok found) =
    choose_match-Searched u p found (filter_by (is_match u p) found)
      (λ r i.
        let (j, t) = In-filter_by (is_match u p) found r i in
        (j, (is_same-IsPeer_iff u p r).0 (sym (is_match_lem u p r) ∙ t)))
      (filter_by-Nowhere u p found)

-- An online peer is used as it is listed. For another one, a machine that answers at its last
-- address is used if it is the peer: if it has the peer's ID, or the name of a peer without ID. Else,
-- unless the search was given up, the broadcast decides: a target is again a machine that is the peer,
-- several addresses are an error only for a peer without ID and are addresses of such machines, and
-- the peer is offline only if no machine that answered is the peer.
pub locate-LocateOutcome :
    (u : Unicode) (p : Peer) (replies : Result SearchError (List Found)) (is_cancelled : Bool)
    (found : Result SearchError (List Found))
    → LocateOutcome u p
        (replies_of replies)
        is_cancelled
        (replies_of found)
        (locate u p replies is_cancelled found)
unfolding locate
locate-LocateOutcome u p replies is_cancelled found = elim (Bool-cases p.online) [
  | inl o ↦ inl (o, ground (arith, o))
  | inr o ↦ inr (elim (first_same_lem u p (replies_of replies)) [
    | inl (r, e, i, s) ↦ inl (
      o,
      (
        r,
        record { addr = r.addr; id = p.id; name = r.name },
        ground (arith, o, e),
        i,
        (s, refl, refl, inl refl),
      ),
    )
    | inr (e, lost) ↦ inr (elim (Bool-cases is_cancelled) [
      | inl c ↦ inl (o, lost, c, ground (arith, o, e, c))
      | inr c ↦ inr (
        o,
        lost,
        c,
        subst (Searched u p (replies_of found)) (sym (ground (arith, o, e, c)))
            (by_broadcast-Searched u p found),
      )
    ])
  ])
]
