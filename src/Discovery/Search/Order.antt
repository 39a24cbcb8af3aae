-- ===== src/Discovery/Search/Order.antt =====
-- The order of the peers that a search returns.
use lanxfer.Base.{
  suc, ◌≡◌, refl, ap, ◌∙◌, inl, inr, Bool, true, false, List, [], ◌∷◌, Text, arith, Bool-cases,
  if◌then◌else◌, All, count_by, text_eq, text_ltb, text_eq_iff,
}
use lanxfer.Netaddr.{Addr, invalid, v4, v6, AddrPort, addr_eq, addr_eq_iff}
use lanxfer.Discovery.Search.{Found, addr_ltb, addr_port_ltb, found_ltb, insert_found, sort_found}

text_ltb_asym : (s t : Text) → text_ltb s t ≡ true → (text_ltb t s ≡ false) × (text_eq t s ≡ false)
unfolding text_ltb text_eq
text_ltb_asym [] [] h = cc
text_ltb_asym [] (d ∷ t) h = (refl, refl)
text_ltb_asym (c ∷ s) [] h = cc
text_ltb_asym (c ∷ s) (d ∷ t) h = ground (arith, h, text_ltb_asym s t)

addr_ltb_asym : (a b : Addr) → addr_ltb a b ≡ true → (addr_ltb b a ≡ false) × (addr_eq b a ≡ false)
unfolding addr_ltb addr_eq
addr_ltb_asym invalid invalid h = cc
addr_ltb_asym invalid (v4 b) h = (refl, refl)
addr_ltb_asym invalid (v6 b) h = (refl, refl)
addr_ltb_asym (v4 a) invalid h = cc
addr_ltb_asym (v4 a) (v4 b) h = ground arith
addr_ltb_asym (v4 a) (v6 b) h = (refl, refl)
addr_ltb_asym (v6 a) invalid h = cc
addr_ltb_asym (v6 a) (v4 b) h = cc
addr_ltb_asym (v6 a) (v6 b) h = ground arith

addr_port_ltb_asym : (a b : AddrPort) → addr_port_ltb a b ≡ true → addr_port_ltb b a ≡ false
unfolding addr_port_ltb
addr_port_ltb_asym a b h = ground (
  arith,
  h,
  addr_ltb_asym a.addr b.addr,
  addr_ltb_asym b.addr a.addr,
  addr_eq_iff a.addr b.addr,
  addr_eq_iff b.addr a.addr,
)

found_ltb_asym : (p q : Found) → found_ltb p q ≡ true → found_ltb q p ≡ false
unfolding found_ltb
found_ltb_asym p q h = ground (
  arith,
  h,
  text_ltb_asym p.name q.name,
  text_ltb_asym q.name p.name,
  text_eq_iff p.name q.name,
  text_eq_iff q.name p.name,
  addr_port_ltb_asym p.addr q.addr,
)

abbrev pub IsOrderedFrom : Found → List Found → Type 0
IsOrderedFrom p [] = Unit
IsOrderedFrom p (q ∷ ps) = (found_ltb q p ≡ false) × IsOrderedFrom q ps

abbrev pub IsOrdered : List Found → Type 0
IsOrdered [] = Unit
IsOrdered (p ∷ ps) = IsOrderedFrom p ps

insert_found-IsOrderedFrom :
    (p q : Found) (ps : List Found)
    → found_ltb p q ≡ false
    → IsOrderedFrom q ps
    → IsOrderedFrom q (insert_found p ps)
unfolding insert_found
insert_found-IsOrderedFrom p q [] e h = (e, tt)
insert_found-IsOrderedFrom p q (r ∷ ps) e h = elim (Bool-cases (found_ltb r p)) [
  | inl t ↦ rw (t, insert_found) (h.0, insert_found-IsOrderedFrom p r ps (found_ltb_asym r p t) h.1)
  | inr f ↦ rw (f, insert_found) (e, (f, h.1))
]

insert_found-IsOrdered :
    (p : Found) (ps : List Found) → IsOrdered ps → IsOrdered (insert_found p ps)
unfolding insert_found
insert_found-IsOrdered p [] h = tt
insert_found-IsOrdered p (q ∷ ps) h = elim (Bool-cases (found_ltb q p)) [
  | inl t ↦ rw (t, insert_found) (insert_found-IsOrderedFrom p q ps (found_ltb_asym q p t) h)
  | inr f ↦ rw (f, insert_found) (f, h)
]

insert_found_count :
    (f : Found → Bool) (p : Found) (ps : List Found)
    → count_by f (insert_found p ps) ≡ count_by f (p ∷ ps)
unfolding insert_found
insert_found_count f p [] = refl
insert_found_count f p (q ∷ ps) = ground (arith, insert_found_count f p ps)

insert_found-All :
    (P : Found → Type 0) (p : Found) (ps : List Found) → P p → All P ps → All P (insert_found p ps)
unfolding insert_found
insert_found-All P p [] h hs = (h, tt)
insert_found-All P p (q ∷ ps) h hs = elim (Bool-cases (found_ltb q p)) [
  | inl t ↦ rw (t, insert_found) (hs.0, insert_found-All P p ps h hs.1)
  | inr f ↦ rw (f, insert_found) (h, hs)
]

pub sort_found-IsOrdered : (ps : List Found) → IsOrdered (sort_found ps)
unfolding sort_found
sort_found-IsOrdered [] = tt
sort_found-IsOrdered (p ∷ ps) = insert_found-IsOrdered p (sort_found ps) (sort_found-IsOrdered ps)

pub sort_found_count :
    (f : Found → Bool) (ps : List Found) → count_by f (sort_found ps) ≡ count_by f ps
unfolding sort_found
sort_found_count f [] = refl
sort_found_count f (p ∷ ps) =
    insert_found_count f p (sort_found ps)
    ∙ ap (λ n. if f p then suc n else n) (sort_found_count f ps)

pub sort_found-All : (P : Found → Type 0) (ps : List Found) → All P ps → All P (sort_found ps)
unfolding sort_found
sort_found-All P [] h = tt
sort_found-All P (p ∷ ps) h = insert_found-All P p (sort_found ps) h.0 (sort_found-All P ps h.1)
