-- ===== src/Presence/Consistent.antt =====
-- The entries of the registry: each stands under its own key and is valid.
use mathlib.Core.Option
use lanxfer.Base.{
  ◌==◌, ℕ, ◌≡◌, ◌≢◌, refl, ap, subst, inl, inr, Bool, true, List, [], ◌∷◌, some, Text, arith,
  Bool-cases, Option-cases, lookup, insert, delete, lookup-insert, lookup-delete, text_eq,
  text_eq_iff,
}
use lanxfer.Netaddr.{Addr, addr_is_valid}
use lanxfer.Unicode.{Unicode}
use lanxfer.Identity.{valid}
use lanxfer.Presence.{
  Peer, Peers, Sighting, id_key, name_key, has_id, key_for, key_of, is_named, clean_id, refresh,
  seen, observe_http, drop_legacy, put_seen, observe, tick_peer, is_late, tick, load_peer,
  load_into, load,
}

pub record IsEntry (u : Unicode) (k : Text) (p : Peer) : Type 0 where
  pub keyed : k ≡ key_of u p
  pub id_ok : has_id p.id ≡ true → valid p.id ≡ true
  pub named : is_named p.name ≡ true
  pub addressed : addr_is_valid p.addr.addr ≡ true

abbrev pub IsConsistent : Unicode → Peers → Type 0
IsConsistent u m = (k : Text) (p : Peer) → lookup k m ≡ some p → IsEntry u k p

abbrev first : Text → ℕ
first [] = 0
first (c ∷ s) = c

id_key-ne-name_key : (u : Unicode) (id n : Text) → id_key id ≢ name_key u n
unfolding id_key name_key
id_key-ne-name_key u id n e = omega (arith, ap first e)

-- An entry found under the key of `id` and `n` keeps that key when its name becomes `n`.
key_for_renamed :
    (u : Unicode) (id n id' n' : Text)
    → key_for u id n ≡ key_for u id' n'
    → key_for u id n ≡ key_for u id' n
unfolding key_for
key_for_renamed u id n id' n' e =
    ground (arith, id_key-ne-name_key u id n', id_key-ne-name_key u id' n)

clean_id-valid : (id : Text) → has_id (clean_id id) ≡ true → valid (clean_id id) ≡ true
unfolding clean_id
clean_id-valid id h = ground arith

pub lookup-tick :
    (now : ℕ) (k : Text) (m : Peers)
    → lookup k (tick now m).0 ≡ Option.map (tick_peer now) (lookup k m)
unfolding tick lookup
lookup-tick now k [] = refl
lookup-tick now k ((j, p) ∷ m) = ground (arith, lookup-tick now k m)

module _ (u : Unicode) where
  empty-IsConsistent : IsConsistent u []
  unfolding lookup
  empty-IsConsistent k p e = cc

  insert-IsConsistent :
      (m : Peers) (k : Text) (p : Peer)
      → IsConsistent u m
      → IsEntry u k p
      → IsConsistent u (insert k p m)
  insert-IsConsistent m k p h entry j q e = elim (Bool-cases (text_eq k j)) [
    | inl same ↦
        let here : k ≡ j = (text_eq_iff k j).0 same in
        let this : p ≡ q = ground (arith, lookup-insert k j p m) in
        subst (λ i. IsEntry u i q) here (subst (IsEntry u k) this entry)
    | inr other ↦ h j q (ground (arith, lookup-insert k j p m))
  ]

  delete-IsConsistent : (m : Peers) (k : Text) → IsConsistent u m → IsConsistent u (delete k m)
  delete-IsConsistent m k h j q e = h j q (ground (arith, lookup-delete k j m))

  drop_legacy-IsConsistent :
      (id name : Text) (m : Peers) → IsConsistent u m → IsConsistent u (drop_legacy u id name m).0
  unfolding drop_legacy
  drop_legacy-IsConsistent id name m h = elim (Bool-cases (has_id id)) [
    | inr old ↦ rw old h
    | inl new ↦ rw new (elim (Option-cases (lookup (name_key u name) m)) [
      | inl e ↦ rw e h
      | inr (p, e) ↦ rw e (delete-IsConsistent m (name_key u name) h)
    ])
  ]

  observe_http-IsConsistent :
      (id : Text) (ip : Addr) (now : ℕ) (m : Peers)
      → addr_is_valid ip ≡ true
      → IsConsistent u m
      → IsConsistent u (observe_http id ip now m).0
  unfolding observe_http refresh
  observe_http-IsConsistent id ip now m ok_ip h = elim (Bool-cases (has_id id)) [
    | inr old ↦ rw old h
    | inl new ↦ rw new (elim (Option-cases (lookup (id_key id) m)) [
      | inl e ↦ rw e h
      | inr (p, e) ↦
          let entry = h (id_key id) p e in
          rw e (
            insert-IsConsistent m (id_key id) (refresh ip now p) h (record {
              keyed = entry.keyed;
              id_ok = entry.id_ok;
              named = entry.named;
              addressed = ok_ip;
            }))
    ])
  ]

  put_seen-IsConsistent :
      (id : Text) (s : Sighting) (now : ℕ) (r : Peers × Bool)
      → (has_id id ≡ true → valid id ≡ true)
      → is_named s.name ≡ true
      → addr_is_valid s.addr.addr ≡ true
      → IsConsistent u r.0
      → IsConsistent u (put_seen (key_for u id s.name) id s now r).0
  unfolding put_seen seen
  put_seen-IsConsistent id s now (m, changed) id_ok named addressed h =
      elim (Option-cases (lookup (key_for u id s.name) m)) [
        | inl e ↦
            rw (e, put_seen)
              (insert-IsConsistent m _ _ h
                (record { keyed = refl; id_ok = id_ok; named = named; addressed = addressed }))
        | inr (p, e) ↦
            let entry = h _ p e in
            rw (e, put_seen)
              (insert-IsConsistent m _ _ h (record {
                keyed = key_for_renamed u id s.name p.id p.name entry.keyed;
                id_ok = entry.id_ok;
                named = named;
                addressed = addressed;
              }))
      ]

  pub observe-IsConsistent :
      (s : Sighting) (now : ℕ) (m : Peers) → IsConsistent u m → IsConsistent u (observe u s now m).0
  unfolding observe
  observe-IsConsistent s now m h = elim (Bool-cases (addr_is_valid s.addr.addr)) [
    | inr bad ↦ rw bad h
    | inl addressed ↦ rw addressed (elim (Bool-cases (s.addr.port == 0)) [
      | inl http ↦ rw http (observe_http-IsConsistent (clean_id s.id) s.addr.addr now m addressed h)
      | inr full ↦ rw full (elim (Bool-cases (is_named s.name)) [
        | inr unnamed ↦ rw unnamed h
        | inl named ↦ rw named (
            put_seen-IsConsistent (clean_id s.id) s now (drop_legacy u (clean_id s.id) s.name m)
              (clean_id-valid s.id) named addressed
              (drop_legacy-IsConsistent (clean_id s.id) s.name m h))
      ])
    ])
  ]

  tick_peer-IsEntry :
      (now : ℕ) (k : Text) (p : Peer) → IsEntry u k p → IsEntry u k (tick_peer now p)
  unfolding tick_peer
  tick_peer-IsEntry now k p entry = elim (Bool-cases (is_late now p)) [
    | inr early ↦ rw early entry
    | inl late ↦ rw late (record {
      keyed = entry.keyed;
      id_ok = entry.id_ok;
      named = entry.named;
      addressed = entry.addressed;
    })
  ]

  pub tick-IsConsistent : (now : ℕ) (m : Peers) → IsConsistent u m → IsConsistent u (tick now m).0
  tick-IsConsistent now m h k q e = elim (Option-cases (lookup k m)) [
    | inl missing ↦ cc (lookup-tick now k m)
    | inr (p, here) ↦
        let same : tick_peer now p ≡ q = ground (arith, lookup-tick now k m) in
        subst (IsEntry u k) same (tick_peer-IsEntry now k p (h k p here))
  ]

  load_peer-IsConsistent :
      (m : Peers) (p : Peer) → IsConsistent u m → IsConsistent u (load_peer u m p)
  unfolding load_peer
  load_peer-IsConsistent m p h = elim (Bool-cases (is_named p.name)) [
    | inr unnamed ↦ rw unnamed h
    | inl named ↦ rw named (elim (Bool-cases (addr_is_valid p.addr.addr)) [
      | inr bad ↦ rw bad h
      | inl addressed ↦ rw addressed (
          insert-IsConsistent m _ _ h (record {
            keyed = refl;
            id_ok = clean_id-valid p.id;
            named = named;
            addressed = addressed;
          }))
    ])
  ]

  load_into-IsConsistent :
      (m : Peers) (ps : List Peer) → IsConsistent u m → IsConsistent u (load_into u m ps)
  unfolding load_into
  load_into-IsConsistent m [] h = h
  load_into-IsConsistent m (p ∷ ps) h =
      load_into-IsConsistent (load_peer u m p) ps (load_peer-IsConsistent m p h)

pub data Event : Type 0 where
  sighted : Sighting → ℕ → Event
  ticked : ℕ → Event

pub run : Unicode → Peers → List Event → Peers
run u m [] = m
run u m (sighted s now ∷ es) = run u (observe u s now m).0 es
run u m (ticked now ∷ es) = run u (tick now m).0 es

run-IsConsistent :
    (u : Unicode) (m : Peers) (es : List Event) → IsConsistent u m → IsConsistent u (run u m es)
unfolding run
run-IsConsistent u m [] h = h
run-IsConsistent u m (sighted s now ∷ es) h =
    run-IsConsistent u (observe u s now m).0 es (observe-IsConsistent u s now m h)
run-IsConsistent u m (ticked now ∷ es) h =
    run-IsConsistent u (tick now m).0 es (tick-IsConsistent u now m h)

-- Whatever happens to the list, each entry stands under the key made of its own ID or name, its ID
-- is empty or well formed, its name is acceptable and its address is valid: a list that was loaded
-- is so, and each sighting and each tick keeps it so.
pub run-load-IsConsistent :
    (u : Unicode) (ps : List Peer) (es : List Event) → IsConsistent u (run u (load u ps) es)
unfolding load
run-load-IsConsistent u ps es =
    run-IsConsistent u _ es (load_into-IsConsistent u [] ps (empty-IsConsistent u))
