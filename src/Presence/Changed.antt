-- ===== src/Presence/Changed.antt =====
-- What `Observe` and `Tick` report: a caller saves the list only when they say that it changed.
use mathlib.Core.Option
use lanxfer.Base.{
  ℕ, ◌+◌, ◌↔◌, ◌≤◌, ◌≡◌, refl, ap, subst, ◌∙◌, inl, inr, Bool, true, false, not, ◌||◌, [], ◌∷◌,
  none, some, Text, arith, ◌==◌, Bool-cases, Option-cases, lookup, insert, lookup-insert,
  text_eq_iff,
}
use lanxfer.Netaddr.{Addr, addr_is_valid, addr_port_eq, addr_port_eq_iff}
use lanxfer.Unicode.{Unicode}
use lanxfer.Presence.{
  Peer, Peers, Sighting, id_key, has_id, key_for, is_named, clean_id, refresh, seen, differs,
  observe_http, drop_legacy, put_seen, observe, tick_peer, tick, offline_after,
}
use lanxfer.Presence.Consistent.{lookup-tick}

-- A peer but for the time at which it was last seen.
abbrev pub unseen : Peer → Peer
unseen p = record p { last_seen = 0 }

-- What the peer announced of itself, without the IP.
abbrev pub announced : Peer → Text × Text × Text × ℕ
announced p = (p.id, p.name, p.os, p.addr.port)

-- The two lists differ at most in the times.
abbrev pub SameButSeen : Peers → Peers → Type 0
SameButSeen m m' = (k : Text) → Option.map unseen (lookup k m') ≡ Option.map unseen (lookup k m)

insert-SameButSeen :
    (m : Peers) (key : Text) (p q : Peer)
    → lookup key m ≡ some p
    → unseen q ≡ unseen p
    → SameButSeen m (insert key q m)
insert-SameButSeen m key p q here same k =
    ground (arith, lookup-insert key k q m, text_eq_iff key k)

refresh-unseen :
    (ip : Addr) (now : ℕ) (p : Peer)
    → (not (addr_port_eq p.addr (refresh ip now p).addr) || not p.online) ≡ false
    → unseen (refresh ip now p) ≡ unseen p
unfolding refresh
refresh-unseen ip now p quiet =
    ground (arith, addr_port_eq_iff p.addr (record { addr = ip; port = p.addr.port }))

seen-unseen :
    (s : Sighting) (now : ℕ) (p : Peer) → differs p s ≡ false → unseen (seen p.id s now) ≡ unseen p
unfolding seen differs
seen-unseen s now p quiet =
    ground (arith, addr_port_eq_iff p.addr s.addr, text_eq_iff p.name s.name, text_eq_iff p.os s.os)

drop_legacy-quiet :
    (u : Unicode) (id name : Text) (m : Peers)
    → (drop_legacy u id name m).1 ≡ false
    → (drop_legacy u id name m).0 ≡ m
unfolding drop_legacy
drop_legacy-quiet u id name m quiet = ground arith

observe_http-SameButSeen :
    (id : Text) (ip : Addr) (now : ℕ) (m : Peers)
    → (observe_http id ip now m).1 ≡ false
    → SameButSeen m (observe_http id ip now m).0
unfolding observe_http
observe_http-SameButSeen id ip now m quiet = elim (Bool-cases (has_id id)) [
  | inr old ↦ rw old (λ k. refl)
  | inl new ↦ rw new (elim (Option-cases (lookup (id_key id) m)) [
    | inl e ↦ rw e (λ k. refl)
    | inr (p, e) ↦ rw e (
        insert-SameButSeen m (id_key id) p (refresh ip now p) e
          (refresh-unseen ip now p (ground arith)))
  ])
]

put_seen-SameButSeen :
    (key id : Text) (s : Sighting) (now : ℕ) (m : Peers) (changed : Bool)
    → (put_seen key id s now (m, changed)).1 ≡ false
    → (changed ≡ false) × SameButSeen m (put_seen key id s now (m, changed)).0
unfolding put_seen
put_seen-SameButSeen key id s now m changed quiet = elim (Option-cases (lookup key m)) [
  | inl e ↦ absurd (ground arith)
  | inr (p, e) ↦ (
    ground arith,
    rw (e, put_seen)
        (insert-SameButSeen m key p (seen p.id s now) e (seen-unseen s now p (ground arith))),
  )
]

observe_full-SameButSeen :
    (u : Unicode) (key id : Text) (s : Sighting) (now : ℕ) (m : Peers)
    → (put_seen key id s now (drop_legacy u id s.name m)).1 ≡ false
    → SameButSeen m (put_seen key id s now (drop_legacy u id s.name m)).0
observe_full-SameButSeen u key id s now m quiet =
    let (m', changed) = drop_legacy u id s.name m in
    let (kept, same) = put_seen-SameButSeen key id s now m' changed quiet in
    subst (λ m₀. SameButSeen m₀ (put_seen key id s now (drop_legacy u id s.name m)).0)
      (drop_legacy-quiet u id s.name m kept) same

-- If `Observe` reports no change, the list differs at most in the times at which peers were seen:
-- no peer was added, dropped, renamed, moved or brought back online, so nothing is lost that is not
-- saved.
observe-SameButSeen :
    (u : Unicode) (s : Sighting) (now : ℕ) (m : Peers)
    → (observe u s now m).1 ≡ false
    → SameButSeen m (observe u s now m).0
unfolding observe
observe-SameButSeen u s now m quiet = elim (Bool-cases (addr_is_valid s.addr.addr)) [
  | inr bad ↦ rw bad (λ k. refl)
  | inl addressed ↦ rw addressed (elim (Bool-cases (s.addr.port == 0)) [
    | inl http ↦ rw http (observe_http-SameButSeen (clean_id s.id) s.addr.addr now m (ground arith))
    | inr full ↦ rw full (elim (Bool-cases (is_named s.name)) [
      | inr unnamed ↦ rw unnamed (λ k. refl)
      | inl named ↦ rw named (
          observe_full-SameButSeen u (key_for u (clean_id s.id) s.name) (clean_id s.id) s now m
            (ground arith))
    ])
  ])
]

observe_http-announced :
    (id : Text) (ip : Addr) (now : ℕ) (m : Peers) (k : Text)
    → Option.map announced (lookup k (observe_http id ip now m).0)
      ≡ Option.map announced (lookup k m)
unfolding observe_http refresh
observe_http-announced id ip now m k = elim (Bool-cases (has_id id)) [
  | inr old ↦ rw old
  | inl new ↦ rw new (elim (Option-cases (lookup (id_key id) m)) [
    | inl e ↦ rw e
    | inr (p, e) ↦ rw e (
        ground (arith, lookup-insert (id_key id) k (refresh ip now p) m, text_eq_iff (id_key id) k))
  ])
]

-- A request over HTTP, a sighting with port 0, adds no peer and drops none, and of each peer it
-- keeps the ID, the name, the operating system and the port.
pub observe_http_keeps :
    (u : Unicode) (s : Sighting) (now : ℕ) (m : Peers) (k : Text)
    → s.addr.port ≡ 0
    → Option.map announced (lookup k (observe u s now m).0) ≡ Option.map announced (lookup k m)
unfolding observe
observe_http_keeps u s now m k http =
    ground (arith, observe_http-announced (clean_id s.id) s.addr.addr now m k)

tick-quiet : (now : ℕ) (m : Peers) → (tick now m).1 ≡ false → (tick now m).0 ≡ m
unfolding tick tick_peer
tick-quiet now [] quiet = refl
tick-quiet now ((j, p) ∷ m) quiet = ground (arith, tick-quiet now m)

tick_peer_lem :
    (now : ℕ) (p : Peer)
    → (record (tick_peer now p) { online = p.online } ≡ p)
      × (((tick_peer now p).online ≡ true)
          ↔ ((p.online ≡ true) × (now ≤ p.last_seen + offline_after)))
unfolding tick_peer
tick_peer_lem now p = ground arith

-- `Tick` adds no peer and drops none, and changes at most the mark of a peer: afterwards a peer is
-- online exactly if it was online before and was seen in the last 90 seconds. If `Tick` reports no
-- change, there is none.
pub tick_lem :
    (now : ℕ) (m : Peers) (k : Text)
    → (lookup k m ≡ none → lookup k (tick now m).0 ≡ none)
      × ((p : Peer)
          → lookup k m ≡ some p
          → (q : Peer) × (lookup k (tick now m).0 ≡ some q)
            × (record q { online = p.online } ≡ p)
            × ((q.online ≡ true) ↔ ((p.online ≡ true) × (now ≤ p.last_seen + offline_after))))
      × ((tick now m).1 ≡ false → (tick now m).0 ≡ m)
tick_lem now m k = (
  (λ e. lookup-tick now k m ∙ ap (Option.map (tick_peer now)) e),
  (λ p e. (
    tick_peer now p,
    lookup-tick now k m ∙ ap (Option.map (tick_peer now)) e,
    (tick_peer_lem now p).0,
    (tick_peer_lem now p).1,
  )),
  tick-quiet now m,
)
