-- ===== src/Presence.antt =====
-- internal/presence: the peers that a receiver has seen. Times count nanoseconds.
pub mod Consistent
pub mod Changed
pub mod Chosen
use lanxfer.Base.{
  ℕ, ◌*◌, ◌-◌, ◌≡◌, refl, Bool, true, false, not, ◌&&◌, ◌||◌, List, [], ◌∷◌, ◌++◌, Option, none,
  some, Text, codes, ltb, ◌==◌, if◌then◌else◌, filter_by, any_by, Result, ok, err, Map, lookup,
  insert, delete, text_eq,
}
use lanxfer.Netaddr.{AddrPort, Addr, addr_is_valid, addr_port_eq}
use lanxfer.Unicode.{Unicode}
use lanxfer.Peername.{validate}
use lanxfer.Identity.{valid}

-- Three missed liveness checks: 90 seconds.
abbrev pub offline_after : ℕ
offline_after = 90 * 1000000000

pub record Peer : Type 0 where
  pub id : Text
  pub name : Text
  pub os : Text
  pub addr : AddrPort
  pub last_seen : ℕ
  pub online : Bool

pub record Sighting : Type 0 where
  pub id : Text
  pub name : Text
  pub os : Text
  pub addr : AddrPort

abbrev pub Peers : Type 0
Peers = Map Peer

unfoldable pub id_key : Text → Text
id_key id = codes "id:" ++ id

unfoldable pub name_key : Unicode → Text → Text
name_key u n = codes "name:" ++ u.to_lower n

abbrev pub has_id : Text → Bool
has_id [] = false
has_id (c ∷ id) = true

-- The key for an ID, which may be empty, and a name.
unfoldable pub key_for : Unicode → Text → Text → Text
key_for u id n = if has_id id then id_key id else name_key u n

abbrev pub key_of : Unicode → Peer → Text
key_of u p = key_for u p.id p.name

abbrev pub is_named : Text → Bool
is_named n = elim (validate n) [ ok _ ↦ true | err _ ↦ false ]

-- A malformed ID counts as none.
unfoldable pub clean_id : Text → Text
clean_id id = if has_id id && not (valid id) then [] else id

-- A peer seen by an HTTP request: its port is kept.
unfoldable pub refresh : Addr → ℕ → Peer → Peer
refresh ip now p = record p {
  addr = record { addr = ip; port = p.addr.port };
  last_seen = now;
  online = true;
}

unfoldable pub observe_http : Text → Addr → ℕ → Peers → Peers × Bool
unfolding refresh
observe_http id ip now m =
    if has_id id
    then elim (lookup (id_key id) m) [
      | none ↦ (m, false)
      | some p ↦ (
        insert (id_key id) (refresh ip now p) m,
        not (addr_port_eq p.addr (refresh ip now p).addr) || not p.online,
      )
    ]
    else (m, false)

-- An entry without ID under the same name is dropped once the peer sends an ID.
unfoldable pub drop_legacy : Unicode → Text → Text → Peers → Peers × Bool
drop_legacy u id name m =
    if has_id id
    then elim (lookup (name_key u name) m) [
      | none ↦ (m, false)
      | some _ ↦ (delete (name_key u name) m, true)
    ]
    else (m, false)

unfoldable pub seen : Text → Sighting → ℕ → Peer
seen id s now = record {
  id = id;
  name = s.name;
  os = s.os;
  addr = s.addr;
  last_seen = now;
  online = true;
}

-- `p.Name != s.Name || p.OS != s.OS || p.Addr != s.Addr || !p.Online`
unfoldable pub differs : Peer → Sighting → Bool
differs p s =
    not (text_eq p.name s.name)
    || (not (text_eq p.os s.os) || (not (addr_port_eq p.addr s.addr) || not p.online))

unfoldable pub put_seen : Text → Text → Sighting → ℕ → Peers × Bool → Peers × Bool
unfolding seen differs
put_seen key id s now (m, changed) = elim (lookup key m) [
  | none ↦ (insert key (seen id s now) m, true)
  | some p ↦ (insert key (seen p.id s now) m, changed || differs p s)
]

unfoldable pub observe : Unicode → Sighting → ℕ → Peers → Peers × Bool
observe u s now m =
    if not (addr_is_valid s.addr.addr)
    then (m, false)
    else if not (s.addr.port == 0) && not (is_named s.name)
    then (m, false)
    else if s.addr.port == 0
    then observe_http (clean_id s.id) s.addr.addr now m
    else put_seen (key_for u (clean_id s.id) s.name) (clean_id s.id) s now
        (drop_legacy u (clean_id s.id) s.name m)

abbrev pub is_late : ℕ → Peer → Bool
is_late now p = p.online && ltb offline_after (now - p.last_seen)

unfoldable pub tick_peer : ℕ → Peer → Peer
tick_peer now p = if is_late now p then record p { online = false } else p

unfoldable pub tick : ℕ → Peers → Peers × Bool
unfolding tick_peer
tick now [] = ([], false)
tick now ((k, p) ∷ m) =
    let (m', changed) = tick now m in ((k, tick_peer now p) ∷ m', is_late now p || changed)

-- `Load` on the list that the file holds: invalid entries are dropped, and the last one of a key wins.
unfoldable pub load_peer : Unicode → Peers → Peer → Peers
load_peer u m p =
    let p' = record p { id = clean_id p.id; online = false } in
    if not (is_named p.name) || not (addr_is_valid p.addr.addr)
    then m
    else insert (key_of u p') p' m

unfoldable pub load_into : Unicode → Peers → List Peer → Peers
load_into u m [] = m
load_into u m (p ∷ ps) = load_into u (load_peer u m p) ps

unfoldable pub load : Unicode → List Peer → Peers
unfolding load_into
load u ps = load_into u [] ps

pub data ChooseError : Type 0 where
  not_found ambiguous : ChooseError

-- The loop over the remaining matches.
unfoldable pub most_recent : Peer → List Peer → Peer
most_recent best [] = best
most_recent best (p ∷ ps) = most_recent (if ltb best.last_seen p.last_seen then p else best) ps

unfoldable pub pick : List Peer → List Peer → Result ChooseError Peer
unfolding most_recent
pick [] online = err not_found
pick (m ∷ ms) (p ∷ []) = ok p
pick (m ∷ ms) (p ∷ q ∷ ps) = err ambiguous
pick (m ∷ ms) [] = ok (most_recent m ms)

unfoldable pub choose : Unicode → List Peer → Text → Result ChooseError Peer
unfolding pick
choose u peers name =
    let matches = filter_by (λ (p : Peer). u.equal_fold p.name name) peers in
    pick matches (filter_by (λ (p : Peer). p.online) matches)
