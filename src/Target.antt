-- ===== src/Target.antt =====
-- internal/target/target.go: where to send to a peer of the list.
pub mod Located
use lanxfer.Base.{
  ℕ, ◌≡◌, refl, Bool, true, false, not, ◌&&◌, ◌||◌, List, [], ◌∷◌, Option, none, some, Text,
  filter_by, if◌then◌else◌, Result, ok, err, text_eq, take,
}
use lanxfer.Netaddr.{Addr, AddrPort}
use lanxfer.Unicode.{Unicode}
use lanxfer.Presence.{Peer, has_id}
use lanxfer.Discovery.Search.{Found, SearchError}

pub record Target : Type 0 where
  pub addr : AddrPort
  pub id : Text
  pub name : Text

pub data LocateError : Type 0 where
  offline : LocateError
  several : List Addr → LocateError

-- Whether a machine that answers is the peer: by its ID, or by its name if the peer has none.
unfoldable pub is_same : Unicode → Peer → Found → Bool
is_same u p r = if has_id p.id then text_eq r.id p.id else u.equal_fold r.name p.name

unfoldable pub target_of : Found → Target
target_of r = record { addr = r.addr; id = r.id; name = r.name }

unfoldable pub addrs_of : List Found → List Addr
addrs_of [] = []
addrs_of (r ∷ rs) = r.addr.addr ∷ addrs_of rs

-- `Pick` on a list that is not empty.
unfoldable pub pick : List Found → Result LocateError Target
pick (r ∷ []) = ok (target_of r)
pick rs = err (several (addrs_of rs))

-- The loop over the replies of the peer's last address.
unfoldable pub first_same : Unicode → Peer → List Found → Option Found
first_same u p [] = none
first_same u p (r ∷ rs) = let rest = first_same u p rs in if is_same u p r then some r else rest

-- The matches of a broadcast.
unfoldable pub choose_match : Peer → List Found → Result LocateError Target
choose_match p [] = err offline
choose_match p (r ∷ rs) = if has_id p.id then pick (take 1 (r ∷ rs)) else pick (r ∷ rs)

-- `(p.ID != "" && r.ID == p.ID) || (p.ID == "" && strings.EqualFold(r.Name, p.Name))`
unfoldable pub is_match : Unicode → Peer → Found → Bool
is_match u p r = has_id p.id && text_eq r.id p.id || not (has_id p.id) && u.equal_fold r.name p.name

unfoldable pub by_broadcast :
    Unicode → Peer → Result SearchError (List Found) → Result LocateError Target
by_broadcast u p (err e) = err offline
by_broadcast u p (ok found) = choose_match p (filter_by (is_match u p) found)

unfoldable pub replies_of : Result SearchError (List Found) → List Found
replies_of (err e) = []
replies_of (ok replies) = replies

-- `Locate` on the results of the query and of the broadcast; `is_cancelled` is the context's state
-- between the two.
unfoldable pub locate :
    Unicode
    → Peer
    → Result SearchError (List Found)
    → Bool
    → Result SearchError (List Found)
    → Result LocateError Target
locate u p replies is_cancelled found =
    if p.online
    then ok (record { addr = p.addr; id = p.id; name = p.name })
    else elim (first_same u p (replies_of replies)) [
      | some r ↦ ok (record { addr = r.addr; id = p.id; name = r.name })
      | none ↦ if is_cancelled then err offline else by_broadcast u p found
    ]
