-- ===== src/Resolve.antt =====
-- cmd/lanxfer/send.go: `resolveTarget`, which finds where a send goes.
pub mod Resolved
use lanxfer.Base.{
  ℕ, ◌≡◌, refl, Bool, true, false, ◌||◌, List, [], ◌∷◌, Option, none, some, Text, ltb, filter_by,
  if◌then◌else◌, Result, ok, err,
}
use lanxfer.Netaddr.{Addr, AddrPort}
use lanxfer.Unicode.{Unicode}
use lanxfer.Presence.{Peer, ChooseError, not_found, ambiguous, choose}
use lanxfer.Discovery.Search.{Found, SearchError}
use lanxfer.Target.{Target, LocateError, pick, locate}

pub record SendTarget : Type 0 where
  pub target : Target
  pub by_name : Bool

pub data ResolveError : Type 0 where
  bad_port several_online no_peer : ResolveError
  not_located : LocateError → ResolveError
  search_failed : SearchError → ResolveError

-- What the network answers: a query of one address, whether the context is then cancelled, the
-- broadcast of Locate, and that of `resolveByDiscovery`.
pub record Network : Type 0 where
  pub query : AddrPort → Result SearchError (List Found)
  pub is_cancelled : Bool
  pub broadcast : Result SearchError (List Found)
  pub discovered : Result SearchError (List Found)

unfoldable pub named_target : Result LocateError Target → Result ResolveError SendTarget
named_target (ok tg) = ok (record { target = tg; by_name = true })
named_target (err e) = err (not_located e)

unfoldable pub pick_match : List Found → Result ResolveError SendTarget
unfolding named_target pick
pick_match [] = err no_peer
pick_match (r ∷ rs) = named_target (pick (r ∷ rs))

-- `resolveByDiscovery`
unfoldable pub by_discovery :
    Unicode → Text → Result SearchError (List Found) → Result ResolveError SendTarget
unfolding pick_match
by_discovery u name (err e) = err (search_failed e)
by_discovery u name (ok found) =
    pick_match (filter_by (λ (r : Found). u.equal_fold r.name name) found)

-- What becomes of the choice from the list.
unfoldable pub by_choice :
    Unicode → Text → Network → Result ChooseError Peer → Result ResolveError SendTarget
unfolding named_target by_discovery
by_choice u name n (ok p) = named_target (locate u p (n.query p.addr) n.is_cancelled n.broadcast)
by_choice u name n (err not_found) = by_discovery u name n.discovered
by_choice u name n (err ambiguous) = err several_online

-- The list of the receiver of this machine is used if it is not empty.
unfoldable pub by_list :
    Unicode → Text → Network → Option (List Peer) → Result ResolveError SendTarget
unfolding by_choice by_discovery
by_list u name n none = by_discovery u name n.discovered
by_list u name n (some []) = by_discovery u name n.discovered
by_list u name n (some (p ∷ ps)) = by_choice u name n (choose u (p ∷ ps) name)

unfoldable pub by_text :
    Unicode → Text → ℕ → Network → Option (List Peer) → Option Addr → Result ResolveError SendTarget
unfolding by_list
by_text u name port n list (some ip) = ok (record {
  target = record { addr = record { addr = ip; port = port }; id = []; name = [] };
  by_name = false;
})
by_text u name port n list none = by_list u name n list

-- `resolveTarget`; `parse_addr` is netip's reading of an address.
unfoldable pub resolve_target :
    (Text → Option Addr)
    → Unicode
    → Text
    → ℕ
    → Network
    → Option (List Peer)
    → Result ResolveError SendTarget
unfolding by_text
resolve_target parse_addr u name port n list =
    if ltb port 1 || ltb 65535 port
    then err bad_port
    else by_text u name port n list (parse_addr name)
