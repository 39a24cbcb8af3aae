-- ===== src/Resolve/Resolved.antt =====
-- Where a send goes.
use lanxfer.Base.{
  ℕ, ◌≤◌, ◌≡◌, ◌⊎◌, ◌||◌, refl, sym, inl, inr, Bool, true, false, List, [], ◌∷◌, Option, none, some,
  Text, arith, ltb, length, Bool-cases, Result, ok, err, filter_by, count_by, length-filter_by, In,
  here, In-filter_by, All,
}
use lanxfer.Netaddr.{Addr, AddrPort}
use lanxfer.Netguard.{NetText}
use lanxfer.Unicode.{Unicode}
use lanxfer.Presence.{Peer, ChooseError, not_found, ambiguous, choose}
use lanxfer.Presence.Chosen.{fits, fits_online, Chosen, choose-Chosen}
use lanxfer.Discovery.Search.{Found, SearchError}
use lanxfer.Target.{Target, LocateError, several, target_of, addrs_of, pick, replies_of, locate}
use lanxfer.Target.Located.{LocateOutcome, locate-LocateOutcome}
use lanxfer.Client.Send.{Answer, peer_id}
use lanxfer.Client.Peers.{IsUsable, local_peers, local_peers-IsUsable}
use lanxfer.Resolve.{
  SendTarget, ResolveError, bad_port, several_online, no_peer, not_located, search_failed, Network,
  named_target, pick_match, by_discovery, by_choice, by_list, by_text, resolve_target,
}

module _ (u : Unicode) (name : Text) where
  abbrev pub is_called : Found → Bool
  is_called r = u.equal_fold r.name name

  -- A name that is looked up with a broadcast: the one machine of that name that answered.
  abbrev pub Discovered : Result SearchError (List Found) → Result ResolveError SendTarget → Type 0
  Discovered (err e) res = res ≡ err (search_failed e)
  Discovered (ok found) res =
      ((r : Found) × In r found
        × (is_called r ≡ true)
        × (count_by is_called found ≡ 1)
        × (res ≡ ok (record { target = target_of r; by_name = true })))
      ⊎ ((count_by is_called found ≡ 0) × (res ≡ err no_peer))
      ⊎ ((2 ≤ count_by is_called found)
          × ((addrs : List Addr) × (res ≡ err (not_located (several addrs)))))

  -- A name that is looked up in the list of peers.
  abbrev pub Listed : Network → List Peer → Result ResolveError SendTarget → Type 0
  Listed n ps res =
      ((p : Peer) × (located : Result LocateError Target) × Chosen u name ps (ok p)
        × LocateOutcome u p (replies_of (n.query p.addr)) n.is_cancelled (replies_of n.broadcast)
            located
        × (res ≡ named_target located))
      ⊎ ((2 ≤ count_by (fits_online u name) ps) × (res ≡ err several_online))
      ⊎ ((count_by (fits u name) ps ≡ 0) × Discovered n.discovered res)

  matched :
      (found ms : List Found)
      → ((r : Found) → In r ms → In r found × (is_called r ≡ true))
      → length ms ≡ count_by is_called found
      → Discovered (ok found) (pick_match ms)
  unfolding pick_match named_target pick
  matched found [] each e = inr (inl (sym e, refl))
  matched found (r ∷ []) each e = let (i, c) = each r (here refl) in inl (r, i, c, sym e, refl)
  matched found (r ∷ q ∷ rs) each e = inr (inr (ground (arith, e), (addrs_of (r ∷ q ∷ rs), refl)))

  by_discovery-Discovered :
      (found : Result SearchError (List Found)) → Discovered found (by_discovery u name found)
  unfolding by_discovery
  by_discovery-Discovered (err e) = refl
  by_discovery-Discovered (ok found) =
      matched found (filter_by is_called found) (λ r i. In-filter_by is_called found r i)
        (length-filter_by is_called found)

  by_choice-Listed :
      (n : Network) (ps : List Peer) (c : Result ChooseError Peer)
      → Chosen u name ps c
      → Listed n ps (by_choice u name n c)
  unfolding by_choice
  by_choice-Listed n ps (ok p) h = inl (
    p,
    locate u p (n.query p.addr) n.is_cancelled n.broadcast,
    h,
    locate-LocateOutcome u p (n.query p.addr) n.is_cancelled n.broadcast,
    refl,
  )
  by_choice-Listed n ps (err not_found) h = inr (inr (h, by_discovery-Discovered n.discovered))
  by_choice-Listed n ps (err ambiguous) h = inr (inl (h, refl))

  by_list-Listed : (n : Network) (ps : List Peer) → Listed n ps (by_list u name n (some ps))
  unfolding by_list
  by_list-Listed n [] = inr (inr (refl, by_discovery-Discovered n.discovered))
  by_list-Listed n (p ∷ ps) =
      by_choice-Listed n (p ∷ ps) (choose u (p ∷ ps) name) (choose-Chosen u name (p ∷ ps))

-- What is asked, and what the receiver of this machine answers to a process of the device `self_id`.
pub record Question : Type 0 where
  pub net : NetText
  pub show : AddrPort → Text
  pub decode : Text → Option (Option (List Peer))
  pub unicode : Unicode
  pub self_id : Text
  pub local : Option (Answer × Bool)
  pub network : Network
  pub name : Text
  pub port : ℕ

abbrev pub listed : Question → Option (List Peer)
listed q = local_peers q.net q.show q.decode q.self_id q.local

abbrev pub InRange : ℕ → Type 0
InRange port = (1 ≤ port) × (port ≤ 65535)

-- The list of a receiver that names this device's ID decides, or else the broadcast.
abbrev pub Named : Question → Result ResolveError SendTarget → Type 0
Named q res =
    ((listed q ≡ none) × Discovered q.unicode q.name q.network.discovered res)
    ⊎ ((ps : List Peer) × (a : Answer) × (listed q ≡ some ps)
        × (q.local ≡ some (a, true))
        × (peer_id a.id ≡ q.self_id)
        × All (IsUsable q.net q.show q.decode) ps
        × Listed q.unicode q.name q.network ps res)

abbrev pub Resolved : Question → Result ResolveError SendTarget → Type 0
Resolved q res =
    (((port : InRange q.port) → ⊥) × (res ≡ err bad_port))
    ⊎ (InRange q.port
        × ((ip : Addr) × (q.net.parse_addr q.name ≡ some ip)
            × (res
                ≡ ok (record {
                  target = record {
                    addr = record { addr = ip; port = q.port };
                    id = [];
                    name = [];
                  };
                  by_name = false;
                }))))
    ⊎ (InRange q.port × (q.net.parse_addr q.name ≡ none) × Named q res)

by_list-Named :
    (q : Question) (list : Option (List Peer))
    → listed q ≡ list
    → Named q (by_list q.unicode q.name q.network list)
unfolding by_list
by_list-Named q none e = inl (e, by_discovery-Discovered q.unicode q.name q.network.discovered)
by_list-Named q (some ps) e =
    let ((a, answered, same), usable) =
      local_peers-IsUsable q.net q.show q.decode q.self_id q.local ps e in
    inr (ps, a, e, answered, same, usable, by_list-Listed q.unicode q.name q.network ps)

by_text-Resolved :
    (q : Question) (ip : Option Addr)
    → InRange q.port
    → q.net.parse_addr q.name ≡ ip
    → Resolved q (by_text q.unicode q.name q.port q.network (listed q) ip)
unfolding by_text
by_text-Resolved q (some ip) r e = inr (inl (r, (ip, e, refl)))
by_text-Resolved q none r e = inr (inr (r, e, by_list-Named q (listed q) refl))

-- resolveTarget refuses a port out of range; takes an address as it is given; and finds a name as
-- follows. The list of the receiver of this machine is used only if its answer names the device ID
-- of the sender, and then every peer in it has a valid name and a private, loopback or link-local
-- address. If one online peer of the list has the name, or none is online, the peer, or the one of
-- that name that was seen last, is located as Locate does; several online ones are an error. Only
-- without a list, or without the name in it, a broadcast decides: its target is the one machine of
-- that name that answered, and several or none are errors.
pub resolve_target-Resolved :
    (q : Question)
    → Resolved q (resolve_target q.net.parse_addr q.unicode q.name q.port q.network (listed q))
unfolding resolve_target
resolve_target-Resolved q = elim (Bool-cases (ltb q.port 1 || ltb 65535 q.port)) [
  | inl out ↦ rw (out, resolve_target) (inl ((λ r. absurd (ground (arith, out, r.0, r.1))), refl))
  | inr within ↦
      rw (within, resolve_target)
        (by_text-Resolved q (q.net.parse_addr q.name)
          (ground (arith, within), ground (arith, within)) refl)
]
