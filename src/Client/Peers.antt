-- ===== src/Client/Peers.antt =====
-- internal/client/local.go: `LocalPeers`.
use lanxfer.Base.{
  ℕ, ◌*◌, ◌^◌, ◌≡◌, ap, subst, inl, inr, Bool, true, not, ◌&&◌, List, [], ◌∷◌, Option, none, some,
  Text, ◌==◌, arith, take, filter_by, text_eq, text_eq_iff, if◌then◌else◌, Bool-cases,
  Result-unit-cases, ok, All,
}
use lanxfer.Netaddr.{Addr, AddrPort, unmap}
use lanxfer.Netguard.{NetText, is_allowed_remote, parse_remote}
use lanxfer.Netguard.Ranges.{IsLocal, is_allowed_remote_iff}
use lanxfer.Peername.{validate}
use lanxfer.Presence.{Peer, is_named}
use lanxfer.Client.Send.{Answer, peer_id}

abbrev pub max_local_peers_body : ℕ
max_local_peers_body = 8 * 2 ^ 20

-- netip's printing of an address, and JSON, which may read null, are arguments.
module _ (net : NetText) (show : AddrPort → Text)
    (decode : Text → Option (Option (List Peer))) where
  unfoldable pub is_usable : Peer → Bool
  is_usable p = is_allowed_remote net (show p.addr) && is_named p.name

  unfoldable pub usable_of : Option (Option (List Peer)) → Option (List Peer)
  unfolding is_usable
  usable_of none = none
  usable_of (some none) = none
  usable_of (some (some ps)) = some (filter_by is_usable ps)

  -- Every error is `ErrNoLocalReceiver`, none here; the Boolean says that the body was read.
  unfoldable pub local_answer : Text → Answer → Bool → Option (List Peer)
  unfolding usable_of
  local_answer self_id a read_ok =
      if not (a.status == 200)
      then none
      else if not (text_eq (peer_id a.id) self_id)
      then none
      else if not read_ok
      then none
      else usable_of (decode (take max_local_peers_body a.body))

  unfoldable pub local_peers : Text → Option (Answer × Bool) → Option (List Peer)
  unfolding local_answer
  local_peers self_id none = none
  local_peers self_id (some (a, read_ok)) = local_answer self_id a read_ok

  -- An address that a send may go to, and a name.
  abbrev pub IsUsable : Peer → Type 0
  IsUsable p =
      ((ip : Addr) × (parse_remote net (show p.addr) ≡ some ip) × IsLocal (unmap ip))
      × (validate p.name ≡ ok tt)

  is_usable-IsUsable : (p : Peer) → is_usable p ≡ true → IsUsable p
  unfolding is_usable
  is_usable-IsUsable p h = elim (Bool-cases (is_allowed_remote net (show p.addr))) [
    | inr a ↦ absurd (ground (arith, h, a))
    | inl a ↦ elim (Result-unit-cases (validate p.name)) [
      | inl v ↦ ((is_allowed_remote_iff net (show p.addr)).0 a, v)
      | inr (e, v) ↦ absurd (ground (arith, h, a, v))
    ]
  ]

  filtered : (ps : List Peer) → All IsUsable (filter_by is_usable ps)
  filtered [] = tt
  filtered (p ∷ ps) = elim (Bool-cases (is_usable p)) [
    | inl e ↦ rw e (is_usable-IsUsable p e, filtered ps)
    | inr e ↦ rw e (filtered ps)
  ]

  usable_of-IsUsable :
      (d : Option (Option (List Peer))) (ps : List Peer) → usable_of d ≡ some ps → All IsUsable ps
  unfolding usable_of
  usable_of-IsUsable none ps h = cc
  usable_of-IsUsable (some none) ps h = cc
  usable_of-IsUsable (some (some qs)) ps h =
      let same : filter_by is_usable qs ≡ ps = cc h in subst (All IsUsable) same (filtered qs)

  -- The list of a receiver that names this device.
  pub local_peers-IsUsable :
      (self_id : Text) (exchange : Option (Answer × Bool)) (ps : List Peer)
      → local_peers self_id exchange ≡ some ps
      → ((a : Answer) × (exchange ≡ some (a, true)) × (peer_id a.id ≡ self_id)) × All IsUsable ps
  unfolding local_peers local_answer
  local_peers-IsUsable self_id none ps h = cc
  local_peers-IsUsable self_id (some (a, read_ok)) ps h = elim (Bool-cases (a.status == 200)) [
    | inr s ↦ absurd (ground (arith, h, s))
    | inl s ↦ elim (Bool-cases (text_eq (peer_id a.id) self_id)) [
      | inr i ↦ absurd (ground (arith, h, s, i))
      | inl i ↦ elim (Bool-cases read_ok) [
        | inr r ↦ absurd (ground (arith, h, s, i, r))
        | inl r ↦
            let read : usable_of (decode (take max_local_peers_body a.body)) ≡ some ps =
              ground (arith, h, s, i, r) in
            (
              (a, ap (λ (b : Bool). some (a, b)) r, (text_eq_iff (peer_id a.id) self_id).0 i),
              usable_of-IsUsable (decode (take max_local_peers_body a.body)) ps read,
            )
      ]
    ]
  ]
