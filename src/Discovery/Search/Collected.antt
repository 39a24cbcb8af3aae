-- ===== src/Discovery/Search/Collected.antt =====
-- What a search returns.
pub mod Counted
use lanxfer.Base.{
  ℕ, ◌+◌, ◌%◌, ◌^◌, ◌≡◌, ◌≢◌, ◌⊎◌, refl, sym, ap, subst, ◌∙◌, inl, inr, Bool, true, false, ◌&&◌,
  ◌||◌, List, [], ◌∷◌, Text, arith, Bool-cases, if◌then◌else◌, Result, ok, err, take, All,
  All-append, any_by, In, here, there, count_by, count_by-append, ◌==◌, text_eq, text_eq_iff,
}
use lanxfer.Netaddr.{AddrPort, unmap, addr_port_eq, addr_port_eq_iff}
use lanxfer.Discovery.{
  Packet, PacketCodec, PacketError, decode, max_packet_size, type_query, type_reply,
}
use lanxfer.Discovery.Accepted.{IsDescribed, decode-IsAccepted, IsAccepted}
use lanxfer.Discovery.Search.Order.{
  IsOrdered, sort_found-IsOrdered, sort_found_count, sort_found-All,
}
use lanxfer.Discovery.Search.{
  Found, SearchError, Ending, deadline, interrupted, broken, found_at, add_reply, on_reply, collect,
  sort_found, ended, send_query, query,
}
use lanxfer.Discovery.Search.Collected.Counted.{
  is_at, reply_addr, replies, replies_from, once_if, IsPresentable, collect_count,
}

query_is_not_reply : text_eq type_query type_reply ≡ false
unfolding text_eq
query_is_not_reply = refl

module _ (c : PacketCodec) (all : List (Text × AddrPort)) where
  -- What is collected comes from valid replies.
  found_at-IsPresentable :
      (b : Text) (src : AddrPort) (p : Packet)
      → In (b, src) all
      → decode c (take (max_packet_size + 1) b) ≡ ok p
      → p.kind ≡ type_reply
      → IsPresentable c all (found_at (reply_addr src p) p)
  unfolding found_at
  found_at-IsPresentable b src p i e k =
      let d : IsDescribed p = elim (decode-IsAccepted c _ p e).described [
        | inl (q, d) ↦
            absurd (cc (query_is_not_reply, (text_eq_iff type_query type_reply).1 (sym q ∙ k)))
        | inr (q, d) ↦ d
      ] in
      record {
        bytes = b;
        from = src;
        packet = p;
        arrived = i;
        decoded = e;
        is_reply = k;
        same_addr = refl;
        described = d;
        named = refl;
        reachable = ground (arith, d.1);
        system = refl;
        same_id = refl;
      }

  on_reply-All :
      (b : Text) (src : AddrPort) (m : Result PacketError Packet) (st : List AddrPort × List Found)
      → In (b, src) all
      → decode c (take (max_packet_size + 1) b) ≡ m
      → All (IsPresentable c all) st.1
      → All (IsPresentable c all) (on_reply src m st).1
  unfolding on_reply add_reply
  on_reply-All b src (err bad) st i d h = h
  on_reply-All b src (ok p) (seen, peers) i d h = elim (Bool-cases (text_eq p.kind type_reply)) [
    | inr other ↦ rw (other, on_reply) h
    | inl e ↦ elim (Bool-cases (any_by (addr_port_eq (reply_addr src p)) seen)) [
      | inl old ↦ rw (e, old, on_reply, add_reply) h
      | inr fresh ↦
          rw (e, fresh, on_reply, add_reply)
            (All-append (IsPresentable c all) peers (found_at (reply_addr src p) p ∷ [])
              (found_at-IsPresentable b src p i d ((text_eq_iff p.kind type_reply).0 e), tt) h)
    ]
  ]

  collect-All :
      (ds : List (Text × AddrPort)) (st : List AddrPort × List Found)
      → ((d : Text × AddrPort) → In d ds → In d all)
      → All (IsPresentable c all) st.1
      → All (IsPresentable c all) (collect c ds st).1
  unfolding collect
  collect-All [] st sub h = h
  collect-All ((b, src) ∷ ds) st sub h =
      let m = decode c (take (max_packet_size + 1) b) in
      collect-All ds (on_reply src m st) (λ d i. sub d (there i))
        (on_reply-All b src m st (sub (b, src) (here refl)) refl h)

-- The list in its order, with one peer at each address that replied and none elsewhere.
abbrev pub Collected : PacketCodec → List (Text × AddrPort) → List Found → Type 0
Collected c ds peers =
    IsOrdered peers
    × All (IsPresentable c ds) peers
    × ((a : AddrPort) → count_by (is_at a) peers ≡ once_if (any_by (replies_from c a) ds))

abbrev pub SearchOutcome :
    PacketCodec
    → Bool
    → (AddrPort → Bool)
    → List (Text × AddrPort)
    → Ending
    → List AddrPort
    → Result SearchError (List Found)
    → Type 0
SearchOutcome c socket_ok write_ok ds ending targets (ok peers) =
    (socket_ok ≡ true)
    × (send_query write_ok targets ≢ 0)
    × (ending ≡ deadline)
    × Collected c ds peers
SearchOutcome c socket_ok write_ok ds ending targets (err e) =
    (socket_ok ≡ false) ⊎ (send_query write_ok targets ≡ 0) ⊎ (ending ≢ deadline)

collect-Collected :
    (c : PacketCodec) (ds : List (Text × AddrPort))
    → Collected c ds (sort_found (collect c ds ([], [])).1)
collect-Collected c ds = (
  sort_found-IsOrdered _,
  sort_found-All (IsPresentable c ds) _ (collect-All c ds ds ([], []) (λ d i. i) tt),
  λ a. sort_found_count (is_at a) _ ∙ collect_count c ds ([], []) (λ b. refl) a,
)

ended-SearchOutcome :
    (c : PacketCodec) (write_ok : AddrPort → Bool) (ds : List (Text × AddrPort)) (ending : Ending)
    (targets : List AddrPort)
    → send_query write_ok targets ≢ 0
    → SearchOutcome c true write_ok ds ending targets (ended ending (collect c ds ([], [])).1)
unfolding ended
ended-SearchOutcome c write_ok ds deadline targets some_sent =
    (refl, some_sent, refl, collect-Collected c ds)
ended-SearchOutcome c write_ok ds interrupted targets some_sent = inr (inr (λ e. cc))
ended-SearchOutcome c write_ok ds broken targets some_sent = inr (inr (λ e. cc))

-- A search succeeds exactly if its socket opens, its query can be sent to a target and its time runs
-- out; then it returns, in the order of names and then of addresses, one peer at each address from
-- which a reply came, however often it came, and none elsewhere. Each peer has the address that a
-- reply among the received datagrams came from, and the name, the system, the ID and the port of that
-- reply; the name is valid, the port is from 1 to 65535 and the system has at most 32 bytes.
pub query-SearchOutcome :
    (c : PacketCodec) (socket_ok : Bool) (write_ok : AddrPort → Bool) (is_cancelled : Bool)
    (ds : List (Text × AddrPort)) (ending : Ending) (targets : List AddrPort)
    → SearchOutcome c socket_ok write_ok ds ending targets
        (query c socket_ok write_ok is_cancelled ds ending targets)
unfolding query
query-SearchOutcome c false write_ok is_cancelled ds ending targets = inl refl
query-SearchOutcome c true write_ok is_cancelled ds ending targets =
    elim (Bool-cases (send_query write_ok targets == 0)) [
      | inl e ↦ rw (e, query) (inr (inl (ground (arith, e))))
      | inr n ↦ rw (n, query) (ended-SearchOutcome c write_ok ds ending targets (ground (arith, n)))
    ]
