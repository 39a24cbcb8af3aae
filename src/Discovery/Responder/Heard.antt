-- ===== src/Discovery/Responder/Heard.antt =====
-- What the responder sends and reports.
use lanxfer.Base.{
  ◌+◌, ◌≤◌, ◌≡◌, ◌⊎◌, refl, sym, ap, subst, ◌∙◌, inl, inr, Bool, true, false, not, ◌&&◌, ◌||◌, List,
  [], ◌∷◌, ◌++◌, append-nil, append_assoc, Text, arith, Bool-cases, Result-cases, if◌then◌else◌,
  Result, ok, err, length, length-append, take, All, All-append, In, here, there, In-cons, text_eq,
  text_eq_iff,
}
use lanxfer.Netaddr.{AddrPort, unmap}
use lanxfer.Netguard.{NetText, is_allowed_remote}
use lanxfer.Identity.{valid}
use lanxfer.Presence.{Sighting, has_id, is_named}
use lanxfer.Discovery.{
  Packet, PacketCodec, PacketError, decode, max_packet_size, type_query, type_reply, type_announce,
}
use lanxfer.Discovery.Accepted.{IsAccepted, IsDescribed, decode-IsAccepted}
use lanxfer.Discovery.Responder.{
  Responder, Traffic, sighted, report, answer, respond, on_packet, on_datagram, serve,
}

abbrev source : AddrPort → AddrPort
source src = record { addr = unmap src.addr; port = src.port }

abbrev pub silence : Traffic
silence = record { sent = []; sightings = [] }

module _ (c : PacketCodec) (net : NetText) (show : AddrPort → Text) (r : Responder) where
  -- The packet of a datagram that is not ignored: it decodes, comes from the local network and does
  -- not carry the receiver's own ID.
  pub record Heeded (b : Text) (src : AddrPort) (p : Packet) : Type 0 where
    pub decoded : decode c (take (max_packet_size + 1) b) ≡ ok p
    pub local : is_allowed_remote net (show (source src)) ≡ true
    pub foreign : has_id r.self.id && text_eq p.id r.self.id ≡ false

  -- A sighting of the packet of a datagram that is heeded, which the list of peers can take up.
  pub record IsHeard (ds : List (Text × AddrPort)) (s : Sighting) : Type 0 where
    pub bytes : Text
    pub from : AddrPort
    pub packet : Packet
    pub arrived : In (bytes, from) ds
    pub heeded : Heeded bytes from packet
    pub observed : r.observes ≡ true
    pub same_name : s.name ≡ packet.name
    pub same_id : s.id ≡ packet.id
    pub same_os : s.os ≡ packet.os
    pub same_addr : s.addr.addr ≡ unmap from.addr
    pub same_port : s.addr.port ≡ packet.port
    pub named : is_named s.name ≡ true
    pub reachable : (1 ≤ s.addr.port) × (s.addr.port ≤ 65535)
    pub identified : (s.id ≡ []) ⊎ (valid s.id ≡ true)

  -- The reply to a query that is heeded, to where it came from.
  pub record IsAnswer (ds : List (Text × AddrPort)) (s : AddrPort × Text) : Type 0 where
    pub bytes : Text
    pub from : AddrPort
    pub packet : Packet
    pub arrived : In (bytes, from) ds
    pub heeded : Heeded bytes from packet
    pub is_query : packet.kind ≡ type_query
    pub back : s.0 ≡ source from
    pub same : s.1 ≡ r.reply_packet

  -- What one packet adds.
  abbrev is_heeded : AddrPort → Packet → Bool
  is_heeded src p =
      is_allowed_remote net (show src) && not (has_id r.self.id && text_eq p.id r.self.id)

  abbrev answers : AddrPort → Packet → List (AddrPort × Text)
  answers src p =
      if is_heeded src p && text_eq p.kind type_query then (src, r.reply_packet) ∷ [] else []

  abbrev is_reported : AddrPort → Packet → Bool
  is_reported src p =
      is_heeded src p
      && ((if text_eq p.kind type_query
            then has_id p.name
            else text_eq p.kind type_announce || text_eq p.kind type_reply)
          && r.observes)

  abbrev reports : AddrPort → Packet → List Sighting
  reports src p = if is_reported src p then sighted src p ∷ [] else []

  abbrev with_traffic : List (AddrPort × Text) → List Sighting → Traffic → Traffic
  with_traffic ss gs t = record { sent = t.sent ++ ss; sightings = t.sightings ++ gs }

  with_nothing : (t : Traffic) → t ≡ with_traffic [] [] t
  with_nothing t = sym (rw (append-nil t.sent, append-nil t.sightings) refl)

  report_lem :
      (src : AddrPort) (p : Packet) (t : Traffic)
      → report r src p t ≡ record {
        sent = t.sent;
        sightings = t.sightings ++ (if r.observes then sighted src p ∷ [] else []);
      }
  unfolding report
  report_lem src p t = elim (Bool-cases r.observes) [
    | inl o ↦ rw (o, report) refl
    | inr o ↦ rw (o, report) (sym (rw (append-nil t.sightings) refl))
  ]

  on_packet_lem :
      (src : AddrPort) (p : Packet) (t : Traffic)
      → on_packet net show r src p t ≡ with_traffic (answers src p) (reports src p) t
  unfolding on_packet respond answer
  on_packet_lem src p t = elim (Bool-cases (is_allowed_remote net (show src))) [
    | inr l ↦ rw (l, on_packet) (with_nothing t)
    | inl l ↦ elim (Bool-cases (has_id r.self.id && text_eq p.id r.self.id)) [
      | inl own ↦ rw (l, own, on_packet) (with_nothing t)
      | inr other ↦ elim (Bool-cases (text_eq p.kind type_query)) [
        | inl q ↦ elim (Bool-cases (has_id p.name)) [
          | inl n ↦ rw (l, other, q, n, on_packet, respond) (report_lem src p (answer r src t))
          | inr n ↦ rw (l, other, q, n, on_packet, respond) (sym (rw (append-nil t.sightings) refl))
        ]
        | inr q ↦ elim (Bool-cases (text_eq p.kind type_announce || text_eq p.kind type_reply)) [
          | inl k ↦
              rw (l, other, q, k, on_packet, respond)
                (report_lem src p t ∙ sym (rw (append-nil t.sent) refl))
          | inr k ↦ rw (l, other, q, k, on_packet, respond) (with_nothing t)
        ]
      ]
    ]
  ]

  -- What one datagram adds.
  abbrev of_decoded {ℓ} :
      {A : Type ℓ} → (AddrPort → Packet → List A) → AddrPort → Result PacketError Packet → List A
  of_decoded f src (err e) = []
  of_decoded f src (ok p) = f src p

  abbrev all_of {ℓ} : {A : Type ℓ} → (AddrPort → Packet → List A) → Text × AddrPort → List A
  all_of f (b, src) = of_decoded f (source src) (decode c (take (max_packet_size + 1) b))

  abbrev concat_of {ℓ} :
      {A : Type ℓ} → (AddrPort → Packet → List A) → List (Text × AddrPort) → List A
  concat_of f [] = []
  concat_of f (d ∷ ds) = all_of f d ++ concat_of f ds

  on_datagram_lem :
      (d : Text × AddrPort) (t : Traffic)
      → on_datagram c net show r d t ≡ with_traffic (all_of answers d) (all_of reports d) t
  unfolding on_datagram
  on_datagram_lem (b, src) t = elim (Result-cases (decode c (take (max_packet_size + 1) b))) [
    | inl (p, e) ↦ rw (e, on_datagram) (on_packet_lem (source src) p t)
    | inr (bad, e) ↦ rw (e, on_datagram) (with_nothing t)
  ]

  serve_lem :
      (ds : List (Text × AddrPort)) (t : Traffic)
      → serve c net show r ds t ≡ with_traffic (concat_of answers ds) (concat_of reports ds) t
  unfolding serve
  serve_lem [] t = with_nothing t
  serve_lem (d ∷ ds) t =
      serve_lem ds (on_datagram c net show r d t)
      ∙ ap (with_traffic (concat_of answers ds) (concat_of reports ds)) (on_datagram_lem d t)
      ∙ rw
          (
            append_assoc t.sent (all_of answers d) (concat_of answers ds),
            append_assoc t.sightings (all_of reports d) (concat_of reports ds),
          )
          refl

  reported-IsDescribed :
      (b : Text) (src : AddrPort) (p : Packet)
      → IsAccepted b p
      → is_reported src p ≡ true
      → IsDescribed p
  reported-IsDescribed b src p ok_p y = elim ok_p.described [
    | inl (q, inl d) ↦ d
    | inl (q, inr (unnamed, rest, systemless)) ↦
        let query : text_eq p.kind type_query ≡ true = (text_eq_iff p.kind type_query).1 q in
        let nameless : has_id p.name ≡ false = rw (unnamed) refl in
        absurd (ground (arith, y, query, nameless))
    | inr (k, d) ↦ d
  ]

  -- A heard sighting of a packet that is heeded.
  reports-IsHeard :
      (ds : List (Text × AddrPort)) (b : Text) (src : AddrPort) (p : Packet)
      → In (b, src) ds
      → decode c (take (max_packet_size + 1) b) ≡ ok p
      → All (IsHeard ds) (reports (source src) p)
  unfolding sighted
  reports-IsHeard ds b src p i e = elim (Bool-cases (is_reported (source src) p)) [
    | inr n ↦ rw (n) tt
    | inl y ↦
        let accepted = decode-IsAccepted c _ p e in
        let d = reported-IsDescribed _ (source src) p accepted y in
        rw (y) (
          record {
            bytes = b;
            from = src;
            packet = p;
            arrived = i;
            heeded = record { decoded = e; local = ground (arith, y); foreign = ground (arith, y) };
            observed = ground (arith, y);
            same_name = refl;
            same_id = refl;
            same_os = refl;
            same_addr = refl;
            same_port = ground (arith, d.1);
            named = d.0;
            reachable = ground (arith, d.1);
            identified = accepted.identified;
          },
          tt,
        )
  ]

  answers-IsAnswer :
      (ds : List (Text × AddrPort)) (b : Text) (src : AddrPort) (p : Packet)
      → In (b, src) ds
      → decode c (take (max_packet_size + 1) b) ≡ ok p
      → All (IsAnswer ds) (answers (source src) p)
  answers-IsAnswer ds b src p i e =
      elim (Bool-cases (is_heeded (source src) p && text_eq p.kind type_query)) [
        | inr n ↦ rw (n) tt
        | inl y ↦ rw (y) (
          record {
            bytes = b;
            from = src;
            packet = p;
            arrived = i;
            heeded = record { decoded = e; local = ground (arith, y); foreign = ground (arith, y) };
            is_query = (text_eq_iff p.kind type_query).0 (ground (arith, y));
            back = refl;
            same = refl;
          },
          tt,
        )
      ]

  concat_of-All {ℓ} :
      {A : Type ℓ} (P : A → Type 0) (f : AddrPort → Packet → List A) (ds : List (Text × AddrPort))
      → ((b : Text) (src : AddrPort) (p : Packet)
          → In (b, src) ds
          → decode c (take (max_packet_size + 1) b) ≡ ok p
          → All P (f (source src) p))
      → All P (concat_of f ds)
  concat_of-All P f [] each = tt
  concat_of-All P f ((b, src) ∷ ds) each =
      let later = concat_of-All P f ds (λ b' src' p i. each b' src' p (there i)) in
      elim (Result-cases (decode c (take (max_packet_size + 1) b))) [
        | inl (p, e) ↦
            rw (e)
              (All-append P (f (source src) p) (concat_of f ds) later (each b src p (here refl) e))
        | inr (bad, e) ↦ rw (e) later
      ]

  -- At most one for each datagram.
  length-concat_of {ℓ} :
      {A : Type ℓ} (f : AddrPort → Packet → List A)
      → ((src : AddrPort) (p : Packet) → length (f src p) ≤ 1)
      → (ds : List (Text × AddrPort)) → length (concat_of f ds) ≤ length ds
  length-concat_of f each [] = omega arith
  length-concat_of f each ((b, src) ∷ ds) =
      elim (Result-cases (decode c (take (max_packet_size + 1) b))) [
        | inl (p, e) ↦
            rw (e, length-append (f (source src) p) (concat_of f ds))
              (omega (arith, each (source src) p, length-concat_of f each ds))
        | inr (bad, e) ↦ rw (e) (omega (arith, length-concat_of f each ds))
      ]

  In-append_back {ℓ} : {A : Type ℓ} (xs : List A) {ys : List A} {a : A} → In a ys → In a (xs ++ ys)
  In-append_back [] i = i
  In-append_back (x ∷ xs) i = there (In-append_back xs i)

  In-append_front {ℓ} : {A : Type ℓ} (xs ys : List A) {a : A} → In a xs → In a (xs ++ ys)
  In-append_front [] ys i = elim i [ ]
  In-append_front (x ∷ xs) ys i = elim (In-cons i) [
    | inl e ↦ here e
    | inr j ↦ there (In-append_front xs ys j)
  ]

  In-concat_of {ℓ} :
      {A : Type ℓ} (f : AddrPort → Packet → List A) (a : A) (b : Text) (src : AddrPort) (p : Packet)
      → decode c (take (max_packet_size + 1) b) ≡ ok p
      → In a (f (source src) p)
      → (ds : List (Text × AddrPort)) → In (b, src) ds
      → In a (concat_of f ds)
  In-concat_of f a b src p e i [] j = elim j [ ]
  In-concat_of f a b src p e i (d ∷ ds) j = elim (In-cons j) [
    | inl same ↦
        let decoded : all_of f d ≡ f (source src) p =
          ap (all_of f) same ∙ ap (of_decoded f (source src)) e in
        In-append_front (all_of f d) (concat_of f ds) (subst (In a) (sym decoded) i)
    | inr later ↦ In-append_back (all_of f d) (In-concat_of f a b src p e i ds later)
  ]

  pub record Served (ds : List (Text × AddrPort)) (t : Traffic) : Type 0 where
    pub answers : All (IsAnswer ds) t.sent
    pub heard : All (IsHeard ds) t.sightings
    pub few_answers : length t.sent ≤ length ds
    pub few_sightings : length t.sightings ≤ length ds
    pub answered :
        (b : Text) (src : AddrPort) (p : Packet)
        → In (b, src) ds
        → Heeded b src p
        → p.kind ≡ type_query
        → In (source src, r.reply_packet) t.sent
    pub reported :
        (b : Text) (src : AddrPort) (p : Packet)
        → In (b, src) ds
        → Heeded b src p
        → has_id p.name ≡ true
        → r.observes ≡ true
        → In (sighted (source src) p) t.sightings

  answers_query :
      (b : Text) (src : AddrPort) (p : Packet)
      → Heeded b src p
      → p.kind ≡ type_query
      → answers (source src) p ≡ (source src, r.reply_packet) ∷ []
  answers_query b src p h q =
      let query : text_eq p.kind type_query ≡ true = (text_eq_iff p.kind type_query).1 q in
      rw (h.local, h.foreign, query) refl

  kinds_true :
      (b : Text) (p : Packet)
      → IsAccepted b p
      → has_id p.name ≡ true
      → (if text_eq p.kind type_query
          then has_id p.name
          else text_eq p.kind type_announce || text_eq p.kind type_reply)
        ≡ true
  kinds_true b p ok_p n = elim ok_p.described [
    | inl (q, d) ↦
        let query : text_eq p.kind type_query ≡ true = (text_eq_iff p.kind type_query).1 q in
        rw (query) n
    | inr (inl k, d) ↦
        let e : text_eq p.kind type_reply ≡ true = (text_eq_iff p.kind type_reply).1 k in
        ground (arith, n, e)
    | inr (inr k, d) ↦
        let e : text_eq p.kind type_announce ≡ true = (text_eq_iff p.kind type_announce).1 k in
        ground (arith, n, e)
  ]

  reports_named :
      (b : Text) (src : AddrPort) (p : Packet)
      → Heeded b src p
      → has_id p.name ≡ true
      → r.observes ≡ true
      → reports (source src) p ≡ sighted (source src) p ∷ []
  reports_named b src p h n o =
      let k = kinds_true _ p (decode-IsAccepted c _ p h.decoded) n in
      rw (h.local, h.foreign, k, o) refl

  -- A responder that listens from the start sends and reports only what datagrams of the local network
  -- call for. Each datagram that it sends is its own reply, to the source of a query that arrived from
  -- an allowed address and does not carry its own ID. Each sighting that it reports, which takes an
  -- observer, is of a packet that arrived from an allowed address and does not carry its own ID, with
  -- the name, the system, the ID and the port of that packet and the address of its source; the name
  -- is valid, the port is from 1 to 65535, and the ID is empty or well formed. Neither are more than
  -- the datagrams that arrive. And every query from the network that does not carry its own ID is
  -- answered, and every such packet with a name is reported, if there is an observer.
  pub serve-Served : (ds : List (Text × AddrPort)) → Served ds (serve c net show r ds silence)
  serve-Served ds = subst (Served ds) (sym (serve_lem ds silence)) (record {
    answers = concat_of-All (IsAnswer ds) answers ds (answers-IsAnswer ds);
    heard = concat_of-All (IsHeard ds) reports ds (reports-IsHeard ds);
    few_answers = length-concat_of answers (λ src p. ground arith) ds;
    few_sightings = length-concat_of reports (λ src p. ground arith) ds;
    answered = λ b src p i h q.
        In-concat_of answers _ b src p h.decoded
          (subst (In _) (sym (answers_query b src p h q)) (here refl)) ds i;
    reported = λ b src p i h n o.
        In-concat_of reports _ b src p h.decoded
          (subst (In _) (sym (reports_named b src p h n o)) (here refl)) ds i;
  })
