-- ===== src/Discovery/Accepted.antt =====
-- Which datagrams are accepted, and how they are read back.
use lanxfer.Base.{
  ◌≤◌, ◌≡◌, refl, ◌∙◌, sym, subst, ◌⊎◌, inl, inr, true, false, [], some, Text, arith, Bool-cases,
  Option-cases, length, ok, text_eq, text_eq_iff, ◌||◌,
}
use lanxfer.Identity.{valid}
use lanxfer.Presence.{is_named}
use lanxfer.Discovery.{
  Packet, PacketCodec, describes, without_bad_id, check_type, decode, valid_port, max_os_len,
  type_query, type_reply, type_announce,
}

-- A name that Validate accepts, a port from 1 to 65535 and at most 32 bytes for the system.
abbrev pub IsDescribed : Packet → Type 0
IsDescribed p =
    (is_named p.name ≡ true) × ((1 ≤ p.port) × (p.port ≤ 65535)) × (length p.os ≤ max_os_len)

pub record IsAccepted (b : Text) (p : Packet) : Type 0 where
  pub short : length b ≤ 1024
  pub current : p.lanxfer_version ≡ 1
  pub identified : (p.id ≡ []) ⊎ (valid p.id ≡ true)
  pub described :
      ((p.kind ≡ type_query) × (IsDescribed p ⊎ ((p.name ≡ []) × (p.port ≡ 0) × (p.os ≡ []))))
      ⊎ (((p.kind ≡ type_reply) ⊎ (p.kind ≡ type_announce)) × IsDescribed p)

describes_lem : (p : Packet) → describes p ≡ true → IsDescribed p
unfolding describes valid_port
describes_lem p h = ground (arith, h)

without_bad_id_lem :
    (p : Packet)
    → (((without_bad_id p).id ≡ []) ⊎ (valid (without_bad_id p).id ≡ true))
      × ((without_bad_id p).lanxfer_version ≡ p.lanxfer_version)
unfolding without_bad_id
without_bad_id_lem p = elim (Bool-cases (valid p.id)) [
  | inl t ↦ simp (t, without_bad_id) (inr refl, refl)
  | inr f ↦ simp (f, without_bad_id) (inl refl, refl)
]

-- What `check_type` leaves of a packet.
record IsChecked (p q : Packet) : Type 0 where
  same_id : q.id ≡ p.id
  same_version : q.lanxfer_version ≡ p.lanxfer_version
  of_type :
      ((q.kind ≡ type_query) × (IsDescribed q ⊎ ((q.name ≡ []) × (q.port ≡ 0) × (q.os ≡ []))))
      ⊎ (((q.kind ≡ type_reply) ⊎ (q.kind ≡ type_announce)) × IsDescribed q)

check_type_query :
    (p q : Packet) → check_type p ≡ ok q → text_eq p.kind type_query ≡ true → IsChecked p q
unfolding check_type
check_type_query p q h t = elim (Bool-cases (describes p)) [
  | inl d ↦
      let same : p ≡ q = ground (arith, h, t, d) in
      subst (IsChecked p) same (record {
        same_id = refl;
        same_version = refl;
        of_type = inl ((text_eq_iff p.kind type_query).0 t, inl (describes_lem p d));
      })
  | inr d ↦
      let same : record p { name = []; port = 0; os = [] } ≡ q = ground (arith, h, t, d) in
      subst (IsChecked p) same (record {
        same_id = refl;
        same_version = refl;
        of_type = inl ((text_eq_iff p.kind type_query).0 t, inr (refl, refl, refl));
      })
]

check_type_described :
    (p q : Packet)
    → check_type p ≡ ok q
    → text_eq p.kind type_query ≡ false
    → (text_eq p.kind type_reply || text_eq p.kind type_announce ≡ true)
      × (describes p ≡ true)
      × (p ≡ q)
unfolding check_type
check_type_described p q h f = (ground (arith, h, f), ground (arith, h, f), ground (arith, h, f))

one_of : (s a b : Text) → (text_eq s a || text_eq s b) ≡ true → (s ≡ a) ⊎ (s ≡ b)
one_of s a b h = ground (arith, h, text_eq_iff s a, text_eq_iff s b)

check_type-IsChecked : (p q : Packet) → check_type p ≡ ok q → IsChecked p q
check_type-IsChecked p q h = elim (Bool-cases (text_eq p.kind type_query)) [
  | inl t ↦ check_type_query p q h t
  | inr f ↦
      let (named, d, same) = check_type_described p q h f in
      subst (IsChecked p) same (record {
        same_id = refl;
        same_version = refl;
        of_type = inr (one_of p.kind type_reply type_announce named, describes_lem p d);
      })
]

decode-parts :
    (c : PacketCodec) (b : Text) (q : Packet)
    → decode c b ≡ ok q
    → (length b ≤ 1024)
      × ((p : Packet) × (c.unmarshal b ≡ some p)
          × (p.lanxfer_version ≡ 1)
          × (check_type (without_bad_id p) ≡ ok q))
unfolding decode
decode-parts c b q h = elim (Option-cases (c.unmarshal b)) [
  | inl e ↦ absurd (ground (arith, h, e))
  | inr (p, e) ↦ (ground (arith, h, e), (p, e, ground (arith, h, e), ground (arith, h, e)))
]

-- An accepted datagram has at most 1024 bytes and version 1, its ID is empty or well formed, and it
-- is a query, a reply or an announcement. A reply or an announcement has a valid name, a port from 1
-- to 65535 and at most 32 bytes for the system; a query has that or none of the three.
pub decode-IsAccepted :
    (c : PacketCodec) (b : Text) (q : Packet) → decode c b ≡ ok q → IsAccepted b q
decode-IsAccepted c b q h =
    let (short, parts) = decode-parts c b q h in
    let (p, read, current, checked) = parts in
    let (identified, version) = without_bad_id_lem p in
    let k = check_type-IsChecked (without_bad_id p) q checked in
    record {
      short = short;
      current = k.same_version ∙ version ∙ current;
      identified = subst (λ i. (i ≡ []) ⊎ (valid i ≡ true)) (sym k.same_id) identified;
      described = k.of_type;
    }
