-- ===== src/Discovery/RoundTrip.antt =====
-- A packet that is sent is read back.
use lanxfer.Base.{
  ℕ, ◌≤◌, ◌≡◌, refl, ap, ◌∙◌, ◌⊎◌, inl, inr, true, false, not, ◌&&◌, [], ◌∷◌, some, Text, arith,
  Option-cases, Result-unit-cases, length, ok, text_eq_iff,
}
use lanxfer.Peername.{validate}
use lanxfer.Identity.{valid}
use lanxfer.Presence.{is_named, has_id}
use lanxfer.Discovery.{
  Packet, PacketCodec, describes, without_bad_id, check_type, decode, encode_described, described,
  marshalled, valid_port, type_query, type_reply, type_announce,
}

record IsSendable (name : Text) (port : ℕ) (id : Text) : Type 0 where
  named : is_named name ≡ true
  ported : valid_port port ≡ true
  identified : (has_id id && not (valid id)) ≡ false

encode_described-parts :
    (c : PacketCodec) (typ name : Text) (port : ℕ) (goos id b : Text)
    → encode_described c typ name port goos id ≡ ok b
    → IsSendable name port id × (c.marshal (described typ name port goos id) ≡ some b)
unfolding encode_described marshalled
encode_described-parts c typ name port goos id b h = elim (Result-unit-cases (validate name)) [
  | inr (e, bad) ↦ absurd (ground (arith, h, bad))
  | inl good ↦ elim (Option-cases (c.marshal (described typ name port goos id))) [
    | inl n ↦ absurd (ground (arith, h, good, n))
    | inr (b', m) ↦ (
      record {
        named = rw (good, is_named) refl;
        ported = ground (arith, h, good);
        identified = ground (arith, h, good);
      },
      ground (arith, h, good, m),
    )
  ]
]

without_bad_id-described :
    (typ name : Text) (port : ℕ) (goos id : Text)
    → (has_id id && not (valid id)) ≡ false
    → without_bad_id (described typ name port goos id) ≡ described typ name port goos id
unfolding without_bad_id described valid
without_bad_id-described typ name port goos [] e = refl
without_bad_id-described typ name port goos (d ∷ id) e =
    let v : valid (d ∷ id) ≡ true = ground (arith, e) in simp (v, without_bad_id) refl

check_type-described :
    (typ name : Text) (port : ℕ) (goos id : Text)
    → (typ ≡ type_query) ⊎ (typ ≡ type_reply) ⊎ (typ ≡ type_announce)
    → describes (described typ name port goos id) ≡ true
    → check_type (described typ name port goos id) ≡ ok (described typ name port goos id)
unfolding check_type described
check_type-described typ name port goos id t d = ground (
  arith,
  t,
  d,
  text_eq_iff typ type_query,
  text_eq_iff typ type_reply,
  text_eq_iff typ type_announce,
)

describes-described :
    (typ name : Text) (port : ℕ) (goos id : Text)
    → IsSendable name port id
    → length goos ≤ 32
    → describes (described typ name port goos id) ≡ true
unfolding describes described
describes-described typ name port goos id s l = ground (arith, s.named, s.ported, l)

decode_checked :
    (c : PacketCodec) (b : Text) (p : Packet)
    → length b ≤ 1024
    → c.unmarshal b ≡ some p
    → p.lanxfer_version ≡ 1
    → decode c b ≡ check_type (without_bad_id p)
unfolding decode
decode_checked c b p l u v = ground (arith, l, u, v)

-- A reply, an announcement or a query that describes its sender is read back as it was made, if it
-- fits a datagram, the system's name has at most 32 bytes and JSON reads this packet back.
pub decode-encode_described :
    (c : PacketCodec) (typ name : Text) (port : ℕ) (goos id b : Text)
    → (typ ≡ type_query) ⊎ (typ ≡ type_reply) ⊎ (typ ≡ type_announce)
    → encode_described c typ name port goos id ≡ ok b
    → (c.marshal (described typ name port goos id) ≡ some b
        → c.unmarshal b ≡ some (described typ name port goos id))
    → length b ≤ 1024
    → length goos ≤ 32
    → decode c b ≡ ok (described typ name port goos id)
decode-encode_described c typ name port goos id b t h codec fits short =
    let (s, m) = encode_described-parts c typ name port goos id b h in
    let p = described typ name port goos id in
    decode_checked c b p fits (codec m) (unfold described in refl)
    ∙ ap check_type (without_bad_id-described typ name port goos id s.identified)
    ∙ check_type-described typ name port goos id t
        (describes-described typ name port goos id s short)
