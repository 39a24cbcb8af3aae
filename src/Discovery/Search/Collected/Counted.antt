-- ===== src/Discovery/Search/Collected/Counted.antt =====
-- How often an address is among the peers that were collected.
use lanxfer.Base.{
  ℕ, ◌+◌, ◌%◌, ◌^◌, ◌≡◌, sym, ap, subst, ◌∙◌, inl, inr, Bool, true, false, ◌&&◌, ◌||◌, List, [],
  ◌∷◌, Text, arith, Bool-cases, if◌then◌else◌, Result, ok, err, take, any_by, In, count_by,
  count_by-append, text_eq,
}
use lanxfer.Netaddr.{AddrPort, unmap, addr_port_eq, addr_port_eq_iff}
use lanxfer.Discovery.{Packet, PacketCodec, PacketError, decode, max_packet_size, type_reply}
use lanxfer.Discovery.Accepted.{IsDescribed}
use lanxfer.Discovery.Search.{Found, found_at, add_reply, on_reply, collect}

-- Whether the peer answers at an address.
abbrev pub is_at : AddrPort → Found → Bool
is_at a p = addr_port_eq a p.addr

abbrev pub reply_addr : AddrPort → Packet → AddrPort
reply_addr src p = record { addr = unmap src.addr; port = p.port % 2 ^ 16 }

abbrev pub replies : AddrPort → AddrPort → Result PacketError Packet → Bool
replies a src (err e) = false
replies a src (ok p) = text_eq p.kind type_reply && addr_port_eq a (reply_addr src p)

-- Whether the datagram is a reply from an address.
abbrev pub replies_from : PacketCodec → AddrPort → Text × AddrPort → Bool
replies_from c a (b, src) = replies a src (decode c (take (max_packet_size + 1) b))

abbrev pub once_if : Bool → ℕ
once_if b = if b then 1 else 0

abbrev IsTracked : List AddrPort × List Found → Type 0
IsTracked (seen, peers) =
    (a : AddrPort) → count_by (is_at a) peers ≡ once_if (any_by (addr_port_eq a) seen)

-- A peer as a reply among the datagrams describes it, at the address that the reply came from, with
-- a valid name, a port and a short system name.
pub record IsPresentable (c : PacketCodec) (ds : List (Text × AddrPort)) (p : Found) : Type 0 where
  pub bytes : Text
  pub from : AddrPort
  pub packet : Packet
  pub arrived : In (bytes, from) ds
  pub decoded : decode c (take (max_packet_size + 1) bytes) ≡ ok packet
  pub is_reply : packet.kind ≡ type_reply
  pub same_addr : p.addr.addr ≡ unmap from.addr
  pub described : IsDescribed packet
  pub named : p.name ≡ packet.name
  pub reachable : p.addr.port ≡ packet.port
  pub system : p.os ≡ packet.os
  pub same_id : p.id ≡ packet.id

-- The addresses seen after a reply.
seen_after : AddrPort → List AddrPort × List Found → AddrPort → Bool
seen_after addr st a = any_by (addr_port_eq a) st.0 || addr_port_eq a addr

add_reply_seen :
    (addr : AddrPort) (p : Packet) (st : List AddrPort × List Found) (a : AddrPort)
    → any_by (addr_port_eq a) (add_reply addr p st).0 ≡ seen_after addr st a
unfolding add_reply seen_after
add_reply_seen addr p (seen, peers) a = elim (Bool-cases (any_by (addr_port_eq addr) seen)) [
  | inr fresh ↦ rw (fresh, add_reply) (ground arith)
  | inl old ↦ elim (Bool-cases (addr_port_eq a addr)) [
    | inr other ↦ rw (old, add_reply) (ground (arith, other))
    | inl e ↦
        let same : a ≡ addr = (addr_port_eq_iff a addr).0 e in
        rw (old, add_reply)
          (ground (arith, e, subst (λ x. any_by (addr_port_eq x) seen ≡ true) (sym same) old))
  ]
]

add_reply_count :
    (addr : AddrPort) (p : Packet) (st : List AddrPort × List Found)
    → IsTracked st
    → (a : AddrPort) → count_by (is_at a) (add_reply addr p st).1 ≡ once_if (seen_after addr st a)
unfolding add_reply found_at seen_after
add_reply_count addr p (seen, peers) h a = elim (Bool-cases (any_by (addr_port_eq addr) seen)) [
  | inl old ↦ elim (Bool-cases (addr_port_eq a addr)) [
    | inr other ↦ rw (old, add_reply) (ground (arith, h a, other))
    | inl e ↦
        let same : a ≡ addr = (addr_port_eq_iff a addr).0 e in
        rw (old, add_reply)
          (h a
            ∙ ap once_if (
                ground (arith, e, subst (λ x. any_by (addr_port_eq x) seen ≡ true) (sym same) old)))
  ]
  | inr fresh ↦ elim (Bool-cases (addr_port_eq a addr)) [
    | inr other ↦
        rw (fresh, add_reply, count_by-append (is_at a) peers (found_at addr p ∷ []))
          (ground (arith, h a, other))
    | inl e ↦
        let same : a ≡ addr = (addr_port_eq_iff a addr).0 e in
        rw (fresh, add_reply, count_by-append (is_at a) peers (found_at addr p ∷ []))
          (ground
            (arith, h a, e, subst (λ x. any_by (addr_port_eq x) seen ≡ false) (sym same) fresh))
  ]
]

add_reply-IsTracked :
    (addr : AddrPort) (p : Packet) (st : List AddrPort × List Found)
    → IsTracked st
    → IsTracked (add_reply addr p st)
add_reply-IsTracked addr p st h =
    λ a. add_reply_count addr p st h a ∙ ap once_if (sym (add_reply_seen addr p st a))

on_reply-IsTracked :
    (src : AddrPort) (m : Result PacketError Packet) (st : List AddrPort × List Found)
    → IsTracked st
    → IsTracked (on_reply src m st)
      × ((a : AddrPort)
          → any_by (addr_port_eq a) (on_reply src m st).0
            ≡ any_by (addr_port_eq a) st.0 || replies a src m)
unfolding on_reply
on_reply-IsTracked src (err e) st h = (h, λ a. ground arith)
on_reply-IsTracked src (ok p) st h = elim (Bool-cases (text_eq p.kind type_reply)) [
  | inr other ↦ rw (other, on_reply) (h, λ a. ground arith)
  | inl e ↦
      rw (e, on_reply)
        (
          add_reply-IsTracked (reply_addr src p) p st h,
          λ a. unfold seen_after in add_reply_seen (reply_addr src p) p st a,
        )
]

pub collect_count :
    (c : PacketCodec) (ds : List (Text × AddrPort)) (st : List AddrPort × List Found)
    → IsTracked st
    → (a : AddrPort)
    → count_by (is_at a) (collect c ds st).1
      ≡ once_if (any_by (addr_port_eq a) st.0 || any_by (replies_from c a) ds)
unfolding collect
collect_count c [] st h a = h a ∙ ap once_if (ground arith)
collect_count c ((b, src) ∷ ds) st h a =
    let m = decode c (take (max_packet_size + 1) b) in
    let (tracked, seen) = on_reply-IsTracked src m st h in
    collect_count c ds (on_reply src m st) tracked a
    ∙ ap once_if (ap (λ x. x || any_by (replies_from c a) ds) (seen a) ∙ ground arith)
