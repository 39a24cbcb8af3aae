-- ===== src/Discovery/Search.antt =====
-- internal/discovery/discover.go: the answers to a query.
pub mod Order
pub mod Collected
use lanxfer.Base.{
  ℕ, ◌+◌, ◌%◌, ◌^◌, ◌≡◌, refl, Bool, true, false, not, ◌&&◌, ◌||◌, List, [], ◌∷◌, ◌++◌, Option,
  none, some, Text, ltb, ◌==◌, take, any_by, if◌then◌else◌, Result, ok, err, text_eq, text_ltb, map,
}
use lanxfer.Netaddr.{Addr, invalid, v4, v6, AddrPort, unmap, addr_eq, addr_port_eq}
use lanxfer.Discovery.{
  Packet, PacketCodec, PacketError, decode, max_packet_size, type_reply, valid_port,
}

-- `discovery.Peer`
pub record Found : Type 0 where
  pub name : Text
  pub addr : AddrPort
  pub os : Text
  pub id : Text

pub data SearchError : Type 0 where
  no_socket not_sent cancelled read_failed bad_port no_interfaces no_network : SearchError

-- How the reading of replies ends: at the deadline, or earlier.
pub data Ending : Type 0 where
  deadline interrupted broken : Ending

unfoldable pub found_at : AddrPort → Packet → Found
found_at addr p = record { name = p.name; addr = addr; os = p.os; id = p.id }

-- A reply from an address that was not seen yet.
unfoldable pub add_reply :
    AddrPort → Packet → List AddrPort × List Found → List AddrPort × List Found
add_reply addr p (seen, peers) =
    if any_by (addr_port_eq addr) seen
    then (seen, peers)
    else (addr ∷ seen, peers ++ found_at addr p ∷ [])

unfoldable pub on_reply :
    AddrPort → Result PacketError Packet → List AddrPort × List Found → List AddrPort × List Found
on_reply src (err e) state = state
on_reply src (ok p) state =
    if not (text_eq p.kind type_reply)
    then state
    else add_reply (record { addr = unmap src.addr; port = p.port % 2 ^ 16 }) p state

-- The loop over the datagrams.
unfoldable pub collect :
    PacketCodec → List (Text × AddrPort) → List AddrPort × List Found → List AddrPort × List Found
collect c [] state = state
collect c ((b, src) ∷ ds) state =
    collect c ds (on_reply src (decode c (take (max_packet_size + 1) b)) state)

-- `Addr.Compare`: the invalid address first, then IPv4.
unfoldable pub addr_ltb : Addr → Addr → Bool
addr_ltb invalid invalid = false
addr_ltb invalid (v4 b) = true
addr_ltb invalid (v6 b) = true
addr_ltb (v4 a) invalid = false
addr_ltb (v4 a) (v4 b) = ltb a b
addr_ltb (v4 a) (v6 b) = true
addr_ltb (v6 a) invalid = false
addr_ltb (v6 a) (v4 b) = false
addr_ltb (v6 a) (v6 b) = ltb a b

unfoldable pub addr_port_ltb : AddrPort → AddrPort → Bool
addr_port_ltb a b = addr_ltb a.addr b.addr || (addr_eq a.addr b.addr && ltb a.port b.port)

-- By name, then by address.
unfoldable pub found_ltb : Found → Found → Bool
found_ltb a b = text_ltb a.name b.name || (text_eq a.name b.name && addr_port_ltb a.addr b.addr)

unfoldable pub insert_found : Found → List Found → List Found
insert_found p [] = p ∷ []
insert_found p (q ∷ ps) =
    let rest = insert_found p ps in if found_ltb q p then q ∷ rest else p ∷ q ∷ ps

-- `slices.SortFunc`; no two peers compare as equal here, so the order is the only one.
unfoldable pub sort_found : List Found → List Found
sort_found [] = []
sort_found (p ∷ ps) = insert_found p (sort_found ps)

unfoldable pub ended : Ending → List Found → Result SearchError (List Found)
ended deadline peers = ok (sort_found peers)
ended interrupted peers = err cancelled
ended broken peers = err read_failed

-- The number of targets that the query could be sent to.
unfoldable pub send_query : (AddrPort → Bool) → List AddrPort → ℕ
send_query write_ok [] = 0
send_query write_ok (t ∷ ts) =
    let rest = send_query write_ok ts in if write_ok t then 1 + rest else rest

-- `query`: the answers of the sockets are the arguments.
unfoldable pub query :
    PacketCodec
    → Bool
    → (AddrPort → Bool)
    → Bool
    → List (Text × AddrPort)
    → Ending
    → List AddrPort
    → Result SearchError (List Found)
query c socket_ok write_ok is_cancelled ds ending targets =
    if not socket_ok
    then err no_socket
    else if send_query write_ok targets == 0
    then err (if is_cancelled then cancelled else not_sent)
    else ended ending (collect c ds ([], [])).1

-- `Discover` on the broadcast addresses of the attached networks.
unfoldable pub discover :
    (List AddrPort → Result SearchError (List Found))
    → Option (List Addr)
    → ℕ
    → Result SearchError (List Found)
discover ask none port = if not (valid_port port) then err bad_port else err no_interfaces
discover ask (some []) port = if not (valid_port port) then err bad_port else err no_network
discover ask (some (a ∷ addrs)) port =
    if not (valid_port port)
    then err bad_port
    else ask (map (λ x. record { addr = x; port = port % 2 ^ 16 }) (a ∷ addrs))
