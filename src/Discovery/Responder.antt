-- ===== src/Discovery/Responder.antt =====
-- internal/discovery/responder.go: what a receiver answers and reports.
pub mod Heard
use lanxfer.Base.{
  ℕ, ◌+◌, ◌%◌, ◌^◌, ◌≡◌, refl, Bool, true, false, not, ◌&&◌, ◌||◌, List, [], ◌∷◌, ◌++◌, Option,
  none, some, Text, codes, ◌==◌, take, if◌then◌else◌, Result, ok, err, text_eq,
}
use lanxfer.Netaddr.{Addr, AddrPort, unmap}
use lanxfer.Netguard.{NetText, is_allowed_remote}
use lanxfer.Identity.{valid}
use lanxfer.Presence.{Sighting, has_id}
use lanxfer.Discovery.{
  Packet, PacketCodec, EncodeError, bad_id, encode_reply, encode_announce, encode_self_query,
  decode, max_packet_size, type_query, type_reply, type_announce,
}

pub record Self : Type 0 where
  pub name : Text
  pub port : ℕ
  pub id : Text

-- A responder; `observes` tells whether an observer was given.
pub record Responder : Type 0 where
  pub self : Self
  pub observes : Bool
  pub reply_packet : Text
  pub announce_packet : Text
  pub self_query : Text

pub data ResponderError : Type 0 where
  malformed_id not_listening : ResponderError
  not_encoded : EncodeError → ResponderError

-- The three packets are encoded one after the other.
unfoldable pub encode_all : PacketCodec → Text → Self → Result EncodeError (Text × Text × Text)
encode_all c goos self = elim (encode_reply c self.name self.port goos self.id) [
  | err e ↦ err e
  | ok reply ↦ elim (encode_announce c self.name self.port goos self.id) [
    | err e ↦ err e
    | ok announce ↦ elim (encode_self_query c self.name self.port goos self.id) [
      | err e ↦ err e
      | ok q ↦ ok (reply, announce, q)
    ]
  ]
]

unfoldable pub listening :
    Bool → Self → Bool → Result EncodeError (Text × Text × Text) → Result ResponderError Responder
listening listens self observes (err e) = err (not_encoded e)
listening listens self observes (ok (reply, announce, q)) =
    if not listens
    then err not_listening
    else ok (record {
      self = self;
      observes = observes;
      reply_packet = reply;
      announce_packet = announce;
      self_query = q;
    })

unfoldable pub new_responder :
    PacketCodec → Text → Bool → Self → Bool → Result ResponderError Responder
new_responder c goos listens self observes =
    if has_id self.id && not (valid self.id)
    then err malformed_id
    else listening listens self observes (encode_all c goos self)

-- The datagrams that were sent, and the sightings that were reported.
pub record Traffic : Type 0 where
  pub sent : List (AddrPort × Text)
  pub sightings : List Sighting

-- `uint16` of the port.
unfoldable pub sighted : AddrPort → Packet → Sighting
sighted src p = record {
  id = p.id;
  name = p.name;
  os = p.os;
  addr = record { addr = src.addr; port = p.port % 2 ^ 16 };
}

unfoldable pub report : Responder → AddrPort → Packet → Traffic → Traffic
report r src p t =
    if not r.observes then t else record t { sightings = t.sightings ++ sighted src p ∷ [] }

unfoldable pub answer : Responder → AddrPort → Traffic → Traffic
answer r src t = record t { sent = t.sent ++ (src, r.reply_packet) ∷ [] }

-- The switch on the type of a packet.
unfoldable pub respond : Responder → AddrPort → Packet → Traffic → Traffic
respond r src p t =
    if text_eq p.kind type_query
    then (if has_id p.name then report r src p (answer r src t) else answer r src t)
    else if text_eq p.kind type_announce || text_eq p.kind type_reply
    then report r src p t
    else t

-- A packet that was decoded, with its source.
unfoldable pub on_packet :
    NetText → (AddrPort → Text) → Responder → AddrPort → Packet → Traffic → Traffic
on_packet net show_addr_port r src p t =
    if not (is_allowed_remote net (show_addr_port src))
    then t
    else if has_id r.self.id && text_eq p.id r.self.id
    then t
    else respond r src p t

-- One round of the loop, on a datagram from `src`; the buffer has room for one byte over the limit.
unfoldable pub on_datagram :
    PacketCodec → NetText → (AddrPort → Text) → Responder → Text × AddrPort → Traffic → Traffic
on_datagram c net show_addr_port r (b, src) t = elim (decode c (take (max_packet_size + 1) b)) [
  | err e ↦ t
  | ok p ↦ on_packet net show_addr_port r (record { addr = unmap src.addr; port = src.port }) p t
]

-- `Serve` on the datagrams that arrive until the socket is closed.
unfoldable pub serve :
    PacketCodec
    → NetText
    → (AddrPort → Text)
    → Responder
    → List (Text × AddrPort)
    → Traffic
    → Traffic
serve c net show_addr_port r [] t = t
serve c net show_addr_port r (d ∷ ds) t =
    serve c net show_addr_port r ds (on_datagram c net show_addr_port r d t)

-- One packet to one target: how many were sent, and whether one failed.
unfoldable pub send_to : (AddrPort → Text → Bool) → List (AddrPort × Text) → ℕ
send_to write_ok [] = 0
send_to write_ok ((t, b) ∷ ps) =
    let rest = send_to write_ok ps in if write_ok t b then 1 + rest else rest

-- Both packets to each target, in the order of the targets.
unfoldable pub packets_for : Responder → List AddrPort → List (AddrPort × Text)
packets_for r [] = []
packets_for r (t ∷ ts) = (t, r.announce_packet) ∷ (t, r.self_query) ∷ packets_for r ts

-- It fails only if nothing could be sent.
unfoldable pub broadcast_to :
    (AddrPort → Text → Bool) → Responder → List AddrPort → Result (Unit {0}) (Unit {0})
broadcast_to write_ok r targets =
    if send_to write_ok (packets_for r targets) == 0 then err tt else ok tt
