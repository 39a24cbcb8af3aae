-- ===== src/Discovery.antt =====
-- internal/discovery/packet.go: the datagrams. A port below 0 reads as 0, which is as invalid.
pub mod Accepted
pub mod RoundTrip
pub mod Responder
pub mod Search
pub mod Broadcast
use lanxfer.Base.{
  ℕ, ◌≡◌, refl, Bool, true, false, not, ◌&&◌, ◌||◌, List, [], ◌∷◌, Option, none, some, Text, codes,
  ltb, leb, ◌==◌, length, if◌then◌else◌, Result, ok, err, ◌>>=◌, ◌>>◌, refuse_if, text_eq,
}
use lanxfer.Peername.{NameError, validate}
use lanxfer.Identity.{valid}
use lanxfer.Presence.{has_id, is_named}

abbrev pub protocol_version : ℕ
protocol_version = 1

abbrev pub max_packet_size : ℕ
max_packet_size = 1024

abbrev pub max_os_len : ℕ
max_os_len = 32

abbrev pub type_query : Text
type_query = codes "query"

abbrev pub type_reply : Text
type_reply = codes "reply"

abbrev pub type_announce : Text
type_announce = codes "announce"

pub record Packet : Type 0 where
  pub lanxfer_version : ℕ
  pub kind : Text
  pub name : Text
  pub port : ℕ
  pub os : Text
  pub id : Text

pub data PacketError : Type 0 where
  too_long not_json wrong_version bad_fields wrong_type : PacketError

pub data EncodeError : Type 0 where
  bad_name : NameError → EncodeError
  bad_port bad_id not_encoded : EncodeError

-- encoding/json on a packet.
pub record PacketCodec : Type 0 where
  pub marshal : Packet → Option Text
  pub unmarshal : Text → Option Packet

unfoldable pub valid_port : ℕ → Bool
valid_port port = leb 1 port && leb port 65535

unfoldable pub described : Text → Text → ℕ → Text → Text → Packet
described typ name port goos id = record {
  lanxfer_version = protocol_version;
  kind = typ;
  name = name;
  port = port;
  os = goos;
  id = id;
}

unfoldable pub marshalled : PacketCodec → Packet → Result EncodeError Text
marshalled c p = elim (c.marshal p) [ none ↦ err not_encoded | some b ↦ ok b ]

unfoldable pub encode_described :
    PacketCodec → Text → Text → ℕ → Text → Text → Result EncodeError Text
encode_described c typ name port goos id = elim (validate name) [
  | err e ↦ err (bad_name e)
  | ok _ ↦
      if not (valid_port port)
      then err bad_port
      else if has_id id && not (valid id)
      then err bad_id
      else marshalled c (described typ name port goos id)
]

unfoldable pub encode_reply : PacketCodec → Text → ℕ → Text → Text → Result EncodeError Text
encode_reply c = encode_described c type_reply

unfoldable pub encode_announce : PacketCodec → Text → ℕ → Text → Text → Result EncodeError Text
encode_announce c = encode_described c type_announce

unfoldable pub encode_self_query : PacketCodec → Text → ℕ → Text → Text → Result EncodeError Text
encode_self_query c = encode_described c type_query

unfoldable pub describes : Packet → Bool
describes p = is_named p.name && (valid_port p.port && leb (length p.os) max_os_len)

unfoldable pub without_bad_id : Packet → Packet
without_bad_id p = if not (valid p.id) then record p { id = [] } else p

-- The switch on the type.
unfoldable pub check_type : Packet → Result PacketError Packet
check_type p =
    if text_eq p.kind type_query
    then ok (if not (describes p) then record p { name = []; port = 0; os = [] } else p)
    else if text_eq p.kind type_reply || text_eq p.kind type_announce
    then (if not (describes p) then err bad_fields else ok p)
    else err wrong_type

unfoldable pub decode : PacketCodec → Text → Result PacketError Packet
decode c b = if ltb max_packet_size (length b) then err too_long else elim (c.unmarshal b) [
  | none ↦ err not_json
  | some p ↦
      if not (p.lanxfer_version == protocol_version)
      then err wrong_version
      else check_type (without_bad_id p)
]
