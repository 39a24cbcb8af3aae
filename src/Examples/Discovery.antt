-- ===== src/Examples/Discovery.antt =====
-- internal/discovery/packet.go on one datagram, with a codec that knows one packet.
use lanxfer.Base.{
  ◌≡◌, refl, inl, inr, List, [], ◌∷◌, true, some, Text, codes, arith, ok, err, false,
}
use lanxfer.Discovery.{Packet, PacketCodec, described, encode_described, decode, type_reply}
use lanxfer.Discovery.RoundTrip.{decode-encode_described}
use lanxfer.Netaddr.{AddrPort}
use lanxfer.Discovery.Responder.{Responder, serve}
use lanxfer.Discovery.Responder.Heard.{Served, silence, serve-Served}
use lanxfer.Unicode.{ascii}
use lanxfer.Presence.{Peer}
use lanxfer.Discovery.Search.{Found, deadline, query, no_network}
use lanxfer.Discovery.Search.Collected.{SearchOutcome, query-SearchOutcome}
use lanxfer.Target.{locate}
use lanxfer.Target.Located.{LocateOutcome, locate-LocateOutcome}
use lanxfer.Examples.Server.{home, laptop}

abbrev reply : Packet
reply = record {
  lanxfer_version = 1;
  kind = type_reply;
  name = codes "mac1";
  port = 8300;
  os = codes "darwin";
  id = [];
}

abbrev datagram : Text
datagram = codes "r"

abbrev one_packet : PacketCodec
one_packet = record { marshal = λ p. some datagram; unmarshal = λ b. some reply }

decode-encode_described_example :
    decode one_packet datagram ≡ ok (described type_reply (codes "mac1") 8300 (codes "darwin") [])
unfolding described encode_described lanxfer.Peername.validate lanxfer.Utf8.runes
    lanxfer.Utf8.is_control lanxfer.Discovery.valid_port lanxfer.Discovery.marshalled
decode-encode_described_example =
    decode-encode_described one_packet type_reply (codes "mac1") 8300 (codes "darwin") [] datagram
      (inr (inl refl)) refl (λ _. refl) (ground arith) (ground arith)

abbrev receiver : Responder
receiver = record {
  self = record { name = codes "box"; port = 8300; id = [] };
  observes = true;
  reply_packet = datagram;
  announce_packet = datagram;
  self_query = datagram;
}

abbrev arrivals : List (Text × AddrPort)
arrivals = (datagram, record { addr = laptop; port = 5000 }) ∷ []

serve-Served_example :
    Served one_packet home
      (λ src. codes "192.168.1.2:5000")
      receiver
      arrivals
      (serve one_packet home (λ src. codes "192.168.1.2:5000") receiver arrivals silence)
serve-Served_example =
    serve-Served one_packet home (λ src. codes "192.168.1.2:5000") receiver arrivals

query-SearchOutcome_example :
    SearchOutcome one_packet true
      (λ t. true)
      arrivals
      deadline
      (record { addr = laptop; port = 8300 } ∷ [])
      (query one_packet true
        (λ t. true)
        false
        arrivals
        deadline
        (record { addr = laptop; port = 8300 } ∷ []))
query-SearchOutcome_example =
    query-SearchOutcome one_packet true (λ t. true) false arrivals deadline
      (record { addr = laptop; port = 8300 } ∷ [])

-- A peer that is offline, and the answer of another machine at its last address.
abbrev studio : Peer
studio = record {
  id = codes "1";
  name = codes "mac1";
  os = [];
  addr = record { addr = laptop; port = 8300 };
  last_seen = 0;
  online = false;
}

abbrev stranger : List Found
stranger =
    record {
      name = codes "mac1";
      addr = record { addr = laptop; port = 8300 };
      os = [];
      id = codes "2";
    }
    ∷ []

locate-LocateOutcome_example :
    LocateOutcome ascii studio stranger false []
      (locate ascii studio (ok stranger) false (err no_network))
unfolding lanxfer.Target.replies_of
locate-LocateOutcome_example =
    locate-LocateOutcome ascii studio (ok stranger) false (err no_network)
