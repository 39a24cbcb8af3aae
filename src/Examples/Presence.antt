-- ===== src/Examples/Presence.antt =====
-- The list of peers at concrete inputs.
use lanxfer.Base.{◌*◌, true, false, [], ◌∷◌, codes}
use lanxfer.Unicode.{ascii}
use lanxfer.Netaddr.{AddrPort, v4}
use lanxfer.Presence.{Peer, Peers, Sighting, load, offline_after}
use lanxfer.Presence.Consistent.{IsConsistent, sighted, ticked, run, run-load-IsConsistent}

abbrev pub laptop_addr : AddrPort
laptop_addr = record { addr = v4 3232235777; port = 8425 }

abbrev pub laptop : Peer
laptop = record {
  id = codes "0123456789abcdef0123456789abcdef";
  name = codes "laptop";
  os = codes "darwin";
  addr = laptop_addr;
  last_seen = 1000;
  online = true;
}

abbrev legacy : Peer
legacy = record laptop { id = []; last_seen = 2000; online = false }

abbrev peers : Peers
peers = (codes "id:0123456789abcdef0123456789abcdef", laptop) ∷ (codes "name:desk", legacy) ∷ []

abbrev announce : Sighting
announce = record {
  id = codes "0123456789abcdef0123456789abcdef";
  name = codes "laptop";
  os = codes "darwin";
  addr = laptop_addr;
}

abbrev request : Sighting
request = record announce { addr = record { addr = v4 3232235778; port = 0 } }

run-load-IsConsistent_example : IsConsistent ascii (
    run ascii
      (load ascii (laptop ∷ legacy ∷ []))
      (sighted request 5 ∷ ticked (2 * offline_after) ∷ []))
run-load-IsConsistent_example =
    run-load-IsConsistent ascii (laptop ∷ legacy ∷ [])
      (sighted request 5 ∷ ticked (2 * offline_after) ∷ [])
