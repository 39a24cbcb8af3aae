-- ===== src/Examples/Resolve.antt =====
-- cmd/lanxfer/send.go: a name that the list of this machine's receiver has.
use lanxfer.Base.{true, false, [], ◌∷◌, some, codes, ok, err}
use lanxfer.Unicode.{ascii}
use lanxfer.Client.Send.{Answer}
use lanxfer.Discovery.Search.{no_network}
use lanxfer.Resolve.{Network, resolve_target}
use lanxfer.Resolve.Resolved.{Question, listed, Resolved, resolve_target-Resolved}
use lanxfer.Examples.Server.{home}
use lanxfer.Examples.Presence.{laptop}

abbrev quiet_network : Network
quiet_network = record {
  query = λ a. ok [];
  is_cancelled = false;
  broadcast = err no_network;
  discovered = err no_network;
}

abbrev own_receiver : Answer
own_receiver = record {
  status = 200;
  id = codes "0123456789abcdef0123456789abcdef";
  body = codes "[]";
}

abbrev to_laptop : Question
to_laptop = record {
  net = home;
  show = λ a. codes "192.168.1.2:8425";
  decode = λ s. some (some (laptop ∷ []));
  unicode = ascii;
  self_id = codes "0123456789abcdef0123456789abcdef";
  local = some (own_receiver, true);
  network = quiet_network;
  name = codes "laptop";
  port = 8425;
}

resolve_target-Resolved_example : Resolved to_laptop (
    resolve_target to_laptop.net.parse_addr ascii
      (codes "laptop")
      8425
      quiet_network
      (listed to_laptop))
resolve_target-Resolved_example = resolve_target-Resolved to_laptop
