-- ===== src/Server/Requests.antt =====
-- internal/server/server.go: what the handlers work on, and what they do after a receipt.
pub mod Reports
use lanxfer.Base.{
  ℕ, zero, suc, ◌+◌, ◌-◌, ◌≡◌, refl, Bool, true, false, not, ◌&&◌, ◌||◌, List, [], ◌∷◌, ◌++◌,
  Option, none, some, Text, codes, ltb, ◌==◌, length, take, if◌then◌else◌, Result, ok, err,
}
use lanxfer.Netaddr.{Addr, AddrPort, invalid, unmap, addr_is_valid}
use lanxfer.Netguard.{NetText}
use lanxfer.Unicode.{Unicode}
use lanxfer.Identity.{valid}
use lanxfer.Presence.{Sighting, has_id, is_named}
use lanxfer.History.{Entry, Codec, FileSystem, append, dir_in, status_ok, version}
use lanxfer.Server.Storage.{Dir, System}
use lanxfer.Server.Extract.{Files, Stream}

-- `Server` with the options that were given, and the recorder of its inbox.
pub record Config : Type 0 where
  pub max_size : ℕ
  pub device_id : Text
  pub has_inbox : Bool
  pub inbox_records : Bool
  pub has_history : Bool
  pub has_observe : Bool
  pub has_peers : Bool
  pub has_notify : Bool

-- The answers of the operating system and of the libraries during one request.
pub record Env : Type 0 where
  pub net : NetText
  pub sys : System
  pub fs : Files
  pub unicode : Unicode
  pub goos : Text
  pub codec : Codec
  pub history_fs : FileSystem
  pub now : ℕ
  pub join : Text → Text
  pub show_time : ℕ → Text
  pub peers_encode : Bool

-- The receive folder, the history file, the terminal, and the calls of the two callbacks.
pub record World : Type 0 where
  pub dir : Dir
  pub history : Text
  pub printed : List Text
  pub notices : List Entry
  pub sightings : List Sighting

pub data Route : Type 0 where
  put_file put_dir post_message post_history get_peers unknown : Route

-- A request as net/http hands it over; `none` stands for a Content-Length below 0.
pub record Request : Type 0 where
  pub route : Route
  pub name : Text
  pub remote_addr : Text
  pub host : Text
  pub from : Text
  pub from_id : Text
  pub has_origin : Bool
  pub is_json : Bool
  pub content_length : Option ℕ
  pub body : Text
  pub body_ok : Bool
  pub stream : Stream

pub record Response : Type 0 where
  pub status : ℕ
  pub reply : Text

abbrev pub only : ℕ → Response
only status = record { status = status; reply = [] }

-- What reading through `http.MaxBytesReader` yields: the bytes, whether the body then ended, and
-- whether it was the limit that made it fail.
pub record Limited : Type 0 where
  pub bytes : Text
  pub complete : Bool
  pub over : Bool

unfoldable pub limit_read : ℕ → Text → Bool → Limited
limit_read max body body_ok =
    if ltb max (length body)
    then record { bytes = take max body; complete = false; over = true }
    else record { bytes = body; complete = body_ok; over = false }

pub record SenderInfo : Type 0 where
  pub id : Text
  pub name : Text
  pub ip : Addr

unfoldable pub sender_ip : NetText → Text → Addr
sender_ip net remote = elim (net.parse_addr_port remote) [
  | none ↦ invalid
  | some ap ↦ unmap ap.addr
]

unfoldable pub sender_of : NetText → Request → SenderInfo
sender_of net r = record {
  id = if valid r.from_id then r.from_id else [];
  name = if is_named r.from then r.from else [];
  ip = sender_ip net r.remote_addr;
}

unfoldable pub with_sender : Env → SenderInfo → Entry → Entry
with_sender env snd e = record e {
  peer_id = snd.id;
  peer_name = snd.name;
  peer_addr = if addr_is_valid snd.ip then env.net.show snd.ip else e.peer_addr;
  time = if e.time == 0 then env.now else e.time;
}

unfoldable pub log_entry : Bool → Env → Entry → World → World
log_entry true env e w = record w {
  history = (append env.codec env.history_fs env.now e w.history).1;
}
log_entry false env e w = w

unfoldable pub notify : Bool → Entry → World → World
notify true e w = record w { notices = w.notices ++ record e { v = version } ∷ [] }
notify false e w = w

-- `record` by the two options that are set; a failure to record only logs a warning.
unfoldable pub record_with : Bool → Bool → Env → Entry → World → World
record_with false false env e w = w
record_with has_history has_notify env e w = notify has_notify e (log_entry has_history env e w)

unfoldable pub record_receipt : Config → Env → Entry → SenderInfo → World → World
record_receipt cfg env e snd w =
    record_with cfg.has_history cfg.has_notify env (with_sender env snd e) w

unfoldable pub sight_unless : Bool → SenderInfo → World → World
sight_unless true snd w = w
sight_unless false snd w = record w {
  sightings =
      w.sightings
      ++ record { id = snd.id; name = snd.name; os = []; addr = record { addr = snd.ip; port = 0 } }
        ∷ [];
}

unfoldable pub observe_sender : Config → SenderInfo → World → World
observe_sender cfg snd w =
    sight_unless (not cfg.has_observe || (not (has_id snd.id) || not (addr_is_valid snd.ip))) snd w
