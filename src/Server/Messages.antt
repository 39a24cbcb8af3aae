-- ===== src/Server/Messages.antt =====
-- internal/server/messages.go and internal/server/inbox.go: text messages.
pub mod Delivered
use lanxfer.Base.{
  ℕ, ◌^◌, ◌≡◌, refl, Bool, true, false, not, ◌&&◌, ◌||◌, List, [], ◌∷◌, ◌++◌, Option, none, some,
  Text, ◌==◌, length, if◌then◌else◌, Result, ok, err,
}
use lanxfer.Netaddr.{Addr, unmap}
use lanxfer.History.{Entry, AppendError, blank, append, dir_in, kind_text, status_ok, version}
use lanxfer.Server.Terminal.{format_message}
use lanxfer.Server.Requests.{
  Config, Env, World, Request, Response, only, Limited, limit_read, SenderInfo, sender_of, notify,
  observe_sender,
}

abbrev pub max_message_size : ℕ
max_message_size = 2 ^ 20

unfoldable pub message_entry : Env → Text → Text → Addr → Text → Entry
message_entry env from from_id addr text = record blank {
  time = env.now;
  dir = dir_in;
  kind = kind_text;
  text = text;
  peer_id = from_id;
  peer_name = from;
  peer_addr = env.net.show addr;
  status = status_ok;
}

-- `store` by the answer of the recorder: a message that was not recorded is not shown.
unfoldable pub shown : Text → World → Result AppendError (Unit {0}) × Text → Bool × World
shown block w (err e, file) = (false, record w { history = file })
shown block w (ok _, file) = (true, record w { history = file; printed = w.printed ++ block ∷ [] })

unfoldable pub store : Bool → Env → Entry → Text → World → Bool × World
store true env e block w = shown block w (append env.codec env.history_fs env.now e w.history)
store false env e block w = (true, record w { printed = w.printed ++ block ∷ [] })

unfoldable pub told : Config → Entry → Bool × World → Bool × World
told cfg e (false, w) = (false, w)
told cfg e (true, w) = (true, notify cfg.has_notify e w)

unfoldable pub deliver : Config → Env → Text → Text → Addr → Text → World → Bool × World
deliver cfg env from from_id addr text w =
    let e = message_entry env from from_id addr text in
    told cfg e (
      store cfg.inbox_records env e
        (format_message (env.show_time env.now) from (env.net.show addr) text) w)

unfoldable pub answered : Config → SenderInfo → Bool × World → Response × World
answered cfg snd (false, w) = (only 500, w)
answered cfg snd (true, w) = (only 204, observe_sender cfg snd w)

-- `utf8.Valid` is an argument.
unfoldable pub handle_text :
    (Text → Bool) → Config → Env → Request → Limited → World → Response × World
handle_text utf8_valid cfg env r got w =
    if not got.complete
    then (only (if got.over then 413 else 400), w)
    else if length got.bytes == 0
    then (only 400, w)
    else if not (utf8_valid got.bytes)
    then (only 400, w)
    else elim (env.net.parse_addr_port r.remote_addr) [
      | none ↦ (only 500, w)
      | some remote ↦
          let snd = sender_of env.net r in
          answered cfg snd (deliver cfg env snd.name snd.id (unmap remote.addr) got.bytes w)
    ]

unfoldable pub handle_message : (Text → Bool) → Config → Env → Request → World → Response × World
handle_message utf8_valid cfg env r w =
    handle_text utf8_valid cfg env r (limit_read max_message_size r.body r.body_ok) w
