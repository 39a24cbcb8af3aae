-- ===== src/Client/Record/Once.antt =====
-- The entry of a send is appended once.
use lanxfer.Base.{ℕ, ◌≡◌, ◌⊎◌, Bool, true, Option, none, some, Text, Result}
use lanxfer.History.{Entry, append}
use lanxfer.Server.Requests.{Config, Env, World, Request, Response, post_history}
use lanxfer.Server.Extract.{Stream}
use lanxfer.Server.Handler.{dispatch}
use lanxfer.Client.Record.{RecordError, record_answer, record_sent, local_request}

-- The file after a call is the file after one append of the entry.
abbrev pub AppendedOnce : Env → Entry → Text → Text × Bool → Type 0
AppendedOnce env e file after = after.0 ≡ (append env.codec env.history_fs env.now e file).1

-- What listens on the port of the receiver: nothing that the request reaches, a receiver with no
-- such route, or a receiver of this version.
pub data Machine : Type 0 where
  silent : Machine
  older : ℕ → Machine
  receiver : Config → World → Machine

-- net/http's router answers with 404 or 405 where there is no such route.
abbrev pub HasNoRoute : Machine → Type 0
HasNoRoute silent = Unit
HasNoRoute (older status) = (status ≡ 404) ⊎ (status ≡ 405)
HasNoRoute (receiver cfg w) = Unit

-- The receiver has a history and the device ID of the command line.
abbrev pub IsOwn : Text → Config → Type 0
IsOwn self_id cfg = (cfg.has_history ≡ true) × (self_id ≡ cfg.device_id)

-- The receiver of this machine has this user's history file exactly if it is the user's own; else the
-- command line appends to `mine`, the file of its own user.
abbrev pub RecordOutcome :
    Env → Entry → Text → Text → Result RecordError (Unit {0}) → Machine → World → Type 0
RecordOutcome env e self_id mine answer silent w' =
    AppendedOnce env e mine (record_sent true env.codec env.history_fs env.now e answer mine)
RecordOutcome env e self_id mine answer (older status) w' =
    AppendedOnce env e mine (record_sent true env.codec env.history_fs env.now e answer mine)
RecordOutcome env e self_id mine answer (receiver cfg w) w' =
    IsOwn self_id cfg
      × AppendedOnce env e w.history
          (record_sent true env.codec env.history_fs env.now e answer w'.history)
    ⊎ (IsOwn self_id cfg → ⊥)
      × (w' ≡ w)
      × AppendedOnce env e mine (record_sent true env.codec env.history_fs env.now e answer mine)

-- What the router of the receiver does with the request.
abbrev pub routed : (Text → Bool) → Text → Config → Env → World → Request → Response × World
routed utf8_valid peers_json cfg env w r = dispatch utf8_valid peers_json post_history cfg env r w

module _ (cfg : Config) (env : Env) (e : Entry) (w : World) (mine : Text)
    (remote host self_id : Text) (no_stream : Stream) (body : Text) where
  abbrev sent : Request
  sent = local_request remote host self_id no_stream body

  abbrev Recorded : Response × World → Type 0
  Recorded (response, w') =
      RecordOutcome env e self_id mine (record_answer (some response.status)) (receiver cfg w) w'

module _ (utf8_valid : Text → Bool) (peers_json : Text) (env : Env) (remote host self_id : Text)
    (no_stream : Stream) where
  -- What LocalRecord gets for an answer.
  abbrev pub exchange : Machine → Text → Option ℕ
  exchange silent b = none
  exchange (older status) b = some status
  exchange (receiver cfg w) b =
      some
        (routed utf8_valid peers_json cfg env w
          (local_request remote host self_id no_stream b)).0.status

  -- What the receiver is left with.
  abbrev pub world_after : Text → Machine → World → World
  world_after body silent w0 = w0
  world_after body (older status) w0 = w0
  world_after body (receiver cfg w) w0 =
      (routed utf8_valid peers_json cfg env w (local_request remote host self_id no_stream body)).1

module _ (utf8_valid : Text → Bool) (peers_json : Text) (env : Env) (e : Entry) (mine : Text)
    (remote host self_id : Text) (no_stream : Stream) (body : Text) where
  abbrev sent_body : Request
  sent_body = local_request remote host self_id no_stream body
