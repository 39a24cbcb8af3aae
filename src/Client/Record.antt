-- ===== src/Client/Record.antt =====
-- internal/client/local.go and cmd/lanxfer/record.go: the history entry of a send of the command
-- line, which the receiver of the same machine takes, or else the command line itself.
pub mod Once
use lanxfer.Base.{
  ℕ, Bool, true, false, ◌||◌, [], Option, none, some, Text, length, ◌==◌, if◌then◌else◌, Result, ok,
  err,
}
use lanxfer.History.{Entry, Codec, FileSystem, AppendError, append}
use lanxfer.Server.Requests.{Request, post_history}
use lanxfer.Server.Extract.{Stream}

pub data RecordError : Type 0 where
  no_local_receiver encode_failed : RecordError
  answered_with : ℕ → RecordError

-- `LocalRecord` on the status of the answer; `none` is a request that failed.
unfoldable pub record_answer : Option ℕ → Result RecordError (Unit {0})
record_answer none = err no_local_receiver
record_answer (some status) =
    if status == 204
    then ok tt
    else if status == 404 || (status == 405 || status == 409)
    then err no_local_receiver
    else err (answered_with status)

unfoldable pub local_record : Codec → (Text → Option ℕ) → Entry → Result RecordError (Unit {0})
unfolding record_answer
local_record codec exchange e = elim (codec.encode e) [
  | none ↦ err encode_failed
  | some body ↦ record_answer (exchange body)
]

-- The history file of the user, and whether a warning was printed.
unfoldable pub appended_directly : Result AppendError (Unit {0}) × Text → Text × Bool
appended_directly (ok _, file) = (file, false)
appended_directly (err e, file) = (file, true)

-- `appendHistory`; the first argument says that the config folder is there or was made.
unfoldable pub append_history : Bool → Codec → FileSystem → ℕ → Entry → Text → Text × Bool
unfolding appended_directly
append_history has_dir codec fs now e file =
    if has_dir then appended_directly (append codec fs now e file) else (file, true)

-- `recordSent`
unfoldable pub record_sent :
    Bool → Codec → FileSystem → ℕ → Entry → Result RecordError (Unit {0}) → Text → Text × Bool
unfolding append_history
record_sent has_dir codec fs now e (ok _) file = (file, false)
record_sent has_dir codec fs now e (err no_local_receiver) file =
    append_history has_dir codec fs now e file
record_sent has_dir codec fs now e (err encode_failed) file = (file, true)
record_sent has_dir codec fs now e (err (answered_with status)) file = (file, true)

-- The request that LocalRecord sends, as the receiver of this machine gets it.
unfoldable pub local_request : Text → Text → Text → Stream → Text → Request
local_request remote host self_id no_stream body = record {
  route = post_history;
  name = [];
  remote_addr = remote;
  host = host;
  from = [];
  from_id = self_id;
  has_origin = false;
  is_json = true;
  content_length = some (length body);
  body = body;
  body_ok = true;
  stream = no_stream;
}
