-- ===== src/Client/Send.antt =====
-- internal/client: `Send`, `SendDir` and `Say`, with what they share.
pub mod Receiver
pub mod Sent
pub mod SentDir
use lanxfer.Base.{
  ℕ, ◌≡◌, refl, Bool, true, false, not, List, [], Option, none, some, Text, length, take, ◌==◌,
  if◌then◌else◌, Result, ok, err,
}
use lanxfer.Identity.{valid}
use lanxfer.Server.Requests.{Route, put_file, put_dir, post_message}
use lanxfer.Client.{DirPlan}
use lanxfer.Client.Stream.{StreamError}

-- `Result`, without the duration.
pub record SendResult : Type 0 where
  pub remote_name : Text
  pub size : ℕ
  pub peer_id : Text

-- `SendOptions`, without the progress callback, which only reads the counts.
pub record SendOptions : Type 0 where
  pub from : Text
  pub from_id : Text

-- What a request is made of before it is sent; `content_length` is the field of http.Request.
pub record Outgoing : Type 0 where
  pub route : Route
  pub name : Text
  pub content_length : ℕ
  pub from : Text
  pub from_id : Text

-- The response of a receiver: its status, its ID header, and its body.
pub record Answer : Type 0 where
  pub status : ℕ
  pub id : Text
  pub body : Text

pub data SendError : Type 0 where
  stat_failed not_regular open_failed bad_request send_failed dirs_unsupported : SendError
  stream_failed : StreamError → SendError
  answered : ℕ → SendError

-- What the system says of the file at the path.
pub record LocalFile : Type 0 where
  pub stat : Option (Bool × ℕ)
  pub opens : Bool

-- `peerID`
unfoldable pub peer_id : Text → Text
peer_id id = if valid id then id else []

unfoldable pub outgoing : Route → Text → ℕ → SendOptions → Outgoing
outgoing route name size opts = record {
  route = route;
  name = name;
  content_length = size;
  from = opts.from;
  from_id = opts.from_id;
}

-- How the goroutine that writes the stream of a folder ended.
pub data WriteEnd : Type 0 where
  written pipe_closed : WriteEnd
  failed : StreamError → WriteEnd

-- How much of a reply is read.
abbrev pub max_reply : ℕ
max_reply = 4096

-- TrimSpace of strings is an argument.
module _ (trim_space : Text → Text) where
  unfoldable pub send_result : ℕ → Answer → SendResult
  unfolding peer_id
  send_result size a = record {
    remote_name = trim_space (take max_reply a.body);
    size = size;
    peer_id = peer_id a.id;
  }

  unfoldable pub file_answer : ℕ → Option Answer → Result SendError SendResult
  unfolding send_result
  file_answer size none = err send_failed
  file_answer size (some a) =
      if a.status == 201 then ok (send_result size a) else err (answered a.status)

  unfoldable pub dir_answer : ℕ → WriteEnd → Option Answer → Result SendError SendResult
  unfolding send_result
  dir_answer size (failed e) none = err (stream_failed e)
  dir_answer size written none = err send_failed
  dir_answer size pipe_closed none = err send_failed
  dir_answer size end (some a) =
      if a.status == 201
      then ok (send_result size a)
      else if a.status == 404
      then err dirs_unsupported
      else err (answered a.status)

unfoldable pub say_answer : Option Answer → Result SendError SendResult
unfolding peer_id
say_answer none = err send_failed
say_answer (some a) =
    if a.status == 204
    then ok (record { remote_name = []; size = 0; peer_id = peer_id a.id })
    else err (answered a.status)

-- The making of a request, which may be refused, and its exchange for a response are arguments.
module _ (trim_space : Text → Text) (is_valid : Outgoing → Bool)
    (exchange : Outgoing → Option Answer) where
  unfoldable pub send_opened : Bool → Text → SendOptions → Bool → ℕ → Result SendError SendResult
  unfolding file_answer outgoing
  send_opened opens name opts is_regular size =
      let o = outgoing put_file name size opts in
      if not is_regular
      then err not_regular
      else if not opens
      then err open_failed
      else if not (is_valid o)
      then err bad_request
      else file_answer trim_space size (exchange o)

  unfoldable pub send_examined :
      Bool → Text → SendOptions → Option (Bool × ℕ) → Result SendError SendResult
  unfolding send_opened
  send_examined opens name opts none = err stat_failed
  send_examined opens name opts (some (is_regular, size)) =
      send_opened opens name opts is_regular size

  -- `Send`; `name` is the base name of the path.
  unfoldable pub send : LocalFile → Text → SendOptions → Result SendError SendResult
  unfolding send_examined
  send f name opts = send_examined f.opens name opts f.stat

  -- `SendDir`
  unfoldable pub send_dir : DirPlan → WriteEnd → SendOptions → Result SendError SendResult
  unfolding dir_answer outgoing
  send_dir plan end opts =
      let o = outgoing put_dir plan.name plan.tar_size opts in
      if is_valid o then dir_answer trim_space plan.tar_size end (exchange o) else err bad_request

-- `Say`; http.NewRequest sets the length of a text.
unfoldable pub say :
    (Outgoing → Bool)
    → (Outgoing → Option Answer)
    → Text
    → SendOptions
    → Result SendError SendResult
unfolding say_answer outgoing
say is_valid exchange text opts =
    let o = outgoing post_message [] (length text) opts in
    if is_valid o then say_answer (exchange o) else err bad_request
