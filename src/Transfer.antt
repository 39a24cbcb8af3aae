-- ===== src/Transfer.antt =====
-- internal/transfer: the updates of one item, and the history entries of sends.
pub mod Updates
pub mod Writable
pub mod Progress
pub mod Queue
use lanxfer.Base.{
  ℕ, ◌+◌, ◌-◌, ◌*◌, ◌≡◌, refl, Bool, true, false, List, [], ◌∷◌, ◌++◌, Option, none, some, Text,
  ltb, if◌then◌else◌, text_eq,
}
use lanxfer.Netaddr.{Addr, AddrPort, addr_is_valid}
use lanxfer.Presence.{has_id}
use lanxfer.History.{
  Entry, blank, dir_out, kind_text, kind_file, kind_folder, status_ok, status_failed,
  status_cancelled,
}

-- 100 milliseconds.
abbrev pub progress_interval : ℕ
progress_interval = 100 * 1000000

pub record Update : Type 0 where
  pub id : Text
  pub name : Text
  pub path : Text
  pub folder : Bool
  pub sent : ℕ
  pub total : ℕ
  pub files : ℕ
  pub skipped : ℕ
  pub done : Bool
  pub status : Text
  pub error : Text

-- What `umu` guards, and the updates that `OnUpdate` has received.
pub record Item : Type 0 where
  pub done : Bool
  pub base : Update
  pub sent : ℕ
  pub last : ℕ
  pub shown : List Update

unfoldable pub emit_locked : Update → Item → Item
emit_locked u it = if it.done then it else record it { done = u.done; shown = it.shown ++ u ∷ [] }

unfoldable pub begin : Update → ℕ → Item → Item
begin base now it = emit_locked base (record it { base = base; last = now })

unfoldable pub progress : ℕ → ℕ → Item → Item
progress sent now it =
    if ltb (now - it.last) progress_interval
    then record it { sent = sent }
    else emit_locked (record it.base { sent = sent }) (record it { sent = sent; last = now })

unfoldable pub finish : Entry → Item → Item
finish e it =
    emit_locked
      (record it.base {
        sent = if text_eq e.status status_ok then it.base.total else it.sent;
        done = true;
        status = e.status;
        error = e.error;
      })
      it

-- The parts of target.Target, client.Result and client.DirPlan that an entry takes.
pub record Target : Type 0 where
  pub id : Text
  pub name : Text
  pub addr : AddrPort

pub record Answer : Type 0 where
  pub remote_name : Text
  pub peer_id : Text

pub record Plan : Type 0 where
  pub name : Text
  pub content_size : ℕ
  pub files : ℕ
  pub tar_size : ℕ
  pub skipped : ℕ

-- `Addr.String` is an argument.
unfoldable pub peer_addr : (Addr → Text) → Target → Text
peer_addr show tg = if addr_is_valid tg.addr.addr then show tg.addr.addr else []

unfoldable pub answer_id : Option Answer → Entry → Entry
answer_id none e = e
answer_id (some res) e = if has_id res.peer_id then record e { peer_id = res.peer_id } else e

-- The result of a send: whether the context is done, what the receiver answered, and the error.
unfoldable pub fill_outcome : Bool → Entry → Option Answer → Option Text → Entry
fill_outcome cancelled e none none = record e { status = status_ok }
fill_outcome cancelled e (some res) none = record (answer_id (some res) e) {
  status = status_ok;
  saved_as = res.remote_name;
}
fill_outcome true e res (some message) = record (answer_id res e) {
  status = status_cancelled;
  error = message;
}
fill_outcome false e res (some message) = record (answer_id res e) {
  status = status_failed;
  error = message;
}

unfoldable pub out_entry : (Addr → Text) → Target → Entry
out_entry show tg = record blank {
  dir = dir_out;
  peer_id = tg.id;
  peer_name = tg.name;
  peer_addr = peer_addr show tg;
}

unfoldable pub with_plan : Option Plan → Entry → Entry
with_plan none e = e
with_plan (some plan) e = record e {
  kind = kind_folder;
  name = plan.name;
  size = plan.content_size;
  files = plan.files;
}

unfoldable pub path_entry :
    (Addr → Text)
    → Bool
    → Target
    → Text
    → Text
    → ℕ
    → Option Plan
    → Option Answer
    → Option Text
    → Entry
path_entry show cancelled tg path name size plan res error =
    let e = record (out_entry show tg) {
      kind = kind_file;
      name = name;
      path = path;
      size = size;
    } in
    fill_outcome cancelled (with_plan plan e) res error

unfoldable pub text_entry :
    (Addr → Text) → Bool → Target → Text → Option Answer → Option Text → Entry
text_entry show cancelled tg text res error =
    fill_outcome cancelled (record (out_entry show tg) { kind = kind_text; text = text }) res error
