-- ===== src/Transfer/Queue/Worker.antt =====
-- internal/transfer: the worker of one `SendPaths` call, between the reads and writes it shares with
-- the callers.
use lanxfer.Base.{
  ℕ, ◌+◌, Bool, true, false, not, ◌&&◌, List, [], ◌∷◌, ◌++◌, Option, none, some, Text, codes,
  if◌then◌else◌, min, Result, ok, err, text_eq,
}
use lanxfer.Presence.{Peer}
use lanxfer.History.{Entry, kind_folder}
use lanxfer.Transfer.{Update, Item, Target, Answer, Plan, begin, progress, finish, path_entry}
use lanxfer.Transfer.Progress.{scale_progress}
use lanxfer.Transfer.Queue.{
  Os, abs_path, peer_target, Manager, Job, start, ctx_done, forget, queued_update,
}

pub record Info : Type 0 where
  pub is_dir : Bool
  pub size : ℕ

-- Which callbacks of `Config` are set.
pub record Callbacks : Type 0 where
  pub has_record : Bool
  pub has_unrecorded : Bool

-- What the file system, the network and the callbacks answer in one step.
pub record World : Type 0 where
  pub stat : Result Text Info
  pub scan : Result Text Plan
  pub found : Result Text Target
  pub answer : Option Answer
  pub failure : Option Text
  pub now : ℕ
  pub stored : Bool

-- The arguments of `Entry` but the context, and whether the kind is set after it.
pub record Outcome : Type 0 where
  pub tg : Target
  pub size : ℕ
  pub plan : Option Plan
  pub res : Option Answer
  pub error : Option Text
  pub folder : Bool

-- Where the worker stands with the item whose turn it is.
pub data Stage : Type 0 where
  resting : Stage
  running : Job → Stage
  scanning : Job → Info → Stage
  aiming : Job → Info → Option Plan → Stage
  sending : Job → Info → Option Plan → Target → Stage
  ending : Job → Outcome → Stage
  settling recording : Job → Entry → Stage

pub data Note : Type 0 where
  record_called unrecorded : Entry → Note

-- The worker, with the calls of Locate that it made, the IDs that it sent, its calls of Record and
-- OnUnrecorded, and the jobs that it is done with.
pub record Worker : Type 0 where
  pub peer : Peer
  pub left : List Job
  pub stage : Stage
  pub loc : Option (Result Text Target)
  pub lookups : ℕ
  pub sent : List Text
  pub notes : List Note
  pub finished : List (Job × Entry)

unfoldable pub new_worker : Peer → List Job → Worker
new_worker p jobs = record {
  peer = p;
  left = jobs;
  stage = resting;
  loc = none;
  lookups = 0;
  sent = [];
  notes = [];
  finished = [];
}

-- The error of a cancelled context.
abbrev context_canceled : Text
context_canceled = codes "context canceled"

-- A failed stat leaves the entry.
unfoldable pub stat_kind : Result Text Info → Entry → Entry
stat_kind (err e) entry = entry
stat_kind (ok info) entry =
    if info.is_dir then record entry { kind = kind_folder } else record entry { size = info.size }

unfoldable pub unsent_entry : Os → Peer → Job → Result Text Info → Entry
unfolding stat_kind
unsent_entry os p job stat = stat_kind stat (
    path_entry os.show true (peer_target p) (abs_path os job.path) (os.base_name job.path) 0 none
      none (some context_canceled))

unfoldable pub outcome_entry : Os → Bool → Job → Outcome → Entry
outcome_entry os cancelled job o =
    let e =
      path_entry os.show cancelled o.tg (abs_path os job.path) (os.base_name job.path) o.size o.plan
        o.res o.error in
    if o.folder then record e { kind = kind_folder } else e

-- `m.begin` with an update that has the job's ID and path.
unfoldable pub begin_job : Os → Update → ℕ → Job → Job
unfolding begin queued_update
begin_job os base now job = record job { item = begin base now job.item }

-- What is known of a folder before its scan, of a folder after it, and of a file.
unfoldable pub folder_update : Os → Job → Update
unfolding queued_update
folder_update os job = record (queued_update os job.id job.path) { folder = true }

unfoldable pub base_update : Os → Job → Info → Option Plan → Update
unfolding queued_update
base_update os job info none = record (queued_update os job.id job.path) { total = info.size }
base_update os job info (some plan) = record (queued_update os job.id job.path) {
  name = plan.name;
  folder = true;
  files = plan.files;
  skipped = plan.skipped;
  total = plan.content_size;
}

unfoldable pub examined : Os → ℕ → Job → Info → Bool → Stage
unfolding begin_job
examined os now job info true = scanning (begin_job os (folder_update os job) now job) info
examined os now job info false =
    aiming (begin_job os (base_update os job info none) now job) info none

unfoldable pub examine : Os → Peer → ℕ → Job → Result Text Info → Stage
unfolding examined
examine os p now job (err e) = ending job (record {
  tg = peer_target p;
  size = 0;
  plan = none;
  res = none;
  error = some e;
  folder = false;
})
examine os p now job (ok info) = examined os now job info info.is_dir

unfoldable pub scanned : Os → Peer → ℕ → Job → Info → Result Text Plan → Stage
unfolding begin_job
scanned os p now job info (err e) = ending job (record {
  tg = peer_target p;
  size = 0;
  plan = none;
  res = none;
  error = some e;
  folder = true;
})
scanned os p now job info (ok plan) =
    aiming (begin_job os (base_update os job info (some plan)) now job) info (some plan)

-- The result of `locate`, what it remembers, and how often it asked.
unfoldable pub locate :
    Bool
    → Result Text Target
    → Option (Result Text Target)
    → Result Text Target × Option (Result Text Target) × ℕ
locate cancelled found (some r) = (r, some r, 0)
locate cancelled (ok tg) none = (ok tg, some (ok tg), 1)
locate true (err e) none = (err e, none, 1)
locate false (err e) none = (err e, some (err e), 1)

unfoldable pub aimed : Peer → Job → Info → Option Plan → Result Text Target → Stage
aimed p job info plan (ok tg) = sending job info plan tg
aimed p job info plan (err e) = ending job (record {
  tg = peer_target p;
  size = info.size;
  plan = plan;
  res = none;
  error = some e;
  folder = false;
})

-- The call of `Send` or `SendDir`, if there is one.
unfoldable pub sent_now : Job → Result Text Target → List Text
sent_now job (ok tg) = job.id ∷ []
sent_now job (err e) = []

unfoldable pub answered : Job → Info → Option Plan → Target → Option Answer → Option Text → Stage
answered job info plan tg res error =
    ending job
      (record { tg = tg; size = info.size; plan = plan; res = res; error = error; folder = false })

-- `record`
unfoldable pub record_entry : Callbacks → Bool → Entry → List Note
record_entry cb stored e =
    if not cb.has_record
    then []
    else if not stored && cb.has_unrecorded
    then record_called e ∷ unrecorded e ∷ []
    else record_called e ∷ []

-- `start` on the next item: it runs, or it is ended without being sent.
unfoldable pub begin_next : Os → World → Worker → Job → List Job → Bool → Worker
begin_next os a w job left true = record w { left = left; stage = running job }
begin_next os a w job left false = record w {
  left = left;
  stage = settling job (unsent_entry os w.peer job a.stat);
}

unfoldable pub take_next : Os → World → Worker → List Job → Manager → Worker × Manager
unfolding begin_next start
take_next os a w [] m = (w, m)
take_next os a w (job ∷ left) m =
    let (may_run, m') = start job.id m in (begin_next os a w job left may_run, m')

unfoldable pub aim : World → Worker → Job → Info → Option Plan → Bool → Worker
unfolding locate aimed sent_now
aim a w job info plan cancelled =
    let (r, loc, asked) = locate cancelled a.found w.loc in
    record w {
      stage = aimed w.peer job info plan r;
      loc = loc;
      lookups = w.lookups + asked;
      sent = w.sent ++ sent_now job r;
    }

unfoldable pub finish_job : Callbacks → World → Worker → Job → Entry → Worker
unfolding record_entry finish
finish_job cb a w job e = record w {
  stage = resting;
  notes = w.notes ++ record_entry cb a.stored e;
  finished = w.finished ++ (record job { item = finish e job.item }, e) ∷ [];
}

-- The worker's next step.
unfoldable pub advance_from : Os → Callbacks → World → Worker → Stage → Manager → Worker × Manager
unfolding take_next examine scanned aim answered outcome_entry finish_job
advance_from os cb a w resting m = take_next os a w w.left m
advance_from os cb a w (running job) m =
    (record w { stage = examine os w.peer a.now job a.stat }, m)
advance_from os cb a w (scanning job info) m =
    (record w { stage = scanned os w.peer a.now job info a.scan }, m)
advance_from os cb a w (aiming job info plan) m = (aim a w job info plan (ctx_done job.id m), m)
advance_from os cb a w (sending job info plan tg) m =
    (record w { stage = answered job info plan tg a.answer a.failure }, m)
advance_from os cb a w (ending job o) m =
    (record w { stage = settling job (outcome_entry os (ctx_done job.id m) job o) }, m)
advance_from os cb a w (settling job e) m = (record w { stage = recording job e }, forget job.id m)
advance_from os cb a w (recording job e) m = (finish_job cb a w job e, m)

unfoldable pub advance : Os → Callbacks → World → Worker → Manager → Worker × Manager
unfolding advance_from
advance os cb a w m = advance_from os cb a w w.stage m

-- The progress callbacks of `Send` and `SendDir`.
unfoldable pub reading : Info → Option Plan → ℕ → Option ℕ
unfolding scale_progress
reading info none sent = some (min sent info.size)
reading info (some plan) sent = scale_progress sent plan.tar_size plan.content_size

-- A panic of `scaleProgress` ends the program; nothing is reported.
unfoldable pub progress_item : Option ℕ → ℕ → Item → Item
unfolding progress
progress_item none now it = it
progress_item (some sent) now it = progress sent now it

unfoldable pub progress_job : Option ℕ → ℕ → Job → Job
unfolding progress_item
progress_job sent now job = record job { item = progress_item sent now job.item }

unfoldable pub late_item : Bool → ℕ → ℕ → Item → Item
unfolding progress
late_item false sent now it = it
late_item true sent now it = progress sent now it

unfoldable pub report_finished : Text → ℕ → ℕ → List (Job × Entry) → List (Job × Entry)
unfolding late_item
report_finished id sent now [] = []
report_finished id sent now ((job, e) ∷ ds) =
    (record job { item = late_item (text_eq job.id id) sent now job.item }, e)
    ∷ report_finished id sent now ds

-- The HTTP client may call back after the send returned.
unfoldable pub report_stage : ℕ → ℕ → Stage → Stage
unfolding reading progress_job
report_stage sent now (sending job info plan tg) =
    sending (progress_job (reading info plan sent) now job) info plan tg
report_stage sent now (ending job o) = ending (progress_job (some sent) now job) o
report_stage sent now (settling job e) = settling (progress_job (some sent) now job) e
report_stage sent now (recording job e) = recording (progress_job (some sent) now job) e
report_stage sent now stage = stage
