-- ===== src/Transfer/Queue/Orderly.antt =====
-- What holds of a worker between its steps: the order of its jobs, and one entry for each.
pub mod Shape
use lanxfer.Base.{
  ℕ, ◌≡◌, refl, ap, sym, subst, ◌∙◌, Bool, true, false, List, [], ◌∷◌, ◌++◌, Option, none, some,
  Text, if◌then◌else◌, Result, ok, err, All, All-append, append-nil, append_assoc, arith,
}
use lanxfer.History.{Entry}
use lanxfer.Transfer.{Item, Plan, Target, begin, finish, Update}
use lanxfer.Transfer.Updates.{
  IsRunning, IsOpen, Ended, begun, report_step, report_step-IsRunning, finish-Ended,
}
use lanxfer.Transfer.Queue.{Os, Manager, Job, ids_of, start}
use lanxfer.Transfer.Queue.Worker.{
  Info, World, Callbacks, Stage, resting, running, scanning, aiming, sending, ending, settling,
  recording, Note, record_called, unrecorded, Worker, begin_job, folder_update, base_update,
  examined, examine, scanned, locate, aimed, sent_now, record_entry, begin_next, take_next, aim,
  finish_job, advance_from, advance,
}
use lanxfer.Transfer.Queue.Orderly.Shape.{
  Sub, done_ids, entries_of, job_of, past_aim, IsOpenJob, IsFinished, IsOrderly, begin-IsRunning,
  not_yet, done_ids-append, entries_of-append, record_calls-append, record_calls-record_entry,
  recorded_more, append_congr, begin_next_lem, Sub-snoc,
}

module _ {cb : Callbacks} {ids : List Text} {w : Worker} where
  -- Another stage of the same job.
  pub restage :
      (st st' : Stage)
      → ids_of (job_of st') ≡ ids_of (job_of st)
      → All IsOpenJob (job_of st')
      → Sub w.sent (done_ids w.finished ++ past_aim st')
      → IsOrderly cb ids st w
      → IsOrderly cb ids st' (record w { stage = st' })
  restage st st' same fresh order h = record {
    same_ids = ap (λ js. done_ids w.finished ++ (js ++ ids_of w.left)) same ∙ h.same_ids;
    recorded = h.recorded;
    ended = h.ended;
    current_open = fresh;
    left_open = h.left_open;
    in_order = order;
  }

  examined_lem :
      (os : Os) (now : ℕ) (job : Job) (info : Info) (is_dir : Bool)
      → IsOrderly cb ids (running job) w
      → let st = examined os now job info is_dir in IsOrderly cb ids st (record w { stage = st })
  unfolding examined begin_job folder_update base_update
  examined_lem os now job info true h =
      restage (running job) (scanning _ info) refl
        (begin-IsRunning _ now job.item refl h.current_open.0, tt) h.in_order h
  examined_lem os now job info false h =
      restage (running job) (aiming _ info none) refl
        (begin-IsRunning _ now job.item refl h.current_open.0, tt) h.in_order h

  examine_lem :
      (os : Os) (now : ℕ) (job : Job) (r : Result Text Info)
      → IsOrderly cb ids (running job) w
      → let st = examine os w.peer now job r in IsOrderly cb ids st (record w { stage = st })
  unfolding examine begin_job folder_update base_update
  examine_lem os now job (err e) h =
      restage (running job) (ending job _) refl h.current_open (not_yet w (job.id ∷ []) h.in_order)
        h
  examine_lem os now job (ok info) h = examined_lem os now job info info.is_dir h

  scanned_lem :
      (os : Os) (now : ℕ) (job : Job) (info : Info) (r : Result Text Plan)
      → IsOrderly cb ids (scanning job info) w
      → let st = scanned os w.peer now job info r in IsOrderly cb ids st (record w { stage = st })
  unfolding scanned begin_job base_update
  scanned_lem os now job info (err e) h =
      restage (scanning job info) (ending job _) refl h.current_open
        (not_yet w (job.id ∷ []) h.in_order) h
  scanned_lem os now job info (ok plan) h =
      restage (scanning job info) (aiming _ info (some plan)) refl
        (begin-IsRunning _ now job.item refl h.current_open.0, tt) h.in_order h

  aim_to :
      (job : Job) (info : Info) (plan : Option Plan) (r : Result Text Target)
      → IsOrderly cb ids (aiming job info plan) w
      → IsOrderly cb ids
          (aimed w.peer job info plan r)
          (record w { stage = aimed w.peer job info plan r; sent = w.sent ++ sent_now job r })
  unfolding aimed sent_now
  aim_to job info plan (ok tg) h = record {
    same_ids = h.same_ids;
    recorded = h.recorded;
    ended = h.ended;
    current_open = h.current_open;
    left_open = h.left_open;
    in_order =
        Sub-snoc job.id w.sent (done_ids w.finished)
          (subst (Sub w.sent) (append-nil (done_ids w.finished)) h.in_order);
  }
  aim_to job info plan (err e) h = record {
    same_ids = h.same_ids;
    recorded = h.recorded;
    ended = h.ended;
    current_open = h.current_open;
    left_open = h.left_open;
    in_order =
        subst (λ xs. Sub xs (done_ids w.finished ++ job.id ∷ [])) (sym (append-nil w.sent))
          (not_yet w (job.id ∷ []) h.in_order);
  }

  aim_lem :
      (a : World) (job : Job) (info : Info) (plan : Option Plan) (cancelled : Bool)
      → IsOrderly cb ids (aiming job info plan) w
      → IsOrderly cb ids (aim a w job info plan cancelled).stage (aim a w job info plan cancelled)
  unfolding aim
  aim_lem a job info plan cancelled h =
      let t = aim_to job info plan (locate cancelled a.found w.loc).0 h in
      record {
        same_ids = t.same_ids;
        recorded = t.recorded;
        ended = t.ended;
        current_open = t.current_open;
        left_open = t.left_open;
        in_order = t.in_order;
      }

  finish_job_lem :
      (a : World) (job : Job) (e : Entry)
      → IsOrderly cb ids (recording job e) w
      → IsOrderly cb ids resting (finish_job cb a w job e)
  unfolding finish_job
  finish_job_lem a job e h =
      let (ended, last) = finish-Ended e job.item h.current_open.0 in
      record {
        same_ids =
            ap (λ ds. ds ++ ids_of w.left) (done_ids-append w.finished (_ ∷ []))
            ∙ append_assoc (done_ids w.finished) (job.id ∷ []) (ids_of w.left)
            ∙ h.same_ids;
        recorded =
            record_calls-append w.notes (record_entry cb a.stored e)
            ∙ append_congr h.recorded (record_calls-record_entry cb a.stored e)
            ∙ recorded_more cb.has_record (entries_of w.finished) e
            ∙ ap (λ es. if cb.has_record then es else [])
                (sym (entries_of-append w.finished (_ ∷ [])));
        ended = All-append IsFinished w.finished _ ((ended, last), tt) h.ended;
        current_open = tt;
        left_open = h.left_open;
        in_order =
            subst (Sub w.sent)
              (sym (
                append-nil
                  (done_ids (w.finished ++ (record job { item = finish e job.item }, e) ∷ []))
                ∙ done_ids-append w.finished (_ ∷ [])))
              h.in_order;
      }

-- A step of a worker, whatever the others do.
module _ (os : Os) (cb : Callbacks) (ids : List Text) (a : World) where
  take_next_lem :
      (w : Worker) (left : List Job) (m : Manager)
      → IsOrderly cb ids resting (record w { left = left; stage = resting })
      → let w' = (take_next os a (record w { left = left; stage = resting }) left m).0 in
        IsOrderly cb ids w'.stage w'
  unfolding take_next
  take_next_lem w [] m h = h
  take_next_lem w (job ∷ left) m h =
      begin_next_lem cb ids (record w { left = job ∷ left; stage = resting }) os a job left
        (start job.id m).0 h

  advance_from_lem :
      (w : Worker) (st : Stage) (m : Manager)
      → IsOrderly cb ids st (record w { stage = st })
      → let w' = (advance_from os cb a (record w { stage = st }) st m).0 in
        IsOrderly cb ids w'.stage w'
  unfolding advance_from
  advance_from_lem w resting m h = take_next_lem w w.left m h
  advance_from_lem w (running job) m h = examine_lem os a.now job a.stat h
  advance_from_lem w (scanning job info) m h = scanned_lem os a.now job info a.scan h
  advance_from_lem w (aiming job info plan) m h = aim_lem a job info plan _ h
  advance_from_lem w (sending job info plan tg) m h =
      restage (sending job info plan tg) (ending job _) refl h.current_open h.in_order h
  advance_from_lem w (ending job o) m h =
      restage (ending job o) (settling job _) refl h.current_open h.in_order h
  advance_from_lem w (settling job e) m h =
      restage (settling job e) (recording job e) refl h.current_open h.in_order h
  advance_from_lem w (recording job e) m h = finish_job_lem a job e h

  pub advance-IsOrderly :
      (w : Worker) (m : Manager)
      → IsOrderly cb ids w.stage w
      → let w' = (advance os cb a w m).0 in IsOrderly cb ids w'.stage w'
  unfolding advance
  advance-IsOrderly w m h = advance_from_lem w w.stage m h
