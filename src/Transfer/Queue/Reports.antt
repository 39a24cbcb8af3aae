-- ===== src/Transfer/Queue/Reports.antt =====
-- Progress callbacks, late ones included, against the order of a worker.
use lanxfer.Base.{
  ℕ, ◌+◌, ◌*◌, ◌≤◌, ◌≡◌, refl, ap, sym, subst, ◌∙◌, Bool, true, false, List, [], ◌∷◌, ◌++◌, Option,
  none, some, Text, if◌then◌else◌, All, length, text_eq,
}
use lanxfer.History.{Entry}
use lanxfer.Transfer.{Item}
use lanxfer.Transfer.Updates.{
  IsRunning, progressed, report_step, report_step-IsRunning, report_step_done, Ended,
}
use lanxfer.Transfer.Queue.{Job, ids_of}
use lanxfer.Transfer.Queue.Worker.{
  Callbacks, Stage, resting, running, scanning, aiming, sending, ending, settling, recording,
  Worker, reading, late_item, progress_item, progress_job, report_finished, report_stage,
}
use lanxfer.Transfer.Queue.Run.{report, report_late}
use lanxfer.Transfer.Queue.Orderly.{restage}
use lanxfer.Transfer.Queue.Orderly.Shape.{
  Sub, IsOrderly, IsFinished, job_of, past_aim, done_ids, entries_of,
}
use lanxfer.Transfer.Queue.Work.{work, stage_work}

-- In order, and at most `n` steps from its end.
pub record Within (cb : Callbacks) (ids : List Text) (n : ℕ) (w : Worker) : Type 0 where
  pub orderly : IsOrderly cb ids w.stage w
  pub near : work w ≤ n

progress_item-IsRunning :
    (sent : Option ℕ) (now : ℕ) (it : Item) → IsRunning it → IsRunning (progress_item sent now it)
unfolding progress_item report_step
progress_item-IsRunning none now it h = h
progress_item-IsRunning (some sent) now it h = report_step-IsRunning (progressed sent now) it tt h

late_item-Ended :
    (b : Bool) (sent now : ℕ) (e : Entry) (it : Item)
    → (it.done ≡ true) × Ended e it.shown
    → ((late_item b sent now it).done ≡ true) × Ended e (late_item b sent now it).shown
unfolding late_item report_step
late_item-Ended false sent now e it h = h
late_item-Ended true sent now e it (d, h) =
    let (same, still) = report_step_done (progressed sent now) it d in
    (still, subst (Ended e) (sym same) h)

report_finished-All :
    (id : Text) (sent now : ℕ) (ds : List (Job × Entry))
    → All IsFinished ds
    → All IsFinished (report_finished id sent now ds)
unfolding report_finished
report_finished-All id sent now [] h = h
report_finished-All id sent now ((job, e) ∷ ds) h = (
  late_item-Ended (text_eq job.id id) sent now e job.item h.0,
  report_finished-All id sent now ds h.1,
)

done_ids-report_finished :
    (id : Text) (sent now : ℕ) (ds : List (Job × Entry))
    → done_ids (report_finished id sent now ds) ≡ done_ids ds
unfolding report_finished
done_ids-report_finished id sent now [] = refl
done_ids-report_finished id sent now ((job, e) ∷ ds) =
    ap (◌∷◌ job.id) (done_ids-report_finished id sent now ds)

entries_of-report_finished :
    (id : Text) (sent now : ℕ) (ds : List (Job × Entry))
    → entries_of (report_finished id sent now ds) ≡ entries_of ds
unfolding report_finished
entries_of-report_finished id sent now [] = refl
entries_of-report_finished id sent now ((job, e) ∷ ds) =
    ap (◌∷◌ e) (entries_of-report_finished id sent now ds)

module _ (cb : Callbacks) (ids : List Text) (sent now : ℕ) where
  report_stage-IsOrderly :
      (st : Stage) (w : Worker)
      → IsOrderly cb ids st w
      → IsOrderly cb ids (report_stage sent now st) (record w { stage = report_stage sent now st })
  unfolding report_stage progress_job
  report_stage-IsOrderly resting w h = restage resting resting refl h.current_open h.in_order h
  report_stage-IsOrderly (running job) w h =
      restage (running job) (running job) refl h.current_open h.in_order h
  report_stage-IsOrderly (scanning job info) w h =
      restage (scanning job info) (scanning job info) refl h.current_open h.in_order h
  report_stage-IsOrderly (aiming job info plan) w h =
      restage (aiming job info plan) (aiming job info plan) refl h.current_open h.in_order h
  report_stage-IsOrderly (sending job info plan tg) w h =
      restage (sending job info plan tg) (sending _ info plan tg) refl
        (progress_item-IsRunning (reading info plan sent) now job.item h.current_open.0, tt)
        h.in_order h
  report_stage-IsOrderly (ending job o) w h =
      restage (ending job o) (ending _ o) refl
        (progress_item-IsRunning (some sent) now job.item h.current_open.0, tt) h.in_order h
  report_stage-IsOrderly (settling job e) w h =
      restage (settling job e) (settling _ e) refl
        (progress_item-IsRunning (some sent) now job.item h.current_open.0, tt) h.in_order h
  report_stage-IsOrderly (recording job e) w h =
      restage (recording job e) (recording _ e) refl
        (progress_item-IsRunning (some sent) now job.item h.current_open.0, tt) h.in_order h

  stage_work-report_stage : (st : Stage) → stage_work (report_stage sent now st) ≡ stage_work st
  unfolding report_stage
  stage_work-report_stage resting = refl
  stage_work-report_stage (running job) = refl
  stage_work-report_stage (scanning job info) = refl
  stage_work-report_stage (aiming job info plan) = refl
  stage_work-report_stage (sending job info plan tg) = refl
  stage_work-report_stage (ending job o) = refl
  stage_work-report_stage (settling job e) = refl
  stage_work-report_stage (recording job e) = refl

  pub report-Within : (n : ℕ) (w : Worker) → Within cb ids n w → Within cb ids n (report sent now w)
  unfolding report
  report-Within n w h = record {
    orderly = report_stage-IsOrderly w.stage w h.orderly;
    near = subst (λ k. 8 * length w.left + k ≤ n) (sym (stage_work-report_stage w.stage)) h.near;
  }

  pub report_late-Within :
      (n : ℕ) (id : Text) (w : Worker)
      → Within cb ids n w
      → Within cb ids n (report_late id sent now w)
  unfolding report_late
  report_late-Within n id w h =
      let same = done_ids-report_finished id sent now w.finished in
      let o = h.orderly in
      record {
        orderly = record {
          same_ids = ap (λ ds. ds ++ (ids_of (job_of w.stage) ++ ids_of w.left)) same ∙ o.same_ids;
          recorded =
              o.recorded
              ∙ ap (λ es. if cb.has_record then es else [])
                  (sym (entries_of-report_finished id sent now w.finished));
          ended = report_finished-All id sent now w.finished o.ended;
          current_open = o.current_open;
          left_open = o.left_open;
          in_order = subst (λ ds. Sub w.sent (ds ++ past_aim w.stage)) (sym same) o.in_order;
        };
        near = h.near;
      }
