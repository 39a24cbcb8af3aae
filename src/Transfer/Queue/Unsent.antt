-- ===== src/Transfer/Queue/Unsent.antt =====
-- An item that is cancelled while it is queued is never sent, whatever the steps that follow.
pub mod Steps
use lanxfer.Base.{
  ℕ, zero, suc, ◌+◌, ◌^◌, ◌≤◌, ◌<◌, ◌≡◌, refl, sym, subst, ◌∙◌, inl, inr, Bool, true, false, List,
  [], ◌∷◌, ◌++◌, Option, none, some, Text, if◌then◌else◌, arith, Bool-cases, length, text_eq,
  text_eq_iff, text_eq_refl, lookup, insert, All, All-append, lookup-insert,
}
use lanxfer.Presence.{Peer}
use lanxfer.Transfer.Queue.{
  Os, Manager, Slot, Job, cancel, cancel_slot, make_id, next_seq, add_item, queued_slot,
  queue_paths, send_paths, refuse_more, stop,
}
use lanxfer.Transfer.Queue.Issued.{make_id-injective}
use lanxfer.Transfer.Queue.Worker.{
  Callbacks, Stage, resting, running, scanning, aiming, sending, ending, settling, recording,
  Worker, new_worker, advance, report_stage, progress_job, report_finished,
}
use lanxfer.Transfer.Queue.Run.{
  System, Step, queueing, cancelling, refusing, stopping, advancing, reporting, reporting_late,
  turn, report, report_late, with_worker, step, run, new_system,
}
use lanxfer.History.{Entry}
use lanxfer.Transfer.Queue.Accounted.{IsAccounted, AreAccounted}
use lanxfer.Transfer.Queue.Accounted.Counts.{cancel-IsKept, pending, pending_of}
use lanxfer.Transfer.Queue.Cancelled.{
  IsSound, step-IsSound, reached-IsSound, numbering-turn, numbering-advance_from, send_paths-closed,
  send_paths-open,
}
use lanxfer.Transfer.Queue.Cancelled.Queued.{numbering, paths_in}
use lanxfer.Transfer.Queue.Spared.{
  IsCancelled, IsSparedAt, IsSpared, HasMark, IsMarked, Kept, advance_from_spared, cancel-IsMarked,
}
use lanxfer.Transfer.Queue.Unsent.Steps.{
  IsOld, AreSpared, Spares, turn_spared, queue_paths-kept, report_stage_spared,
  report_finished_spared,
}

-- The state of an item with the mark of `Cancel`.
record Holds (id : Text) (s : System) : Type 0 where
  old : IsOld id (numbering s.manager)
  marked : IsMarked id s.manager
  spared : AreSpared id s.workers

module _ (os : Os) (cb : Callbacks) (id : Text) where
  turned :
      (f : Worker → Manager → Worker × Manager)
      → Spares id f
      → ((w : Worker) (m : Manager) → numbering (f w m).1 ≡ numbering m)
      → (i n : ℕ) (s : System) → IsSound n s.workers s.manager
      → Holds id s
      → let (ws, m) = turn f i s.workers s.manager in
        Holds id (record { manager = m; workers = ws })
  turned f k same i n s sound h =
      let (spared, marked) =
        turn_spared id f k (λ _. 0) i s.workers s.manager sound.accounted h.spared h.marked in
      record {
        old = subst (IsOld id) (sym (numbering-turn f same i s.workers s.manager)) h.old;
        marked = marked;
        spared = spared;
      }

  queued-Holds :
      (p : Peer) (paths : List Text) (n : ℕ) (s : System)
      → IsSound (length paths + n) s.workers s.manager
      → Holds id s
      → let (jobs, m) = send_paths os paths s.manager in
        Holds id (record { manager = m; workers = with_worker p jobs s.workers })
  unfolding with_worker new_worker
  queued-Holds p paths n s sound h =
      let P : Option (List Job) × Manager → Type 0 =
        λ r. Holds id (record { manager = r.1; workers = with_worker p r.0 s.workers }) in
      elim (Bool-cases s.manager.closed) [
        | inl e ↦
            subst P (sym (send_paths-closed os cb paths s.manager e))
              (record { old = h.old; marked = h.marked; spared = h.spared })
        | inr e ↦
            let (old, marked) =
              queue_paths-kept id os paths s.manager (omega (arith, sound.room)) h.old h.marked in
            subst P (sym (send_paths-open os cb paths s.manager e)) (record {
              old = old;
              marked = marked;
              spared =
                  All-append (λ w. IsSpared id w.stage w) s.workers _
                    (record { at_rest = tt; unsent = refl; ended = tt }, tt) h.spared;
            })
      ]

  step-Holds :
      (x : Step) (xs : List Step) (s : System)
      → IsSound (paths_in (x ∷ xs)) s.workers s.manager
      → Holds id s
      → Holds id (step os cb x s)
  unfolding step advance report report_late
  step-Holds (queueing p paths) xs s sound h = queued-Holds p paths (paths_in xs) s sound h
  step-Holds (cancelling j) xs s sound h = record {
    old =
        let k = cancel-IsKept j s.manager in
        subst (IsOld id) (λ i. (sym k.same_seq i, sym k.same_prefix i)) h.old;
    marked = cancel-IsMarked id j s.manager h.marked;
    spared = h.spared;
  }
  step-Holds refusing xs s sound h =
      unfold refuse_more in record { old = h.old; marked = h.marked; spared = h.spared }
  step-Holds stopping xs s sound h =
      unfold stop in record { old = h.old; marked = h.marked; spared = h.spared }
  step-Holds (advancing i a) xs s sound h =
      turned (advance os cb a)
        (λ more w m acc hw k.
          unfold advance in advance_from_spared id more os cb a w w.stage m acc hw k)
        (λ w m. numbering-advance_from os cb a w w.stage m) i (paths_in (advancing i a ∷ xs)) s
        sound h
  step-Holds (reporting i sent now) xs s sound h =
      turned (λ w m. (report sent now w, m))
        (λ more w m acc hw k. (
          record {
            at_rest = report_stage_spared id sent now w.stage hw.at_rest;
            unsent = hw.unsent;
            ended = hw.ended;
          },
          k,
        ))
        (λ w m. refl) i (paths_in xs) s sound h
  step-Holds (reporting_late i j sent now) xs s sound h =
      turned (λ w m. (report_late j sent now w, m))
        (λ more w m acc hw k. (
          record {
            at_rest = hw.at_rest;
            unsent = hw.unsent;
            ended = report_finished_spared id j sent now w.finished hw.ended;
          },
          k,
        ))
        (λ w m. refl) i (paths_in xs) s sound h

  run-Holds :
      (xs : List Step) (s : System)
      → IsSound (paths_in xs) s.workers s.manager
      → Holds id s
      → Holds id (run os cb xs s)
  unfolding run
  run-Holds [] s sound h = h
  run-Holds (x ∷ xs) s sound h =
      run-Holds xs (step os cb x s) (step-IsSound os cb x xs s sound) (step-Holds x xs s sound h)

-- The item was given out, and no worker has taken it: `cancel` is unset.
pub record IsWaiting (id : Text) (s : System) : Type 0 where
  pub issued : IsOld id (numbering s.manager)
  pub slot : Slot
  pub found : lookup id s.manager.items ≡ some slot
  pub not_running : slot.cancel ≡ none
  pub untaken : AreSpared id s.workers

module _ (os : Os) (cb : Callbacks) (id : Text) where
  cancel_slot-queued : (t : Slot) → t.cancel ≡ none → (cancel_slot t).cancel_queued ≡ true
  unfolding cancel_slot
  cancel_slot-queued t e = ground (arith, e)

  cancel-waiting :
      (m : Manager) (t : Slot)
      → lookup id m.items ≡ some t
      → t.cancel ≡ none
      → IsMarked id (cancel id m).1
  unfolding cancel
  cancel-waiting m t e n =
      simp (e, cancel)
        (subst HasMark (sym (lookup-insert id id (cancel_slot t) m.items))
          (marked (text_eq id id) (text_eq_refl id)))
    where
      marked :
          (b : Bool) → b ≡ true → HasMark (if b then some (cancel_slot t) else lookup id m.items)
      marked true h = cancel_slot-queued t n
      marked false h = cc

  -- If `Cancel` is called on an item that was given out and that no worker has taken, then after any
  -- further steps no worker has sent it or is about to, and an entry for it says that it was
  -- cancelled. All steps together queue fewer than 2^64 paths.
  pub run-AreSpared :
      (prefix : Text) (before after : List Step)
      → paths_in (before ++ after) < 2 ^ 64
      → IsWaiting id (run os cb before (new_system prefix))
      → AreSpared id
          (run os cb (cancelling id ∷ after) (run os cb before (new_system prefix))).workers
  unfolding run step
  run-AreSpared prefix before after room waits =
      let s = run os cb before (new_system prefix) in
      let sound = reached-IsSound os cb prefix before after room in
      let k = cancel-IsKept id s.manager in
      let held : Holds id (step os cb (cancelling id) s) = record {
        old = subst (IsOld id) (λ i. (sym k.same_seq i, sym k.same_prefix i)) waits.issued;
        marked = cancel-waiting s.manager waits.slot waits.found waits.not_running;
        spared = waits.untaken;
      } in
      let still : IsSound (paths_in after) s.workers (cancel id s.manager).1 =
        step-IsSound os cb (cancelling id) after s sound in
      (run-Holds os cb id after (step os cb (cancelling id) s) still held).spared
