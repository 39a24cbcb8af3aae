-- ===== src/Transfer/Queue/Unsent/Steps.antt =====
-- An item that was cancelled early, over one step of a worker.
use lanxfer.Base.{
  ℕ, zero, suc, ◌+◌, ◌^◌, ◌≤◌, ◌<◌, ◌≡◌, sym, subst, ◌∙◌, inl, inr, Bool, true, false, List, [],
  ◌∷◌, Option, some, Text, if◌then◌else◌, arith, Bool-cases, length, text_eq, text_eq_iff, lookup,
  insert, All, lookup-insert,
}
use lanxfer.Transfer.Queue.{
  Os, Manager, Slot, Job, make_id, next_seq, add_item, queued_slot, queue_paths,
}
use lanxfer.Transfer.Queue.Issued.{make_id-injective}
use lanxfer.Transfer.Queue.Worker.{
  Stage, resting, running, scanning, aiming, sending, ending, settling, recording, Worker,
  report_stage, progress_job, report_finished,
}
use lanxfer.Transfer.Queue.Run.{turn}
use lanxfer.History.{Entry}
use lanxfer.Transfer.Queue.Accounted.{IsAccounted, AreAccounted}
use lanxfer.Transfer.Queue.Accounted.Counts.{pending, pending_of}
use lanxfer.Transfer.Queue.Cancelled.Queued.{numbering}
use lanxfer.Transfer.Queue.Spared.{IsCancelled, IsSparedAt, IsSpared, HasMark, IsMarked, Kept}

-- `id` was given out before.
abbrev pub IsOld : Text → ℕ × Text → Type 0
IsOld id (seq, prefix) = (n : ℕ) × (id ≡ make_id prefix n) × (n ≤ seq)

abbrev pub AreSpared : Text → List Worker → Type 0
AreSpared id ws = All (λ w. IsSpared id w.stage w) ws

module _ (id : Text) where
  abbrev pub Spares : (Worker → Manager → Worker × Manager) → Type 0
  Spares f =
      (more : Text → ℕ) (w : Worker) (m : Manager)
      → IsAccounted more w.stage w.left m
      → IsSpared id w.stage w
      → IsMarked id m
      → Kept id (f w m)

  pub turn_spared :
      (f : Worker → Manager → Worker × Manager)
      → Spares f
      → (more : Text → ℕ) (i : ℕ) (ws : List Worker) (m : Manager) → AreAccounted more ws m
      → AreSpared id ws
      → IsMarked id m
      → AreSpared id (turn f i ws m).0 × IsMarked id (turn f i ws m).1
  unfolding turn
  turn_spared f k more i [] m acc h mark = (tt, mark)
  turn_spared f k more zero (w ∷ ws) m acc h mark =
      let own : IsAccounted (λ j. pending j ws + more j) w.stage w.left m = record {
        accounts = λ j. omega (arith, acc.accounts j);
        fresh = acc.fresh;
      } in
      let (spared, marked) = k (λ j. pending j ws + more j) w m own h.0 mark in
      ((spared, h.1), marked)
  turn_spared f k more (suc i) (w ∷ ws) m acc h mark =
      let others : AreAccounted (λ j. pending_of j w.stage w.left + more j) ws m = record {
        accounts = λ j. omega (arith, acc.accounts j);
        fresh = acc.fresh;
      } in
      let (spared, marked) =
        turn_spared f k (λ j. pending_of j w.stage w.left + more j) i ws m others h.1 mark in
      ((h.0, spared), marked)

  added_mark :
      (b : Bool) (o : Option Slot)
      → b ≡ false
      → HasMark o
      → HasMark (if b then some queued_slot else o)
  added_mark true o e h = cc
  added_mark false o e h = h

  new_other :
      (prefix : Text) (seq : ℕ)
      → IsOld id (seq, prefix)
      → text_eq (make_id prefix (seq + 1)) id ≡ false
  new_other prefix seq (n, same, le) = elim (Bool-cases (text_eq (make_id prefix (seq + 1)) id)) [
    | inl e ↦
        absurd
          (omega (arith, make_id-injective prefix (seq + 1) n ((text_eq_iff _ id).0 e ∙ same), le))
    | inr e ↦ e
  ]

  pub queue_paths-kept :
      (os : Os) (paths : List Text) (m : Manager)
      → m.seq + length paths < 2 ^ 64
      → IsOld id (numbering m)
      → IsMarked id m
      → let m' = (queue_paths os paths m).1 in IsOld id (numbering m') × IsMarked id m'
  unfolding queue_paths add_item
  queue_paths-kept os [] m r old k = (old, k)
  queue_paths-kept os (path ∷ paths) m r old k =
      let seq : next_seq m ≡ m.seq + 1 = unfold next_seq in omega (arith, r) in
      let new_id = make_id m.prefix (m.seq + 1) in
      let (n, same, le) = old in
      let rest =
        queue_paths-kept os paths
          (record m { seq = m.seq + 1; items = insert new_id queued_slot m.items })
          (omega (arith, r)) (n, same, omega (arith, le))
          (subst HasMark (sym (lookup-insert new_id id queued_slot m.items)) (
            added_mark (text_eq new_id id) (lookup id m.items) (new_other m.prefix m.seq old) k)) in
      rw seq rest

  pub report_stage_spared :
      (sent now : ℕ) (st : Stage) → IsSparedAt id st → IsSparedAt id (report_stage sent now st)
  unfolding report_stage progress_job
  report_stage_spared sent now resting h = tt
  report_stage_spared sent now (running job) h = h
  report_stage_spared sent now (scanning job info) h = h
  report_stage_spared sent now (aiming job info plan) h = h
  report_stage_spared sent now (sending job info plan tg) h = h
  report_stage_spared sent now (ending job o) h = h
  report_stage_spared sent now (settling job e) h = h
  report_stage_spared sent now (recording job e) h = h

  pub report_finished_spared :
      (j : Text) (sent now : ℕ) (ds : List (Job × Entry))
      → All (λ (d : Job × Entry). IsCancelled id d.0 d.1) ds
      → All (λ (d : Job × Entry). IsCancelled id d.0 d.1) (report_finished j sent now ds)
  unfolding report_finished
  report_finished_spared j sent now [] h = tt
  report_finished_spared j sent now ((job, e) ∷ ds) h =
      (h.0, report_finished_spared j sent now ds h.1)
