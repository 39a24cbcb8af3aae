-- ===== src/Transfer/Queue/Promised.antt =====
-- What `SendPaths` promises, for every order of the steps that follow it.
use lanxfer.Base.{
  ℕ, suc, ◌+◌, ◌*◌, ◌≤◌, ◌≡◌, refl, ap, sym, subst, ◌∙◌, Bool, true, false, List, [], ◌∷◌, ◌++◌,
  Text, if◌then◌else◌, All, append-nil, arith, length,
}
use lanxfer.Presence.{Peer}
use lanxfer.History.{Entry}
use lanxfer.Transfer.Queue.{
  Os, Manager, Job, ids_of, send_paths, queue_paths, queued_job, queued_update,
}
use lanxfer.Transfer.Queue.Worker.{
  Callbacks, Stage, resting, running, scanning, aiming, sending, ending, settling, recording,
  Worker, new_worker,
}
use lanxfer.Transfer.Queue.Run.{System, Step, queueing, with_worker, step, run}
use lanxfer.Transfer.Queue.Orderly.Shape.{
  Sub, IsOrderly, IsFinished, IsOpenJob, done_ids, entries_of, record_calls, none_of,
}
use lanxfer.Transfer.Queue.Turns.{At, At-map, At-length}
use lanxfer.Transfer.Queue.Work.{stage_work}
use lanxfer.Transfer.Queue.Reports.{Within}
use lanxfer.Transfer.Queue.Within.{turns_of, run-Within}

queue_paths-IsOpenJob :
    (os : Os) (paths : List Text) (m : Manager) → All IsOpenJob (queue_paths os paths m).0
unfolding queue_paths queued_job queued_update
queue_paths-IsOpenJob os [] m = tt
queue_paths-IsOpenJob os (path ∷ paths) m = (
  record { going = refl; base_open = refl; all_open = (refl, tt) },
  queue_paths-IsOpenJob os paths _,
)

length-queue_paths :
    (os : Os) (paths : List Text) (m : Manager) → length (queue_paths os paths m).0 ≡ length paths
unfolding queue_paths
length-queue_paths os [] m = refl
length-queue_paths os (path ∷ paths) m = ap suc (length-queue_paths os paths _)

recorded_none : (b : Bool) → ◌≡◌ {A = List Entry} [] (if b then [] else [])
recorded_none true = refl
recorded_none false = refl

new_worker-Within :
    (cb : Callbacks) (p : Peer) (jobs : List Job)
    → All IsOpenJob jobs
    → Within cb (ids_of jobs) (8 * length jobs) (new_worker p jobs)
unfolding new_worker
new_worker-Within cb p jobs h = record {
  orderly = record {
    same_ids = refl;
    recorded = recorded_none cb.has_record;
    ended = tt;
    current_open = tt;
    left_open = h;
    in_order = none_of;
  };
  near = omega arith;
}

-- What one `SendPaths` call did, seen from its worker.
pub record Promise (cb : Callbacks) (ids : List Text) (w : Worker) : Type 0 where
  pub same_ids : done_ids w.finished ≡ ids
  pub recorded : record_calls w.notes ≡ (if cb.has_record then entries_of w.finished else [])
  pub ended : All IsFinished w.finished
  pub in_order : Sub w.sent ids

settled :
    (ids : List Text) (cb : Callbacks) (st : Stage) (left : List Job) (w : Worker)
    → 8 * length left + stage_work st ≤ 0
    → IsOrderly cb ids st (record w { left = left })
    → Promise cb ids w
settled ids cb resting [] w z h = record {
  same_ids = sym (append-nil (done_ids w.finished)) ∙ h.same_ids;
  recorded = h.recorded;
  ended = h.ended;
  in_order = subst (Sub w.sent) h.same_ids h.in_order;
}
settled ids cb st (job ∷ left) w z h = absurd (omega (arith, z))
settled ids cb (running job) left w z h = absurd (omega (arith, z))
settled ids cb (scanning job info) left w z h = absurd (omega (arith, z))
settled ids cb (aiming job info plan) left w z h = absurd (omega (arith, z))
settled ids cb (sending job info plan tg) left w z h = absurd (omega (arith, z))
settled ids cb (ending job o) left w z h = absurd (omega (arith, z))
settled ids cb (settling job e) left w z h = absurd (omega (arith, z))
settled ids cb (recording job e) left w z h = absurd (omega (arith, z))

module _ (os : Os) (cb : Callbacks) (s : System) (p : Peer) (paths : List Text) where
  abbrev returned_ids : List Text
  returned_ids = ids_of (queue_paths os paths s.manager).0

  queueing-workers :
      s.manager.closed ≡ false
      → (step os cb (queueing p paths) s).workers
        ≡ s.workers ++ new_worker p (queue_paths os paths s.manager).0 ∷ []
  unfolding step send_paths with_worker
  queueing-workers fresh = ground (arith, fresh)

  started :
      s.manager.closed ≡ false
      → At
          (length s.workers)
          (Within cb returned_ids (8 * length paths))
          (step os cb (queueing p paths) s).workers
  started fresh =
      let jobs = (queue_paths os paths s.manager).0 in
      let begun = new_worker-Within cb p jobs (queue_paths-IsOpenJob os paths s.manager) in
      rw (queueing-workers fresh) (
        At-length (Within cb returned_ids (8 * length paths)) s.workers (new_worker p jobs) (
          subst (λ k. Within cb returned_ids (8 * k) (new_worker p jobs))
            (length-queue_paths os paths s.manager) begun))

  within :
      (xs : List Step) (n : ℕ)
      → s.manager.closed ≡ false
      → 8 * length paths ≤ turns_of (length s.workers) xs + n
      → At
          (length s.workers)
          (Within cb returned_ids n)
          (run os cb (queueing p paths ∷ xs) s).workers
  unfolding run
  within xs n fresh enough =
      let i = length s.workers in
      run-Within os cb returned_ids i xs n (step os cb (queueing p paths) s) (
        At-map (Within cb returned_ids (8 * length paths))
          (Within cb returned_ids (turns_of i xs + n))
          (λ w h. record { orderly = h.orderly; near = omega (arith, h.near, enough) }) i
          (step os cb (queueing p paths) s).workers (started fresh))

  -- At any moment after a `SendPaths` call, whatever steps were taken: the finished items, the one in
  -- progress and those left are the IDs returned, in their order; those sent are sent in that order;
  -- every finished item was recorded once, if there is a callback for it, and its updates ended with
  -- one that is done and has the entry's outcome.
  pub run-IsOrderly :
      (xs : List Step)
      → s.manager.closed ≡ false
      → At
          (length s.workers)
          (λ w. IsOrderly cb returned_ids w.stage w)
          (run os cb (queueing p paths ∷ xs) s).workers
  run-IsOrderly xs fresh =
      At-map (Within cb returned_ids (8 * length paths)) _ (λ w h. h.orderly) (length s.workers) _
        (within xs (8 * length paths) fresh (omega arith))

  -- Once the worker of a `SendPaths` call on n paths has had 8 n turns, among any other steps and with
  -- any answers of the file system and the network, every item is finished, in the order of the IDs
  -- returned; each was recorded exactly once, if there is a callback for it; the updates of each ended
  -- with exactly one that is done and has its entry's outcome; and items were sent in this order.
  pub run-Promise :
      (xs : List Step)
      → s.manager.closed ≡ false
      → 8 * length paths ≤ turns_of (length s.workers) xs
      → At
          (length s.workers)
          (Promise cb returned_ids)
          (run os cb (queueing p paths ∷ xs) s).workers
  run-Promise xs fresh enough =
      At-map (Within cb returned_ids 0) (Promise cb returned_ids)
        (λ w h. settled returned_ids cb w.stage w.left w h.near h.orderly) (length s.workers) _
        (within xs 0 fresh (omega (arith, enough)))
