-- ===== src/Transfer/Queue/Work.antt =====
-- How many steps a worker has left.
use lanxfer.Base.{
  ℕ, suc, ◌+◌, ◌*◌, ◌≤◌, Bool, true, false, List, [], ◌∷◌, Option, Text, Result, ok, err, arith,
  length,
}
use lanxfer.Presence.{Peer}
use lanxfer.Transfer.Queue.{Os, Manager, Job, start}
use lanxfer.Transfer.Queue.Worker.{
  Info, World, Callbacks, Stage, resting, running, scanning, aiming, sending, ending, settling,
  recording, Worker, examined, examine, scanned, aimed, begin_next, take_next, aim, finish_job,
  answered, advance_from, advance,
}

-- The number of steps that a worker still has to make, at most.
abbrev pub stage_work : Stage → ℕ
stage_work resting = 0
stage_work (running job) = 7
stage_work (scanning job info) = 6
stage_work (aiming job info plan) = 5
stage_work (sending job info plan tg) = 4
stage_work (ending job o) = 3
stage_work (settling job e) = 2
stage_work (recording job e) = 1

abbrev pub work : Worker → ℕ
work w = 8 * length w.left + stage_work w.stage

module _ (os : Os) (cb : Callbacks) (a : World) where
  work-begin_next :
      (w : Worker) (job : Job) (left : List Job) (may_run : Bool)
      → work (begin_next os a w job left may_run) ≤ 8 * length left + 7
  unfolding begin_next
  work-begin_next w job left true = omega arith
  work-begin_next w job left false = omega arith

  work-take_next :
      (w : Worker) (left : List Job) (m : Manager) (n : ℕ)
      → 8 * length left ≤ suc n
      → work (take_next os a (record w { left = left; stage = resting }) left m).0 ≤ n
  unfolding take_next
  work-take_next w [] m n h = omega arith
  work-take_next w (job ∷ left) m n h = omega (
    arith,
    h,
    work-begin_next (record w { left = job ∷ left; stage = resting }) job left (start job.id m).0,
  )

  examined_work :
      (now : ℕ) (job : Job) (info : Info) (d : Bool) → stage_work (examined os now job info d) ≤ 6
  unfolding examined
  examined_work now job info true = omega arith
  examined_work now job info false = omega arith

  examine_work :
      (p : Peer) (now : ℕ) (job : Job) (r : Result Text Info)
      → stage_work (examine os p now job r) ≤ 6
  unfolding examine
  examine_work p now job (err e) = omega arith
  examine_work p now job (ok info) = examined_work now job info info.is_dir

  scanned_work :
      (p : Peer) (now : ℕ) (job : Job) (info : Info) (r : Result Text _)
      → stage_work (scanned os p now job info r) ≤ 5
  unfolding scanned
  scanned_work p now job info (err e) = omega arith
  scanned_work p now job info (ok plan) = omega arith

  aimed_work :
      (p : Peer) (job : Job) (info : Info) (plan : Option _) (r : Result Text _)
      → stage_work (aimed p job info plan r) ≤ 4
  unfolding aimed
  aimed_work p job info plan (ok tg) = omega arith
  aimed_work p job info plan (err e) = omega arith

  work-advance_from :
      (w : Worker) (st : Stage) (m : Manager) (n : ℕ)
      → 8 * length w.left + stage_work st ≤ suc n
      → work (advance_from os cb a (record w { stage = st }) st m).0 ≤ n
  unfolding advance_from answered aim finish_job
  work-advance_from w resting m n h = work-take_next w w.left m n (omega (arith, h))
  work-advance_from w (running job) m n h = omega (arith, h, examine_work w.peer a.now job a.stat)
  work-advance_from w (scanning job info) m n h =
      omega (arith, h, scanned_work w.peer a.now job info a.scan)
  work-advance_from w (aiming job info plan) m n h =
      omega (arith, h, aimed_work w.peer job info plan _)
  work-advance_from w (sending job info plan tg) m n h = omega (arith, h)
  work-advance_from w (ending job o) m n h = omega (arith, h)
  work-advance_from w (settling job e) m n h = omega (arith, h)
  work-advance_from w (recording job e) m n h = omega (arith, h)

  pub work-advance :
      (w : Worker) (m : Manager) (n : ℕ) → work w ≤ suc n → work (advance os cb a w m).0 ≤ n
  unfolding advance
  work-advance w m n h = work-advance_from w w.stage m n h
