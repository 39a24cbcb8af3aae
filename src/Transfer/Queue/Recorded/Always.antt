-- ===== src/Transfer/Queue/Recorded/Always.antt =====
-- What the workers hand to Record, in every run.
use lanxfer.Base.{
  ℕ, zero, suc, ◌≤◌, ◌≡◌, ◌^◌, refl, sym, ap, subst, ◌∙◌, Bool, true, false, List, [], ◌∷◌, ◌++◌,
  Option, none, some, Text, length, if◌then◌else◌, Result, ok, err, All, All-append,
}
use lanxfer.History.{Entry, validate, stamp}
use lanxfer.Presence.{Peer}
use lanxfer.Transfer.{Plan, Target}
use lanxfer.Transfer.Queue.{Os, Manager, Job, start, ctx_done, send_paths}
use lanxfer.Transfer.Queue.Worker.{
  Info, World, Callbacks, Stage, resting, running, scanning, aiming, sending, ending, settling,
  recording, Worker, new_worker, examined, examine, scanned, aimed, record_entry, begin_next,
  take_next, aim, finish_job, answered, advance_from, advance, report_stage,
}
use lanxfer.Transfer.Queue.Run.{
  System, Step, queueing, cancelling, refusing, stopping, advancing, reporting, reporting_late,
  turn, report, report_late, with_worker, step, run, new_system,
}
use lanxfer.Transfer.Queue.Orderly.Shape.{
  record_calls, record_calls-append, record_calls-record_entry,
}
use lanxfer.Transfer.Queue.Texts.{Call, say_to}
use lanxfer.Transfer.Queue.Recorded.{unsent_entry-validate, outcome_entry-validate, said-validate}

-- Append takes the entry at any time.
abbrev pub IsLoggable : Entry → Type 0
IsLoggable e = (now : ℕ) → validate (stamp now e) ≡ ok tt

-- The entry that waits to be recorded.
abbrev held : Stage → List Entry
held (settling job e) = e ∷ []
held (recording job e) = e ∷ []
held _ = []

abbrev IsKept : Stage → Worker → Type 0
IsKept st w = All IsLoggable (held st) × All IsLoggable (record_calls w.notes)

abbrev HasLogged : Worker → Type 0
HasLogged w = IsKept w.stage w

module _ (os : Os) (a : World) where
  held-examined :
      (now : ℕ) (job : Job) (info : Info) (d : Bool) → held (examined os now job info d) ≡ []
  unfolding examined
  held-examined now job info true = refl
  held-examined now job info false = refl

  held-examine :
      (p : Peer) (now : ℕ) (job : Job) (r : Result Text Info) → held (examine os p now job r) ≡ []
  unfolding examine
  held-examine p now job (err e) = refl
  held-examine p now job (ok info) = held-examined now job info info.is_dir

  held-scanned :
      (p : Peer) (now : ℕ) (job : Job) (info : Info) (r : Result Text Plan)
      → held (scanned os p now job info r) ≡ []
  unfolding scanned
  held-scanned p now job info (err e) = refl
  held-scanned p now job info (ok plan) = refl

  held-aimed :
      (p : Peer) (job : Job) (info : Info) (plan : Option Plan) (r : Result Text Target)
      → held (aimed p job info plan r) ≡ []
  unfolding aimed
  held-aimed p job info plan (ok tg) = refl
  held-aimed p job info plan (err e) = refl

  none_held : (st : Stage) → held st ≡ [] → All IsLoggable (held st)
  none_held st e = subst (All IsLoggable) (sym e) tt

  begin_next-HasLogged :
      (w : Worker) (job : Job) (left : List Job) (may_run : Bool)
      → All IsLoggable (record_calls w.notes)
      → HasLogged (begin_next os a w job left may_run)
  unfolding begin_next
  begin_next-HasLogged w job left true h = (tt, h)
  begin_next-HasLogged w job left false h = ((unsent_entry-validate os w.peer job a.stat, tt), h)

  take_next-HasLogged :
      (w : Worker) (left : List Job) (m : Manager)
      → HasLogged w
      → HasLogged (take_next os a w left m).0
  unfolding take_next
  take_next-HasLogged w [] m h = h
  take_next-HasLogged w (job ∷ left) m h = begin_next-HasLogged w job left (start job.id m).0 h.1

  finish_job-HasLogged :
      (cb : Callbacks) (w : Worker) (job : Job) (e : Entry)
      → IsLoggable e
      → All IsLoggable (record_calls w.notes)
      → HasLogged (finish_job cb a w job e)
  unfolding finish_job
  finish_job-HasLogged cb w job e good h = (
    tt,
    subst (All IsLoggable)
        (sym (
          record_calls-append w.notes (record_entry cb a.stored e)
          ∙ ap (λ es. record_calls w.notes ++ es) (record_calls-record_entry cb a.stored e)))
        (All-append IsLoggable (record_calls w.notes) _ (called cb.has_record) h),
  )
    where
      called : (b : Bool) → All IsLoggable (if b then e ∷ [] else [])
      called true = (good, tt)
      called false = tt

  advance_from-HasLogged :
      (cb : Callbacks) (w : Worker) (st : Stage) (m : Manager)
      → w.stage ≡ st
      → IsKept st w
      → HasLogged (advance_from os cb a w st m).0
  unfolding advance_from answered aim
  advance_from-HasLogged cb w resting m s h =
      take_next-HasLogged w w.left m (subst (λ st. IsKept st w) (sym s) h)
  advance_from-HasLogged cb w (running job) m s h =
      (none_held _ (held-examine w.peer a.now job a.stat), h.1)
  advance_from-HasLogged cb w (scanning job info) m s h =
      (none_held _ (held-scanned w.peer a.now job info a.scan), h.1)
  advance_from-HasLogged cb w (aiming job info plan) m s h =
      (none_held _ (held-aimed w.peer job info plan _), h.1)
  advance_from-HasLogged cb w (sending job info plan tg) m s h = (tt, h.1)
  advance_from-HasLogged cb w (ending job o) m s h =
      ((outcome_entry-validate os (ctx_done job.id m) job o, tt), h.1)
  advance_from-HasLogged cb w (settling job e) m s h = h
  advance_from-HasLogged cb w (recording job e) m s h = finish_job-HasLogged cb w job e h.0.0 h.1

turn-HasLogged :
    (f : Worker → Manager → Worker × Manager)
    → ((w : Worker) (m : Manager) → HasLogged w → HasLogged (f w m).0)
    → (i : ℕ) (ws : List Worker) (m : Manager) → All HasLogged ws
    → All HasLogged (turn f i ws m).0
unfolding turn
turn-HasLogged f k i [] m h = tt
turn-HasLogged f k zero (w ∷ ws) m h = (k w m h.0, h.1)
turn-HasLogged f k (suc i) (w ∷ ws) m h = (h.0, turn-HasLogged f k i ws m h.1)

held-report_stage : (sent now : ℕ) (st : Stage) → held (report_stage sent now st) ≡ held st
unfolding report_stage
held-report_stage sent now resting = refl
held-report_stage sent now (running job) = refl
held-report_stage sent now (scanning job info) = refl
held-report_stage sent now (aiming job info plan) = refl
held-report_stage sent now (sending job info plan tg) = refl
held-report_stage sent now (ending job o) = refl
held-report_stage sent now (settling job e) = refl
held-report_stage sent now (recording job e) = refl

with_worker-HasLogged :
    (p : Peer) (jobs : Option (List Job)) (ws : List Worker)
    → All HasLogged ws
    → All HasLogged (with_worker p jobs ws)
unfolding with_worker new_worker
with_worker-HasLogged p none ws h = h
with_worker-HasLogged p (some jobs) ws h = All-append HasLogged ws _ ((tt, tt), tt) h

module _ (os : Os) (cb : Callbacks) where
  step-HasLogged :
      (x : Step) (s : System) → All HasLogged s.workers → All HasLogged (step os cb x s).workers
  unfolding step advance report report_late
  step-HasLogged (queueing p paths) s h =
      with_worker-HasLogged p (send_paths os paths s.manager).0 s.workers h
  step-HasLogged (cancelling id) s h = h
  step-HasLogged refusing s h = h
  step-HasLogged stopping s h = h
  step-HasLogged (advancing i a) s h =
      turn-HasLogged (advance os cb a) (λ w m k. advance_from-HasLogged os a cb w w.stage m refl k)
        i s.workers s.manager h
  step-HasLogged (reporting i sent now) s h =
      turn-HasLogged (λ w m. (report sent now w, m))
        (λ w m k. (subst (All IsLoggable) (sym (held-report_stage sent now w.stage)) k.0, k.1)) i
        s.workers s.manager h
  step-HasLogged (reporting_late i id sent now) s h =
      turn-HasLogged (λ w m. (report_late id sent now w, m)) (λ w m k. k) i s.workers s.manager h

  run-HasLogged :
      (xs : List Step) (s : System)
      → All HasLogged s.workers
      → All HasLogged (run os cb xs s).workers
  unfolding run
  run-HasLogged [] s h = h
  run-HasLogged (x ∷ xs) s h = run-HasLogged xs (step os cb x s) (step-HasLogged x s h)

  -- The entries that a worker has handed to Record.
  abbrev pub AreLoggable : Worker → Type 0
  AreLoggable w = All IsLoggable (record_calls w.notes)

  all_loggable : (ws : List Worker) → All HasLogged ws → All AreLoggable ws
  all_loggable [] h = tt
  all_loggable (w ∷ ws) h = (h.0.1, all_loggable ws h.1)

  -- However the calls of a manager's users and the steps of its workers interleave, every entry that a
  -- worker hands to Record, of an item that was sent, failed or was cancelled, passes Validate when it
  -- is stamped, so that it can be written to the history file; and so does the entry of a message of
  -- at most 1 MiB.
  pub run-AreLoggable :
      (prefix : Text) (xs : List Step) (show_duration : ℕ → Text) (timeout : ℕ) (p : Peer)
      (text : Text) (c : Call)
      → length text ≤ 2 ^ 20
      → let (error, e, notes) = say_to os cb show_duration timeout p text c in
        All AreLoggable (run os cb xs (new_system prefix)).workers × IsLoggable e
  unfolding new_system
  run-AreLoggable prefix xs show_duration timeout p text c t = (
    all_loggable _ (run-HasLogged xs (new_system prefix) tt),
    (λ now. said-validate os now cb show_duration timeout p text c t),
  )
