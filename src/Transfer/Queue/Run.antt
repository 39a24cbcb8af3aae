-- ===== src/Transfer/Queue/Run.antt =====
-- internal/transfer: the manager with all its workers, as the goroutines take turns.
use lanxfer.Base.{ℕ, zero, suc, List, [], ◌∷◌, ◌++◌, Option, none, some, Text}
use lanxfer.Presence.{Peer}
use lanxfer.Transfer.Queue.{Os, Manager, new, Job, send_paths, cancel, refuse_more, stop}
use lanxfer.Transfer.Queue.Worker.{
  World, Callbacks, Worker, new_worker, advance, report_stage, report_finished,
}

pub record System : Type 0 where
  pub manager : Manager
  pub workers : List Worker

-- The calls of the users, the steps of the workers, and the progress callbacks of the HTTP client,
-- those of a call that has returned included.
pub data Step : Type 0 where
  queueing : Peer → List Text → Step
  cancelling : Text → Step
  refusing stopping : Step
  advancing : ℕ → World → Step
  reporting : ℕ → ℕ → ℕ → Step
  reporting_late : ℕ → Text → ℕ → ℕ → Step

unfoldable pub new_system : Text → System
unfolding new
new_system prefix = record { manager = new prefix; workers = [] }

-- `go m.work(…)`
unfoldable pub with_worker : Peer → Option (List Job) → List Worker → List Worker
unfolding new_worker
with_worker p none ws = ws
with_worker p (some jobs) ws = ws ++ new_worker p jobs ∷ []

unfoldable pub turn :
    (Worker → Manager → Worker × Manager) → ℕ → List Worker → Manager → List Worker × Manager
turn f i [] m = ([], m)
turn f zero (w ∷ ws) m = let (w', m') = f w m in (w' ∷ ws, m')
turn f (suc i) (w ∷ ws) m = let (ws', m') = turn f i ws m in (w ∷ ws', m')

unfoldable pub report : ℕ → ℕ → Worker → Worker
unfolding report_stage
report sent now w = record w { stage = report_stage sent now w.stage }

unfoldable pub report_late : Text → ℕ → ℕ → Worker → Worker
unfolding report_finished
report_late id sent now w = record w { finished = report_finished id sent now w.finished }

unfoldable pub step : Os → Callbacks → Step → System → System
unfolding send_paths cancel refuse_more stop advance turn with_worker report report_late
step os cb (queueing p paths) s =
    let (jobs, m) = send_paths os paths s.manager in
    record { manager = m; workers = with_worker p jobs s.workers }
step os cb (cancelling id) s = record s { manager = (cancel id s.manager).1 }
step os cb refusing s = record s { manager = refuse_more s.manager }
step os cb stopping s = record s { manager = stop s.manager }
step os cb (advancing i a) s =
    let (ws, m) = turn (advance os cb a) i s.workers s.manager in
    record { manager = m; workers = ws }
step os cb (reporting i sent now) s =
    let (ws, m) = turn (λ w m. (report sent now w, m)) i s.workers s.manager in
    record { manager = m; workers = ws }
step os cb (reporting_late i id sent now) s =
    let (ws, m) = turn (λ w m. (report_late id sent now w, m)) i s.workers s.manager in
    record { manager = m; workers = ws }

unfoldable pub run : Os → Callbacks → List Step → System → System
unfolding step
run os cb [] s = s
run os cb (x ∷ xs) s = run os cb xs (step os cb x s)
