-- ===== src/Transfer/Queue/Within.antt =====
-- Every step of the manager against one worker's order and the steps it has left.
use lanxfer.Base.{
  ℕ, suc, ◌+◌, ◌≤◌, subst, inl, inr, List, [], ◌∷◌, Option, none, some, Text, if◌then◌else◌, arith,
  Bool-cases, ◌==◌, ==_iff,
}
use lanxfer.Presence.{Peer}
use lanxfer.Transfer.Queue.{Os, Manager, Job, send_paths}
use lanxfer.Transfer.Queue.Worker.{World, Callbacks, Worker, advance}
use lanxfer.Transfer.Queue.Run.{
  System, Step, queueing, cancelling, refusing, stopping, advancing, reporting, reporting_late,
  turn, report, report_late, with_worker, step, run,
}
use lanxfer.Transfer.Queue.Orderly.{advance-IsOrderly}
use lanxfer.Transfer.Queue.Turns.{At, At-append, turn-own, turn-any}
use lanxfer.Transfer.Queue.Work.{work-advance}
use lanxfer.Transfer.Queue.Reports.{Within, report-Within, report_late-Within}

-- The steps of the worker with number `i`.
abbrev pub turns_of : ℕ → List Step → ℕ
turns_of i [] = 0
turns_of i (advancing j a ∷ xs) = if j == i then suc (turns_of i xs) else turns_of i xs
turns_of i (queueing p paths ∷ xs) = turns_of i xs
turns_of i (cancelling id ∷ xs) = turns_of i xs
turns_of i (refusing ∷ xs) = turns_of i xs
turns_of i (stopping ∷ xs) = turns_of i xs
turns_of i (reporting j sent now ∷ xs) = turns_of i xs
turns_of i (reporting_late j id sent now ∷ xs) = turns_of i xs

module _ (os : Os) (cb : Callbacks) (ids : List Text) where
  advance-Within :
      (a : World) (n k : ℕ) (w : Worker) (m : Manager)
      → k ≤ suc n
      → Within cb ids k w
      → Within cb ids n (advance os cb a w m).0
  advance-Within a n k w m le h = record {
    orderly = advance-IsOrderly os cb ids a w m h.orderly;
    near = work-advance os cb a w m n (omega (arith, h.near, le));
  }

  advanced :
      (i j : ℕ) (a : World) (k n : ℕ) (ws : List Worker) (m : Manager)
      → At i (Within cb ids ((if j == i then suc k else k) + n)) ws
      → At i (Within cb ids (k + n)) (turn (advance os cb a) j ws m).0
  advanced i j a k n ws m h = elim (Bool-cases (j == i)) [
    | inl e ↦
        let own : At i (Within cb ids (suc k + n)) ws = rw e at h in
        rw ((==_iff j i).0 e) (
          turn-own (Within cb ids (suc k + n)) (Within cb ids (k + n)) (advance os cb a)
            (λ w m'. advance-Within a (k + n) (suc k + n) w m' (omega arith)) i ws m own)
    | inr e ↦
        turn-any (Within cb ids (k + n)) (advance os cb a)
          (λ w m'. advance-Within a (k + n) (k + n) w m' (omega arith)) i j ws m (rw e at h)
  ]

  with_worker-At :
      (i n : ℕ) (p : Peer) (jobs : Option (List Job)) (ws : List Worker)
      → At i (Within cb ids n) ws
      → At i (Within cb ids n) (with_worker p jobs ws)
  unfolding with_worker
  with_worker-At i n p none ws h = h
  with_worker-At i n p (some jobs) ws h = At-append i (Within cb ids n) ws _ h

  step-Within :
      (i : ℕ) (x : Step) (xs : List Step) (n : ℕ) (s : System)
      → At i (Within cb ids (turns_of i (x ∷ xs) + n)) s.workers
      → At i (Within cb ids (turns_of i xs + n)) (step os cb x s).workers
  unfolding step
  step-Within i (queueing p paths) xs n s h =
      with_worker-At i (turns_of i xs + n) p (send_paths os paths s.manager).0 s.workers h
  step-Within i (cancelling id) xs n s h = h
  step-Within i refusing xs n s h = h
  step-Within i stopping xs n s h = h
  step-Within i (advancing j a) xs n s h = advanced i j a (turns_of i xs) n s.workers s.manager h
  step-Within i (reporting j sent now) xs n s h =
      turn-any (Within cb ids (turns_of i xs + n)) (λ w m. (report sent now w, m))
        (λ w m h'. report-Within cb ids sent now (turns_of i xs + n) w h') i j s.workers s.manager h
  step-Within i (reporting_late j id sent now) xs n s h =
      turn-any (Within cb ids (turns_of i xs + n)) (λ w m. (report_late id sent now w, m))
        (λ w m h'. report_late-Within cb ids sent now (turns_of i xs + n) id w h') i j s.workers
        s.manager h

  pub run-Within :
      (i : ℕ) (xs : List Step) (n : ℕ) (s : System)
      → At i (Within cb ids (turns_of i xs + n)) s.workers
      → At i (Within cb ids n) (run os cb xs s).workers
  unfolding run
  run-Within i [] n s h = subst (λ k. At i (Within cb ids k) s.workers) (omega arith) h
  run-Within i (x ∷ xs) n s h = run-Within i xs n (step os cb x s) (step-Within i x xs n s h)
