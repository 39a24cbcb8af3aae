-- ===== src/Transfer/Queue/Lookups.antt =====
-- How often a batch looks its receiver up.
pub mod Calm
use lanxfer.Base.{
  ℕ, zero, suc, ◌+◌, ◌≤◌, ◌≡◌, refl, sym, subst, inl, inr, Bool, true, false, ◌||◌, List, [], ◌∷◌,
  Option, none, some, Text, if◌then◌else◌, Result, ok, err, arith, Bool-cases, text_eq, lookup,
  insert, All, All-append, lookup-insert, lookup-delete,
}
use lanxfer.Presence.{Peer}
use lanxfer.Transfer.Queue.{
  Os, Manager, Slot, is_cancelled, ctx_done, Job, slot_of, start, forget, make_id, next_seq,
  add_item, queued_slot, queue_paths, send_paths, new, refuse_more,
}
use lanxfer.Transfer.Queue.Worker.{
  Info, World, Callbacks, Stage, resting, running, scanning, aiming, sending, ending, settling,
  recording, Worker, new_worker, begin_next, take_next, aim, finish_job, advance_from, advance,
  locate,
}
use lanxfer.Transfer.Queue.Run.{
  System, Step, queueing, cancelling, refusing, stopping, advancing, reporting, reporting_late,
  turn, report, report_late, with_worker, step, run, new_system,
}
use lanxfer.Transfer.{Target}
use lanxfer.Transfer.Queue.Cancelled.{send_paths-closed, send_paths-open}
use lanxfer.Transfer.Queue.Lookups.Calm.{
  IsCalm, AskedOnce, IsAsked, forget-IsCalm, start-IsCalm, queue_paths-IsCalm, locate_once, Kept,
}

module _ (os : Os) (cb : Callbacks) where
  begin_next-IsAsked :
      (a : World) (w : Worker) (job : Job) (left : List Job) (b : Bool)
      → IsAsked w
      → IsAsked (begin_next os a w job left b)
  unfolding begin_next
  begin_next-IsAsked a w job left true h = h
  begin_next-IsAsked a w job left false h = h

  take_next-IsAsked :
      (a : World) (w : Worker) (left : List Job) (m : Manager)
      → IsAsked w
      → IsCalm m
      → Kept (take_next os a w left m)
  unfolding take_next
  take_next-IsAsked a w [] m h c = (h, c)
  take_next-IsAsked a w (job ∷ left) m h c =
      (begin_next-IsAsked a w job left (start job.id m).0 h, start-IsCalm job.id m c)

  aim-IsAsked :
      (a : World) (w : Worker) (job : Job) (info : Info) (plan : Option _) (b : Bool)
      → b ≡ false
      → IsAsked w
      → IsAsked (aim a w job info plan b)
  unfolding aim
  aim-IsAsked a w job info plan true e h = cc
  aim-IsAsked a w job info plan false e h = locate_once a.found w.loc w.lookups h

  ctx_done-calm : (id : Text) (m : Manager) → IsCalm m → ctx_done id m ≡ false
  unfolding ctx_done
  ctx_done-calm id m c = ground (arith, c.going, c.uncancelled id)

  advance_from-IsAsked :
      (a : World) (w : Worker) (st : Stage) (m : Manager)
      → IsAsked w
      → IsCalm m
      → Kept (advance_from os cb a w st m)
  unfolding advance_from finish_job
  advance_from-IsAsked a w resting m h c = take_next-IsAsked a w w.left m h c
  advance_from-IsAsked a w (running job) m h c = (h, c)
  advance_from-IsAsked a w (scanning job info) m h c = (h, c)
  advance_from-IsAsked a w (aiming job info plan) m h c =
      (aim-IsAsked a w job info plan (ctx_done job.id m) (ctx_done-calm job.id m c) h, c)
  advance_from-IsAsked a w (sending job info plan tg) m h c = (h, c)
  advance_from-IsAsked a w (ending job o) m h c = (h, c)
  advance_from-IsAsked a w (settling job e) m h c = (h, forget-IsCalm job.id m c)
  advance_from-IsAsked a w (recording job e) m h c = (h, c)

turn-IsAsked :
    (f : Worker → Manager → Worker × Manager)
    → ((w : Worker) (m : Manager) → IsAsked w → IsCalm m → Kept (f w m))
    → (i : ℕ) (ws : List Worker) (m : Manager) → All IsAsked ws
    → IsCalm m
    → All IsAsked (turn f i ws m).0 × IsCalm (turn f i ws m).1
unfolding turn
turn-IsAsked f k i [] m h c = (tt, c)
turn-IsAsked f k zero (w ∷ ws) m h c = let (w_asked, calm) = k w m h.0 c in ((w_asked, h.1), calm)
turn-IsAsked f k (suc i) (w ∷ ws) m h c =
    let (ws_asked, calm) = turn-IsAsked f k i ws m h.1 c in ((h.0, ws_asked), calm)

-- Nobody cancels.
abbrev pub IsCalmStep : Step → Type 0
IsCalmStep (cancelling id) = ⊥
IsCalmStep stopping = ⊥
IsCalmStep _ = Unit

abbrev pub LooksOnce : Worker → Type 0
LooksOnce w = w.lookups ≤ 1

asked_bound : (loc : Option (Result Text Target)) (n : ℕ) → AskedOnce loc n → n ≤ 1
unfolding AskedOnce
asked_bound none n h = omega (arith, h)
asked_bound (some r) n h = omega (arith, h)

all_bound : (ws : List Worker) → All IsAsked ws → All LooksOnce ws
all_bound [] h = tt
all_bound (w ∷ ws) h = (asked_bound w.loc w.lookups h.0, all_bound ws h.1)

module _ (os : Os) (cb : Callbacks) where
  queueing-IsAsked :
      (p : Peer) (paths : List Text) (ws : List Worker) (m : Manager)
      → All IsAsked ws
      → IsCalm m
      → let (jobs, m') = send_paths os paths m in All IsAsked (with_worker p jobs ws) × IsCalm m'
  unfolding send_paths with_worker new_worker AskedOnce
  queueing-IsAsked p paths ws m h c =
      let P : Option (List Job) × Manager → Type 0 =
        λ r. All IsAsked (with_worker p r.0 ws) × IsCalm r.1 in
      elim (Bool-cases m.closed) [
        | inl e ↦ subst P (sym (send_paths-closed os cb paths m e)) (h, c)
        | inr e ↦
            subst P (sym (send_paths-open os cb paths m e))
              (All-append IsAsked ws _ (refl, tt) h, queue_paths-IsCalm os paths m c)
      ]

  step-IsAsked :
      (x : Step) (s : System)
      → IsCalmStep x
      → All IsAsked s.workers
      → IsCalm s.manager
      → let s' = step os cb x s in All IsAsked s'.workers × IsCalm s'.manager
  unfolding step advance report report_late
  step-IsAsked (queueing p paths) s x h c = queueing-IsAsked p paths s.workers s.manager h c
  step-IsAsked (cancelling id) s x h c = elim x [ ]
  step-IsAsked refusing s x h c =
      unfold refuse_more slot_of in (h, record { going = c.going; uncancelled = c.uncancelled })
  step-IsAsked stopping s x h c = elim x [ ]
  step-IsAsked (advancing i a) s x h c =
      turn-IsAsked (advance os cb a) (λ w m. advance_from-IsAsked os cb a w w.stage m) i s.workers
        s.manager h c
  step-IsAsked (reporting i sent now) s x h c =
      turn-IsAsked (λ w m. (report sent now w, m)) (λ w m hw cm. (hw, cm)) i s.workers s.manager h c
  step-IsAsked (reporting_late i id sent now) s x h c =
      turn-IsAsked (λ w m. (report_late id sent now w, m)) (λ w m hw cm. (hw, cm)) i s.workers
        s.manager h c

  run-IsAsked :
      (xs : List Step) (s : System)
      → All IsCalmStep xs
      → All IsAsked s.workers
      → IsCalm s.manager
      → All IsAsked (run os cb xs s).workers
  unfolding run
  run-IsAsked [] s calm h c = h
  run-IsAsked (x ∷ xs) s calm h c =
      let (h', c') = step-IsAsked x s calm.0 h c in run-IsAsked xs (step os cb x s) calm.1 h' c'

  -- As long as nobody calls `Cancel` or `Close`, each `SendPaths` call looks its receiver up at most
  -- once, also if it is not found.
  pub run-LooksOnce :
      (prefix : Text) (xs : List Step)
      → All IsCalmStep xs
      → All LooksOnce (run os cb xs (new_system prefix)).workers
  unfolding new_system new slot_of lookup
  run-LooksOnce prefix xs calm = all_bound _ (
      run-IsAsked xs (new_system prefix) calm tt
        (record { going = refl; uncancelled = λ id. refl }))
