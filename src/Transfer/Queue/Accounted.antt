-- ===== src/Transfer/Queue/Accounted.antt =====
-- The map of the manager holds exactly the items that are not settled.
pub mod Counts
use lanxfer.Base.{
  ℕ, zero, suc, ◌+◌, ◌≤◌, ◌<◌, ◌≡◌, refl, ap, sym, subst, ◌∙◌, inl, inr, Bool, true, false, ◌||◌,
  List, [], ◌∷◌, Option, none, some, Text, if◌then◌else◌, Result, ok, err, arith, Option-cases,
  text_eq, text_eq_iff, text_eq_refl, Map, lookup, insert, lookup-insert, lookup-delete,
}
use lanxfer.Presence.{Peer}
use lanxfer.Transfer.Queue.{Os, Manager, Slot, Job, ids_of, slot_of, start, forget, cancel, make_id}
use lanxfer.Transfer.Queue.Worker.{
  Info, World, Callbacks, Stage, resting, running, scanning, aiming, sending, ending, settling,
  recording, Worker, examined, examine, scanned, aimed, answered, begin_next, take_next, aim,
  finish_job, advance_from, report_stage, progress_job,
}
use lanxfer.Transfer.Queue.Run.{turn}
use lanxfer.Transfer.Queue.Accounted.Counts.{
  count_id, unsettled, pending_of, pending, present, Accounts, IsFresh, count_id_self, IsKept,
  IsKept-IsFresh, start-IsKept, forgotten, forget-IsFresh,
}

-- What the steps of one worker keep, whatever the other workers have pending.
pub record IsAccounted (more : Text → ℕ) (st : Stage) (left : List Job) (m : Manager) : Type 0 where
  pub accounts : Accounts more st left m
  pub fresh : IsFresh m

module _ (more : Text → ℕ) where
  kept_accounts :
      (st st' : Stage) (left left' : List Job) (m m' : Manager)
      → ((id : Text) → pending_of id st' left' ≡ pending_of id st left)
      → IsKept m m'
      → IsAccounted more st left m
      → IsAccounted more st' left' m'
  kept_accounts st st' left left' m m' same k h = record {
    accounts = λ id. ap (λ p. p + more id) (same id) ∙ h.accounts id ∙ sym (k.kept id);
    fresh = IsKept-IsFresh m m' k h.fresh;
  }

  self-IsKept : (m : Manager) → IsKept m m
  self-IsKept m = record { same_seq = refl; same_prefix = refl; kept = λ j. refl }

  pub restaged :
      (st st' : Stage) (left : List Job) (m : Manager)
      → ids_of (unsettled st') ≡ ids_of (unsettled st)
      → IsAccounted more st left m
      → IsAccounted more st' left m
  restaged st st' left m e h =
      kept_accounts st st' left left m m
        (λ id. ap (λ js. count_id id js + count_id id (ids_of left)) e) (self-IsKept m) h

  settled_accounts :
      (job : Job) (e : _) (left : List Job) (m : Manager)
      → IsAccounted more (settling job e) left m
      → IsAccounted more (recording job e) left (forget job.id m)
  unfolding forget
  settled_accounts job e left m h = record {
    accounts = λ id.
        forgotten (text_eq job.id id) (lookup id m.items) (0 + count_id id (ids_of left) + more id)
          (omega (arith, h.accounts id))
        ∙ sym (ap present (lookup-delete job.id id m.items));
    fresh = forget-IsFresh job.id m h.fresh;
  }

  next_present :
      (job : Job) (left : List Job) (m : Manager)
      → IsAccounted more resting (job ∷ left) m
      → 1 ≤ present (lookup job.id m.items)
  next_present job left m h = omega (arith, h.accounts job.id, count_id_self job.id (ids_of left))

  taken :
      (os : Os) (a : World) (w : Worker) (job : Job) (left : List Job) (may_run : Bool)
      (m : Manager)
      → IsAccounted more resting (job ∷ left) m
      → let w' = begin_next os a w job left may_run in
        IsAccounted more w'.stage w'.left (start job.id m).1
  unfolding begin_next
  taken os a w job left true m h =
      kept_accounts resting (running job) (job ∷ left) left m (start job.id m).1 (λ id. omega arith)
        (start-IsKept job.id m (next_present job left m h)) h
  taken os a w job left false m h =
      kept_accounts resting (settling job _) (job ∷ left) left m (start job.id m).1
        (λ id. omega arith) (start-IsKept job.id m (next_present job left m h)) h

  take_next-IsAccounted :
      (os : Os) (a : World) (w : Worker) (left : List Job) (m : Manager)
      → IsAccounted more resting left m
      → let (w', m') = take_next os a (record w { left = left; stage = resting }) left m in
        IsAccounted more w'.stage w'.left m'
  unfolding take_next
  take_next-IsAccounted os a w [] m h = h
  take_next-IsAccounted os a w (job ∷ left) m h =
      taken os a (record w { left = job ∷ left; stage = resting }) job left (start job.id m).0 m h

  examined_ids :
      (os : Os) (now : ℕ) (job : Job) (info : Info) (d : Bool)
      → ids_of (unsettled (examined os now job info d)) ≡ job.id ∷ []
  unfolding examined
  examined_ids os now job info true = refl
  examined_ids os now job info false = refl

  examine_ids :
      (os : Os) (p : Peer) (now : ℕ) (job : Job) (r : Result Text Info)
      → ids_of (unsettled (examine os p now job r)) ≡ job.id ∷ []
  unfolding examine
  examine_ids os p now job (err e) = refl
  examine_ids os p now job (ok info) = examined_ids os now job info info.is_dir

  scanned_ids :
      (os : Os) (p : Peer) (now : ℕ) (job : Job) (info : Info) (r : Result Text _)
      → ids_of (unsettled (scanned os p now job info r)) ≡ job.id ∷ []
  unfolding scanned
  scanned_ids os p now job info (err e) = refl
  scanned_ids os p now job info (ok plan) = refl

  aimed_ids :
      (p : Peer) (job : Job) (info : Info) (plan : Option _) (r : Result Text _)
      → ids_of (unsettled (aimed p job info plan r)) ≡ job.id ∷ []
  unfolding aimed
  aimed_ids p job info plan (ok tg) = refl
  aimed_ids p job info plan (err e) = refl

  pub advance_from-IsAccounted :
      (os : Os) (cb : Callbacks) (a : World) (w : Worker) (st : Stage) (m : Manager)
      → IsAccounted more st w.left m
      → let (w', m') = advance_from os cb a (record w { stage = st }) st m in
        IsAccounted more w'.stage w'.left m'
  unfolding advance_from answered aim finish_job
  advance_from-IsAccounted os cb a w resting m h = take_next-IsAccounted os a w w.left m h
  advance_from-IsAccounted os cb a w (running job) m h =
      restaged (running job) _ w.left m (examine_ids os w.peer a.now job a.stat) h
  advance_from-IsAccounted os cb a w (scanning job info) m h =
      restaged (scanning job info) _ w.left m (scanned_ids os w.peer a.now job info a.scan) h
  advance_from-IsAccounted os cb a w (aiming job info plan) m h =
      restaged (aiming job info plan) _ w.left m (aimed_ids w.peer job info plan _) h
  advance_from-IsAccounted os cb a w (sending job info plan tg) m h =
      restaged (sending job info plan tg) (ending job _) w.left m refl h
  advance_from-IsAccounted os cb a w (ending job o) m h =
      restaged (ending job o) (settling job _) w.left m refl h
  advance_from-IsAccounted os cb a w (settling job e) m h = settled_accounts job e w.left m h
  advance_from-IsAccounted os cb a w (recording job e) m h =
      restaged (recording job e) resting w.left m refl h

  pub report_ids :
      (sent now : ℕ) (st : Stage)
      → ids_of (unsettled (report_stage sent now st)) ≡ ids_of (unsettled st)
  unfolding report_stage progress_job
  report_ids sent now resting = refl
  report_ids sent now (running job) = refl
  report_ids sent now (scanning job info) = refl
  report_ids sent now (aiming job info plan) = refl
  report_ids sent now (sending job info plan tg) = refl
  report_ids sent now (ending job o) = refl
  report_ids sent now (settling job e) = refl
  report_ids sent now (recording job e) = refl

-- The same for all workers.
pub record AreAccounted (more : Text → ℕ) (ws : List Worker) (m : Manager) : Type 0 where
  pub accounts : (id : Text) → pending id ws + more id ≡ present (lookup id m.items)
  pub fresh : IsFresh m

abbrev pub Keeps : (Worker → Manager → Worker × Manager) → Type 0
Keeps f =
    (more : Text → ℕ) (w : Worker) (m : Manager)
    → IsAccounted more w.stage w.left m
    → let (w', m') = f w m in IsAccounted more w'.stage w'.left m'

pub turn-AreAccounted :
    (f : Worker → Manager → Worker × Manager)
    → Keeps f
    → (more : Text → ℕ) (i : ℕ) (ws : List Worker) (m : Manager) → AreAccounted more ws m
    → AreAccounted more (turn f i ws m).0 (turn f i ws m).1
unfolding turn
turn-AreAccounted f k more i [] m h = h
turn-AreAccounted f k more zero (w ∷ ws) m h =
    let t =
      k (λ id. pending id ws + more id) w m
        (record { accounts = λ id. omega (arith, h.accounts id); fresh = h.fresh }) in
    record { accounts = λ id. omega (arith, t.accounts id); fresh = t.fresh }
turn-AreAccounted f k more (suc i) (w ∷ ws) m h =
    let t =
      turn-AreAccounted f k (λ id. pending_of id w.stage w.left + more id) i ws m
        (record { accounts = λ id. omega (arith, h.accounts id); fresh = h.fresh }) in
    record { accounts = λ id. omega (arith, t.accounts id); fresh = t.fresh }
