-- ===== src/Transfer/Queue/Cancelled.antt =====
-- What `Cancel` answers, after any steps.
pub mod Queued
use lanxfer.Base.{
  ℕ, zero, suc, ◌+◌, ◌^◌, ◌≤◌, ◌<◌, ◌≡◌, refl, ap, sym, subst, ◌∙◌, inl, inr, Bool, true, false,
  List, [], ◌∷◌, ◌++◌, Option, none, some, Text, if◌then◌else◌, arith, Bool-cases, Option-cases,
  append-nil, length, text_eq, text_eq_iff, lookup, insert, lookup-insert,
}
use lanxfer.Presence.{Peer}
use lanxfer.Transfer.Queue.{
  Os, Manager, Slot, Job, ids_of, start, forget, cancel, make_id, next_seq, add_item, queued_job,
  queued_slot, queue_paths, send_paths, new, refuse_more, stop,
}
use lanxfer.Transfer.Queue.Issued.{make_id-injective}
use lanxfer.Transfer.Queue.Worker.{
  World, Callbacks, Stage, resting, running, scanning, aiming, sending, ending, settling, recording,
  Worker, new_worker, take_next, advance_from, advance,
}
use lanxfer.Transfer.Queue.Run.{
  System, Step, queueing, cancelling, refusing, stopping, advancing, reporting, reporting_late,
  turn, report, report_late, with_worker, step, run, new_system,
}
use lanxfer.Transfer.Queue.Accounted.{
  AreAccounted, Keeps, turn-AreAccounted, advance_from-IsAccounted, report_ids, restaged,
}
use lanxfer.Transfer.Queue.Accounted.Counts.{
  one_if, count_id, pending_of, pending, present, IsFresh, IsKept, cancel-IsKept, IsKept-IsFresh,
}
use lanxfer.Transfer.Queue.Cancelled.Queued.{paths_in, numbering, queue_paths-AreQueued}

numbering-start : (id : Text) (m : Manager) → numbering (start id m).1 ≡ numbering m
unfolding start
numbering-start id m = ground arith

pub numbering-advance_from :
    (os : Os) (cb : Callbacks) (a : World) (w : Worker) (st : Stage) (m : Manager)
    → numbering (advance_from os cb a w st m).1 ≡ numbering m
unfolding advance_from take_next forget
numbering-advance_from os cb a w resting m = numbering-take_next w.left
  where
    numbering-take_next : (left : List Job) → numbering (take_next os a w left m).1 ≡ numbering m
    numbering-take_next [] = refl
    numbering-take_next (job ∷ left) = numbering-start job.id m
numbering-advance_from os cb a w (running job) m = refl
numbering-advance_from os cb a w (scanning job info) m = refl
numbering-advance_from os cb a w (aiming job info plan) m = refl
numbering-advance_from os cb a w (sending job info plan tg) m = refl
numbering-advance_from os cb a w (ending job o) m = refl
numbering-advance_from os cb a w (settling job e) m = refl
numbering-advance_from os cb a w (recording job e) m = refl

pub numbering-turn :
    (f : Worker → Manager → Worker × Manager)
    → ((w : Worker) (m : Manager) → numbering (f w m).1 ≡ numbering m)
    → (i : ℕ) (ws : List Worker) (m : Manager) → numbering (turn f i ws m).1 ≡ numbering m
unfolding turn
numbering-turn f k i [] m = refl
numbering-turn f k zero (w ∷ ws) m = k w m
numbering-turn f k (suc i) (w ∷ ws) m = numbering-turn f k i ws m

pending-append :
    (id : Text) (ws : List Worker) (w : Worker)
    → pending id (ws ++ w ∷ []) ≡ pending id ws + pending_of id w.stage w.left
pending-append id [] w = omega arith
pending-append id (v ∷ ws) w = omega (arith, pending-append id ws w)

-- Every ID counts once if it is in the map, and there is room for `n` more items.
pub record IsSound (n : ℕ) (ws : List Worker) (m : Manager) : Type 0 where
  pub accounted : AreAccounted (λ _. 0) ws m
  pub room : m.seq + n < 2 ^ 64

module _ (os : Os) (cb : Callbacks) where
  turned :
      (f : Worker → Manager → Worker × Manager)
      → Keeps f
      → ((w : Worker) (m : Manager) → numbering (f w m).1 ≡ numbering m)
      → (i n : ℕ) (ws : List Worker) (m : Manager) → IsSound n ws m
      → IsSound n (turn f i ws m).0 (turn f i ws m).1
  turned f k same i n ws m h = record {
    accounted = turn-AreAccounted f k (λ _. 0) i ws m h.accounted;
    room = subst (λ q. q + n < 2 ^ 64) (sym (ap (λ r. r.0) (numbering-turn f same i ws m))) h.room;
  }

  kept_sound :
      (n : ℕ) (ws : List Worker) (m m' : Manager) → IsKept m m' → IsSound n ws m → IsSound n ws m'
  kept_sound n ws m m' k h = record {
    accounted = record {
      accounts = λ id. h.accounted.accounts id ∙ sym (k.kept id);
      fresh = IsKept-IsFresh m m' k h.accounted.fresh;
    };
    room = subst (λ q. q + n < 2 ^ 64) (sym k.same_seq) h.room;
  }

  pub send_paths-closed :
      (paths : List Text) (m : Manager) → m.closed ≡ true → send_paths os paths m ≡ (none, m)
  unfolding send_paths
  send_paths-closed paths m e = ground (arith, e)

  pub send_paths-open :
      (paths : List Text) (m : Manager)
      → m.closed ≡ false
      → send_paths os paths m ≡ (some (queue_paths os paths m).0, (queue_paths os paths m).1)
  unfolding send_paths
  send_paths-open paths m e = ground (arith, e)

  pub queued_sound :
      (p : Peer) (paths : List Text) (n : ℕ) (ws : List Worker) (m : Manager)
      → IsSound (length paths + n) ws m
      → let (jobs, m') = send_paths os paths m in IsSound n (with_worker p jobs ws) m'
  unfolding with_worker new_worker
  queued_sound p paths n ws m h =
      let P : Option (List Job) × Manager → Type 0 = λ r. IsSound n (with_worker p r.0 ws) r.1 in
      elim (Bool-cases m.closed) [
        | inl e ↦
            subst P (sym (send_paths-closed paths m e))
              (record { accounted = h.accounted; room = omega (arith, h.room) })
        | inr e ↦
            let q =
              queue_paths-AreQueued os (λ id. pending id ws) paths m
                (λ id. omega (arith, h.accounted.accounts id)) h.accounted.fresh
                (omega (arith, h.room)) in
            subst P (sym (send_paths-open paths m e)) (record {
              accounted = record {
                accounts = λ id. omega (
                  arith,
                  q.accounts id,
                  pending-append id ws (new_worker p (queue_paths os paths m).0),
                );
                fresh = q.fresh;
              };
              room = omega (arith, h.room, q.later);
            })
      ]

  pub advance-Keeps : (a : World) → Keeps (advance os cb a)
  unfolding advance
  advance-Keeps a more w m h = advance_from-IsAccounted more os cb a w w.stage m h

  pub report-Keeps : (sent now : ℕ) → Keeps (λ w m. (report sent now w, m))
  unfolding report
  report-Keeps sent now more w m h =
      restaged more w.stage _ w.left m (report_ids more sent now w.stage) h

  pub step-IsSound :
      (x : Step) (xs : List Step) (s : System)
      → IsSound (paths_in (x ∷ xs)) s.workers s.manager
      → let s' = step os cb x s in IsSound (paths_in xs) s'.workers s'.manager
  unfolding step advance report_late
  step-IsSound (queueing p paths) xs s h = queued_sound p paths (paths_in xs) s.workers s.manager h
  step-IsSound (cancelling id) xs s h =
      kept_sound (paths_in xs) s.workers s.manager _ (cancel-IsKept id s.manager) h
  step-IsSound refusing xs s h =
      unfold refuse_more in
      record {
        accounted = record { accounts = h.accounted.accounts; fresh = h.accounted.fresh };
        room = h.room;
      }
  step-IsSound stopping xs s h =
      unfold stop in
      record {
        accounted = record { accounts = h.accounted.accounts; fresh = h.accounted.fresh };
        room = h.room;
      }
  step-IsSound (advancing i a) xs s h =
      turned (advance os cb a) (advance-Keeps a) (λ w m. numbering-advance_from os cb a w w.stage m)
        i (paths_in xs) s.workers s.manager h
  step-IsSound (reporting i sent now) xs s h =
      turned (λ w m. (report sent now w, m)) (report-Keeps sent now) (λ w m. refl) i (paths_in xs)
        s.workers s.manager h
  step-IsSound (reporting_late i id sent now) xs s h =
      turned (λ w m. (report_late id sent now w, m)) (λ more w m h'. h') (λ w m. refl) i
        (paths_in xs) s.workers s.manager h

  run-IsSound :
      (xs ys : List Step) (s : System)
      → IsSound (paths_in (xs ++ ys)) s.workers s.manager
      → let s' = run os cb xs s in IsSound (paths_in ys) s'.workers s'.manager
  unfolding run
  run-IsSound [] ys s h = h
  run-IsSound (x ∷ xs) ys s h = run-IsSound xs ys (step os cb x s) (step-IsSound x (xs ++ ys) s h)

  -- Every state that the steps lead to is sound.
  pub reached-IsSound :
      (prefix : Text) (xs ys : List Step)
      → paths_in (xs ++ ys) < 2 ^ 64
      → let s = run os cb xs (new_system prefix) in IsSound (paths_in ys) s.workers s.manager
  unfolding new_system new lookup
  reached-IsSound prefix xs ys room = run-IsSound xs ys (new_system prefix) (record {
    accounted = record { accounts = λ j. refl; fresh = λ n h. refl };
    room = omega (arith, room);
  })

  cancel_answer : (id : Text) (m : Manager) → one_if (cancel id m).0 ≡ present (lookup id m.items)
  unfolding cancel
  cancel_answer id m = elim (Option-cases (lookup id m.items)) [
    | inl e ↦ rw (cancel, e) refl
    | inr (s, e) ↦ rw (cancel, e) refl
  ]

  -- After any steps that queue fewer than 2^64 paths, `Cancel` answers true for an ID exactly if an
  -- item with it is queued or running and not yet settled, and there is then exactly one such item.
  pub run-cancel_iff :
      (prefix : Text) (xs : List Step) (id : Text)
      → paths_in xs < 2 ^ 64
      → let s = run os cb xs (new_system prefix) in
        pending id s.workers ≡ one_if (cancel id s.manager).0
  run-cancel_iff prefix xs id room =
      let s = run os cb xs (new_system prefix) in
      let sound =
        reached-IsSound prefix xs []
          (subst (λ ys. paths_in ys < 2 ^ 64) (sym (append-nil xs)) room) in
      omega (arith, sound.accounted.accounts id, cancel_answer id s.manager)
