-- ===== src/Transfer/Queue/Spared.antt =====
-- An item that is cancelled while it is queued.
use lanxfer.Base.{
  ℕ, ◌+◌, ◌≤◌, ◌≡◌, refl, ap, sym, subst, ◌∙◌, inl, inr, Bool, true, false, List, [], ◌∷◌, ◌++◌,
  Option, none, some, Text, if◌then◌else◌, Result, ok, err, arith, Option-cases, text_eq,
  text_eq_iff, lookup, All, All-append, lookup-insert, lookup-delete,
}
use lanxfer.Presence.{Peer}
use lanxfer.Transfer.Queue.{
  Os, Manager, Slot, Job, ids_of, slot_of, start, forget, cancel, cancel_slot,
}
use lanxfer.Transfer.Queue.Worker.{
  Info, World, Callbacks, Stage, resting, running, scanning, aiming, sending, ending, settling,
  recording, Worker, begin_job, examined, examine, scanned, aimed, answered, begin_next, take_next,
  aim, finish_job, advance_from, stat_kind, unsent_entry, sent_now,
}
use lanxfer.History.{Entry, status_cancelled}
use lanxfer.Transfer.{Plan, Target, fill_outcome, path_entry}
use lanxfer.Transfer.Queue.Accounted.{IsAccounted}
use lanxfer.Transfer.Queue.Accounted.Counts.{count_id, count_id_self, present, present-some}

abbrev pub IsCancelled : Text → Job → Entry → Type 0
IsCancelled id job e = text_eq job.id id ≡ true → e.status ≡ status_cancelled

-- The item is not on its way, and an entry of it says that it was cancelled.
abbrev pub IsSparedAt : Text → Stage → Type 0
IsSparedAt id resting = Unit
IsSparedAt id (running job) = text_eq job.id id ≡ false
IsSparedAt id (scanning job info) = text_eq job.id id ≡ false
IsSparedAt id (aiming job info plan) = text_eq job.id id ≡ false
IsSparedAt id (sending job info plan tg) = text_eq job.id id ≡ false
IsSparedAt id (ending job o) = text_eq job.id id ≡ false
IsSparedAt id (settling job e) = IsCancelled id job e
IsSparedAt id (recording job e) = IsCancelled id job e

-- `id` was never sent, and its entry, if there is one, says that it was cancelled.
pub record IsSpared (id : Text) (st : Stage) (w : Worker) : Type 0 where
  pub at_rest : IsSparedAt id st
  pub unsent : count_id id w.sent ≡ 0
  pub ended : All (λ (d : Job × Entry). IsCancelled id d.0 d.1) w.finished

-- As long as it is in the map, it has its mark.
abbrev pub HasMark : Option Slot → Type 0
HasMark none = Unit
HasMark (some s) = s.cancel_queued ≡ true

abbrev pub IsMarked : Text → Manager → Type 0
IsMarked id m = HasMark (lookup id m.items)

count_id-append :
    (id : Text) (xs ys : List Text) → count_id id (xs ++ ys) ≡ count_id id xs + count_id id ys
count_id-append id [] ys = omega arith
count_id-append id (x ∷ xs) ys = omega (arith, count_id-append id xs ys)

stat_kind_cancelled : (stat : Result Text Info) (e : Entry) → (stat_kind stat e).status ≡ e.status
unfolding stat_kind
stat_kind_cancelled (err x) e = refl
stat_kind_cancelled (ok info) e = ground arith

unsent_entry_cancelled :
    (os : Os) (p : Peer) (job : Job) (stat : Result Text Info)
    → (unsent_entry os p job stat).status ≡ status_cancelled
unfolding unsent_entry path_entry fill_outcome
unsent_entry_cancelled os p job stat = stat_kind_cancelled stat _

module _ (id : Text) where
  slot_marked :
      (m : Manager)
      → IsMarked id m
      → 1 ≤ present (lookup id m.items)
      → (slot_of id m).cancel_queued ≡ true
  unfolding slot_of
  slot_marked m k h =
      let (s, e) = present-some (lookup id m.items) h in simp (e, slot_of) (subst HasMark e k)

  refused :
      (m : Manager) → IsMarked id m → 1 ≤ present (lookup id m.items) → start id m ≡ (false, m)
  unfolding start
  refused m k h = ground (arith, slot_marked m k h)

  begun-IsSpared :
      (os : Os) (a : World) (w : Worker) (job : Job) (left : List Job) (may_run : Bool)
      → IsSpared id resting w
      → (may_run ≡ true → text_eq job.id id ≡ false)
      → let w' = begin_next os a w job left may_run in IsSpared id w'.stage w'
  unfolding begin_next
  begun-IsSpared os a w job left true h k = record {
    at_rest = k refl;
    unsent = h.unsent;
    ended = h.ended;
  }
  begun-IsSpared os a w job left false h k = record {
    at_rest = λ _. unsent_entry_cancelled os w.peer job a.stat;
    unsent = h.unsent;
    ended = h.ended;
  }

  start_other :
      (j : Text) (m : Manager)
      → text_eq j id ≡ false
      → lookup id (start j m).1.items ≡ lookup id m.items
  unfolding start
  start_other j m f =
      ground (arith, f, lookup-insert j id (record (slot_of j m) { cancel = some false }) m.items)

  forget-IsMarked : (j : Text) (m : Manager) → IsMarked id m → IsMarked id (forget j m)
  unfolding forget
  forget-IsMarked j m k =
      subst HasMark (sym (lookup-delete j id m.items))
        (deleted (text_eq j id) (lookup id m.items) k)
    where
      deleted : (b : Bool) (o : Option Slot) → HasMark o → HasMark (if b then none else o)
      deleted true o h = tt
      deleted false o h = h

  cancel_slot-marked :
      (c : Option Bool) (t : Slot)
      → t.cancel ≡ c
      → t.cancel_queued ≡ true
      → (cancel_slot t).cancel_queued ≡ true
  unfolding cancel_slot
  cancel_slot-marked none t e h = ground (arith, e)
  cancel_slot-marked (some b) t e h = ground (arith, e, h)

  inserted_mark :
      (b : Bool) (t : Slot) (o : Option Slot)
      → (b ≡ true → t.cancel_queued ≡ true)
      → HasMark o
      → HasMark (if b then some t else o)
  inserted_mark true t o f h = f refl
  inserted_mark false t o f h = h

  pub cancel-IsMarked : (j : Text) (m : Manager) → IsMarked id m → IsMarked id (cancel j m).1
  unfolding cancel
  cancel-IsMarked j m k = elim (Option-cases (lookup j m.items)) [
    | inl e ↦ rw (cancel, e) k
    | inr (t, e) ↦
        let t_marked : text_eq j id ≡ true → t.cancel_queued ≡ true = λ same.
          subst HasMark (ap (λ i. lookup i m.items) (sym ((text_eq_iff j id).0 same)) ∙ e) k in
        simp (e, cancel)
          (subst HasMark (sym (lookup-insert j id (cancel_slot t) m.items)) (
            inserted_mark (text_eq j id) (cancel_slot t) (lookup id m.items)
              (λ same. cancel_slot-marked t.cancel t refl (t_marked same)) k))
  ]

  -- The result of a step.
  abbrev pub Kept : Worker × Manager → Type 0
  Kept (w, m) = IsSpared id w.stage w × IsMarked id m

  module _ (more : Text → ℕ) where
    taken_spared :
        (os : Os) (a : World) (w : Worker) (job : Job) (left : List Job) (m : Manager) (b : Bool)
        → text_eq job.id id ≡ b
        → IsAccounted more resting (job ∷ left) m
        → IsSpared id resting w
        → IsMarked id m
        → Kept (begin_next os a w job left (start job.id m).0, (start job.id m).1)
    taken_spared os a w job left m true e acc h k =
        let same : job.id ≡ id = (text_eq_iff job.id id).0 e in
        let there : 1 ≤ present (lookup id m.items) =
          subst (λ j. 1 ≤ present (lookup j m.items)) same
            (omega (arith, acc.accounts job.id, count_id_self job.id (ids_of left))) in
        let stays : start job.id m ≡ (false, m) = ap (λ j. start j m) same ∙ refused m k there in
        subst (λ r. Kept (begin_next os a w job left r.0, r.1)) (sym stays)
          (begun-IsSpared os a w job left false h (λ b. cc), k)
    taken_spared os a w job left m false e acc h k = (
      begun-IsSpared os a w job left (start job.id m).0 h (λ _. e),
      subst HasMark (sym (start_other job.id m e)) k,
    )

    take_next_spared :
        (os : Os) (a : World) (w : Worker) (left : List Job) (m : Manager)
        → IsAccounted more resting left m
        → IsSpared id resting w
        → IsMarked id m
        → Kept (take_next os a (record w { left = left; stage = resting }) left m)
    unfolding take_next
    take_next_spared os a w [] m acc h k =
        (record { at_rest = tt; unsent = h.unsent; ended = h.ended }, k)
    take_next_spared os a w (job ∷ left) m acc h k =
        taken_spared os a (record w { left = job ∷ left; stage = resting }) job left m
          (text_eq job.id id) refl acc (record { at_rest = tt; unsent = h.unsent; ended = h.ended })
          k

    examined_spared :
        (os : Os) (now : ℕ) (job : Job) (info : Info) (d : Bool)
        → text_eq job.id id ≡ false
        → IsSparedAt id (examined os now job info d)
    unfolding examined begin_job
    examined_spared os now job info true f = f
    examined_spared os now job info false f = f

    examine_spared :
        (os : Os) (p : Peer) (now : ℕ) (job : Job) (r : Result Text Info)
        → text_eq job.id id ≡ false
        → IsSparedAt id (examine os p now job r)
    unfolding examine
    examine_spared os p now job (err e) f = f
    examine_spared os p now job (ok info) f = examined_spared os now job info info.is_dir f

    scanned_spared :
        (os : Os) (p : Peer) (now : ℕ) (job : Job) (info : Info) (r : Result Text Plan)
        → text_eq job.id id ≡ false
        → IsSparedAt id (scanned os p now job info r)
    unfolding scanned begin_job
    scanned_spared os p now job info (err e) f = f
    scanned_spared os p now job info (ok plan) f = f

    aimed_spared :
        (p : Peer) (job : Job) (info : Info) (plan : Option Plan) (r : Result Text Target)
        → text_eq job.id id ≡ false
        → IsSparedAt id (aimed p job info plan r) × (count_id id (sent_now job r) ≡ 0)
    unfolding aimed sent_now
    aimed_spared p job info plan (ok tg) f = (f, rw f refl)
    aimed_spared p job info plan (err e) f = (f, refl)

    pub advance_from_spared :
        (os : Os) (cb : Callbacks) (a : World) (w : Worker) (st : Stage) (m : Manager)
        → IsAccounted more st w.left m
        → IsSpared id st w
        → IsMarked id m
        → Kept (advance_from os cb a (record w { stage = st }) st m)
    unfolding advance_from answered aim finish_job
    advance_from_spared os cb a w resting m acc h k = take_next_spared os a w w.left m acc h k
    advance_from_spared os cb a w (running job) m acc h k = (
      record {
        at_rest = examine_spared os w.peer a.now job a.stat h.at_rest;
        unsent = h.unsent;
        ended = h.ended;
      },
      k,
    )
    advance_from_spared os cb a w (scanning job info) m acc h k = (
      record {
        at_rest = scanned_spared os w.peer a.now job info a.scan h.at_rest;
        unsent = h.unsent;
        ended = h.ended;
      },
      k,
    )
    advance_from_spared os cb a w (aiming job info plan) m acc h k =
        let (rest, none_sent) = aimed_spared w.peer job info plan _ h.at_rest in
        (
          record {
            at_rest = rest;
            unsent = count_id-append id w.sent _ ∙ omega (arith, h.unsent, none_sent);
            ended = h.ended;
          },
          k,
        )
    advance_from_spared os cb a w (sending job info plan tg) m acc h k =
        (record { at_rest = h.at_rest; unsent = h.unsent; ended = h.ended }, k)
    advance_from_spared os cb a w (ending job o) m acc h k =
        (record { at_rest = λ same. absurd (cc); unsent = h.unsent; ended = h.ended }, k)
    advance_from_spared os cb a w (settling job e) m acc h k = (
      record { at_rest = h.at_rest; unsent = h.unsent; ended = h.ended },
      forget-IsMarked job.id m k,
    )
    advance_from_spared os cb a w (recording job e) m acc h k = (
      record {
        at_rest = tt;
        unsent = h.unsent;
        ended = All-append _ w.finished _ (h.at_rest, tt) h.ended;
      },
      k,
    )
