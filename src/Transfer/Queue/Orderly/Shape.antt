-- ===== src/Transfer/Queue/Orderly/Shape.antt =====
-- What the items of a worker look like between two steps.
use lanxfer.Base.{
  ℕ, ◌≡◌, refl, ap, subst, Bool, true, false, List, [], ◌∷◌, ◌++◌, Text, if◌then◌else◌, All,
  append-nil, arith,
}
use lanxfer.History.{Entry}
use lanxfer.Transfer.{Item, begin, Update}
use lanxfer.Transfer.Updates.{IsRunning, IsOpen, Ended, begun, report_step, report_step-IsRunning}
use lanxfer.Transfer.Queue.{Os, Job, ids_of}
use lanxfer.Transfer.Queue.Worker.{
  World, Callbacks, Stage, resting, running, scanning, aiming, sending, ending, settling, recording,
  Note, record_called, unrecorded, Worker, record_entry, begin_next,
}

-- `xs` is `ys` without some of its elements.
pub data Sub {A : Type 0} : List A → List A → Type 0 where
  none_of : {ys : List A} → Sub [] ys
  keep : {x : A} {xs ys : List A} → Sub xs ys → Sub (x ∷ xs) (x ∷ ys)
  skip : {y : A} {xs ys : List A} → Sub xs ys → Sub xs (y ∷ ys)

module _ {A : Type 0} where
  Sub-one : (z : A) (ys : List A) → Sub (z ∷ []) (ys ++ z ∷ [])
  Sub-one z [] = keep none_of
  Sub-one z (y ∷ ys) = skip (Sub-one z ys)

  pub Sub-snoc : (z : A) (xs ys : List A) → Sub xs ys → Sub (xs ++ z ∷ []) (ys ++ z ∷ [])
  Sub-snoc z [] ys s = Sub-one z ys
  Sub-snoc z (x ∷ xs) [] s = elim s [ ]
  Sub-snoc z (x ∷ xs) (_ ∷ ys) (keep s) = keep (Sub-snoc z xs ys s)
  Sub-snoc z xs (y ∷ ys) (skip s) = skip (Sub-snoc z xs ys s)

  Sub-more : (zs xs ys : List A) → Sub xs ys → Sub xs (ys ++ zs)
  Sub-more zs [] ys s = none_of
  Sub-more zs (x ∷ xs) [] s = elim s [ ]
  Sub-more zs (x ∷ xs) (_ ∷ ys) (keep s) = keep (Sub-more zs xs ys s)
  Sub-more zs xs (y ∷ ys) (skip s) = skip (Sub-more zs xs ys s)

abbrev pub done_ids : List (Job × Entry) → List Text
done_ids [] = []
done_ids ((job, e) ∷ ds) = job.id ∷ done_ids ds

abbrev pub entries_of : List (Job × Entry) → List Entry
entries_of [] = []
entries_of ((job, e) ∷ ds) = e ∷ entries_of ds

-- The entries of the calls of Record.
abbrev pub record_calls : List Note → List Entry
record_calls [] = []
record_calls (record_called e ∷ notes) = e ∷ record_calls notes
record_calls (unrecorded e ∷ notes) = record_calls notes

abbrev pub job_of : Stage → List Job
job_of resting = []
job_of (running job) = job ∷ []
job_of (scanning job info) = job ∷ []
job_of (aiming job info plan) = job ∷ []
job_of (sending job info plan tg) = job ∷ []
job_of (ending job o) = job ∷ []
job_of (settling job e) = job ∷ []
job_of (recording job e) = job ∷ []

-- The job that may have been sent.
abbrev pub past_aim : Stage → List Text
past_aim resting = []
past_aim (running job) = []
past_aim (scanning job info) = []
past_aim (aiming job info plan) = []
past_aim (sending job info plan tg) = job.id ∷ []
past_aim (ending job o) = job.id ∷ []
past_aim (settling job e) = job.id ∷ []
past_aim (recording job e) = job.id ∷ []

abbrev pub IsOpenJob : Job → Type 0
IsOpenJob job = IsRunning job.item

abbrev pub IsFinished : Job × Entry → Type 0
IsFinished (job, e) = (job.item.done ≡ true) × Ended e job.item.shown

-- `ids` are the IDs that `SendPaths` returned.
pub record IsOrderly (cb : Callbacks) (ids : List Text) (st : Stage) (w : Worker) : Type 0 where
  pub same_ids : done_ids w.finished ++ (ids_of (job_of st) ++ ids_of w.left) ≡ ids
  pub recorded : record_calls w.notes ≡ (if cb.has_record then entries_of w.finished else [])
  pub ended : All IsFinished w.finished
  pub current_open : All IsOpenJob (job_of st)
  pub left_open : All IsOpenJob w.left
  pub in_order : Sub w.sent (done_ids w.finished ++ past_aim st)

pub begin-IsRunning :
    (u : Update) (now : ℕ) (it : Item) → IsOpen u → IsRunning it → IsRunning (begin u now it)
unfolding report_step
begin-IsRunning u now it o h = report_step-IsRunning (begun u now) it o h

pub not_yet :
    (w : Worker) (ids : List Text)
    → Sub w.sent (done_ids w.finished ++ [])
    → Sub w.sent (done_ids w.finished ++ ids)
not_yet w ids s =
    Sub-more ids w.sent (done_ids w.finished)
      (subst (Sub w.sent) (append-nil (done_ids w.finished)) s)

pub done_ids-append :
    (xs ys : List (Job × Entry)) → done_ids (xs ++ ys) ≡ done_ids xs ++ done_ids ys
done_ids-append [] ys = refl
done_ids-append ((job, e) ∷ xs) ys = ap (◌∷◌ job.id) (done_ids-append xs ys)

pub entries_of-append :
    (xs ys : List (Job × Entry)) → entries_of (xs ++ ys) ≡ entries_of xs ++ entries_of ys
entries_of-append [] ys = refl
entries_of-append ((job, e) ∷ xs) ys = ap (◌∷◌ e) (entries_of-append xs ys)

pub record_calls-append :
    (xs ys : List Note) → record_calls (xs ++ ys) ≡ record_calls xs ++ record_calls ys
record_calls-append [] ys = refl
record_calls-append (record_called e ∷ xs) ys = ap (◌∷◌ e) (record_calls-append xs ys)
record_calls-append (unrecorded e ∷ xs) ys = record_calls-append xs ys

pub record_calls-record_entry :
    (cb : Callbacks) (stored : Bool) (e : Entry)
    → record_calls (record_entry cb stored e) ≡ (if cb.has_record then e ∷ [] else [])
unfolding record_entry
record_calls-record_entry cb stored e = ground arith

pub recorded_more :
    (b : Bool) (xs : List Entry) (e : Entry)
    → (if b then xs else []) ++ (if b then e ∷ [] else []) ≡ (if b then xs ++ e ∷ [] else [])
recorded_more true xs e = refl
recorded_more false xs e = refl

pub append_congr : {xs xs' ys ys' : List Entry} → xs ≡ xs' → ys ≡ ys' → xs ++ ys ≡ xs' ++ ys'
append_congr p q = λ i. p i ++ q i

pub begin_next_lem :
    (cb : Callbacks) (ids : List Text) (w : Worker) (os : Os) (a : World) (job : Job)
    (left : List Job) (may_run : Bool)
    → IsOrderly cb ids resting (record w { left = job ∷ left })
    → let w' = begin_next os a w job left may_run in IsOrderly cb ids w'.stage w'
unfolding begin_next
begin_next_lem cb ids w os a job left true h = record {
  same_ids = h.same_ids;
  recorded = h.recorded;
  ended = h.ended;
  current_open = (h.left_open.0, tt);
  left_open = h.left_open.1;
  in_order = h.in_order;
}
begin_next_lem cb ids w os a job left false h = record {
  same_ids = h.same_ids;
  recorded = h.recorded;
  ended = h.ended;
  current_open = (h.left_open.0, tt);
  left_open = h.left_open.1;
  in_order = not_yet w (job.id ∷ []) h.in_order;
}
