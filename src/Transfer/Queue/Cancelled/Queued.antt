-- ===== src/Transfer/Queue/Cancelled/Queued.antt =====
-- What SendPaths adds to the map of a manager.
use lanxfer.Base.{
  ℕ, ◌+◌, ◌^◌, ◌≤◌, ◌<◌, ◌≡◌, refl, ap, sym, ◌∙◌, Bool, true, false, List, [], ◌∷◌, Option, some,
  Text, if◌then◌else◌, arith, length, text_eq, text_eq_iff, lookup, insert, lookup-insert,
}
use lanxfer.Transfer.Queue.{
  Os, Manager, Slot, Job, ids_of, make_id, next_seq, add_item, queued_job, queued_slot, queue_paths,
}
use lanxfer.Transfer.Queue.Issued.{make_id-injective}
use lanxfer.Transfer.Queue.Run.{
  Step, queueing, cancelling, refusing, stopping, advancing, reporting, reporting_late,
}
use lanxfer.Transfer.Queue.Accounted.Counts.{one_if, count_id, present, IsFresh}

-- The paths that the steps queue, if the manager stays open.
abbrev pub paths_in : List Step → ℕ
paths_in [] = 0
paths_in (queueing p paths ∷ xs) = length paths + paths_in xs
paths_in (cancelling id ∷ xs) = paths_in xs
paths_in (refusing ∷ xs) = paths_in xs
paths_in (stopping ∷ xs) = paths_in xs
paths_in (advancing j a ∷ xs) = paths_in xs
paths_in (reporting j sent now ∷ xs) = paths_in xs
paths_in (reporting_late j id sent now ∷ xs) = paths_in xs

added_present :
    (b : Bool) (o : Option Slot) (k : ℕ)
    → k ≡ present o
    → (b ≡ true → present o ≡ 0)
    → one_if b + k ≡ present (if b then some queued_slot else o)
added_present true o k h f = omega (arith, h, f refl)
added_present false o k h f = omega (arith, h)

-- The map against the jobs of the loop of `SendPaths`.
pub record AreQueued (more : Text → ℕ) (jobs : List Job) (before m : Manager) (n : ℕ) : Type 0 where
  pub accounts : (id : Text) → count_id id (ids_of jobs) + more id ≡ present (lookup id m.items)
  pub fresh : IsFresh m
  pub later : m.seq ≡ before.seq + n
  pub same_prefix : m.prefix ≡ before.prefix

module _ (more : Text → ℕ) (m : Manager) where
  add_item-accounts :
      ((id : Text) → more id ≡ present (lookup id m.items))
      → IsFresh m
      → (id : Text)
      → let new_id = make_id m.prefix (m.seq + 1) in
        one_if (text_eq new_id id) + more id
        ≡ present (lookup id (insert new_id queued_slot m.items))
  add_item-accounts h f id =
      let new_id = make_id m.prefix (m.seq + 1) in
      added_present (text_eq new_id id) (lookup id m.items) (more id) (h id) (λ e.
        ap (λ j. present (lookup j m.items)) (sym ((text_eq_iff new_id id).0 e))
        ∙ f (m.seq + 1) (omega arith))
      ∙ sym (ap present (lookup-insert new_id id queued_slot m.items))

  add_item-IsFresh : IsFresh m → IsFresh (add_item (make_id m.prefix (m.seq + 1)) (m.seq + 1) m)
  unfolding add_item
  add_item-IsFresh f n h =
      let new_id = make_id m.prefix (m.seq + 1) in
      let id = make_id m.prefix n in
      ap present (lookup-insert new_id id queued_slot m.items)
      ∙ other (text_eq new_id id) (λ e.
        omega (arith, make_id-injective m.prefix (m.seq + 1) n ((text_eq_iff new_id id).0 e), h))
    where
      other :
          (b : Bool)
          → (b ≡ true → 1 ≤ 0)
          → present (if b then some queued_slot else lookup (make_id m.prefix n) m.items) ≡ 0
      other true e = absurd (omega (arith, e refl))
      other false e = f n (omega (arith, h))

module _ (os : Os) where
  pub queue_paths-AreQueued :
      (more : Text → ℕ) (paths : List Text) (m : Manager)
      → ((id : Text) → more id ≡ present (lookup id m.items))
      → IsFresh m
      → m.seq + length paths < 2 ^ 64
      → AreQueued more (queue_paths os paths m).0 m (queue_paths os paths m).1 (length paths)
  unfolding queue_paths add_item queued_job
  queue_paths-AreQueued more [] m h f r = record {
    accounts = λ id. omega (arith, h id);
    fresh = f;
    later = omega arith;
    same_prefix = refl;
  }
  queue_paths-AreQueued more (path ∷ paths) m h f r =
      let seq : next_seq m ≡ m.seq + 1 = unfold next_seq in omega (arith, r) in
      let new_id = make_id m.prefix (m.seq + 1) in
      let rest =
        queue_paths-AreQueued (λ id. one_if (text_eq new_id id) + more id) paths
          (add_item new_id (m.seq + 1) m) (add_item-accounts more m h f) (add_item-IsFresh more m f)
          (omega (arith, r)) in
      rw seq (record {
        accounts = λ id. omega (arith, rest.accounts id);
        fresh = rest.fresh;
        later = rest.later ∙ (omega arith);
        same_prefix = rest.same_prefix;
      })

-- No step but `SendPaths` numbers items.
abbrev pub numbering : Manager → ℕ × Text
numbering m = (m.seq, m.prefix)
