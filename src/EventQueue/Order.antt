-- ===== src/EventQueue/Order.antt =====
-- What the queue hands out, and in which order.
use lanxfer.Base.{
  ◌≡◌, refl, ap, ◌∙◌, sym, Bool, true, false, List, [], ◌∷◌, ◌++◌, append_assoc, append-nil,
  if◌then◌else◌,
}
use lanxfer.EventQueue.{EventQueue, new_event_queue, push, close, drain_round}

-- The calls of the producers and the rounds of `drain`, in the order in which they get the lock.
pub data Step (A : Type 0) : Type 0 where
  pushed : A → Step A
  closing : Step A
  round : Step A

module _ {A : Type 0} where
  unfoldable pub run : List (Step A) → EventQueue A → EventQueue A
  run [] q = q
  run (pushed v ∷ steps) q = run steps (push v q)
  run (closing ∷ steps) q = run steps (close q)
  run (round ∷ steps) q = run steps (drain_round q)

  -- The items pushed before the queue was closed.
  unfoldable pub accepted : List (Step A) → List A
  accepted [] = []
  accepted (pushed v ∷ steps) = v ∷ accepted steps
  accepted (closing ∷ steps) = []
  accepted (round ∷ steps) = accepted steps

  -- What a queue still takes.
  abbrev taken : Bool → List (Step A) → List A
  taken closed steps = if closed then [] else accepted steps

  abbrev queue : List A → Bool → List A → Bool → EventQueue A
  queue items closed handled returned = record {
    items = items;
    closed = closed;
    handled = handled;
    returned = returned;
  }

  abbrev all_of : EventQueue A → List A
  all_of q = q.handled ++ q.items

  run-all_of :
      (steps : List (Step A)) (items : List A) (closed : Bool) (h : List A) (r : Bool)
      → all_of (run steps (queue items closed h r)) ≡ (h ++ items) ++ taken closed steps
  unfolding run accepted push close drain_round
  run-all_of [] items true h r = sym (append-nil (h ++ items))
  run-all_of [] items false h r = sym (append-nil (h ++ items))
  run-all_of (pushed v ∷ steps) items true h r = run-all_of steps items true h r
  run-all_of (pushed v ∷ steps) items false h r =
      run-all_of steps (items ++ v ∷ []) false h r
      ∙ ap (λ xs. xs ++ accepted steps) (sym (append_assoc h items (v ∷ [])))
      ∙ append_assoc (h ++ items) (v ∷ []) (accepted steps)
  run-all_of (closing ∷ steps) items true h r = run-all_of steps items true h r
  run-all_of (closing ∷ steps) items false h r = run-all_of steps items true h r
  run-all_of (round ∷ steps) [] true h r = run-all_of steps [] true h true
  run-all_of (round ∷ steps) [] false h r = run-all_of steps [] false h r
  run-all_of (round ∷ steps) (v ∷ batch) closed h r =
      run-all_of steps [] closed (h ++ v ∷ batch) r
      ∙ ap (λ xs. xs ++ taken closed steps) (append-nil (h ++ v ∷ batch))

  -- `drain` returns only from a closed queue without items, which then stays so.
  abbrev IsOver : EventQueue A → Type 0
  IsOver q = q.returned ≡ true → q.items ≡ []

  run-IsOver :
      (steps : List (Step A)) (items : List A) (closed : Bool) (h : List A) (r : Bool)
      → (r ≡ true → (items ≡ []) × (closed ≡ true))
      → IsOver (run steps (queue items closed h r))
  unfolding run push close drain_round
  run-IsOver [] items closed h r o = λ e. (o e).0
  run-IsOver (pushed v ∷ steps) items true h r o = run-IsOver steps items true h r o
  run-IsOver (pushed v ∷ steps) items false h r o =
      run-IsOver steps (items ++ v ∷ []) false h r (λ e. cc ((o e).1))
  run-IsOver (closing ∷ steps) items closed h r o =
      run-IsOver steps items true h r (λ e. ((o e).0, refl))
  run-IsOver (round ∷ steps) [] true h r o = run-IsOver steps [] true h true (λ _. (refl, refl))
  run-IsOver (round ∷ steps) [] false h r o = run-IsOver steps [] false h r o
  run-IsOver (round ∷ steps) (v ∷ batch) closed h r o =
      run-IsOver steps [] closed (h ++ v ∷ batch) r (λ e. (refl, (o e).1))

  -- However pushes, the closing and the rounds of `drain` are interleaved, what was handed out and
  -- what still waits are together the items pushed before the queue was closed, in their order.
  run-accepted :
      (steps : List (Step A))
      → (run steps new_event_queue).handled ++ (run steps new_event_queue).items ≡ accepted steps
  unfolding new_event_queue
  run-accepted steps = run-all_of steps [] false [] false

  -- Once `drain` has returned, it has handed out exactly the items pushed before the queue was
  -- closed, in their order.
  run-returned :
      (steps : List (Step A))
      → (run steps new_event_queue).returned ≡ true
      → (run steps new_event_queue).handled ≡ accepted steps
  unfolding new_event_queue
  run-returned steps e =
      let over = run-IsOver steps [] false [] false (λ e. cc) e in
      sym (append-nil (run steps new_event_queue).handled)
      ∙ ap (λ xs. (run steps new_event_queue).handled ++ xs) (sym over)
      ∙ run-accepted steps
