-- ===== src/EventQueue.antt =====
-- gui/queue.go: `eventQueue`, with the items that `drain` has handed to its function.
pub mod Order
use lanxfer.Base.{ℕ, ◌≡◌, refl, Bool, true, false, List, [], ◌∷◌, ◌++◌, if◌then◌else◌}

pub record EventQueue (A : Type 0) : Type 0 where
  pub items : List A
  pub closed : Bool
  pub handled : List A
  pub returned : Bool

module _ {A : Type 0} where
  unfoldable pub new_event_queue : EventQueue A
  new_event_queue = record { items = []; closed = false; handled = []; returned = false }

  unfoldable pub push : A → EventQueue A → EventQueue A
  push v q = if q.closed then q else record q { items = q.items ++ v ∷ [] }

  unfoldable pub close : EventQueue A → EventQueue A
  close q = record q { closed = true }

  -- A round of `drain`: an open queue without items waits, a closed one ends the loop.
  unfoldable pub drain_round : EventQueue A → EventQueue A
  drain_round q = elim q.items [
    | [] ↦ if q.closed then record q { returned = true } else q
    | v ∷ batch ↦ record q { items = []; handled = q.handled ++ v ∷ batch }
  ]
