-- ===== src/Examples/EventQueue.antt =====
-- gui/queue.go on a few steps.
use lanxfer.Base.{length, ◌+◌, ℕ, ◌≡◌, refl, true, ◌⊎◌, List, [], ◌∷◌}
use lanxfer.EventQueue.{new_event_queue, push, close, drain_round}
use lanxfer.Throttle.{
  Event, passing, triggering, expiring, firing, new_throttle, stop, run as run_throttle,
}
use lanxfer.Throttle.Spaced.{AreApart, IsNewest}
use lanxfer.Throttle.Settled.{settled, run-IsThrottled}
use lanxfer.EventQueue.Order.{Step, pushed, closing, round, run}

abbrev busy : List (Step ℕ)
busy = pushed 1 ∷ round ∷ pushed 2 ∷ pushed 3 ∷ closing ∷ pushed 4 ∷ round ∷ round ∷ []

busy_handled : (run busy new_event_queue).handled ≡ 1 ∷ 2 ∷ 3 ∷ []
unfolding run new_event_queue push close drain_round
busy_handled = refl

-- A trigger inside the interval, and one after the timer has run.
abbrev events : List Event
events =
    triggering
    ∷ firing
    ∷ passing 3
    ∷ triggering
    ∷ passing 7
    ∷ expiring
    ∷ firing
    ∷ passing 2
    ∷ triggering
    ∷ []

events_reported : (run_throttle events (new_throttle 10 100)).let_through ≡ 110 ∷ 100 ∷ []
unfolding run_throttle new_throttle
events_reported = refl

-- Three calls that wait for one slow call of `fire` then report with no time between them.
abbrev slow : List Event
slow =
    triggering ∷ passing 10 ∷ triggering ∷ passing 10 ∷ triggering ∷ firing ∷ firing ∷ firing ∷ []

slow_fire : (run_throttle slow (new_throttle 10 100)).reported ≡ 3 ∷ 3 ∷ 3 ∷ []
unfolding run_throttle new_throttle
slow_fire = refl

run-IsThrottled_example :
    let t = run_throttle events (new_throttle 10 100) in
    AreApart 10 t.let_through
    × (length t.reported + t.waiting ≡ length t.let_through)
    × ((t.stopped ≡ true) ⊎ IsNewest t.state (settled t).reported)
    × ((run_throttle (passing 10 ∷ expiring ∷ []) (stop t)).let_through ≡ t.let_through)
run-IsThrottled_example = run-IsThrottled 10 100 events (passing 10 ∷ expiring ∷ [])
