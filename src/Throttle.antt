-- ===== src/Throttle.antt =====
-- gui/queue.go: `throttle`, with its clock and the calls that it has let through.
pub mod Spaced
pub mod Settled
use lanxfer.Base.{
  ℕ, zero, suc, ◌+◌, ◌≡◌, refl, Bool, true, false, not, ◌||◌, List, [], ◌∷◌, Option, none, some,
  ltb, leb, if◌then◌else◌,
}

-- `now` is the clock. `let_through` are the times at which calls of `run` were let through, the
-- values that `last` was given, the newest first; `waiting` are those of them that do not hold
-- `fireMu` yet; `state` numbers what `fire` reads, which every trigger has changed before, and
-- `reported` is what the calls of `fire` have read, the newest first.
pub record Throttle : Type 0 where
  pub interval : ℕ
  pub now : ℕ
  pub last : Option ℕ
  pub pending : Option ℕ
  pub stopped : Bool
  pub let_through : List ℕ
  pub waiting : ℕ
  pub state : ℕ
  pub reported : List ℕ

unfoldable pub new_throttle : ℕ → ℕ → Throttle
new_throttle interval now = record {
  interval = interval;
  now = now;
  last = none;
  pending = none;
  stopped = false;
  let_through = [];
  waiting = 0;
  state = 0;
  reported = [];
}

-- A call is let through now.
unfoldable pub start_now : Throttle → Throttle
start_now t = record t {
  last = some t.now;
  let_through = t.now ∷ t.let_through;
  waiting = t.waiting + 1;
}

-- `last` is the zero time before the first call, and the interval since it has passed.
unfoldable pub trigger_since : Option ℕ → Throttle → Throttle
unfolding start_now
trigger_since none t = start_now t
trigger_since (some last) t =
    if ltb t.now (last + t.interval)
    then record t { pending = some (last + t.interval) }
    else start_now t

unfoldable pub trigger_unless : Bool → Option ℕ → Throttle → Throttle
unfolding trigger_since
trigger_unless true pending t = t
trigger_unless false (some due) t = t
trigger_unless false none t = trigger_since t.last t

unfoldable pub trigger : Throttle → Throttle
unfolding trigger_unless
trigger t = trigger_unless t.stopped t.pending (record t { state = t.state + 1 })

-- `flush` on a stopped throttle, or one that is not.
unfoldable pub flush_unless : Bool → Throttle → Throttle
unfolding start_now
flush_unless true t = record t { pending = none }
flush_unless false t = start_now (record t { pending = none })

-- The timer of a pending call, which runs `flush` once its time has come. A timer that `stop` missed
-- runs `flush` without effect.
unfoldable pub flush_due : Option ℕ → Throttle → Throttle
unfolding flush_unless
flush_due none t = t
flush_due (some due) t = if ltb t.now due then t else flush_unless t.stopped t

unfoldable pub flush : Throttle → Throttle
unfolding flush_due
flush t = flush_due t.pending t

-- One of the waiting calls gets `fireMu`, and `fire` reads the state.
unfoldable pub fire_next : ℕ → Throttle → Throttle
fire_next zero t = t
fire_next (suc n) t = record t { waiting = n; reported = t.state ∷ t.reported }

unfoldable pub fire : Throttle → Throttle
unfolding fire_next
fire t = fire_next t.waiting t

unfoldable pub stop : Throttle → Throttle
stop t = record t { stopped = true; pending = none }

-- What can happen, in the order of the locks; time passes between.
pub data Event : Type 0 where
  passing : ℕ → Event
  triggering expiring firing stopping : Event

unfoldable pub happen : Event → Throttle → Throttle
unfolding trigger flush fire stop
happen (passing n) t = record t { now = t.now + n }
happen triggering t = trigger t
happen expiring t = flush t
happen firing t = fire t
happen stopping t = stop t

unfoldable pub run : List Event → Throttle → Throttle
unfolding happen
run [] t = t
run (e ∷ es) t = run es (happen e t)
