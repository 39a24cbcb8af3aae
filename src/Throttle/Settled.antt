-- ===== src/Throttle/Settled.antt =====
-- What the calls of a throttle report, and that a stop ends them.
use lanxfer.Base.{
  sym, ◌∙◌, subst, ℕ, zero, suc, ◌+◌, ◌≤◌, ◌≡◌, ◌⊎◌, refl, inl, inr, Bool, true, false, List, [],
  ◌∷◌, Option, none, some, arith, ltb, length,
}
use lanxfer.Throttle.{
  Throttle, new_throttle, start_now, trigger_since, trigger_unless, trigger, flush_unless,
  flush_due, flush, fire_next, fire, stop, Event, passing, triggering, expiring, firing, stopping,
  happen, run,
}
use lanxfer.Throttle.Spaced.{
  AreApart, IsLast, IsDue, IsNewest, IsCovered, IsSpaced, happen-IsSpaced, run-IsSpaced,
  new_throttle-IsSpaced,
}

-- The interval passes, a pending call is let through, and as many calls as wait have their turn.
abbrev fires : ℕ → List Event
fires zero = []
fires (suc n) = firing ∷ fires n

abbrev pub settled : Throttle → Throttle
settled t =
    let ready = happen expiring (happen (passing t.interval) t) in run (fires ready.waiting) ready

-- What the calls leave.
record IsDone (t t' : Throttle) : Type 0 where
  none_waits : t'.waiting ≡ 0
  same_pending : t'.pending ≡ t.pending
  same_stopped : t'.stopped ≡ t.stopped
  same_state : t'.state ≡ t.state

fires_lem : (n : ℕ) (t : Throttle) → t.waiting ≡ n → IsDone t (run (fires n) t)
unfolding run happen fire fire_next
fires_lem zero t e = record {
  none_waits = e;
  same_pending = refl;
  same_stopped = refl;
  same_state = refl;
}
fires_lem (suc n) t e =
    let d = fires_lem n (record t { waiting = n; reported = t.state ∷ t.reported }) refl in
    subst (λ (k : ℕ). IsDone t (run (fires n) (fire_next k t))) (sym e)
      (record {
        none_waits = d.none_waits;
        same_pending = d.same_pending;
        same_stopped = d.same_stopped;
        same_state = d.same_state;
      })

-- The timer comes when the interval has passed.
flush_unless_lem :
    (b : Bool) (t : Throttle)
    → ((flush_unless b t).pending ≡ none)
      × ((flush_unless b t).stopped ≡ t.stopped)
      × ((flush_unless b t).state ≡ t.state)
unfolding flush_unless start_now
flush_unless_lem true t = (refl, refl, refl)
flush_unless_lem false t = (refl, refl, refl)

flush_due_lem :
    (pending : Option ℕ) (t : Throttle)
    → pending ≡ t.pending
    → ((due : ℕ) → pending ≡ some due → due ≤ t.now)
    → ((flush_due pending t).pending ≡ none)
      × ((flush_due pending t).stopped ≡ t.stopped)
      × ((flush_due pending t).state ≡ t.state)
unfolding flush_due
flush_due_lem none t e h = (sym e, refl, refl)
flush_due_lem (some due) t e h =
    let come : ltb t.now due ≡ false = ground (arith, h due refl) in
    rw (come, flush_due) (flush_unless_lem t.stopped t)

due_soon :
    (interval now : ℕ) (let_through : List ℕ) (last pending : Option ℕ) (due : ℕ)
    → IsLast now let_through last
    → IsDue interval last pending
    → pending ≡ some due
    → due ≤ now + interval
due_soon interval now let_through none none due l d p = cc
due_soon interval now let_through (some x) none due l d p = cc
due_soon interval now let_through none (some y) due l d p = absurd d
due_soon interval now [] (some x) (some y) due l d p = cc
due_soon interval now (z ∷ let_through) (some x) (some y) due l d p = ground (arith, l.0, l.1, d, p)

settled-IsSpaced : (t : Throttle) → IsSpaced t → IsSpaced (settled t)
settled-IsSpaced t s =
    let ready = happen expiring (happen (passing t.interval) t) in
    run-IsSpaced (fires ready.waiting) ready (
      happen-IsSpaced expiring (happen (passing t.interval) t)
        (happen-IsSpaced (passing t.interval) t s))

IsCovered-IsNewest :
    (t t' : Throttle)
    → t'.stopped ≡ t.stopped
    → t'.pending ≡ none
    → t'.waiting ≡ 0
    → t'.state ≡ t.state
    → IsCovered t'
    → (t.stopped ≡ true) ⊎ IsNewest t.state t'.reported
IsCovered-IsNewest t t' st p w n (inl c) = inl (sym st ∙ c)
IsCovered-IsNewest t t' st p w n (inr (inl c)) = absurd (c p)
IsCovered-IsNewest t t' st p w n (inr (inr (inl c))) = absurd (ground (arith, c, w))
IsCovered-IsNewest t t' st p w n (inr (inr (inr c))) =
    inr (subst (λ (k : ℕ). IsNewest k t'.reported) n c)

settled-IsNewest :
    (t : Throttle) → IsSpaced t → (t.stopped ≡ true) ⊎ IsNewest t.state (settled t).reported
unfolding happen flush
settled-IsNewest t s =
    let later : Throttle = happen (passing t.interval) t in
    let ready : Throttle = happen expiring later in
    let f = flush_due_lem t.pending later refl (λ due p.
      due_soon t.interval t.now t.let_through t.last t.pending due s.is_last s.is_due p) in
    let d = fires_lem ready.waiting ready refl in
    IsCovered-IsNewest t (settled t) (d.same_stopped ∙ f.1) (d.same_pending ∙ f.0) d.none_waits
      (d.same_state ∙ f.2) (settled-IsSpaced t s).covered

happen_interval : (e : Event) (t : Throttle) → (happen e t).interval ≡ t.interval
unfolding happen trigger trigger_unless trigger_since start_now flush flush_due flush_unless fire
    fire_next stop
happen_interval e t = ground arith

run_interval : (es : List Event) (t : Throttle) → (run es t).interval ≡ t.interval
unfolding run
run_interval [] t = refl
run_interval (e ∷ es) t = run_interval es (happen e t) ∙ happen_interval e t

abbrev IsOver : Throttle → Type 0
IsOver t = (t.stopped ≡ true) × (t.pending ≡ none)

happen-IsOver :
    (e : Event) (t : Throttle)
    → IsOver t
    → IsOver (happen e t) × ((happen e t).let_through ≡ t.let_through)
unfolding happen trigger trigger_unless flush flush_due fire fire_next stop
happen-IsOver e t o = ground (arith, o.0, o.1)

run-IsOver : (es : List Event) (t : Throttle) → IsOver t → (run es t).let_through ≡ t.let_through
unfolding run
run-IsOver [] t o = refl
run-IsOver (e ∷ es) t o =
    let (o', same) = happen-IsOver e t o in run-IsOver es (happen e t) o' ∙ same

-- No call of `fire` without a call that was let through.
abbrev IsCounted : Throttle → Type 0
IsCounted t = length t.reported + t.waiting ≡ length t.let_through

fire_next-IsCounted :
    (n : ℕ) (t : Throttle) → n ≡ t.waiting → IsCounted t → IsCounted (fire_next n t)
unfolding fire_next
fire_next-IsCounted zero t e h = h
fire_next-IsCounted (suc n) t e h = ground (arith, e, h)

happen-IsCounted : (e : Event) (t : Throttle) → IsCounted t → IsCounted (happen e t)
unfolding happen trigger trigger_unless trigger_since start_now flush flush_due flush_unless fire
    stop
happen-IsCounted (passing n) t h = h
happen-IsCounted triggering t h = ground (arith, h)
happen-IsCounted expiring t h = ground (arith, h)
happen-IsCounted firing t h = fire_next-IsCounted t.waiting t refl h
happen-IsCounted stopping t h = h

run-IsCounted : (es : List Event) (t : Throttle) → IsCounted t → IsCounted (run es t)
unfolding run
run-IsCounted [] t h = h
run-IsCounted (e ∷ es) t h = run-IsCounted es (happen e t) (happen-IsCounted e t h)

-- Whatever triggers, timers, calls and stops come and whatever time passes between: the times at which
-- calls of `run` are let through are at least an interval apart, though those that wait for a slow
-- call of `fire` follow it at once; each of them calls `fire` once or waits to do so; if the throttle
-- is not stopped, once the interval passes, the timer runs and the calls that wait have their turn,
-- the newest of the reports is of the state at the last trigger; and after a stop no call is let
-- through, whatever follows.
pub run-IsThrottled :
    (interval now : ℕ) (es later : List Event)
    → let t = run es (new_throttle interval now) in
      AreApart interval t.let_through
      × (length t.reported + t.waiting ≡ length t.let_through)
      × ((t.stopped ≡ true) ⊎ IsNewest t.state (settled t).reported)
      × ((run later (stop t)).let_through ≡ t.let_through)
unfolding new_throttle stop
run-IsThrottled interval now es later =
    let t = run es (new_throttle interval now) in
    let s = run-IsSpaced es (new_throttle interval now) (new_throttle-IsSpaced interval now) in
    (
      subst (λ (k : ℕ). AreApart k t.let_through) (run_interval es (new_throttle interval now))
          s.apart,
      run-IsCounted es (new_throttle interval now) refl,
      settled-IsNewest t s,
      run-IsOver later (stop t) (refl, refl),
    )
