-- ===== src/Throttle/Spaced.antt =====
-- The calls that a throttle lets through, and what they report.
use lanxfer.Base.{
  sym, ◌∙◌, ℕ, zero, suc, ◌+◌, ◌≤◌, ◌≡◌, ◌≢◌, ◌⊎◌, refl, inl, inr, Bool, true, false, List, [], ◌∷◌,
  Option, none, some, arith, ltb, Bool-cases,
}
use lanxfer.Throttle.{
  Throttle, new_throttle, start_now, trigger_since, trigger_unless, trigger, flush_unless,
  flush_due, flush, fire_next, fire, stop, Event, passing, triggering, expiring, firing, stopping,
  happen, run,
}

-- Two calls that follow each other are let through at least an interval apart.
abbrev pub AreApart : ℕ → List ℕ → Type 0
AreApart interval [] = Unit
AreApart interval (x ∷ []) = Unit
AreApart interval (x ∷ y ∷ let_through) = (y + interval ≤ x) × AreApart interval (y ∷ let_through)

-- The time of the last call that was let through, which is not in the future.
abbrev pub IsLast : ℕ → List ℕ → Option ℕ → Type 0
IsLast now [] last = last ≡ none
IsLast now (x ∷ let_through) last = (last ≡ some x) × (x ≤ now)

-- A pending call is due when the interval after the last one ends.
abbrev pub IsDue : ℕ → Option ℕ → Option ℕ → Type 0
IsDue interval last none = Unit
IsDue interval none (some due) = ⊥
IsDue interval (some x) (some due) = due ≡ x + interval

abbrev pub IsNewest : ℕ → List ℕ → Type 0
IsNewest n [] = n ≡ 0
IsNewest n (x ∷ reported) = x ≡ n

-- A call is still to come, or the newest state was reported.
abbrev pub IsCovered : Throttle → Type 0
IsCovered t =
    (t.stopped ≡ true) ⊎ ((t.pending ≢ none) ⊎ ((1 ≤ t.waiting) ⊎ IsNewest t.state t.reported))

pub record IsSpaced (t : Throttle) : Type 0 where
  pub apart : AreApart t.interval t.let_through
  pub is_last : IsLast t.now t.let_through t.last
  pub is_due : IsDue t.interval t.last t.pending
  pub covered : IsCovered t

start_now-apart :
    (interval now : ℕ) (let_through : List ℕ) (last : Option ℕ)
    → AreApart interval let_through
    → IsLast now let_through last
    → ((x : ℕ) → last ≡ some x → x + interval ≤ now)
    → AreApart interval (now ∷ let_through)
start_now-apart interval now [] last a l h = tt
start_now-apart interval now (x ∷ let_through) last a l h = (h x l.0, a)

passing-IsLast :
    (now n : ℕ) (let_through : List ℕ) (last : Option ℕ)
    → IsLast now let_through last
    → IsLast (now + n) let_through last
passing-IsLast now n [] last h = h
passing-IsLast now n (x ∷ let_through) last h = (h.0, ground (arith, h.1))

start_now-IsSpaced :
    (t : Throttle)
    → AreApart t.interval t.let_through
    → IsLast t.now t.let_through t.last
    → t.pending ≡ none
    → ((x : ℕ) → t.last ≡ some x → x + t.interval ≤ t.now)
    → IsSpaced (start_now t)
unfolding start_now
start_now-IsSpaced t a l p h = record {
  apart = start_now-apart t.interval t.now t.let_through t.last a l h;
  is_last = (refl, ground arith);
  is_due = rw p tt;
  covered = inr (inr (inl (ground arith)));
}

trigger_since-IsSpaced :
    (last : Option ℕ) (t : Throttle)
    → last ≡ t.last
    → AreApart t.interval t.let_through
    → IsLast t.now t.let_through t.last
    → t.pending ≡ none
    → IsSpaced (trigger_since last t)
unfolding trigger_since
trigger_since-IsSpaced none t e a l p =
    start_now-IsSpaced t a l p (λ x h. absurd (ground (arith, e, h)))
trigger_since-IsSpaced (some last) t e a l p = elim (Bool-cases (ltb t.now (last + t.interval))) [
  | inl early ↦
      rw (early, trigger_since)
        (record { apart = a; is_last = l; is_due = rw (← e) refl; covered = inr (inl (λ h. cc)) })
  | inr passed ↦
      rw (passed, trigger_since) (start_now-IsSpaced t a l p (λ x h. ground (arith, e, h, passed)))
]

trigger-IsSpaced : (t : Throttle) → IsSpaced t → IsSpaced (trigger t)
unfolding trigger trigger_unless
trigger-IsSpaced t s = trigger_by t.stopped t.pending refl refl
  where
    trigger_by :
        (b : Bool) (pending : Option ℕ)
        → b ≡ t.stopped
        → pending ≡ t.pending
        → IsSpaced (trigger_unless b pending (record t { state = t.state + 1 }))
    trigger_by true pending e p = record {
      apart = s.apart;
      is_last = s.is_last;
      is_due = s.is_due;
      covered = inl (sym e);
    }
    trigger_by false (some due) e p = record {
      apart = s.apart;
      is_last = s.is_last;
      is_due = s.is_due;
      covered = inr (inl (λ h. cc (p ∙ h)));
    }
    trigger_by false none e p =
        trigger_since-IsSpaced t.last (record t { state = t.state + 1 }) refl s.apart s.is_last
          (sym p)

due_of :
    (interval : ℕ) (last pending : Option ℕ) (x due : ℕ)
    → IsDue interval last pending
    → last ≡ some x
    → pending ≡ some due
    → due ≡ x + interval
due_of interval last none x due h l p = cc
due_of interval none (some d) x due h l p = absurd h
due_of interval (some y) (some d) x due h l p = ground (arith, h, l, p)

flush_unless-IsSpaced :
    (b : Bool) (t : Throttle)
    → b ≡ t.stopped
    → IsSpaced t
    → ((x : ℕ) → t.last ≡ some x → x + t.interval ≤ t.now)
    → IsSpaced (flush_unless b t)
unfolding flush_unless
flush_unless-IsSpaced true t e s h = record {
  apart = s.apart;
  is_last = s.is_last;
  is_due = tt;
  covered = inl (sym e);
}
flush_unless-IsSpaced false t e s h =
    start_now-IsSpaced (record t { pending = none }) s.apart s.is_last refl h

flush_due-IsSpaced :
    (pending : Option ℕ) (t : Throttle)
    → pending ≡ t.pending
    → IsSpaced t
    → IsSpaced (flush_due pending t)
unfolding flush_due
flush_due-IsSpaced none t e s = s
flush_due-IsSpaced (some due) t e s = elim (Bool-cases (ltb t.now due)) [
  | inl early ↦ rw (early, flush_due) s
  | inr come ↦
      rw (come, flush_due)
        (flush_unless-IsSpaced t.stopped t refl s (λ x h.
          ground (arith, come, due_of t.interval t.last t.pending x due s.is_due h (sym e))))
]

fire_next-IsSpaced : (n : ℕ) (t : Throttle) → n ≡ t.waiting → IsSpaced t → IsSpaced (fire_next n t)
unfolding fire_next
fire_next-IsSpaced zero t e s = s
fire_next-IsSpaced (suc n) t e s = record {
  apart = s.apart;
  is_last = s.is_last;
  is_due = s.is_due;
  covered = inr (inr (inr refl));
}

pub happen-IsSpaced : (e : Event) (t : Throttle) → IsSpaced t → IsSpaced (happen e t)
unfolding happen stop fire flush
happen-IsSpaced (passing n) t s = record {
  apart = s.apart;
  is_last = passing-IsLast t.now n t.let_through t.last s.is_last;
  is_due = s.is_due;
  covered = s.covered;
}
happen-IsSpaced triggering t s = trigger-IsSpaced t s
happen-IsSpaced expiring t s = flush_due-IsSpaced t.pending t refl s
happen-IsSpaced firing t s = fire_next-IsSpaced t.waiting t refl s
happen-IsSpaced stopping t s = record {
  apart = s.apart;
  is_last = s.is_last;
  is_due = tt;
  covered = inl refl;
}

pub run-IsSpaced : (es : List Event) (t : Throttle) → IsSpaced t → IsSpaced (run es t)
unfolding run
run-IsSpaced [] t s = s
run-IsSpaced (e ∷ es) t s = run-IsSpaced es (happen e t) (happen-IsSpaced e t s)

pub new_throttle-IsSpaced : (interval now : ℕ) → IsSpaced (new_throttle interval now)
unfolding new_throttle
new_throttle-IsSpaced interval now = record {
  apart = tt;
  is_last = refl;
  is_due = tt;
  covered = inr (inr (inr refl));
}
