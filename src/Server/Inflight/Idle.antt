-- ===== src/Server/Inflight/Idle.antt =====
-- When the uploads are over.
use lanxfer.Base.{
  ℕ, ◌+◌, ◌-◌, ◌≤◌, ◌<◌, ◌≡◌, ◌↔◌, refl, inl, inr, Bool, true, false, List, [], ◌∷◌, some, arith,
  ◌==◌, Bool-cases,
}
use lanxfer.Server.Inflight.{
  Inflight, is_closed, new_inflight, add, add_after, close_idle, close_if, done, Call, added, ended,
  call, run,
}

-- The uploads that have begun and not ended after the calls.
abbrev pub pending : ℕ → List Call → ℕ
pending n [] = n
pending n (added ∷ cs) = pending (n + 1) cs
pending n (ended ∷ cs) = pending (n - 1) cs

-- No upload ends that has not begun.
abbrev pub IsPaired : ℕ → List Call → Type 0
IsPaired n [] = Unit
IsPaired n (added ∷ cs) = IsPaired (n + 1) cs
IsPaired n (ended ∷ cs) = (1 ≤ n) × IsPaired (n - 1) cs

-- The channel is closed exactly when nothing is in progress, and no later one exists.
record IsSettled (n : ℕ) (f : Inflight) : Type 0 where
  count : f.n ≡ n
  idle_iff : (is_closed f.idle f ≡ true) ↔ (n ≡ 0)
  latest : (ch : ℕ) → f.idle < ch → is_closed ch f ≡ false

new_inflight-IsSettled : IsSettled 0 new_inflight
unfolding new_inflight
new_inflight-IsSettled = record {
  count = refl;
  idle_iff = (λ e. refl, λ e. refl);
  latest = λ ch lt. ground (arith, lt);
}

not_true : {b : Bool} → (b ≡ true → ⊥) → b ≡ false
not_true h = ground arith

add_after-IsSettled :
    (b : Bool) (n : ℕ) (f : Inflight)
    → f.n == 0 ≡ b
    → IsSettled n f
    → IsSettled (n + 1) (add_after b f)
unfolding add_after
add_after-IsSettled true n f z h = record {
  count = omega (arith, h.count);
  idle_iff =
      (λ e. absurd (cc (e, h.latest (f.idle + 1) (omega arith))), λ e. absurd (omega (arith, e)));
  latest = λ ch lt. h.latest ch (omega (arith, lt));
}
add_after-IsSettled false n f z h = record {
  count = omega (arith, h.count);
  idle_iff =
      (λ e. absurd (ground (arith, z, h.count, h.idle_iff.0 e)), λ e. absurd (omega (arith, e)));
  latest = h.latest;
}

done-IsSettled :
    (n : ℕ) (f : Inflight)
    → 1 ≤ n
    → IsSettled n f
    → (f' : Inflight) × (done f ≡ some f') × IsSettled (n - 1) f'
unfolding done close_if close_idle
done-IsSettled n f some_left h =
    let open_now : is_closed f.idle f ≡ false =
      not_true (λ e. absurd (omega (arith, some_left, h.idle_iff.0 e))) in
    elim (Bool-cases (f.n - 1 == 0)) [
      | inl z ↦ (
        record { n = f.n - 1; idle = f.idle; closed = f.idle ∷ f.closed },
        rw (z, close_if, open_now, close_idle) refl,
        record {
          count = omega (arith, h.count);
          idle_iff = (λ e. ground (arith, z, h.count), λ e. ground arith);
          latest = λ ch lt. ground (arith, lt, h.latest ch lt);
        },
      )
      | inr s ↦ (
        record { n = f.n - 1; idle = f.idle; closed = f.closed },
        rw (s, close_if) refl,
        record {
          count = omega (arith, h.count);
          idle_iff = (λ e. absurd (cc (e, open_now)), λ e. absurd (ground (arith, s, h.count, e)));
          latest = h.latest;
        },
      )
    ]

run-IsSettled :
    (cs : List Call) (n : ℕ) (f : Inflight)
    → IsPaired n cs
    → IsSettled n f
    → (f' : Inflight) × (run cs f ≡ some f') × IsSettled (pending n cs) f'
unfolding run call add
run-IsSettled [] n f p h = (f, refl, h)
run-IsSettled (added ∷ cs) n f p h =
    run-IsSettled cs (n + 1) (add f) p (add_after-IsSettled (f.n == 0) n f refl h)
run-IsSettled (ended ∷ cs) n f (some_left, p) h =
    let (mid, e, settled) = done-IsSettled n f some_left h in
    let (last, e', all) = run-IsSettled cs (n - 1) mid p settled in
    (last, rw (e, run, call) e', all)

-- However uploads begin and end, if each ends once after it has begun: no channel is closed twice,
-- which would panic, and the channel that a shutdown waits on is closed exactly when no upload is in
-- progress.
pub run-idle :
    (cs : List Call)
    → IsPaired 0 cs
    → (f : Inflight) × (run cs new_inflight ≡ some f)
      × ((is_closed f.idle f ≡ true) ↔ (pending 0 cs ≡ 0))
unfolding new_inflight
run-idle cs p =
    let (f, e, h) = run-IsSettled cs 0 new_inflight p new_inflight-IsSettled in (f, e, h.idle_iff)
