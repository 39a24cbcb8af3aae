-- ===== src/Server/Inflight.antt =====
-- internal/server/inflight.go: the count of uploads in progress.
pub mod Idle
use lanxfer.Base.{
  ℕ, zero, suc, ◌+◌, ◌-◌, ◌≡◌, refl, Bool, true, false, List, [], ◌∷◌, Option, none, some, ◌==◌,
  any_by, if◌then◌else◌, ◌>>=◌,
}

-- Channels are numbered in the order in which they are made; `closed` lists those that are closed.
pub record Inflight : Type 0 where
  pub n : ℕ
  pub idle : ℕ
  pub closed : List ℕ

abbrev pub is_closed : ℕ → Inflight → Bool
is_closed ch f = any_by (λ c. c == ch) f.closed

unfoldable pub new_inflight : Inflight
new_inflight = record { n = 0; idle = 0; closed = 0 ∷ [] }

-- A new channel when nothing is in progress.
unfoldable pub add_after : Bool → Inflight → Inflight
add_after true f = record f { n = f.n + 1; idle = f.idle + 1 }
add_after false f = record f { n = f.n + 1 }

unfoldable pub add : Inflight → Inflight
add f = add_after (f.n == 0) f

-- `close`, which panics on a closed channel.
unfoldable pub close_idle : Inflight → Option Inflight
close_idle f = if is_closed f.idle f then none else some (record f { closed = f.idle ∷ f.closed })

unfoldable pub close_if : Bool → Inflight → Option Inflight
close_if true f = close_idle f
close_if false f = some f

-- The code calls `done` only after `add`, so the count does not go below 0.
unfoldable pub done : Inflight → Option Inflight
done f = let f' = record f { n = f.n - 1 } in close_if (f'.n == 0) f'

pub data Call : Type 0 where
  added ended : Call

unfoldable pub call : Call → Inflight → Option Inflight
call added f = some (add f)
call ended f = done f

-- The calls in the order in which they take the lock; `none` is a panic.
unfoldable pub run : List Call → Inflight → Option Inflight
run [] f = some f
run (c ∷ cs) f = elim (call c f) [ none ↦ none | some f' ↦ run cs f' ]
