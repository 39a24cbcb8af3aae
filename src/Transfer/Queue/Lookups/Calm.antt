-- ===== src/Transfer/Queue/Lookups/Calm.antt =====
-- A manager in which nothing is cancelled.
use lanxfer.Base.{
  ℕ, ◌+◌, ◌≡◌, refl, sym, subst, inl, inr, Bool, true, false, ◌||◌, List, [], ◌∷◌, Option, none,
  some, Text, if◌then◌else◌, Result, ok, err, arith, Bool-cases, text_eq, lookup, insert,
  lookup-insert, lookup-delete,
}
use lanxfer.Transfer.Queue.{
  Os, Manager, Slot, is_cancelled, slot_of, start, forget, make_id, next_seq, add_item, queued_slot,
  queue_paths,
}
use lanxfer.Transfer.Queue.Worker.{Worker, locate}
use lanxfer.Transfer.{Target}

-- No context is cancelled.
pub record IsCalm (m : Manager) : Type 0 where
  pub going : m.stopped ≡ false
  pub uncancelled : (id : Text) → is_cancelled (slot_of id m).cancel ≡ false

unfoldable pub AskedOnce : Option (Result Text Target) → ℕ → Type 0
AskedOnce none n = n ≡ 0
AskedOnce (some r) n = n ≡ 1

abbrev pub IsAsked : Worker → Type 0
IsAsked w = AskedOnce w.loc w.lookups

abbrev IsUncancelled : Option Slot → Type 0
IsUncancelled o =
    is_cancelled (elim o as (λ _. Slot) [ none ↦ queued_slot | some s ↦ s ]).cancel ≡ false

inserted_calm :
    (b : Bool) (s : Slot) (o : Option Slot)
    → is_cancelled s.cancel ≡ false
    → IsUncancelled o
    → IsUncancelled (if b then some s else o)
inserted_calm true s o h k = h
inserted_calm false s o h k = k

deleted_calm :
    (b : Bool) (o : Option Slot) → IsUncancelled o → IsUncancelled (if b then none else o)
deleted_calm true o k = refl
deleted_calm false o k = k

insert-IsCalm :
    (id : Text) (s : Slot) (n : ℕ) (m : Manager)
    → is_cancelled s.cancel ≡ false
    → IsCalm m
    → IsCalm (record m { seq = n; items = insert id s m.items })
unfolding slot_of
insert-IsCalm id s n m e h = record {
  going = h.going;
  uncancelled = λ j.
      subst IsUncancelled (sym (lookup-insert id j s m.items))
        (inserted_calm (text_eq id j) s (lookup j m.items) e (h.uncancelled j));
}

pub forget-IsCalm : (id : Text) (m : Manager) → IsCalm m → IsCalm (forget id m)
unfolding forget slot_of
forget-IsCalm id m h = record {
  going = h.going;
  uncancelled = λ j.
      subst IsUncancelled (sym (lookup-delete id j m.items))
        (deleted_calm (text_eq id j) (lookup j m.items) (h.uncancelled j));
}

pub start-IsCalm : (id : Text) (m : Manager) → IsCalm m → IsCalm (start id m).1
unfolding start
start-IsCalm id m h = elim (Bool-cases ((slot_of id m).cancel_queued || m.stopped)) [
  | inl e ↦ simp (e, start) h
  | inr e ↦
      simp (e, start)
        (insert-IsCalm id (record (slot_of id m) { cancel = some false }) m.seq m refl h)
]

pub queue_paths-IsCalm :
    (os : Os) (paths : List Text) (m : Manager) → IsCalm m → IsCalm (queue_paths os paths m).1
unfolding queue_paths add_item
queue_paths-IsCalm os [] m h = h
queue_paths-IsCalm os (path ∷ paths) m h =
    queue_paths-IsCalm os paths _
      (insert-IsCalm (make_id m.prefix (next_seq m)) queued_slot (next_seq m) m refl h)

pub locate_once :
    (found : Result Text Target) (loc : Option (Result Text Target)) (n : ℕ)
    → AskedOnce loc n
    → let (r, loc', asked) = locate false found loc in AskedOnce loc' (n + asked)
unfolding locate AskedOnce
locate_once (ok tg) none n h = omega (arith, h)
locate_once (err e) none n h = omega (arith, h)
locate_once found (some r) n h = omega (arith, h)

-- The result of a step.
abbrev pub Kept : Worker × Manager → Type 0
Kept (w, m) = IsAsked w × IsCalm m
