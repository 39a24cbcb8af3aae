-- ===== src/Transfer/Queue/Accounted/Counts.antt =====
-- How often an ID is in the map of a manager, and what the steps on the map keep.
use lanxfer.Base.{
  ℕ, ◌+◌, ◌≤◌, ◌<◌, ◌≡◌, refl, ap, sym, subst, ◌∙◌, inl, inr, Bool, true, false, ◌||◌, List, [],
  ◌∷◌, Option, none, some, Text, if◌then◌else◌, arith, Option-cases, text_eq, text_eq_iff,
  text_eq_refl, Map, lookup, insert, lookup-insert, lookup-delete,
}
use lanxfer.Transfer.Queue.{Manager, Slot, Job, ids_of, slot_of, start, forget, cancel, make_id}
use lanxfer.Transfer.Queue.Worker.{
  Stage, resting, running, scanning, aiming, sending, ending, settling, recording, Worker,
}

abbrev pub one_if : Bool → ℕ
one_if true = 1
one_if false = 0

abbrev pub count_id : Text → List Text → ℕ
count_id id [] = 0
count_id id (j ∷ js) = one_if (text_eq j id) + count_id id js

-- The jobs that were not settled.
abbrev pub unsettled : Stage → List Job
unsettled resting = []
unsettled (running job) = job ∷ []
unsettled (scanning job info) = job ∷ []
unsettled (aiming job info plan) = job ∷ []
unsettled (sending job info plan tg) = job ∷ []
unsettled (ending job o) = job ∷ []
unsettled (settling job e) = job ∷ []
unsettled (recording job e) = []

abbrev pub pending_of : Text → Stage → List Job → ℕ
pending_of id st left = count_id id (ids_of (unsettled st)) + count_id id (ids_of left)

abbrev pub pending : Text → List Worker → ℕ
pending id [] = 0
pending id (w ∷ ws) = pending_of id w.stage w.left + pending id ws

abbrev pub present : Option Slot → ℕ
present none = 0
present (some s) = 1

-- Every ID counts once if it is in the map, and not at all else; `more` counts the other workers.
abbrev pub Accounts : (Text → ℕ) → Stage → List Job → Manager → Type 0
Accounts more st left m =
    (id : Text) → pending_of id st left + more id ≡ present (lookup id m.items)

-- No later sequence number is in use.
abbrev pub IsFresh : Manager → Type 0
IsFresh m = (n : ℕ) → m.seq < n → present (lookup (make_id m.prefix n) m.items) ≡ 0

pub present-some : (o : Option Slot) → 1 ≤ present o → (s : Slot) × (o ≡ some s)
present-some none h = absurd (omega (arith, h))
present-some (some s) h = (s, refl)

same_present :
    (id j : Text) (s s' : Slot) (m : Map Slot) (b : Bool)
    → (b ≡ true → id ≡ j)
    → lookup id m ≡ some s
    → present (if b then some s' else lookup j m) ≡ present (lookup j m)
same_present id j s s' m true e h = sym (ap present (ap (λ k. lookup k m) (sym (e refl)) ∙ h))
same_present id j s s' m false e h = refl

present-insert :
    (id j : Text) (s s' : Slot) (m : Map Slot)
    → lookup id m ≡ some s
    → present (lookup j (insert id s' m)) ≡ present (lookup j m)
present-insert id j s s' m h =
    ap present (lookup-insert id j s' m)
    ∙ same_present id j s s' m (text_eq id j) (text_eq_iff id j).0 h

pub count_id_self : (id : Text) (js : List Text) → 1 ≤ count_id id (id ∷ js)
count_id_self id js = rw (text_eq_refl id) (omega arith)

-- No item is added to the map or removed from it.
pub record IsKept (m m' : Manager) : Type 0 where
  pub same_seq : m'.seq ≡ m.seq
  pub same_prefix : m'.prefix ≡ m.prefix
  pub kept : (j : Text) → present (lookup j m'.items) ≡ present (lookup j m.items)

pub IsKept-IsFresh : (m m' : Manager) → IsKept m m' → IsFresh m → IsFresh m'
IsKept-IsFresh m m' k f n h =
    k.kept (make_id m'.prefix n)
    ∙ ap (λ p. present (lookup (make_id p n) m.items)) k.same_prefix
    ∙ f n (subst (λ q. q < n) k.same_seq h)

start_on : Bool → Text → Slot → Manager → Bool × Manager
start_on refused id s m =
    if refused
    then (false, m)
    else (true, record m { items = insert id (record s { cancel = some false }) m.items })

start_on-IsKept :
    (refused : Bool) (id : Text) (s s' : Slot) (m : Manager)
    → lookup id m.items ≡ some s
    → IsKept m (start_on refused id s' m).1
unfolding start_on
start_on-IsKept true id s s' m h = record { same_seq = refl; same_prefix = refl; kept = λ j. refl }
start_on-IsKept false id s s' m h = record {
  same_seq = refl;
  same_prefix = refl;
  kept = λ j. present-insert id j s _ m.items h;
}

pub start-IsKept :
    (id : Text) (m : Manager) → 1 ≤ present (lookup id m.items) → IsKept m (start id m).1
unfolding start start_on
start-IsKept id m h =
    let (s, e) = present-some (lookup id m.items) h in
    start_on-IsKept ((slot_of id m).cancel_queued || m.stopped) id s (slot_of id m) m e

pub cancel-IsKept : (id : Text) (m : Manager) → IsKept m (cancel id m).1
unfolding cancel
cancel-IsKept id m = elim (Option-cases (lookup id m.items)) [
  | inl e ↦ rw (cancel, e) (record { same_seq = refl; same_prefix = refl; kept = λ j. refl })
  | inr (s, e) ↦
      simp (e, cancel)
        (record {
          same_seq = refl;
          same_prefix = refl;
          kept = λ j. present-insert id j s _ m.items e;
        })
]

-- Settling an item removes it.
pub forgotten :
    (b : Bool) (o : Option Slot) (k : ℕ)
    → one_if b + k ≡ present o
    → k ≡ present (if b then none else o)
forgotten true none k h = absurd (omega (arith, h))
forgotten true (some s) k h = omega (arith, h)
forgotten false o k h = omega (arith, h)

forget_fresh : (b : Bool) (o : Option Slot) → present o ≡ 0 → present (if b then none else o) ≡ 0
forget_fresh true o h = refl
forget_fresh false o h = h

pub forget-IsFresh : (id : Text) (m : Manager) → IsFresh m → IsFresh (forget id m)
unfolding forget
forget-IsFresh id m f n h =
    ap present (lookup-delete id (make_id m.prefix n) m.items)
    ∙ forget_fresh (text_eq id (make_id m.prefix n)) (lookup (make_id m.prefix n) m.items) (f n h)
