-- ===== src/Transfer/Queue.antt =====
-- internal/transfer: `Manager`, its queued and running items, and the calls that use its lock.
pub mod Issued
pub mod Worker
pub mod Run
pub mod Orderly
pub mod Turns
pub mod Work
pub mod Reports
pub mod Within
pub mod Promised
pub mod Accounted
pub mod Cancelled
pub mod Spared
pub mod Unsent
pub mod Lookups
pub mod Texts
pub mod Recorded
use lanxfer.Base.{
  ℕ, ◌+◌, ◌%◌, ◌^◌, ◌≡◌, refl, Bool, true, false, ◌||◌, List, [], ◌∷◌, ◌++◌, Option, none, some,
  Text, codes, if◌then◌else◌, Map, lookup, insert, delete,
}
use lanxfer.Decimal.{decimal}
use lanxfer.Netaddr.{Addr}
use lanxfer.Presence.{Peer}
use lanxfer.Transfer.{Update, Item, Target, emit_locked}

-- The functions of the operating system on paths, and `Addr.String`.
pub record Os : Type 0 where
  pub base_name : Text → Text
  pub absolute : Text → Option Text
  pub show : Addr → Text

unfoldable pub abs_path : Os → Text → Text
abs_path os path = elim (os.absolute path) [ some abs ↦ abs | none ↦ path ]

unfoldable pub peer_target : Peer → Target
peer_target p = record { addr = p.addr; id = p.id; name = p.name }

-- What `Manager.mu` guards of an item: the context of a running item, here whether it was cancelled,
-- and the mark on a queued one.
pub record Slot : Type 0 where
  pub cancel : Option Bool
  pub cancel_queued : Bool

abbrev pub queued_slot : Slot
queued_slot = record { cancel = none; cancel_queued = false }

-- `stopped` says that the context of the manager is cancelled.
pub record Manager : Type 0 where
  pub prefix : Text
  pub closed : Bool
  pub stopped : Bool
  pub seq : ℕ
  pub items : Map Slot

unfoldable pub new : Text → Manager
new prefix = record { prefix = prefix; closed = false; stopped = false; seq = 0; items = [] }

unfoldable pub make_id : Text → ℕ → Text
make_id prefix seq = codes "t" ++ prefix ++ codes "-" ++ decimal seq

-- One path of a `SendPaths` call, with its own lock's part.
pub record Job : Type 0 where
  pub id : Text
  pub path : Text
  pub item : Item

unfoldable pub queued_update : Os → Text → Text → Update
queued_update os id path = record {
  id = id;
  name = os.base_name path;
  path = abs_path os path;
  folder = false;
  sent = 0;
  total = 0;
  files = 0;
  skipped = 0;
  done = false;
  status = [];
  error = [];
}

-- A job after its first update.
unfoldable pub queued_job : Os → Text → Text → Job
unfolding queued_update emit_locked
queued_job os id path =
    let base = queued_update os id path in
    let fresh : Item = record { done = false; base = base; sent = 0; last = 0; shown = [] } in
    record { id = id; path = path; item = emit_locked base fresh }

-- `m.seq++`
unfoldable pub next_seq : Manager → ℕ
next_seq m = (m.seq + 1) % 2 ^ 64

unfoldable pub add_item : Text → ℕ → Manager → Manager
add_item id seq m = record m { seq = seq; items = insert id queued_slot m.items }

-- The loop of `SendPaths`.
unfoldable pub queue_paths : Os → List Text → Manager → List Job × Manager
unfolding next_seq
queue_paths os [] m = ([], m)
queue_paths os (path ∷ paths) m =
    let id = make_id m.prefix (next_seq m) in
    let (jobs, m') = queue_paths os paths (add_item id (next_seq m) m) in
    (queued_job os id path ∷ jobs, m')

abbrev pub ids_of : List Job → List Text
ids_of [] = []
ids_of (j ∷ jobs) = j.id ∷ ids_of jobs

-- `SendPaths`: the jobs of a new worker, unless the manager is closed.
unfoldable pub send_paths : Os → List Text → Manager → Option (List Job) × Manager
unfolding queue_paths
send_paths os paths m =
    if m.closed then (none, m) else let (jobs, m') = queue_paths os paths m in (some jobs, m')

unfoldable pub cancel_slot : Slot → Slot
cancel_slot s = elim s.cancel [
  | some _ ↦ record s { cancel = some true }
  | none ↦ record s { cancel_queued = true }
]

unfoldable pub cancel : Text → Manager → Bool × Manager
unfolding cancel_slot
cancel id m = elim (lookup id m.items) [
  | none ↦ (false, m)
  | some s ↦ (true, record m { items = insert id (cancel_slot s) m.items })
]

-- `Close` in its two steps; it returns when the workers have ended.
unfoldable pub refuse_more : Manager → Manager
refuse_more m = record m { closed = true }

unfoldable pub stop : Manager → Manager
stop m = record m { stopped = true }

-- A job keeps its slot until it is settled.
unfoldable pub slot_of : Text → Manager → Slot
slot_of id m = elim (lookup id m.items) [ none ↦ queued_slot | some s ↦ s ]

unfoldable pub start : Text → Manager → Bool × Manager
unfolding slot_of
start id m =
    let s = slot_of id m in
    if s.cancel_queued || m.stopped
    then (false, m)
    else (true, record m { items = insert id (record s { cancel = some false }) m.items })

abbrev pub is_cancelled : Option Bool → Bool
is_cancelled none = false
is_cancelled (some b) = b

-- `ctx.Err() != nil` for the context of a running job.
unfoldable pub ctx_done : Text → Manager → Bool
unfolding slot_of
ctx_done id m = m.stopped || is_cancelled (slot_of id m).cancel

unfoldable pub forget : Text → Manager → Manager
forget id m = record m { items = delete id m.items }
