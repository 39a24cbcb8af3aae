-- ===== src/Examples/Uploads.antt =====
-- The count of uploads in progress, and the sweep of what they left behind.
use lanxfer.Base.{◌≡◌, ◌↔◌, true, List, [], ◌∷◌, some, none, codes, arith, In, ok}
use lanxfer.Unicode.{ascii}
use lanxfer.Server.Filename.{validate_filename}
use lanxfer.Server.Inflight.{Inflight, Call, added, ended, is_closed, new_inflight, run}
use lanxfer.Server.Inflight.Idle.{pending, run-idle}
use lanxfer.Server.Stale.{DirEntry, directory, counted, sweep}
use lanxfer.Server.Stale.Spared.{Spared, sweep_lem}

abbrev calls : List Call
calls = added ∷ added ∷ ended ∷ ended ∷ added ∷ []

run-idle_example :
    (f : Inflight) × (run calls new_inflight ≡ some f)
    × ((is_closed f.idle f ≡ true) ↔ (pending 0 calls ≡ 0))
run-idle_example = run-idle calls (ground arith, (ground arith, tt))

abbrev leftover : DirEntry
leftover = record {
  name = codes ".lanxfer-7.part";
  kind = directory;
  mod_time = none;
  walk = counted (some 3) ∷ counted (some 5) ∷ [];
  removable = true;
}

sweep_lem_example :
    Spared 100 90 (leftover ∷ []) (sweep 100 90 (leftover ∷ []))
    × ((e : DirEntry)
        → In e (leftover ∷ [])
        → validate_filename ascii e.name (codes "linux") ≡ ok tt
        → In e (sweep 100 90 (leftover ∷ [])).entries)
sweep_lem_example = sweep_lem ascii (codes "linux") 100 90 (leftover ∷ [])
