-- ===== src/Examples/Queue.antt =====
-- internal/transfer: the manager on a few paths.
use lanxfer.Base.{
  ◌≡◌, refl, true, false, List, [], ◌∷◌, ◌++◌, none, some, Text, codes, arith, length, ok, err, All,
  text_eq, lookup, insert,
}
use lanxfer.Transfer.Queue.Recorded.Always.{IsLoggable, AreLoggable, run-AreLoggable}
use lanxfer.Decimal.{decimal}
use lanxfer.Netaddr.{invalid}
use lanxfer.Presence.{Peer}
use lanxfer.Transfer.{Target}
use lanxfer.Transfer.Queue.{
  Os, ids_of, queue_paths, queued_slot, make_id, new, cancel, queued_job, next_seq, add_item,
  send_paths,
}
use lanxfer.Transfer.Queue.Worker.{World, Callbacks, new_worker}
use lanxfer.Transfer.Queue.Run.{
  System, Step, queueing, cancelling, refusing, advancing, reporting, run, step, new_system,
  with_worker,
}
use lanxfer.Transfer.Queue.Turns.{At}
use lanxfer.Transfer.Queue.Promised.{Promise, run-Promise}
use lanxfer.Transfer.Queue.Accounted.Counts.{pending, one_if}
use lanxfer.Transfer.Queue.Cancelled.{run-cancel_iff}
use lanxfer.Transfer.Queue.Unsent.{IsWaiting, run-AreSpared}
use lanxfer.Transfer.Queue.Unsent.Steps.{AreSpared}
use lanxfer.Transfer.Queue.Lookups.{LooksOnce, run-LooksOnce}
use lanxfer.Transfer.Queue.Texts.{Call, say_to, send_text, TextOutcome, send_text-TextOutcome}

abbrev os : Os
os = record { base_name = λ path. path; absolute = λ path. some path; show = λ a. [] }

abbrev recorded : Callbacks
recorded = record { has_record = true; has_unrecorded = true }

abbrev ann : Peer
ann = record {
  id = [];
  name = codes "ann";
  os = [];
  addr = record { addr = invalid; port = 0 };
  last_seen = 0;
  online = true;
}

abbrev ann_target : Target
ann_target = record { id = []; name = codes "ann"; addr = record { addr = invalid; port = 0 } }

-- A file of nine bytes, a receiver that takes it, and a history that refuses the entry.
abbrev sunny : World
sunny = record {
  stat = ok (record { is_dir = false; size = 9 });
  scan = err (codes "no folder");
  found = ok ann_target;
  answer = none;
  failure = none;
  now = 5;
  stored = false;
}

-- A receiver that is not found.
abbrev offline : World
offline = record sunny { found = err (codes "offline") }

abbrev idle : System
idle = record {
  manager = record { prefix = codes "x"; closed = false; stopped = false; seq = 0; items = [] };
  workers = [];
}

abbrev two_paths : List Text
two_paths = codes "/a" ∷ codes "/b" ∷ []

abbrev four : World → List Step
four a = advancing 0 a ∷ advancing 0 a ∷ advancing 0 a ∷ advancing 0 a ∷ []

abbrev turns : List Step
turns =
    four sunny
    ++ cancelling (codes "tx-2") ∷ reporting 0 4 9 ∷ four sunny
    ++ four offline
    ++ refusing ∷ four offline

run-Promise_example :
    At
      (length idle.workers)
      (Promise recorded (ids_of (queue_paths os two_paths idle.manager).0))
      (run os recorded (queueing ann two_paths ∷ turns) idle).workers
run-Promise_example = run-Promise os recorded idle ann two_paths turns refl (omega arith)

run-cancel_iff_example :
    let s = run os recorded (queueing ann two_paths ∷ turns) (new_system (codes "x")) in
    pending (codes "tx-2") s.workers ≡ one_if (cancel (codes "tx-2") s.manager).0
run-cancel_iff_example =
    run-cancel_iff os recorded (codes "x") (queueing ann two_paths ∷ turns) (codes "tx-2")
      (omega arith)

abbrev queued_two : List Step
queued_two = queueing ann two_paths ∷ []

second_waits : IsWaiting (codes "tx-2") (run os recorded queued_two (new_system (codes "x")))
unfolding run step new_system new send_paths queue_paths next_seq add_item queued_job make_id lookup
    insert with_worker new_worker decimal text_eq
second_waits = record {
  issued = (2, refl, omega arith);
  slot = queued_slot;
  found = refl;
  not_running = refl;
  untaken = (record { at_rest = tt; unsent = refl; ended = tt }, tt);
}

run-AreSpared_example :
    AreSpared
      (codes "tx-2")
      (run os recorded
        (cancelling (codes "tx-2") ∷ four sunny)
        (run os recorded queued_two (new_system (codes "x")))).workers
run-AreSpared_example =
    run-AreSpared os recorded (codes "tx-2") (codes "x") queued_two (four sunny) (omega arith)
      second_waits

run-LooksOnce_example :
    All LooksOnce
      (run os recorded (queueing ann two_paths ∷ four offline) (new_system (codes "x"))).workers
run-LooksOnce_example =
    run-LooksOnce os recorded (codes "x") (queueing ann two_paths ∷ four offline)
      (tt, (tt, (tt, (tt, (tt, tt)))))

-- The deadline ends a call.
abbrev late_call : Call
late_call = record {
  found = ok ann_target;
  answer = none;
  failure = some (codes "deadline");
  deadline = true;
  stopped_then = false;
  stopped = false;
  stored = true;
}

send_text-TextOutcome_example :
    let (error, notes) =
      send_text os recorded (λ d. codes "30s") 0 idle.manager ann (codes "hi") late_call in
    TextOutcome recorded idle.manager late_call (codes "hi") error notes
send_text-TextOutcome_example =
    send_text-TextOutcome os recorded (λ d. codes "30s") 0 idle.manager ann (codes "hi") late_call

run-AreLoggable_example :
    let (error, e, notes) = say_to os recorded (λ d. codes "30s") 0 ann (codes "hi") late_call in
    All
      (AreLoggable os recorded)
      (run os recorded (queueing ann two_paths ∷ four offline) (new_system (codes "x"))).workers
    × IsLoggable e
run-AreLoggable_example =
    run-AreLoggable os recorded (codes "x") (queueing ann two_paths ∷ four offline)
      (λ d. codes "30s") 0 ann (codes "hi") late_call (omega arith)
