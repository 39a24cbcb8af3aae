-- ===== src/Examples/Transfer.antt =====
-- internal/transfer on one item.
use lanxfer.Base.{◌≡◌, ℕ, false, [], some, codes, arith}
use lanxfer.Netaddr.{invalid}
use lanxfer.History.{Entry, blank, status_cancelled}
use lanxfer.Transfer.{Update, Item, Target}
use lanxfer.Transfer.Progress.{scale_progress, IsScaled, scale_progress_lem}

abbrev queued : Update
queued = record {
  id = codes "t-1";
  name = codes "a.txt";
  path = codes "/a.txt";
  folder = false;
  sent = 0;
  total = 9;
  files = 0;
  skipped = 0;
  done = false;
  status = [];
  error = [];
}

abbrev waiting : Item
waiting = record { done = false; base = queued; sent = 0; last = 0; shown = [] }

abbrev cancelled_send : Entry
cancelled_send = record blank { status = status_cancelled; error = codes "context canceled" }

abbrev ann : Target
ann = record { id = []; name = codes "ann"; addr = record { addr = invalid; port = 0 } }

scale_progress_lem_example :
    (q : ℕ) × (scale_progress 512 2048 1000 ≡ some q) × IsScaled 512 2048 1000 q
scale_progress_lem_example = scale_progress_lem 512 2048 1000 (ground arith)
