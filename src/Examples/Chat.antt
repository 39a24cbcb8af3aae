-- ===== src/Examples/Chat.antt =====
-- internal/chat on a few entries.
use lanxfer.Base.{
  ℕ, ◌≡◌, ◌+◌, Bool, true, List, [], ◌∷◌, ◌++◌, none, Text, codes, arith, filter_by, count_by,
  total, lookup,
}
use lanxfer.Unicode.{ascii}
use lanxfer.History.{Entry}
use lanxfer.Chat.{
  Item, entries, Netip, Index, merge, merge_by_time, load, new, chat_for, Chat, Store,
}
use lanxfer.Chat.Merge.{IsSorted, merge_by_time_lem}
use lanxfer.Chat.Pages.{read_back, read_back-entries}
use lanxfer.Chat.Log.{Event, added, opened, entries_of, run, logged, fits, run-load-entries_of}
use lanxfer.Netaddr.{v4}
use lanxfer.Presence.{Peer}
use lanxfer.Chat.Unread.{IsCounted}
use mathlib.Core.Path.{refl}
use lanxfer.Chat.Regroup.{index_peers}
use lanxfer.Chat.Summary.{summaries}
use lanxfer.Chat.Summary.Rows.{is_under, one_if, is_listed, summaries_count}
use lanxfer.Chat.Regroup.Totals.{tally_of}
use lanxfer.Chat.Regroup.Lasting.{
  Change, happened, listed, run_changes, entries_added, run_changes-entries,
}

abbrev received : ℕ → Text → Entry
received time name = record {
  v = 1;
  time = time;
  dir = codes "in";
  peer_id = [];
  peer_name = name;
  peer_addr = [];
  kind = codes "text";
  text = codes "hi";
  name = [];
  saved_as = [];
  path = [];
  size = 0;
  files = 0;
  status = codes "ok";
  error = [];
}

abbrev at : ℕ → Item
at time = record { e = received time (codes "Ann"); unread = true }

-- No address is parsed, and no peer is known.
abbrev no_addresses : Netip
no_addresses = record { parse = λ s. none; show = λ a. [] }

abbrev nobody : Index
nobody = record { best_addr = []; best_name = [] }

merge_by_time_lem_example :
    (merge_by_time (at 1 ∷ at 4 ∷ []) (at 2 ∷ []) ≡ merge (at 1 ∷ at 4 ∷ []) (at 2 ∷ []))
    × IsSorted (merge_by_time (at 1 ∷ at 4 ∷ []) (at 2 ∷ []))
    × ((p : Item → Bool)
        → count_by p (merge_by_time (at 1 ∷ at 4 ∷ []) (at 2 ∷ []))
          ≡ count_by p (at 1 ∷ at 4 ∷ []) + count_by p (at 2 ∷ []))
merge_by_time_lem_example =
    merge_by_time_lem (at 1 ∷ at 4 ∷ []) (at 2 ∷ []) (ground arith, (ground arith, tt))
      (ground arith, tt)

read_back-entries_example :
    read_back 3 (at 1 ∷ at 2 ∷ at 3 ∷ []) 0 2 ≡ entries (at 1 ∷ at 2 ∷ at 3 ∷ [])
read_back-entries_example = read_back-entries 3 (at 1 ∷ at 2 ∷ at 3 ∷ []) 2 (ground arith)

abbrev day : List Event
day =
    added (received 3 (codes "Ann"))
    ∷ opened (codes "name:ann")
    ∷ added (received 4 (codes "Bob"))
    ∷ []

abbrev file : List Entry
file = received 1 (codes "ann") ∷ []

-- The day, and then a list of peers with Ann on it.
abbrev ann : Peer
ann = record {
  id = codes "1";
  name = codes "Ann";
  os = [];
  addr = record { addr = v4 0xC0A80102; port = 8300 };
  last_seen = 5;
  online = true;
}

abbrev evening : List Change
evening =
    happened (added (received 3 (codes "Ann")))
    ∷ listed (ann ∷ [])
    ∷ happened (opened (codes "name:ann"))
    ∷ []

-- A store that a list of peers has regrouped.
abbrev regrouped : Store
regrouped = run_changes ascii no_addresses evening (load ascii no_addresses file (new nobody))

run-load-entries_of_example :
    (entries_of (codes "name:ann") (run ascii no_addresses day regrouped).chats
      ≡ entries_of (codes "name:ann") regrouped.chats
        ++ filter_by
            (fits ascii no_addresses regrouped.index (codes "name:ann"))
            (logged ascii no_addresses day))
    × (entries_of
          (codes "name:ann")
          (run ascii no_addresses day (load ascii no_addresses file (new nobody))).chats
        ≡ filter_by
            (fits ascii no_addresses nobody (codes "name:ann"))
            (file ++ logged ascii no_addresses day))
run-load-entries_of_example =
    run-load-entries_of ascii no_addresses (codes "name:ann") day regrouped nobody file

run_changes-entries_example :
    let chats =
      (run_changes ascii no_addresses evening
        (load ascii no_addresses (received 1 (codes "Bob") ∷ []) (new nobody))).chats in
    ((p : Entry → Bool)
      → total (tally_of p) chats
        ≡ count_by p (received 1 (codes "Bob") ∷ [])
          + count_by p (entries_added ascii no_addresses evening))
    × ((k : Text) → IsCounted (chat_for k chats))
run_changes-entries_example =
    run_changes-entries ascii no_addresses nobody (received 1 (codes "Bob") ∷ []) evening

abbrev one_chat : Store
one_chat = record (new nobody) {
  chats = (codes "name:bob", record { items = at 1 ∷ []; unread = 1 }) ∷ [];
}

alone : lookup {V = Chat} (codes "name:bob") [] ≡ none
unfolding lookup
alone = refl

summaries_count_example :
    count_by
      (is_under (codes "id:1"))
      (summaries ascii (λ e. e.text) no_addresses (index_peers ascii (ann ∷ [])) one_chat)
    ≡ one_if (is_listed ascii (index_peers ascii (ann ∷ [])).peers one_chat.chats (codes "id:1"))
summaries_count_example =
    summaries_count ascii (λ e. e.text) no_addresses (index_peers ascii (ann ∷ [])) one_chat
      (alone, tt) (codes "id:1")
