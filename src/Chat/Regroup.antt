-- ===== src/Chat/Regroup.antt =====
-- internal/chat/chat.go: the list of peers, and the regrouping when it changes.
pub mod Totals
pub mod Sources
pub mod Conserved
pub mod Lasting
use lanxfer.Base.{
  ℕ, zero, suc, ◌+◌, ◌≡◌, refl, Bool, true, false, not, ◌&&◌, ◌||◌, List, [], ◌∷◌, ◌++◌, Option,
  none, some, Text, codes, ltb, ◌==◌, length, map, if◌then◌else◌, Map, lookup, insert, delete,
  text_eq, text_ltb, has_prefix, count_by,
}
use lanxfer.Netaddr.{Addr, unmap, addr_eq, addr_is_valid}
use lanxfer.Unicode.{Unicode}
use lanxfer.Presence.{Peer, has_id}
use lanxfer.History.{Entry}
use lanxfer.Chat.{
  Item, Chat, Netip, Index, Store, classify, peer_key, merge_by_time, clear_unread, resolve,
  chat_for,
}
use lanxfer.Chat.Unread.{unread_in}

-- Online first, then the one seen last, then the smaller key.
unfoldable pub better : Unicode → Peer → Peer → Bool
better u a b =
    if a.online && not b.online || b.online && not a.online
    then a.online
    else if not (a.last_seen == b.last_seen)
    then ltb b.last_seen a.last_seen
    else text_ltb (peer_key u a) (peer_key u b)

-- The tables of `indexPeers`; `bestAddr` and `bestName` are the keys of the peers of the last two.
pub record PeerIndex : Type 0 where
  pub peers : List Peer
  pub by_id : Map Peer
  pub by_key : Map Peer
  pub best_addr_peer : List (Addr × Peer)
  pub best_name_peer : Map Peer

-- A peer for an address, unless the one of before is better.
unfoldable pub better_at : Unicode → Addr → Peer → List (Addr × Peer) → List (Addr × Peer)
better_at u a p [] = (a, p) ∷ []
better_at u a p ((b, q) ∷ more) =
    let rest = better_at u a p more in
    if addr_eq b a then (b, if better u p q then p else q) ∷ more else (b, q) ∷ rest

unfoldable pub better_named : Unicode → Text → Peer → Map Peer → Map Peer
better_named u n p m = elim (lookup n m) [
  | none ↦ insert n p m
  | some q ↦ if better u p q then insert n p m else m
]

unfoldable pub index_peer : Unicode → Peer → PeerIndex → PeerIndex
index_peer u p t = record t {
  by_id = if has_id p.id then insert p.id p t.by_id else t.by_id;
  by_key = if has_id p.id then t.by_key else insert (peer_key u p) p t.by_key;
  best_addr_peer =
      if addr_is_valid p.addr.addr
      then better_at u (unmap p.addr.addr) p t.best_addr_peer
      else t.best_addr_peer;
  best_name_peer = better_named u (u.to_lower p.name) p t.best_name_peer;
}

unfoldable pub index_from : Unicode → List Peer → PeerIndex → PeerIndex
index_from u [] t = t
index_from u (p ∷ ps) t = index_from u ps (index_peer u p t)

unfoldable pub index_peers : Unicode → List Peer → PeerIndex
index_peers u ps =
    index_from u ps
      (record { peers = ps; by_id = []; by_key = []; best_addr_peer = []; best_name_peer = [] })

unfoldable pub index_of : Unicode → PeerIndex → Index
index_of u t = record {
  best_addr = map (λ (x : Addr × Peer). (x.0, peer_key u x.1)) t.best_addr_peer;
  best_name = map (λ (x : Text × Peer). (x.0, peer_key u x.1)) t.best_name_peer;
}

-- The entries of one chat that move to another one.
pub record Batch : Type 0 where
  pub to : Text
  pub items : List Item

-- A chat that entries leave.
pub record Source : Type 0 where
  pub key : Text
  pub kept : List Item
  pub batches : List Batch
  pub last_to : Text

abbrev pub Memo : Type 0
Memo = List ((Text × Text) × Text)

unfoldable pub memo_lookup : Text → Text → Memo → Option Text
memo_lookup name addr [] = none
memo_lookup name addr (((n, a), k) ∷ memo) =
    if text_eq n name && text_eq a addr then some k else memo_lookup name addr memo

-- Each pair of a name and an address is classified once.
unfoldable pub classify_once : Unicode → Netip → Index → Entry → Memo → Text × Memo
classify_once u ip ix e memo = elim (memo_lookup e.peer_name e.peer_addr memo) [
  | some k ↦ (k, memo)
  | none ↦ (classify u ip ix e, ((e.peer_name, e.peer_addr), classify u ip ix e) ∷ memo)
]

unfoldable pub add_to_batch : Text → Item → List Batch → List Batch
add_to_batch to it [] = record { to = to; items = it ∷ [] } ∷ []
add_to_batch to it (b ∷ bs) =
    let rest = add_to_batch to it bs in
    if text_eq b.to to then record b { items = b.items ++ it ∷ [] } ∷ bs else b ∷ rest

-- One item of the chat under `k`, `done` being those before it.
unfoldable pub place : Text → List Item → Option Source → Text → Item → Option Source
place k done none to it =
    if text_eq to k
    then none
    else some (record {
      key = k;
      kept = done;
      batches = record { to = to; items = it ∷ [] } ∷ [];
      last_to = to;
    })
place k done (some src) to it =
    if text_eq to k
    then some (record src { kept = src.kept ++ it ∷ [] })
    else some (record src { batches = add_to_batch to it src.batches; last_to = to })

-- The target of an item, with the memo for those behind it.
unfoldable pub scan_from :
    Unicode
    → Netip
    → Index
    → Text
    → List Item
    → Option Source
    → List Item
    → Memo
    → Option Source × Memo
scan_from u ip ix k done src [] memo = (src, memo)
scan_from u ip ix k done src (it ∷ items) memo =
    let (to, later) = classify_once u ip ix it.e memo in
    scan_from u ip ix k (done ++ it ∷ []) (place k done src to it) items later

unfoldable pub is_movable : Text → Bool
is_movable k = has_prefix k (codes "name:") || has_prefix k (codes "addr:")

unfoldable pub with_source : Option Source → List Source → List Source
with_source none srcs = srcs
with_source (some src) srcs = src ∷ srcs

unfoldable pub scan_chats : Unicode → Netip → Index → Map Chat → Memo → List Source
scan_chats u ip ix [] memo = []
scan_chats u ip ix ((k, c) ∷ chats) memo =
    let (src, later) = scan_from u ip ix k [] none c.items memo in
    let rest = scan_chats u ip ix chats (if is_movable k then later else memo) in
    with_source (if is_movable k then src else none) rest

-- `sort.Slice` by key; no two sources have one key.
unfoldable pub insert_source : Source → List Source → List Source
insert_source s [] = s ∷ []
insert_source s (r ∷ rs) =
    let rest = insert_source s rs in if text_ltb r.key s.key then r ∷ rest else s ∷ r ∷ rs

unfoldable pub sort_sources : List Source → List Source
sort_sources [] = []
sort_sources (s ∷ srcs) = insert_source s (sort_sources srcs)

-- A chat that keeps nothing leaves an alias.
unfoldable pub shrink_to : Source → List Item → Store → Store
shrink_to src [] s = record s {
  chats = delete src.key s.chats;
  alias = insert src.key src.last_to s.alias;
  open_key = if text_eq s.open_key src.key then src.last_to else s.open_key;
}
shrink_to src (it ∷ kept) s = record s {
  chats = insert src.key (record { items = it ∷ kept; unread = unread_in (it ∷ kept) }) s.chats;
}

unfoldable pub shrink_all : List Source → Store → Store
shrink_all [] s = s
shrink_all (src ∷ srcs) s = shrink_all srcs (shrink_to src src.kept s)

-- The target of a batch, which is read if it is open.
unfoldable pub merged : Bool → Batch → Chat → Chat
merged is_open b c =
    let c' : Chat = record {
      items = merge_by_time c.items b.items;
      unread = c.unread + unread_in b.items;
    } in
    if is_open then clear_unread c' else c'

unfoldable pub merge_batch : Batch → Store → Store
merge_batch b s = record s {
  alias = delete b.to s.alias;
  chats = insert b.to (merged (text_eq b.to s.open_key) b (chat_for b.to s.chats)) s.chats;
}

unfoldable pub merge_batches : List Batch → Store → Store
merge_batches [] s = s
merge_batches (b ∷ bs) s = merge_batches bs (merge_batch b s)

unfoldable pub merge_all : List Source → Store → Store
merge_all [] s = s
merge_all (src ∷ srcs) s = merge_all srcs (merge_batches src.batches s)

unfoldable pub apply_sources : List Source → Store → Store
apply_sources srcs s =
    let s' = merge_all srcs (shrink_all srcs s) in record s' { open_key = resolve s' s'.open_key }

unfoldable pub set_peers : Unicode → Netip → List Peer → Store → Store
set_peers u ip peers s =
    let ix = index_of u (index_peers u peers) in
    apply_sources (sort_sources (scan_chats u ip ix s.chats [])) (record s { index = ix })
