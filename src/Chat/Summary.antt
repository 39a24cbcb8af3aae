-- ===== src/Chat/Summary.antt =====
-- internal/chat/chat.go: the rows of the list of chats.
pub mod Rows
use mathlib.Core.List.{reverse}
use lanxfer.Base.{
  ℕ, zero, suc, ◌≡◌, refl, Bool, true, false, not, ◌&&◌, ◌||◌, List, [], ◌∷◌, ◌++◌, Option, none,
  some, Text, codes, ltb, ◌==◌, take, any_by, if◌then◌else◌, Map, lookup, text_eq, text_ltb,
  has_prefix, trim_prefix,
}
use lanxfer.Netaddr.{Addr, unmap, addr_is_valid}
use lanxfer.Unicode.{Unicode}
use lanxfer.Utf8.{runes}
use lanxfer.Presence.{Peer, has_id}
use lanxfer.History.{Entry}
use lanxfer.Server.Terminal.{encode_runes}
use lanxfer.Chat.{Item, Chat, Netip, Store, peer_key, norm_addr, resolve}
use lanxfer.Chat.Regroup.{PeerIndex}

pub record Summary : Type 0 where
  pub key : Text
  pub name : Text
  pub os : Text
  pub addr : Text
  pub online : Bool
  pub last_seen : ℕ
  pub preview : Text
  pub last_time : ℕ
  pub unread : ℕ

abbrev pub blank_row : Text → Summary
blank_row k = record {
  key = k;
  name = [];
  os = [];
  addr = [];
  online = false;
  last_seen = 0;
  preview = [];
  last_time = 0;
  unread = 0;
}

unfoldable pub peer_of : PeerIndex → Text → Option Peer
peer_of t key =
    if has_prefix key (codes "id:")
    then lookup (trim_prefix key (codes "id:")) t.by_id
    else if has_prefix key (codes "name:")
    then lookup key t.by_key
    else none

-- `Peer`: first under the key itself, then under the chat it moved to.
unfoldable pub peer_under : PeerIndex → Store → Text → Option Peer
peer_under t s key = elim (peer_of t key) [ some p ↦ some p | none ↦ peer_of t (resolve s key) ]

-- The loop from the newest item on, for the name and the address that are not found yet.
unfoldable pub newest_names : Text → Text → List Item → Text × Text
newest_names name addr [] = (name, addr)
newest_names name addr (it ∷ items) =
    if has_id name && has_id addr
    then (name, addr)
    else newest_names (if has_id name then name else it.e.peer_name)
        (if has_id addr then addr else it.e.peer_addr) items

unfoldable pub with_last : (Entry → Text) → ℕ → List Item → Summary → Summary
with_last preview unread [] row = row
with_last preview unread (it ∷ newer) row = record row {
  preview = preview it.e;
  last_time = it.e.time;
  unread = unread;
}

unfoldable pub with_messages : (Entry → Text) → Option Chat → Summary → Summary
with_messages preview none row = row
with_messages preview (some c) row = with_last preview c.unread (reverse c.items) row

unfoldable pub with_peer : Netip → Peer → Summary → Summary
with_peer ip p row = record row {
  name = p.name;
  os = p.os;
  online = p.online;
  last_seen = p.last_seen;
  addr = if addr_is_valid p.addr.addr then ip.show (unmap p.addr.addr) else row.addr;
}

unfoldable pub with_owner : Netip → Option Peer → Option Chat → Summary → Summary
with_owner ip (some p) c row = with_peer ip p row
with_owner ip none none row = row
with_owner ip none (some c) row =
    let (name, addr) = newest_names [] [] (reverse c.items) in
    record row { name = name; addr = norm_addr ip addr }

-- The name of a chat for which no other one is known: the first eight runes of its ID.
unfoldable pub unknown_name : Text → Text
unknown_name k =
    if has_prefix k (codes "id:") && has_id (trim_prefix k (codes "id:"))
    then encode_runes (take 8 (runes (trim_prefix k (codes "id:"))))
    else codes "Unknown"

unfoldable pub with_name : Text → Summary → Summary
with_name k row =
    let row' =
      if has_prefix k (codes "addr:")
      then record row { addr = trim_prefix k (codes "addr:") }
      else row in
    let row'' = if has_id row'.name then row' else record row' { name = row'.addr } in
    if has_id row''.name then row'' else record row'' { name = unknown_name k }

-- `summarize`; the preview of an entry is an argument.
unfoldable pub summarize : (Entry → Text) → Netip → PeerIndex → Text → Option Chat → Summary
summarize preview ip t k c =
    with_name k (with_owner ip (peer_of t k) c (with_messages preview c (blank_row k)))

unfoldable pub name_of : (Entry → Text) → Netip → PeerIndex → Store → Text → Text
name_of preview ip t s key =
    (summarize preview ip t (resolve s key) (lookup (resolve s key) s.chats)).name

unfoldable pub rows_of_chats : (Entry → Text) → Netip → PeerIndex → Map Chat → List Summary
rows_of_chats preview ip t [] = []
rows_of_chats preview ip t ((k, c) ∷ chats) =
    summarize preview ip t k (some c) ∷ rows_of_chats preview ip t chats

-- The peers without a chat, one row for each key that has none yet.
unfoldable pub rows_of_peers :
    Unicode → (Entry → Text) → Netip → PeerIndex → List Peer → List Summary → List Summary
rows_of_peers u preview ip t [] rows = rows
rows_of_peers u preview ip t (p ∷ ps) rows = rows_of_peers u preview ip t ps (
    if any_by (λ (r : Summary). text_eq r.key (peer_key u p)) rows
    then rows
    else rows ++ summarize preview ip t (peer_key u p) none ∷ [])

-- Chats with messages first, the newest first; then peers that are online, then by name and key.
unfoldable pub row_ltb : Unicode → Summary → Summary → Bool
row_ltb u a b =
    let am = not (a.last_time == 0) in
    let bm = not (b.last_time == 0) in
    if am && not bm || bm && not am
    then am
    else if am && not (a.last_time == b.last_time)
    then ltb b.last_time a.last_time
    else if not am && (a.online && not b.online || b.online && not a.online)
    then a.online
    else if not (text_eq (u.to_lower a.name) (u.to_lower b.name))
    then text_ltb (u.to_lower a.name) (u.to_lower b.name)
    else text_ltb a.key b.key

unfoldable pub insert_row : Unicode → Summary → List Summary → List Summary
insert_row u r [] = r ∷ []
insert_row u r (q ∷ rows) =
    let rest = insert_row u r rows in if row_ltb u q r then q ∷ rest else r ∷ q ∷ rows

unfoldable pub sort_rows : Unicode → List Summary → List Summary
sort_rows u [] = []
sort_rows u (r ∷ rows) = insert_row u r (sort_rows u rows)

unfoldable pub summaries : Unicode → (Entry → Text) → Netip → PeerIndex → Store → List Summary
summaries u preview ip t s =
    sort_rows u (rows_of_peers u preview ip t t.peers (rows_of_chats preview ip t s.chats))
