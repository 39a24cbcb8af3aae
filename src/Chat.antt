-- ===== src/Chat.antt =====
-- internal/chat: the history of transfers as one chat a peer.
pub mod Merge
pub mod Pages
pub mod Log
pub mod Unread
pub mod Regroup
pub mod Summary
use mathlib.Core.List.{reverse}
use lanxfer.Base.{
  ℕ, zero, suc, ◌+◌, ◌-◌, ◌≡◌, refl, Bool, true, false, not, ◌&&◌, ◌||◌, List, [], ◌∷◌, ◌++◌,
  Option, none, some, Text, codes, ltb, leb, ◌==◌, length, take, drop, map, if◌then◌else◌, Map,
  lookup, insert, text_eq,
}
use lanxfer.Netaddr.{Addr, unmap, addr_eq, addr_is_valid}
use lanxfer.Unicode.{Unicode}
use lanxfer.Presence.{Peer, has_id}
use lanxfer.History.{Entry, dir_in}

-- The most messages of a page.
abbrev pub page_size : ℕ
page_size = 200

pub record Item : Type 0 where
  pub e : Entry
  pub unread : Bool

abbrev pub entries : List Item → List Entry
entries items = map (λ (it : Item). it.e) items

pub record Chat : Type 0 where
  pub items : List Item
  pub unread : ℕ

unfoldable pub id_key : Text → Text
id_key id = codes "id:" ++ id

unfoldable pub name_key : Unicode → Text → Text
name_key u n = codes "name:" ++ u.to_lower n

unfoldable pub addr_key : Text → Text
addr_key addr = codes "addr:" ++ addr

unfoldable pub peer_key : Unicode → Peer → Text
peer_key u p = if has_id p.id then id_key p.id else name_key u p.name

-- `netip.ParseAddr` and `Addr.String`.
pub record Netip : Type 0 where
  pub parse : Text → Option Addr
  pub show : Addr → Text

unfoldable pub norm_addr : Netip → Text → Text
norm_addr ip s = elim (ip.parse s) [ none ↦ s | some a ↦ ip.show (unmap a) ]

-- What `indexPeers` builds for `classify`: the peer to use for an address and for a name.
pub record Index : Type 0 where
  pub best_addr : List (Addr × Text)
  pub best_name : Map Text

unfoldable pub addr_lookup : Addr → List (Addr × Text) → Option Text
addr_lookup a [] = none
addr_lookup a ((b, k) ∷ more) = if addr_eq b a then some k else addr_lookup a more

unfoldable pub by_addr : Netip → Index → Text → Option Text
by_addr ip ix addr =
    if has_id addr
    then elim (ip.parse addr) [ none ↦ none | some a ↦ addr_lookup (unmap a) ix.best_addr ]
    else none

unfoldable pub by_name : Unicode → Netip → Index → Entry → Text
by_name u ip ix e =
    if has_id e.peer_name
    then elim (lookup (u.to_lower e.peer_name) ix.best_name) [
      | some k ↦ k
      | none ↦ name_key u e.peer_name
    ]
    else addr_key (norm_addr ip e.peer_addr)

unfoldable pub classify : Unicode → Netip → Index → Entry → Text
classify u ip ix e =
    if has_id e.peer_id
    then id_key e.peer_id
    else elim (by_addr ip ix e.peer_addr) [ some k ↦ k | none ↦ by_name u ip ix e ]

-- `mergeByTime` without its short cuts.
unfoldable pub merge : List Item → List Item → List Item
merge [] add = add
merge (x ∷ dst) [] = x ∷ dst
merge (x ∷ dst) (y ∷ add) = elim (ltb y.e.time x.e.time) [
  | true ↦ y ∷ merge (x ∷ dst) add
  | false ↦ x ∷ merge dst (y ∷ add)
]

unfoldable pub last_time : Item → List Item → ℕ
last_time x [] = x.e.time
last_time x (y ∷ items) = last_time y items

unfoldable pub merge_by_time : List Item → List Item → List Item
merge_by_time dst [] = dst
merge_by_time [] (y ∷ add) = y ∷ add
merge_by_time (x ∷ dst) (y ∷ add) =
    if not (ltb y.e.time (last_time x dst))
    then (x ∷ dst) ++ (y ∷ add)
    else merge (x ∷ dst) (y ∷ add)

-- The items from the newest on, with the number of unread ones that the loop still looks for.
unfoldable pub clear_from : ℕ → List Item → List Item
clear_from zero items = items
clear_from (suc n) [] = []
clear_from (suc n) (x ∷ items) = elim x.unread [
  | true ↦ record x { unread = false } ∷ clear_from n items
  | false ↦ x ∷ clear_from (suc n) items
]

unfoldable pub clear_unread : Chat → Chat
clear_unread c = record { items = reverse (clear_from c.unread (reverse c.items)); unread = 0 }

-- What `Store` keeps besides the list of peers.
pub record Store : Type 0 where
  pub chats : Map Chat
  pub open_key : Text
  pub alias : Map Text
  pub index : Index

unfoldable pub resolve_from : ℕ → Store → Text → Text
resolve_from zero s k = k
resolve_from (suc n) s k = elim (lookup k s.chats) [
  | some _ ↦ k
  | none ↦ elim (lookup k s.alias) [ none ↦ k | some next ↦ resolve_from n s next ]
]

unfoldable pub resolve : Store → Text → Text
resolve s k = resolve_from (length s.alias + 1) s k

unfoldable pub chat_for : Text → Map Chat → Chat
chat_for k chats = elim (lookup k chats) [ none ↦ record { items = []; unread = 0 } | some c ↦ c ]

unfoldable pub push : Item → Chat → Chat
push it c = record {
  items = c.items ++ it ∷ [];
  unread = if it.unread then c.unread + 1 else c.unread;
}

unfoldable pub file_item : Text → Item → Map Chat → Map Chat
file_item k it chats = insert k (push it (chat_for k chats)) chats

unfoldable pub new : Index → Store
new ix = record { chats = []; open_key = []; alias = []; index = ix }

module _ (u : Unicode) (ip : Netip) where
  unfoldable pub add : Entry → Store → Text × Store
  add e s =
      let k = classify u ip s.index e in
      let it : Item = record {
        e = e;
        unread = text_eq e.dir dir_in && not (text_eq k s.open_key);
      } in
      (k, record s { chats = file_item k it s.chats })

  unfoldable pub file_items : Index → List Item → Map Chat → Map Chat
  file_items ix [] chats = chats
  file_items ix (it ∷ items) chats =
      file_items ix items (file_item (classify u ip ix it.e) it chats)

  -- The chats of before, in the order in which the map yields them.
  unfoldable pub file_chats : Index → Map Chat → Map Chat → Map Chat
  file_chats ix [] chats = chats
  file_chats ix ((k, c) ∷ old) chats = file_chats ix old (file_items ix c.items chats)

  unfoldable pub load : List Entry → Store → Store
  load entries s = record s {
    chats =
        file_chats s.index s.chats
          (file_items s.index (map (λ e. record { e = e; unread = false }) entries) []);
  }

unfoldable pub open_chat : Text → Store → Store
open_chat key s =
    let k = resolve s key in
    record s {
      open_key = k;
      chats = elim (lookup k s.chats) [
        | none ↦ s.chats
        | some c ↦ insert k (clear_unread c) s.chats
      ];
    }

-- A page of `Messages`, with `none` for -1. A negative number of the caller reads as 0.
unfoldable pub page_limit : ℕ → ℕ
page_limit limit = if ltb limit 1 || ltb page_size limit then page_size else limit

unfoldable pub page : List Item → ℕ → ℕ → List Entry × Option ℕ
page items before limit =
    let start = (length items - before) - page_limit limit in
    if leb (length items) before then ([], none) else (
      entries (take ((length items - before) - start) (drop start items)),
      if start == 0 then none else some (length items - start),
    )

unfoldable pub messages : Store → Text → ℕ → ℕ → List Entry × Option ℕ
messages s key before limit = elim (lookup (resolve s key) s.chats) [
  | none ↦ ([], none)
  | some c ↦ page c.items before limit
]
