-- ===== src/Chat/Regroup/Lasting/Counted.antt =====
-- SetPeers keeps the unread counts true.
use lanxfer.Base.{
  ◌+◌, refl, inl, inr, Bool, List, [], ◌∷◌, Text, arith, Bool-cases, Map, insert, delete,
  lookup-delete, text_eq,
}
use lanxfer.Unicode.{Unicode}
use lanxfer.Presence.{Peer}
use lanxfer.Chat.{Item, Chat, Netip, Store, chat_for, merge_by_time}
use lanxfer.Chat.Log.{chat_for-insert}
use lanxfer.Chat.Unread.{IsCounted, unread_in, clear_unread-IsCounted}
use lanxfer.Chat.Regroup.Conserved.{merge_by_time-count_by}
use lanxfer.Chat.Regroup.{
  Batch, Source, shrink_to, shrink_all, merged, merge_batch, merge_batches, merge_all,
  apply_sources, set_peers, index_of, index_peers, scan_chats, sort_sources,
}

abbrev pub AreCounted : Map Chat → Type 0
AreCounted m = (k : Text) → IsCounted (chat_for k m)

pub insert-AreCounted :
    (k : Text) (c : Chat) (m : Map Chat) → IsCounted c → AreCounted m → AreCounted (insert k c m)
insert-AreCounted k c m h hs j =
    rw (chat_for-insert j k c m)
      (elim (Bool-cases (text_eq k j)) [ inl t ↦ rw t h | inr f ↦ rw f (hs j) ])

delete-AreCounted : (k : Text) (m : Map Chat) → AreCounted m → AreCounted (delete k m)
unfolding chat_for
delete-AreCounted k m hs j = elim (Bool-cases (text_eq k j)) [
  | inl t ↦ rw (lookup-delete k j m, t, chat_for) refl
  | inr f ↦ rw (lookup-delete k j m, f, chat_for) (hs j)
]

shrink_to-AreCounted :
    (src : Source) (kept : List Item) (s : Store)
    → AreCounted s.chats
    → AreCounted (shrink_to src kept s).chats
unfolding shrink_to
shrink_to-AreCounted src [] s h = delete-AreCounted src.key s.chats h
shrink_to-AreCounted src (it ∷ kept) s h = insert-AreCounted src.key _ s.chats refl h

shrink_all-AreCounted :
    (srcs : List Source) (s : Store) → AreCounted s.chats → AreCounted (shrink_all srcs s).chats
unfolding shrink_all
shrink_all-AreCounted [] s h = h
shrink_all-AreCounted (src ∷ srcs) s h =
    shrink_all-AreCounted srcs (shrink_to src src.kept s) (shrink_to-AreCounted src src.kept s h)

merged-IsCounted :
    (is_open : Bool) (b : Batch) (c : Chat) → IsCounted c → IsCounted (merged is_open b c)
unfolding merged
merged-IsCounted is_open b c h =
    let c' : Chat = record {
      items = merge_by_time c.items b.items;
      unread = c.unread + unread_in b.items;
    } in
    let counted : IsCounted c' =
      omega (arith, h, merge_by_time-count_by (λ (it : Item). it.unread) c.items b.items) in
    elim (Bool-cases is_open) [
      | inl o ↦ rw (o, merged) (clear_unread-IsCounted c' counted)
      | inr o ↦ rw (o, merged) counted
    ]

merge_batches-AreCounted :
    (bs : List Batch) (s : Store) → AreCounted s.chats → AreCounted (merge_batches bs s).chats
unfolding merge_batches merge_batch
merge_batches-AreCounted [] s h = h
merge_batches-AreCounted (b ∷ bs) s h = merge_batches-AreCounted bs (merge_batch b s) (
    insert-AreCounted b.to _ s.chats
      (merged-IsCounted (text_eq b.to s.open_key) b (chat_for b.to s.chats) (h b.to)) h)

merge_all-AreCounted :
    (srcs : List Source) (s : Store) → AreCounted s.chats → AreCounted (merge_all srcs s).chats
unfolding merge_all
merge_all-AreCounted [] s h = h
merge_all-AreCounted (src ∷ srcs) s h =
    merge_all-AreCounted srcs (merge_batches src.batches s)
      (merge_batches-AreCounted src.batches s h)

pub set_peers-AreCounted :
    (u : Unicode) (ip : Netip) (peers : List Peer) (s : Store)
    → AreCounted s.chats
    → AreCounted (set_peers u ip peers s).chats
unfolding set_peers apply_sources
set_peers-AreCounted u ip peers s h =
    let ix = index_of u (index_peers u peers) in
    let srcs = sort_sources (scan_chats u ip ix s.chats []) in
    merge_all-AreCounted srcs (shrink_all srcs (record s { index = ix }))
      (shrink_all-AreCounted srcs (record s { index = ix }) h)
