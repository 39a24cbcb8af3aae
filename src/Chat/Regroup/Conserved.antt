-- ===== src/Chat/Regroup/Conserved.antt =====
-- No entry is lost when the list of peers changes.
use lanxfer.Base.{
  ◌+◌, ◌≡◌, refl, sym, ap, ◌∙◌, inl, inr, Bool, true, false, List, [], ◌∷◌, Text, arith, Bool-cases,
  Map, lookup, lookup-insert, lookup-delete, total, text_eq, ltb, count_by, count_by-append, All,
}
use lanxfer.Unicode.{Unicode}
use lanxfer.Presence.{Peer}
use lanxfer.History.{Entry}
use lanxfer.Chat.{Item, Chat, last_time, Netip, Store, merge_by_time, clear_unread, chat_for}
use lanxfer.Chat.Merge.{merge-count_by}
use lanxfer.Chat.Log.{clear_unread-entries, chat_for-some}
use lanxfer.Chat.Regroup.Totals.{
  IsDistinct, tally, tally_of, tally-entries, total-insert_over, total-delete, insert-IsDistinct,
  delete-IsDistinct,
}
use lanxfer.Chat.Regroup.Sources.{
  tally_all, tally_moved, IsSource, AreApart, scan_chats-sources, sort_sources-All,
  sort_sources_apart,
}
use lanxfer.Chat.Unread.{unread_in}
use lanxfer.Chat.Regroup.{
  Batch, Source, scan_chats, sort_sources, shrink_to, shrink_all, merged, merge_batch,
  merge_batches, merge_all, apply_sources, set_peers, index_of, index_peers,
}

pub merge_by_time-count_by :
    (q : Item → Bool) (dst more : List Item)
    → count_by q (merge_by_time dst more) ≡ count_by q dst + count_by q more
unfolding merge_by_time
merge_by_time-count_by q dst [] = omega arith
merge_by_time-count_by q [] (y ∷ more) = omega arith
merge_by_time-count_by q (x ∷ dst) (y ∷ more) = elim (Bool-cases (ltb y.e.time (last_time x dst))) [
  | inl e ↦ rw (e, merge_by_time) (merge-count_by q (x ∷ dst) (y ∷ more))
  | inr e ↦ rw (e, merge_by_time) (count_by-append q (x ∷ dst) (y ∷ more))
]

module _ (p : Entry → Bool) where
  pub tally-clear_unread : (c : Chat) → tally_of p (clear_unread c) ≡ tally_of p c
  tally-clear_unread c =
      tally-entries p (clear_unread c).items
      ∙ ap (count_by p) (clear_unread-entries c)
      ∙ sym (tally-entries p c.items)

  tally_of-merged :
      (is_open : Bool) (b : Batch) (c : Chat)
      → tally_of p (merged is_open b c) ≡ tally_of p c + tally p b.items
  unfolding merged
  tally_of-merged true b c =
      tally-clear_unread
        (record { items = merge_by_time c.items b.items; unread = c.unread + unread_in b.items })
      ∙ merge_by_time-count_by (λ (it : Item). p it.e) c.items b.items
  tally_of-merged false b c = merge_by_time-count_by (λ (it : Item). p it.e) c.items b.items

  merge_batch_total :
      (b : Batch) (s : Store)
      → total (tally_of p) (merge_batch b s).chats ≡ total (tally_of p) s.chats + tally p b.items
  unfolding merge_batch
  merge_batch_total b s =
      let old = chat_for b.to s.chats in
      let fresh = merged (text_eq b.to s.open_key) b old in
      omega (
        arith,
        total-insert_over p b.to fresh s.chats,
        tally_of-merged (text_eq b.to s.open_key) b old,
      )

  merge_batches_total :
      (bs : List Batch) (s : Store)
      → total (tally_of p) (merge_batches bs s).chats ≡ total (tally_of p) s.chats + tally_all p bs
  unfolding merge_batches
  merge_batches_total [] s = omega arith
  merge_batches_total (b ∷ bs) s =
      omega (arith, merge_batches_total bs (merge_batch b s), merge_batch_total b s)

  merge_all_total :
      (srcs : List Source) (s : Store)
      → total (tally_of p) (merge_all srcs s).chats
        ≡ total (tally_of p) s.chats + tally_moved p srcs
  unfolding merge_all
  merge_all_total [] s = omega arith
  merge_all_total (src ∷ srcs) s =
      omega (
        arith,
        merge_all_total srcs (merge_batches src.batches s),
        merge_batches_total src.batches s,
      )

  -- What shrinking one source does to the chats.
  record Shrunk (src : Source) (m m' : Map Chat) : Type 0 where
    less : total (tally_of p) m' + tally_all p src.batches ≡ total (tally_of p) m
    others : (k : Text) → text_eq src.key k ≡ false → lookup k m' ≡ lookup k m
    distinct : IsDistinct m'

  shrink_to-Shrunk :
      (src : Source) (kept : List Item) (s : Store)
      → src.kept ≡ kept
      → IsDistinct s.chats
      → IsSource p s.chats src
      → Shrunk src s.chats (shrink_to src kept s).chats
  unfolding shrink_to
  shrink_to-Shrunk src [] s e h (c, at_key, n) = record {
    less = omega (arith, total-delete p src.key c s.chats h at_key, n, ap (tally p) e);
    others = λ k f. lookup-delete src.key k s.chats ∙ (rw (f) refl);
    distinct = delete-IsDistinct src.key s.chats h;
  }
  shrink_to-Shrunk src (it ∷ kept) s e h (c, at_key, n) =
      let v : Chat = record { items = it ∷ kept; unread = unread_in (it ∷ kept) } in
      record {
        less = omega (
          arith,
          total-insert_over p src.key v s.chats,
          ap (tally_of p) (chat_for-some src.key c s.chats at_key),
          n,
          ap (tally p) e,
        );
        others = λ k f. lookup-insert src.key k v s.chats ∙ (rw (f) refl);
        distinct = insert-IsDistinct src.key v s.chats h;
      }

  Shrunk-IsSource :
      (src : Source) (m m' : Map Chat) (srcs : List Source)
      → Shrunk src m m'
      → All (IsSource p m) srcs
      → All (λ (r : Source). text_eq src.key r.key ≡ false) srcs
      → All (IsSource p m') srcs
  Shrunk-IsSource src m m' [] h hs away = tt
  Shrunk-IsSource src m m' (r ∷ srcs) h ((c, e, n), hs) (f, away) =
      ((c, h.others r.key f ∙ e, n), Shrunk-IsSource src m m' srcs h hs away)

  shrink_all_total :
      (srcs : List Source) (s : Store)
      → IsDistinct s.chats
      → All (IsSource p s.chats) srcs
      → AreApart p srcs
      → (total (tally_of p) (shrink_all srcs s).chats + tally_moved p srcs
          ≡ total (tally_of p) s.chats)
        × IsDistinct (shrink_all srcs s).chats
  unfolding shrink_all
  shrink_all_total [] s h hs apart = (omega arith, h)
  shrink_all_total (src ∷ srcs) s h (here_ok, hs) (away, apart) =
      let done = shrink_to-Shrunk src src.kept s refl h here_ok in
      let s' = shrink_to src src.kept s in
      let (sum, distinct) =
        shrink_all_total srcs s' done.distinct
          (Shrunk-IsSource src s.chats s'.chats srcs done hs away) apart in
      (omega (arith, sum, done.less), distinct)

merge_batches-IsDistinct :
    (bs : List Batch) (s : Store) → IsDistinct s.chats → IsDistinct (merge_batches bs s).chats
unfolding merge_batches merge_batch
merge_batches-IsDistinct [] s h = h
merge_batches-IsDistinct (b ∷ bs) s h =
    merge_batches-IsDistinct bs (merge_batch b s) (insert-IsDistinct b.to _ s.chats h)

merge_all-IsDistinct :
    (srcs : List Source) (s : Store) → IsDistinct s.chats → IsDistinct (merge_all srcs s).chats
unfolding merge_all
merge_all-IsDistinct [] s h = h
merge_all-IsDistinct (src ∷ srcs) s h =
    merge_all-IsDistinct srcs (merge_batches src.batches s)
      (merge_batches-IsDistinct src.batches s h)

-- The new list of peers leaves every entry, as often as it was there, and one chat for each key.
pub record Conserved (m m' : Map Chat) : Type 0 where
  pub conserved : (p : Entry → Bool) → total (tally_of p) m' ≡ total (tally_of p) m
  pub distinct : IsDistinct m'

set_peers_total :
    (p : Entry → Bool) (u : Unicode) (ip : Netip) (peers : List Peer) (s : Store)
    → IsDistinct s.chats
    → (total (tally_of p) (set_peers u ip peers s).chats ≡ total (tally_of p) s.chats)
      × IsDistinct (set_peers u ip peers s).chats
unfolding set_peers apply_sources
set_peers_total p u ip peers s h =
    let ix = index_of u (index_peers u peers) in
    let found = scan_chats u ip ix s.chats [] in
    let srcs = sort_sources found in
    let s0 = record s { index = ix } in
    let (sources, apart) = scan_chats-sources p u ip ix s.chats [] h in
    let (sum, distinct) =
      shrink_all_total p srcs s0 h (sort_sources-All p (IsSource p s.chats) found sources)
        (sort_sources_apart p found apart) in
    (
      omega (arith, sum, merge_all_total p srcs (shrink_all srcs s0)),
      merge_all-IsDistinct srcs (shrink_all srcs s0) distinct,
    )

pub set_peers-Conserved :
    (u : Unicode) (ip : Netip) (peers : List Peer) (s : Store)
    → IsDistinct s.chats
    → Conserved s.chats (set_peers u ip peers s).chats
set_peers-Conserved u ip peers s h = record {
  conserved = λ p. (set_peers_total p u ip peers s h).0;
  distinct = (set_peers_total (λ e. true) u ip peers s h).1;
}
