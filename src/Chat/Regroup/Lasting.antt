-- ===== src/Chat/Regroup/Lasting.antt =====
-- The chats from the loading of the history file on, through every new list of peers.
pub mod Counted
use lanxfer.Base.{
  ℕ, ◌+◌, ◌≡◌, refl, ap, subst, ◌∙◌, inl, inr, Bool, false, not, ◌&&◌, List, [], ◌∷◌, Text, arith,
  Bool-cases, Option-cases, map, Map, lookup, insert, delete, lookup-delete, total, text_eq,
  count_by, count_by-append,
}
use lanxfer.Unicode.{Unicode}
use lanxfer.Presence.{Peer}
use lanxfer.History.{Entry, dir_in}
use lanxfer.Chat.{
  Item, Chat, Netip, Index, Store, classify, clear_unread, chat_for, resolve, push, file_item,
  file_items, file_chats, new, add, load, open_chat, merge_by_time,
}
use lanxfer.Chat.Log.{Event, added, opened, step, chat_for-insert, chat_for-some, entries-map}
use lanxfer.Chat.Unread.{IsCounted, unread_in, clear_unread-IsCounted, file_item-IsCounted}
use lanxfer.Chat.Regroup.Totals.{
  IsDistinct, tally, tally_of, tally-append, tally-entries, total-insert_over, insert-IsDistinct,
}
use lanxfer.Chat.Regroup.Conserved.{set_peers-Conserved, merge_by_time-count_by, tally-clear_unread}
use lanxfer.Chat.Regroup.{
  Batch, Source, shrink_to, shrink_all, merged, merge_batch, merge_batches, merge_all,
  apply_sources, set_peers, index_of, index_peers, scan_chats, sort_sources,
}
use lanxfer.Chat.Regroup.Lasting.Counted.{AreCounted, insert-AreCounted, set_peers-AreCounted}

-- The chats hold `n` entries of each property, with the right counts of unread ones.
record Holds (n : (Entry → Bool) → ℕ) (m : Map Chat) : Type 0 where
  held : (p : Entry → Bool) → total (tally_of p) m ≡ n p
  distinct : IsDistinct m
  counted : AreCounted m

file_item-Holds :
    (n : (Entry → Bool) → ℕ) (k : Text) (it : Item) (m : Map Chat)
    → Holds n m
    → Holds (λ p. n p + tally p (it ∷ [])) (file_item k it m)
unfolding file_item push
file_item-Holds n k it m h = record {
  held = λ p. omega (
    arith,
    total-insert_over p k (push it (chat_for k m)) m,
    h.held p,
    tally-append p (chat_for k m).items (it ∷ []),
  );
  distinct = insert-IsDistinct k _ m h.distinct;
  counted = λ j. file_item-IsCounted k j it m h.counted;
}

nothing : Holds (λ p. 0) []
unfolding chat_for lookup
nothing = record { held = λ p. refl; distinct = tt; counted = λ k. refl }

-- What happens to the chats.
pub data Change : Type 0 where
  happened : Event → Change
  listed : List Peer → Change

module _ (u : Unicode) (ip : Netip) where
  unfoldable pub change : Change → Store → Store
  change (happened e) s = step u ip e s
  change (listed peers) s = set_peers u ip peers s

  unfoldable pub run_changes : List Change → Store → Store
  run_changes [] s = s
  run_changes (c ∷ cs) s = run_changes cs (change c s)

  abbrev pub entries_added : List Change → List Entry
  entries_added [] = []
  entries_added (happened (added e) ∷ cs) = e ∷ entries_added cs
  entries_added (happened (opened key) ∷ cs) = entries_added cs
  entries_added (listed peers ∷ cs) = entries_added cs

  file_items-Holds :
      (ix : Index) (n : (Entry → Bool) → ℕ) (items : List Item) (m : Map Chat)
      → Holds n m
      → Holds (λ p. n p + tally p items) (file_items u ip ix items m)
  unfolding file_items
  file_items-Holds ix n [] m h = record {
    held = λ p. omega (arith, h.held p);
    distinct = h.distinct;
    counted = h.counted;
  }
  file_items-Holds ix n (it ∷ items) m h =
      let k = classify u ip ix it.e in
      let rest =
        file_items-Holds ix (λ p. n p + tally p (it ∷ [])) items (file_item k it m)
          (file_item-Holds n k it m h) in
      record {
        held = λ p. omega (arith, rest.held p, tally-append p (it ∷ []) items);
        distinct = rest.distinct;
        counted = rest.counted;
      }

  open_chat-Holds :
      (n : (Entry → Bool) → ℕ) (key : Text) (s : Store)
      → Holds n s.chats
      → Holds n (open_chat key s).chats
  unfolding open_chat
  open_chat-Holds n key s h = elim (Option-cases (lookup (resolve s key) s.chats)) [
    | inl e ↦ rw (e, open_chat) h
    | inr (c, e) ↦
        let k = resolve s key in
        let own = chat_for-some k c s.chats e in
        rw (e, open_chat)
          (record {
            held = λ p. omega (
              arith,
              total-insert_over p k (clear_unread c) s.chats,
              ap (tally_of p) own,
              tally-clear_unread p c,
              h.held p,
            );
            distinct = insert-IsDistinct k (clear_unread c) s.chats h.distinct;
            counted =
                insert-AreCounted k (clear_unread c) s.chats
                  (clear_unread-IsCounted c (subst IsCounted own (h.counted k))) h.counted;
          })
  ]

  run_changes-Holds :
      (cs : List Change) (n : (Entry → Bool) → ℕ) (s : Store)
      → Holds n s.chats
      → Holds (λ p. n p + count_by p (entries_added cs)) (run_changes cs s).chats
  unfolding run_changes change step add
  run_changes-Holds [] n s h = record {
    held = λ p. omega (arith, h.held p);
    distinct = h.distinct;
    counted = h.counted;
  }
  run_changes-Holds (happened (added e) ∷ cs) n s h =
      let k = classify u ip s.index e in
      let it : Item = record {
        e = e;
        unread = text_eq e.dir dir_in && not (text_eq k s.open_key);
      } in
      let rest =
        run_changes-Holds cs (λ p. n p + tally p (it ∷ [])) (add u ip e s).1
          (file_item-Holds n k it s.chats h) in
      record {
        held = λ p. omega (arith, rest.held p, count_by-append p (e ∷ []) (entries_added cs));
        distinct = rest.distinct;
        counted = rest.counted;
      }
  run_changes-Holds (happened (opened key) ∷ cs) n s h =
      run_changes-Holds cs n (open_chat key s) (open_chat-Holds n key s h)
  run_changes-Holds (listed peers ∷ cs) n s h =
      let same = set_peers-Conserved u ip peers s h.distinct in
      run_changes-Holds cs n (set_peers u ip peers s) (record {
        held = λ p. same.conserved p ∙ h.held p;
        distinct = same.distinct;
        counted = set_peers-AreCounted u ip peers s h.counted;
      })

  load-Holds :
      (ix : Index) (es : List Entry) → Holds (λ p. count_by p es) (load u ip es (new ix)).chats
  unfolding load new file_chats
  load-Holds ix es =
      let items : List Item = map (λ e. record { e = e; unread = false }) es in
      let rest = file_items-Holds ix (λ p. 0) items [] nothing in
      record {
        held = λ p.
            omega (arith, rest.held p, tally-entries p items, ap (count_by p) (entries-map es));
        distinct = rest.distinct;
        counted = rest.counted;
      }

  -- From the loading of the history file on, whatever entries are added, chats opened and lists of
  -- peers received, and in whatever order: the chats together hold exactly the entries of the file
  -- and those added, each as often as it came, however often they were regrouped, and the unread
  -- count of each chat is the number of its unread entries.
  pub run_changes-entries :
      (ix : Index) (es : List Entry) (cs : List Change)
      → let chats = (run_changes cs (load u ip es (new ix))).chats in
        ((p : Entry → Bool)
          → total (tally_of p) chats ≡ count_by p es + count_by p (entries_added cs))
        × ((k : Text) → IsCounted (chat_for k chats))
  run_changes-entries ix es cs =
      let all =
        run_changes-Holds cs (λ p. count_by p es) (load u ip es (new ix)) (load-Holds ix es) in
      (all.held, all.counted)
