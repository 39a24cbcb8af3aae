-- ===== src/Chat/Unread.antt =====
-- The unread counts of the chats.
use mathlib.Core.List.{reverse, reverse-cons}
use lanxfer.Base.{
  ℕ, zero, suc, ◌-◌, ◌≡◌, refl, ap, subst, ◌∙◌, sym, inl, inr, true, false, not, ◌&&◌, List, [],
  ◌∷◌, none, Text, arith, Bool-cases, Option-cases, map, Map, lookup, text_eq, text_eq_iff,
  text_eq_refl, count_by, count_by-append,
}
use lanxfer.Unicode.{Unicode}
use lanxfer.History.{Entry, dir_in}
use lanxfer.Chat.{
  Item, Chat, Netip, Index, Store, classify, clear_from, clear_unread, resolve, chat_for, push,
  file_item, file_items, file_chats, new, add, load, open_chat,
}
use lanxfer.Chat.Log.{Event, added, opened, step, run, chat_for-insert, chat_for-some}

abbrev pub unread_in : List Item → ℕ
unread_in items = count_by (λ (it : Item). it.unread) items

abbrev pub IsCounted : Chat → Type 0
IsCounted c = c.unread ≡ unread_in c.items

-- Every count is right, and the open chat has nothing unread.
pub record IsTidy (s : Store) : Type 0 where
  pub counted : (k : Text) → IsCounted (chat_for k s.chats)
  pub read : (chat_for s.open_key s.chats).unread ≡ 0

clear_from-unread :
    (n : ℕ) (items : List Item) → unread_in (clear_from n items) ≡ unread_in items - n
unfolding clear_from
clear_from-unread zero items = omega arith
clear_from-unread (suc n) [] = omega arith
clear_from-unread (suc n) (x ∷ items) = elim (Bool-cases x.unread) [
  | inl e ↦ simp (e, clear_from-unread n items) (omega arith)
  | inr e ↦ simp (e, clear_from-unread (suc n) items) refl
]

unread_in-reverse : (items : List Item) → unread_in (reverse items) ≡ unread_in items
unread_in-reverse [] = refl
unread_in-reverse (x ∷ items) =
    ap unread_in (reverse-cons x items)
    ∙ count_by-append (λ (it : Item). it.unread) (reverse items) (x ∷ [])
    ∙ ground (arith, unread_in-reverse items)

pub clear_unread-IsCounted : (c : Chat) → IsCounted c → IsCounted (clear_unread c)
unfolding clear_unread
clear_unread-IsCounted c h = sym (
    unread_in-reverse (clear_from c.unread (reverse c.items))
    ∙ clear_from-unread c.unread (reverse c.items)
    ∙ omega (arith, h, unread_in-reverse c.items))

push-IsCounted : (it : Item) (c : Chat) → IsCounted c → IsCounted (push it c)
unfolding push
push-IsCounted it c h =
    let split = count_by-append (λ (i : Item). i.unread) c.items (it ∷ []) in
    ground (arith, h, split)

pub file_item-IsCounted :
    (j k : Text) (it : Item) (chats : Map Chat)
    → ((i : Text) → IsCounted (chat_for i chats))
    → IsCounted (chat_for k (file_item j it chats))
unfolding file_item
file_item-IsCounted j k it chats h =
    rw (chat_for-insert k j (push it (chat_for j chats)) chats) (elim (Bool-cases (text_eq j k)) [
      | inl e ↦ rw e (push-IsCounted it (chat_for j chats) (h j))
      | inr e ↦ rw e (h k)
    ])

-- A read item leaves every count.
file_item_read :
    (j k : Text) (it : Item) (chats : Map Chat)
    → (text_eq j k ≡ true → it.unread ≡ false)
    → (chat_for k (file_item j it chats)).unread ≡ (chat_for k chats).unread
unfolding file_item push
file_item_read j k it chats h =
    rw (chat_for-insert k j (push it (chat_for j chats)) chats) (elim (Bool-cases (text_eq j k)) [
      | inl e ↦ rw (e, h e) (ap (λ i. (chat_for i chats).unread) ((text_eq_iff j k).0 e))
      | inr e ↦ rw e refl
    ])

chat_for-none :
    (k : Text) (chats : Map Chat) → lookup k chats ≡ none → (chat_for k chats).unread ≡ 0
unfolding chat_for
chat_for-none k chats e = rw (e, chat_for) refl

module _ (u : Unicode) (ip : Netip) where
  file_items-IsCounted :
      (ix : Index) (es : List Entry) (chats : Map Chat)
      → ((k : Text) → IsCounted (chat_for k chats) × ((chat_for k chats).unread ≡ 0))
      → (k : Text)
      → IsCounted
          (chat_for k (file_items u ip ix (map (λ e. record { e = e; unread = false }) es) chats))
        × ((chat_for k
              (file_items u ip ix (map (λ e. record { e = e; unread = false }) es) chats)).unread
            ≡ 0)
  unfolding file_items
  file_items-IsCounted ix [] chats h k = h k
  file_items-IsCounted ix (e ∷ es) chats h k =
      let j = classify u ip ix e in
      let it : Item = record { e = e; unread = false } in
      file_items-IsCounted ix es (file_item j it chats)
        (λ i. (
          file_item-IsCounted j i it chats (λ n. (h n).0),
          file_item_read j i it chats (λ _. refl) ∙ (h i).1,
        ))
        k

  pub load-IsTidy : (ix : Index) (es : List Entry) → IsTidy (load u ip es (new ix))
  unfolding load new file_chats chat_for lookup
  load-IsTidy ix es =
      let all = file_items-IsCounted ix es [] (λ k. (refl, refl)) in
      record { counted = λ k. (all k).0; read = (all []).1 }

  add-IsTidy : (e : Entry) (s : Store) → IsTidy s → IsTidy (add u ip e s).1
  unfolding add
  add-IsTidy e s h =
      let j = classify u ip s.index e in
      let it : Item = record {
        e = e;
        unread = text_eq e.dir dir_in && not (text_eq j s.open_key);
      } in
      record {
        counted = λ k. file_item-IsCounted j k it s.chats h.counted;
        read = file_item_read j s.open_key it s.chats (λ t. ground (arith, t)) ∙ h.read;
      }

  open_chat-IsTidy : (key : Text) (s : Store) → IsTidy s → IsTidy (open_chat key s)
  unfolding open_chat
  open_chat-IsTidy key s h = elim (Option-cases (lookup (resolve s key) s.chats)) [
    | inl e ↦
        rw (e, open_chat)
          (record { counted = h.counted; read = chat_for-none (resolve s key) s.chats e })
    | inr (c, e) ↦
        let own = chat_for-some (resolve s key) c s.chats e in
        rw (e, open_chat)
          (record {
            counted = λ k.
                rw (chat_for-insert k (resolve s key) (clear_unread c) s.chats)
                  (elim (Bool-cases (text_eq (resolve s key) k)) [
                    | inl t ↦
                        rw t (
                          clear_unread-IsCounted c
                            (subst IsCounted own (h.counted (resolve s key))))
                    | inr f ↦ rw f (h.counted k)
                  ]);
            read =
                rw
                  (
                    chat_for-insert (resolve s key) (resolve s key) (clear_unread c) s.chats,
                    text_eq_refl (resolve s key),
                  )
                  (unfold clear_unread in refl);
          })
  ]

  run-IsTidy : (events : List Event) (s : Store) → IsTidy s → IsTidy (run u ip events s)
  unfolding run step
  run-IsTidy [] s h = h
  run-IsTidy (added e ∷ events) s h = run-IsTidy events (add u ip e s).1 (add-IsTidy e s h)
  run-IsTidy (opened key ∷ events) s h =
      run-IsTidy events (open_chat key s) (open_chat-IsTidy key s h)

  -- Between two lists of peers the unread count of a chat is the number of its unread entries, and
  -- the chat that is open has none: so it is after loading the history file, and each entry added
  -- and each chat opened keeps it so.
  pub run-load-IsTidy :
      (ix : Index) (es : List Entry) (events : List Event)
      → IsTidy (run u ip events (load u ip es (new ix)))
  run-load-IsTidy ix es events = run-IsTidy events (load u ip es (new ix)) (load-IsTidy ix es)
