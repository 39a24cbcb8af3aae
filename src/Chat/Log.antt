-- ===== src/Chat/Log.antt =====
-- Each chat against the log of all entries.
use mathlib.Core.List.{reverse, map-append, reverse-cons, reverse-reverse}
use lanxfer.Base.{
  ℕ, zero, suc, ◌≡◌, refl, ap, ◌∙◌, sym, inl, inr, Bool, false, not, ◌&&◌, List, [], ◌∷◌, ◌++◌,
  some, Text, Bool-cases, Option-cases, map, if◌then◌else◌, Map, lookup, insert, lookup-insert,
  text_eq, text_eq_iff, filter_by, append_assoc, append-nil,
}
use lanxfer.Unicode.{Unicode}
use lanxfer.History.{Entry, dir_in}
use lanxfer.Chat.{
  Item, entries, Chat, Netip, Index, Store, classify, clear_from, clear_unread, resolve, chat_for,
  push, file_item, file_items, file_chats, new, add, load, open_chat,
}

-- The entries of the chat of a key.
unfoldable pub entries_of : Text → Map Chat → List Entry
entries_of k chats = entries (chat_for k chats).items

-- What happens to the chats between two lists of peers.
pub data Event : Type 0 where
  added : Entry → Event
  opened : Text → Event

clear_from-entries : (n : ℕ) (items : List Item) → entries (clear_from n items) ≡ entries items
unfolding clear_from
clear_from-entries zero items = refl
clear_from-entries (suc n) [] = refl
clear_from-entries (suc n) (x ∷ items) = elim (Bool-cases x.unread) [
  | inl e ↦ simp (e, clear_from-entries n items) refl
  | inr e ↦ simp (e, clear_from-entries (suc n) items) refl
]

entries-reverse : (items : List Item) → entries (reverse items) ≡ reverse (entries items)
entries-reverse [] = refl
entries-reverse (x ∷ items) =
    ap entries (reverse-cons x items)
    ∙ map-append (λ (it : Item). it.e) (reverse items) (x ∷ [])
    ∙ ap (λ (es : List Entry). es ++ x.e ∷ []) (entries-reverse items)
    ∙ sym (reverse-cons x.e (entries items))

pub clear_unread-entries : (c : Chat) → entries (clear_unread c).items ≡ entries c.items
unfolding clear_unread
clear_unread-entries c =
    entries-reverse (clear_from c.unread (reverse c.items))
    ∙ ap reverse (clear_from-entries c.unread (reverse c.items) ∙ entries-reverse c.items)
    ∙ reverse-reverse (entries c.items)

pub chat_for-insert :
    (k j : Text) (c : Chat) (chats : Map Chat)
    → chat_for k (insert j c chats) ≡ (if text_eq j k then c else chat_for k chats)
unfolding chat_for
chat_for-insert k j c chats = elim (Bool-cases (text_eq j k)) [
  | inl e ↦ rw (lookup-insert j k c chats, chat_for, e) refl
  | inr e ↦ rw (lookup-insert j k c chats, chat_for, e) refl
]

-- The entry, if its chat is the one of the key.
abbrev if_key : Text → Text → Entry → List Entry
if_key j k e = if text_eq j k then e ∷ [] else []

entries_of-file_item :
    (k j : Text) (it : Item) (chats : Map Chat)
    → entries_of k (file_item j it chats) ≡ entries_of k chats ++ if_key j k it.e
unfolding entries_of file_item push
entries_of-file_item k j it chats = elim (Bool-cases (text_eq j k)) [
  | inl e ↦
      let same = (text_eq_iff j k).0 e in
      simp (chat_for-insert, e)
        (map-append (λ (x : Item). x.e) (chat_for j chats).items (it ∷ [])
          ∙ ap (λ i. entries (chat_for i chats).items ++ it.e ∷ []) same)
  | inr e ↦ simp (chat_for-insert, e, append-nil) refl
]

module _ (u : Unicode) (ip : Netip) (ix : Index) (k : Text) where
  -- Whether an entry belongs to the chat.
  abbrev pub fits : Entry → Bool
  fits e = text_eq (classify u ip ix e) k

  filter_by-append :
      (es fs : List Entry) → filter_by fits (es ++ fs) ≡ filter_by fits es ++ filter_by fits fs
  filter_by-append [] fs = refl
  filter_by-append (e ∷ es) fs = elim (Bool-cases (fits e)) [
    | inl t ↦ rw t (ap (◌∷◌ e) (filter_by-append es fs))
    | inr f ↦ rw f (filter_by-append es fs)
  ]

  entries_of-file_items :
      (items : List Item) (chats : Map Chat)
      → entries_of k (file_items u ip ix items chats)
        ≡ entries_of k chats ++ filter_by fits (entries items)
  unfolding file_items
  entries_of-file_items [] chats = sym (append-nil (entries_of k chats))
  entries_of-file_items (it ∷ items) chats =
      entries_of-file_items items (file_item (classify u ip ix it.e) it chats)
      ∙ ap (λ es. es ++ filter_by fits (entries items))
          (entries_of-file_item k (classify u ip ix it.e) it chats)
      ∙ append_assoc (entries_of k chats) (if_key (classify u ip ix it.e) k it.e)
          (filter_by fits (entries items))
      ∙ ap (λ es. entries_of k chats ++ es) (sym (filter_by-append (it.e ∷ []) (entries items)))

pub chat_for-some :
    (k : Text) (c : Chat) (chats : Map Chat) → lookup k chats ≡ some c → chat_for k chats ≡ c
unfolding chat_for
chat_for-some k c chats e = rw (e, chat_for) refl

pub entries-map : (es : List Entry) → entries (map (λ e. record { e = e; unread = false }) es) ≡ es
entries-map [] = refl
entries-map (e ∷ es) = ap (◌∷◌ e) (entries-map es)

entries_of-open_chat :
    (k key : Text) (s : Store) → entries_of k (open_chat key s).chats ≡ entries_of k s.chats
unfolding entries_of open_chat
entries_of-open_chat k key s = elim (Option-cases (lookup (resolve s key) s.chats)) [
  | inl e ↦ rw (e, open_chat) refl
  | inr (c, e) ↦ elim (Bool-cases (text_eq (resolve s key) k)) [
    | inr f ↦ rw (e, open_chat, chat_for-insert k (resolve s key) (clear_unread c) s.chats, f) refl
    | inl t ↦
        let at_k = chat_for-some (resolve s key) c s.chats e in
        let same = (text_eq_iff (resolve s key) k).0 t in
        rw (e, open_chat, chat_for-insert k (resolve s key) (clear_unread c) s.chats, t)
          (clear_unread-entries c
            ∙ ap (λ (d : Chat). entries d.items) (sym at_k)
            ∙ ap (λ i. entries (chat_for i s.chats).items) same)
  ]
]

module _ (u : Unicode) (ip : Netip) where
  unfoldable pub step : Event → Store → Store
  step (added e) s = (add u ip e s).1
  step (opened key) s = open_chat key s

  unfoldable pub run : List Event → Store → Store
  run [] s = s
  run (event ∷ events) s = run events (step event s)

  abbrev pub logged : List Event → List Entry
  logged [] = []
  logged (added e ∷ events) = e ∷ logged events
  logged (opened key ∷ events) = logged events

  run-entries_of :
      (k : Text) (events : List Event) (s : Store)
      → entries_of k (run events s).chats
        ≡ entries_of k s.chats ++ filter_by (fits u ip s.index k) (logged events)
  unfolding run step add open_chat
  run-entries_of k [] s = sym (append-nil (entries_of k s.chats))
  run-entries_of k (added e ∷ events) s =
      let j = classify u ip s.index e in
      let later = filter_by (fits u ip s.index k) (logged events) in
      let it : Item = record {
        e = e;
        unread = text_eq e.dir dir_in && not (text_eq j s.open_key);
      } in
      run-entries_of k events (add u ip e s).1
      ∙ ap (λ es. es ++ later) (entries_of-file_item k j it s.chats)
      ∙ append_assoc (entries_of k s.chats) (if_key j k e) later
      ∙ ap (λ es. entries_of k s.chats ++ es)
          (sym (filter_by-append u ip s.index k (e ∷ []) (logged events)))
  run-entries_of k (opened key ∷ events) s =
      run-entries_of k events (open_chat key s)
      ∙ ap (λ es. es ++ filter_by (fits u ip s.index k) (logged events))
          (entries_of-open_chat k key s)

  run-loaded :
      (k : Text) (ix : Index) (es : List Entry) (events : List Event)
      → entries_of k (run events (load u ip es (new ix))).chats
        ≡ filter_by (fits u ip ix k) (es ++ logged events)
  unfolding load new file_chats entries_of chat_for lookup
  run-loaded k ix es events =
      let items = map (λ e. record { e = e; unread = false }) es in
      run-entries_of k events (load u ip es (new ix))
      ∙ ap (λ fs. fs ++ filter_by (fits u ip ix k) (logged events))
          (entries_of-file_items u ip ix k items []
            ∙ ap (filter_by (fits u ip ix k)) (entries-map es))
      ∙ sym (filter_by-append u ip ix k es (logged events))

  -- Until the next list of peers, whatever store it begins with, one that SetPeers has left included:
  -- a chat holds what it held, and then the added entries that belong to it, in the order in which
  -- they were added, none of them lost, doubled or moved. In a store that has just loaded a history
  -- file, what a chat held are the entries of the file that belong to it, in the order of the file.
  pub run-load-entries_of :
      (k : Text) (events : List Event) (s : Store) (ix : Index) (es : List Entry)
      → (entries_of k (run events s).chats
          ≡ entries_of k s.chats ++ filter_by (fits u ip s.index k) (logged events))
        × (entries_of k (run events (load u ip es (new ix))).chats
            ≡ filter_by (fits u ip ix k) (es ++ logged events))
  run-load-entries_of k events s ix es = (run-entries_of k events s, run-loaded k ix es events)
