-- ===== src/Chat/Summary/Rows.antt =====
-- One row for each chat and each peer.
use lanxfer.Base.{
  ℕ, suc, ◌+◌, ◌≡◌, refl, sym, ap, subst, ◌∙◌, inl, inr, Bool, true, false, not, ◌||◌, List, [],
  ◌∷◌, ◌++◌, Option, none, some, Text, arith, any_by, count_by, count_by-append, ◌==◌,
  if◌then◌else◌, Bool-cases, Map, lookup, text_eq, text_eq_iff,
}
use mathlib.Core.List.{reverse}
use lanxfer.Unicode.{Unicode}
use lanxfer.Presence.{Peer}
use lanxfer.History.{Entry}
use lanxfer.Chat.{Item, Chat, Netip, Store, peer_key}
use lanxfer.Chat.Regroup.{PeerIndex}
use lanxfer.Chat.Regroup.Totals.{IsDistinct}
use lanxfer.Chat.Summary.{
  Summary, blank_row, peer_of, with_last, with_messages, with_peer, with_owner, with_name,
  summarize, rows_of_chats, rows_of_peers, insert_row, sort_rows, summaries,
}

abbrev pub is_under : Text → Summary → Bool
is_under k r = text_eq r.key k

abbrev pub is_some : Option Chat → Bool
is_some none = false
is_some (some c) = true

-- Whether there is a chat or a peer under the key.
abbrev pub is_listed : Unicode → List Peer → Map Chat → Text → Bool
is_listed u ps chats k = is_some (lookup k chats) || any_by (λ p. text_eq (peer_key u p) k) ps

abbrev pub one_if : Bool → ℕ
one_if b = if b then 1 else 0

with_last_key :
    (preview : Entry → Text) (n : ℕ) (items : List Item) (row : Summary)
    → (with_last preview n items row).key ≡ row.key
unfolding with_last
with_last_key preview n [] row = refl
with_last_key preview n (it ∷ items) row = refl

with_messages_key :
    (preview : Entry → Text) (c : Option Chat) (row : Summary)
    → (with_messages preview c row).key ≡ row.key
unfolding with_messages
with_messages_key preview none row = refl
with_messages_key preview (some c) row = with_last_key preview c.unread (reverse c.items) row

with_owner_key :
    (ip : Netip) (p : Option Peer) (c : Option Chat) (row : Summary)
    → (with_owner ip p c row).key ≡ row.key
unfolding with_owner with_peer
with_owner_key ip (some p) c row = refl
with_owner_key ip none none row = refl
with_owner_key ip none (some c) row = refl

with_name_key : (k : Text) (row : Summary) → (with_name k row).key ≡ row.key
unfolding with_name
with_name_key k row = ground arith

any_by-count :
    (f : Summary → Bool) (rows : List Summary) → any_by f rows ≡ not (count_by f rows == 0)
any_by-count f [] = ground arith
any_by-count f (r ∷ rows) = ground (arith, any_by-count f rows)

absorbed :
    (j k : Text) (has : Text → Bool)
    → has j ≡ true
    → (b : Bool) → (has k || b) ≡ (has k || (text_eq j k || b))
absorbed j k has h b = elim (Bool-cases (text_eq j k)) [
  | inr f ↦ ground (arith, f)
  | inl e ↦
      let same : j ≡ k = (text_eq_iff j k).0 e in
      ground (arith, e, subst (λ i. has i ≡ true) same h)
]

once_more :
    (j i : Text) (has : Text → Bool)
    → has j ≡ false
    → {n : ℕ} → n ≡ one_if (has i)
    → n + one_if (text_eq j i) ≡ one_if (has i || text_eq j i)
once_more j i has h e = elim (Bool-cases (text_eq j i)) [
  | inr f ↦ ground (arith, f, e)
  | inl t ↦
      let same : j ≡ i = (text_eq_iff j i).0 t in
      ground (arith, t, e, subst (λ x. has x ≡ false) same h)
]

module _ (u : Unicode) (preview : Entry → Text) (ip : Netip) (t : PeerIndex) where
  summarize_key : (k : Text) (c : Option Chat) → (summarize preview ip t k c).key ≡ k
  unfolding summarize
  summarize_key k c =
      with_name_key k (with_owner ip (peer_of t k) c (with_messages preview c (blank_row k)))
      ∙ with_owner_key ip (peer_of t k) c (with_messages preview c (blank_row k))
      ∙ with_messages_key preview c (blank_row k)

  rows_of_chats_count :
      (chats : Map Chat) (k : Text)
      → IsDistinct chats
      → count_by (is_under k) (rows_of_chats preview ip t chats) ≡ one_if (is_some (lookup k chats))
  unfolding rows_of_chats lookup
  rows_of_chats_count [] k h = refl
  rows_of_chats_count ((j, c) ∷ chats) k h = elim (Bool-cases (text_eq j k)) [
    | inl e ↦
        let same : j ≡ k = (text_eq_iff j k).0 e in
        rw (summarize_key j (some c), e)
          (omega (
            arith,
            rows_of_chats_count chats k h.1
                ∙ ap (λ x. one_if (is_some x)) (subst (λ i. lookup i chats ≡ none) same h.0),
          ))
    | inr f ↦ rw (summarize_key j (some c), f) (rows_of_chats_count chats k h.1)
  ]

  added_count :
      (p : Peer) (rows : List Summary) (k : Text)
      → count_by (is_under k) (rows ++ summarize preview ip t (peer_key u p) none ∷ [])
        ≡ count_by (is_under k) rows + one_if (text_eq (peer_key u p) k)
  added_count p rows k =
      count_by-append (is_under k) rows (summarize preview ip t (peer_key u p) none ∷ [])
      ∙ ap (λ j. count_by (is_under k) rows + one_if (text_eq j k))
          (summarize_key (peer_key u p) none)

  -- `has` tells the keys that the rows have, each once.
  rows_of_peers_count :
      (ps : List Peer) (rows : List Summary) (has : Text → Bool)
      → ((k : Text) → count_by (is_under k) rows ≡ one_if (has k))
      → (k : Text)
      → count_by (is_under k) (rows_of_peers u preview ip t ps rows)
        ≡ one_if (has k || any_by (λ p. text_eq (peer_key u p) k) ps)
  unfolding rows_of_peers
  rows_of_peers_count [] rows has h k = h k ∙ ap one_if (ground arith)
  rows_of_peers_count (p ∷ ps) rows has h k =
      let j = peer_key u p in
      let here_j : any_by (is_under j) rows ≡ has j =
        any_by-count (is_under j) rows ∙ ground (arith, h j) in
      elim (Bool-cases (any_by (is_under j) rows)) [
        | inl old ↦
            rw (old, rows_of_peers)
              (rows_of_peers_count ps rows has h k
                ∙ ap one_if (
                    absorbed j k has (sym here_j ∙ old)
                      (any_by (λ q. text_eq (peer_key u q) k) ps)))
        | inr fresh ↦
            rw (fresh, rows_of_peers)
              (rows_of_peers_count ps (rows ++ summarize preview ip t j none ∷ [])
                  (λ i. has i || text_eq j i)
                  (λ i. added_count p rows i ∙ once_more j i has (sym here_j ∙ fresh) (h i)) k
                ∙ ap one_if (ground arith))
      ]

insert_row_count :
    (u : Unicode) (f : Summary → Bool) (r : Summary) (rows : List Summary)
    → count_by f (insert_row u r rows) ≡ count_by f (r ∷ rows)
unfolding insert_row
insert_row_count u f r [] = refl
insert_row_count u f r (q ∷ rows) = ground (arith, insert_row_count u f r rows)

sort_rows_count :
    (u : Unicode) (f : Summary → Bool) (rows : List Summary)
    → count_by f (sort_rows u rows) ≡ count_by f rows
unfolding sort_rows
sort_rows_count u f [] = refl
sort_rows_count u f (r ∷ rows) =
    insert_row_count u f r (sort_rows u rows)
    ∙ ap (λ n. if f r then suc n else n) (sort_rows_count u f rows)

-- The list has exactly one row for each chat and for each peer, by its ID or else its name, and no
-- other row, if the store has one chat for each key.
pub summaries_count :
    (u : Unicode) (preview : Entry → Text) (ip : Netip) (t : PeerIndex) (s : Store)
    → IsDistinct s.chats
    → (k : Text)
    → count_by (is_under k) (summaries u preview ip t s) ≡ one_if (is_listed u t.peers s.chats k)
unfolding summaries
summaries_count u preview ip t s h k =
    sort_rows_count u (is_under k) _
    ∙ rows_of_peers_count u preview ip t t.peers (rows_of_chats preview ip t s.chats)
        (λ j. is_some (lookup j s.chats)) (λ j. rows_of_chats_count u preview ip t s.chats j h) k
