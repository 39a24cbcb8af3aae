-- ===== src/Chat/Regroup/Sources.antt =====
-- The chats that entries leave: what a scan finds, in the order of their keys.
use lanxfer.Base.{
  ℕ, ◌+◌, ◌≡◌, refl, sym, subst, inl, inr, Bool, false, List, [], ◌∷◌, ◌++◌, Option, none, some,
  Text, arith, Bool-cases, if◌then◌else◌, Map, lookup, text_eq, text_eq_iff, text_eq_refl, text_ltb,
  All,
}
use lanxfer.Unicode.{Unicode}
use lanxfer.History.{Entry}
use lanxfer.Chat.{Item, Chat, Netip, Index}
use lanxfer.Chat.Regroup.Totals.{IsDistinct, tally, tally_of, tally-append}
use lanxfer.Chat.Regroup.{
  Batch, Source, Memo, classify_once, add_to_batch, place, scan_from, is_movable, with_source,
  scan_chats, insert_source, sort_sources,
}

module _ (p : Entry → Bool) where
  abbrev pub tally_all : List Batch → ℕ
  tally_all [] = 0
  tally_all (b ∷ bs) = tally p b.items + tally_all bs

  abbrev pub tally_source : Source → ℕ
  tally_source src = tally p src.kept + tally_all src.batches

  abbrev pub tally_moved : List Source → ℕ
  tally_moved [] = 0
  tally_moved (src ∷ srcs) = tally_all src.batches + tally_moved srcs

  add_to_batch_lem :
      (to : Text) (it : Item) (bs : List Batch)
      → tally_all (add_to_batch to it bs) ≡ tally_all bs + tally p (it ∷ [])
  unfolding add_to_batch
  add_to_batch_lem to it [] = omega arith
  add_to_batch_lem to it (b ∷ bs) = elim (Bool-cases (text_eq b.to to)) [
    | inl e ↦ rw (e, add_to_batch) (omega (arith, tally-append p b.items (it ∷ [])))
    | inr e ↦ rw (e, add_to_batch) (omega (arith, add_to_batch_lem to it bs))
  ]

  -- The entries that a scan has passed.
  abbrev passed : List Item → Option Source → ℕ
  passed done none = tally p done
  passed done (some src) = tally_source src

  abbrev HasKey : Text → Option Source → Type 0
  HasKey k none = Unit
  HasKey k (some src) = src.key ≡ k

  place_lem :
      (k : Text) (done : List Item) (src : Option Source) (to : Text) (it : Item)
      → HasKey k src
      → (passed (done ++ it ∷ []) (place k done src to it) ≡ passed done src + tally p (it ∷ []))
        × HasKey k (place k done src to it)
  unfolding place
  place_lem k done none to it h = elim (Bool-cases (text_eq to k)) [
    | inl e ↦ rw (e, place) (tally-append p done (it ∷ []), tt)
    | inr e ↦ rw (e, place) (omega arith, refl)
  ]
  place_lem k done (some src) to it h = elim (Bool-cases (text_eq to k)) [
    | inl e ↦ rw (e, place) (omega (arith, tally-append p src.kept (it ∷ [])), h)
    | inr e ↦ rw (e, place) (omega (arith, add_to_batch_lem to it src.batches), h)
  ]

  -- A source of a chat: all its entries, those kept and those that move.
  abbrev IsSplit : Text → ℕ → Option Source → Type 0
  IsSplit k n none = Unit
  IsSplit k n (some src) = (src.key ≡ k) × (tally_source src ≡ n)

  passed-IsSplit :
      (k : Text) (done : List Item) (src : Option Source)
      → HasKey k src
      → IsSplit k (passed done src) src
  passed-IsSplit k done none h = tt
  passed-IsSplit k done (some src) h = (h, refl)

  scan_from-IsSplit :
      (u : Unicode) (ip : Netip) (ix : Index) (k : Text) (done : List Item) (src : Option Source)
      (items : List Item) (memo : Memo)
      → HasKey k src
      → IsSplit k (passed done src + tally p items) (scan_from u ip ix k done src items memo).0
  unfolding scan_from
  scan_from-IsSplit u ip ix k done src [] memo h =
      subst (λ n. IsSplit k n src) (omega arith) (passed-IsSplit k done src h)
  scan_from-IsSplit u ip ix k done src (it ∷ items) memo h =
      let to = (classify_once u ip ix it.e memo).0 in
      let later = (classify_once u ip ix it.e memo).1 in
      let (same, keyed) = place_lem k done src to it h in
      subst
        (λ n.
          IsSplit k n
            (scan_from u ip ix k (done ++ it ∷ []) (place k done src to it) items later).0)
        (omega (arith, same, tally-append p (it ∷ []) items))
        (scan_from-IsSplit u ip ix k (done ++ it ∷ []) (place k done src to it) items later keyed)

  -- A source of the chats: its chat is there, and has the entries that are kept and those that move.
  abbrev pub IsSource : Map Chat → Source → Type 0
  IsSource chats src =
      (c : Chat) × (lookup src.key chats ≡ some c) × (tally_source src ≡ tally_of p c)

  -- Sources of different chats.
  abbrev pub AreApart : List Source → Type 0
  AreApart [] = Unit
  AreApart (src ∷ srcs) = All (λ (r : Source). text_eq src.key r.key ≡ false) srcs × AreApart srcs

  IsSource-tail :
      (k : Text) (c : Chat) (chats : Map Chat) (src : Source)
      → lookup k chats ≡ none
      → IsSource chats src
      → IsSource ((k, c) ∷ chats) src × (text_eq k src.key ≡ false)
  unfolding lookup
  IsSource-tail k c chats src fresh (d, e, n) = elim (Bool-cases (text_eq k src.key)) [
    | inl t ↦
        let same : k ≡ src.key = (text_eq_iff k src.key).0 t in
        absurd (cc (subst (λ j. lookup j chats ≡ none) same fresh, e))
    | inr f ↦ ((d, rw (f, lookup) e, n), f)
  ]

  tail-sources :
      (k : Text) (c : Chat) (chats : Map Chat) (srcs : List Source)
      → lookup k chats ≡ none
      → All (IsSource chats) srcs
      → All (IsSource ((k, c) ∷ chats)) srcs × All (λ (r : Source). text_eq k r.key ≡ false) srcs
  tail-sources k c chats [] fresh h = (tt, tt)
  tail-sources k c chats (src ∷ srcs) fresh (h, hs) =
      let (here_ok, apart) = IsSource-tail k c chats src fresh h in
      let (rest_ok, rest_apart) = tail-sources k c chats srcs fresh hs in
      ((here_ok, rest_ok), (apart, rest_apart))

  with_source-sources :
      (k : Text) (c : Chat) (chats : Map Chat) (src : Option Source) (srcs : List Source)
      → IsSplit k (tally_of p c) src
      → All (IsSource ((k, c) ∷ chats)) srcs × All (λ (r : Source). text_eq k r.key ≡ false) srcs
      → AreApart srcs
      → All (IsSource ((k, c) ∷ chats)) (with_source src srcs) × AreApart (with_source src srcs)
  unfolding with_source lookup
  with_source-sources k c chats none srcs h (hs, away) apart = (hs, apart)
  with_source-sources k c chats (some src) srcs (keyed, n) (hs, away) apart = (
    ((c, rw (keyed, text_eq_refl k, lookup) refl, n), hs),
    (subst (λ j. All (λ (r : Source). text_eq j r.key ≡ false) srcs) (sym keyed) away, apart),
  )

  movable-IsSplit :
      (u : Unicode) (ip : Netip) (ix : Index) (k : Text) (c : Chat) (memo : Memo)
      → IsSplit k
          (tally_of p c)
          (if is_movable k then (scan_from u ip ix k [] none c.items memo).0 else none)
  movable-IsSplit u ip ix k c memo = elim (Bool-cases (is_movable k)) [
    | inl t ↦ rw (t) (
        subst (λ n. IsSplit k n (scan_from u ip ix k [] none c.items memo).0) (omega arith)
          (scan_from-IsSplit u ip ix k [] none c.items memo tt))
    | inr f ↦ rw (f) tt
  ]

  pub scan_chats-sources :
      (u : Unicode) (ip : Netip) (ix : Index) (chats : Map Chat) (memo : Memo)
      → IsDistinct chats
      → All (IsSource chats) (scan_chats u ip ix chats memo)
        × AreApart (scan_chats u ip ix chats memo)
  unfolding scan_chats
  scan_chats-sources u ip ix [] memo h = (tt, tt)
  scan_chats-sources u ip ix ((k, c) ∷ chats) memo (fresh, h) =
      let (src, later) = scan_from u ip ix k [] none c.items memo in
      let memo' = if is_movable k then later else memo in
      let (hs, apart) = scan_chats-sources u ip ix chats memo' h in
      with_source-sources k c chats (if is_movable k then src else none)
        (scan_chats u ip ix chats memo') (movable-IsSplit u ip ix k c memo)
        (tail-sources k c chats (scan_chats u ip ix chats memo') fresh hs) apart

  -- Sorting.
  insert_source-All :
      (P : Source → Type 0) (s : Source) (rs : List Source)
      → P s
      → All P rs
      → All P (insert_source s rs)
  unfolding insert_source
  insert_source-All P s [] h hs = (h, tt)
  insert_source-All P s (r ∷ rs) h hs = elim (Bool-cases (text_ltb r.key s.key)) [
    | inl t ↦ rw (t, insert_source) (hs.0, insert_source-All P s rs h hs.1)
    | inr f ↦ rw (f, insert_source) (h, hs)
  ]

  insert_source_apart :
      (s : Source) (rs : List Source)
      → All (λ (r : Source). text_eq s.key r.key ≡ false) rs
      → AreApart rs
      → AreApart (insert_source s rs)
  unfolding insert_source
  insert_source_apart s [] away h = (tt, tt)
  insert_source_apart s (r ∷ rs) away h = elim (Bool-cases (text_ltb r.key s.key)) [
    | inl t ↦
        rw (t, insert_source)
          (
            insert_source-All (λ (q : Source). text_eq r.key q.key ≡ false) s rs
                (ground (arith, away.0, text_eq_iff s.key r.key, text_eq_iff r.key s.key)) h.0,
            insert_source_apart s rs away.1 h.1,
          )
    | inr f ↦ rw (f, insert_source) (away, h)
  ]

  pub sort_sources-All :
      (P : Source → Type 0) (srcs : List Source) → All P srcs → All P (sort_sources srcs)
  unfolding sort_sources
  sort_sources-All P [] h = tt
  sort_sources-All P (s ∷ srcs) h =
      insert_source-All P s (sort_sources srcs) h.0 (sort_sources-All P srcs h.1)

  pub sort_sources_apart : (srcs : List Source) → AreApart srcs → AreApart (sort_sources srcs)
  unfolding sort_sources
  sort_sources_apart [] h = tt
  sort_sources_apart (s ∷ srcs) h =
      insert_source_apart s (sort_sources srcs)
        (sort_sources-All (λ (r : Source). text_eq s.key r.key ≡ false) srcs h.0)
        (sort_sources_apart srcs h.1)
