-- ===== src/Examples/Identity.antt =====
-- Two receivers that start at once, without an ID.
use lanxfer.Base.{
  ℕ, ◌≡◌, ◌<◌, refl, sym, subst, true, false, not, ◌==◌, List, [], ◌∷◌, ◌++◌, none, some, Text,
  codes, arith, All, In, here, filter_by, length,
}
use lanxfer.Identity.{valid, valid_iff, IsHex}
use lanxfer.Identity.Created.{Answers, Phase, begin, finished, id_content, run, steps}
use lanxfer.Identity.Created.Agreed.{IsSound, replicate, able, steps_total, run-agreed}

abbrev without_newlines : Text → Text
without_newlines s = filter_by (λ c. not (c == 10)) s

without_newlines-IsHex : (s : Text) → All IsHex s → without_newlines (s ++ codes "\n") ≡ s
without_newlines-IsHex [] h = refl
without_newlines-IsHex (c ∷ s) (h, hs) = ground (arith, h, without_newlines-IsHex s hs)

trims : (id : Text) → valid id ≡ true → without_newlines (id_content id) ≡ id
trims id h = without_newlines-IsHex id ((valid_iff id).0 h).1

abbrev random_bytes : ℕ → List ℕ
random_bytes b = b ∷ 1 ∷ 2 ∷ 3 ∷ 4 ∷ 5 ∷ 6 ∷ 7 ∷ 8 ∷ 9 ∷ 10 ∷ 11 ∷ 12 ∷ 13 ∷ 14 ∷ 255 ∷ []

abbrev works : ℕ → Answers
works b = record {
  read_ok = true;
  mkdir_ok = true;
  random = some (random_bytes b);
  temp_ok = true;
  links = true;
  rename_ok = true;
}

-- The second one links first; the first one then reads its ID.
abbrev race : List (ℕ × Answers)
race =
    (0, works 0)
    ∷ (1, works 1)
    ∷ (0, works 0)
    ∷ (1, works 1)
    ∷ (1, works 1)
    ∷ (0, works 0)
    ∷ (0, works 0)
    ∷ []

works-IsSound : (b : ℕ) → b < 256 → IsSound (works b)
works-IsSound b h = (
  refl,
  λ raw e.
      let same : random_bytes b ≡ raw = cc in
      subst (λ r. (length r ≡ 16) × All (λ x. x < 256) r) same (refl, ground (arith, h)),
)

first : IsSound (works 0)
first = works-IsSound 0 (omega arith)

second : IsSound (works 1)
second = works-IsSound 1 (omega arith)

abbrev unlinked : Answers
unlinked = able false (random_bytes 9)

abbrev winner : Text
winner = codes "010102030405060708090a0b0c0d0eff"

both_finished :
    (run without_newlines race (replicate 2 begin) none).0 ≡ finished winner ∷ finished winner ∷ []
unfolding run lanxfer.Identity.Created.turn lanxfer.Identity.Created.step
    lanxfer.Identity.Created.unless_there lanxfer.Identity.Created.read_id
    lanxfer.Identity.Created.create lanxfer.Identity.Created.created lanxfer.Identity.Created.link
    lanxfer.Identity.Created.valid_in lanxfer.Identity.hex_encode valid
both_finished = refl

run-agreed_example :
    (valid winner ≡ true)
    × ((content : Text) × ((run without_newlines race (replicate 2 begin) none).1 ≡ some content)
        × (without_newlines content ≡ winner))
    × ((content : Text) → none ≡ some content → without_newlines content ≡ winner)
    × ((other : Text)
        → In (finished other) (run without_newlines race (replicate 2 begin) none).0
        → other ≡ winner)
run-agreed_example =
    run-agreed without_newlines trims 2 race none winner
      (first, (second, (first, (second, (second, (first, (first, tt))))))) tt
      (subst (In (finished winner)) (sym both_finished) (here refl))

-- A call that finds a broken file, where there are no hard links.
steps_total_example :
    let res =
      steps without_newlines
        (unlinked ∷ unlinked ∷ unlinked ∷ unlinked ∷ unlinked ∷ [])
        begin
        (some (codes "00")) in
    (id : Text) × (content : Text) × (res.0 ≡ finished id)
    × (res.1 ≡ some content)
    × (without_newlines content ≡ id)
    × (valid id ≡ true)
steps_total_example =
    steps_total without_newlines trims false (random_bytes 9) (some (codes "00")) refl
      (ground arith)

-- Both read a broken file, find it broken again behind the link, and rename their own file over it.
abbrev broken_race : List (ℕ × Answers)
broken_race =
    (0, works 0)
    ∷ (1, works 1)
    ∷ (0, works 0)
    ∷ (1, works 1)
    ∷ (0, works 0)
    ∷ (1, works 1)
    ∷ (0, works 0)
    ∷ (1, works 1)
    ∷ (0, works 0)
    ∷ (1, works 1)
    ∷ []

abbrev loser : Text
loser = codes "000102030405060708090a0b0c0d0eff"

different_ids :
    (run without_newlines broken_race (replicate 2 begin) (some (codes "00"))).0
    ≡ finished loser ∷ finished winner ∷ []
unfolding run lanxfer.Identity.Created.turn lanxfer.Identity.Created.step
    lanxfer.Identity.Created.unless_there lanxfer.Identity.Created.read_id
    lanxfer.Identity.Created.create lanxfer.Identity.Created.created lanxfer.Identity.Created.link
    lanxfer.Identity.Created.rename lanxfer.Identity.Created.valid_in lanxfer.Identity.hex_encode
    valid
different_ids = refl
