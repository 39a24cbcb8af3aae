-- ===== src/Transfer/Queue/Issued.antt =====
-- The IDs that a manager gives out.
use lanxfer.Base.{ℕ, ◌≡◌, [], ◌∷◌, ◌++◌, Text, codes}
use lanxfer.Decimal.{decimal, decimal-injective}
use lanxfer.Transfer.Queue.{make_id}

drop_front : (front s t : Text) → front ++ s ≡ front ++ t → s ≡ t
drop_front [] s t e = e
drop_front (c ∷ front) s t e = drop_front front s t (tails e)
  where
    tails : c ∷ front ++ s ≡ c ∷ front ++ t → front ++ s ≡ front ++ t
    tails e = cc

-- Two sequence numbers never make the same ID.
pub make_id-injective : (prefix : Text) (m n : ℕ) → make_id prefix m ≡ make_id prefix n → m ≡ n
unfolding make_id
make_id-injective prefix m n e =
    decimal-injective m n (drop_front (codes "t" ++ prefix ++ codes "-") (decimal m) (decimal n) e)
