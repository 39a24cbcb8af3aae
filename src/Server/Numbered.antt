-- ===== src/Server/Numbered.antt =====
-- internal/server/storage.go: the names that `commit` tries in turn.
use mathlib.Core.List.{reverse}
use lanxfer.Base.{
  ℕ, ◌≡◌, refl, Bool, true, false, [], ◌∷◌, ◌++◌, Text, codes, ◌==◌, if◌then◌else◌, trim_suffix,
}
use lanxfer.Decimal.{decimal}

-- `filepath.Ext`, which reads the name from its end: the last dot and what stands behind it.
ext_from : Text → Text → Text
ext_from [] out = []
ext_from (c ∷ s) out =
    let more = ext_from s (c ∷ out) in if c == b'/' then [] else if c == b'.' then c ∷ out else more

unfoldable pub ext : Text → Text
unfolding ext_from
ext name = ext_from (reverse name) []

unfoldable pub numbered_name : Text → ℕ → Bool → Text
numbered_name name i is_dir =
    let number = codes " (" ++ (decimal i ++ codes ")") in
    if i == 0
    then name
    else if is_dir
    then name ++ number
    else trim_suffix name (ext name) ++ (number ++ ext name)

file_name : numbered_name (codes "a.tar.gz") 12 false ≡ codes "a.tar (12).gz"
unfolding numbered_name decimal ext trim_suffix
file_name = refl

folder_name : numbered_name (codes "photos.2024") 1 true ≡ codes "photos.2024 (1)"
unfolding numbered_name decimal
folder_name = refl
