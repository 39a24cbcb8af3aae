-- ===== src/Identity.antt =====
-- internal/identity/identity.go: the device ID and the file that holds it.
pub mod Created
use lanxfer.Base.{
  ℕ, ◌+◌, ◌-◌, ◌/◌, ◌%◌, ◌≤◌, ◌<◌, ◌≡◌, ◌↔◌, ◌⊎◌, refl, Bool, true, false, not, ◌||◌, ◌&&◌, List,
  [], ◌∷◌, arith, Text, ltb, ◌==◌, length, if◌then◌else◌, All, all_by,
}

abbrev id_length : ℕ
id_length = 32

-- `(c < '0' || c > '9') && (c < 'a' || c > 'f')`
not_hex : ℕ → Bool
not_hex c = (ltb c b'0' || ltb b'9' c) && (ltb c b'a' || ltb b'f' c)

unfoldable pub valid : Text → Bool
unfolding not_hex
valid id = if length id == id_length then all_by (λ c. not (not_hex c)) id else false

abbrev pub IsHex : ℕ → Type 0
IsHex c = ((b'0' ≤ c) × (c ≤ b'9')) ⊎ ((b'a' ≤ c) × (c ≤ b'f'))

All-IsHex_iff : (s : Text) → (all_by (λ c. not (not_hex c)) s ≡ true) ↔ All IsHex s
unfolding not_hex
All-IsHex_iff [] = (λ _. tt, λ _. refl)
All-IsHex_iff (c ∷ s) = (λ e. ground (arith, All-IsHex_iff s), λ e. ground (arith, All-IsHex_iff s))

-- `Valid` accepts exactly the texts of 32 lower-case hexadecimal digits.
pub valid_iff : (id : Text) → (valid id ≡ true) ↔ ((length id ≡ 32) × All IsHex id)
unfolding valid
valid_iff id = ground (arith, All-IsHex_iff id)

-- `hex.EncodeToString`
hex_digit : ℕ → ℕ
hex_digit n = if ltb n 10 then b'0' + n else (b'a' - 10) + n

unfoldable pub hex_encode : List ℕ → Text
unfolding hex_digit
hex_encode [] = []
hex_encode (b ∷ raw) = hex_digit (b / 16) ∷ hex_digit (b % 16) ∷ hex_encode raw

pub hex_encode-IsHex :
    (raw : List ℕ)
    → All (λ b. b < 256) raw
    → All IsHex (hex_encode raw) × (length (hex_encode raw) ≡ length raw + length raw)
unfolding hex_encode
hex_encode-IsHex [] h = (tt, omega arith)
hex_encode-IsHex (b ∷ raw) h = ground (arith, hex_encode-IsHex raw h.1)
