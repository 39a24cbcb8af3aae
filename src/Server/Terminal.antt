-- ===== src/Server/Terminal.antt =====
-- internal/server/inbox.go: what is printed of a message.
pub mod Clean
use lanxfer.Base.{
  ℕ, suc, ◌+◌, ◌-◌, ◌/◌, ◌%◌, ◌≡◌, refl, Bool, true, false, not, ◌&&◌, ◌||◌, List, [], ◌∷◌, ◌++◌,
  Text, codes, ltb, leb, ◌==◌, if◌then◌else◌, has_suffix,
}
use lanxfer.Utf8.{runes, encode_rune}
use lanxfer.Netaddr.{Addr}
use lanxfer.Presence.{has_id}

-- `strings.ReplaceAll(s, "\r\n", "\n")`
unfoldable pub crlf_to_lf : Text → Text
crlf_to_lf [] = []
crlf_to_lf (c ∷ []) = c ∷ []
crlf_to_lf (c ∷ d ∷ s) = elim (c == b'\r' && d == b'\n') [
  | true ↦ b'\n' ∷ crlf_to_lf s
  | false ↦ c ∷ crlf_to_lf (d ∷ s)
]

-- `unicode.IsControl`
unfoldable pub is_unicode_control : ℕ → Bool
is_unicode_control r = ltb r 0x20 || (leb 0x7F r && leb r 0x9F)

unfoldable pub is_bidi_control : ℕ → Bool
is_bidi_control r = leb 0x202A r && leb r 0x202E || leb 0x2066 r && leb r 0x2069

-- One hexadecimal digit of fmt.
unfoldable pub hex_digit : ℕ → ℕ
hex_digit n = if ltb n 10 then b'0' + n else b'a' + (n - 10)

-- `\x%02x` and `\u%04x`, for runes of one and of two bytes.
unfoldable pub escape : ℕ → List ℕ
escape r =
    if leb r 0x7F
    then b'\\' ∷ b'x' ∷ hex_digit (r / 16 % 16) ∷ hex_digit (r % 16) ∷ []
    else b'\\'
      ∷ b'u'
      ∷ hex_digit (r / 4096 % 16)
      ∷ hex_digit (r / 256 % 16)
      ∷ hex_digit (r / 16 % 16)
      ∷ hex_digit (r % 16)
      ∷ []

-- One round of the loop, with the runes that it writes.
unfoldable pub sanitize_rune : ℕ → List ℕ
sanitize_rune r =
    if r == b'\n' || r == b'\t'
    then r ∷ []
    else if is_unicode_control r || is_bidi_control r
    then escape r
    else r ∷ []

unfoldable pub sanitize_runes : List ℕ → List ℕ
sanitize_runes [] = []
sanitize_runes (r ∷ rs) = sanitize_rune r ++ sanitize_runes rs

unfoldable pub encode_runes : List ℕ → Text
encode_runes [] = []
encode_runes (r ∷ rs) = encode_rune r ++ encode_runes rs

unfoldable pub sanitize : Text → Text
sanitize s = encode_runes (sanitize_runes (runes (crlf_to_lf s)))

-- The time and the address are printed by the arguments.
unfoldable pub format_message : Text → Text → Text → Text → Text
format_message time from addr text =
    let who = if has_id from then sanitize from ++ codes " (" ++ addr ++ codes ")" else addr in
    let body = sanitize text in
    let ended = if has_suffix body (codes "\n") then body else body ++ codes "\n" in
    codes "--- " ++ time ++ codes " from " ++ who ++ codes " ---\n" ++ ended ++ codes "\n"
