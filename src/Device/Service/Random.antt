-- ===== src/Device/Service/Random.antt =====
-- The parts of Go's crypto/rand, io and encoding/base64 that internal/device/service.go uses to
-- make the parts of a token.
use agen_sense.Prelude.{
  ℕ, zero, suc, ◌+◌, ◌*◌, ◌/◌, ◌%◌, String, List, [], ◌∷◌, Result, ok, err, other, length, take,
  drop, leb, nat_beq, if◌then◌else◌, ◌==◌, string_eq, ◌≡◌, refl, ◌&&◌,
}
use Prim.Native.String.{◌++◌}
use Prim.Native.Char.{code}

-- io.ReadFull into a buffer of `size` bytes, from a source with these bytes left.
unfoldable pub read_full : ℕ → List ℕ → Result (List ℕ) × List ℕ
read_full size source =
    if leb size (length source)
    then (ok (take size source), drop size source)
    else if nat_beq (length source) 0
    then (err (other "EOF"), [])
    else (err (other "unexpected EOF"), [])

abbrev url_alphabet : String
url_alphabet = "ABCDEFGHIJKLMNOPQRSTUVWXYZabcdefghijklmnopqrstuvwxyz0123456789-_"

symbol_at : String → ℕ → String
symbol_at String.[] n = ""
symbol_at (String.◌∷◌ c s) zero = String.◌∷◌ c ""
symbol_at (String.◌∷◌ c s) (suc n) = symbol_at s n

symbol : ℕ → String
unfolding symbol_at
symbol = symbol_at url_alphabet

-- base64.RawURLEncoding.EncodeToString
unfoldable pub encode_raw_url : List ℕ → String
unfolding symbol
encode_raw_url [] = ""
encode_raw_url (a ∷ []) = symbol (a / 4) ++ symbol (a % 4 * 16)
encode_raw_url (a ∷ b ∷ []) =
    symbol (a / 4) ++ (symbol (a % 4 * 16 + b / 16) ++ symbol (b % 16 * 4))
encode_raw_url (a ∷ b ∷ c ∷ rest) =
    symbol (a / 4)
    ++ (symbol (a % 4 * 16 + b / 16)
        ++ (symbol (b % 16 * 4 + c / 64) ++ (symbol (c % 64) ++ encode_raw_url rest)))

-- strings.TrimRight(s, "=")
unfoldable pub trim_equals : String → String
trim_equals String.[] = ""
trim_equals (String.◌∷◌ c s) =
    let rest = trim_equals s in
    if nat_beq (code c) b'=' && rest == "" then "" else String.◌∷◌ c rest

encode_hello : encode_raw_url (104 ∷ 101 ∷ 108 ∷ 108 ∷ 111 ∷ []) ≡ "aGVsbG8"
unfolding encode_raw_url
encode_hello = refl
