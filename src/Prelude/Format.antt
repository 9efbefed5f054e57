-- ===== src/Prelude/Format.antt =====
-- Texts as the bytes that Go's strings hold, and the printing of numbers by Go's package fmt.
use Prim.Native.Nat.{ℕ, zero, suc, ◌+◌, ◌-◌, ◌/◌, ◌%◌}
use Prim.Native.Char.{code}
use Prim.Native.String.{String, ◌++◌, len}
use mathlib.Core.Path.{◌≡◌, refl}
use mathlib.Core.List.{List, [], ◌∷◌}
use mathlib.Core.List.{◌++◌ as append}
use agen_sense.Prelude.Tests.{ltb, if◌then◌else◌}
use agen_sense.Prelude.Int.{ℤ, pos, negsuc}

abbrev utf8_char : ℕ → List ℕ
utf8_char c =
    if ltb c 0x80
    then c ∷ []
    else if ltb c 0x800
    then (0xc0 + c / 64) ∷ (0x80 + c % 64) ∷ []
    else if ltb c 0x10000
    then (0xe0 + c / 4096) ∷ (0x80 + c / 64 % 64) ∷ (0x80 + c % 64) ∷ []
    else (0xf0 + c / 262144) ∷ (0x80 + c / 4096 % 64) ∷ (0x80 + c / 64 % 64) ∷ (0x80 + c % 64) ∷ []

unfoldable pub utf8 : String → List ℕ
utf8 String.[] = []
utf8 (String.◌∷◌ c s) = append (utf8_char (code c)) (utf8 s)

digit_in : String → ℕ → String
digit_in String.[] n = ""
digit_in (String.◌∷◌ c s) zero = String.◌∷◌ c ""
digit_in (String.◌∷◌ c s) (suc n) = digit_in s n

-- The digits of a number, with fuel for one round more than it has digits.
digits : ℕ → ℕ → String
unfolding digit_in
digits zero n = ""
digits (suc fuel) n =
    let rest = digits fuel (n / 10) in
    if ltb n 10 then digit_in "0123456789" n else rest ++ digit_in "0123456789" (n % 10)

-- `%d`
unfoldable pub print_nat : ℕ → String
unfolding digits
print_nat n = digits (suc n) n

unfoldable pub print_int : ℤ → String
unfolding print_nat
print_int (pos n) = print_nat n
print_int (negsuc n) = "-" ++ print_nat (suc n)

zeros : ℕ → String
zeros zero = ""
zeros (suc n) = "0" ++ zeros n

-- `%06d`
unfoldable pub print_padded : ℕ → String
unfolding print_nat zeros
print_padded n = zeros (6 - len (print_nat n)) ++ print_nat n

-- `%03d`
unfoldable pub print_padded3 : ℕ → String
unfolding print_nat zeros
print_padded3 n = zeros (3 - len (print_nat n)) ++ print_nat n

print_some : print_padded 407 ≡ "000407"
unfolding print_padded
print_some = refl

utf8_dot : utf8 "a·" ≡ 0x61 ∷ 0xc2 ∷ 0xb7 ∷ []
unfolding utf8
utf8_dot = refl
