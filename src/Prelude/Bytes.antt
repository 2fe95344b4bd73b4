-- ===== src/Prelude/Bytes.antt =====
-- Decimal printing of u64 and the UTF-8 bytes of a text, as Rust's `to_string` and `as_bytes`.
use Prim.Native.Nat.{ℕ, zero, suc, ◌+◌, ◌/◌, ◌%◌, ◌^◌}
use Prim.Native.Char.{code}
use Prim.Native.String.{String, ◌++◌}
use mathlib.Core.Path.{◌≡◌, refl}
use mathlib.Core.Bool.{true, false}
use mathlib.Core.List
use mathlib.Core.List.{List, [], ◌∷◌}
use codex_app.Prelude.Tests.{ltb, if◌then◌else◌, nat_eq}

abbrev digit : ℕ → String
digit n =
    if nat_eq n 0
    then "0"
    else if nat_eq n 1
    then "1"
    else if nat_eq n 2
    then "2"
    else if nat_eq n 3
    then "3"
    else if nat_eq n 4
    then "4"
    else if nat_eq n 5
    then "5"
    else if nat_eq n 6
    then "6"
    else if nat_eq n 7
    then "7"
    else if nat_eq n 8
    then "8"
    else "9"

-- A u64 has at most twenty decimal digits.
decimal_digits : ℕ → ℕ → String
decimal_digits zero n = digit (n % 10)
decimal_digits (suc fuel) n = elim (ltb n 10) [
  | true ↦ digit n
  | false ↦ decimal_digits fuel (n / 10) ++ digit (n % 10)
]

unfoldable pub to_string : ℕ → String
unfolding decimal_digits
to_string n = decimal_digits 20 n

unfoldable pub utf8_char : ℕ → List ℕ
utf8_char c =
    if ltb c 0x80
    then c ∷ []
    else if ltb c 0x800
    then (0xc0 + c / 64) ∷ (0x80 + c % 64) ∷ []
    else if ltb c 0x10000
    then (0xe0 + c / 4096) ∷ (0x80 + c / 64 % 64) ∷ (0x80 + c % 64) ∷ []
    else (0xf0 + c / 262144) ∷ (0x80 + c / 4096 % 64) ∷ (0x80 + c / 64 % 64) ∷ (0x80 + c % 64) ∷ []

unfoldable pub as_bytes : String → List ℕ
unfolding utf8_char
as_bytes String.[] = []
as_bytes (String.◌∷◌ c s) = List.◌++◌ (utf8_char (code c)) (as_bytes s)

-- `(n as u64).to_be_bytes()`, for a number of bytes.
unfoldable pub to_be_bytes : ℕ → ℕ → List ℕ
to_be_bytes zero n = []
to_be_bytes (suc k) n = (n / 256 ^ k % 256) ∷ to_be_bytes k n

printed : to_string 1725000000100 ≡ "1725000000100"
unfolding to_string
printed = refl

euro : as_bytes "€" ≡ 0xe2 ∷ 0x82 ∷ 0xac ∷ []
unfolding as_bytes
euro = refl
