-- ===== src/Prelude/Texts.antt =====
-- Texts as Rust's `str` and `Path` treat them: characters are code points, and a path is the text of
-- a Unix path.
use Prim.Native.Nat.{ℕ, zero, suc, ◌-◌, ◌≤◌}
use Prim.Native.Char.{Char, code}
use Prim.Native.String.{String, ◌++◌, len, count, slice, char_at}
use mathlib.Core.Path.{◌≡◌, refl}
use mathlib.Core.Bool.{Bool, true, false, ◌&&◌, ◌||◌}
use mathlib.Core.Option.{Option, none, some}
use mathlib.Core.List.{List, [], ◌∷◌}
use native.Mathlib.Omega.{arith}
use text.Mathlib.Text.{◌==◌, find?, starts_with}
use text.Mathlib.TextLemmas.{length-cons}
use codex_app.Prelude.Tests.{leb, nat_eq, if◌then◌else◌, is_some}

abbrev pub between : ℕ → ℕ → ℕ → Bool
between low high n = leb low n && leb n high

-- Unicode's White_Space.
abbrev pub is_whitespace : Char → Bool
is_whitespace c =
    let n = code c in
    between 9 13 n
    || nat_eq n 0x20
    || nat_eq n 0x85
    || nat_eq n 0xa0
    || nat_eq n 0x1680
    || between 0x2000 0x200a n
    || nat_eq n 0x2028
    || nat_eq n 0x2029
    || nat_eq n 0x202f
    || nat_eq n 0x205f
    || nat_eq n 0x3000

abbrev pub is_ascii_digit : Char → Bool
is_ascii_digit c = between b'0' b'9' (code c)

abbrev pub is_ascii_alphanumeric : Char → Bool
is_ascii_alphanumeric c =
    between b'0' b'9' (code c) || between b'a' b'z' (code c) || between b'A' b'Z' (code c)

-- Whether a character is one of a text's.
abbrev pub is_one_of : String → Char → Bool
is_one_of String.[] c = false
is_one_of (String.◌∷◌ d s) c = nat_eq (code c) (code d) || is_one_of s c

-- `Char::to_ascii_lowercase` and its inverse.
abbrev pub lower_char : Char → Char
lower_char c =
    if between b'A' b'Z' (code c) then char_at "abcdefghijklmnopqrstuvwxyz" (code c - b'A') else c

abbrev pub upper_char : Char → Char
upper_char c =
    if between b'a' b'z' (code c) then char_at "ABCDEFGHIJKLMNOPQRSTUVWXYZ" (code c - b'a') else c

unfoldable pub to_ascii_lowercase : String → String
to_ascii_lowercase String.[] = ""
to_ascii_lowercase (String.◌∷◌ c s) = String.◌∷◌ (lower_char c) (to_ascii_lowercase s)

abbrev pub is_empty_text : String → Bool
is_empty_text String.[] = true
is_empty_text (String.◌∷◌ c s) = false

-- `trim().is_empty()`
unfoldable pub is_blank : String → Bool
is_blank String.[] = true
is_blank (String.◌∷◌ c s) = is_whitespace c && is_blank s

-- `contains` of a text
abbrev pub includes : String → String → Bool
includes s t = is_some (find? s t)

-- As many bytes at the end of `s` as `t` has are `t`.
abbrev pub ends_with : String → String → Bool
ends_with s t = leb (len t) (len s) && slice s (len s - len t) (len s) == t

abbrev head_part : Char → List String → List String
head_part c [] = String.◌∷◌ c "" ∷ []
head_part c (part ∷ parts) = String.◌∷◌ c part ∷ parts

-- `split` by a test on characters; there is always a part.
unfoldable pub split_by : (Char → Bool) → String → List String
split_by p String.[] = "" ∷ []
split_by p (String.◌∷◌ c s) = let rest = split_by p s in if p c then "" ∷ rest else head_part c rest

abbrev keep_full : String → List String → List String
keep_full part parts = if is_empty_text part then parts else part ∷ parts

abbrev pub without_empty : List String → List String
without_empty [] = []
without_empty (part ∷ parts) = keep_full part (without_empty parts)

unfoldable pub split_whitespace : String → List String
unfolding split_by
split_whitespace s = without_empty (split_by is_whitespace s)

unfoldable pub join : String → List String → String
join separator [] = ""
join separator (part ∷ []) = part
join separator (part ∷ part' ∷ parts) = part ++ separator ++ join separator (part' ∷ parts)

-- `chars().take(n)`
unfoldable pub take_chars : ℕ → String → String
take_chars zero s = ""
take_chars (suc n) String.[] = ""
take_chars (suc n) (String.◌∷◌ c s) = String.◌∷◌ c (take_chars n s)

pub count-take_chars : (n : ℕ) (s : String) → count (take_chars n s) ≤ n
unfolding take_chars
count-take_chars zero s = omega arith
count-take_chars (suc n) String.[] = omega arith
count-take_chars (suc n) (String.◌∷◌ c s) =
    omega (arith, length-cons c (take_chars n s), count-take_chars n s)

abbrev pub trim_end_part : (Char → Bool) → Char → String → String
trim_end_part p c rest = if is_empty_text rest && p c then "" else String.◌∷◌ c rest

unfoldable pub trim_end_by : (Char → Bool) → String → String
trim_end_by p String.[] = ""
trim_end_by p (String.◌∷◌ c s) = trim_end_part p c (trim_end_by p s)

unfoldable pub trim_start_by : (Char → Bool) → String → String
trim_start_by p String.[] = ""
trim_start_by p (String.◌∷◌ c s) =
    let rest = trim_start_by p s in if p c then rest else String.◌∷◌ c s

unfoldable pub trim_by : (Char → Bool) → String → String
unfolding trim_end_by trim_start_by
trim_by p s = trim_end_by p (trim_start_by p s)

-- `replace` of a text that is not empty, from left to right; each round uses up a character.
replace_from : ℕ → String → String → String → String
replace_from zero from to s = s
replace_from (suc fuel) from to String.[] = ""
replace_from (suc fuel) from to (String.◌∷◌ c s) = elim (starts_with (String.◌∷◌ c s) from) [
  | true ↦
      to ++ replace_from fuel from to (slice (String.◌∷◌ c s) (len from) (len (String.◌∷◌ c s)))
  | false ↦ String.◌∷◌ c (replace_from fuel from to s)
]

unfoldable pub replace : String → String → String → String
unfolding replace_from
replace s from to = replace_from (count s) from to s

-- `replace` of the characters that pass a test.
unfoldable pub replace_chars : (Char → Bool) → Char → String → String
replace_chars p to String.[] = ""
replace_chars p to (String.◌∷◌ c s) = String.◌∷◌ (if p c then to else c) (replace_chars p to s)

-- `Path::is_absolute`
abbrev pub is_absolute : String → Bool
is_absolute path = starts_with path "/"

abbrev pub last_of : List String → Option String
last_of [] = none
last_of (part ∷ parts) = elim (last_of parts) [ none ↦ some part | some last ↦ some last ]

-- `Path::components`, without the root.
abbrev pub components : List String → List String
components [] = []
components (part ∷ parts) =
    let rest = components parts in if is_empty_text part || part == "." then rest else part ∷ rest

-- `Path::file_name`: the last component, unless it is "..".
unfoldable pub file_name : String → Option String
unfolding split_by
file_name path = elim (last_of (components (split_by (λ c. nat_eq (code c) b'/') path))) [
  | none ↦ none
  | some last ↦ if last == ".." then none else some last
]

lowered : to_ascii_lowercase "WaitingOnApproval-Ä1" ≡ "waitingonapproval-Ä1"
unfolding to_ascii_lowercase
lowered = refl

words : split_whitespace "  a\tb  c " ≡ "a" ∷ "b" ∷ "c" ∷ []
unfolding split_whitespace
words = refl

joined : join ", " ("a" ∷ "b" ∷ []) ≡ "a, b"
unfolding join
joined = refl

replaced_text : replace "aXXbXX" "XX" "y" ≡ "ayby"
unfolding replace
replaced_text = refl

names : file_name "/var/tmp/./a.png/" ≡ some "a.png"
unfolding file_name
names = refl

no_name : file_name "/" ≡ none
unfolding file_name
no_name = refl

trimmed : trim_by is_whitespace "  x y " ≡ "x y"
unfolding trim_by
trimmed = refl
