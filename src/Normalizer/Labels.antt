-- ===== src/Normalizer/Labels.antt =====
-- Short texts for clients, out of identifiers, paths and queries of the server.
use Prim.Native.Char.{Char, code}
use Prim.Native.Nat.{◌/◌, ◌%◌}
use Prim.Native.String.{◌++◌, count, char_at}
use text.Mathlib.Text.{starts_with}
use codex_app.Json.{filter_option}
use codex_app.Prelude.{
  is_one_of, ℕ, String, Bool, false, Option, none, some, [], ◌∷◌, ◌||◌, ◌&&◌, not, any_by, ltb,
  nat_eq, map_option, unwrap_or, to_string, to_ascii_lowercase, is_whitespace, is_empty_text,
  is_blank, split_by, without_empty, split_whitespace, join, take_chars, replace_chars, is_absolute,
  file_name, if◌then◌else◌,
}
use codex_app.Normalizer.Fields.{one_of}

abbrev space : Char
space = char_at " " 0

unfoldable pub squeeze : String → String
unfolding split_whitespace join
squeeze value = join " " (split_whitespace value)

unfoldable pub bounded_plain_text : String → ℕ → String
unfolding squeeze take_chars
bounded_plain_text value max_chars =
    let normalized = squeeze value in
    let bounded = take_chars max_chars normalized in
    if ltb max_chars (count normalized) then bounded ++ "…" else bounded

abbrev separates : Char → Bool
separates c = is_whitespace c || is_one_of "\"'`()[]{}<>,;=" c

-- `split_once(':')`, and a test of both parts.
abbrev pub split_once_at : (Char → Bool) → String → Option (String × String)
split_once_at p String.[] = none
split_once_at p (String.◌∷◌ c s) =
    let rest = map_option (λ (r : String × String). (String.◌∷◌ c r.0, r.1)) (split_once_at p s) in
    if p c then some ("", s) else rest

abbrev is_foreign : String × String → Bool
unfolding to_ascii_lowercase
is_foreign (scheme, path) =
    not (one_of ("http" ∷ "https" ∷ []) (to_ascii_lowercase scheme)) && is_absolute path

-- Bytes 1 and 2 are those of a drive's root.
abbrev has_drive : String → Bool
has_drive String.[] = false
has_drive (String.◌∷◌ c s) = ltb (code c) 128 && (starts_with s ":\\" || starts_with s ":/")

unfoldable pub is_path_like : String → Bool
unfolding is_foreign
is_path_like candidate =
    is_absolute candidate
    || has_drive candidate
    || starts_with candidate "\\\\"
    || unwrap_or (map_option is_foreign (split_once_at (λ c. nat_eq (code c) b':') candidate)) false

unfoldable pub contains_absolute_path : String → Bool
unfolding split_by is_path_like
contains_absolute_path value = any_by is_path_like (without_empty (split_by separates value))

unfoldable pub bounded_safe_detail : String → ℕ → Option String
unfolding squeeze contains_absolute_path bounded_plain_text
bounded_safe_detail value max_chars =
    let normalized = squeeze value in
    if is_empty_text normalized || contains_absolute_path normalized
    then none
    else some (bounded_plain_text normalized max_chars)

unfoldable pub humanize_identifier : String → Option String
unfolding bounded_safe_detail replace_chars
humanize_identifier value = bounded_safe_detail (replace_chars (is_one_of "_-") space value) 120

unfoldable pub safe_path_label : String → String
unfolding bounded_plain_text file_name
safe_path_label path =
    unwrap_or
      (map_option (λ name. bounded_plain_text name 120)
        (filter_option (λ name. not (is_blank name)) (file_name path)))
      "workspace"

-- `one_decimal`: a number of milliseconds in seconds, with one decimal.
unfoldable pub duration_label : (ℕ → String) → ℕ → String
unfolding to_string
duration_label one_decimal duration_ms =
    if ltb duration_ms 1_000
    then to_string duration_ms ++ " ms"
    else if nat_eq (duration_ms % 1_000) 0
    then to_string (duration_ms / 1_000) ++ " s"
    else one_decimal duration_ms ++ " s"
