-- ===== src/Normalizer/Fields.antt =====
-- Fields of the server's values: times, identifiers and lists of texts.
use Prim.Native.String.{◌++◌}
use codex_app.Json.{
  Value, get, as_array, as_str, as_u64, string_field, string_at, first_some, and_then, or_else,
  filter_map,
}
use codex_app.Prelude.{
  ℕ, String, Bool, Option, none, some, List, [], ◌∷◌, ◌==◌, ltb, any_by, map_option, unwrap_or,
  saturating_mul, u64_max, to_ascii_lowercase, if◌then◌else◌,
}

-- `matches!` of a text
abbrev pub one_of : List String → String → Bool
one_of names s = any_by (λ name. s == name) names

unfoldable pub eq_ignore_ascii_case : String → String → Bool
unfolding to_ascii_lowercase
eq_ignore_ascii_case s t = to_ascii_lowercase s == to_ascii_lowercase t

-- Seconds are taken for milliseconds from this time on.
unfoldable pub normalize_timestamp_ms : ℕ → ℕ
normalize_timestamp_ms value =
    if ltb value 100_000_000_000 then saturating_mul u64_max value 1_000 else value

unfoldable pub timestamp_field : Value → List String → Option ℕ
unfolding normalize_timestamp_ms
timestamp_field v keys =
    map_option normalize_timestamp_ms (first_some keys (λ key. and_then (get key v) as_u64))

abbrev pub array_strings : Value → List String → Option (List String)
array_strings v keys =
    first_some keys (λ key. map_option (filter_map as_str) (and_then (get key v) as_array))

abbrev pub thread_id_from_value : Value → Option String
thread_id_from_value v = or_else (string_field v ("threadId" ∷ "thread_id" ∷ [])) (
    or_else (string_at v ("thread" ∷ "id" ∷ [])) (
      or_else (string_at v ("turn" ∷ "threadId" ∷ [])) (
        or_else (string_at v ("turn" ∷ "thread_id" ∷ [])) (
          or_else (string_at v ("item" ∷ "threadId" ∷ []))
            (string_at v ("item" ∷ "thread_id" ∷ []))))))

abbrev pub turn_id_from_value : Value → Option String
turn_id_from_value v =
    or_else (string_field v ("turnId" ∷ "turn_id" ∷ [])) (string_at v ("turn" ∷ "id" ∷ []))

abbrev item_id_from_value : Value → Option String
item_id_from_value v =
    or_else (string_field v ("itemId" ∷ "item_id" ∷ [])) (string_at v ("item" ∷ "id" ∷ []))

unfoldable pub event_id : String → Value → String → String
event_id thread_id v suffix = elim (string_field v ("eventId" ∷ "event_id" ∷ "id" ∷ [])) [
  | some id ↦ id
  | none ↦
      thread_id
      ++ ":"
      ++ unwrap_or (turn_id_from_value v) "turn"
      ++ ":"
      ++ unwrap_or (item_id_from_value v) "item"
      ++ ":"
      ++ suffix
]

-- The identifier of an item of a turn, where both are told.
abbrev pub turn_item_id : Option String → Option String → String → String
turn_item_id (some turn_id) (some item_id) other = turn_id ++ ":" ++ item_id
turn_item_id _ _ other = other

unfoldable pub item_event_id : String → Value → String → String
unfolding event_id
item_event_id thread_id v suffix =
    turn_item_id (turn_id_from_value v) (item_id_from_value v) (event_id thread_id v suffix)
