-- ===== src/Normalizer/Text.antt =====
-- The text of an item, wherever its value holds one.
use codex_app.Json.{
  Value, null, boolean, unsigned, other_number, string, array, object, elements, get, first_some,
  and_then, or_else, filter_option, filter_map, string_field, string_at,
}
use codex_app.Protocol.{SessionEventType}
use codex_app.Prelude.{
  ℕ, zero, suc, String, Option, none, some, List, [], ◌∷◌, not, is_empty_text, is_blank, join,
  if◌then◌else◌,
}

abbrev pub text_keys : List String
text_keys =
    "text" ∷ "output_text" ∷ "input_text" ∷ "markdown" ∷ "value" ∷ "delta" ∷ "content" ∷ "message"
    ∷ "output" ∷ "input" ∷ "parts" ∷ "payload" ∷ "item" ∷ "data" ∷ []

abbrev pub some_text : String → Option String
some_text text = if is_empty_text text then none else some text

-- `text_from_value_with_depth`, by the levels that are left.
unfoldable pub text_within : ℕ → Value → Option String
unfolding join
text_within zero v = none
text_within (suc levels) (string text) = some text
text_within (suc levels) (array items) =
    some_text (join "\n" (filter_map (text_within levels) (elements items)))
text_within (suc levels) (object fields) =
    first_some text_keys (λ key. and_then (get key (object fields)) (text_within levels))
text_within (suc levels) null = none
text_within (suc levels) (boolean b) = none
text_within (suc levels) (unsigned n) = none
text_within (suc levels) (other_number n) = none

unfoldable pub text_from_value : Value → Option String
unfolding text_within is_blank
text_from_value v = filter_option (λ text. not (is_blank text)) (text_within 7 v)

unfoldable pub reasoning_summary_text : Value → Option String
unfolding text_from_value
reasoning_summary_text item =
    first_some ("summary" ∷ "summaryText" ∷ "summary_text" ∷ [])
      (λ key. and_then (get key item) text_from_value)

unfoldable pub text_for_item : Value → SessionEventType → Option String
unfolding reasoning_summary_text text_from_value
text_for_item item SessionEventType.reasoning_summary = reasoning_summary_text item
text_for_item item _ = text_from_value item

abbrev pub delta_text_from_value : Value → Option String
delta_text_from_value v =
    or_else (string_field v ("delta" ∷ "text" ∷ "summaryText" ∷ "summary_text" ∷ []))
      (string_at v ("part" ∷ "text" ∷ []))

unfoldable pub summary_part_text : Value → Option String
unfolding text_from_value
summary_part_text v =
    or_else (and_then (or_else (get "part" v) (get "summaryPart" v)) text_from_value)
      (delta_text_from_value v)
