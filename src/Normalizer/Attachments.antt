-- ===== src/Normalizer/Attachments.antt =====
-- The local images that an item holds, and their paths in its text.
use codex_app.Json.{
  Value, null, boolean, unsigned, other_number, string, array, object, elements, field_values, get,
  and_then, filter_option, json_object, as_str,
}
use codex_app.Normalizer.Fields.{eq_ignore_ascii_case}
use codex_app.Prelude.{
  ℕ, zero, suc, String, Bool, false, Option, none, some, List, [], ◌∷◌, ◌++◌, ◌||◌, not, map_option,
  unwrap_or, is_empty_text, includes, replace, file_name, if◌then◌else◌,
}

unfoldable pub file_name_from_path : String → String
unfolding file_name
file_name_from_path path =
    unwrap_or (filter_option (λ name. not (is_empty_text name)) (file_name path)) "image"

abbrev is_local_image : Value → Bool
unfolding eq_ignore_ascii_case
is_local_image v =
    unwrap_or
      (map_option (λ kind. eq_ignore_ascii_case kind "localimage") (and_then (get "type" v) as_str))
      false

abbrev image_attachment : Option String → List Value
unfolding file_name_from_path
image_attachment none = []
image_attachment (some path) =
    json_object (
      ("type", string "image")
      ∷ ("path", string path)
      ∷ ("name", string (file_name_from_path path))
      ∷ [])
    ∷ []

abbrev concat_map : (Value → List Value) → List Value → List Value
concat_map f [] = []
concat_map f (v ∷ values) = f v ++ concat_map f values

-- `collect_image_attachments`, by the levels that are left.
unfoldable pub images_within : ℕ → Value → List Value
unfolding is_local_image image_attachment
images_within zero v = []
images_within (suc levels) (array items) = concat_map (images_within levels) (elements items)
images_within (suc levels) (object fields) =
    let inner = concat_map (images_within levels) (field_values fields) in
    if is_local_image (object fields)
    then image_attachment (and_then (get "path" (object fields)) as_str)
    else inner
images_within (suc levels) null = []
images_within (suc levels) (boolean b) = []
images_within (suc levels) (unsigned n) = []
images_within (suc levels) (other_number n) = []
images_within (suc levels) (string s) = []

unfoldable pub image_attachments_from_value : Value → List Value
unfolding images_within
image_attachments_from_value v = images_within 7 v

abbrev scrub_path : Value → Option String → String → String
unfolding replace file_name_from_path
scrub_path attachment none scrubbed = scrubbed
scrub_path attachment (some path) scrubbed =
    if is_empty_text path || not (includes scrubbed path)
    then scrubbed
    else replace scrubbed path
        (unwrap_or (and_then (get "name" attachment) as_str) (file_name_from_path path))

unfoldable pub scrub_attachment_paths_from_text : String → List Value → String
unfolding scrub_path
scrub_attachment_paths_from_text text [] = text
scrub_attachment_paths_from_text text (attachment ∷ attachments) =
    scrub_attachment_paths_from_text
      (scrub_path attachment (and_then (get "path" attachment) as_str) text) attachments
