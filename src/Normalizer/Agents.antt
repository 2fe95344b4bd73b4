-- ===== src/Normalizer/Agents.antt =====
-- The names of subtasks and their agents.
use Prim.Native.Char.{Char, code}
use Prim.Native.String.{◌++◌}
use codex_app.Json.{Value, string_field, string_at, and_then, or_else, filter_option}
use codex_app.Prelude.{
  String, Bool, true, false, Option, none, some, List, [], ◌∷◌, ◌++◌ as append, ◌==◌, ◌≡◌, refl,
  not, filter_by, nat_eq, to_ascii_lowercase, upper_char, is_ascii_digit, is_ascii_alphanumeric,
  is_empty_text, is_blank, split_by, join, last_of, if◌then◌else◌,
}

abbrev capitalised : String → String
capitalised String.[] = ""
capitalised (String.◌∷◌ c s) = String.◌∷◌ (upper_char c) s

abbrev display_of : String → String
display_of lower =
    if lower == "api"
    then "API"
    else if lower == "mvp"
    then "MVP"
    else if lower == "pwa"
    then "PWA"
    else if lower == "qa"
    then "QA"
    else if lower == "tdd"
    then "TDD"
    else if lower == "ui"
    then "UI"
    else capitalised lower

abbrev push_agent_word : List String → String → List String
unfolding to_ascii_lowercase
push_agent_word words current =
    if is_empty_text current
    then words
    else append words (display_of (to_ascii_lowercase current) ∷ [])

-- The loop's state: the words so far, the current one, and whether its last character was a digit.
pub record AgentWords : Type 0 where
  pub words : List String
  pub current : String
  pub previous_was_digit : Option Bool

abbrev same_bool : Bool → Bool → Bool
same_bool true b = b
same_bool false b = not b

abbrev differs : Option Bool → Bool → Bool
differs none b = false
differs (some a) b = not (same_bool a b)

abbrev agent_character : Char → AgentWords → AgentWords
unfolding push_agent_word
agent_character c w =
    let pushed = push_agent_word w.words w.current in
    if not (is_ascii_alphanumeric c)
    then record { words = pushed; current = ""; previous_was_digit = none }
    else if differs w.previous_was_digit (is_ascii_digit c)
    then record {
      words = pushed;
      current = String.◌∷◌ c "";
      previous_was_digit = some (is_ascii_digit c);
    }
    else record w {
      current = w.current ++ String.◌∷◌ c "";
      previous_was_digit = some (is_ascii_digit c);
    }

abbrev agent_characters : String → AgentWords → AgentWords
unfolding agent_character
agent_characters String.[] w = w
agent_characters (String.◌∷◌ c s) w = agent_characters s (agent_character c w)

abbrev words_of_leaf : String → List String
unfolding agent_characters push_agent_word
words_of_leaf leaf =
    let w = agent_characters leaf record { words = []; current = ""; previous_was_digit = none } in
    push_agent_word w.words w.current

abbrev joined_words : List String → Option String
unfolding join
joined_words [] = none
joined_words (word ∷ words) = some (join " " (word ∷ words))

unfoldable pub agent_task_label : String → Option String
unfolding words_of_leaf joined_words split_by is_blank
agent_task_label path =
    and_then
      (last_of
        (filter_by (λ part. not (is_blank part)) (split_by (λ c. nat_eq (code c) b'/') path)))
      (λ leaf. joined_words (words_of_leaf leaf))

-- What the source of a spawned thread tells under a key, by its two spellings.
abbrev spawned_field : Value → String → String → Option String
spawned_field v camel snake =
    or_else (string_at v ("source" ∷ "subagent" ∷ "threadSpawn" ∷ camel ∷ [])) (
      or_else (string_at v ("source" ∷ "subagent" ∷ "thread_spawn" ∷ snake ∷ [])) (
        or_else (string_at v ("source" ∷ "subAgent" ∷ "threadSpawn" ∷ camel ∷ []))
          (string_at v ("source" ∷ "subAgent" ∷ "thread_spawn" ∷ snake ∷ []))))

abbrev agent_title : Option String → Option String → Option String
agent_title (some task_label) (some nickname) = some (task_label ++ " · " ++ nickname)
agent_title (some task_label) none = some task_label
agent_title none (some nickname) = some ("Subtask · " ++ nickname)
agent_title none none = none

unfoldable pub subagent_title : Value → Option String
unfolding agent_task_label is_blank
subagent_title v =
    let agent_path =
      or_else (string_field v ("agentPath" ∷ "agent_path" ∷ []))
        (spawned_field v "agentPath" "agent_path") in
    let agent_nickname =
      or_else (string_field v ("agentNickname" ∷ "agent_nickname" ∷ []))
        (spawned_field v "agentNickname" "agent_nickname") in
    agent_title (and_then agent_path agent_task_label)
      (filter_option (λ nickname. not (is_blank nickname)) agent_nickname)

label : agent_task_label "/root/api_task12/ " ≡ some "API Task 12"
unfolding agent_task_label
label = refl
