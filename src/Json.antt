-- ===== src/Json.antt =====
-- JSON values as crates/bridge-core/src reads them, by the methods of `serde_json::Value` that the
-- source calls. Parsing and printing are the crate's own, and parameters where they are used.
use Prim.Native.String.{compare as compare_text}
use Prim.Native.Nat.{Ordering}
use codex_app.Prelude.{ℕ, String, Bool, Option, none, some, List, [], ◌∷◌, ◌==◌, if◌then◌else◌}

-- A number is an unsigned 64-bit one, or another, carried as its text. The fields of an object stand
-- in the order of its map.
mutual
  pub data Value : Type 0 where
    null : Value
    boolean : Bool → Value
    unsigned : ℕ → Value
    other_number : String → Value
    string : String → Value
    array : Items → Value
    object : Fields → Value

  pub data Items : Type 0 where
    nil : Items
    cons : Value → Items → Items

  pub data Fields : Type 0 where
    end : Fields
    field : String → Value → Fields → Fields

abbrev pub elements : Items → List Value
elements nil = []
elements (cons v items) = v ∷ elements items

abbrev pub to_items : List Value → Items
to_items [] = nil
to_items (v ∷ values) = cons v (to_items values)

abbrev pub field_values : Fields → List Value
field_values end = []
field_values (field key v fields) = v ∷ field_values fields

abbrev pub entries : Fields → List (String × Value)
entries end = []
entries (field key v fields) = (key, v) ∷ entries fields

abbrev pub get_field : String → Fields → Option Value
get_field key end = none
get_field key (field k v fields) = if k == key then some v else get_field key fields

-- `get` by a key
abbrev pub get : String → Value → Option Value
get key (object fields) = get_field key fields
get key _ = none

-- `pointer`, by the names between its slashes; none of them is a number.
abbrev pub pointer : List String → Value → Option Value
pointer [] v = some v
pointer (key ∷ keys) v = elim (get key v) [ none ↦ none | some child ↦ pointer keys child ]

abbrev pub as_str : Value → Option String
as_str (string s) = some s
as_str _ = none

abbrev pub as_u64 : Value → Option ℕ
as_u64 (unsigned n) = some n
as_u64 _ = none

abbrev pub as_bool : Value → Option Bool
as_bool (boolean b) = some b
as_bool _ = none

abbrev pub as_array : Value → Option (List Value)
as_array (array items) = some (elements items)
as_array _ = none

abbrev pub as_object : Value → Option Fields
as_object (object fields) = some fields
as_object _ = none

-- `insert` into an object, whose keys are sorted.
abbrev pub insert : String → Value → Fields → Fields
insert key v end = field key v end
insert key v (field k w fields) =
    let rest = insert key v fields in
    elim (compare_text key k) [
      | Ordering.lt ↦ field key v (field k w fields)
      | Ordering.eq ↦ field k v fields
      | Ordering.gt ↦ field k w rest
    ]

abbrev pub from_pairs : List (String × Value) → Fields
from_pairs [] = end
from_pairs ((key, v) ∷ pairs) = insert key v (from_pairs pairs)

-- `json!({ … })`
abbrev pub json_object : List (String × Value) → Value
json_object pairs = object (from_pairs pairs)

abbrev pub from_option : Option String → Value
from_option none = null
from_option (some s) = string s

-- `find_map` over keys.
abbrev pub first_some {ℓ} : {A : Type ℓ} → List String → (String → Option A) → Option A
first_some [] f = none
first_some (key ∷ keys) f =
    let rest = first_some keys f in elim (f key) [ none ↦ rest | some a ↦ some a ]

abbrev pub and_then : {A B : Type 0} → Option A → (A → Option B) → Option B
and_then none f = none
and_then (some a) f = f a

-- `or_else`, and `or`
abbrev pub or_else : {A : Type 0} → Option A → Option A → Option A
or_else none o = o
or_else (some a) o = some a

abbrev pub filter_option : {A : Type 0} → (A → Bool) → Option A → Option A
filter_option p none = none
filter_option p (some a) = if p a then some a else none

abbrev pub filter_map : {A B : Type 0} → (A → Option B) → List A → List B
filter_map f [] = []
filter_map f (x ∷ xs) = elim (f x) [ none ↦ filter_map f xs | some y ↦ y ∷ filter_map f xs ]

-- The `string_field` and `number_field` of normalizer.rs and approval.rs: the first key that has one.
abbrev pub string_field : Value → List String → Option String
string_field v keys = first_some keys (λ key. and_then (get key v) as_str)

abbrev pub number_field : Value → List String → Option ℕ
number_field v keys = first_some keys (λ key. and_then (get key v) as_u64)

abbrev pub string_at : Value → List String → Option String
string_at v path = and_then (pointer path v) as_str
