-- ===== src/LocalAssets.antt =====
-- crates/bridge-core/src/local_assets.rs: tokens for the images that clients may fetch.
-- A path is carried as a text in which paths that compare equal are equal. The clock and the
-- generator of UUIDs are given by the number of times they have been asked. The two maps are lists
-- of entries, in the order in which they are iterated.
pub mod Pairs
pub mod Consistency
pub mod Registration
pub mod Eviction
pub mod Capacity
pub mod Lookup
pub mod Calls
use codex_app.Prelude.{
  ℕ, zero, suc, String, ◌+◌, ◌-◌, Bool, true, false, Option, none, some, List, [], ◌∷◌, ◌==◌,
  length, filter_by, find_by, update_where, delete_where, upsert, map, ltb, leb, saturating_add,
  u64_max, map_option, if◌then◌else◌,
}

pub record LocalAssetRegistryConfig : Type 0 where
  pub max_entries : ℕ
  pub ttl_ms : ℕ

abbrev pub default_config : LocalAssetRegistryConfig
default_config = record { max_entries = 256; ttl_ms = 1_800_000 }

-- An entry of the map by path.
pub record PathToken : Type 0 where
  pub path : String
  pub token : String

-- An entry of the map by token, with its key.
pub record LocalAssetEntry : Type 0 where
  pub token : String
  pub path : String
  pub created_at : ℕ
  pub last_accessed_at : ℕ
  pub last_access_sequence : ℕ

pub record LocalAssetRegistry : Type 0 where
  pub by_path : List PathToken
  pub by_token : List LocalAssetEntry
  pub config : LocalAssetRegistryConfig
  pub access_sequence : ℕ
  pub clock_reads : ℕ
  pub uuids : ℕ

abbrev pub with_config : LocalAssetRegistryConfig → LocalAssetRegistry
with_config config = record {
  by_path = [];
  by_token = [];
  config = config;
  access_sequence = 0;
  clock_reads = 0;
  uuids = 0;
}

abbrev pub has_token : String → LocalAssetEntry → Bool
has_token token e = e.token == token

abbrev pub has_path : String → PathToken → Bool
has_path path p = p.path == path

abbrev pub entry_for : String → LocalAssetRegistry → Option LocalAssetEntry
entry_for token r = find_by (has_token token) r.by_token

-- `removed`: what `by_token.remove` answered.
abbrev pub remove_entry : Option LocalAssetEntry → LocalAssetRegistry → LocalAssetRegistry
remove_entry none r = r
remove_entry (some e) r = record r {
  by_token = delete_where (has_token e.token) r.by_token;
  by_path = delete_where (has_path e.path) r.by_path;
}

unfoldable pub remove_token : String → LocalAssetRegistry → LocalAssetRegistry
remove_token token r = remove_entry (entry_for token r) r

unfoldable pub remove_tokens : List String → LocalAssetRegistry → LocalAssetRegistry
unfolding remove_token
remove_tokens [] r = r
remove_tokens (token ∷ tokens) r = remove_tokens tokens (remove_token token r)

abbrev pub is_expired : LocalAssetRegistry → ℕ → LocalAssetEntry → Bool
is_expired r now e = ltb r.config.ttl_ms (now - e.created_at)

unfoldable pub prune_expired : ℕ → LocalAssetRegistry → LocalAssetRegistry
unfolding remove_tokens
prune_expired now r = remove_tokens (map (λ e. e.token) (filter_by (is_expired r now) r.by_token)) r

abbrev pub next_access_sequence : LocalAssetRegistry → ℕ
next_access_sequence r = saturating_add u64_max r.access_sequence 1

abbrev pub touched : ℕ → ℕ → LocalAssetEntry → LocalAssetEntry
touched now sequence e = record e { last_accessed_at = now; last_access_sequence = sequence }

abbrev pub touch_entry : Option LocalAssetEntry → ℕ → LocalAssetRegistry → Bool × LocalAssetRegistry
touch_entry none now r = (false, r)
touch_entry (some e) now r = if is_expired r now e then (false, r) else (
  true,
  record r {
    access_sequence = next_access_sequence r;
    by_token = update_where (has_token e.token) (touched now (next_access_sequence r)) r.by_token;
  },
)

unfoldable pub touch_existing : String → ℕ → LocalAssetRegistry → Bool × LocalAssetRegistry
touch_existing token now r = touch_entry (entry_for token r) now r

abbrev pub less_recent : LocalAssetEntry → Option LocalAssetEntry → Option LocalAssetEntry
less_recent e none = some e
less_recent e (some f) =
    if leb e.last_access_sequence f.last_access_sequence then some e else some f

-- The first entry with the least access sequence.
abbrev pub least_recent : List LocalAssetEntry → Option LocalAssetEntry
least_recent [] = none
least_recent (e ∷ entries) = less_recent e (least_recent entries)

-- The loop of `enforce_capacity`, on fuel.
unfoldable pub enforce_loop : ℕ → LocalAssetRegistry → LocalAssetRegistry
unfolding remove_token
enforce_loop zero r = r
enforce_loop (suc fuel) r = elim (ltb r.config.max_entries (length r.by_token)) [
  | true ↦ elim (least_recent r.by_token) [
    | none ↦ r
    | some e ↦ enforce_loop fuel (remove_token e.token r)
  ]
  | false ↦ r
]

-- One round for each entry is enough.
unfoldable pub enforce_capacity : LocalAssetRegistry → LocalAssetRegistry
unfolding enforce_loop
enforce_capacity r = enforce_loop (length r.by_token) r

module _ (clock : ℕ → ℕ) (new_v4 : ℕ → String) where
  abbrev pub now : LocalAssetRegistry → ℕ
  now r = clock r.clock_reads

  abbrev pub tick : LocalAssetRegistry → LocalAssetRegistry
  tick r = record r { clock_reads = r.clock_reads + 1 }

  -- The entry of a new token in both maps.
  abbrev pub add_entry : String → ℕ → LocalAssetRegistry → LocalAssetRegistry
  add_entry path at r =
      let token = new_v4 r.uuids in
      let entry : PathToken = record { path = path; token = token } in
      let asset : LocalAssetEntry = record {
        token = token;
        path = path;
        created_at = at;
        last_accessed_at = at;
        last_access_sequence = next_access_sequence r;
      } in
      record r {
        by_path = upsert (has_path path) (λ _. entry) entry r.by_path;
        by_token = upsert (has_token token) (λ _. asset) asset r.by_token;
        access_sequence = next_access_sequence r;
        uuids = r.uuids + 1;
      }

  -- The end of `register_image`: a new token for the path.
  unfoldable pub register_new : String → ℕ → LocalAssetRegistry → String × LocalAssetRegistry
  unfolding enforce_capacity
  register_new path at r = (new_v4 r.uuids, enforce_capacity (add_entry path at r))

  -- The path is known by a token: what a touch of it answered.
  abbrev pub register_known :
      String → String → ℕ → Bool × LocalAssetRegistry → String × LocalAssetRegistry
  unfolding register_new remove_token
  register_known path token at (true, r) = (token, r)
  register_known path token at (false, r) = register_new path at (remove_token token r)

  abbrev pub register_found :
      String → ℕ → Option PathToken → LocalAssetRegistry → String × LocalAssetRegistry
  unfolding register_new register_known touch_existing
  register_found path at none r = register_new path at r
  register_found path at (some p) r = register_known path p.token at (touch_existing p.token at r)

  unfoldable pub register_image : String → LocalAssetRegistry → String × LocalAssetRegistry
  unfolding register_found prune_expired
  register_image path r =
      let pruned = prune_expired (now r) (tick r) in
      register_found path (now r) (find_by (has_path path) pruned.by_path) pruned

  abbrev pub path_of : String → Bool × LocalAssetRegistry → Option String × LocalAssetRegistry
  path_of token (false, r) = (none, r)
  path_of token (true, r) = (map_option (λ e. e.path) (entry_for token r), r)

  unfoldable pub path_for : String → LocalAssetRegistry → Option String × LocalAssetRegistry
  unfolding touch_existing prune_expired
  path_for token r = path_of token (touch_existing token (now r) (prune_expired (now r) (tick r)))
