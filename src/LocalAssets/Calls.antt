-- ===== src/LocalAssets/Calls.antt =====
-- Sequences of calls of the registry.
use codex_app.Prelude.{ℕ, String, ◌≡◌, refl, arith, List, [], ◌∷◌}
use codex_app.LocalAssets.{
  LocalAssetRegistry, LocalAssetRegistryConfig, with_config, register_image, path_for, entry_for,
  is_expired, now,
}
use codex_app.LocalAssets.Consistency.{Consistent, path_for-Consistent}
use codex_app.LocalAssets.Registration.{register_image-Consistent}
use codex_app.LocalAssets.Capacity.{path_for-Bounded, register_image-Bounded}
use codex_app.LocalAssets.Eviction.{Bounded}
use codex_app.LocalAssets.Lookup.{live_path, path_for-lookup}

pub data AssetCall : Type 0 where
  register : String → AssetCall
  fetch : String → AssetCall

module _ (clock : ℕ → ℕ) (new_v4 : ℕ → String) where
  abbrev pub call : AssetCall → LocalAssetRegistry → LocalAssetRegistry
  call (register path) r = (register_image clock new_v4 path r).1
  call (fetch token) r = (path_for clock new_v4 token r).1

  abbrev pub run_calls : List AssetCall → LocalAssetRegistry → LocalAssetRegistry
  run_calls [] r = r
  run_calls (c ∷ calls) r = run_calls calls (call c r)

  run_from-Bounded :
      (calls : List AssetCall) (r : LocalAssetRegistry) → Bounded r → Bounded (run_calls calls r)
  run_from-Bounded [] r h = h
  run_from-Bounded (register path ∷ calls) r h =
      run_from-Bounded calls (call (register path) r) (register_image-Bounded clock new_v4 path r h)
  run_from-Bounded (fetch token ∷ calls) r h =
      run_from-Bounded calls (call (fetch token) r) (path_for-Bounded clock new_v4 token r h)

  -- A registry that starts empty never holds more entries than its configuration allows, whatever
  -- registrations and fetches are made, at whatever times the clock shows.
  pub run_calls-Bounded :
      (config : LocalAssetRegistryConfig) (calls : List AssetCall)
      → Bounded (run_calls calls (with_config config))
  run_calls-Bounded config calls = run_from-Bounded calls (with_config config) (omega arith)

  module _ (injective : (i j : ℕ) → new_v4 i ≡ new_v4 j → i ≡ j) where
    run_from-Consistent :
        (calls : List AssetCall) (r : LocalAssetRegistry)
        → Consistent new_v4 r
        → Consistent new_v4 (run_calls calls r)
    run_from-Consistent [] r c = c
    run_from-Consistent (register path ∷ calls) r c =
        run_from-Consistent calls (call (register path) r)
          (register_image-Consistent clock new_v4 injective path r c)
    run_from-Consistent (fetch token ∷ calls) r c =
        run_from-Consistent calls (call (fetch token) r)
          (path_for-Consistent new_v4 clock token r c)

    -- Where the generator of UUIDs never repeats one: in a registry that starts empty, whatever
    -- registrations and fetches are made, the map by path holds exactly the path and the token of
    -- each entry of the map by token, no two entries have one token or one path, and each token is
    -- one that the generator gave.
    pub run_calls-Consistent :
        (config : LocalAssetRegistryConfig) (calls : List AssetCall)
        → Consistent new_v4 (run_calls calls (with_config config))
    run_calls-Consistent config calls =
        run_from-Consistent calls (with_config config)
          record { pairs = refl; tokens = tt; paths = tt; issued = tt }

    -- Where the generator of UUIDs never repeats one, and after any calls: a fetch answers the path of
    -- the entry that the map by token holds for its token, if that entry is not older than its time to
    -- live, and answers nothing for an older entry or a token with no entry.
    pub path_for_reached :
        (config : LocalAssetRegistryConfig) (calls : List AssetCall) (token : String)
        → let r = run_calls calls (with_config config) in
          (path_for clock new_v4 token r).0
          ≡ live_path (is_expired r (now clock new_v4 r)) (entry_for token r)
    path_for_reached config calls token =
        path_for-lookup clock new_v4 token (run_calls calls (with_config config))
          ((run_calls-Consistent config calls).tokens)
