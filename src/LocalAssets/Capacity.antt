-- ===== src/LocalAssets/Capacity.antt =====
-- The capacity of the registry, whatever calls are made.
use codex_app.Prelude.{
  ℕ, String, Bool, true, false, Option, none, some, List, [], ◌∷◌, map, find_by, Bool-cases, inl,
  inr, filter_by, length-update_where,
}
use codex_app.LocalAssets.{
  LocalAssetEntry, LocalAssetRegistry, has_token, entry_for, remove_token, remove_tokens,
  prune_expired, is_expired, touch_entry, touch_existing, PathToken, has_path, touched,
  next_access_sequence, now, tick, path_of, path_for, register_new, register_known, register_found,
  register_image, add_entry,
}
use codex_app.LocalAssets.Eviction.{Bounded, remove_token-Bounded, enforce_capacity-Bounded}

remove_tokens-Bounded :
    (tokens : List String) (r : LocalAssetRegistry) → Bounded r → Bounded (remove_tokens tokens r)
unfolding remove_tokens
remove_tokens-Bounded [] r h = h
remove_tokens-Bounded (token ∷ tokens) r h =
    remove_tokens-Bounded tokens (remove_token token r) (remove_token-Bounded token r h)

pub prune_expired-Bounded :
    (at : ℕ) (r : LocalAssetRegistry) → Bounded r → Bounded (prune_expired at r)
unfolding prune_expired
prune_expired-Bounded at r h =
    remove_tokens-Bounded (map (λ e. e.token) (filter_by (is_expired r at) r.by_token)) r h

touch_entry-Bounded :
    (o : Option LocalAssetEntry) (at : ℕ) (r : LocalAssetRegistry)
    → Bounded r
    → Bounded ((touch_entry o at r).1)
touch_entry-Bounded none at r h = h
touch_entry-Bounded (some e) at r h = elim (Bool-cases (is_expired r at e)) [
  | inl m ↦ rw m h
  | inr m ↦
      rw
        (
          m,
          length-update_where (has_token e.token) (touched at (next_access_sequence r)) r.by_token,
        )
        h
]

pub touch_existing-Bounded :
    (token : String) (at : ℕ) (r : LocalAssetRegistry)
    → Bounded r
    → Bounded ((touch_existing token at r).1)
unfolding touch_existing
touch_existing-Bounded token at r h = touch_entry-Bounded (entry_for token r) at r h

module _ (clock : ℕ → ℕ) (new_v4 : ℕ → String) where
  path_of-Bounded :
      (token : String) (s : Bool × LocalAssetRegistry)
      → Bounded s.1
      → Bounded ((path_of clock new_v4 token s).1)
  path_of-Bounded token (true, r) h = h
  path_of-Bounded token (false, r) h = h

  pub path_for-Bounded :
      (token : String) (r : LocalAssetRegistry)
      → Bounded r
      → Bounded ((path_for clock new_v4 token r).1)
  unfolding path_for
  path_for-Bounded token r h =
      path_of-Bounded token (touch_existing token at pruned)
        (touch_existing-Bounded token at pruned (prune_expired-Bounded at (tick clock new_v4 r) h))
    where
      at : ℕ
      at = now clock new_v4 r

      pruned : LocalAssetRegistry
      pruned = prune_expired at (tick clock new_v4 r)

  register_new-Bounded :
      (path : String) (at : ℕ) (r : LocalAssetRegistry)
      → Bounded ((register_new clock new_v4 path at r).1)
  unfolding register_new
  register_new-Bounded path at r = enforce_capacity-Bounded (add_entry clock new_v4 path at r)

  register_known-Bounded :
      (path token : String) (at : ℕ) (s : Bool × LocalAssetRegistry)
      → Bounded s.1
      → Bounded ((register_known clock new_v4 path token at s).1)
  unfolding register_known
  register_known-Bounded path token at (true, r) h = h
  register_known-Bounded path token at (false, r) h =
      register_new-Bounded path at (remove_token token r)

  register_found-Bounded :
      (path : String) (at : ℕ) (o : Option PathToken) (r : LocalAssetRegistry)
      → Bounded r
      → Bounded ((register_found clock new_v4 path at o r).1)
  unfolding register_found
  register_found-Bounded path at none r h = register_new-Bounded path at r
  register_found-Bounded path at (some p) r h =
      register_known-Bounded path p.token at (touch_existing p.token at r)
        (touch_existing-Bounded p.token at r h)

  pub register_image-Bounded :
      (path : String) (r : LocalAssetRegistry)
      → Bounded r
      → Bounded ((register_image clock new_v4 path r).1)
  unfolding register_image
  register_image-Bounded path r h =
      register_found-Bounded path at (find_by (has_path path) pruned.by_path) pruned
        (prune_expired-Bounded at (tick clock new_v4 r) h)
    where
      at : ℕ
      at = now clock new_v4 r

      pruned : LocalAssetRegistry
      pruned = prune_expired at (tick clock new_v4 r)
