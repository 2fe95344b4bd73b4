-- ===== src/LocalAssets/Consistency.antt =====
-- The two maps of the registry stay in step.
use codex_app.Prelude.{
  ℕ, String, length, filter_by, is_some, any_by-find_by, ◌<◌, ◌≡◌, refl, sym, ap, ◌∙◌, Bool, true,
  false, Option, none, some, List, [], ◌∷◌, map, ◌==◌, find_by, any_by, delete_where, UniqueBy,
  UniqueBy-delete_where, UniqueBy-update_where, All, All-delete_where, All-update_where,
  map-update_where, any_by-delete_where, Bool-cases, inl, inr,
}
use codex_app.LocalAssets.{
  LocalAssetEntry, LocalAssetRegistry, has_token, has_path, entry_for, remove_entry, remove_token,
  remove_tokens, prune_expired, is_expired, touched, touch_entry, touch_existing,
  next_access_sequence, enforce_loop, enforce_capacity, now, tick, path_of, path_for,
}
use codex_app.LocalAssets.Eviction.{enforce_loop-keeps}
use codex_app.LocalAssets.Pairs.{pair_of, same_token, same_path, any_by-pairs, delete-pairs}

module _ (new_v4 : ℕ → String) where
  -- A token that the generator gave before its `uuids`-th call.
  abbrev pub Issued : ℕ → LocalAssetEntry → Type 0
  Issued uuids e = (i : ℕ) × (i < uuids) × (e.token ≡ new_v4 i)

  -- Each path has one token and each token one path, in both maps, and the tokens were generated.
  pub record Consistent (r : LocalAssetRegistry) : Type 0 where
    pub pairs : r.by_path ≡ map pair_of r.by_token
    pub tokens : UniqueBy same_token r.by_token
    pub paths : UniqueBy same_path r.by_token
    pub issued : All (Issued r.uuids) r.by_token

  remove_entry-Consistent :
      (token : String) (r : LocalAssetRegistry) (o : Option LocalAssetEntry)
      → entry_for token r ≡ o
      → Consistent r
      → Consistent (remove_entry o r)
  remove_entry-Consistent token r none h c = c
  remove_entry-Consistent token r (some e) h c = record {
    pairs =
        ap (delete_where (has_path e.path)) c.pairs
        ∙ delete-pairs token r.by_token c.tokens c.paths h;
    tokens = UniqueBy-delete_where same_token (has_token e.token) r.by_token c.tokens;
    paths = UniqueBy-delete_where same_path (has_token e.token) r.by_token c.paths;
    issued = All-delete_where (has_token e.token) (Issued r.uuids) r.by_token c.issued;
  }

  pub remove_token-Consistent :
      (token : String) (r : LocalAssetRegistry) → Consistent r → Consistent (remove_token token r)
  unfolding remove_token
  remove_token-Consistent token r c = remove_entry-Consistent token r (entry_for token r) refl c

  remove_tokens-Consistent :
      (tokens : List String) (r : LocalAssetRegistry)
      → Consistent r
      → Consistent (remove_tokens tokens r)
  unfolding remove_tokens
  remove_tokens-Consistent [] r c = c
  remove_tokens-Consistent (token ∷ tokens) r c =
      remove_tokens-Consistent tokens (remove_token token r) (remove_token-Consistent token r c)

  pub prune_expired-Consistent :
      (at : ℕ) (r : LocalAssetRegistry) → Consistent r → Consistent (prune_expired at r)
  unfolding prune_expired
  prune_expired-Consistent at r c =
      remove_tokens-Consistent (map (λ e. e.token) (filter_by (is_expired r at) r.by_token)) r c

  touch_entry-Consistent :
      (o : Option LocalAssetEntry) (at : ℕ) (r : LocalAssetRegistry)
      → Consistent r
      → Consistent ((touch_entry o at r).1)
  touch_entry-Consistent none at r c = c
  touch_entry-Consistent (some e) at r c = elim (Bool-cases (is_expired r at e)) [
    | inl m ↦ rw m c
    | inr m ↦ rw m record {
      pairs =
          c.pairs ∙ sym (map-update_where (has_token e.token) touch pair_of (λ x. refl) r.by_token);
      tokens =
          UniqueBy-update_where same_token (has_token e.token) touch (λ x y. refl) (λ x. refl)
            r.by_token c.tokens;
      paths =
          UniqueBy-update_where same_path (has_token e.token) touch (λ x y. refl) (λ x. refl)
            r.by_token c.paths;
      issued =
          All-update_where (has_token e.token) (Issued r.uuids) touch (λ x h. h) r.by_token
            c.issued;
    }
  ]
    where
      touch : LocalAssetEntry → LocalAssetEntry
      touch = touched at (next_access_sequence r)

  pub touch_existing-Consistent :
      (token : String) (at : ℕ) (r : LocalAssetRegistry)
      → Consistent r
      → Consistent ((touch_existing token at r).1)
  unfolding touch_existing
  touch_existing-Consistent token at r c = touch_entry-Consistent (entry_for token r) at r c

  enforce_loop-Consistent :
      (fuel : ℕ) (r : LocalAssetRegistry) → Consistent r → Consistent (enforce_loop fuel r)
  enforce_loop-Consistent = enforce_loop-keeps Consistent remove_token-Consistent

  pub enforce_capacity-Consistent :
      (r : LocalAssetRegistry) → Consistent r → Consistent (enforce_capacity r)
  unfolding enforce_capacity
  enforce_capacity-Consistent r c = enforce_loop-Consistent (length r.by_token) r c

  -- What a removal leaves has not the path of the entry removed.
  pub path_gone :
      (r : LocalAssetRegistry) (token : String) (e : LocalAssetEntry)
      → entry_for token r ≡ some e
      → (path : String) → e.path ≡ path
      → Consistent r
      → any_by (λ x. x.path == path) (remove_token token r).by_token ≡ false
  unfolding remove_token
  path_gone r token e found path path_eq c =
      sym (any_by-pairs path (remove_token token r).by_token)
      ∙ ap (any_by (has_path path)) (sym (remove_token-Consistent token r c).pairs)
      ∙ rw (found, sym path_eq) (any_by-delete_where (has_path e.path) r.by_path)

  pub path_absent :
      (r : LocalAssetRegistry) (path : String)
      → find_by (has_path path) r.by_path ≡ none
      → Consistent r
      → any_by (λ x. x.path == path) r.by_token ≡ false
  path_absent r path h c =
      sym (any_by-pairs path r.by_token)
      ∙ ap (any_by (has_path path)) (sym c.pairs)
      ∙ any_by-find_by (has_path path) r.by_path
      ∙ ap is_some h

  module _ (clock : ℕ → ℕ) where
    tick-Consistent : (r : LocalAssetRegistry) → Consistent r → Consistent (tick clock new_v4 r)
    tick-Consistent r c = record {
      pairs = c.pairs;
      tokens = c.tokens;
      paths = c.paths;
      issued = c.issued;
    }

    pub pruned-Consistent :
        (r : LocalAssetRegistry)
        → Consistent r
        → Consistent (prune_expired (now clock new_v4 r) (tick clock new_v4 r))
    pruned-Consistent r c =
        prune_expired-Consistent (now clock new_v4 r) (tick clock new_v4 r) (tick-Consistent r c)

    path_of-Consistent :
        (token : String) (s : Bool × LocalAssetRegistry)
        → Consistent s.1
        → Consistent ((path_of clock new_v4 token s).1)
    path_of-Consistent token (true, r) c = c
    path_of-Consistent token (false, r) c = c

    pub path_for-Consistent :
        (token : String) (r : LocalAssetRegistry)
        → Consistent r
        → Consistent ((path_for clock new_v4 token r).1)
    unfolding path_for
    path_for-Consistent token r c =
        path_of-Consistent token (touch_existing token at pruned)
          (touch_existing-Consistent token at pruned (pruned-Consistent r c))
      where
        at : ℕ
        at = now clock new_v4 r

        pruned : LocalAssetRegistry
        pruned = prune_expired at (tick clock new_v4 r)
