-- ===== src/LocalAssets/Lookup.antt =====
-- What a fetch answers, against the entries of the registry.
use mathlib.Core.Path.{subst}
use codex_app.Prelude.{
  ℕ, ◌-◌, ltb, String, ◌≡◌, refl, sym, ap, ◌∙◌, Bool, true, false, Option, none, some, List, [],
  ◌∷◌, map, arith, ◌==◌, eq_iff, find_by, any_by, delete_where, update_where, Bool-cases, inl, inr,
  if◌then◌else◌, some_eq, filter_by, map_option, not, UniqueBy, find_by_passes,
  find_by-delete_where_other, any_by-delete_where, find_by-eq_none, find_by-update_where_self,
}
use codex_app.Json.{filter_option}
use codex_app.LocalAssets.{
  LocalAssetEntry, LocalAssetRegistry, LocalAssetRegistryConfig, has_token, entry_for, remove_entry,
  remove_token, remove_tokens, prune_expired, is_expired, touched, touch_entry,
  next_access_sequence, now, tick, path_of, path_for,
}
use codex_app.LocalAssets.Pairs.{same_token}

-- The path of an entry that has not expired.
abbrev pub live_path : (LocalAssetEntry → Bool) → Option LocalAssetEntry → Option String
live_path expired none = none
live_path expired (some e) = if expired e then none else some e.path

token_eq :
    (x : LocalAssetEntry) (s t : String)
    → (s == t) ≡ false
    → has_token s x ≡ true
    → has_token t x ≡ false
token_eq x s t apart h = ground (arith, eq_iff x.token s, eq_iff x.token t, eq_iff s t)

-- Removing another token leaves the entry.
entry_for-remove_other :
    (t token : String) (r : LocalAssetRegistry)
    → (t == token) ≡ false
    → entry_for token (remove_token t r) ≡ entry_for token r
unfolding remove_token
entry_for-remove_other t token r apart = go (entry_for t r) refl
  where
    go :
        (o : Option LocalAssetEntry)
        → entry_for t r ≡ o
        → entry_for token (remove_entry o r) ≡ entry_for token r
    go none h = refl
    go (some e) h =
        find_by-delete_where_other (has_token e.token) (has_token token)
          (λ x m.
            token_eq x e.token token
              (token_eq e t token apart (find_by_passes (has_token t) r.by_token h)) m)
          r.by_token

-- Removing its token removes the entry.
entry_for-remove_same :
    (t token : String) (r : LocalAssetRegistry)
    → (t == token) ≡ true
    → entry_for token (remove_token t r) ≡ none
unfolding remove_token
entry_for-remove_same t token r same =
    subst (λ s. entry_for s (remove_token t r) ≡ none) ((eq_iff t token).0 same)
      (go (entry_for t r) refl)
  where
    go : (o : Option LocalAssetEntry) → entry_for t r ≡ o → entry_for t (remove_entry o r) ≡ none
    go none h = h
    go (some e) h =
        let token_same = (eq_iff e.token t).0 (find_by_passes (has_token t) r.by_token h) in
        subst (λ s. find_by (has_token s) (delete_where (has_token e.token) r.by_token) ≡ none)
          token_same
          (find_by-eq_none (has_token e.token) _
            (any_by-delete_where (has_token e.token) r.by_token))

entry_for-remove_tokens :
    (tokens : List String) (token : String) (r : LocalAssetRegistry)
    → entry_for token (remove_tokens tokens r)
      ≡ (if any_by (λ t. t == token) tokens then none else entry_for token r)
unfolding remove_tokens
entry_for-remove_tokens [] token r = refl
entry_for-remove_tokens (t ∷ tokens) token r = elim (Bool-cases (t == token)) [
  | inl m ↦
      rw
        (
          entry_for-remove_tokens tokens token (remove_token t r),
          m,
          entry_for-remove_same t token r m,
        )
        (ground arith)
  | inr m ↦
      rw
        (
          entry_for-remove_tokens tokens token (remove_token t r),
          m,
          entry_for-remove_other t token r m,
        )
        refl
]

without_token :
    (p : LocalAssetEntry → Bool) (token : String) (xs : List LocalAssetEntry)
    → any_by (has_token token) xs ≡ false
    → any_by (λ t. t == token) (map (λ e. e.token) (filter_by p xs)) ≡ false
without_token p token [] h = refl
without_token p token (x ∷ xs) h = elim (Bool-cases (p x)) [
  | inl m ↦ rw m (ground (arith, without_token p token xs))
  | inr m ↦ rw m (ground (arith, without_token p token xs))
]

-- Whether the tokens of the entries that pass a test have the token of an entry.
token_of_passing :
    (p : LocalAssetEntry → Bool) (token : String) (xs : List LocalAssetEntry) {e : LocalAssetEntry}
    → UniqueBy same_token xs
    → find_by (has_token token) xs ≡ some e
    → any_by (λ t. t == token) (map (λ x. x.token) (filter_by p xs)) ≡ p e
token_of_passing p token [] u h = cc
token_of_passing p token (x ∷ xs) {e} u h = elim (Bool-cases (has_token token x)) [
  | inl m ↦
      let rest =
        without_token p token xs
          (subst (λ s. any_by (has_token s) xs ≡ false) ((eq_iff x.token token).0 m) u.0) in
      subst (λ y. any_by (λ t. t == token) (map (λ x. x.token) (filter_by p (x ∷ xs))) ≡ p y)
        (some_eq (rw m at h))
        (elim (Bool-cases (p x)) [ inl pass ↦ rw (pass, m) refl | inr fail ↦ rw (fail) rest ])
  | inr m ↦
      let rest = token_of_passing p token xs u.1 (rw m at h) in
      elim (Bool-cases (p x)) [ inl pass ↦ rw (pass, m) rest | inr fail ↦ rw (fail) rest ]
]

remove_token-config :
    (token : String) (r : LocalAssetRegistry) → (remove_token token r).config ≡ r.config
unfolding remove_token
remove_token-config token r = go (entry_for token r)
  where
    go : (o : Option LocalAssetEntry) → (remove_entry o r).config ≡ r.config
    go none = refl
    go (some e) = refl

remove_tokens-config :
    (tokens : List String) (r : LocalAssetRegistry) → (remove_tokens tokens r).config ≡ r.config
unfolding remove_tokens
remove_tokens-config [] r = refl
remove_tokens-config (token ∷ tokens) r =
    remove_tokens-config tokens (remove_token token r) ∙ remove_token-config token r

prune_expired-config : (at : ℕ) (r : LocalAssetRegistry) → (prune_expired at r).config ≡ r.config
unfolding prune_expired
prune_expired-config at r =
    remove_tokens-config (map (λ e. e.token) (filter_by (is_expired r at) r.by_token)) r

-- A pruning removes an entry exactly when it has expired.
pub entry_for-prune_expired :
    (at : ℕ) (token : String) (r : LocalAssetRegistry)
    → UniqueBy same_token r.by_token
    → entry_for token (prune_expired at r)
      ≡ filter_option (λ e. not (is_expired r at e)) (entry_for token r)
unfolding prune_expired
entry_for-prune_expired at token r u =
    entry_for-remove_tokens expired token r ∙ go (entry_for token r) refl
  where
    expired : List String
    expired = map (λ e. e.token) (filter_by (is_expired r at) r.by_token)

    go :
        (o : Option LocalAssetEntry)
        → entry_for token r ≡ o
        → (if any_by (λ t. t == token) expired then none else entry_for token r)
          ≡ filter_option (λ e. not (is_expired r at e)) o
    go none h = rw h (ground arith)
    go (some e) h = rw (h, token_of_passing (is_expired r at) token r.by_token u h) (ground arith)

live_path-filter :
    (p : LocalAssetEntry → Bool) (o : Option LocalAssetEntry)
    → live_path p (filter_option (λ e. not (p e)) o) ≡ live_path p o
live_path-filter p none = refl
live_path-filter p (some e) = elim (Bool-cases (p e)) [ inl m ↦ rw m refl | inr m ↦ rw (m, m) refl ]

module _ (clock : ℕ → ℕ) (new_v4 : ℕ → String) where
  touched_path :
      (token : String) (at : ℕ) (r : LocalAssetRegistry) (o : Option LocalAssetEntry)
      → entry_for token r ≡ o
      → (path_of clock new_v4 token (touch_entry o at r)).0 ≡ live_path (is_expired r at) o
  touched_path token at r none h = refl
  touched_path token at r (some e) h = elim (Bool-cases (is_expired r at e)) [
    | inl m ↦ rw m refl
    | inr m ↦ rw m (
        subst
          (λ t.
            map_option (λ x. x.path)
              (find_by (has_token token) (update_where (has_token t) touch r.by_token))
            ≡ some e.path)
          (sym ((eq_iff e.token token).0 (find_by_passes (has_token token) r.by_token h)))
          (rw (find_by-update_where_self (has_token token) touch (λ x k. k) r.by_token, h) refl))
  ]
    where
      touch : LocalAssetEntry → LocalAssetEntry
      touch = touched at (next_access_sequence r)

  -- A fetch answers the path of the token's entry that has not expired, and nothing for other tokens.
  pub path_for-lookup :
      (token : String) (r : LocalAssetRegistry)
      → UniqueBy same_token r.by_token
      → (path_for clock new_v4 token r).0
        ≡ live_path (is_expired r (now clock new_v4 r)) (entry_for token r)
  unfolding path_for
  path_for-lookup token r u =
      touched_path token at pruned (entry_for token pruned) refl
      ∙ ap (λ c. live_path (expired_by c) (entry_for token pruned))
          (prune_expired-config at (tick clock new_v4 r))
      ∙ ap (live_path (is_expired r at)) (entry_for-prune_expired at token (tick clock new_v4 r) u)
      ∙ live_path-filter (is_expired r at) (entry_for token r)
    where
      at : ℕ
      at = now clock new_v4 r

      pruned : LocalAssetRegistry
      pruned = prune_expired at (tick clock new_v4 r)

      expired_by : LocalAssetRegistryConfig → LocalAssetEntry → Bool
      expired_by c e = ltb c.ttl_ms (at - e.created_at)
