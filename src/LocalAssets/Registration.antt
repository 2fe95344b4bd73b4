-- ===== src/LocalAssets/Registration.antt =====
-- A registration keeps the two maps in step, since the tokens are new.
use mathlib.Core.Path.{subst}
use codex_app.Prelude.{
  ℕ, String, ◌+◌, ◌<◌, ◌≡◌, refl, sym, ap, ◌∙◌, Bool, true, false, Option, none, some, List, [],
  ◌∷◌, ◌++◌, map, arith, ◌==◌, eq_iff, find_by, any_by, upsert, UniqueBy, UniqueBy-append_one,
  upsert_absent, All, All-append, All-map, Bool-cases, inl, inr,
}
use codex_app.LocalAssets.{
  PathToken, LocalAssetEntry, LocalAssetRegistry, has_token, has_path, entry_for, remove_token,
  prune_expired, touch_existing, next_access_sequence, now, tick, add_entry, register_new,
  register_known, register_found, register_image,
}
use codex_app.LocalAssets.Eviction.{touch_existing-false}
use codex_app.LocalAssets.Pairs.{
  pair_of, same_token, same_path, any_by-pairs, map-append_one, find_by-pairs,
}
use codex_app.LocalAssets.Consistency.{
  Issued, Consistent, remove_token-Consistent, touch_existing-Consistent, pruned-Consistent,
  enforce_capacity-Consistent, path_gone, path_absent,
}

token_sym : (x y : LocalAssetEntry) → same_token x y ≡ same_token y x
token_sym x y = ground (arith, eq_iff x.token y.token, eq_iff y.token x.token)

path_sym : (x y : LocalAssetEntry) → same_path x y ≡ same_path y x
path_sym x y = ground (arith, eq_iff x.path y.path, eq_iff y.path x.path)

lt_apart : (i n : ℕ) → i < n → ¬ (i ≡ n)
lt_apart i n h e = omega arith

module _ (clock : ℕ → ℕ) (new_v4 : ℕ → String) where
  module _ (injective : (i j : ℕ) → new_v4 i ≡ new_v4 j → i ≡ j) where
    -- The next token is new.
    fresh :
        (uuids : ℕ) (entries : List LocalAssetEntry)
        → All (Issued new_v4 uuids) entries
        → any_by (has_token (new_v4 uuids)) entries ≡ false
    fresh uuids [] h = refl
    fresh uuids (e ∷ entries) h =
        let (i, earlier, token_eq) = h.0 in
        let apart : (e.token == new_v4 uuids) ≡ false =
          elim (Bool-cases (e.token == new_v4 uuids)) [
            | inl m ↦ absurd (
                lt_apart i uuids earlier
                  (injective i uuids (sym token_eq ∙ (eq_iff e.token (new_v4 uuids)).0 m)))
            | inr m ↦ m
          ] in
        rw (apart, fresh uuids entries h.1) refl

    register_new-Consistent :
        (path : String) (at : ℕ) (r : LocalAssetRegistry)
        → any_by (λ e. e.path == path) r.by_token ≡ false
        → Consistent new_v4 r
        → Consistent new_v4 ((register_new clock new_v4 path at r).1)
    unfolding register_new
    register_new-Consistent path at r absent c =
        enforce_capacity-Consistent new_v4 (add_entry clock new_v4 path at r) record {
          pairs =
              upsert_absent (has_path path) _ _ r.by_path
                (ap (any_by (has_path path)) c.pairs ∙ any_by-pairs path r.by_token ∙ absent)
              ∙ ap (λ xs. xs ++ record { path = path; token = new_v4 r.uuids } ∷ []) c.pairs
              ∙ sym (map-append_one asset r.by_token)
              ∙ sym (ap (map pair_of) by_token_eq);
          tokens =
              subst (UniqueBy same_token) (sym by_token_eq)
                (UniqueBy-append_one same_token token_sym asset r.by_token new_token c.tokens);
          paths =
              subst (UniqueBy same_path) (sym by_token_eq)
                (UniqueBy-append_one same_path path_sym asset r.by_token absent c.paths);
          issued = subst (All (Issued new_v4 (r.uuids + 1))) (sym by_token_eq) (
              All-append (Issued new_v4 (r.uuids + 1)) r.by_token (asset ∷ [])
                (All-map (Issued new_v4 r.uuids) (Issued new_v4 (r.uuids + 1)) r.by_token
                  (λ e h. (h.0, omega (arith, h.1), h.2)) c.issued)
                ((r.uuids, omega arith, refl), tt));
        }
      where
        new_token : any_by (has_token (new_v4 r.uuids)) r.by_token ≡ false
        new_token = fresh r.uuids r.by_token c.issued

        asset : LocalAssetEntry
        asset = record {
          token = new_v4 r.uuids;
          path = path;
          created_at = at;
          last_accessed_at = at;
          last_access_sequence = next_access_sequence r;
        }

        by_token_eq :
            upsert (has_token (new_v4 r.uuids)) (λ x. asset) asset r.by_token
            ≡ r.by_token ++ asset ∷ []
        by_token_eq =
            upsert_absent (has_token (new_v4 r.uuids)) (λ x. asset) asset r.by_token new_token

    -- A touch that answers false leaves an entry that is removed before the new one.
    register_known-Consistent :
        (path token : String) (at : ℕ) (r : LocalAssetRegistry) (e : LocalAssetEntry)
        → entry_for token r ≡ some e
        → e.path ≡ path
        → Consistent new_v4 r
        → (s : Bool × LocalAssetRegistry) → Consistent new_v4 s.1
        → (s.0 ≡ false → s.1 ≡ r)
        → Consistent new_v4 ((register_known clock new_v4 path token at s).1)
    unfolding register_known register_new
    register_known-Consistent path token at r e found path_eq c (true, r') c' same = c'
    register_known-Consistent path token at r e found path_eq c (false, r') c' same =
        subst
          (λ x. Consistent new_v4 ((register_new clock new_v4 path at (remove_token token x)).1))
          (sym (same refl))
          (register_new-Consistent path at (remove_token token r)
            (path_gone new_v4 r token e found path path_eq c)
            (remove_token-Consistent new_v4 token r c))

    register_found-Consistent :
        (path : String) (at : ℕ) (r : LocalAssetRegistry) (o : Option PathToken)
        → find_by (has_path path) r.by_path ≡ o
        → Consistent new_v4 r
        → Consistent new_v4 ((register_found clock new_v4 path at o r).1)
    unfolding register_found register_new
    register_found-Consistent path at r none h c =
        register_new-Consistent path at r (path_absent new_v4 r path h c) c
    register_found-Consistent path at r (some p) h c =
        let (e, found, path_eq) =
          find_by-pairs path r.by_token c.tokens (ap (find_by (has_path path)) (sym c.pairs) ∙ h) in
        register_known-Consistent path p.token at r e found path_eq c (touch_existing p.token at r)
          (touch_existing-Consistent new_v4 p.token at r c) (touch_existing-false p.token at r)

    pub register_image-Consistent :
        (path : String) (r : LocalAssetRegistry)
        → Consistent new_v4 r
        → Consistent new_v4 ((register_image clock new_v4 path r).1)
    unfolding register_image
    register_image-Consistent path r c =
        register_found-Consistent path (now clock new_v4 r)
          (prune_expired (now clock new_v4 r) (tick clock new_v4 r))
          (find_by (has_path path)
            (prune_expired (now clock new_v4 r) (tick clock new_v4 r)).by_path)
          refl (pruned-Consistent new_v4 clock r c)
