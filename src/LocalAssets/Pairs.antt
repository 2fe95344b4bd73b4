-- ===== src/LocalAssets/Pairs.antt =====
-- The map by path holds one pair for each entry of the map by token.
use text.Mathlib.TextPositions.{eq_refl}
use codex_app.Prelude.{
  String, ◌≡◌, refl, sym, ap, ◌∙◌, Bool, false, some, List, [], ◌∷◌, ◌++◌, map, arith, ◌==◌, eq_iff,
  find_by, any_by, delete_where, UniqueBy, delete_where_absent_id, find_by_absent, find_by_passes,
  Bool-cases, inl, inr, some_eq,
}
use mathlib.Core.Path.{subst}
use codex_app.LocalAssets.{PathToken, LocalAssetEntry, has_token, has_path}

abbrev pub pair_of : LocalAssetEntry → PathToken
pair_of e = record { path = e.path; token = e.token }

abbrev pub same_token : LocalAssetEntry → LocalAssetEntry → Bool
same_token x = has_token x.token

abbrev pub same_path : LocalAssetEntry → LocalAssetEntry → Bool
same_path x y = y.path == x.path

pub any_by-pairs :
    (path : String) (xs : List LocalAssetEntry)
    → any_by (has_path path) (map pair_of xs) ≡ any_by (λ y. y.path == path) xs
any_by-pairs path [] = refl
any_by-pairs path (x ∷ xs) = rw (any_by-pairs path xs) refl

pub map-append_one :
    (a : LocalAssetEntry) (xs : List LocalAssetEntry)
    → map pair_of (xs ++ a ∷ []) ≡ map pair_of xs ++ pair_of a ∷ []
map-append_one a [] = refl
map-append_one a (x ∷ xs) = ap (◌∷◌ (pair_of x)) (map-append_one a xs)

not_sym : (a b : String) → (a == b) ≡ false → (b == a) ≡ false
not_sym a b h = ground (arith, eq_iff a b, eq_iff b a)

-- Removing an entry that a search by its token finds, from both maps.
pub delete-pairs :
    (token : String) (xs : List LocalAssetEntry) {e : LocalAssetEntry}
    → UniqueBy same_token xs
    → UniqueBy same_path xs
    → find_by (has_token token) xs ≡ some e
    → delete_where (has_path e.path) (map pair_of xs)
      ≡ map pair_of (delete_where (has_token e.token) xs)
delete-pairs token [] ut up h = cc
delete-pairs token (x ∷ xs) {e} ut up h = elim (Bool-cases (x.token == token)) [
  | inl m ↦
      subst
        (λ y.
          delete_where (has_path y.path) (map pair_of (x ∷ xs))
          ≡ map pair_of (delete_where (has_token y.token) (x ∷ xs)))
        (some_eq (rw m at h))
        (rw (eq_refl x.path, eq_refl x.token)
          (delete_where_absent_id (has_path x.path) (map pair_of xs) (any_by-pairs x.path xs ∙ up.0)
            ∙ sym (ap (map pair_of) (delete_where_absent_id (has_token x.token) xs ut.0))))
  | inr m ↦
      let found : find_by (has_token token) xs ≡ some e = rw m at h in
      rw
        (
          not_sym e.path x.path (find_by_absent (has_token token) (same_path x) xs found up.0),
          not_sym e.token x.token (find_by_absent (has_token token) (same_token x) xs found ut.0),
        )
        (ap (◌∷◌ (pair_of x)) (delete-pairs token xs ut.1 up.1 found))
]

-- A path of the one map is found by its token in the other.
pub find_by-pairs :
    (path : String) (xs : List LocalAssetEntry) {p : PathToken}
    → UniqueBy same_token xs
    → find_by (has_path path) (map pair_of xs) ≡ some p
    → (e : LocalAssetEntry) × (find_by (has_token p.token) xs ≡ some e) × (e.path ≡ path)
find_by-pairs path [] u h = cc
find_by-pairs path (x ∷ xs) {p} u h = elim (Bool-cases (x.path == path)) [
  | inl m ↦ (
    x,
    subst (λ y. find_by (has_token y.token) (x ∷ xs) ≡ some x) (some_eq (rw m at h))
        (rw (eq_refl x.token) refl),
    (eq_iff x.path path).0 m,
  )
  | inr m ↦
      let (e, found, path_eq) = find_by-pairs path xs u.1 (rw m at h) in (e, skip e found, path_eq)
]
  where
    skip :
        (e : LocalAssetEntry)
        → find_by (has_token p.token) xs ≡ some e
        → find_by (has_token p.token) (x ∷ xs) ≡ some e
    skip e found =
        let e_token = find_by_passes (has_token p.token) xs found in
        let apart = find_by_absent (has_token p.token) (same_token x) xs found u.0 in
        ground (arith, eq_iff e.token p.token, eq_iff e.token x.token, eq_iff x.token p.token)
