-- ===== src/Prelude/Rows.antt =====
-- Tables as lists of rows: what the SQL statements of the program do to them.
use mathlib.Core.Path.{◌≡◌, refl}
use mathlib.Core.Logic.{inl, inr}
use mathlib.Core.Bool.{Bool, true, false}
use mathlib.Core.Option.{Option, none, some}
use mathlib.Core.List.{List, [], ◌∷◌, ◌++◌}
use native.Mathlib.Omega.{arith}
use Prim.Native.String.{String}
use text.Mathlib.Text.{◌==◌}
use text.Mathlib.TextEquality.{eq_iff}
use codex_app.Prelude.Tests.{if◌then◌else◌, Bool-cases, map_option, unwrap_or}
use codex_app.Prelude.Lists.{any_by}

module _ {ℓ} {A : Type ℓ} where
  -- SELECT … WHERE p (at most one row is read)
  abbrev pub find_by : (A → Bool) → List A → Option A
  find_by p [] = none
  find_by p (x ∷ xs) = let rest = find_by p xs in if p x then some x else rest

  -- UPDATE … SET f WHERE p
  abbrev pub update_where : (A → Bool) → (A → A) → List A → List A
  update_where p f [] = []
  update_where p f (x ∷ xs) = (if p x then f x else x) ∷ update_where p f xs

  -- DELETE … WHERE p
  abbrev pub delete_where : (A → Bool) → List A → List A
  delete_where p [] = []
  delete_where p (x ∷ xs) = let rest = delete_where p xs in if p x then rest else x ∷ rest

  -- INSERT a … ON CONFLICT(p) DO UPDATE SET f
  abbrev pub upsert : (A → Bool) → (A → A) → A → List A → List A
  upsert p f a [] = a ∷ []
  upsert p f a (x ∷ xs) = let rest = upsert p f a xs in if p x then f x ∷ xs else x ∷ rest

  -- INSERT OR IGNORE a, with p the conflict: the new rows, and whether a row was added
  abbrev pub insert_or_ignore : (A → Bool) → A → List A → List A
  insert_or_ignore p a xs = if any_by p xs then xs else xs ++ a ∷ []

module _ {ℓ} {A : Type ℓ} (p : A → Bool) (f : A → A) where
  pub find_by-update_where_self :
      ((x : A) → p x ≡ true → p (f x) ≡ true)
      → (xs : List A) → find_by p (update_where p f xs) ≡ map_option f (find_by p xs)
  find_by-update_where_self keep [] = refl
  find_by-update_where_self keep (x ∷ xs) = elim (Bool-cases (p x)) [
    | inl e ↦ rw (e, keep x e) refl
    | inr e ↦ rw (e, e) (find_by-update_where_self keep xs)
  ]

  pub find_by-update_where_other :
      (q : A → Bool)
      → ((x : A) → p x ≡ true → (q x ≡ false) × (q (f x) ≡ false))
      → (xs : List A) → find_by q (update_where p f xs) ≡ find_by q xs
  find_by-update_where_other q apart [] = refl
  find_by-update_where_other q apart (x ∷ xs) = elim (Bool-cases (p x)) [
    | inl e ↦ rw (e, (apart x e).0, (apart x e).1) (find_by-update_where_other q apart xs)
    | inr e ↦ rw (e, find_by-update_where_other q apart xs) refl
  ]

  pub find_by-upsert_self :
      (a : A)
      → p a ≡ true
      → ((x : A) → p x ≡ true → p (f x) ≡ true)
      → (xs : List A)
      → find_by p (upsert p f a xs) ≡ some (unwrap_or (map_option f (find_by p xs)) a)
  find_by-upsert_self a pa keep [] = rw pa
  find_by-upsert_self a pa keep (x ∷ xs) = elim (Bool-cases (p x)) [
    | inl e ↦ rw (e, keep x e) refl
    | inr e ↦ rw (e, e) (find_by-upsert_self a pa keep xs)
  ]

  pub find_by-upsert_other :
      (q : A → Bool) (a : A)
      → q a ≡ false
      → ((x : A) → p x ≡ true → (q x ≡ false) × (q (f x) ≡ false))
      → (xs : List A) → find_by q (upsert p f a xs) ≡ find_by q xs
  find_by-upsert_other q a qa apart [] = rw qa
  find_by-upsert_other q a qa apart (x ∷ xs) = elim (Bool-cases (p x)) [
    | inl e ↦ rw (e, (apart x e).0, (apart x e).1) refl
    | inr e ↦ rw (e, find_by-upsert_other q a qa apart xs) refl
  ]

module _ {ℓ} {A : Type ℓ} (p : A → Bool) where
  pub any_by-delete_where : (xs : List A) → any_by p (delete_where p xs) ≡ false
  any_by-delete_where [] = refl
  any_by-delete_where (x ∷ xs) = elim (Bool-cases (p x)) [
    | inl e ↦ rw e (any_by-delete_where xs)
    | inr e ↦ rw (e, e) (any_by-delete_where xs)
  ]

  pub find_by-delete_where_other :
      (q : A → Bool)
      → ((x : A) → p x ≡ true → q x ≡ false)
      → (xs : List A) → find_by q (delete_where p xs) ≡ find_by q xs
  find_by-delete_where_other q apart [] = refl
  find_by-delete_where_other q apart (x ∷ xs) = elim (Bool-cases (p x)) [
    | inl e ↦ rw (e, apart x e) (find_by-delete_where_other q apart xs)
    | inr e ↦ rw (e, find_by-delete_where_other q apart xs) refl
  ]

  pub find_by-eq_none : (xs : List A) → any_by p xs ≡ false → find_by p xs ≡ none
  find_by-eq_none [] h = refl
  find_by-eq_none (x ∷ xs) h = ground (arith, find_by-eq_none xs)

  pub find_by-append_self :
      (a : A)
      → p a ≡ true
      → (xs : List A) → find_by p (xs ++ a ∷ []) ≡ some (unwrap_or (find_by p xs) a)
  find_by-append_self a pa [] = rw pa
  find_by-append_self a pa (x ∷ xs) = ground (arith, find_by-append_self a pa xs)

  pub find_by-append_other :
      (a : A) → p a ≡ false → (xs : List A) → find_by p (xs ++ a ∷ []) ≡ find_by p xs
  find_by-append_other a pa [] = rw pa
  find_by-append_other a pa (x ∷ xs) = ground (arith, find_by-append_other a pa xs)

-- The rows that a search by a text finds after the upsert of `a`.
pub upsert_lookup :
    {A : Type 0} (key : A → String) (a : A) (k : String) (rows : List A)
    → find_by (λ x. key x == k) (upsert (λ x. key x == key a) (λ _. a) a rows)
      ≡ (if key a == k then some a else find_by (λ x. key x == k) rows)
upsert_lookup key a k [] = refl
upsert_lookup key a k (x ∷ rows) =
    ground (
      arith,
      eq_iff (key x) (key a),
      eq_iff (key a) k,
      eq_iff (key x) k,
      upsert_lookup key a k rows,
    )
