-- ===== src/Prelude/Members.antt =====
-- Predicates on all rows of a table, and its length, under the statements of Rows.
use Prim.Native.Nat.{suc, ◌≤◌, ◌<◌}
use mathlib.Core.Path.{◌≡◌, refl, ap, subst}
use mathlib.Core.Logic.{inl, inr}
use mathlib.Core.Bool.{Bool, true, false}
use mathlib.Core.Option.{some}
use mathlib.Core.List.{List, [], ◌∷◌, ◌++◌, map}
use native.Mathlib.Omega.{arith}
use codex_app.Prelude.Tests.{Bool-cases, some_eq, is_some}
use codex_app.Prelude.Lists.{any_by, All, length}
use codex_app.Prelude.Rows.{find_by, update_where, delete_where, upsert}

module _ {ℓ} {A : Type ℓ} (p : A → Bool) where
  -- What a search finds passes its test, and has what every row has.
  pub find_by-All {κ} :
      (P : A → Type κ) (xs : List A) {a : A} → find_by p xs ≡ some a → All P xs → (p a ≡ true) × P a
  find_by-All P [] h all = cc
  find_by-All P (x ∷ xs) {a} h all = elim (Bool-cases (p x)) [
    | inl e ↦ subst (λ y. (p y ≡ true) × P y) (some_eq (rw e at h)) (e, all.0)
    | inr e ↦ find_by-All P xs (rw e at h) all.1
  ]

  pub find_by_passes : (xs : List A) {a : A} → find_by p xs ≡ some a → p a ≡ true
  find_by_passes [] h = cc
  find_by_passes (x ∷ xs) {a} h = elim (Bool-cases (p x)) [
    | inl e ↦ subst (λ y. p y ≡ true) (some_eq (rw e at h)) (e)
    | inr e ↦ find_by_passes xs (rw e at h)
  ]

  pub any_by-find_by : (xs : List A) → any_by p xs ≡ is_some (find_by p xs)
  any_by-find_by [] = refl
  any_by-find_by (x ∷ xs) = ground (arith, any_by-find_by xs)

  -- A test that no row passes is not passed by what a search finds.
  pub find_by_absent :
      (q : A → Bool) (xs : List A) {a : A}
      → find_by p xs ≡ some a
      → any_by q xs ≡ false
      → q a ≡ false
  find_by_absent q [] h absent = cc
  find_by_absent q (x ∷ xs) {a} h absent = elim (Bool-cases (p x)) [
    | inl e ↦ subst (λ y. q y ≡ false) (some_eq (rw e at h)) (ground arith)
    | inr e ↦ find_by_absent q xs (rw e at h) (ground arith)
  ]

  pub delete_where_absent_id : (xs : List A) → any_by p xs ≡ false → delete_where p xs ≡ xs
  delete_where_absent_id [] h = refl
  delete_where_absent_id (x ∷ xs) h = ground (arith, delete_where_absent_id xs)

  pub length-delete_where_le : (xs : List A) → length (delete_where p xs) ≤ length xs
  length-delete_where_le [] = omega arith
  length-delete_where_le (x ∷ xs) = ground (arith, length-delete_where_le xs)

  pub length-delete_where_lt :
      (xs : List A) → any_by p xs ≡ true → length (delete_where p xs) < length xs
  length-delete_where_lt [] h = cc
  length-delete_where_lt (x ∷ xs) h =
      ground (arith, length-delete_where_le xs, length-delete_where_lt xs)

  pub upsert_absent :
      (f : A → A) (a : A) (xs : List A) → any_by p xs ≡ false → upsert p f a xs ≡ xs ++ a ∷ []
  upsert_absent f a [] h = refl
  upsert_absent f a (x ∷ xs) h = ground (arith, upsert_absent f a xs)

  module _ (f : A → A) where
    pub length-update_where : (xs : List A) → length (update_where p f xs) ≡ length xs
    length-update_where [] = refl
    length-update_where (x ∷ xs) = ap suc (length-update_where xs)

    pub map-update_where {κ} :
        {B : Type κ} (g : A → B)
        → ((x : A) → g (f x) ≡ g x)
        → (xs : List A) → map g (update_where p f xs) ≡ map g xs
    map-update_where g same [] = refl
    map-update_where g same (x ∷ xs) = elim (Bool-cases (p x)) [
      | inl e ↦ rw (e, same x, map-update_where g same xs) refl
      | inr e ↦ rw (e, map-update_where g same xs) refl
    ]

  module _ {κ} (P : A → Type κ) where
    pub All-delete_where : (xs : List A) → All P xs → All P (delete_where p xs)
    All-delete_where [] h = tt
    All-delete_where (x ∷ xs) h = elim (Bool-cases (p x)) [
      | inl e ↦ rw e (All-delete_where xs h.1)
      | inr e ↦ rw e (h.0, All-delete_where xs h.1)
    ]

    pub All-update_where :
        (f : A → A)
        → ((x : A) → P x → P (f x))
        → (xs : List A) → All P xs
        → All P (update_where p f xs)
    All-update_where f keep [] h = tt
    All-update_where f keep (x ∷ xs) h = elim (Bool-cases (p x)) [
      | inl e ↦ rw e (keep x h.0, All-update_where f keep xs h.1)
      | inr e ↦ rw e (h.0, All-update_where f keep xs h.1)
    ]
