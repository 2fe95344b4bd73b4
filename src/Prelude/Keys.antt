-- ===== src/Prelude/Keys.antt =====
-- Tables whose rows have different keys: `key x y` says that `y` has the key of `x`.
use mathlib.Core.Path.{◌≡◌, refl, ◌∙◌}
use mathlib.Core.Logic.{inl, inr}
use mathlib.Core.Bool.{Bool, true, false}
use mathlib.Core.Option.{some}
use mathlib.Core.List.{List, [], ◌∷◌, ◌++◌}
use native.Mathlib.Omega.{arith}
use codex_app.Prelude.Tests.{Bool-cases}
use codex_app.Prelude.Lists.{any_by, All, All-map, All-both, All-of_not_any}
use codex_app.Prelude.Rows.{find_by, update_where, delete_where, insert_or_ignore}

module _ {ℓ} {A : Type ℓ} where
  any_by-update_where :
      (q p : A → Bool) (f : A → A)
      → ((x : A) → q (f x) ≡ q x)
      → (xs : List A) → any_by q (update_where p f xs) ≡ any_by q xs
  any_by-update_where q p f same [] = refl
  any_by-update_where q p f same (x ∷ xs) = elim (Bool-cases (p x)) [
    | inl e ↦ rw (e, same x, any_by-update_where q p f same xs) refl
    | inr e ↦ rw (e, any_by-update_where q p f same xs) refl
  ]

  delete_where_absent :
      (q p : A → Bool) (xs : List A) → any_by q xs ≡ false → any_by q (delete_where p xs) ≡ false
  delete_where_absent q p [] h = refl
  delete_where_absent q p (x ∷ xs) h = ground (arith, delete_where_absent q p xs)

  any_by-append_one :
      (q : A → Bool) (a : A) (xs : List A)
      → any_by q xs ≡ false
      → q a ≡ false
      → any_by q (xs ++ a ∷ []) ≡ false
  any_by-append_one q a [] h e = rw e
  any_by-append_one q a (x ∷ xs) h e = ground (arith, any_by-append_one q a xs)

module _ {ℓ} {A : Type ℓ} (key : A → A → Bool) where
  abbrev pub UniqueBy : List A → Type 0
  UniqueBy [] = Unit
  UniqueBy (x ∷ xs) = (any_by (key x) xs ≡ false) × UniqueBy xs

  pub UniqueBy-update_where :
      (p : A → Bool) (f : A → A)
      → ((x y : A) → key x (f y) ≡ key x y)
      → ((x : A) → key (f x) ≡ key x)
      → (xs : List A) → UniqueBy xs
      → UniqueBy (update_where p f xs)
  UniqueBy-update_where p f right left [] u = tt
  UniqueBy-update_where p f right left (x ∷ xs) u = elim (Bool-cases (p x)) [
    | inl e ↦ rw e (
      rw (left x) (any_by-update_where (key x) p f (right x) xs ∙ u.0),
      UniqueBy-update_where p f right left xs u.1,
    )
    | inr e ↦ rw e (
      any_by-update_where (key x) p f (right x) xs ∙ u.0,
      UniqueBy-update_where p f right left xs u.1,
    )
  ]

  pub UniqueBy-delete_where :
      (p : A → Bool) (xs : List A) → UniqueBy xs → UniqueBy (delete_where p xs)
  UniqueBy-delete_where p [] u = tt
  UniqueBy-delete_where p (x ∷ xs) u = elim (Bool-cases (p x)) [
    | inl e ↦ rw e (UniqueBy-delete_where p xs u.1)
    | inr e ↦ rw e (delete_where_absent (key x) p xs u.0, UniqueBy-delete_where p xs u.1)
  ]

  module _ (key_sym : (x y : A) → key x y ≡ key y x) where
    pub UniqueBy-append_one :
        (a : A) (xs : List A) → any_by (key a) xs ≡ false → UniqueBy xs → UniqueBy (xs ++ a ∷ [])
    UniqueBy-append_one a [] h u = (refl, tt)
    UniqueBy-append_one a (x ∷ xs) h u = (
      any_by-append_one (key x) a xs u.0 (key_sym x a ∙ ground arith),
      UniqueBy-append_one a xs (ground arith) u.1,
    )

    pub UniqueBy-insert_or_ignore :
        (a : A) (xs : List A) → UniqueBy xs → UniqueBy (insert_or_ignore (key a) a xs)
    UniqueBy-insert_or_ignore a xs u = elim (Bool-cases (any_by (key a) xs)) [
      | inl e ↦ rw e u
      | inr e ↦ rw e (UniqueBy-append_one a xs e u)
    ]

    -- Each row is the one that a search for its key finds.
    pub UniqueBy-find :
        ((x : A) → key x x ≡ true)
        → (xs : List A) → UniqueBy xs
        → All (λ x. find_by (key x) xs ≡ some x) xs
    UniqueBy-find key_refl [] u = tt
    UniqueBy-find key_refl (x ∷ xs) u = (
      rw (key_refl x),
      All-map _ _ xs (λ y h. rw (key_sym y x, h.0) h.1)
          (All-both _ _ xs (All-of_not_any (key x) xs u.0) (UniqueBy-find key_refl xs u.1)),
    )
