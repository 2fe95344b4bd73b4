-- ===== src/Prelude/Lists.antt =====
-- Lists measured and searched by Boolean tests, and predicates on their elements.
use Prim.Native.Nat.{ℕ, zero, suc, ◌+◌, ◌-◌, ◌≤◌}
use Prim.Native.String.{String}
use mathlib.Core.Path.{◌≡◌, refl, sym, ◌∙◌, subst}
use mathlib.Core.Logic.{inl, inr}
use mathlib.Core.Bool.{Bool, true, false, ◌||◌, true≢false}
use mathlib.Core.Option.{Option, none, some}
use mathlib.Core.List.{List, [], ◌∷◌, ◌++◌}
use native.Mathlib.Nat.{le_trans}
use native.Mathlib.Omega.{arith}
use text.Mathlib.Text.{◌==◌}
use codex_app.Prelude.Tests.{if◌then◌else◌, Bool-cases, some_eq}

module _ {ℓ} {A : Type ℓ} where
  abbrev pub length : List A → ℕ
  length [] = 0
  length (x ∷ xs) = suc (length xs)

  abbrev pub drop : ℕ → List A → List A
  drop zero xs = xs
  drop (suc n) [] = []
  drop (suc n) (x ∷ xs) = drop n xs

  abbrev pub filter_by : (A → Bool) → List A → List A
  filter_by p [] = []
  filter_by p (x ∷ xs) = let rest = filter_by p xs in if p x then x ∷ rest else rest

  abbrev pub any_by : (A → Bool) → List A → Bool
  any_by p [] = false
  any_by p (x ∷ xs) = p x || any_by p xs

  abbrev pub count_by : (A → Bool) → List A → ℕ
  count_by p [] = 0
  count_by p (x ∷ xs) = (if p x then 1 else 0) + count_by p xs

  -- Insertion sort by a "not after" test; it is stable.
  abbrev pub insert_by : (A → A → Bool) → A → List A → List A
  insert_by le x [] = x ∷ []
  insert_by le x (y ∷ ys) = let rest = insert_by le x ys in if le x y then x ∷ y ∷ ys else y ∷ rest

  unfoldable pub sort_by : (A → A → Bool) → List A → List A
  sort_by le [] = []
  sort_by le (x ∷ xs) = insert_by le x (sort_by le xs)

  -- `ORDER BY … LIMIT 1`: the first row of the sorted rows.
  unfoldable pub first_by : (A → A → Bool) → List A → Option A
  first_by le [] = none
  first_by le (x ∷ xs) = elim (first_by le xs) [
    | none ↦ some x
    | some m ↦ if le x m then some x else some m
  ]

  abbrev pub All {κ} : (A → Type κ) → List A → Type κ
  All P [] = Unit
  All P (x ∷ xs) = P x × All P xs

  pub length-append : (xs ys : List A) → length (xs ++ ys) ≡ length xs + length ys
  length-append [] ys = omega arith
  length-append (x ∷ xs) ys = omega (arith, length-append xs ys)

  pub length-drop : (n : ℕ) (xs : List A) → length (drop n xs) ≡ length xs - n
  length-drop zero xs = omega arith
  length-drop (suc n) [] = omega arith
  length-drop (suc n) (x ∷ xs) = omega (arith, length-drop n xs)

  pub All-append {κ} : (P : A → Type κ) (xs ys : List A) → All P xs → All P ys → All P (xs ++ ys)
  All-append P [] ys hx hy = hy
  All-append P (x ∷ xs) ys hx hy = (hx.0, All-append P xs ys hx.1 hy)

  pub All-map {κ μ} :
      (P : A → Type κ) (Q : A → Type μ) (xs : List A) → ((x : A) → P x → Q x) → All P xs → All Q xs
  All-map P Q [] f h = tt
  All-map P Q (x ∷ xs) f h = (f x h.0, All-map P Q xs f h.1)

  pub All-insert_by {κ} :
      (P : A → Type κ) (le : A → A → Bool) (x : A) (xs : List A)
      → P x
      → All P xs
      → All P (insert_by le x xs)
  All-insert_by P le x [] px h = (px, tt)
  All-insert_by P le x (y ∷ ys) px h = elim (Bool-cases (le x y)) [
    | inl e ↦ rw e (px, (h.0, h.1))
    | inr e ↦ rw e (h.0, All-insert_by P le x ys px h.1)
  ]

  pub All-sort_by {κ} :
      (P : A → Type κ) (le : A → A → Bool) (xs : List A) → All P xs → All P (sort_by le xs)
  unfolding sort_by
  All-sort_by P le [] h = tt
  All-sort_by P le (x ∷ xs) h = All-insert_by P le x (sort_by le xs) h.0 (All-sort_by P le xs h.1)

  -- What survives a filter passes its test and had what every element had.
  pub All-filter_by {κ} :
      (P : A → Type κ) (p : A → Bool) (xs : List A)
      → All P xs
      → All (λ x. (p x ≡ true) × P x) (filter_by p xs)
  All-filter_by P p [] h = tt
  All-filter_by P p (x ∷ xs) h = elim (Bool-cases (p x)) [
    | inl e ↦ rw e ((e, h.0), All-filter_by P p xs h.1)
    | inr e ↦ rw e (All-filter_by P p xs h.1)
  ]

  pub count_by-insert_by :
      (q : A → Bool) (le : A → A → Bool) (x : A) (xs : List A)
      → count_by q (insert_by le x xs) ≡ count_by q (x ∷ xs)
  count_by-insert_by q le x [] = refl
  count_by-insert_by q le x (y ∷ ys) = elim (Bool-cases (le x y)) [
    | inl e ↦ rw e
    | inr e ↦ rw e (omega (arith, count_by-insert_by q le x ys))
  ]

  pub count_by-sort_by :
      (q : A → Bool) (le : A → A → Bool) (xs : List A) → count_by q (sort_by le xs) ≡ count_by q xs
  unfolding sort_by
  count_by-sort_by q le [] = refl
  count_by-sort_by q le (x ∷ xs) =
      omega (arith, count_by-insert_by q le x (sort_by le xs), count_by-sort_by q le xs)

-- `contains` of a list of texts.
abbrev pub contains : List String → String → Bool
contains xs a = any_by (λ x. x == a) xs

module _ {ℓ} {A : Type ℓ} where
  pub first_by-eq_none : (le : A → A → Bool) (xs : List A) → first_by le xs ≡ none → xs ≡ []
  unfolding first_by
  first_by-eq_none le [] h = refl
  first_by-eq_none le (x ∷ xs) h = ground arith

module _ {ℓ κ} {A : Type ℓ} (P : A → Type κ) where
  -- The first of some rows is one of them.
  pub first_by-All :
      (le : A → A → Bool) (xs : List A) {m : A} → first_by le xs ≡ some m → All P xs → P m
  unfolding first_by
  first_by-All le [] h all = cc
  first_by-All le (x ∷ xs) {m} h all = go (first_by le xs) (λ k e. first_by-All le xs e all.1) h
    where
      go :
          (o : Option A)
          → ((k : A) → o ≡ some k → P k)
          → (elim o [ none ↦ some x | some k ↦ if le x k then some x else some k ]) ≡ some m
          → P m
      go none rest e = subst P (some_eq e) all.0
      go (some k) rest e = elim (Bool-cases (le x k)) [
        | inl t ↦ subst P (some_eq (rw t at e)) all.0
        | inr t ↦ subst P (some_eq (rw t at e)) (rest k refl)
      ]

-- Where the test orders by a number first, the first row has the least.
module _ {ℓ} {A : Type ℓ} (le : A → A → Bool) (rank : A → ℕ) where
  pub first_by_least :
      ((x y : A) → le x y ≡ true → rank x ≤ rank y)
      → ((x y : A) → le x y ≡ false → rank y ≤ rank x)
      → (xs : List A) {m : A} → first_by le xs ≡ some m
      → All (λ y. rank m ≤ rank y) xs
  unfolding first_by
  first_by_least yes_le no_le [] h = tt
  first_by_least yes_le no_le (x ∷ xs) {m} h =
      go (first_by le xs) refl (λ k e. first_by_least yes_le no_le xs e) h
    where
      go :
          (o : Option A)
          → first_by le xs ≡ o
          → ((k : A) → o ≡ some k → All (λ y. rank k ≤ rank y) xs)
          → (elim o [ none ↦ some x | some k ↦ if le x k then some x else some k ]) ≡ some m
          → (rank m ≤ rank x) × All (λ y. rank m ≤ rank y) xs
      go none e rest h' =
          let same = some_eq h' in
          subst (λ n. (rank n ≤ rank x) × All (λ y. rank n ≤ rank y) xs) same
            (omega arith, rw (first_by-eq_none le xs e) tt)
      go (some k) e rest h' = elim (Bool-cases (le x k)) [
        | inl t ↦
            subst (λ n. (rank n ≤ rank x) × All (λ y. rank n ≤ rank y) xs) (some_eq (rw t at h'))
              (omega arith, All-map _ _ xs (λ y h. le_trans (yes_le x k t) h) (rest k refl))
        | inr t ↦
            subst (λ n. (rank n ≤ rank x) × All (λ y. rank n ≤ rank y) xs) (some_eq (rw t at h'))
              (no_le x k t, rest k refl)
      ]

module _ {ℓ} {A : Type ℓ} where
  pub All-of_not_any :
      (p : A → Bool) (xs : List A) → any_by p xs ≡ false → All (λ x. p x ≡ false) xs
  All-of_not_any p [] h = tt
  All-of_not_any p (x ∷ xs) h = (ground arith, All-of_not_any p xs (ground arith))

  pub not_any_of_All :
      (p : A → Bool) (xs : List A) → All (λ x. p x ≡ false) xs → any_by p xs ≡ false
  not_any_of_All p [] h = refl
  not_any_of_All p (x ∷ xs) h = rw h.0 (not_any_of_All p xs h.1)

  pub All-both {κ μ} :
      (P : A → Type κ) (Q : A → Type μ) (xs : List A)
      → All P xs
      → All Q xs
      → All (λ x. P x × Q x) xs
  All-both P Q [] hp hq = tt
  All-both P Q (x ∷ xs) hp hq = ((hp.0, hq.0), All-both P Q xs hp.1 hq.1)

module _ {ℓ κ} {A : Type ℓ} (P : A → Type κ) (p : A → Bool) where
  pub filter_by-All : (xs : List A) → All P (filter_by p xs) → All (λ x. p x ≡ true → P x) xs
  filter_by-All [] h = tt
  filter_by-All (x ∷ xs) h = elim (Bool-cases (p x)) [
    | inl e ↦ let k : P x × All P (filter_by p xs) = rw e at h in (λ _. k.0, filter_by-All xs k.1)
    | inr e ↦
        let k : All P (filter_by p xs) = rw e at h in
        (λ t. absurd (true≢false (sym t ∙ e)), filter_by-All xs k)
  ]

module _ {ℓ} {A : Type ℓ} (p : A → Bool) where
  pub filter_by-eq_nil : (xs : List A) → filter_by p xs ≡ [] → any_by p xs ≡ false
  filter_by-eq_nil [] h = refl
  filter_by-eq_nil (x ∷ xs) h = ground (arith, filter_by-eq_nil xs)

-- The numbers of a list of rows do not grow.
module _ {ℓ} {A : Type ℓ} (rank : A → ℕ) where
  abbrev pub Descending : List A → Type 0
  Descending [] = Unit
  Descending (x ∷ xs) = All (λ y. rank y ≤ rank x) xs × Descending xs

  module _ (le : A → A → Bool) (yes_ge : (x y : A) → le x y ≡ true → rank y ≤ rank x)
      (no_le : (x y : A) → le x y ≡ false → rank x ≤ rank y) where
    insert_by-Descending : (x : A) (xs : List A) → Descending xs → Descending (insert_by le x xs)
    insert_by-Descending x [] d = (tt, tt)
    insert_by-Descending x (y ∷ ys) d = elim (Bool-cases (le x y)) [
      | inl e ↦ rw e ((yes_ge x y e, All-map _ _ ys (λ z h. le_trans h (yes_ge x y e)) d.0), d)
      | inr e ↦ rw e (
        All-insert_by (λ z. rank z ≤ rank y) le x ys (no_le x y e) d.0,
        insert_by-Descending x ys d.1,
      )
    ]

    pub sort_by-Descending : (xs : List A) → Descending (sort_by le xs)
    unfolding sort_by
    sort_by-Descending [] = tt
    sort_by-Descending (x ∷ xs) = insert_by-Descending x (sort_by le xs) (sort_by-Descending xs)
