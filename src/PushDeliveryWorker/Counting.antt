-- ===== src/PushDeliveryWorker/Counting.antt =====
-- Counting the rows that pass a test, while some are rewritten.
use codex_app.Prelude.{
  ◌≡◌, ◌≤◌, ◌<◌, refl, Bool, true, false, ◌&&◌, ◌||◌, List, [], ◌∷◌, arith, any_by, count_by,
  filter_by, update_where, inl, inr, Bool-cases, if◌then◌else◌, All, All-map,
}
use codex_app.Database.Schema.{Tables}
use codex_app.Bridge.{Action}
use codex_app.Bridge.Rules.{Stays}

pub if-Stays :
    {A : Type 0} {P : Tables → Type 0} (c : Bool) {m n : Action A}
    → Stays P m
    → Stays P n
    → Stays P (if c then m else n)
if-Stays true k l = k
if-Stays false k l = l

module _ {A : Type 0} (p k : A → Bool) (f : A → A) (out : (x : A) → p (f x) ≡ false) where
  -- Rewriting rows into rows that fail the test leaves no more rows that pass it,
  pub count_by-update_where_le :
      (rows : List A) → count_by p (update_where k f rows) ≤ count_by p rows
  count_by-update_where_le [] = omega arith
  count_by-update_where_le (x ∷ rows) = elim (Bool-cases (k x)) [
    | inl e ↦ rw (e, out x) (omega (arith, count_by-update_where_le rows))
    | inr e ↦ rw e (omega (arith, count_by-update_where_le rows))
  ]

  -- and fewer if one that passes it was rewritten.
  pub count_by-update_where_lt :
      (rows : List A)
      → any_by (λ x. p x && k x) rows ≡ true
      → count_by p (update_where k f rows) < count_by p rows
  count_by-update_where_lt [] h = cc
  count_by-update_where_lt (x ∷ rows) h = elim (Bool-cases (k x)) [
    | inl e ↦ elim (Bool-cases (p x)) [
      | inl a ↦ rw (e, out x, a) (omega (arith, count_by-update_where_le rows))
      | inr a ↦ rw (e, out x, a) (omega (arith, count_by-update_where_lt rows (rw a at h)))
    ]
    | inr e ↦ rw e (omega (arith, count_by-update_where_lt rows (skipped (p x) (k x) _ e h)))
  ]
    where
      skipped : (a c r : Bool) → c ≡ false → (a && c || r) ≡ true → r ≡ true
      skipped a c r e g = ground arith

All-if :
    {A : Type 0} (P : A → Type 0) (c : Bool) (x : A) (rest : List A)
    → (c ≡ true → P x)
    → All P rest
    → All P (if c then x ∷ rest else rest)
All-if P true x rest h k = (h refl, k)
All-if P false x rest h k = k

or_true : (a b : Bool) → b ≡ true → (a || b) ≡ true
or_true a b h = ground arith

-- The rows that pass a test are among the rows.
module _ {A : Type 0} (p : A → Bool) (k : A → A → Bool) (reflexive : (x : A) → k x x ≡ true) where
  pub filter_by-among :
      (rows : List A) → All (λ x. any_by (λ y. p y && k x y) rows ≡ true) (filter_by p rows)
  filter_by-among [] = tt
  filter_by-among (x ∷ rows) =
      let later : All (λ z. any_by (λ y. p y && k z y) (x ∷ rows) ≡ true) (filter_by p rows) =
        All-map _ _ (filter_by p rows) (λ z h. or_true (p x && k z x) _ h) (filter_by-among rows) in
      All-if _ (p x) x (filter_by p rows) (λ e. rw (e, reflexive x) refl) later
