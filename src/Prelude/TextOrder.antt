-- ===== src/Prelude/TextOrder.antt =====
-- `text_le` is a total order, and sorts by a text.
use Prim.Native.Nat.{Ordering, compare as compare_nat}
use Prim.Native.Char.{Char, code}
use Prim.Native.String.{String, compare as compare_text, then}
use Prim.Native.String.compare
use mathlib.Core.Path.{◌≡◌, refl, sym, ◌∙◌}
use mathlib.Core.Logic.{inl, inr}
use mathlib.Core.Bool.{Bool, true, false, ◌&&◌, ◌||◌}
use mathlib.Core.List.{List, [], ◌∷◌}
use native.Mathlib.Omega.{arith}
use text.Mathlib.Text.{is_le}
use codex_app.Prelude.Tests.{text_le, ltb, nat_eq, Bool-cases}
use codex_app.Prelude.Lists.{All, All-map, All-insert_by, insert_by, sort_by, filter_by}

true≢false : ¬ (true ≡ false)
true≢false h = cc

by_first :
    (o o' : Ordering)
    → is_le (then o o') ≡ (
        elim o [ Ordering.lt ↦ true | _ ↦ false ]
        || (elim o [ Ordering.eq ↦ true | _ ↦ false ] && is_le o'))
by_first Ordering.lt o' = refl
by_first Ordering.eq o' = refl
by_first Ordering.gt o' = refl

text_le-cons :
    (c d : Char) (s t : String)
    → text_le (String.◌∷◌ c s) (String.◌∷◌ d t)
      ≡ (ltb (code c) (code d) || (nat_eq (code c) (code d) && text_le s t))
text_le-cons c d s t =
    rw (compare.cons-cons c d s t) (by_first (compare_nat (code c) (code d)) (compare_text s t))

nil-text_le : (t : String) → text_le String.[] t ≡ true
nil-text_le String.[] = refl
nil-text_le (String.◌∷◌ d t) = rw (compare.nil-cons d t) refl

cons_not_le : (c : Char) (s : String) → text_le (String.◌∷◌ c s) String.[] ≡ false
cons_not_le c s = rw (compare.cons-nil c s) refl

text_le_total : (a b : String) → text_le a b ≡ false → text_le b a ≡ true
text_le_total String.[] b h = absurd (true≢false (sym (nil-text_le b) ∙ h))
text_le_total (String.◌∷◌ c s) String.[] h = nil-text_le (String.◌∷◌ c s)
text_le_total (String.◌∷◌ c s) (String.◌∷◌ d t) h =
    let first = sym (text_le-cons c d s t) ∙ h in
    text_le-cons d c t s ∙ ground (arith, text_le_total s t)

text_le_trans : (a b c : String) → text_le a b ≡ true → text_le b c ≡ true → text_le a c ≡ true
text_le_trans String.[] b c h k = nil-text_le c
text_le_trans (String.◌∷◌ x s) String.[] c h k = absurd (true≢false (sym h ∙ cons_not_le x s))
text_le_trans (String.◌∷◌ x s) (String.◌∷◌ y t) String.[] h k =
    absurd (true≢false (sym k ∙ cons_not_le y t))
text_le_trans (String.◌∷◌ x s) (String.◌∷◌ y t) (String.◌∷◌ z u) h k =
    let first = sym (text_le-cons x y s t) ∙ h in
    let second = sym (text_le-cons y z t u) ∙ k in
    text_le-cons x z s u ∙ ground (arith, text_le_trans s t u)

-- The texts of a list of rows do not fall.
module _ {ℓ} {A : Type ℓ} (name : A → String) where
  abbrev pub TextAscending : List A → Type 0
  TextAscending [] = Unit
  TextAscending (x ∷ xs) = All (λ y. text_le (name x) (name y) ≡ true) xs × TextAscending xs

  insert_by-TextAscending :
      (x : A) (xs : List A)
      → TextAscending xs
      → TextAscending (insert_by (λ a b. text_le (name a) (name b)) x xs)
  insert_by-TextAscending x [] d = (tt, tt)
  insert_by-TextAscending x (y ∷ ys) d = elim (Bool-cases (text_le (name x) (name y))) [
    | inl e ↦
        rw e ((e, All-map _ _ ys (λ z h. text_le_trans (name x) (name y) (name z) e h) d.0), d)
    | inr e ↦ rw e (
      All-insert_by (λ z. text_le (name y) (name z) ≡ true) (λ a b. text_le (name a) (name b)) x ys
          (text_le_total (name x) (name y) e) d.0,
      insert_by-TextAscending x ys d.1,
    )
  ]

  pub sort_by-TextAscending :
      (xs : List A) → TextAscending (sort_by (λ a b. text_le (name a) (name b)) xs)
  unfolding sort_by
  sort_by-TextAscending [] = tt
  sort_by-TextAscending (x ∷ xs) =
      insert_by-TextAscending x (sort_by _ xs) (sort_by-TextAscending xs)

  All_filtered : (P : A → Type 0) (p : A → Bool) (xs : List A) → All P xs → All P (filter_by p xs)
  All_filtered P p [] h = tt
  All_filtered P p (x ∷ xs) h = elim (Bool-cases (p x)) [
    | inl e ↦ rw e (h.0, All_filtered P p xs h.1)
    | inr e ↦ rw e (All_filtered P p xs h.1)
  ]

  pub filter_by-TextAscending :
      (p : A → Bool) (xs : List A) → TextAscending xs → TextAscending (filter_by p xs)
  filter_by-TextAscending p [] d = tt
  filter_by-TextAscending p (x ∷ xs) d = elim (Bool-cases (p x)) [
    | inl e ↦ rw e (All_filtered _ p xs d.0, filter_by-TextAscending p xs d.1)
    | inr e ↦ rw e (filter_by-TextAscending p xs d.1)
  ]
