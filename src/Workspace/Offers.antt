-- ===== src/Workspace/Offers.antt =====
-- What lists of workspaces contain.
use Prim.Native.String.{compare as compare_text}
use Prim.Native.Nat.{Ordering}
use text.Mathlib.Text.{is_eq}
use mathlib.Core.Path.{subst}
use codex_app.Protocol.{WorkspaceOption}
use codex_app.Json.{filter_map}
use codex_app.Workspace.{by_order, insert_text, sorted_set}
use codex_app.Prelude.{
  String, Bool, true, false, ◌||◌, Option, none, some, List, [], ◌∷◌, ◌==◌, ◌≡◌, refl, sym, ap, ◌∙◌,
  eq_iff, map, any_by, arith, Bool-cases, inl, inr,
}

false≢true : ¬ (false ≡ true)
false≢true h = cc

or_true : (b : Bool) → (b || true) ≡ true
or_true true = refl
or_true false = refl

-- Whether a text is in a list.
abbrev pub has : String → List String → Bool
has w xs = any_by (λ x. x == w) xs

has-by_order :
    (w x y : String) (ys rest : List String)
    → has w rest ≡ (x == w || has w ys)
    → (o : Ordering) → compare_text x y ≡ o
    → has w (by_order o (x ∷ y ∷ ys) (y ∷ ys) (y ∷ rest)) ≡ (x == w || has w (y ∷ ys))
has-by_order w x y ys rest ih Ordering.lt e = refl
has-by_order w x y ys rest ih Ordering.eq e =
    let same : x ≡ y = (eq_iff x y).0 (ap is_eq e) in
    subst (λ z. has w (y ∷ ys) ≡ (z == w || has w (y ∷ ys))) (sym same) (ground arith)
has-by_order w x y ys rest ih Ordering.gt e = ground arith

has-insert_text :
    (w x : String) (ys : List String) → has w (insert_text x ys) ≡ (x == w || has w ys)
has-insert_text w x [] = refl
has-insert_text w x (y ∷ ys) =
    has-by_order w x y ys (insert_text x ys) (has-insert_text w x ys) (compare_text x y) refl

pub has-sorted_set : (w : String) (xs : List String) → has w (sorted_set xs) ≡ has w xs
has-sorted_set w [] = refl
has-sorted_set w (x ∷ xs) =
    has-insert_text w x (sorted_set xs) ∙ ap (λ b. x == w || b) (has-sorted_set w xs)

-- Whether a workspace is offered.
abbrev pub offers : String → List WorkspaceOption → Bool
offers w options = any_by (λ o. o.cwd == w) options

pub offers-has :
    (w : String) (xs : List String) → offers w (map (λ cwd. record { cwd = cwd }) xs) ≡ has w xs
offers-has w [] = refl
offers-has w (x ∷ xs) = ap (λ b. x == w || b) (offers-has w xs)

-- An element of a mapped list is the image of one.
pub filter_map-has :
    (f : String → Option String) (w : String) (xs : List String)
    → has w (filter_map f xs) ≡ true
    → (x : String) × (f x ≡ some w)
filter_map-has f w [] h = cc
filter_map-has f w (x ∷ xs) h = go (filter_map-has f w xs) (f x) refl h
  where
    go :
        (has w (filter_map f xs) ≡ true → (y : String) × (f y ≡ some w))
        → (o : Option String) → f x ≡ o
        → has w (elim o [ none ↦ filter_map f xs | some y ↦ y ∷ filter_map f xs ]) ≡ true
        → (y : String) × (f y ≡ some w)
    go skip none e k = skip k
    go skip (some y) e k = elim (Bool-cases (y == w)) [
      | inl m ↦ (x, e ∙ ap some ((eq_iff y w).0 m))
      | inr m ↦ skip (rw m at k)
    ]

-- What a change of texts makes of a list.
pub has-map :
    (f : String → String) (w : String) (xs : List String)
    → has w xs ≡ true
    → has (f w) (map f xs) ≡ true
has-map f w [] h = absurd (false≢true h)
has-map f w (x ∷ xs) h = elim (Bool-cases (x == w)) [
  | inl e ↦ let same = ap f ((eq_iff x w).0 e) in rw ((eq_iff (f x) (f w)).1 same) refl
  | inr e ↦ let rest = rw e at h in rw (has-map f w xs rest) (or_true (f x == f w))
]

pub filter_map-fixed :
    (f : String → Option String) (g : String → String)
    → ((p c : String) → f p ≡ some c → g c ≡ c)
    → (xs : List String) → map g (filter_map f xs) ≡ filter_map f xs
filter_map-fixed f g fixed [] = refl
filter_map-fixed f g fixed (x ∷ xs) = go (filter_map-fixed f g fixed xs) (f x) refl
  where
    go :
        map g (filter_map f xs) ≡ filter_map f xs
        → (o : Option String) → f x ≡ o
        → map g (elim o [ none ↦ filter_map f xs | some y ↦ y ∷ filter_map f xs ])
          ≡ elim o [ none ↦ filter_map f xs | some y ↦ y ∷ filter_map f xs ]
    go ih none e = ih
    go ih (some y) e = rw (fixed x y e, ih) refl
