-- ===== src/Prelude/Effects.antt =====
-- Methods that change a state and may fail. What was written before a failure stays written.

pub data Result (E A : Type 0) : Type 0 where
  ok : A → Result E A
  err : E → Result E A

abbrev pub Exec : Type 0 → Type 0 → Type 0 → Type 0
Exec E S A = S → Result E A × S

module _ {E S A : Type 0} where
  abbrev pub pure : A → Exec E S A
  pure a s = (ok a, s)

  abbrev pub raise : E → Exec E S A
  raise e s = (err e, s)

module _ {E S A B : Type 0} where
  abbrev pub continue : Result E A × S → (A → Exec E S B) → Result E B × S
  continue (ok a, s) f = f a s
  continue (err e, s) f = (err e, s)

  infixl 5 ◌>>=◌ ◌>>◌
  abbrev pub ◌>>=◌ : Exec E S A → (A → Exec E S B) → Exec E S B
  ◌>>=◌ m f s = continue (m s) f

  abbrev pub ◌>>◌ : Exec E S A → Exec E S B → Exec E S B
  m >> n = m >>= λ _. n

abbrev pub IsOk : {E A : Type 0} → Result E A → Type 0
IsOk (ok a) = Unit
IsOk (err e) = ⊥

-- Whatever the outcome, the action keeps a property of the state.
pub record Preserves {E S A : Type 0} (I : S → Type 0) (m : Exec E S A) : Type 0 where
  pub at : (s : S) → I s → I (m s).1

module _ {E S A : Type 0} {I : S → Type 0} where
  pub Preserves-pure : (a : A) → Preserves I (pure {E = E} a)
  Preserves-pure a = record { at = λ s h. h }

  pub Preserves-raise : (e : E) → Preserves I (raise {A = A} e)
  Preserves-raise e = record { at = λ s h. h }

module _ {E S A B : Type 0} {I : S → Type 0} where
  continue-Preserves :
      (r : Result E A) (s : S) (f : A → Exec E S B)
      → ((a : A) → Preserves I (f a))
      → I s
      → I (continue (r, s) f).1
  continue-Preserves (ok a) s f k h = (k a).at s h
  continue-Preserves (err e) s f k h = h

  pub Preserves-bind :
      (m : Exec E S A) (f : A → Exec E S B)
      → Preserves I m
      → ((a : A) → Preserves I (f a))
      → Preserves I (m >>= f)
  Preserves-bind m f k l = record {
    at = λ s h. let (r, s') = m s in continue-Preserves r s' f l (k.at s h);
  }
