-- ===== src/Exec/Throws.antt =====
-- Calls that do not throw, and calls that leave the state as it was where they throw.
use cyberlegion.Prelude.{Bool, true, false, if◌then◌else◌, ◌≡◌, inl, inr, sym, ap, ◌∙◌, arith}
use cyberlegion.Exec.{Exec, Error, err, after-err, pure, throw, ◌>>=◌}

module _ {S : Type 0} where
  pub record Total {A : Type 0} (m : Exec S A) : Type 0 where
    pub total : (s t : S) (e : Error) → m s ≡ (err e, t) → ⊥

  pub record Frozen {A : Type 0} (m : Exec S A) : Type 0 where
    pub frozen : (s t : S) (e : Error) → m s ≡ (err e, t) → t ≡ s

  pub Total-bind :
      {A B : Type 0} (m : Exec S A) (f : A → Exec S B)
      → Total m
      → ((a : A) → Total (f a))
      → Total (m >>= f)
  Total-bind m f q k = record {
    total = λ s t e run. elim (after-err (m s) f e t run) [
      | inl x ↦ q.total s t e x
      | inr (a, u, x, y) ↦ (k a).total u t e y
    ];
  }

  pub Total-pure : {A : Type 0} (a : A) → Total (pure a)
  Total-pure a = record { total = λ s t e run. ground (arith, run) }

  -- What follows does not throw, so a throw is the first part's.
  pub Frozen-first :
      {A B : Type 0} (m : Exec S A) (f : A → Exec S B)
      → Frozen m
      → ((a : A) → Total (f a))
      → Frozen (m >>= f)
  Frozen-first m f q k = record {
    frozen = λ s t e run. elim (after-err (m s) f e t run) [
      | inl x ↦ q.frozen s t e x
      | inr (a, u, x, y) ↦ absurd ((k a).total u t e y)
    ];
  }

  -- The first part writes nothing.
  pub Frozen-after :
      {A B : Type 0} (m : Exec S A) (f : A → Exec S B)
      → ((s : S) → (m s).1 ≡ s)
      → ((a : A) → Frozen (f a))
      → Frozen (m >>= f)
  Frozen-after m f same k = record {
    frozen = λ s t e run. elim (after-err (m s) f e t run) [
      | inl x ↦ ap (λ z. z.1) (sym x) ∙ same s
      | inr (a, u, x, y) ↦ (k a).frozen u t e y ∙ ap (λ z. z.1) (sym x) ∙ same s
    ];
  }

  pub Frozen-Total : {A : Type 0} (m : Exec S A) → Total m → Frozen m
  Frozen-Total m q = record { frozen = λ s t e run. absurd (q.total s t e run) }

  pub Frozen-throw : {A : Type 0} (x : Error) → Frozen {A = A} (throw x)
  Frozen-throw x = record { frozen = λ s t e run. ap (λ z. z.1) (sym run) }

  pub Frozen-if :
      {A : Type 0} (b : Bool) (m n : Exec S A) → Frozen m → Frozen n → Frozen (if b then m else n)
  Frozen-if true m n p q = p
  Frozen-if false m n p q = q
