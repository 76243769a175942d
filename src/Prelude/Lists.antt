-- ===== src/Prelude/Lists.antt =====
-- Lists with Boolean predicates: JavaScript's `filter`, `find`, `some`, and a predicate on all.
use Prim.Native.Nat.{ℕ, suc}
use mathlib.Core.Path.{◌≡◌, refl, sym}
use mathlib.Core.Bool.{Bool, true, false, ◌||◌}
use mathlib.Core.Option.{Option, none, some}
use mathlib.Core.List.{List, [], ◌∷◌}
use native.Mathlib.Omega.{arith}
use mathlib.Core.Logic.{◌⊎◌, inl, inr}
use cyberlegion.Prelude.Tests.{if◌then◌else◌, Bool-cases, some-injective}

module _ {ℓ} {A : Type ℓ} where
  abbrev pub length : List A → ℕ
  length [] = 0
  length (x ∷ xs) = suc (length xs)

  abbrev pub filter : (A → Bool) → List A → List A
  filter p [] = []
  filter p (x ∷ xs) = let rest = filter p xs in if p x then x ∷ rest else rest

  abbrev pub find : (A → Bool) → List A → Option A
  find p [] = none
  find p (x ∷ xs) = if p x then some x else find p xs

  -- `xs.some(p)`
  abbrev pub any : (A → Bool) → List A → Bool
  any p [] = false
  any p (x ∷ xs) = p x || any p xs

  abbrev pub All {κ} : (A → Type κ) → List A → Type κ
  All P [] = Unit
  All P (x ∷ xs) = P x × All P xs

  pub All-filter {κ} :
      (P : A → Type κ) (p : A → Bool) (xs : List A) → All P xs → All P (filter p xs)
  All-filter P p [] h = tt
  All-filter P p (x ∷ xs) h = ground (arith, All-filter P p xs h.1)

  -- What `filter` keeps passes its test.
  pub filter-All : (p : A → Bool) (xs : List A) → All (λ x. p x ≡ true) (filter p xs)
  filter-All p [] = tt
  filter-All p (x ∷ xs) = ground (arith, filter-All p xs)

  -- What `find` returns passes its test.
  pub find-eq-true : (p : A → Bool) (xs : List A) (a : A) → find p xs ≡ some a → p a ≡ true
  find-eq-true p [] a h = ground arith
  find-eq-true p (x ∷ xs) a h = ground (arith, find-eq-true p xs a)

  pub find-All {κ} :
      (P : A → Type κ) (p : A → Bool) (xs : List A) (a : A) → All P xs → find p xs ≡ some a → P a
  find-All P p [] a h e = ground arith
  find-All P p (x ∷ xs) a h e = ground (arith, find-All P p xs a h.1)

module _ {A : Type 0} where
  -- `a` stands in the list.
  abbrev pub In : A → List A → Type 0
  In a [] = ⊥
  In a (x ∷ xs) = (a ≡ x) ⊎ In a xs

  In-filter_cons :
      (p : A → Bool) (x : A) (xs : List A) (a : A)
      → (In a (filter p xs) → In a xs × (p a ≡ true))
      → (b : Bool) → p x ≡ b
      → In a (if b then x ∷ filter p xs else filter p xs)
      → In a (x ∷ xs) × (p a ≡ true)
  In-filter_cons p x xs a ih true e (inl q) = (inl q, rw q e)
  In-filter_cons p x xs a ih true e (inr q) = (inr (ih q).0, (ih q).1)
  In-filter_cons p x xs a ih false e q = (inr (ih q).0, (ih q).1)

  -- What stands in the filtered list stands in the list, and passes the test.
  pub In-filter : (p : A → Bool) (xs : List A) (a : A) → In a (filter p xs) → In a xs × (p a ≡ true)
  In-filter p [] a h = elim h [ ]
  In-filter p (x ∷ xs) a h = In-filter_cons p x xs a (In-filter p xs a) (p x) refl h

  pub filter-In : (p : A → Bool) (xs : List A) (a : A) → In a xs → p a ≡ true → In a (filter p xs)
  filter-In p [] a h e = h
  filter-In p (x ∷ xs) a (inl q) e = rw (← q, e) (inl refl)
  filter-In p (x ∷ xs) a (inr q) e = elim (Bool-cases (p x)) [
    | inl k ↦ rw k (inr (filter-In p xs a q e))
    | inr k ↦ rw k (filter-In p xs a q e)
  ]

  pub find-In : (p : A → Bool) (xs : List A) (a : A) → find p xs ≡ some a → In a xs × (p a ≡ true)
  find-In p [] a h = absurd (ground arith)
  find-In p (x ∷ xs) a h = elim (Bool-cases (p x)) [
    | inl e ↦ let q : a ≡ x = some-injective (sym (rw e at h)) in (inl q, rw q e)
    | inr e ↦ let r = find-In p xs a (rw e at h) in (inr r.0, r.1)
  ]

  pub find-none : (p : A → Bool) (xs : List A) (a : A) → find p xs ≡ none → In a xs → p a ≡ false
  find-none p [] a h i = elim i [ ]
  find-none p (x ∷ xs) a h (inl q) = rw q (ground arith)
  find-none p (x ∷ xs) a h (inr q) = find-none p xs a (ground arith) q
