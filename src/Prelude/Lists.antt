-- ===== src/Prelude/Lists.antt =====
-- Lists: length over the native numbers, Boolean searches, and a predicate on every item.
use Prim.Native.Nat.{ℕ, suc, ◌+◌}
use mathlib.Core.Path.{◌≡◌, refl}
use mathlib.Core.Bool.{Bool, true, false, ◌&&◌, ◌||◌}
use mathlib.Core.List.{List, [], ◌∷◌, ◌++◌, map}
use mathlib.Core.Logic.{◌⊎◌, inl, inr}
use native.Mathlib.Omega.{arith}
use jqe.Prelude.Tests.{Bool-cases, if◌then◌else◌}

module _ {ℓ} {A : Type ℓ} where
  abbrev pub length : List A → ℕ
  length [] = 0
  length (x ∷ xs) = suc (length xs)

  -- Python's `any` and `all` over a generator.
  abbrev pub any : (A → Bool) → List A → Bool
  any p [] = false
  any p (x ∷ xs) = p x || any p xs

  abbrev pub all : (A → Bool) → List A → Bool
  all p [] = true
  all p (x ∷ xs) = p x && all p xs

  abbrev pub All {κ} : (A → Type κ) → List A → Type κ
  All P [] = Unit
  All P (x ∷ xs) = P x × All P xs

  -- A comprehension with a condition.
  abbrev pub filter : (A → Bool) → List A → List A
  filter p [] = []
  filter p (x ∷ xs) = let rest = filter p xs in if p x then x ∷ rest else rest

  pub length-append : (xs ys : List A) → length (xs ++ ys) ≡ length xs + length ys
  length-append [] ys = omega arith
  length-append (x ∷ xs) ys = omega (arith, length-append xs ys)

  pub any-append : (p : A → Bool) (xs ys : List A) → any p (xs ++ ys) ≡ (any p xs || any p ys)
  any-append p [] ys = refl
  any-append p (x ∷ xs) ys = ground (arith, any-append p xs ys)

  pub all-All : (p : A → Bool) (xs : List A) → all p xs ≡ true → All (λ x. p x ≡ true) xs
  all-All p [] h = tt
  all-All p (x ∷ xs) h = ground (arith, all-All p xs)

module _ {A : Type 0} where
  abbrev pub Any : (A → Type 0) → List A → Type 0
  Any P [] = ⊥
  Any P (x ∷ xs) = P x ⊎ Any P xs

  pub any-Any : (p : A → Bool) (xs : List A) → any p xs ≡ true → Any (λ x. p x ≡ true) xs
  any-Any p [] h = absurd (ground arith)
  any-Any p (x ∷ xs) h = elim (Bool-cases (p x)) [
    | inl h1 ↦ inl h1
    | inr h0 ↦ inr (any-Any p xs (ground arith))
  ]

  pub Any-map : (P Q : A → Type 0) (xs : List A) → ((x : A) → P x → Q x) → Any P xs → Any Q xs
  Any-map P Q [] f e = elim e [ ]
  Any-map P Q (x ∷ xs) f (inl h) = inl (f x h)
  Any-map P Q (x ∷ xs) f (inr h) = inr (Any-map P Q xs f h)

  -- The first item of a filtered list is an item of the list that passes.
  pub filter-Any :
      (p : A → Bool) (xs ys : List A) (x : A)
      → filter p xs ≡ x ∷ ys
      → Any (λ y. (y ≡ x) × (p y ≡ true)) xs
  filter-Any p [] ys x h = absurd (ground arith)
  filter-Any p (z ∷ xs) ys x h = elim (Bool-cases (p z)) [
    | inl h1 ↦ inl (ground arith, h1)
    | inr h0 ↦ inr (filter-Any p xs ys x (ground arith))
  ]

  pub Any-any : (p : A → Bool) (xs : List A) → Any (λ x. p x ≡ true) xs → any p xs ≡ true
  Any-any p [] e = elim e [ ]
  Any-any p (x ∷ xs) (inl h) = ground arith
  Any-any p (x ∷ xs) (inr h) = ground (arith, Any-any p xs h)

  pub any-filter :
      (p q : A → Bool) (xs : List A)
      → Any (λ x. (p x ≡ true) × (q x ≡ true)) xs
      → any q (filter p xs) ≡ true
  any-filter p q [] e = elim e [ ]
  any-filter p q (x ∷ xs) (inl h) = ground (arith, h.0, h.1)
  any-filter p q (x ∷ xs) (inr h) = ground (arith, any-filter p q xs h)

  pub List-cases : (xs : List A) → (xs ≡ []) ⊎ ((x : A) × (ys : List A) × (xs ≡ x ∷ ys))
  List-cases [] = inl refl
  List-cases (x ∷ xs) = inr (x, xs, refl)

pub Any-of-map :
    {A B : Type 0} (f : A → B) (P : B → Type 0) (xs : List A)
    → Any P (map f xs)
    → Any (λ x. P (f x)) xs
Any-of-map f P [] e = elim e [ ]
Any-of-map f P (x ∷ xs) (inl h) = inl h
Any-of-map f P (x ∷ xs) (inr h) = inr (Any-of-map f P xs h)

pub Any-to-map :
    {A B : Type 0} (f : A → B) (P : B → Type 0) (xs : List A)
    → Any (λ x. P (f x)) xs
    → Any P (map f xs)
Any-to-map f P [] e = elim e [ ]
Any-to-map f P (x ∷ xs) (inl h) = inl h
Any-to-map f P (x ∷ xs) (inr h) = inr (Any-to-map f P xs h)
