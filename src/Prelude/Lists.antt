-- ===== src/Prelude/Lists.antt =====
-- Lists measured by native numbers, and Python's `any` and `sum` over a test.
use Prim.Native.Nat.{ℕ, zero, suc, ◌+◌}
use mathlib.Core.Path.{◌≡◌, refl, ap, sym, ◌∙◌}
use mathlib.Core.Bool.{Bool, false, ◌||◌}
use mathlib.Core.Option.{Option, none, some}
use mathlib.Core.Logic.{◌⊎◌, inl, inr}
use mathlib.Core.List.{List, [], ◌∷◌, ◌++◌, append_assoc, append-nil}
use native.Mathlib.Omega.{arith}
use modern_data_platform.Prelude.Tests.{if◌then◌else◌}

module _ {ℓ} {A : Type ℓ} where
  abbrev pub length : List A → ℕ
  length [] = 0
  length (x ∷ xs) = suc (length xs)

  abbrev pub take : ℕ → List A → List A
  take zero xs = []
  take (suc n) [] = []
  take (suc n) (x ∷ xs) = x ∷ take n xs

  abbrev pub drop : ℕ → List A → List A
  drop zero xs = xs
  drop (suc n) [] = []
  drop (suc n) (x ∷ xs) = drop n xs

  abbrev pub replicate : ℕ → A → List A
  replicate zero a = []
  replicate (suc n) a = a ∷ replicate n a

  pub replicate-snoc : (n : ℕ) (a : A) → replicate n a ++ a ∷ [] ≡ a ∷ replicate n a
  replicate-snoc zero a = refl
  replicate-snoc (suc n) a = ap (λ xs. a ∷ xs) (replicate-snoc n a)

  -- `xs[-1] if xs else None`
  abbrev pub last? : List A → Option A
  last? [] = none
  last? (x ∷ []) = some x
  last? (x ∷ y ∷ xs) = last? (y ∷ xs)

  pub last?-append : (xs : List A) (y : A) → last? (xs ++ y ∷ []) ≡ some y
  last?-append [] y = refl
  last?-append (x ∷ []) y = refl
  last?-append (x ∷ z ∷ xs) y = last?-append (z ∷ xs) y

  pub length-append : (xs ys : List A) → length (xs ++ ys) ≡ length xs + length ys
  length-append [] ys = omega arith
  length-append (x ∷ xs) ys = omega (arith, length-append xs ys)

  abbrev pub any : (A → Bool) → List A → Bool
  any p [] = false
  any p (x ∷ xs) = p x || any p xs

  -- sum(1 for x in xs if p(x))
  abbrev pub count : (A → Bool) → List A → ℕ
  count p [] = 0
  count p (x ∷ xs) = (if p x then 1 else 0) + count p xs

  pub count-append : (p : A → Bool) (xs ys : List A) → count p (xs ++ ys) ≡ count p xs + count p ys
  count-append p [] ys = omega arith
  count-append p (x ∷ xs) ys = omega (arith, count-append p xs ys)

  pub any-append : (p : A → Bool) (xs ys : List A) → any p (xs ++ ys) ≡ (any p xs || any p ys)
  any-append p [] ys = refl
  any-append p (x ∷ xs) ys = ground (arith, any-append p xs ys)

  -- A statement of every element, which computes to a tuple.
  abbrev pub All {κ} : (A → Type κ) → List A → Type κ
  All P [] = Unit
  All P (x ∷ xs) = P x × All P xs

  pub All-append {κ} : (P : A → Type κ) (xs ys : List A) → All P xs → All P ys → All P (xs ++ ys)
  All-append P [] ys hx hy = hy
  All-append P (x ∷ xs) ys hx hy = (hx.0, All-append P xs ys hx.1 hy)

module _ {ℓ} {A : Type ℓ} where
  abbrev pub concat : List (List A) → List A
  concat [] = []
  concat (x ∷ xs) = x ++ concat xs

  pub concat-snoc : (xs : List (List A)) (y : List A) → concat (xs ++ y ∷ []) ≡ concat xs ++ y
  concat-snoc [] y = append-nil y
  concat-snoc (x ∷ xs) y = ap (λ r. x ++ r) (concat-snoc xs y) ∙ sym (append_assoc x (concat xs) y)

module _ {A : Type 0} where
  -- The elements of the first list stand in the second, in the same order.
  abbrev pub Sub : List A → List A → Type 0
  Sub [] ys = Unit
  Sub (x ∷ xs) [] = ⊥
  Sub (x ∷ xs) (y ∷ ys) = ((x ≡ y) × Sub xs ys) ⊎ Sub (x ∷ xs) ys

  pub Sub-more : (xs ys : List A) (y : A) → Sub xs ys → Sub xs (ys ++ y ∷ [])
  Sub-more [] ys y h = tt
  Sub-more (x ∷ xs) [] y h = absurd h
  Sub-more (x ∷ xs) (z ∷ ys) y (inl h) = inl (h.0, Sub-more xs ys y h.1)
  Sub-more (x ∷ xs) (z ∷ ys) y (inr h) = inr (Sub-more (x ∷ xs) ys y h)

  one-Sub : (ys : List A) (y : A) → Sub (y ∷ []) (ys ++ y ∷ [])
  one-Sub [] y = inl (refl, tt)
  one-Sub (z ∷ ys) y = inr (one-Sub ys y)

  pub Sub-snoc : (xs ys : List A) (y : A) → Sub xs ys → Sub (xs ++ y ∷ []) (ys ++ y ∷ [])
  Sub-snoc [] ys y h = one-Sub ys y
  Sub-snoc (x ∷ xs) [] y h = absurd h
  Sub-snoc (x ∷ xs) (z ∷ ys) y (inl h) = inl (h.0, Sub-snoc xs ys y h.1)
  Sub-snoc (x ∷ xs) (z ∷ ys) y (inr h) = inr (Sub-snoc (x ∷ xs) ys y h)

  pub Sub-fewer : (xs ys : List A) (y : A) → Sub (xs ++ y ∷ []) ys → Sub xs ys
  Sub-fewer [] ys y h = tt
  Sub-fewer (x ∷ xs) [] y h = h
  Sub-fewer (x ∷ xs) (z ∷ ys) y (inl h) = inl (h.0, Sub-fewer xs ys y h.1)
  Sub-fewer (x ∷ xs) (z ∷ ys) y (inr h) = inr (Sub-fewer (x ∷ xs) ys y h)
