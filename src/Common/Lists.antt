-- ===== src/Common/Lists.antt =====
-- Lists measured by native numbers, predicates over lists by recursion, and lists of texts used as
-- JavaScript arrays and sets.
use Prim.Native.Nat.{ℕ, suc, ◌+◌}
use mathlib.Core.Path.{◌≡◌}
use mathlib.Core.Logic.{◌⊎◌, inl, inr}
use mathlib.Core.Bool.{Bool, true, false, ◌&&◌, ◌||◌}
use mathlib.Core.List.{List, [], ◌∷◌, ◌++◌}
use native.Mathlib.Omega.{arith}

module _ {ℓ} {A : Type ℓ} where
  abbrev pub length : List A → ℕ
  length [] = 0
  length (x ∷ xs) = suc (length xs)

  pub length-append : (xs ys : List A) → length (xs ++ ys) ≡ length xs + length ys
  length-append [] ys = omega arith
  length-append (x ∷ xs) ys = omega (arith, length-append xs ys)

  abbrev pub any : (A → Bool) → List A → Bool
  any p [] = false
  any p (x ∷ xs) = p x || any p xs

  abbrev pub every : (A → Bool) → List A → Bool
  every p [] = true
  every p (x ∷ xs) = p x && every p xs

-- A predicate that computes to a tuple, which the tactics read and build.
abbrev pub All {ℓ κ} : {A : Type ℓ} → (A → Type κ) → List A → Type κ
All P [] = Unit
All P (x ∷ xs) = P x × All P xs

module _ {ℓ κ} {A : Type ℓ} (P : A → Type κ) where
  pub All-append : (xs ys : List A) → All P xs → All P ys → All P (xs ++ ys)
  All-append [] ys hx hy = hy
  All-append (x ∷ xs) ys hx hy = (hx.0, All-append xs ys hx.1 hy)

-- One of the list satisfies the predicate.
abbrev pub Has {ℓ} : {A : Type ℓ} → (A → Type 0) → List A → Type 0
Has P [] = ⊥
Has P (x ∷ xs) = P x ⊎ Has P xs

module _ {ℓ} {A : Type ℓ} (P : A → Type 0) where
  pub Has-append : (xs ys : List A) → Has P xs → Has P (xs ++ ys)
  Has-append [] ys h = elim h [ ]
  Has-append (x ∷ xs) ys (inl h) = inl h
  Has-append (x ∷ xs) ys (inr h) = inr (Has-append xs ys h)

  pub Has-last : (xs : List A) (x : A) → P x → Has P (xs ++ x ∷ [])
  Has-last [] x h = inl h
  Has-last (y ∷ xs) x h = inr (Has-last xs x h)

pub All-map {ℓ κ ν} :
    {A : Type ℓ} {P : A → Type κ} {Q : A → Type ν} (xs : List A)
    → ((x : A) → P x → Q x)
    → All P xs
    → All Q xs
All-map [] f h = tt
All-map (x ∷ xs) f h = (f x h.0, All-map xs f h.1)

-- What an element has, one of its list has.
pub All-Has {ℓ} : {A : Type ℓ} (P : A → Type 0) (xs : List A) → All (λ x. P x → Has P xs) xs
All-Has P [] = tt
All-Has P (x ∷ xs) = (λ h. inl h, All-map xs (λ y f h. inr (f h)) (All-Has P xs))
