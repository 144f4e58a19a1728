-- ===== src/Common/Action.antt =====
-- Computations that read and change a state and may throw: JavaScript's `async` functions over
-- shared objects, with their calls in the order of the source.
use stellar_voice_control_pr.Common.{Result, ok, err}

module _ {ℓ κ} {S : Type ℓ} {E : Type κ} where
  abbrev pub pure {ν} : {A : Type ν} → A → S → Result E A × S
  pure a s = (ok a, s)

  abbrev pub throw {ν} : {A : Type ν} → E → S → Result E A × S
  throw e s = (err e, s)

  infixl 5 ◌>>=◌ ◌>>◌
  abbrev pub ◌>>=◌ {ν ξ} :
      {A : Type ν} {B : Type ξ}
      → (S → Result E A × S)
      → (A → S → Result E B × S)
      → S
      → Result E B × S
  ◌>>=◌ m f s = let (r, s') = m s in elim r [ ok a ↦ f a s' | err e ↦ (err e, s') ]

  abbrev pub ◌>>◌ {ν ξ} :
      {A : Type ν} {B : Type ξ} → (S → Result E A × S) → (S → Result E B × S) → S → Result E B × S
  m >> k = m >>= λ _. k

  -- `try { … } catch (error) { … }`
  abbrev pub try_catch {ν} :
      {A : Type ν} → (S → Result E A × S) → (E → S → Result E A × S) → S → Result E A × S
  try_catch m h s = let (r, s') = m s in elim r [ ok a ↦ (ok a, s') | err e ↦ h e s' ]

  -- What holds of `m`'s outcome gives what holds of the whole.
  pub >>=_rule {ν ξ μ π} :
      {A : Type ν} {B : Type ξ} (Q : Result E A × S → Type μ) (P : Result E B × S → Type π)
      (m : S → Result E A × S) (f : A → S → Result E B × S) (s : S)
      → Q (m s)
      → ((a : A) (t : S) → Q (ok a, t) → P (f a t))
      → ((e : E) (t : S) → Q (err e, t) → P (err e, t))
      → P ((m >>= f) s)
  >>=_rule {A} {B} Q P m f s q on_ok on_err = go (m s) q
    where
      go :
          (x : Result E A × S)
          → Q x
          → P (let (r, t) = x in elim r [ ok a ↦ f a t | err e ↦ (err e, t) ])
      go (ok a, t) h = on_ok a t h
      go (err e, t) h = on_err e t h

  pub try_catch_rule {ν μ π} :
      {A : Type ν} (Q : Result E A × S → Type μ) (P : Result E A × S → Type π)
      (m : S → Result E A × S) (h : E → S → Result E A × S) (s : S)
      → Q (m s)
      → ((a : A) (t : S) → Q (ok a, t) → P (ok a, t))
      → ((e : E) (t : S) → Q (err e, t) → P (h e t))
      → P (try_catch m h s)
  try_catch_rule {A} Q P m h s q on_ok on_err = go (m s) q
    where
      go :
          (x : Result E A × S)
          → Q x
          → P (let (r, t) = x in elim r [ ok a ↦ (ok a, t) | err e ↦ h e t ])
      go (ok a, t) k = on_ok a t k
      go (err e, t) k = on_err e t k
