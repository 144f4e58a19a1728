-- ===== src/Common/Dict.antt =====
-- JavaScript's `Set` and `Map` over number keys, in insertion order.
use stellar_voice_control_pr.Common.{
  ℕ, ◌≡◌, refl, ◌≢◌, Bool, false, Option, none, some, List, [], ◌∷◌, arith, ◌==◌, if◌then◌else◌,
  ◌||◌,
}

-- `set.has(k)` and `array.includes(k)`
abbrev pub has : ℕ → List ℕ → Bool
has k [] = false
has k (j ∷ s) = k == j || has k s

-- `set.delete(k)` of a set, which lists no key twice
abbrev pub delete : ℕ → List ℕ → List ℕ
delete k [] = []
delete k (j ∷ s) = if k == j then s else j ∷ delete k s

module _ {ℓ} {V : Type ℓ} where
  -- `map.get(k)`
  abbrev pub get : ℕ → List (ℕ × V) → Option V
  get k [] = none
  get k ((j, v) ∷ m) = if k == j then some v else get k m

  -- `map.set(k, v)`: a known key keeps its place
  abbrev pub put : ℕ → V → List (ℕ × V) → List (ℕ × V)
  put k v [] = (k, v) ∷ []
  put k v (e ∷ m) = if k == e.0 then (k, v) ∷ m else e ∷ put k v m

  -- `map.delete(k)`
  abbrev pub drop_key : ℕ → List (ℕ × V) → List (ℕ × V)
  drop_key k [] = []
  drop_key k (e ∷ m) = if k == e.0 then m else e ∷ drop_key k m

  pub get-put_self : (k : ℕ) (v : V) (m : List (ℕ × V)) → get k (put k v m) ≡ some v
  get-put_self k v [] = ground arith
  get-put_self k v (e ∷ m) = ground (arith, get-put_self k v m)

  pub get-put_ne : (j k : ℕ) (v : V) (m : List (ℕ × V)) → j ≢ k → get j (put k v m) ≡ get j m
  get-put_ne j k v [] h = ground arith
  get-put_ne j k v (e ∷ m) h = ground (arith, get-put_ne j k v m h)

  pub get-drop_key_ne : (j k : ℕ) (m : List (ℕ × V)) → j ≢ k → get j (drop_key k m) ≡ get j m
  get-drop_key_ne j k [] h = refl
  get-drop_key_ne j k (e ∷ m) h = ground (arith, get-drop_key_ne j k m h)
