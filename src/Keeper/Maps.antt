-- ===== src/Keeper/Maps.antt =====
-- The keeper's maps list no key twice, and what the map operations do to a key. Used by the other
-- modules about stellar/src/keeper/keeper.ts.
use stellar_voice_control_pr.Common.{
  ℕ, ◌≡◌, refl, Bool, not, ◌&&◌, none, some, List, [], ◌∷◌, arith, if◌then◌else◌, leb,
}
use stellar_voice_control_pr.Common.Dict.{has, get, put, drop_key, get-put_ne, get-drop_key_ne}
use stellar_voice_control_pr.Keeper.{BackoffEntry, prune}

module _ {V : Type 0} where
  abbrev pub NodupKeys : List (ℕ × V) → Type 0
  NodupKeys [] = Unit
  NodupKeys ((k, v) ∷ m) = (get k m ≡ none) × NodupKeys m

  pub put-NodupKeys : (k : ℕ) (v : V) (m : List (ℕ × V)) → NodupKeys m → NodupKeys (put k v m)
  put-NodupKeys k v [] h = (refl, tt)
  put-NodupKeys k v (e ∷ m) h = ground (arith, put-NodupKeys k v m h.1, get-put_ne e.0 k v m)

  pub drop_key-NodupKeys : (k : ℕ) (m : List (ℕ × V)) → NodupKeys m → NodupKeys (drop_key k m)
  drop_key-NodupKeys k [] h = tt
  drop_key-NodupKeys k (e ∷ m) h =
      ground (arith, drop_key-NodupKeys k m h.1, get-drop_key_ne e.0 k m)

  pub get-drop_key_self : (k : ℕ) (m : List (ℕ × V)) → NodupKeys m → get k (drop_key k m) ≡ none
  get-drop_key_self k [] h = refl
  get-drop_key_self k (e ∷ m) h = ground (arith, get-drop_key_self k m h.1)

abbrev pub is_stale_entry : List ℕ → ℕ → ℕ → BackoffEntry → Bool
is_stale_entry due now id b = leb b.until now && not (has id due)

get-prune-none :
    (due : List ℕ) (now id : ℕ) (m : List (ℕ × BackoffEntry))
    → get id m ≡ none
    → get id (prune due now m) ≡ none
unfolding prune
get-prune-none due now id [] h = refl
get-prune-none due now id ((j, b) ∷ m) h = ground (arith, get-prune-none due now id m)

pub prune-NodupKeys :
    (due : List ℕ) (now : ℕ) (m : List (ℕ × BackoffEntry))
    → NodupKeys m
    → NodupKeys (prune due now m)
unfolding prune
prune-NodupKeys due now [] h = tt
prune-NodupKeys due now ((j, b) ∷ m) h =
    ground (arith, prune-NodupKeys due now m h.1, get-prune-none due now j m h.0)

-- Pruning forgets an entry exactly if its window has passed and its id is not due; every other id
-- reads as before.
pub get-prune :
    (due : List ℕ) (now id : ℕ) (m : List (ℕ × BackoffEntry))
    → NodupKeys m
    → get id (prune due now m) ≡ elim (get id m) [
      | none ↦ none
      | some b ↦ if is_stale_entry due now id b then none else some b
    ]
unfolding prune
get-prune due now id [] h = refl
get-prune due now id ((j, b) ∷ m) h =
    ground (arith, get-prune due now id m h.1, get-prune-none due now j m h.0)
