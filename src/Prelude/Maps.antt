-- ===== src/Prelude/Maps.antt =====
-- A Go map with numeric keys, as an association list in the order of first insertion.
use Prim.Native.Nat.{ℕ}
use mathlib.Core.Path.{◌≡◌, refl}
use mathlib.Core.Bool.{Bool, true, false}
use mathlib.Core.Option.{Option, none, some}
use mathlib.Core.List.{List, [], ◌∷◌, ◌++◌}
use native.Mathlib.Omega.{arith}
use catenary.Prelude.Tests.{◌==◌, if◌then◌else◌, is_some}
use catenary.Prelude.Lists.{has}

module _ {ℓ} {V : Type ℓ} where
  unfoldable pub lookup : ℕ → List (ℕ × V) → Option V
  lookup k [] = none
  lookup k ((j, v) ∷ m) = if j == k then some v else lookup k m

  unfoldable pub insert : ℕ → V → List (ℕ × V) → List (ℕ × V)
  insert k v [] = (k, v) ∷ []
  insert k v ((j, w) ∷ m) = if j == k then (k, v) ∷ m else (j, w) ∷ insert k v m

  unfoldable pub delete : ℕ → List (ℕ × V) → List (ℕ × V)
  delete k [] = []
  delete k ((j, w) ∷ m) = let rest = delete k m in if j == k then rest else (j, w) ∷ rest

  abbrev pub keys : List (ℕ × V) → List ℕ
  keys [] = []
  keys ((k, v) ∷ m) = k ∷ keys m

  abbrev pub member : ℕ → List (ℕ × V) → Bool
  member k m = is_some (lookup k m)

  -- The key that was written has the new value, and every other has what it had.
  pub lookup-insert :
      (key other : ℕ) (new : V) (rows : List (ℕ × V))
      → lookup other (insert key new rows) ≡ (if key == other then some new else lookup other rows)
  unfolding lookup insert
  lookup-insert key other new [] = ground arith
  lookup-insert key other new ((at, old) ∷ rows) = ground (lookup-insert key other new rows, arith)

  pub lookup-delete :
      (k j : ℕ) (m : List (ℕ × V)) → lookup j (delete k m) ≡ (if k == j then none else lookup j m)
  unfolding lookup delete
  lookup-delete k j [] = ground arith
  lookup-delete k j ((i, w) ∷ m) = ground (arith, lookup-delete k j m)

  pub member-has : (k : ℕ) (m : List (ℕ × V)) → member k m ≡ has k (keys m)
  unfolding lookup
  member-has k [] = refl
  member-has k ((j, v) ∷ m) = ground (arith, member-has k m)

  pub keys-insert_held :
      (k : ℕ) (v : V) (m : List (ℕ × V)) → has k (keys m) ≡ true → keys (insert k v m) ≡ keys m
  unfolding insert
  keys-insert_held k v [] h = ground arith
  keys-insert_held k v ((j, w) ∷ m) h = ground (arith, keys-insert_held k v m)

  pub keys-insert_new :
      (k : ℕ) (v : V) (m : List (ℕ × V))
      → has k (keys m) ≡ false
      → keys (insert k v m) ≡ keys m ++ k ∷ []
  unfolding insert
  keys-insert_new k v [] h = refl
  keys-insert_new k v ((j, w) ∷ m) h = ground (arith, keys-insert_new k v m)
