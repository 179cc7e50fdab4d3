-- ===== src/Prelude/Lists.antt =====
-- Lists measured and searched by native numbers.
use Prim.Native.Nat.{ℕ, suc, ◌+◌}
use mathlib.Core.Path.{◌≡◌, refl}
use mathlib.Core.Bool.{Bool, true, false}
use mathlib.Core.List.{List, [], ◌∷◌, ◌++◌}
use native.Mathlib.Omega.{arith}
use catenary.Prelude.Tests.{◌==◌, if◌then◌else◌}

module _ {ℓ} {A : Type ℓ} where
  abbrev pub length : List A → ℕ
  length [] = 0
  length (x ∷ xs) = suc (length xs)

  pub length-append : (xs ys : List A) → length (xs ++ ys) ≡ length xs + length ys
  length-append [] ys = omega arith
  length-append (x ∷ xs) ys = omega (arith, length-append xs ys)

  -- The elements that pass a test.
  abbrev pub keep : (A → Bool) → List A → List A
  keep p [] = []
  keep p (x ∷ xs) = let rest = keep p xs in if p x then x ∷ rest else rest

  -- Some element passes a test.
  abbrev pub exists : (A → Bool) → List A → Bool
  exists p [] = false
  exists p (x ∷ xs) = if p x then true else exists p xs

-- A predicate of every element, which computes to tuples.
abbrev pub All {ℓ κ} : {A : Type ℓ} → (A → Type κ) → List A → Type κ
All P [] = Unit
All P (x ∷ xs) = P x × All P xs

module _ {ℓ κ} {A : Type ℓ} where
  -- Both parts satisfy it, so the whole does.
  pub All-append :
      (P : A → Type κ) (front back : List A) → All P front → All P back → All P (front ++ back)
  All-append P [] back here there = there
  All-append P (a ∷ front) back (first, here) there = (first, All-append P front back here there)

  pub All-map : (P Q : A → Type κ) (xs : List A) → ((x : A) → P x → Q x) → All P xs → All Q xs
  All-map P Q [] f h = tt
  All-map P Q (x ∷ xs) f h = (f x h.0, All-map P Q xs f h.1)

-- Membership of a number, as a test.
abbrev pub has : ℕ → List ℕ → Bool
has a [] = false
has a (x ∷ xs) = if x == a then true else has a xs

pub has-append_last :
    (a b : ℕ) (xs : List ℕ) → has a (xs ++ b ∷ []) ≡ (if b == a then true else has a xs)
has-append_last a b [] = ground arith
has-append_last a b (x ∷ xs) = ground (arith, has-append_last a b xs)

-- No number twice.
abbrev pub IsDistinct : List ℕ → Type 0
IsDistinct [] = Unit
IsDistinct (x ∷ xs) = (has x xs ≡ false) × IsDistinct xs

pub append_last-IsDistinct :
    (xs : List ℕ) (a : ℕ) → IsDistinct xs → has a xs ≡ false → IsDistinct (xs ++ a ∷ [])
append_last-IsDistinct [] a d h = (refl, tt)
append_last-IsDistinct (x ∷ xs) a d h =
    (ground (arith, has-append_last x a xs), append_last-IsDistinct xs a d.1 (ground arith))
