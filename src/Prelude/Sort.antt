-- ===== src/Prelude/Sort.antt =====
-- Lists put in order by a number, and their first elements.
use Prim.Native.Nat.{ℕ, zero, suc}
use mathlib.Core.Path.{◌≡◌, refl}
use mathlib.Core.Bool.{Bool, true}
use mathlib.Core.List.{List, [], ◌∷◌, map}
use native.Mathlib.Omega.{arith}
use catenary.Prelude.Tests.{leb, ◌==◌, if◌then◌else◌, split}
use catenary.Prelude.Lists.{keep, exists, All, has}

module _ {ℓ} {A : Type ℓ} where
  module _ (key : A → ℕ) where
    unfoldable pub insert_by : A → List A → List A
    insert_by x [] = x ∷ []
    insert_by x (y ∷ ys) =
        let rest = insert_by x ys in if leb (key x) (key y) then x ∷ y ∷ ys else y ∷ rest

    unfoldable pub sort_by : List A → List A
    unfolding insert_by
    sort_by [] = []
    sort_by (x ∷ xs) = insert_by x (sort_by xs)

  unfoldable pub first : ℕ → List A → List A
  first zero xs = []
  first (suc n) [] = []
  first (suc n) (x ∷ xs) = x ∷ first n xs

  -- What is kept still has an element that the second test passes, if the first passes it too.
  pub exists-keep :
      (q p : A → Bool) (xs : List A)
      → ((x : A) → q x ≡ true → p x ≡ true)
      → exists q xs ≡ true
      → exists q (keep p xs) ≡ true
  exists-keep q p [] h e = e
  exists-keep q p (x ∷ xs) h e = ground (arith, h x, exists-keep q p xs h)

  pub exists_mono :
      (q p : A → Bool) (xs : List A)
      → ((x : A) → q x ≡ true → p x ≡ true)
      → exists q xs ≡ true
      → exists p xs ≡ true
  exists_mono q p [] h e = e
  exists_mono q p (x ∷ xs) h e = ground (arith, h x, exists_mono q p xs h)

module _ {ℓ κ} {A : Type ℓ} (P : A → Type κ) where
  insert_by-All : (key : A → ℕ) (x : A) (ys : List A) → P x → All P ys → All P (insert_by key x ys)
  unfolding insert_by
  insert_by-All key x [] p ps = (p, tt)
  insert_by-All key x (y ∷ ys) p ps =
      split (All P) (leb (key x) (key y)) (λ _. (p, ps))
        (λ _. (ps.0, insert_by-All key x ys p ps.1))

  pub sort_by-All : (key : A → ℕ) (xs : List A) → All P xs → All P (sort_by key xs)
  unfolding sort_by
  sort_by-All key [] ps = tt
  sort_by-All key (x ∷ xs) ps = insert_by-All key x (sort_by key xs) ps.0 (sort_by-All key xs ps.1)

  pub first-All : (n : ℕ) (xs : List A) → All P xs → All P (first n xs)
  unfolding first
  first-All zero xs ps = tt
  first-All (suc n) [] ps = tt
  first-All (suc n) (x ∷ xs) ps = (ps.0, first-All n xs ps.1)

  -- The elements that a test passes satisfy what the test shows.
  pub keep-All : (p : A → Bool) (xs : List A) → ((x : A) → p x ≡ true → P x) → All P (keep p xs)
  keep-All p [] h = tt
  keep-All p (x ∷ xs) h = split (All P) (p x) (λ e. (h x e, keep-All p xs h)) (λ _. keep-All p xs h)

module _ {ℓ} {A : Type ℓ} (id key : A → ℕ) where
  insert_by-has :
      (i : ℕ) (x : A) (ys : List A)
      → has i (map id (insert_by key x ys)) ≡ (if id x == i then true else has i (map id ys))
  unfolding insert_by
  insert_by-has i x [] = refl
  insert_by-has i x (y ∷ ys) = ground (arith, insert_by-has i x ys)

  -- An order names what it puts in order.
  pub sort_by-has : (i : ℕ) (xs : List A) → has i (map id (sort_by key xs)) ≡ has i (map id xs)
  unfolding sort_by
  sort_by-has i [] = refl
  sort_by-has i (x ∷ xs) = ground (arith, insert_by-has i x (sort_by key xs), sort_by-has i xs)

  pub first-has :
      (i n : ℕ) (xs : List A) → has i (map id (first n xs)) ≡ true → has i (map id xs) ≡ true
  unfolding first
  first-has i zero xs h = absurd (ground (arith, h))
  first-has i (suc n) [] h = h
  first-has i (suc n) (x ∷ xs) h = ground (arith, h, first-has i n xs)
