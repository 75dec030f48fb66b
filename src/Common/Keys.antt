-- ===== src/Common/Keys.antt =====
-- Go maps and sets as association lists, over any type of keys with a decidable equality. The
-- order of the list stands for the order in which a `range` loop happens to visit the map.
use mathlib.Core.Path.{◌≡◌, refl}
use mathlib.Core.Logic.{◌↔◌}
use mathlib.Core.Bool.{Bool, true, false, ◌&&◌, ◌||◌}
use mathlib.Core.Option.{Option, none, some}
use mathlib.Core.List.{List, [], ◌∷◌, ◌++◌}
use Prim.Native.Nat.{ℕ}
use native.Mathlib.Omega.{arith}
use skyeye.Common.Tests.{nat_eq, nat_eq_iff, if◌then◌else◌}

-- Equality of byte strings and of texts, both lists of numbers.
unfoldable pub list_eq : List ℕ → List ℕ → Bool
list_eq [] [] = true
list_eq (x ∷ xs) (y ∷ ys) = nat_eq x y && list_eq xs ys
list_eq _ _ = false

pub list_eq_iff : (a b : List ℕ) → (list_eq a b ≡ true) ↔ (a ≡ b)
unfolding list_eq
list_eq_iff (x ∷ xs) (y ∷ ys) = ground (arith, list_eq_iff xs ys)
list_eq_iff _ _ = ground arith

-- The types of keys.
pub record Eq {ℓ} (K : Type ℓ) : Type ℓ where
  pub is_same : K → K → Bool
  pub is_same_iff : (k j : K) → (is_same k j ≡ true) ↔ (k ≡ j)

instance abbrev pub nat_Eq : Eq ℕ
nat_Eq = record { is_same = nat_eq; is_same_iff = nat_eq_iff }

instance abbrev pub list_Eq : Eq (List ℕ)
list_Eq = record { is_same = list_eq; is_same_iff = list_eq_iff }

infix 50 ◌==◌
abbrev pub ◌==◌ {ℓ} : {K : Type ℓ} ⦃keys : Eq K⦄ → K → K → Bool
◌==◌ ⦃keys⦄ = keys.is_same

module _ {ℓ} {K : Type ℓ} ⦃e : Eq K⦄ where
  unfoldable pub contains : List K → K → Bool
  contains [] k = false
  contains (x ∷ xs) k = x == k || contains xs k

  -- A set as a list: adding a member again changes nothing.
  unfoldable pub add : K → List K → List K
  add k [] = k ∷ []
  add k (x ∷ xs) = if x == k then x ∷ xs else x ∷ add k xs

  unfoldable pub discard : K → List K → List K
  discard k [] = []
  discard k (x ∷ xs) = if x == k then discard k xs else x ∷ discard k xs

  pub contains-append :
      (xs ys : List K) (k : K) → contains (xs ++ ys) k ≡ (contains xs k || contains ys k)
  unfolding contains
  contains-append [] ys k = refl
  contains-append (x ∷ xs) ys k = ground (arith, contains-append xs ys k)

  pub contains-add :
      (k j : K) (xs : List K) → contains (add k xs) j ≡ (if k == j then true else contains xs j)
  unfolding contains add
  contains-add k j [] = ground arith
  contains-add k j (x ∷ xs) =
      ground (arith, e.is_same_iff k j, e.is_same_iff x k, e.is_same_iff x j, contains-add k j xs)

  pub contains-discard :
      (k j : K) (xs : List K)
      → contains (discard k xs) j ≡ (if k == j then false else contains xs j)
  unfolding contains discard
  contains-discard k j [] = ground arith
  contains-discard k j (x ∷ xs) =
      ground
        (arith, e.is_same_iff k j, e.is_same_iff x k, e.is_same_iff x j, contains-discard k j xs)

module _ {ℓ κ} {K : Type ℓ} ⦃e : Eq K⦄ {V : Type κ} where
  unfoldable pub lookup : K → List (K × V) → Option V
  lookup key [] = none
  lookup key ((k, value) ∷ entries) = if k == key then some value else lookup key entries

  unfoldable pub delete : K → List (K × V) → List (K × V)
  delete key [] = []
  delete key ((k, value) ∷ entries) =
      if k == key then delete key entries else (k, value) ∷ delete key entries

  unfoldable pub insert : K → V → List (K × V) → List (K × V)
  insert key new [] = (key, new) ∷ []
  insert key new ((k, value) ∷ entries) =
      if k == key then (key, new) ∷ entries else (k, value) ∷ insert key new entries

  pub lookup-insert :
      (key sought : K) (new : V) (m : List (K × V))
      → lookup sought (insert key new m) ≡ (if key == sought then some new else lookup sought m)
  unfolding lookup insert
  lookup-insert key sought new [] = refl
  lookup-insert key sought new ((k, value) ∷ m) = ground (
    arith,
    e.is_same_iff key sought,
    e.is_same_iff k key,
    e.is_same_iff k sought,
    lookup-insert key sought new m,
  )

  pub lookup-delete :
      (key sought : K) (m : List (K × V))
      → lookup sought (delete key m) ≡ (if key == sought then none else lookup sought m)
  unfolding lookup delete
  lookup-delete key sought [] = ground arith
  lookup-delete key sought ((k, value) ∷ m) = ground (
    arith,
    e.is_same_iff key sought,
    e.is_same_iff k key,
    e.is_same_iff k sought,
    lookup-delete key sought m,
  )
