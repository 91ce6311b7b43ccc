-- ===== src/Base/ByteSlice.antt =====
-- Byte slices: a `[]byte` is a list of numbers below 256. `bytes_compare` is Go's
-- `bytes.Compare`, `bytes_eq` its `bytes.Equal`.
use Prim.Native.Nat.{ℕ, ◌<◌, compare, Ordering}
use mathlib.Core.Path.{◌≡◌, refl}
use mathlib.Core.Logic.{◌⊎◌, inl, inr}
use mathlib.Core.Bool.{Bool, true, false, ◌&&◌}
use mathlib.Core.List.{List, [], ◌∷◌, ◌++◌}
use native.Mathlib.Omega.{arith}
use client_go.Base.Tests.{◌==◌}
use client_go.Base.Lists.{All}

abbrev pub Bytes : Type 0
Bytes = List ℕ

abbrev pub IsBytes : Bytes → Type 0
IsBytes = All (λ b. b < 256)

abbrev pub IsU64 : ℕ → Type 0
IsU64 v = v < 0x1_0000_0000_0000_0000

unfoldable pub bytes_compare : Bytes → Bytes → Ordering
bytes_compare [] [] = Ordering.eq
bytes_compare [] (y ∷ ys) = Ordering.lt
bytes_compare (x ∷ xs) [] = Ordering.gt
bytes_compare (x ∷ xs) (y ∷ ys) = elim (compare x y) [
  | Ordering.lt ↦ Ordering.lt
  | Ordering.eq ↦ bytes_compare xs ys
  | Ordering.gt ↦ Ordering.gt
]

unfoldable pub bytes_eq : Bytes → Bytes → Bool
bytes_eq [] [] = true
bytes_eq [] (y ∷ ys) = false
bytes_eq (x ∷ xs) [] = false
bytes_eq (x ∷ xs) (y ∷ ys) = x == y && bytes_eq xs ys

pub bytes_eq_refl : (xs : Bytes) → bytes_eq xs xs ≡ true
unfolding bytes_eq
bytes_eq_refl [] = refl
bytes_eq_refl (x ∷ xs) = ground (arith, bytes_eq_refl xs)

pub bytes_eq→eq : (xs ys : Bytes) → bytes_eq xs ys ≡ true → xs ≡ ys
unfolding bytes_eq
bytes_eq→eq [] [] h = refl
bytes_eq→eq [] (y ∷ ys) h = cc
bytes_eq→eq (x ∷ xs) [] h = cc
bytes_eq→eq (x ∷ xs) (y ∷ ys) h = ground (arith, bytes_eq→eq xs ys)

pub ordering_cases : (o : Ordering) → (o ≡ Ordering.lt) ⊎ ((o ≡ Ordering.eq) ⊎ (o ≡ Ordering.gt))
ordering_cases Ordering.lt = inl refl
ordering_cases Ordering.eq = inr (inl refl)
ordering_cases Ordering.gt = inr (inr refl)

pub bytes_compare_refl : (xs : Bytes) → bytes_compare xs xs ≡ Ordering.eq
unfolding bytes_compare
bytes_compare_refl [] = refl
bytes_compare_refl (x ∷ xs) = ground (arith, bytes_compare_refl xs)

pub bytes_compare_eq : (xs ys : Bytes) → bytes_compare xs ys ≡ Ordering.eq → xs ≡ ys
unfolding bytes_compare
bytes_compare_eq [] [] h = refl
bytes_compare_eq [] (y ∷ ys) h = cc
bytes_compare_eq (x ∷ xs) [] h = cc
bytes_compare_eq (x ∷ xs) (y ∷ ys) h = ground (arith, bytes_compare_eq xs ys)

-- The order is the other way round with the arguments exchanged.
pub bytes_compare_gt :
    (xs ys : Bytes) → bytes_compare xs ys ≡ Ordering.gt → bytes_compare ys xs ≡ Ordering.lt
unfolding bytes_compare
bytes_compare_gt [] [] h = cc
bytes_compare_gt [] (y ∷ ys) h = cc
bytes_compare_gt (x ∷ xs) [] h = refl
bytes_compare_gt (x ∷ xs) (y ∷ ys) h = ground (arith, bytes_compare_gt xs ys)

pub bytes_compare_trans :
    (xs ys zs : Bytes)
    → bytes_compare xs ys ≡ Ordering.lt
    → bytes_compare ys zs ≡ Ordering.lt
    → bytes_compare xs zs ≡ Ordering.lt
unfolding bytes_compare
bytes_compare_trans [] [] zs h k = cc
bytes_compare_trans [] (y ∷ ys) [] h k = cc
bytes_compare_trans [] (y ∷ ys) (z ∷ zs) h k = refl
bytes_compare_trans (x ∷ xs) [] zs h k = cc
bytes_compare_trans (x ∷ xs) (y ∷ ys) [] h k = cc
bytes_compare_trans (x ∷ xs) (y ∷ ys) (z ∷ zs) h k = ground (arith, bytes_compare_trans xs ys zs)

-- A common prefix decides nothing.
pub same_prefix : (p xs ys : Bytes) → bytes_compare (p ++ xs) (p ++ ys) ≡ bytes_compare xs ys
unfolding bytes_compare
same_prefix [] xs ys = refl
same_prefix (x ∷ p) xs ys = ground (arith, same_prefix p xs ys)
