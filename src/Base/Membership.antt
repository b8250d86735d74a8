-- ===== src/Base/Membership.antt =====
-- What is in a list that is appended, mapped or sorted.
use Prim.Native.Nat.{◌+◌}
use mathlib.Core.Path.{◌≡◌, refl, ap, sym, subst}
use mathlib.Core.Logic.{inl, inr}
use mathlib.Core.Bool.{Bool}
use mathlib.Core.List.{List, [], ◌∷◌, ◌++◌, map}
use native.Mathlib.Omega.{arith}
use karpenter_provider_huawe.Base.Tests.{Bool-cases}
use karpenter_provider_huawe.Base.Lists.{length, All, All-map, IsIn}
use karpenter_provider_huawe.Base.Sort.{place, sort_slice, sort_slice-All}

module _ {A : Type 0} where
  pub IsIn-append-left : (a : A) (xs ys : List A) → IsIn a xs → IsIn a (xs ++ ys)
  IsIn-append-left a [] ys i = absurd i.lower
  IsIn-append-left a (x ∷ xs) ys (inl e) = inl e
  IsIn-append-left a (x ∷ xs) ys (inr i) = inr (IsIn-append-left a xs ys i)

  pub IsIn-append-right : (a : A) (xs ys : List A) → IsIn a ys → IsIn a (xs ++ ys)
  IsIn-append-right a [] ys i = i
  IsIn-append-right a (x ∷ xs) ys i = inr (IsIn-append-right a xs ys i)

  pub All-append : (P : A → Type 0) (xs ys : List A) → All P xs → All P ys → All P (xs ++ ys)
  All-append P [] ys h k = k
  All-append P (x ∷ xs) ys h k = (h.0, All-append P xs ys h.1 k)

  pub All-IsIn : (xs : List A) → All (λ x. IsIn x xs) xs
  All-IsIn [] = tt
  All-IsIn (x ∷ xs) = (inl refl, All-map _ _ (λ y i. inr i) xs (All-IsIn xs))

  pub All-of_IsIn : (P : A → Type 0) (xs : List A) → ((x : A) → IsIn x xs → P x) → All P xs
  All-of_IsIn P [] h = tt
  All-of_IsIn P (x ∷ xs) h = (h x (inl refl), All-of_IsIn P xs (λ y i. h y (inr i)))

  IsIn-All : (P : A → Type 0) (a : A) (xs : List A) → All P xs → IsIn a xs → P a
  IsIn-All P a [] h i = absurd i.lower
  IsIn-All P a (x ∷ xs) h (inl e) = subst P (sym e) h.0
  IsIn-All P a (x ∷ xs) h (inr i) = IsIn-All P a xs h.1 i

  -- What is in a list is in the sorted list, and the other way round.
  module _ (less : A → A → Bool) where
    IsIn-place : (a x : A) (ys : List A) → IsIn a (x ∷ ys) → IsIn a (place less x ys)
    unfolding place
    IsIn-place a x [] i = i
    IsIn-place a x (y ∷ ys) i = elim (Bool-cases (less y x)) [
      | inl e ↦ rw e (later i (IsIn-place a x ys))
      | inr e ↦ rw e i
    ]
      where
        later :
            IsIn a (x ∷ y ∷ ys)
            → (IsIn a (x ∷ ys) → IsIn a (place less x ys))
            → IsIn a (y ∷ place less x ys)
        later (inl same) put = inr (put (inl same))
        later (inr (inl first)) put = inl first
        later (inr (inr j)) put = inr (put (inr j))

    pub IsIn-sort_slice : (a : A) (xs : List A) → IsIn a xs → IsIn a (sort_slice less xs)
    unfolding sort_slice
    IsIn-sort_slice a [] i = i
    IsIn-sort_slice a (x ∷ xs) (inl e) = IsIn-place a x (sort_slice less xs) (inl e)
    IsIn-sort_slice a (x ∷ xs) (inr i) =
        IsIn-place a x (sort_slice less xs) (inr (IsIn-sort_slice a xs i))

    pub IsIn-unsorted : (a : A) (xs : List A) → IsIn a (sort_slice less xs) → IsIn a xs
    IsIn-unsorted a xs i =
        IsIn-All (λ y. IsIn y xs) a _ (sort_slice-All less (λ y. IsIn y xs) xs (All-IsIn xs)) i

    length-place : (x : A) (ys : List A) → length (place less x ys) ≡ 1 + length ys
    unfolding place
    length-place x [] = refl
    length-place x (y ∷ ys) = elim (Bool-cases (less y x)) [
      | inl e ↦ rw e (omega (arith, length-place x ys))
      | inr e ↦ rw e (omega arith)
    ]

    pub length-sort_slice : (xs : List A) → length (sort_slice less xs) ≡ length xs
    unfolding sort_slice
    length-sort_slice [] = refl
    length-sort_slice (x ∷ xs) =
        omega (arith, length-place x (sort_slice less xs), length-sort_slice xs)

pub length-map : {A B : Type 0} (f : A → B) (xs : List A) → length (map f xs) ≡ length xs
length-map f [] = refl
length-map f (x ∷ xs) = omega (arith, length-map f xs)

pub IsIn-map : {A B : Type 0} (f : A → B) (a : A) (xs : List A) → IsIn a xs → IsIn (f a) (map f xs)
IsIn-map f a [] i = absurd i.lower
IsIn-map f a (x ∷ xs) (inl e) = inl (ap f e)
IsIn-map f a (x ∷ xs) (inr i) = inr (IsIn-map f a xs i)

pub All-of_map :
    {A B : Type 0} (f : A → B) (P : B → Type 0) (xs : List A)
    → All (λ x. P (f x)) xs
    → All P (map f xs)
All-of_map f P [] h = tt
All-of_map f P (x ∷ xs) h = (h.0, All-of_map f P xs h.1)
