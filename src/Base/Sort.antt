-- ===== src/Base/Sort.antt =====
-- sort.Slice of Go's standard library, as the insertion of each element in front of the first one
-- that is not less than it. Which order equal elements end in, the library leaves open.
use mathlib.Core.Path.{◌≡◌}
use mathlib.Core.Bool.{Bool, false, true}
use mathlib.Core.List.{List, [], ◌∷◌, Perm}
use mathlib.Core.List.Perm
use mathlib.Core.Logic.{inl, inr}
use karpenter_provider_huawe.Base.Tests.{if◌then◌else◌, Bool-cases}
use karpenter_provider_huawe.Base.Lists.{All}

module _ {ℓ} {A : Type ℓ} (less : A → A → Bool) where
  unfoldable pub place : A → List A → List A
  place x [] = x ∷ []
  place x (y ∷ ys) = let rest = place x ys in if less y x then y ∷ rest else x ∷ y ∷ ys

  unfoldable pub sort_slice : List A → List A
  unfolding place
  sort_slice [] = []
  sort_slice (x ∷ xs) = place x (sort_slice xs)

  place-perm : (x : A) (ys : List A) → Perm (place x ys) (x ∷ ys)
  unfolding place
  place-perm x [] = Perm.refl (x ∷ [])
  place-perm x (y ∷ ys) = elim (Bool-cases (less y x)) [
    | inl e ↦ rw e (Perm.trans (Perm.cons y (place-perm x ys)) (Perm.swap x y ys))
    | inr e ↦ rw e (Perm.refl (x ∷ y ∷ ys))
  ]

  pub sort_slice-perm : (xs : List A) → Perm (sort_slice xs) xs
  unfolding sort_slice
  sort_slice-perm [] = Perm.refl []
  sort_slice-perm (x ∷ xs) =
      Perm.trans (place-perm x (sort_slice xs)) (Perm.cons x (sort_slice-perm xs))

  place-All {κ} : (P : A → Type κ) (x : A) (ys : List A) → P x → All P ys → All P (place x ys)
  unfolding place
  place-All P x [] px h = (px, tt)
  place-All P x (y ∷ ys) px h = elim (Bool-cases (less y x)) [
    | inl e ↦ rw e (h.0, place-All P x ys px h.1)
    | inr e ↦ rw e (px, (h.0, h.1))
  ]

  pub sort_slice-All {κ} : (P : A → Type κ) (xs : List A) → All P xs → All P (sort_slice xs)
  unfolding sort_slice
  sort_slice-All P [] h = tt
  sort_slice-All P (x ∷ xs) h = place-All P x (sort_slice xs) h.0 (sort_slice-All P xs h.1)

  -- A coarser comparison that `less` refines: elements that it orders are ordered by `less` in the
  -- same way.
  pub record Refines (lower : A → A → Bool) : Type ℓ where
    pub up : (x y : A) → less y x ≡ true → lower x y ≡ false
    pub down : (x y : A) → less y x ≡ false → lower y x ≡ false
    pub trans : (x y z : A) → lower y x ≡ false → lower z y ≡ false → lower z x ≡ false

  -- No element is lower than an earlier one.
  abbrev pub IsSortedBy : (A → A → Bool) → List A → Type 0
  IsSortedBy lower [] = Unit
  IsSortedBy lower (x ∷ xs) = All (λ y. lower y x ≡ false) xs × IsSortedBy lower xs

  module _ (lower : A → A → Bool) (o : Refines lower) where
    All-trans :
        (x y : A) (zs : List A)
        → lower y x ≡ false
        → All (λ z. lower z y ≡ false) zs
        → All (λ z. lower z x ≡ false) zs
    All-trans x y [] e h = tt
    All-trans x y (z ∷ zs) e h = (o.trans x y z e h.0, All-trans x y zs e h.1)

    place-IsSortedBy : (x : A) (ys : List A) → IsSortedBy lower ys → IsSortedBy lower (place x ys)
    unfolding place
    place-IsSortedBy x [] h = (tt, tt)
    place-IsSortedBy x (y ∷ ys) h = elim (Bool-cases (less y x)) [
      | inl e ↦
          rw e (place-All (λ z. lower z y ≡ false) x ys (o.up x y e) h.0, place-IsSortedBy x ys h.1)
      | inr e ↦ rw e ((o.down x y e, All-trans x y ys (o.down x y e) h.0), h)
    ]

    pub sort_slice-IsSortedBy : (xs : List A) → IsSortedBy lower (sort_slice xs)
    unfolding sort_slice
    sort_slice-IsSortedBy [] = tt
    sort_slice-IsSortedBy (x ∷ xs) = place-IsSortedBy x (sort_slice xs) (sort_slice-IsSortedBy xs)
