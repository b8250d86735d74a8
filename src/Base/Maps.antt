-- ===== src/Base/Maps.antt =====
-- Go maps with string keys, as association lists with one entry for a key that is put in.
use Prim.Native.String.{String}
use mathlib.Core.Path.{◌≡◌, refl}
use mathlib.Core.Option.{Option, none, some}
use mathlib.Core.List.{List, [], ◌∷◌, map}
use native.Mathlib.Omega.{arith}
use text.Mathlib.Text.{◌==◌}
use text.Mathlib.TextEquality.{eq_iff}
use karpenter_provider_huawe.Base.Tests.{if◌then◌else◌}

abbrev pub Map {ℓ} : Type ℓ → Type ℓ
Map V = List (String × V)

module _ {ℓ} {V : Type ℓ} where
  -- v, ok := m[k]
  unfoldable pub lookup : String → Map V → Option V
  lookup k [] = none
  lookup k ((key, value) ∷ rest) = if key == k then some value else lookup k rest

  -- m[k] = v
  unfoldable pub insert : String → V → Map V → Map V
  insert k v [] = (k, v) ∷ []
  insert k v ((key, old) ∷ rest) = if key == k then (k, v) ∷ rest else (key, old) ∷ insert k v rest

  -- delete(m, k)
  unfoldable pub erase : String → Map V → Map V
  erase k [] = []
  erase k ((j, w) ∷ m) = let rest = erase k m in if j == k then rest else (j, w) ∷ rest

  pub keys : Map V → List String
  keys = map (λ e. e.0)

  pub lookup-insert :
      (put asked : String) (value : V) (m : Map V)
      → lookup asked (insert put value m) ≡ (if put == asked then some value else lookup asked m)
  unfolding lookup insert
  lookup-insert put asked value [] = refl
  lookup-insert put asked value ((key, old) ∷ rest) = ground (
    arith,
    eq_iff put asked,
    eq_iff key put,
    eq_iff key asked,
    lookup-insert put asked value rest,
  )

  pub lookup-erase :
      (k j : String) (m : Map V) → lookup j (erase k m) ≡ (if k == j then none else lookup j m)
  unfolding lookup erase
  lookup-erase k j [] = ground arith
  lookup-erase k j ((i, w) ∷ m) =
      ground (arith, eq_iff k j, eq_iff i k, eq_iff i j, lookup-erase k j m)
