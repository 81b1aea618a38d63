-- ===== src/Prelude/Maps.antt =====
-- Go's maps, as association lists: used qualified, `Maps.lookup`.
use mathlib.Core.Path.{◌≡◌, refl}
use mathlib.Core.Option.{Option, none, some}
use mathlib.Core.List.{List, [], ◌∷◌}
use native.Mathlib.Omega.{arith}
use perceptor.Prelude.Tests.{if◌then◌else◌}
use perceptor.Prelude.Classes.{Eq, ◌==◌}

module _ {ℓ κ} {K : Type ℓ} {V : Type κ} ⦃e : Eq K⦄ where
  -- Writing a key of the map keeps its place; a new key comes last.
  unfoldable pub insert : K → V → List (K × V) → List (K × V)
  insert key value [] = (key, value) ∷ []
  insert key value ((k, old) ∷ rest) =
      if k == key then (key, value) ∷ rest else (k, old) ∷ insert key value rest

  unfoldable pub delete : K → List (K × V) → List (K × V)
  delete key [] = []
  delete key ((k, old) ∷ entries) =
      let rest = delete key entries in if k == key then rest else (k, old) ∷ rest

  unfoldable pub lookup : K → List (K × V) → Option V
  lookup key [] = none
  lookup key ((k, value) ∷ rest) = if k == key then some value else lookup key rest

  pub lookup-delete :
      (gone key : K) (entries : List (K × V))
      → lookup key (delete gone entries) ≡ (if gone == key then none else lookup key entries)
  unfolding lookup delete
  lookup-delete gone key [] = ground arith
  lookup-delete gone key ((k, old) ∷ rest) =
      ground
        (arith, e.beq_iff gone key, e.beq_iff k gone, e.beq_iff k key, lookup-delete gone key rest)

  pub lookup-insert :
      (new key : K) (value : V) (entries : List (K × V))
      → lookup key (insert new value entries)
        ≡ (if new == key then some value else lookup key entries)
  unfolding lookup insert
  lookup-insert new key value [] = refl
  lookup-insert new key value ((k, old) ∷ rest) =
      ground (
        arith,
        e.beq_iff new key,
        e.beq_iff k new,
        e.beq_iff k key,
        lookup-insert new key value rest,
      )
