-- ===== src/Prelude/Counts.antt =====
-- Go's maps that count, `counts[key]++`: a missing key counts 0.
use Prim.Native.Nat.{ℕ, ◌+◌}
use mathlib.Core.Path.{◌≡◌, refl}
use mathlib.Core.Logic.{◌≢◌, inl, inr}
use mathlib.Core.Option.{Option, none, some}
use mathlib.Core.List.{List, [], ◌∷◌}
use native.Mathlib.Omega.{arith}
use perceptor.Prelude.Tests.{Option-cases, some-ne-none}
use perceptor.Prelude.Lists.{length}
use perceptor.Prelude.Classes.{Eq}
use perceptor.Prelude.Maps

-- `counts[key]++`
unfoldable pub increment {ℓ} : {K : Type ℓ} ⦃keys : Eq K⦄ → K → List (K × ℕ) → List (K × ℕ)
increment key counts = elim (Maps.lookup key counts) [
  | none ↦ Maps.insert key 1 counts
  | some n ↦ Maps.insert key (n + 1) counts
]

-- A loop that counts each item under its key, and skips an item without one.
unfoldable pub tally {ℓ κ} :
    {A : Type ℓ} {K : Type κ} ⦃keys : Eq K⦄ → (A → Option K) → List A → List (K × ℕ) → List (K × ℕ)
tally key [] counts = counts
tally key (x ∷ xs) counts =
    tally key xs (elim (key x) [ none ↦ counts | some k ↦ increment k counts ])

-- The sum of all counts of a map.
abbrev pub total {ℓ} : {K : Type ℓ} → List (K × ℕ) → ℕ
total [] = 0
total ((k, n) ∷ counts) = n + total counts

module _ {ℓ} {K : Type ℓ} ⦃keys : Eq K⦄ where
  total-insert_new :
      (key : K) (counts : List (K × ℕ))
      → Maps.lookup key counts ≡ none
      → total (Maps.insert key 1 counts) ≡ total counts + 1
  unfolding Maps.lookup Maps.insert
  total-insert_new key [] e = refl
  total-insert_new key ((k, n) ∷ counts) e = ground (arith, e, total-insert_new key counts)

  total-insert_old :
      (key : K) (n : ℕ) (counts : List (K × ℕ))
      → Maps.lookup key counts ≡ some n
      → total (Maps.insert key (n + 1) counts) ≡ total counts + 1
  unfolding Maps.lookup Maps.insert
  total-insert_old key n [] e = absurd (cc)
  total-insert_old key n ((k, old) ∷ counts) e = ground (arith, e, total-insert_old key n counts)

  total-increment :
      (key : K) (counts : List (K × ℕ)) → total (increment key counts) ≡ total counts + 1
  unfolding increment
  total-increment key counts = elim (Option-cases (Maps.lookup key counts)) [
    | inl e ↦ rw (e, increment) (total-insert_new key counts e)
    | inr (n, e) ↦ rw (e, increment) (total-insert_old key n counts e)
  ]

-- The loop has a key for every item.
abbrev pub AllKeyed {ℓ κ} : {A : Type ℓ} {K : Type κ} → (A → Option K) → List A → Type κ
AllKeyed key [] = Unit
AllKeyed key (x ∷ xs) = (key x ≢ none) × AllKeyed key xs

total-tally {ℓ κ} :
    {A : Type ℓ} {K : Type κ} ⦃keys : Eq K⦄ (key : A → Option K) (xs : List A)
    (counts : List (K × ℕ))
    → AllKeyed key xs
    → total (tally key xs counts) ≡ total counts + length xs
unfolding tally
total-tally key [] counts h = omega arith
total-tally key (x ∷ xs) counts (n, h) = elim (Option-cases (key x)) [
  | inl e ↦ absurd (n e)
  | inr (k, e) ↦
      rw (e, tally)
        (omega (arith, total-increment k counts, total-tally key xs (increment k counts) h))
]

pub total-tally_all {ℓ κ} :
    {A : Type ℓ} {K : Type κ} ⦃keys : Eq K⦄ (key : A → Option K) (xs : List A)
    → AllKeyed key xs
    → total (tally key xs []) ≡ length xs
total-tally_all key xs h = omega (arith, total-tally key xs [] h)

pub always-AllKeyed {ℓ κ} :
    {A : Type ℓ} {K : Type κ} (key : A → K) (xs : List A) → AllKeyed (λ x. some (key x)) xs
always-AllKeyed key [] = tt
always-AllKeyed key (x ∷ xs) = (some-ne-none (key x), always-AllKeyed key xs)
