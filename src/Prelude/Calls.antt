-- ===== src/Prelude/Calls.antt =====
-- How a Go call ends: with a value, by a panic (a nil dereference, an index out of range), or, of
-- the model alone, by running out of the fuel of a loop. An `error` that a function returns is a
-- value.
use mathlib.Core.Path.{◌≡◌, refl, sym, ap, subst, ◌∙◌}
use mathlib.Core.Bool.{Bool, true, false}
use mathlib.Core.Option.{Option, none, some}
use perceptor.Prelude.Tests.{if◌then◌else◌}

pub data Run {ℓ} (A : Type ℓ) : Type ℓ where
  ok : A → Run A
  panic : Run A
  out_of_fuel : Run A

infixl 5 ◌>>=◌
abbrev pub ◌>>=◌ {ℓ κ} : {A : Type ℓ} {B : Type κ} → Run A → (A → Run B) → Run B
ok a >>= f = f a
panic >>= f = panic
out_of_fuel >>= f = out_of_fuel

-- The value of a read that panics on `none`.
abbrev pub or_panic {ℓ} : {A : Type ℓ} → Option A → Run A
or_panic none = panic
or_panic (some a) = ok a

-- The call returns, and its value satisfies `P`.
pub data Returns {ℓ κ} {A : Type ℓ} (P : A → Type κ) : Run A → Type (ℓ ⊔ κ) where
  returned : {a : A} → P a → Returns P (ok a)

module _ {ℓ κ} {A : Type ℓ} {P : A → Type κ} where
  pub Returns-value : {call : Run A} → Returns P call → (a : A) × (call ≡ ok a) × P a
  Returns-value (returned p) = (_, refl, p)

  pub Returns-if :
      {yes no : Run A} (test : Bool)
      → (test ≡ true → Returns P yes)
      → (test ≡ false → Returns P no)
      → Returns P (if test then yes else no)
  Returns-if true p q = p refl
  Returns-if false p q = q refl

  pub Returns-weaken {κ'} :
      {Weaker : A → Type κ'} {call : Run A}
      → Returns P call
      → ((a : A) → P a → Weaker a)
      → Returns Weaker call
  Returns-weaken (returned p) f = returned (f _ p)

  pub Returns-bind {ℓ' κ'} :
      {B : Type ℓ'} {Then : B → Type κ'} {call : Run A} {next : A → Run B}
      → Returns P call
      → ((a : A) → P a → Returns Then (next a))
      → Returns Then (call >>= next)
  Returns-bind (returned p) after = after _ p

-- A function that commutes with every continuation commutes with the bind.
pub >>=-commute {ℓ κ ℓ'} :
    {A : Type ℓ} {B : Type κ} {C : Type ℓ'} (k : B → Run C) (r : Run A) (f : A → Run C)
    (g : A → Run B)
    → ((a : A) → f a ≡ (g a >>= k))
    → (r >>= f) ≡ ((r >>= g) >>= k)
>>=-commute k (ok a) f g h = h a
>>=-commute k panic f g h = refl
>>=-commute k out_of_fuel f g h = refl

pub >>=-commute_after {ℓ κ ℓ' κ'} :
    {A : Type ℓ} {B : Type κ} {C : Type ℓ'} {D : Type κ'} (k : B → Run C) (r : Run A) (w : A → D)
    (f : D → Run C) (g : A → Run B)
    → ((a : A) → f (w a) ≡ (g a >>= k))
    → ((r >>= λ a. ok (w a)) >>= f) ≡ ((r >>= g) >>= k)
>>=-commute_after k (ok a) w f g h = h a
>>=-commute_after k panic w f g h = refl
>>=-commute_after k out_of_fuel w f g h = refl

pub Returns-assoc {ℓ κ ℓ' κ'} :
    {A : Type ℓ} {B : Type κ} {C : Type ℓ'} {P : C → Type κ'} (r : Run A) (f : A → Run B)
    (g : B → Run C)
    → Returns P ((r >>= f) >>= g)
    → Returns P (r >>= λ a. f a >>= g)
Returns-assoc (ok a) f g h = h
Returns-assoc panic f g h = h
Returns-assoc out_of_fuel f g h = h

ok_value {ℓ} : {A : Type ℓ} → A → Run A → A
ok_value d (ok a) = a
ok_value d panic = d
ok_value d out_of_fuel = d

pub ok-injective {ℓ} : {A : Type ℓ} {a b : A} → ok a ≡ ok b → a ≡ b
unfolding ok_value
ok-injective {a = a} e = ap (ok_value a) e

pub Returns-both {ℓ κ κ'} :
    {A : Type ℓ} {P : A → Type κ} {Q : A → Type κ'} {r : Run A}
    → Returns P r
    → Returns Q r
    → Returns (λ a. P a × Q a) r
Returns-both {P = P} {Q} p q =
    let (a, e, h) = Returns-value p in
    let (b, f, k) = Returns-value q in rw e (returned (h, subst Q (ok-injective (sym f ∙ e)) k))

pub Returns-ok {ℓ κ} : {A : Type ℓ} {P : A → Type κ} {a : A} → Returns P (ok a) → P a
Returns-ok {P = P} h = let (b, e, p) = Returns-value h in subst P (ok-injective (sym e)) p
