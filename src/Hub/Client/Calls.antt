-- ===== src/Hub/Client/Calls.antt =====
-- pkg/hub/client.go: a method of the client with the circuit breaker, and without it.
use perceptor.Prelude.{ℕ, ◌+◌, ℤ, ◌≡◌, refl, ap, ◌∙◌, none, Returns, returned, Returns-bind}
use perceptor.Hub.CircuitBreaker.{CircuitBreaker, enabled, ran}
use perceptor.Hub.CircuitBreaker.Invariant.{IsWellFormed, IsDue, issue_request_correct}
use perceptor.Hub.Client.{
  breaker_disabled, Result, done, err, Client, Method, return, proceed, ◌then_do◌, error_of,
  fetched, request,
}

-- The breaker of the client is well formed.
abbrev pub IsSound : Client → Type 0
IsSound c = IsWellFormed c.circuit_breaker

-- The client is sound, and its breaker is enabled.
abbrev pub IsOpen : Client → Type 0
IsOpen c = IsSound c × (c.circuit_breaker.state ≡ enabled)

-- The method does not panic, and leaves a sound client sound.
abbrev pub IsSafe : {A : Type 0} → Method A → Type 0
IsSafe method = (c : Client) → IsSound c → Returns (λ r. IsSound r.0) (method c)

abbrev pub IsDone : {A : Type 0} → Result A → Type 0
IsDone (done a) = Unit {0}
IsDone (err e) = ⊥

-- On an open client the method gives this result, and leaves the client open unless it failed.
abbrev pub Gives : {A : Type 0} → Method A → Result A → Type 0
Gives method result =
    (c : Client)
    → IsOpen c
    → Returns (λ r. (r.1 ≡ result) × (IsDone result → IsOpen r.0)) (method c)

infixl 5 ◌and_then◌
abbrev pub ◌and_then◌ : {A B : Type 0} → Result A → (A → Result B) → Result B
done a and_then rest = rest a
err e and_then rest = err e

pub return-IsSafe : {A : Type 0} (result : Result A) → IsSafe (return result)
return-IsSafe result c s = returned s

pub then_do-IsSafe :
    {A B : Type 0} (method : Method A) (rest : A → Method B)
    → IsSafe method
    → ((a : A) → IsSafe (rest a))
    → IsSafe (method then_do rest)
then_do-IsSafe {A} {B} method rest m r c s = Returns-bind (m c s) λ o t. go o.0 o.1 t
  where
    go :
        (d : Client) (result : Result A)
        → IsSound d
        → Returns (λ (o : Client × Result B). IsSound o.0) (proceed rest (d, result))
    go d (done a) t = r a d t
    go d (err e) t = returned t

pub return-Gives : {A : Type 0} (result : Result A) → Gives (return result) result
return-Gives result c o = returned (refl, λ d. o)

pub then_do-Gives :
    {A B : Type 0} (method : Method A) (rest : A → Method B) (result : Result A)
    (next : A → Result B)
    → Gives method result
    → ((a : A) → Gives (rest a) (next a))
    → Gives (method then_do rest) (result and_then next)
then_do-Gives {A} {B} method rest (done a) next m r c o =
    Returns-bind (m c o) λ p t. go p.0 p.1 (t.0) (t.1 tt)
  where
    go :
        (d : Client) (result : Result A)
        → result ≡ done a
        → IsOpen d
        → Returns
            (λ (o : Client × Result B). (o.1 ≡ next a) × (IsDone (next a) → IsOpen o.0))
            (proceed rest (d, result))
    go d result e u = rw e (r a d u)
then_do-Gives {A} {B} method rest (err x) next m r c o =
    Returns-bind (m c o) λ p t. go p.0 p.1 (t.0)
  where
    go :
        (d : Client) (result : Result A)
        → result ≡ err x
        → Returns
            (λ (o : Client × Result B). (o.1 ≡ err x) × (IsDone {A = B} (err x) → IsOpen o.0))
            (proceed rest (d, result))
    go d result e = rw e (returned (refl, λ z. absurd z))

module _ (clock : ℕ → ℤ) where
  pub request-IsSafe : {A : Type 0} (answer : Result A) → IsSafe (request clock answer)
  unfolding request
  request-IsSafe answer c s =
      Returns-bind
        (issue_request_correct (clock c.readings) (clock (c.readings + 1)) (error_of answer)
          c.circuit_breaker s)
        λ r a. returned a.well_formed

  enabled-IsDue : (now : ℤ) (cb : CircuitBreaker) → cb.state ≡ enabled → IsDue now cb
  enabled-IsDue now cb e = rw e tt

  passed_on : {A : Type 0} (answer : Result A) → fetched answer (ran (error_of answer)) ≡ answer
  passed_on (done a) = refl
  passed_on (err e) = refl

  done-none : {A : Type 0} (answer : Result A) → IsDone answer → error_of answer ≡ none
  done-none (done a) d = refl
  done-none (err e) d = absurd d

  pub request-Gives : {A : Type 0} (answer : Result A) → Gives (request clock answer) answer
  unfolding request
  request-Gives answer c (s, e) =
      Returns-bind
        (issue_request_correct (clock c.readings) (clock (c.readings + 1)) (error_of answer)
          c.circuit_breaker s)
        λ r a.
          let due = enabled-IsDue (clock c.readings) c.circuit_breaker e in
          returned (
            ap (fetched answer) (a.answer due) ∙ passed_on answer,
            λ d. (a.well_formed, (a.succeeded due (done-none answer d)).0),
          )

  pub request-refused :
      {A : Type 0} (answer : Result A) (c : Client)
      → IsSound c
      → ¬ IsDue (clock c.readings) c.circuit_breaker
      → Returns
          (λ r. (r.1 ≡ err breaker_disabled) × (r.0.circuit_breaker ≡ c.circuit_breaker))
          (request clock answer c)
  unfolding request
  request-refused answer c s n =
      Returns-bind
        (issue_request_correct (clock c.readings) (clock (c.readings + 1)) (error_of answer)
          c.circuit_breaker s)
        λ r a. returned (ap (fetched answer) ((a.not_due n).1), (a.not_due n).0)
