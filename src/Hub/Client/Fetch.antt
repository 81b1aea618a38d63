-- ===== src/Hub/Client/Fetch.antt =====
-- pkg/hub/client.go: what fetchScan gives, and what it does to the circuit breaker.
use perceptor.Prelude.{
  ℕ, ℤ, ◌≡◌, refl, sym, List, [], ◌∷◌, Option, none, some, String, ok, Returns, returned,
  Returns-bind, Returns-weaken, Returns-ok, subst,
}
use perceptor.Hub.DataTypes.{ScanResults}
use perceptor.Hub.CircuitBreaker.Invariant.{IsDue}
use perceptor.Hub.Client.{
  breaker_disabled, Result, done, err, Client, CodeLocation, RawRiskProfile, RawPolicyStatus,
  RawScanSummary, RawClient, proceed, build_results, fetch_scan_results_using_code_location,
  fetch_first, fetch_scan,
}
use perceptor.Hub.Client.Calls.{
  IsSound, IsOpen, IsSafe, Gives, ◌and_then◌, return-IsSafe, then_do-IsSafe, request-IsSafe,
  return-Gives, then_do-Gives, request-Gives, request-refused,
}

module _ {Link : Type 0} (raw : RawClient Link) where
  -- The results of a code location as the server gives them, with no breaker between.
  abbrev pub results_of : CodeLocation Link → Result (Option ScanResults)
  results_of cl = cl.version_link and_then λ version_link.
      raw.get_project_version version_link and_then λ version.
      version.risk_profile_link and_then λ risk_link.
      raw.get_risk_profile risk_link and_then λ risk.
      version.policy_status_link and_then λ policy_link.
      raw.get_policy_status policy_link and_then λ policy.
      version.components_link and_then λ components.
      cl.scan_summaries_link and_then λ summaries_link.
      raw.list_scan_summaries summaries_link and_then λ summaries.
      done (build_results cl risk policy components summaries)

  abbrev pub first_results : List (CodeLocation Link) → Result (Option ScanResults)
  first_results [] = done none
  first_results (cl ∷ others) = results_of cl

  abbrev pub lookup_scan : String → Result (Option ScanResults)
  lookup_scan name = raw.list_code_locations name and_then first_results

module _ {Link : Type 0} (clock : ℕ → ℤ) (raw : RawClient Link) where
  using_code_location-IsSafe :
      (cl : CodeLocation Link) → IsSafe (fetch_scan_results_using_code_location clock raw cl)
  unfolding fetch_scan_results_using_code_location
  using_code_location-IsSafe cl = then_do-IsSafe _ _ (return-IsSafe cl.version_link) λ version_link.
      then_do-IsSafe _ _ (request-IsSafe clock (raw.get_project_version version_link)) λ version.
        then_do-IsSafe _ _ (return-IsSafe version.risk_profile_link) λ risk_link.
          then_do-IsSafe _ _ (request-IsSafe clock (raw.get_risk_profile risk_link)) λ risk.
            then_do-IsSafe _ _ (return-IsSafe version.policy_status_link) λ policy_link.
              then_do-IsSafe _ _ (request-IsSafe clock (raw.get_policy_status policy_link))
                λ policy. then_do-IsSafe _ _ (return-IsSafe version.components_link) λ components.
                  then_do-IsSafe _ _ (return-IsSafe cl.scan_summaries_link) λ summaries_link.
                    then_do-IsSafe _ _
                      (request-IsSafe clock (raw.list_scan_summaries summaries_link))
                      λ summaries.
                        return-IsSafe (done (build_results cl risk policy components summaries))

  first-IsSafe : (cls : List (CodeLocation Link)) → IsSafe (fetch_first clock raw cls)
  unfolding fetch_first
  first-IsSafe [] = return-IsSafe _
  first-IsSafe (cl ∷ others) = using_code_location-IsSafe cl

  -- Whatever the server answers, fetchScan does not panic, and leaves a well-formed circuit breaker
  -- well formed.
  pub fetch_scan-IsSafe :
      (name : String) (c : Client)
      → IsSound c
      → Returns (λ r. IsSound r.0) (fetch_scan clock raw name c)
  unfolding fetch_scan
  fetch_scan-IsSafe name = then_do-IsSafe _ _ (request-IsSafe clock _) first-IsSafe

  using_code_location-Gives :
      (cl : CodeLocation Link)
      → Gives (fetch_scan_results_using_code_location clock raw cl) (results_of raw cl)
  unfolding fetch_scan_results_using_code_location
  using_code_location-Gives cl =
      then_do-Gives _ _ _ _ (return-Gives cl.version_link) λ version_link.
        then_do-Gives _ _ _ _ (request-Gives clock (raw.get_project_version version_link))
          λ version. then_do-Gives _ _ _ _ (return-Gives version.risk_profile_link) λ risk_link.
            then_do-Gives _ _ _ _ (request-Gives clock (raw.get_risk_profile risk_link)) λ risk.
              then_do-Gives _ _ _ _ (return-Gives version.policy_status_link) λ policy_link.
                then_do-Gives _ _ _ _ (request-Gives clock (raw.get_policy_status policy_link))
                  λ policy.
                    then_do-Gives _ _ _ _ (return-Gives version.components_link) λ components.
                      then_do-Gives _ _ _ _ (return-Gives cl.scan_summaries_link) λ summaries_link.
                        then_do-Gives _ _ _ _
                          (request-Gives clock (raw.list_scan_summaries summaries_link))
                          λ summaries.
                            return-Gives (done (build_results cl risk policy components summaries))

  first-Gives :
      (cls : List (CodeLocation Link)) → Gives (fetch_first clock raw cls) (first_results raw cls)
  unfolding fetch_first
  first-Gives [] = return-Gives _
  first-Gives (cl ∷ others) = using_code_location-Gives cl

  fetch_scan-Gives : (name : String) → Gives (fetch_scan clock raw name) (lookup_scan raw name)
  unfolding fetch_scan
  fetch_scan-Gives name = then_do-Gives _ _ _ _ (request-Gives clock _) first-Gives

  -- While the circuit breaker is enabled fetchScan gives what the server's answers say, as if there
  -- were no breaker.
  pub fetch_scan-lookup_scan :
      (name : String) (c : Client)
      → IsOpen c
      → Returns (λ r. r.1 ≡ lookup_scan raw name) (fetch_scan clock raw name c)
  fetch_scan-lookup_scan name c o = Returns-weaken (fetch_scan-Gives name c o) λ r t. t.0

  -- Before the time of a disabled breaker fetchScan fails, whatever the server would answer, and the
  -- breaker stays as it is.
  pub fetch_scan-disabled :
      (name : String) (c : Client)
      → IsSound c
      → ¬ IsDue (clock c.readings) c.circuit_breaker
      → Returns
          (λ r. (r.1 ≡ err breaker_disabled) × (r.0.circuit_breaker ≡ c.circuit_breaker))
          (fetch_scan clock raw name c)
  unfolding fetch_scan
  fetch_scan-disabled name c s n =
      Returns-bind (request-refused clock (raw.list_code_locations name) c s n)
        λ o t. go o.0 o.1 t.0 t.1
    where
      go :
          (d : Client) (result : Result (List (CodeLocation Link)))
          → result ≡ err breaker_disabled
          → d.circuit_breaker ≡ c.circuit_breaker
          → Returns
              (λ r. (r.1 ≡ err breaker_disabled) × (r.0.circuit_breaker ≡ c.circuit_breaker))
              (proceed (fetch_first clock raw) (d, result))
      go d result e b = rw e (returned (refl, b))

-- The results come from the first code location of the server's list, whatever its name is.
module _ {Link : Type 0} (raw : RawClient Link) where
  abbrev NamedAfter : CodeLocation Link → Result (Option ScanResults) → Type 0
  NamedAfter cl (done (some r)) = r.code_location_name ≡ cl.name
  NamedAfter cl other = Unit {0}

  build_results-NamedAfter :
      (cl : CodeLocation Link) (risk : RawRiskProfile) (policy : RawPolicyStatus)
      (components : String) (summaries : List RawScanSummary)
      → NamedAfter cl (done (build_results cl risk policy components summaries))
  unfolding build_results
  build_results-NamedAfter cl risk policy components [] = tt
  build_results-NamedAfter cl risk policy components (s ∷ summaries) = refl

  and_then-NamedAfter :
      {A : Type 0} (cl : CodeLocation Link) (result : Result A)
      (rest : A → Result (Option ScanResults))
      → ((a : A) → NamedAfter cl (rest a))
      → NamedAfter cl (result and_then rest)
  and_then-NamedAfter cl (done a) rest h = h a
  and_then-NamedAfter cl (err e) rest h = tt

  results_of-NamedAfter : (cl : CodeLocation Link) → NamedAfter cl (results_of raw cl)
  results_of-NamedAfter cl = and_then-NamedAfter cl cl.version_link _ λ version_link.
      and_then-NamedAfter cl (raw.get_project_version version_link) _ λ version.
        and_then-NamedAfter cl version.risk_profile_link _ λ risk_link.
          and_then-NamedAfter cl (raw.get_risk_profile risk_link) _ λ risk.
            and_then-NamedAfter cl version.policy_status_link _ λ policy_link.
              and_then-NamedAfter cl (raw.get_policy_status policy_link) _ λ policy.
                and_then-NamedAfter cl version.components_link _ λ components.
                  and_then-NamedAfter cl cl.scan_summaries_link _ λ summaries_link.
                    and_then-NamedAfter cl (raw.list_scan_summaries summaries_link) _
                      λ summaries. build_results-NamedAfter cl risk policy components summaries

  -- Where the results come from.
  abbrev pub ComesFrom : Result (List (CodeLocation Link)) → ScanResults → Type 0
  ComesFrom answer r =
      (cl : CodeLocation Link) × (others : List (CodeLocation Link)) × (answer ≡ done (cl ∷ others))
      × (r.code_location_name ≡ cl.name)

  lookup-ComesFrom :
      (answer : Result (List (CodeLocation Link))) (r : ScanResults)
      → (answer and_then first_results raw) ≡ done (some r)
      → ComesFrom answer r
  lookup-ComesFrom (done []) r e = absurd (cc)
  lookup-ComesFrom (done (cl ∷ others)) r e =
      (cl, others, refl, subst (NamedAfter cl) e (results_of-NamedAfter cl))
  lookup-ComesFrom (err x) r e = absurd (cc)

  -- While the circuit breaker is enabled, results that fetchScan gives are those of the first code
  -- location that the server lists for the name, and carry that code location's name, which is not
  -- compared with the name that was asked for.
  pub fetch_scan-ComesFrom :
      (clock : ℕ → ℤ) (name : String) (c d : Client) (r : ScanResults)
      → IsOpen c
      → fetch_scan clock raw name c ≡ ok (d, done (some r))
      → ComesFrom (raw.list_code_locations name) r
  fetch_scan-ComesFrom clock name c d r o e = lookup-ComesFrom (raw.list_code_locations name) r (
      sym (
        Returns-ok (
          subst
            (Returns (λ (out : Client × Result (Option ScanResults)). out.1 ≡ lookup_scan raw name))
            e (fetch_scan-lookup_scan clock raw name c o))))
