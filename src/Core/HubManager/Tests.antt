-- ===== src/Core/HubManager/Tests.antt =====
-- Runs of the hub manager of pkg/core/hubmanager.go at concrete inputs.
use perceptor.Prelude.{
  inl, inr, ◌==◌, Bool-cases, some, ◌≡◌, pos, true, false, List, [], ◌∷◌, Option, none, String,
  arith, Returns, string_eq,
}
use perceptor.Prelude.Maps
use perceptor.Core.HubManager.{
  Host, Hosts, HubManager, new_hub_manager, create_hub_client, set_hubs,
}
use perceptor.Core.HubManager.Lookup.{IsByDomain, wanted_hub, lookup-set_hubs}
use perceptor.Core.HubManager.Keyed.{IsKeyed, IsFilled}
use perceptor.Core.HubManager.Created.{create_hub_client-IsSoundCreation}
use perceptor.Core.HubManager.Calls.{
  Call, IsManaged, sets_hubs, takes_turn, starts_scan_client, finishes_scan_client, run_calls,
  run_calls-new_hub_manager,
}
use text.Mathlib.TextEquality.{eq_iff}

abbrev pub hub_one : Host
hub_one = record {
  scheme = "https";
  domain = "hub1";
  port = pos 443;
  user = "sysadmin";
  password = "blackduck";
  concurrent_scan_limit = pos 2;
}

abbrev hub_two : Host
hub_two = record hub_one { domain = "hub2" }

abbrev one : Hosts
one = ("hub1", some hub_one) ∷ []

abbrev both : Hosts
both = ("hub1", some hub_one) ∷ ("hub2", some hub_two) ∷ []

abbrev answers : Host → Option String
answers host = none

both-IsByDomain : IsByDomain both
unfolding Maps.lookup
both-IsByDomain key entry e = elim (Bool-cases ("hub1" == key)) [
  | inl f ↦ (hub_one, ground (arith, f, e), ground (arith, f, eq_iff "hub1" key))
  | inr f ↦
      (hub_two, ground (arith, f, eq_iff "hub2" key, e), ground (arith, f, eq_iff "hub2" key, e))
]

one-IsFilled : IsFilled one
unfolding Maps.lookup
one-IsFilled key e = ground (arith, e)

both-IsFilled : IsFilled both
unfolding Maps.lookup
both-IsFilled key e = ground (arith, e)

new_hub_manager-IsKeyed : IsKeyed new_hub_manager.hubs
unfolding new_hub_manager
new_hub_manager-IsKeyed = tt

lookup-set_hubs_example :
    Returns
      (λ (r : HubManager).
        (key : String)
        → Maps.lookup key r.hubs
          ≡ wanted_hub
              (create_hub_client answers)
              (Maps.lookup key both)
              (Maps.lookup key new_hub_manager.hubs))
      (set_hubs (create_hub_client answers) true both new_hub_manager)
lookup-set_hubs_example =
    lookup-set_hubs (create_hub_client answers) true both new_hub_manager
      (create_hub_client-IsSoundCreation answers) both-IsByDomain new_hub_manager-IsKeyed

-- The second configuration removes a hub, and the two goroutines take turns.
abbrev calls : List Call
calls =
    sets_hubs both
    ∷ takes_turn 0
    ∷ takes_turn 0
    ∷ starts_scan_client "hub2" "a"
    ∷ finishes_scan_client "hub3" "a" false
    ∷ sets_hubs one
    ∷ takes_turn 1
    ∷ []

run_calls-new_hub_manager_example :
    Returns IsManaged (run_calls (create_hub_client answers) calls new_hub_manager)
run_calls-new_hub_manager_example =
    run_calls-new_hub_manager (create_hub_client answers)
      (create_hub_client-IsSoundCreation answers) calls
      (both-IsFilled, (tt, (tt, (tt, (tt, (one-IsFilled, (tt, tt)))))))
