-- ===== src/Core/HubManager/Created.antt =====
-- pkg/core/hubmanager.go: the hubs that the two creators of clients make.
use perceptor.Prelude.{
  ℤ, ◌≡◌, inl, inr, refl, Option-cases, false, Option, String, Returns, returned, Returns-bind,
}
use perceptor.Util.Timer.Invariant.{new_timer-IsSteady}
use perceptor.Hub.Hub.{Timings, new_hub}
use perceptor.Hub.Hub.Login.{ArePositive, new_running_timer-Runs}
use perceptor.Core.HubManager.{Host, create_hub_client, default_timings}
use perceptor.Core.HubManager.Keyed.{IsSoundCreation}

new_hub-host :
    (host : String) (limit : ℤ) (timings : Timings)
    → ArePositive timings
    → Returns (λ hub. (hub.host ≡ host) × (hub.stopped ≡ false)) (new_hub host limit timings)
unfolding new_hub
new_hub-host host limit timings (a, b, c, d, e, f) =
    Returns-bind (new_running_timer-Runs _ e) λ metrics x.
      Returns-bind (new_timer-IsSteady _ a) λ check p.
        Returns-bind (new_timer-IsSteady _ b) λ fetch q.
          Returns-bind (new_timer-IsSteady _ c) λ fetch_all r.
            Returns-bind (new_running_timer-Runs _ f)
              λ logins y. Returns-bind (new_timer-IsSteady _ d) λ refresh s. returned (refl, refl)

-- The real creator makes hubs that have the domain as their host.
pub create_hub_client-IsSoundCreation :
    (new_with_session : Host → Option String) (host : Host)
    → Returns (IsSoundCreation host) (create_hub_client new_with_session host)
unfolding create_hub_client
create_hub_client-IsSoundCreation new_with_session host =
    elim (Option-cases (new_with_session host)) [
      | inl e ↦
          rw (e, create_hub_client)
            (Returns-bind
              (new_hub-host host.domain host.concurrent_scan_limit default_timings
                (refl, refl, refl, refl, refl, refl))
              λ hub s. returned s)
      | inr (m, e) ↦ rw (e, create_hub_client) (returned tt)
    ]
