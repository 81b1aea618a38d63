-- ===== src/Core/ScanScheduler/Capacity.antt =====
-- pkg/core/scanscheduler.go with pkg/core/hubmanager.go: a hub's limit of scans, and the hub that is found.
use perceptor.Prelude.{
  ◌≤◌, ◌+◌, ◌≤ℤ◌, ◌≡◌, inl, inr, ◌⊎◌, refl, Bool, Bool-cases, true, false, pos, List, [], ◌∷◌, none,
  some, String, arith, length, string_eq,
}
use perceptor.Prelude.Maps
use perceptor.Hub.DataTypes.{Scan, ScanStage}
use perceptor.Hub.Model.{names_at, in_progress_scans, start_scan_client, set_scan, is_in_progress}
use perceptor.Hub.Hub.{Hub, hub_start_scan_client}
use perceptor.Core.HubManager
use perceptor.Core.HubManager.{HubManager}
use perceptor.Core.HubManager.Keyed.{IsKeyed}
use perceptor.Core.ScanScheduler.{is_available, assign_image}
use text.Mathlib.TextEquality.{eq_iff}

length-names_at :
    (test : ScanStage → Bool) (name : String) (scan : Scan) (scans : List (String × Scan))
    → length (names_at test (Maps.insert name scan scans)) ≤ length (names_at test scans) + 1
unfolding names_at Maps.insert
length-names_at test name scan [] = ground arith
length-names_at test name scan ((n, s) ∷ rest) = ground (arith, length-names_at test name scan rest)

-- One more scan on a hub that is available does not go over the limit of the hub.
pub start_scan_client-within_limit :
    (name : String) (hub : Hub)
    → is_available hub ≡ true
    → pos (length (in_progress_scans (hub_start_scan_client name hub).model))
      ≤ℤ hub.concurrent_scan_limit
unfolding in_progress_scans hub_start_scan_client start_scan_client set_scan
start_scan_client-within_limit name hub e = ground (
  arith,
  e,
  length-names_at is_in_progress name
      (record { stage = ScanStage.scan_client; scan_results = none }) hub.model.scans,
)

-- The hub that is found is one of the hubs, and is available; if none is found, no hub is.
pub assign_image_cases :
    (hubs : List (String × Hub))
    → IsKeyed hubs
    → ((assign_image hubs ≡ none)
        × ((key : String) (hub : Hub) → Maps.lookup key hubs ≡ some hub → is_available hub ≡ false))
      ⊎ ((hub : Hub) × (assign_image hubs ≡ some hub)
          × (Maps.lookup hub.host hubs ≡ some hub)
          × (is_available hub ≡ true))
unfolding assign_image Maps.lookup
assign_image_cases [] k = inl (refl, λ key hub e. cc)
assign_image_cases ((url, hub) ∷ rest) (same, new, k) = elim (Bool-cases (is_available hub)) [
  | inl e ↦ inr (hub, rw (e, assign_image) refl, ground (arith, same.0, eq_iff url hub.host), e)
  | inr e ↦ elim (assign_image_cases rest k) [
    | inl (f, full) ↦ inl (
      rw (e, assign_image) f,
      λ key other g. ground (arith, e, eq_iff url key, g, full key other),
    )
    | inr (found, f, at, free) ↦
        inr (found, rw (e, assign_image) f, ground (arith, eq_iff url found.host, new, at), free)
  ]
]

-- On the hub under the url one more scan has started, the call has no error, and the scans in
-- progress do not go over the limit of the hub.
pub record HasStarted (url name : String) (hub : Hub) (hm : HubManager) : Type 0 where
  pub accepted : (HubManager.start_scan_client url name hm).1 ≡ none
  pub on :
      Maps.lookup url (HubManager.start_scan_client url name hm).0.hubs
      ≡ some (hub_start_scan_client name hub)
  pub started :
      Maps.lookup name (hub_start_scan_client name hub).model.scans
      ≡ some (record { stage = ScanStage.scan_client; scan_results = none })
  pub within :
      pos (length (in_progress_scans (hub_start_scan_client name hub).model))
      ≤ℤ hub.concurrent_scan_limit

HasStarted-lookup :
    (name : String) (hub : Hub) (hm : HubManager)
    → Maps.lookup hub.host hm.hubs ≡ some hub
    → is_available hub ≡ true
    → HasStarted hub.host name hub hm
unfolding HubManager.start_scan_client hub_start_scan_client start_scan_client set_scan
HasStarted-lookup name hub hm on free = record {
  accepted = rw (on, HubManager.start_scan_client) refl;
  on =
      rw (on, HubManager.start_scan_client)
        (ground (
          arith,
          Maps.lookup-insert hub.host hub.host (hub_start_scan_client name hub) hm.hubs,
          eq_iff hub.host hub.host,
        ));
  started = ground (
    arith,
    Maps.lookup-insert name name (record { stage = ScanStage.scan_client; scan_results = none })
        hub.model.scans,
    eq_iff name name,
  );
  within = start_scan_client-within_limit name hub free;
}

-- The hubs of a manager, each under its own host: if no hub is assigned, every one has as many scans
-- in progress as its limit allows, or more; otherwise the hub that is assigned is one of them, has fewer
-- than its limit, and a scan that starts on it, under its host, is accepted and stays within the limit.
pub assign_image_correct :
    (name : String) (hm : HubManager)
    → IsKeyed hm.hubs
    → ((assign_image hm.hubs ≡ none)
        × ((key : String) (hub : Hub)
            → Maps.lookup key hm.hubs ≡ some hub
            → hub.concurrent_scan_limit ≤ℤ pos (length (in_progress_scans hub.model))))
      ⊎ ((hub : Hub) × (assign_image hm.hubs ≡ some hub)
          × (Maps.lookup hub.host hm.hubs ≡ some hub)
          × HasStarted hub.host name hub hm)
assign_image_correct name hm k = elim (assign_image_cases hm.hubs k) [
  | inl (e, full) ↦ inl (e, λ key hub f. ground (arith, full key hub f))
  | inr (hub, e, on, free) ↦ inr (hub, e, on, HasStarted-lookup name hub hm on free)
]
