-- ===== src/Core/Perceptor/NextImage.antt =====
-- pkg/core/perceptor.go: what a scan client gets when it asks for the next image.
use perceptor.Prelude.{
  pos, length, ◌≤ℤ◌, ℕ, ◌≡◌, ◌⊎◌, inl, inr, refl, Option-cases, true, false, none, some, String,
  Returns, returned, Returns-bind, string_eq,
}
use perceptor.Prelude.Maps
use perceptor.Hub.Model.{in_progress_scans}
use perceptor.Hub.Hub.{Hub, hub_start_scan_client}
use perceptor.Core.Model.ScanStatus.{running_scan_client}
use perceptor.Core.Model.Image.{DockerImageSha, Image, ImageInfo}
use perceptor.Core.Model.Invariant.{HasTruePriorities, status_at}
use perceptor.Core.Model.NextImage.{
  IsWaiting, IsBestWaiting, get_next_image_correct, get_next_image-waiting,
}
use perceptor.Core.HubManager.{Host}
use perceptor.Core.ScanScheduler.{is_available, assign_image}
use perceptor.Core.ScanScheduler.Capacity.{assign_image_cases, start_scan_client-within_limit}
use perceptor.Core.Perceptor.{
  Perceptor, ImageSpec, Answer, answered, unanswered, offer_image, get_next_image,
}
use perceptor.Core.Perceptor.Sound.{IsSound}
use perceptor.Core.Perceptor.Starting.{
  IsSpecOf, image_spec-IsSpecOf, start_scan-started, waiting_long,
}

-- Nothing is handed out, and nothing changes: no image waits, or no hub is available.
abbrev pub IsWithoutImage : Perceptor → Perceptor × Answer → Type 0
IsWithoutImage pcp r =
    (r ≡ (pcp, answered none))
    × (((k : DockerImageSha) (i : ImageInfo) → ¬ IsWaiting pcp.model k i)
        ⊎ ((key : String) (hub : Hub)
            → Maps.lookup key pcp.hub_manager.hubs ≡ some hub
            → is_available hub ≡ false))

-- The request is left without an answer: the secret has no host for the hub.
abbrev pub IsUnanswered : Perceptor → Perceptor × Answer → Type 0
IsUnanswered pcp r =
    (r ≡ (pcp, unanswered))
    × ((hub : Hub) × (Maps.lookup hub.host pcp.hub_manager.hubs ≡ some hub)
        × (Maps.lookup hub.host pcp.hosts ≡ none))

-- The best waiting image is handed out for a hub that is available, and its scan has started on both
-- sides.
pub record HasHandedOut (pcp : Perceptor) (r : Perceptor × Answer) : Type 0 where
  pub image : Image
  pub hub : Hub
  pub host : Host
  pub spec : ImageSpec
  pub best : IsBestWaiting pcp.model image
  pub on : Maps.lookup hub.host pcp.hub_manager.hubs ≡ some hub
  pub available : is_available hub ≡ true
  pub within :
      pos (length (in_progress_scans (hub_start_scan_client image.sha hub).model))
      ≤ℤ hub.concurrent_scan_limit
  pub known_host : Maps.lookup hub.host pcp.hosts ≡ some (some host)
  pub answer : r.1 ≡ answered (some spec)
  pub fits : IsSpecOf image host spec
  pub status : status_at r.0.model image.sha ≡ some running_scan_client
  pub started :
      Maps.lookup hub.host r.0.hub_manager.hubs ≡ some (hub_start_scan_client image.sha hub)
  pub sound : IsSound r.0

-- The request for the next image on a sound state with true priorities
-- never panics. It gives nothing and changes nothing if no image waits or no hub is available.
-- Otherwise the waiting image that no other outranks is handed out, for a hub below its limit, and
-- is from then on RunningScanClient in the model and at the stage ScanClient on that hub, which has no
-- more scans in progress than its limit. It is left
-- without an answer when the hub's host is not in the secret.
pub get_next_image_cases :
    (now : ℕ) (pcp : Perceptor)
    → IsSound pcp
    → HasTruePriorities pcp.model
    → Returns
        (λ r. IsWithoutImage pcp r ⊎ (IsUnanswered pcp r ⊎ HasHandedOut pcp r))
        (get_next_image now pcp)
unfolding get_next_image offer_image
get_next_image_cases now pcp s h = elim (get_next_image_correct pcp.model s.sane.consistent h) [
  | inl (e, empty) ↦ rw e (returned (inl (refl, inl empty)))
  | inr (image, e, best) ↦ elim (assign_image_cases pcp.hub_manager.hubs s.managed.keyed) [
    | inl (f, full) ↦ rw (e, f) (returned (inl (refl, inr full)))
    | inr (hub, f, on, free) ↦ elim (Option-cases (Maps.lookup hub.host pcp.hosts)) [
      | inl g ↦ rw (e, f, offer_image, g) (returned (inr (inl (refl, (hub, on, g)))))
      | inr (none, g) ↦ absurd (s.filled hub.host g)
      | inr (some host, g) ↦
          rw (e, f, offer_image, g)
            (Returns-bind
              (image_spec-IsSpecOf host image (waiting_long pcp image.sha best.info s best.waiting))
              λ spec fits.
                Returns-bind (start_scan-started now hub image best.info pcp s best.waiting on)
                  λ next (sound, status, started). returned (
                    inr (
                      inr (record {
                        image = image;
                        hub = hub;
                        host = host;
                        spec = spec;
                        best = best;
                        on = on;
                        available = free;
                        within = start_scan_client-within_limit image.sha hub free;
                        known_host = g;
                        answer = refl;
                        fits = fits;
                        status = status;
                        started = started;
                        sound = sound;
                      }))))
    ]
  ]
]

offer_image-IsSound :
    (now : ℕ) (pcp : Perceptor) (image : Image) (info : ImageInfo)
    → IsSound pcp
    → IsWaiting pcp.model image.sha info
    → Returns (λ r. IsSound r.0) (offer_image now (assign_image pcp.hub_manager.hubs) image pcp)
unfolding offer_image
offer_image-IsSound now pcp image info s w =
    elim (assign_image_cases pcp.hub_manager.hubs s.managed.keyed) [
      | inl (f, full) ↦ rw f (returned s)
      | inr (hub, f, on, free) ↦ elim (Option-cases (Maps.lookup hub.host pcp.hosts)) [
        | inl g ↦ rw (f, offer_image, g) (returned s)
        | inr (none, g) ↦ absurd (s.filled hub.host g)
        | inr (some host, g) ↦
            rw (f, offer_image, g)
              (Returns-bind (image_spec-IsSpecOf host image (waiting_long pcp image.sha info s w))
                λ spec fits.
                  Returns-bind (start_scan-started now hub image info pcp s w on)
                    λ next (sound, status, started). returned sound)
      ]
    ]

-- The request for the next image never panics on a sound state, and keeps it sound.
pub get_next_image-IsSound :
    (now : ℕ) (pcp : Perceptor) → IsSound pcp → Returns (λ r. IsSound r.0) (get_next_image now pcp)
unfolding get_next_image
get_next_image-IsSound now pcp s = elim (get_next_image-waiting pcp.model s.sane.consistent) [
  | inl e ↦ rw e (returned s)
  | inr (image, info, e, w) ↦ rw e (offer_image-IsSound now pcp image info s w)
]
