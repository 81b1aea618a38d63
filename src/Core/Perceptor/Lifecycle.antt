-- ===== src/Core/Perceptor/Lifecycle.antt =====
-- pkg/core/perceptor.go: an image from the answer to a scan client to the end of that scan client.
use perceptor.Prelude.{
  ℕ, ◌≡◌, refl, ap, sym, ◌∙◌, inl, inr, Option-cases, false, List, none, some, String, arith,
  Returns, returned, Returns-bind, Returns-weaken, string_eq,
}
use text.Mathlib.TextEquality.{eq_iff}
use perceptor.Prelude.Maps
use perceptor.Hub.DataTypes.{scan_client, hub_scan}
use perceptor.Hub.Model
use perceptor.Hub.Model.{finish_client_at, set_scan}
use perceptor.Hub.Hub.{Hub, hub_start_scan_client, hub_finish_scan_client}
use perceptor.Core.Model.ScanStatus.{running_scan_client, running_hub_scan, is_legal_transition}
use perceptor.Core.Model.Image.{DockerImageSha, Image, set_scan_status}
use perceptor.Core.Model.State.{Model}
use perceptor.Core.Model.Handlers.{apply, finish_running_scan_client}
use perceptor.Core.Model.Invariant.{IsConsistent, status_at}
use perceptor.Core.Model.Transition.{set_image_scan_status_correct}
use perceptor.Core.HubManager
use perceptor.Core.HubManager.{HubManager}
use perceptor.Core.HubManager.Lookup.{IsByDomain}
use perceptor.Core.Perceptor.{Perceptor, ImageSpec, Answer, image_of_job, post_finish_scan, send}
use perceptor.Core.Perceptor.NextImage.{HasHandedOut}
use perceptor.Core.Perceptor.Sound.{IsSound}

-- The image's scan client is done in the model.
finish_running_scan_client-running :
    (now : ℕ) (image : Image) (m : Model)
    → IsConsistent m
    → status_at m image.sha ≡ some running_scan_client
    → Returns
        (λ r. status_at r.0 image.sha ≡ some running_hub_scan)
        (finish_running_scan_client now image none m)
unfolding finish_running_scan_client is_legal_transition
finish_running_scan_client-running now image m c e =
    elim (Option-cases (Maps.lookup image.sha m.images)) [
      | inl f ↦ absurd (ground (arith, e, f))
      | inr (info, f) ↦
          let running : info.scan_status ≡ running_scan_client = ground (arith, e, f) in
          rw (f, finish_running_scan_client)
            (Returns-weaken (set_image_scan_status_correct now image.sha info running_hub_scan c f)
              λ r t.
                let (done, images, nodes) = t.moved (rw running refl) in
                ground (
                  arith,
                  ap (Maps.lookup image.sha) images,
                  Maps.lookup-insert image.sha image.sha (set_scan_status now running_hub_scan info)
                      m.images,
                  eq_iff image.sha image.sha,
                ))
    ]

insert-lookup :
    {V : Type 0} (key : String) (value : V) (entries : List (String × V))
    → Maps.lookup key (Maps.insert key value entries) ≡ some value
insert-lookup key value entries =
    ground (arith, Maps.lookup-insert key key value entries, eq_iff key key)

client_finished :
    (name : String) (m : Model.Model)
    → Maps.lookup name m.scans ≡ some (record { stage = scan_client; scan_results = none })
    → Maps.lookup name (Model.finish_scan_client name false m).0.scans
      ≡ some (record { stage = hub_scan; scan_results = none })
unfolding Model.finish_scan_client set_scan finish_client_at
client_finished name m e = rw (e, Model.finish_scan_client) (insert-lookup name _ _)

-- A scan whose client has started on the hub goes to the stage HubScan.
started-finished :
    (name : String) (hub : Hub)
    → Maps.lookup name
        (hub_finish_scan_client name false (hub_start_scan_client name hub)).model.scans
      ≡ some (record { stage = hub_scan; scan_results = none })
unfolding hub_finish_scan_client hub_start_scan_client Model.start_scan_client set_scan
started-finished name hub = client_finished name _ (insert-lookup name _ _)

manager_finished :
    (url name : String) (hub : Hub) (hm : HubManager)
    → Maps.lookup url hm.hubs ≡ some hub
    → Maps.lookup url (HubManager.finish_scan_client url name false hm).0.hubs
      ≡ some (hub_finish_scan_client name false hub)
unfolding HubManager.finish_scan_client
manager_finished url name hub hm e = rw (e, HubManager.finish_scan_client) (insert-lookup url _ _)

-- The image is scanned by the hub, in the model and on the hub under the url.
pub record IsInHubScan (url : String) (sha : DockerImageSha) (pcp : Perceptor) : Type 0 where
  pub status : status_at pcp.model sha ≡ some running_hub_scan
  pub hub : Hub
  pub on : Maps.lookup url pcp.hub_manager.hubs ≡ some hub
  pub stage :
      Maps.lookup sha hub.model.scans ≡ some (record { stage = hub_scan; scan_results = none })

model_finished :
    (now : ℕ) (image : Image) (sha : DockerImageSha) (m : Model)
    → IsConsistent m
    → image.sha ≡ sha
    → status_at m sha ≡ some running_scan_client
    → Returns
        (λ r. status_at r.0 sha ≡ some running_hub_scan)
        (finish_running_scan_client now image none m)
model_finished now image sha m c e status =
    Returns-weaken (finish_running_scan_client-running now image m c (ap (status_at m) e ∙ status))
      λ r t. ap (status_at r.0) (sym e) ∙ t

finished :
    (now : ℕ) (spec : ImageSpec) (url : String) (sha : DockerImageSha) (hub : Hub) (pcp : Perceptor)
    → IsSound pcp
    → spec.domain ≡ url
    → spec.black_duck_scan_name ≡ sha
    → spec.sha ≡ sha
    → Maps.lookup url pcp.hub_manager.hubs ≡ some (hub_start_scan_client sha hub)
    → status_at pcp.model sha ≡ some running_scan_client
    → Returns
        (IsInHubScan url sha)
        (post_finish_scan now (record { image_spec = some spec; err = "" }) pcp)
unfolding post_finish_scan send apply
finished now spec url sha hub pcp s at_url named same on status =
    Returns-bind
      (model_finished now (image_of_job spec) sha pcp.model s.sane.consistent same status)
      λ r t. returned (record {
        status = t;
        hub = hub_finish_scan_client sha false (hub_start_scan_client sha hub);
        on =
            rw (at_url, named)
              (manager_finished url sha (hub_start_scan_client sha hub) pcp.hub_manager on);
        stage = started-finished sha hub;
      })

-- An image that was handed out, with every entry of the secret a host under its domain, and whose scan client
-- then reports without an error: it is RunningHubScan in the model, and its scan is at the stage
-- HubScan on the very hub that it was handed out for.
pub post_finish_scan-handed_out :
    (now : ℕ) (pcp : Perceptor) (r : Perceptor × Answer) (out : HasHandedOut pcp r)
    → IsByDomain pcp.hosts
    → Returns
        (IsInHubScan out.hub.host out.image.sha)
        (post_finish_scan now (record { image_spec = some out.spec; err = "" }) r.0)
post_finish_scan-handed_out now pcp r out by_domain =
    let (sha, repository, tag, named, domain, priority) = out.fits in
    let (host, is_host, same) = by_domain out.hub.host (some out.host) out.known_host in
    finished now out.spec out.hub.host out.image.sha out.hub r.0 out.sound
      (domain ∙ ground (arith, is_host, same)) named sha out.started out.status
