-- ===== src/Core/Perceptor/Starting.antt =====
-- pkg/core/perceptor.go: how the scan of an image that is handed out starts.
use Prim.Native.String.{len}
use perceptor.Prelude.{
  ℕ, ◌≡◌, refl, ap, ◌∙◌, false, not, some, String, arith, Returns, returned, Returns-bind,
  Returns-if, Returns-both, ltb, ◌==◌, string_eq,
}
use text.Mathlib.TextEquality.{eq_iff}
use perceptor.Prelude.Maps
use perceptor.Hub.Hub.{Hub, hub_start_scan_client}
use perceptor.Core.Model.ScanStatus.{running_scan_client}
use perceptor.Core.Model.Image.{
  DockerImageSha, Image, ImageInfo, sha_prefix, get_black_duck_project_version_name,
  get_black_duck_scan_name,
}
use perceptor.Core.Model.Handlers.{starts_scan_client, apply}
use perceptor.Core.Model.Invariant.{status_at}
use perceptor.Core.Model.NextImage.{IsWaiting, start_scan_client-waiting}
use perceptor.Core.HubManager.{Host, start_scan_client}
use perceptor.Core.HubManager.Calls.{start_scan_client-IsManaged}
use perceptor.Core.Perceptor.{Perceptor, ImageSpec, send, image_spec, start_scan}
use perceptor.Core.Perceptor.Sound.{IsSound, send-IsSound}
use perceptor.Core.ApiMapper.Shas.{IsSha}

-- The specification is that of the image for the host.
abbrev pub IsSpecOf : Image → Host → ImageSpec → Type 0
IsSpecOf image host spec =
    (spec.sha ≡ image.sha)
    × (spec.repository ≡ image.repository)
    × (spec.tag ≡ image.tag)
    × (spec.black_duck_scan_name ≡ image.sha)
    × (spec.domain ≡ host.domain)
    × (spec.priority ≡ image.priority)

version_name-Returns :
    (image : Image)
    → ltb (len image.sha) 20 ≡ false
    → Returns (λ name. Unit {0}) (get_black_duck_project_version_name image)
unfolding get_black_duck_project_version_name sha_prefix
version_name-Returns image h =
    Returns-if (not (image.black_duck_project_version == "")) (λ e. returned tt)
      (λ e. rw h (returned tt))

pub image_spec-IsSpecOf :
    (host : Host) (image : Image)
    → ltb (len image.sha) 20 ≡ false
    → Returns (IsSpecOf image host) (image_spec host image)
unfolding image_spec get_black_duck_scan_name
image_spec-IsSpecOf host image h =
    Returns-bind (version_name-Returns image h)
      λ name u. returned (refl, refl, refl, refl, refl, refl)

start_scan_client-lookup :
    (url name : String) (hub : Hub) (pcp : Perceptor)
    → Maps.lookup url pcp.hub_manager.hubs ≡ some hub
    → Maps.lookup url (start_scan_client url name pcp.hub_manager).0.hubs
      ≡ some (hub_start_scan_client name hub)
unfolding start_scan_client
start_scan_client-lookup url name hub pcp e =
    rw (e, start_scan_client)
      (ground (
        arith,
        Maps.lookup-insert url url (hub_start_scan_client name hub) pcp.hub_manager.hubs,
        eq_iff url url,
      ))

send-started :
    (now : ℕ) (image : Image) (info : ImageInfo) (pcp : Perceptor)
    → IsSound pcp
    → IsWaiting pcp.model image.sha info
    → Returns
        (λ next.
          (status_at next.model image.sha ≡ some running_scan_client)
          × (next.hub_manager ≡ pcp.hub_manager))
        (send now (starts_scan_client image.sha) pcp)
unfolding send apply
send-started now image info pcp s w =
    Returns-bind (start_scan_client-waiting now pcp.model image.sha info s.sane.consistent w)
      λ r (_, status, _). returned (status, refl)

-- A scan of a waiting image that starts on one of the hubs starts in the model and on that hub.
pub start_scan-started :
    (now : ℕ) (hub : Hub) (image : Image) (info : ImageInfo) (pcp : Perceptor)
    → IsSound pcp
    → IsWaiting pcp.model image.sha info
    → Maps.lookup hub.host pcp.hub_manager.hubs ≡ some hub
    → Returns
        (λ next.
          IsSound next
          × (status_at next.model image.sha ≡ some running_scan_client)
          × (Maps.lookup hub.host next.hub_manager.hubs
              ≡ some (hub_start_scan_client image.sha hub)))
        (start_scan now hub.host image pcp)
unfolding start_scan
start_scan-started now hub image info pcp s w e =
    Returns-bind
      (Returns-both (send-IsSound now (starts_scan_client image.sha) pcp s tt)
        (send-started now image info pcp s w))
      λ next (t, (status, same)). returned (
        record {
          sane = t.sane;
          shas = t.shas;
          managed = start_scan_client-IsManaged hub.host image.sha next.hub_manager t.managed;
          filled = t.filled;
        },
        status,
        start_scan_client-lookup hub.host image.sha hub next
            (ap (λ hm. Maps.lookup hub.host hm.hubs) same ∙ e),
      )

-- Starting a scan never panics, whatever the image and the hub are, and keeps the state sound.
pub start_scan-IsSound :
    (now : ℕ) (url : String) (image : Image) (pcp : Perceptor)
    → IsSound pcp
    → Returns IsSound (start_scan now url image pcp)
unfolding start_scan
start_scan-IsSound now url image pcp s =
    Returns-bind (send-IsSound now (starts_scan_client image.sha) pcp s tt) λ next t.
      returned (record {
        sane = t.sane;
        shas = t.shas;
        managed = start_scan_client-IsManaged url image.sha next.hub_manager t.managed;
        filled = t.filled;
      })

-- The sha of an image that waits is long enough for its prefix.
pub waiting_long :
    (pcp : Perceptor) (sha : DockerImageSha) (info : ImageInfo)
    → IsSound pcp
    → IsWaiting pcp.model sha info
    → ltb (len sha) 20 ≡ false
waiting_long pcp sha info s w =
    let full : IsSha sha = s.shas sha (λ e. ground (arith, w, e)) in ground (arith, full)
