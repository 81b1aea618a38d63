-- ===== src/Core/Perceptor.antt =====
-- pkg/core/perceptor.go: the requests that perceptor serves, on the model, the hubs and the hosts. The
-- model answers one request after another, and an error of its action is logged only.
pub mod Sound
pub mod Starting
pub mod NextImage
pub mod Unknown
pub mod Requests
pub mod Serving
pub mod Lifecycle
mod Tests
use perceptor.Prelude.{
  ℕ, ℤ, Bool, true, false, List, [], ◌∷◌, Option, none, some, String, Run, ok, or_panic, ◌>>=◌,
  if◌then◌else◌, ◌==◌, string_eq,
}
use perceptor.Prelude.Maps
use perceptor.Hub.DataTypes.{Scan, ScanStage}
use perceptor.Hub.Model.{Update, did_find_scan, did_finish_scan}
use perceptor.Hub.Hub.{Hub, hub_reset_circuit_breaker}
use perceptor.Core.Model.ScanStatus.{unknown}
use perceptor.Core.Model.Image.{
  DockerImageSha, Image, Pod, get_black_duck_project_name, get_black_duck_project_version_name,
  get_black_duck_scan_name,
}
use perceptor.Core.Model.State
use perceptor.Core.Model.State.{Model, new_model}
use perceptor.Core.Model.Handlers.{
  Action, adds_pod, updates_pod, deletes_pod, sets_pods, adds_image, sets_images, finishes_scan_job,
  scan_finishes, starts_scan_client, apply, get_shas, get_next_image_from_scan_queue,
}
use perceptor.Core.ApiMapper.{ApiImage, ApiPod, api_image_to_core_image, api_pod_to_core_pod}
use perceptor.Core.HubManager.{
  Host, Hosts, HubManager, Creation, new_hub_manager, start_set_hubs, create_next,
  start_scan_client, finish_scan_client,
}
use perceptor.Core.ScanScheduler.{assign_image}

-- `hosts` are the Black Duck hosts of the secret, of which some may be nil.
pub record Perceptor : Type 0 where
  pub model : Model
  pub hub_manager : HubManager
  pub hosts : Hosts

unfoldable pub new_perceptor : Hosts → Perceptor
new_perceptor hosts = record { model = new_model; hub_manager = new_hub_manager; hosts = hosts }

-- UpdateConfig; the goroutine that creates the hubs is to run.
unfoldable pub update_config : Perceptor → Run Perceptor
update_config pcp =
    start_set_hubs pcp.hosts pcp.hub_manager >>= λ hm. ok (record pcp { hub_manager = hm })

-- A turn of a goroutine that creates hubs.
unfoldable pub create_hub : (Host → Run Creation) → ℕ → Perceptor → Run Perceptor
create_hub new_hub_client i pcp =
    create_next new_hub_client i pcp.hub_manager >>= λ hm. ok (record pcp { hub_manager = hm })

-- `refused` is the error of a pod or an image that the mapper refuses.
pub data Response : Type 0 where
  handled refused : Response

-- One action of the model.
unfoldable pub send : ℕ → Action → Perceptor → Run Perceptor
send now action pcp = apply now action pcp.model >>= λ (next, e). ok (record pcp { model = next })

unfoldable pub send_mapped :
    {A : Type 0} → ℕ → (A → Action) → Option A → Perceptor → Run (Perceptor × Response)
send_mapped now action none pcp = ok (pcp, refused)
send_mapped now action (some a) pcp = send now (action a) pcp >>= λ next. ok (next, handled)

unfoldable pub add_pod : ℕ → ApiPod → Perceptor → Run (Perceptor × Response)
add_pod now pod pcp = send_mapped now adds_pod (api_pod_to_core_pod pod) pcp

unfoldable pub update_pod : ℕ → ApiPod → Perceptor → Run (Perceptor × Response)
update_pod now pod pcp = send_mapped now updates_pod (api_pod_to_core_pod pod) pcp

unfoldable pub delete_pod : ℕ → String → Perceptor → Run Perceptor
delete_pod now name pcp = send now (deletes_pod name) pcp

unfoldable pub add_image : ℕ → ApiImage → Perceptor → Run (Perceptor × Response)
add_image now image pcp = send_mapped now adds_image (api_image_to_core_image image) pcp

-- The loops that map all pods or images, and stop at the first error.
unfoldable pub map_all : {A B : Type 0} → (A → Option B) → List A → Option (List B)
map_all f [] = some []
map_all f (a ∷ rest) =
    let mapped = map_all f rest in
    elim (f a) [ none ↦ none | some b ↦ elim mapped [ none ↦ none | some bs ↦ some (b ∷ bs) ] ]

unfoldable pub update_all_pods : ℕ → List ApiPod → Perceptor → Run (Perceptor × Response)
update_all_pods now pods pcp = send_mapped now sets_pods (map_all api_pod_to_core_pod pods) pcp

unfoldable pub update_all_images : ℕ → List ApiImage → Perceptor → Run (Perceptor × Response)
update_all_images now images pcp =
    send_mapped now sets_images (map_all api_image_to_core_image images) pcp

-- What a scan client gets to scan.
pub record ImageSpec : Type 0 where
  pub repository : String
  pub tag : String
  pub sha : String
  pub scheme : String
  pub domain : String
  pub port : ℤ
  pub user : String
  pub password : String
  pub black_duck_project_name : String
  pub black_duck_project_version_name : String
  pub black_duck_scan_name : String
  pub priority : ℤ

unfoldable pub image_spec : Host → Image → Run ImageSpec
image_spec host image = get_black_duck_project_version_name image >>= λ version. ok (record {
  repository = image.repository;
  tag = image.tag;
  sha = image.sha;
  scheme = host.scheme;
  domain = host.domain;
  port = host.port;
  user = host.user;
  password = host.password;
  black_duck_project_name = get_black_duck_project_name image;
  black_duck_project_version_name = version;
  black_duck_scan_name = get_black_duck_scan_name image;
  priority = image.priority;
})

-- What comes through the channel of a request; a request that is not answered waits for ever.
pub data Answer : Type 0 where
  answered : Option ImageSpec → Answer
  unanswered : Answer

-- The scan of an image starts in the model and on the hub; their errors are not looked at.
unfoldable pub start_scan : ℕ → String → Image → Perceptor → Run Perceptor
start_scan now url image pcp = send now (starts_scan_client image.sha) pcp >>= λ next.
    ok (record next { hub_manager = (start_scan_client url image.sha next.hub_manager).0 })

unfoldable pub offer_image : ℕ → Option Hub → Image → Perceptor → Run (Perceptor × Answer)
offer_image now none image pcp = ok (pcp, answered none)
offer_image now (some hub) image pcp = elim (Maps.lookup hub.host pcp.hosts) [
  | none ↦ ok (pcp, unanswered)
  | some entry ↦ or_panic entry >>= λ host. image_spec host image >>= λ spec.
      start_scan now hub.host image pcp >>= λ next. ok (next, answered (some spec))
]

unfoldable pub get_next_image : ℕ → Perceptor → Run (Perceptor × Answer)
get_next_image now pcp = get_next_image_from_scan_queue pcp.model >>= λ first. elim first [
  | none ↦ ok (pcp, answered none)
  | some image ↦ offer_image now (assign_image pcp.hub_manager.hubs) image pcp
]

-- The specification of a job may be nil.
pub record FinishedScanClientJob : Type 0 where
  pub image_spec : Option ImageSpec
  pub err : String

abbrev pub image_of_job : ImageSpec → Image
image_of_job spec = record {
  repository = spec.repository;
  tag = spec.tag;
  sha = spec.sha;
  priority = spec.priority;
  black_duck_project_name = spec.black_duck_project_name;
  black_duck_project_version = spec.black_duck_project_version_name;
}

abbrev pub scan_error : String → Option State.Error
scan_error err = if err == "" then none else some (State.scan_client err)

abbrev pub has_failed : String → Bool
has_failed err = if err == "" then false else true

unfoldable pub post_finish_scan : ℕ → FinishedScanClientJob → Perceptor → Run Perceptor
post_finish_scan now job pcp = or_panic job.image_spec >>= λ spec.
    send now (finishes_scan_job (image_of_job spec) (scan_error job.err)) (record pcp {
      hub_manager =
          (finish_scan_client spec.domain spec.black_duck_scan_name (has_failed job.err)
            pcp.hub_manager).0;
    })

-- An update that a hub has published.
unfoldable pub handle_update : ℕ → Update → Perceptor → Run Perceptor
handle_update now (did_find_scan name results) pcp =
    send now (scan_finishes name (some results)) pcp
handle_update now (did_finish_scan name results) pcp =
    send now (scan_finishes name (some results)) pcp

unfoldable pub reset_all : List (String × Hub) → List (String × Hub)
reset_all [] = []
reset_all ((url, hub) ∷ rest) = (url, hub_reset_circuit_breaker hub) ∷ reset_all rest

-- PostCommand, with whether the command asks for the reset.
unfoldable pub post_command : Bool → Perceptor → Perceptor
post_command true pcp = record pcp {
  hub_manager = record pcp.hub_manager { hubs = reset_all pcp.hub_manager.hubs };
}
post_command false pcp = pcp
