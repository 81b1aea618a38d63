-- ===== src/Core/Perceptor/Requests.antt =====
-- pkg/core/perceptor.go: the requests and events that change the state, one after another.
use perceptor.Prelude.{ℕ, ◌≢◌, Bool, List, [], ◌∷◌, none, String, Run, ok, ◌>>=◌, string_eq}
use perceptor.Hub.Model.{Update}
use perceptor.Core.ApiMapper.{ApiImage, ApiPod}
use perceptor.Core.HubManager.{Host, Creation}
use perceptor.Core.Model.Image.{Image}
use perceptor.Core.Perceptor.{
  start_scan, Perceptor, update_config, create_hub, get_next_image, add_pod, update_pod, delete_pod,
  add_image, update_all_pods, update_all_images, FinishedScanClientJob, post_finish_scan,
  handle_update, post_command,
}
use perceptor.Core.Perceptor.Unknown.{handle_unknown_images}

-- The requests, and the events that the goroutines take. `starts_late` is the end of getNextImage,
-- which starts the scan, when other requests came in after the image was chosen; its beginning alone
-- changes nothing.
pub data Request : Type 0 where
  adds_api_pod updates_api_pod : ApiPod → Request
  deletes_api_pod : String → Request
  adds_api_image : ApiImage → Request
  updates_all_pods : List ApiPod → Request
  updates_all_images : List ApiImage → Request
  posts_finish_scan : FinishedScanClientJob → Request
  posts_command : Bool → Request
  hub_updates : Update → Request
  updates_config : Request
  creates_hub : ℕ → Request
  asks_next_image : Request
  starts_late : String → Image → Request
  finds_unknown_images : Request

-- The report of a scan client has a specification.
abbrev pub IsComplete : Request → Type 0
IsComplete (posts_finish_scan job) = job.image_spec ≢ none
IsComplete request = Unit {0}

abbrev pub AllComplete : List (ℕ × Request) → Type 0
AllComplete [] = Unit {0}
AllComplete ((now, request) ∷ rest) = IsComplete request × AllComplete rest

-- The state after a request that is answered.
abbrev pub only_state : {A : Type 0} → Run (Perceptor × A) → Run Perceptor
only_state call = call >>= λ (pcp, answer). ok pcp

unfoldable pub serve : (Host → Run Creation) → ℕ → Request → Perceptor → Run Perceptor
serve new_hub_client now (adds_api_pod pod) pcp = only_state (add_pod now pod pcp)
serve new_hub_client now (updates_api_pod pod) pcp = only_state (update_pod now pod pcp)
serve new_hub_client now (deletes_api_pod name) pcp = delete_pod now name pcp
serve new_hub_client now (adds_api_image image) pcp = only_state (add_image now image pcp)
serve new_hub_client now (updates_all_pods pods) pcp = only_state (update_all_pods now pods pcp)
serve new_hub_client now (updates_all_images images) pcp =
    only_state (update_all_images now images pcp)
serve new_hub_client now (posts_finish_scan job) pcp = post_finish_scan now job pcp
serve new_hub_client now (posts_command reset) pcp = ok (post_command reset pcp)
serve new_hub_client now (hub_updates update) pcp = handle_update now update pcp
serve new_hub_client now updates_config pcp = update_config pcp
serve new_hub_client now (creates_hub i) pcp = create_hub new_hub_client i pcp
serve new_hub_client now asks_next_image pcp = only_state (get_next_image now pcp)
serve new_hub_client now (starts_late url image) pcp = start_scan now url image pcp
serve new_hub_client now finds_unknown_images pcp = handle_unknown_images now pcp

unfoldable pub serve_all : (Host → Run Creation) → List (ℕ × Request) → Perceptor → Run Perceptor
serve_all new_hub_client [] pcp = ok pcp
serve_all new_hub_client ((now, request) ∷ rest) pcp =
    serve new_hub_client now request pcp >>= serve_all new_hub_client rest
