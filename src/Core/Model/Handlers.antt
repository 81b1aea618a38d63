-- ===== src/Core/Model/Handlers.antt =====
-- pkg/core/model/model.go: the handlers of the actions, and the loop that runs one action after
-- another. The channel of actions is the list of actions in the order in which they are received.
use perceptor.Prelude.{
  ℕ, pos, negsuc, not, List, [], ◌∷◌, Option, none, some, String, Run, ok, ◌>>=◌, or_panic,
  if◌then◌else◌, ◌==◌, string_eq, ltb_ℤ,
}
use perceptor.Prelude.Maps
use perceptor.Util.PriorityQueue
use perceptor.Hub.DataTypes.{ScanResults, ScanSummaryStatus, scan_summary_status}
use perceptor.Core.Model.ScanStatus.{
  ScanStatus, unknown, in_queue, running_scan_client, running_hub_scan, complete, status_eq,
}
use perceptor.Core.Model.Image.{
  DockerImageSha, Image, Container, Pod, ImageInfo, set_priority, new_image_info, image_of,
  qualified_name,
}
use perceptor.Core.Model.State.{
  Model, Outcome, Error, Errors, nil, cons, sha_not_found, pod_not_found, not_in_queue,
  nil_scan_results, failed_scan, annotated, combine_errors, put_image, set_image_priority,
  set_image_scan_status, and_then,
}

-- The first result, whether the image was added, is only logged.
unfoldable pub create_image : ℕ → Image → Model → Outcome
create_image now image m = elim (Maps.lookup image.sha m.images) [
  | some info ↦
      if not (ltb_ℤ info.priority image.priority)
      then ok (m, none)
      else if ltb_ℤ info.priority (pos 0)
      then ok (m, none)
      else (let raised = put_image image.sha (set_priority image.priority info) m in
          if not (info.scan_status == in_queue)
          then ok (raised, none)
          else (set_image_priority image.sha image.priority raised
              >>= and_then (annotated "unable to set image priority in scan queue")
                  λ done. ok (done, none)))
  | none ↦ ok (
    put_image image.sha
        (new_image_info now image (record { repository = image.repository; tag = image.tag })) m,
    none,
  )
]

abbrev pub add_image : ℕ → Image → Model → Outcome
add_image = create_image

abbrev pub cons_error : Option Error → Errors → Errors
cons_error none errs = errs
cons_error (some e) errs = cons e errs

-- The loops of addPod, allPods and allImages: each item in turn, and the errors in their order.
unfoldable pub for_each {ℓ} :
    {A : Type ℓ} → (A → Model → Outcome) → List A → Model → Run (Model × Errors)
for_each add [] m = ok (m, nil)
for_each add (x ∷ rest) m =
    add x m >>= λ (next, e). for_each add rest next >>= λ (last, errs). ok (last, cons_error e errs)

unfoldable pub add_pod : ℕ → Pod → Model → Outcome
add_pod now pod m =
    for_each (λ (c : Container). add_image now c.image) pod.containers m >>= λ (next, errs). ok (
      record next { pods = Maps.insert (qualified_name pod) pod next.pods },
      combine_errors "adding pod images" errs,
    )

unfoldable pub delete_pod : String → Model → Outcome
delete_pod name m = elim (Maps.lookup name m.pods) [
  | none ↦ ok (m, some (pod_not_found name))
  | some _ ↦ ok (record m { pods = Maps.delete name m.pods }, none)
]

unfoldable pub all_pods : ℕ → List Pod → Model → Outcome
all_pods now pods m = for_each (add_pod now) pods (record m { pods = [] }) >>= λ (next, errs).
    ok (next, combine_errors "allPods" errs)

unfoldable pub all_images : ℕ → List Image → Model → Outcome
all_images now images m =
    for_each (add_image now) images m >>= λ (next, errs). ok (next, combine_errors "allImages" errs)

unfoldable pub delete_image : DockerImageSha → Model → Outcome
delete_image sha m = elim (Maps.lookup sha m.images) [
  | none ↦ ok (m, some (sha_not_found sha))
  | some _ ↦ ok (record m { images = Maps.delete sha m.images }, none)
]

-- scanDidFinish without results, by the status of the image.
unfoldable pub scan_not_found : ℕ → DockerImageSha → ScanStatus → Model → Outcome
scan_not_found now sha unknown m = set_image_scan_status now sha in_queue m
scan_not_found now sha status m = ok (m, some (nil_scan_results sha status))

unfoldable pub scan_succeeded : ℕ → DockerImageSha → ScanStatus → Model → Outcome
scan_succeeded now sha complete m = ok (m, none)
scan_succeeded now sha status m = set_image_scan_status now sha complete m

unfoldable pub scan_in_progress : ℕ → DockerImageSha → ScanStatus → Model → Outcome
scan_in_progress now sha unknown m = set_image_scan_status now sha running_hub_scan m
scan_in_progress now sha in_queue m = set_image_scan_status now sha running_hub_scan m
scan_in_progress now sha status m = ok (m, none)

unfoldable pub scan_failed : ℕ → DockerImageSha → ScanStatus → Model → Outcome
scan_failed now sha unknown m = set_image_scan_status now sha in_queue m
scan_failed now sha running_hub_scan m = set_image_scan_status now sha in_queue m
scan_failed now sha status m = ok (m, some (failed_scan sha status))

unfoldable pub scan_did_finish : ℕ → DockerImageSha → Option ScanResults → Model → Outcome
scan_did_finish now sha results m = elim (Maps.lookup sha m.images) [
  | none ↦ ok (m, some (sha_not_found sha))
  | some info ↦ elim results [
    | none ↦ scan_not_found now sha info.scan_status m
    | some r ↦ elim (scan_summary_status r) [
      | ScanSummaryStatus.success ↦
          scan_succeeded now sha info.scan_status
            (put_image sha (record info { scan_results = some r }) m)
      | ScanSummaryStatus.in_progress ↦ scan_in_progress now sha info.scan_status m
      | ScanSummaryStatus.failure ↦ scan_failed now sha info.scan_status m
    ]
  ]
]

unfoldable pub start_scan_client : ℕ → DockerImageSha → Model → Outcome
start_scan_client now sha m = elim (Maps.lookup sha m.images) [
  | none ↦ ok (m, some (sha_not_found sha))
  | some info ↦
      if not (info.scan_status == in_queue)
      then ok (m, some (not_in_queue sha))
      else set_image_scan_status now sha running_scan_client m
]

-- The scan client's error is `none` for nil.
unfoldable pub finish_running_scan_client : ℕ → Image → Option Error → Model → Outcome
finish_running_scan_client now image none m = elim (Maps.lookup image.sha m.images) [
  | none ↦ ok (m, some (sha_not_found image.sha))
  | some info ↦ set_image_scan_status now image.sha running_hub_scan m
]
finish_running_scan_client now image (some e) m = elim (Maps.lookup image.sha m.images) [
  | none ↦ ok (m, some (sha_not_found image.sha))
  | some info ↦
      set_image_scan_status now image.sha in_queue
        (put_image image.sha (set_priority (negsuc 0) info) m)
]

-- The map entry of a sha that must be there.
unfoldable pub unsafe_get : DockerImageSha → Model → Run ImageInfo
unsafe_get sha m = or_panic (Maps.lookup sha m.images)

-- The queue holds shas only, so the branch for another type is not there.
unfoldable pub get_next_image_from_scan_queue : Model → Run (Option Image)
get_next_image_from_scan_queue m = PriorityQueue.peek m.image_scan_queue >>= λ first. elim first [
  | none ↦ ok none
  | some sha ↦ unsafe_get sha m >>= λ info. image_of info >>= λ image. ok (some image)
]

unfoldable pub get_shas : ScanStatus → List (DockerImageSha × ImageInfo) → List DockerImageSha
get_shas status [] = []
get_shas status ((sha, info) ∷ rest) =
    let others = get_shas status rest in if info.scan_status == status then sha ∷ others else others

-- The actions that change the model.
pub data Action : Type 0 where
  adds_pod updates_pod : Pod → Action
  deletes_pod : String → Action
  sets_pods : List Pod → Action
  adds_image : Image → Action
  sets_images : List Image → Action
  finishes_scan_job : Image → Option Error → Action
  scan_finishes : DockerImageSha → Option ScanResults → Action
  starts_scan_client : DockerImageSha → Action

unfoldable pub apply : ℕ → Action → Model → Outcome
apply now (adds_pod pod) m = add_pod now pod m
apply now (updates_pod pod) m = add_pod now pod m
apply now (deletes_pod name) m = delete_pod name m
apply now (sets_pods pods) m = all_pods now pods m
apply now (adds_image image) m = add_image now image m
apply now (sets_images images) m = all_images now images m
apply now (finishes_scan_job image err) m = finish_running_scan_client now image err m
apply now (scan_finishes sha results) m = scan_did_finish now sha results m
apply now (starts_scan_client sha) m = start_scan_client now sha m

-- The loop of NewModel: an error is logged, and the next action runs on the state it left.
unfoldable pub run_actions : List (ℕ × Action) → Model → Run Model
run_actions [] m = ok m
run_actions ((now, action) ∷ rest) m = apply now action m >>= λ (next, e). run_actions rest next
