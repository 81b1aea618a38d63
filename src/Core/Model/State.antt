-- ===== src/Core/Model/State.antt =====
-- pkg/core/model/model.go: the state of the model, and the transitions of an image from status to
-- status. A handler's state after an error stands beside the error, since Go changes it in place.
-- Each image has one `*ImageInfo`, reached through the map, so a change of it is an insert.
use perceptor.Prelude.{
  ◌≡◌, some-ne-none, Returns, returned, ℕ, ℤ, not, List, [], ◌∷◌, ◌++◌, Option, none, some, String,
  Run, ok, ◌>>=◌, if◌then◌else◌, string_eq,
}
use perceptor.Prelude.Maps
use perceptor.Util.PriorityQueue
use perceptor.Util.PriorityQueue.{PriorityQueue, new_priority_queue}
use perceptor.Core.Model.ScanStatus.{ScanStatus, in_queue, status_string, is_legal_transition}
use perceptor.Core.Model.Image.{DockerImageSha, Pod, ImageInfo, set_scan_status}

-- The errors of the package, with the values that their texts show.
mutual
  pub data Error : Type 0 where
    sha_not_found : DockerImageSha → Error
    pod_not_found : String → Error
    illegal_transition : ScanStatus → ScanStatus → DockerImageSha → Error
    queue_error : PriorityQueue.Error → Error
    not_in_queue : DockerImageSha → Error
    nil_scan_results : DockerImageSha → ScanStatus → Error
    failed_scan : DockerImageSha → ScanStatus → Error
    inconsistent : DockerImageSha → Error
    scan_client : String → Error
    annotated : String → Error → Error
    combined : String → Errors → Error

  pub data Errors : Type 0 where
    nil : Errors
    cons : Error → Errors → Errors

pub record ImageTransition : Type 0 where
  pub sha : DockerImageSha
  pub from : String
  pub to : ScanStatus
  pub err : Option Error
  pub time : ℕ

pub record Model : Type 0 where
  pub pods : List (String × Pod)
  pub images : List (DockerImageSha × ImageInfo)
  pub image_scan_queue : PriorityQueue DockerImageSha
  pub image_transitions : List ImageTransition

unfoldable pub new_model : Model
unfolding new_priority_queue
new_model = record {
  pods = [];
  images = [];
  image_scan_queue = new_priority_queue;
  image_transitions = [];
}

-- The outcome of a handler: the state, and the error if there is one.
abbrev pub Outcome : Type 0
Outcome = Run (Model × Option Error)

unfoldable pub combine_errors : String → Errors → Option Error
combine_errors message nil = none
combine_errors message errs = some (combined message errs)

abbrev pub put_image : DockerImageSha → ImageInfo → Model → Model
put_image sha info m = record m { images = Maps.insert sha info m.images }

abbrev pub with_queue : Model → PriorityQueue DockerImageSha → Model
with_queue m q = record m { image_scan_queue = q }

abbrev pub lift_queue_error : Option PriorityQueue.Error → Option Error
lift_queue_error none = none
lift_queue_error (some e) = some (queue_error e)

unfoldable pub add_image_to_scan_queue : DockerImageSha → Model → Outcome
add_image_to_scan_queue sha m = elim (Maps.lookup sha m.images) [
  | none ↦ ok (m, some (sha_not_found sha))
  | some info ↦ PriorityQueue.add m.image_scan_queue sha info.priority sha >>= λ (q, e).
      ok (with_queue m q, lift_queue_error e)
]

unfoldable pub set_image_priority : DockerImageSha → ℤ → Model → Outcome
set_image_priority sha priority m =
    PriorityQueue.set_priority m.image_scan_queue sha priority >>= λ (q, e).
    ok (with_queue m q, lift_queue_error e)

unfoldable pub remove_image_from_scan_queue : DockerImageSha → Model → Outcome
remove_image_from_scan_queue sha m = PriorityQueue.remove m.image_scan_queue sha >>= λ (q, _, e).
    ok (with_queue m q, lift_queue_error e)

unfoldable pub leave_state : DockerImageSha → ScanStatus → Model → Outcome
leave_state sha in_queue m = remove_image_from_scan_queue sha m
leave_state sha status m = ok (m, none)

unfoldable pub enter_state : DockerImageSha → ScanStatus → Model → Outcome
enter_state sha in_queue m = add_image_to_scan_queue sha m
enter_state sha status m = ok (m, none)

-- Runs the rest on the state, unless there is an error, which is returned with the annotation.
abbrev pub and_then : (Error → Error) → (Model → Outcome) → Model × Option Error → Outcome
and_then annotate rest (m, none) = rest m
and_then annotate rest (m, some e) = ok (m, some (annotate e))

unfoldable pub set_image_scan_status_for_sha : ℕ → DockerImageSha → ScanStatus → Model → Outcome
set_image_scan_status_for_sha now sha status m = elim (Maps.lookup sha m.images) [
  | none ↦ ok (m, some (sha_not_found sha))
  | some info ↦
      if not (is_legal_transition info.scan_status status)
      then ok (m, some (illegal_transition info.scan_status status sha))
      else (leave_state sha info.scan_status m
          >>= and_then (annotated "unable to leaveState") λ left.
            enter_state sha status left
            >>= and_then (annotated "unable to enter state")
                λ entered. ok (put_image sha (set_scan_status now status info) entered, none))
]

-- The status of the image as the log of transitions shows it.
unfoldable pub status_text : DockerImageSha → Model → String
unfolding status_string
status_text sha m = elim (Maps.lookup sha m.images) [
  | none ↦ "sha not found"
  | some info ↦ status_string info.scan_status
]

abbrev pub log_transition : ImageTransition → Model → Model
log_transition t m = record m { image_transitions = m.image_transitions ++ t ∷ [] }

unfoldable pub set_image_scan_status : ℕ → DockerImageSha → ScanStatus → Model → Outcome
set_image_scan_status now sha status m =
    set_image_scan_status_for_sha now sha status m >>= λ (next, e).
    let logged =
      log_transition
        (record { sha = sha; from = status_text sha m; to = status; err = e; time = now }) next in
    and_then (annotated "unable to transition image state") (λ done. ok (done, none)) (logged, e)

-- Without an error the rest runs, and here it only returns.
pub and_then-return {ℓ} :
    {P : Model × Option Error → Type ℓ} (annotate : Error → Error) (r : Model × Option Error)
    → r.1 ≡ none
    → P r
    → Returns P (and_then annotate (λ done. ok (done, none)) r)
and_then-return annotate (m, none) h p = returned p
and_then-return annotate (m, some e) h p = absurd (some-ne-none e h)
