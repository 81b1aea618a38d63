-- ===== src/Core/Model/Invariant.antt =====
-- What every state of the model satisfies, and what a step may do to the status of an image.
use perceptor.Prelude.{◌≡◌, ◌≢◌, inl, inr, Option-cases, [], Option, none, some, arith, string_eq}
use text.Mathlib.TextEquality.{eq_iff}
use perceptor.Prelude.Maps
use perceptor.Util.PriorityQueue.{Node}
use perceptor.Util.PriorityQueue.Slots.{find}
use perceptor.Util.PriorityQueue.Valid.{IsValid}
use perceptor.Core.Model.ScanStatus.{ScanStatus, in_queue, complete}
use perceptor.Core.Model.Image.{DockerImageSha, ImageInfo}
use perceptor.Core.Model.State.{Model, put_image}

-- An entry of the map of images: it knows its sha, it has a repo tag, and it has the results of its
-- scan once that is complete.
pub record IsSound (sha : DockerImageSha) (info : ImageInfo) : Type 0 where
  pub keyed : info.image_sha ≡ sha
  pub tagged : info.repo_tags ≢ []
  pub scanned : info.scan_status ≡ complete → info.scan_results ≢ none

abbrev pub info_status : Option ImageInfo → Option ScanStatus
info_status none = none
info_status (some info) = some info.scan_status

abbrev pub status_at : Model → DockerImageSha → Option ScanStatus
status_at m sha = info_status (Maps.lookup sha m.images)

-- The queue is valid and holds exactly the shas of the images whose status is InQueue.
pub record IsConsistent (m : Model) : Type 0 where
  pub queue : IsValid m.image_scan_queue
  pub sound :
      (sha : DockerImageSha) (info : ImageInfo)
      → Maps.lookup sha m.images ≡ some info
      → IsSound sha info
  pub waiting :
      (sha : DockerImageSha) (info : ImageInfo)
      → Maps.lookup sha m.images ≡ some info
      → info.scan_status ≡ in_queue
      → find m.image_scan_queue sha ≢ none
  pub queued :
      (sha : DockerImageSha) (n : Node DockerImageSha)
      → find m.image_scan_queue sha ≡ some n
      → (n.value ≡ sha) × (status_at m sha ≡ some in_queue)

-- The queue has each image at the priority that the image itself has.
abbrev pub HasTruePriorities : Model → Type 0
HasTruePriorities m =
    (sha : DockerImageSha) (n : Node DockerImageSha) (info : ImageInfo)
    → find m.image_scan_queue sha ≡ some n
    → Maps.lookup sha m.images ≡ some info
    → n.priority ≡ info.priority

-- An image that is not queued has no node in the queue.
pub find-not_waiting :
    {m : Model}
    → IsConsistent m
    → (sha : DockerImageSha) (info : ImageInfo) → Maps.lookup sha m.images ≡ some info
    → info.scan_status ≢ in_queue
    → find m.image_scan_queue sha ≡ none
find-not_waiting {m} c sha info e other = elim (Option-cases (find m.image_scan_queue sha)) [
  | inl f ↦ f
  | inr (n, f) ↦ absurd (other (ground (arith, c.queued sha n f)))
]

-- Replacing the entry of an image by one of the same status keeps the model consistent.
pub put_image-IsConsistent :
    {m : Model}
    → IsConsistent m
    → (sha : DockerImageSha) (info next : ImageInfo) → Maps.lookup sha m.images ≡ some info
    → next.scan_status ≡ info.scan_status
    → IsSound sha next
    → IsConsistent (put_image sha next m)
put_image-IsConsistent {m} c sha info next e same sound = record {
  queue = c.queue;
  sound =
      λ k i f. ground (arith, Maps.lookup-insert sha k next m.images, eq_iff sha k, c.sound k i);
  waiting = λ k i f s. ground (
    arith,
    Maps.lookup-insert sha k next m.images,
    eq_iff sha k,
    c.waiting k i,
    c.waiting k info,
  );
  queued =
      λ k n f. ground (arith, Maps.lookup-insert sha k next m.images, eq_iff sha k, c.queued k n f);
}
