-- ===== src/Core/Model/NextImage.antt =====
-- getNextImageFromScanQueue, and handing the image that it gives to a scan client.
use perceptor.Prelude.{
  ℕ, ◌≤ℤ◌, ◌≡◌, ◌≢◌, ◌⊎◌, inl, inr, refl, sym, ap, ◌∙◌, Option-cases, List, [], ◌∷◌, none, some,
  arith, ok, Returns, Returns-weaken, string_eq,
}
use text.Mathlib.TextEquality.{eq_iff}
use perceptor.Prelude.Maps
use perceptor.Util.PriorityQueue.Slots.{find}
use perceptor.Util.PriorityQueue.Valid.{peek_correct}
use perceptor.Core.Model.ScanStatus.{in_queue, running_scan_client, status_eq, is_legal_transition}
use perceptor.Core.Model.Image.{
  DockerImageSha, Image, ImageInfo, RepoTag, set_scan_status, image_of, first_repo_tag,
}
use perceptor.Core.Model.State.{Model}
use perceptor.Core.Model.Handlers.{unsafe_get, get_next_image_from_scan_queue, start_scan_client}
use perceptor.Core.Model.Invariant.{IsConsistent, HasTruePriorities, status_at}
use perceptor.Core.Model.Transition.{set_image_scan_status_correct}

-- The images whose status is InQueue.
abbrev pub IsWaiting : Model → DockerImageSha → ImageInfo → Type 0
IsWaiting m sha info = (Maps.lookup sha m.images ≡ some info) × (info.scan_status ≡ in_queue)

-- `image` describes an image in status InQueue, and no such image has a higher priority.
pub record IsBestWaiting (m : Model) (image : Image) : Type 0 where
  pub info : ImageInfo
  pub waiting : IsWaiting m image.sha info
  pub priority : image.priority ≡ info.priority
  pub highest :
      (k : DockerImageSha) (i : ImageInfo) → IsWaiting m k i → i.priority ≤ℤ image.priority

abbrev shown_image : RepoTag → ImageInfo → Image
shown_image tag info = record {
  repository = tag.repository;
  tag = tag.tag;
  sha = info.image_sha;
  priority = info.priority;
  black_duck_project_name = info.black_duck_project_name;
  black_duck_project_version = info.black_duck_project_version;
}

image_of-ok :
    (info : ImageInfo)
    → info.repo_tags ≢ []
    → (image : Image) × (image_of info ≡ ok image)
      × (image.sha ≡ info.image_sha)
      × (image.priority ≡ info.priority)
unfolding image_of first_repo_tag
image_of-ok info h = tagged info.repo_tags refl
  where
    tagged :
        (tags : List RepoTag)
        → info.repo_tags ≡ tags
        → (image : Image) × (image_of info ≡ ok image)
          × (image.sha ≡ info.image_sha)
          × (image.priority ≡ info.priority)
    tagged [] e = absurd (h e)
    tagged (t ∷ rest) e = (shown_image t info, rw (e, image_of, first_repo_tag), refl, refl)

-- On a consistent model with true priorities GetNextImage never panics: it gives nil exactly if no
-- image waits, and otherwise a waiting image that no other waiting image outranks.
pub get_next_image_correct :
    (m : Model)
    → IsConsistent m
    → HasTruePriorities m
    → ((get_next_image_from_scan_queue m ≡ ok none)
        × ((k : DockerImageSha) (i : ImageInfo) → ¬ IsWaiting m k i))
      ⊎ ((image : Image) × (get_next_image_from_scan_queue m ≡ ok (some image))
          × IsBestWaiting m image)
unfolding get_next_image_from_scan_queue unsafe_get
get_next_image_correct m c h = elim (peek_correct m.image_scan_queue c.queue) [
  | inl (e, _, empty) ↦
      inl (rw (e, get_next_image_from_scan_queue), λ k i (f, s). c.waiting k i f s (empty k))
  | inr (top, e, _, (found, above)) ↦
      let (value, status) = c.queued top.key top found in
      elim (Option-cases (Maps.lookup top.value m.images)) [
        | inl f ↦ absurd (ground (arith, value, status, f))
        | inr (info, f) ↦
            let old = c.sound top.value info f in
            let (image, run, sha, priority) = image_of-ok info old.tagged in
            let same : image.sha ≡ top.value = sha ∙ old.keyed in
            inr (
              image,
              rw (e, get_next_image_from_scan_queue, f, run),
              record {
                info = info;
                waiting = (rw same f, ground (arith, value, status, f));
                priority = priority;
                highest = λ k i (g, s). elim (Option-cases (find m.image_scan_queue k)) [
                  | inl absent ↦ absurd (c.waiting k i g s absent)
                  | inr (n, present) ↦ ground (
                    arith,
                    priority,
                    above k n present,
                    h k n i present g,
                    h top.key top info found (ap (λ v. Maps.lookup v m.images) (sym value) ∙ f),
                  )
                ];
              },
            )
      ]
]

-- On a consistent model GetNextImage never panics: it gives nil or an image that waits.
pub get_next_image-waiting :
    (m : Model)
    → IsConsistent m
    → (get_next_image_from_scan_queue m ≡ ok none)
      ⊎ ((image : Image) × (info : ImageInfo) × (get_next_image_from_scan_queue m ≡ ok (some image))
          × IsWaiting m image.sha info)
unfolding get_next_image_from_scan_queue unsafe_get
get_next_image-waiting m c = elim (peek_correct m.image_scan_queue c.queue) [
  | inl (e, _, empty) ↦ inl (rw (e, get_next_image_from_scan_queue) refl)
  | inr (top, e, _, (found, above)) ↦
      let (value, status) = c.queued top.key top found in
      elim (Option-cases (Maps.lookup top.value m.images)) [
        | inl f ↦ absurd (ground (arith, value, status, f))
        | inr (info, f) ↦
            let old = c.sound top.value info f in
            let (image, run, sha, priority) = image_of-ok info old.tagged in
            inr (
              image,
              info,
              rw (e, get_next_image_from_scan_queue, f, run) refl,
              (rw (sha ∙ old.keyed) f, ground (arith, value, status, f)),
            )
      ]
]

-- An image that waits can be started: StartScanClient succeeds, its status is RunningScanClient, and
-- it waits no longer.
pub start_scan_client-waiting :
    (now : ℕ) (m : Model) (sha : DockerImageSha) (info : ImageInfo)
    → IsConsistent m
    → IsWaiting m sha info
    → Returns
        (λ r.
          (r.1 ≡ none)
          × (status_at r.0 sha ≡ some running_scan_client)
          × (find r.0.image_scan_queue sha ≡ none))
        (start_scan_client now sha m)
unfolding start_scan_client is_legal_transition
start_scan_client-waiting now m sha info c (e, s) =
    rw (e, start_scan_client, s)
      (Returns-weaken (set_image_scan_status_correct now sha info running_scan_client c e) λ r t.
        let (done, images, nodes) = t.moved (rw s refl) in
        (
          done,
          ground (
            arith,
            ap (Maps.lookup sha) images,
            Maps.lookup-insert sha sha (set_scan_status now running_scan_client info) m.images,
            eq_iff sha sha,
          ),
          ground (arith, nodes sha, eq_iff sha sha),
        ))
