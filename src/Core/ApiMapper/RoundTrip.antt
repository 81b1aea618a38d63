-- ===== src/Core/ApiMapper/RoundTrip.antt =====
-- What comes back of a pod that goes from the core model to the API and back.
use Prim.Native.String.{len}
use perceptor.Prelude.{
  pos, ◌≡◌, ◌≢◌, ◌⊎◌, inl, inr, refl, List, [], ◌∷◌, none, some, Bool-cases, String, arith, ◌==◌,
  nat_eq,
}
use perceptor.Core.Model.Image.{Image, Container, Pod, new_docker_image_sha}
use perceptor.Core.ApiMapper.{
  ApiImage, priority_or, api_image_to_core_image, api_container_to_core_container,
  raise_missing_priority, core_containers, api_pod_to_core_pod, core_container_to_api_container,
  api_containers, core_pod_to_api_pod,
}

-- The images of all the containers have shas of 64 characters.
abbrev pub HaveShas : List Container → Type 0
HaveShas [] = Unit {0}
HaveShas (c ∷ cs) = (len c.image.sha ≡ 64) × HaveShas cs

sha_accepted : (sha : String) → len sha ≡ 64 → new_docker_image_sha sha ≡ some sha
unfolding new_docker_image_sha
sha_accepted sha e = rw (e, new_docker_image_sha) refl

sha_refused : (sha : String) → len sha ≢ 64 → new_docker_image_sha sha ≡ none
unfolding new_docker_image_sha
sha_refused sha n = ground (arith, n)

image_back :
    (c : Container)
    → len c.image.sha ≡ 64
    → api_image_to_core_image (core_container_to_api_container c).image ≡ some c.image
unfolding api_image_to_core_image core_container_to_api_container
image_back c e = rw (sha_accepted c.image.sha e, api_image_to_core_image) refl

container_back :
    (c : Container)
    → len c.image.sha ≡ 64
    → api_container_to_core_container (core_container_to_api_container c) ≡ some c
unfolding api_container_to_core_container core_container_to_api_container
container_back c e = rw (image_back c e, api_container_to_core_container) refl

core_containers-api_containers :
    (cs : List Container) → HaveShas cs → core_containers (api_containers cs) ≡ some cs
unfolding core_containers api_containers raise_missing_priority core_container_to_api_container
core_containers-api_containers [] h = refl
core_containers-api_containers (c ∷ cs) (e, h) =
    rw (container_back c e, core_containers-api_containers cs h, core_containers) refl

-- A pod whose images have shas of 64 characters comes back from the API as it was, its priorities
-- included.
pub api_pod_to_core_pod-core_pod_to_api_pod :
    (pod : Pod) → HaveShas pod.containers → api_pod_to_core_pod (core_pod_to_api_pod pod) ≡ some pod
unfolding api_pod_to_core_pod core_pod_to_api_pod
api_pod_to_core_pod-core_pod_to_api_pod pod h =
    rw (core_containers-api_containers pod.containers h, api_pod_to_core_pod) refl

-- The image of a container whose conversion succeeds.
pub record Converted (image : ApiImage) (core : Image) : Type 0 where
  pub sha : core.sha ≡ image.sha
  pub long : len core.sha ≡ 64
  pub priority : core.priority ≡ priority_or (pos 0) image.priority

-- An image is converted exactly if its sha has 64 characters; without a priority it has 0.
pub api_image_to_core_image_correct :
    (image : ApiImage)
    → ((len image.sha ≢ 64) × (api_image_to_core_image image ≡ none))
      ⊎ ((core : Image) × (api_image_to_core_image image ≡ some core) × Converted image core)
unfolding api_image_to_core_image
api_image_to_core_image_correct image = elim (Bool-cases (len image.sha == 64)) [
  | inl b ↦
      let e : len image.sha ≡ 64 = ground (arith, b) in
      inr (
        record {
          repository = image.repository;
          tag = image.tag;
          sha = image.sha;
          priority = priority_or (pos 0) image.priority;
          black_duck_project_name = image.black_duck_project_name;
          black_duck_project_version = image.black_duck_project_version;
        },
        rw (sha_accepted image.sha e, api_image_to_core_image) refl,
        record { sha = refl; long = e; priority = refl },
      )
  | inr b ↦
      let n : len image.sha ≢ 64 = λ p. ground (arith, b, p) in
      inl (n, rw (sha_refused image.sha n, api_image_to_core_image) refl)
]
