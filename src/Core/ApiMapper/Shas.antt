-- ===== src/Core/ApiMapper/Shas.antt =====
-- pkg/core/apimapper.go: the shas that come through the mapper.
use Prim.Native.String.{len}
use perceptor.Prelude.{
  ◌≡◌, inl, inr, subst, Option-cases, List, [], ◌∷◌, Option, none, some, String, arith, nat_eq,
}
use perceptor.Core.Model.Image.{Image, Container, new_docker_image_sha}
use perceptor.Core.Model.Shas.{All, HasPodShas}
use perceptor.Core.ApiMapper.{
  ApiImage, ApiContainer, ApiPod, api_image_to_core_image, api_container_to_core_container,
  raise_missing_priority, core_containers, api_pod_to_core_pod,
}

-- The sha has 64 characters.
abbrev pub IsSha : String → Type 0
IsSha sha = len sha ≡ 64

new_docker_image_sha-IsSha : (s sha : String) → new_docker_image_sha s ≡ some sha → IsSha sha
unfolding new_docker_image_sha
new_docker_image_sha-IsSha s sha e = ground (arith, e)

api_image_to_core_image-IsSha :
    (api : ApiImage) (image : Image) → api_image_to_core_image api ≡ some image → IsSha image.sha
unfolding api_image_to_core_image
api_image_to_core_image-IsSha api image e = elim (Option-cases (new_docker_image_sha api.sha)) [
  | inl f ↦ absurd (ground (arith, e, f))
  | inr (sha, f) ↦ ground (arith, e, f, new_docker_image_sha-IsSha api.sha sha f)
]

container-IsSha :
    (api : ApiContainer) (container : Container)
    → api_container_to_core_container api ≡ some container
    → IsSha (raise_missing_priority api container).image.sha
unfolding api_container_to_core_container raise_missing_priority
container-IsSha api container e = elim (Option-cases (api_image_to_core_image api.image)) [
  | inl f ↦ absurd (ground (arith, e, f))
  | inr (image, f) ↦ ground (arith, e, f, api_image_to_core_image-IsSha api.image image f)
]

-- What the mapper gives, if it gives anything, satisfies `Q`.
abbrev pub Gives : {A : Type 0} → (A → Type 0) → Option A → Type 0
Gives Q none = Unit {0}
Gives Q (some a) = Q a

core_containers-IsSha :
    (apis : List ApiContainer)
    → Gives (All (λ (c : Container). IsSha c.image.sha)) (core_containers apis)
unfolding core_containers
core_containers-IsSha [] = tt
core_containers-IsSha (api ∷ apis) = elim (Option-cases (api_container_to_core_container api)) [
  | inl f ↦ rw (f, core_containers) tt
  | inr (c, f) ↦ elim (Option-cases (core_containers apis)) [
    | inl g ↦ rw (f, core_containers, g) tt
    | inr (cs, g) ↦
        rw (f, core_containers, g)
          (
            container-IsSha api c f,
            subst (Gives (All (λ (c : Container). IsSha c.image.sha))) g
                (core_containers-IsSha apis),
          )
  ]
]

-- All images of a pod that the mapper takes have shas of 64 characters.
pub api_pod_to_core_pod-HasPodShas :
    (api : ApiPod) → Gives (HasPodShas IsSha) (api_pod_to_core_pod api)
unfolding api_pod_to_core_pod
api_pod_to_core_pod-HasPodShas api = elim (Option-cases (core_containers api.containers)) [
  | inl f ↦ rw (f, api_pod_to_core_pod) tt
  | inr (cs, f) ↦
      rw (f, api_pod_to_core_pod)
        (subst (Gives (All (λ (c : Container). IsSha c.image.sha))) f
          (core_containers-IsSha api.containers))
]

-- An image that the mapper takes has a sha of 64 characters.
pub api_image_to_core_image-Gives :
    (api : ApiImage) → Gives (λ (i : Image). IsSha i.sha) (api_image_to_core_image api)
api_image_to_core_image-Gives api = elim (Option-cases (api_image_to_core_image api)) [
  | inl f ↦ rw f tt
  | inr (image, f) ↦ rw f (api_image_to_core_image-IsSha api image f)
]
