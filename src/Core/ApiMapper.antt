-- ===== src/Core/ApiMapper.antt =====
-- pkg/core/apimapper.go and the conversions of pkg/core/model/modelextensions.go: pods and images
-- between the API and the core model. The API's types are pkg/api/pod.go, container.go and image.go.
pub mod RoundTrip
pub mod Shas
mod Tests
use perceptor.Prelude.{ℤ, pos, List, [], ◌∷◌, Option, none, some, String}
use perceptor.Core.Model.Image.{Image, Container, Pod, new_docker_image_sha}

-- `priority` is a pointer, `none` for nil.
pub record ApiImage : Type 0 where
  pub repository : String
  pub tag : String
  pub sha : String
  pub priority : Option ℤ
  pub black_duck_project_name : String
  pub black_duck_project_version : String

pub record ApiContainer : Type 0 where
  pub image : ApiImage
  pub name : String

pub record ApiPod : Type 0 where
  pub name : String
  pub uid : String
  pub namespace : String
  pub containers : List ApiContainer

abbrev pub priority_or : ℤ → Option ℤ → ℤ
priority_or default none = default
priority_or default (some priority) = priority

-- `none` is the error for a sha of another length than 64; so in the functions below.
unfoldable pub api_image_to_core_image : ApiImage → Option Image
api_image_to_core_image image = elim (new_docker_image_sha image.sha) [
  | none ↦ none
  | some sha ↦ some (record {
    repository = image.repository;
    tag = image.tag;
    sha = sha;
    priority = priority_or (pos 0) image.priority;
    black_duck_project_name = image.black_duck_project_name;
    black_duck_project_version = image.black_duck_project_version;
  })
]

unfoldable pub api_container_to_core_container : ApiContainer → Option Container
api_container_to_core_container container = elim (api_image_to_core_image container.image) [
  | none ↦ none
  | some image ↦ some (record { image = image; name = container.name })
]

-- The body of the loop over the containers: without a priority, an image of a pod gets 1.
unfoldable pub raise_missing_priority : ApiContainer → Container → Container
raise_missing_priority api container = elim api.image.priority [
  | none ↦ record container { image = record container.image { priority = pos 1 } }
  | some _ ↦ container
]

unfoldable pub core_containers : List ApiContainer → Option (List Container)
core_containers [] = some []
core_containers (c ∷ cs) =
    let rest = core_containers cs in
    elim (api_container_to_core_container c) [
      | none ↦ none
      | some container ↦ elim rest [
        | none ↦ none
        | some containers ↦ some (raise_missing_priority c container ∷ containers)
      ]
    ]

unfoldable pub api_pod_to_core_pod : ApiPod → Option Pod
api_pod_to_core_pod pod = elim (core_containers pod.containers) [
  | none ↦ none
  | some containers ↦ some (record {
    name = pod.name;
    uid = pod.uid;
    namespace = pod.namespace;
    containers = containers;
  })
]

unfoldable pub core_container_to_api_container : Container → ApiContainer
core_container_to_api_container container = record {
  image = record {
    repository = container.image.repository;
    tag = container.image.tag;
    sha = container.image.sha;
    priority = some container.image.priority;
    black_duck_project_name = container.image.black_duck_project_name;
    black_duck_project_version = container.image.black_duck_project_version;
  };
  name = container.name;
}

unfoldable pub api_containers : List Container → List ApiContainer
api_containers [] = []
api_containers (c ∷ cs) = core_container_to_api_container c ∷ api_containers cs

unfoldable pub core_pod_to_api_pod : Pod → ApiPod
core_pod_to_api_pod pod = record {
  name = pod.name;
  uid = pod.uid;
  namespace = pod.namespace;
  containers = api_containers pod.containers;
}
