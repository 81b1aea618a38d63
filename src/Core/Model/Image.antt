-- ===== src/Core/Model/Image.antt =====
-- pkg/core/model: image.go, imageinfo.go, repotag.go, container.go, pod.go, dockerimagesha.go and
-- imagetransition.go. Times are numbers, and `now` is what `time.Now()` returns.
use Prim.Native.String
use Prim.Native.String.{len}
use perceptor.Prelude.{
  ℕ, ℤ, Option, none, some, List, [], ◌∷◌, String, Run, ok, panic, ◌>>=◌, not, ltb, if◌then◌else◌,
  ◌==◌, nat_eq, string_eq,
}
use perceptor.Hub.DataTypes.{ScanResults}
use perceptor.Core.Model.ScanStatus.{ScanStatus, unknown}

abbrev pub DockerImageSha : Type 0
DockerImageSha = String

-- `none` for the error; `len` counts bytes, as Go's does.
unfoldable pub new_docker_image_sha : String → Option DockerImageSha
new_docker_image_sha sha = if len sha == 64 then some sha else none

pub record Image : Type 0 where
  pub repository : String
  pub tag : String
  pub sha : DockerImageSha
  pub priority : ℤ
  pub black_duck_project_name : String
  pub black_duck_project_version : String

pub record RepoTag : Type 0 where
  pub repository : String
  pub tag : String

pub record Container : Type 0 where
  pub image : Image
  pub name : String

pub record Pod : Type 0 where
  pub name : String
  pub uid : String
  pub namespace : String
  pub containers : List Container

pub record ImageInfo : Type 0 where
  pub scan_status : ScanStatus
  pub time_of_last_status_change : ℕ
  pub time_of_last_refresh : Option ℕ
  pub scan_results : Option ScanResults
  pub image_sha : DockerImageSha
  pub repo_tags : List RepoTag
  pub priority : ℤ
  pub black_duck_project_name : String
  pub black_duck_project_version : String

abbrev pub set_scan_status : ℕ → ScanStatus → ImageInfo → ImageInfo
set_scan_status now status info = record info {
  scan_status = status;
  time_of_last_status_change = now;
}

abbrev pub set_priority : ℤ → ImageInfo → ImageInfo
set_priority priority info = record info { priority = priority }

-- `time_of_last_refresh` is `none` for Go's zero time.
unfoldable pub new_image_info : ℕ → Image → RepoTag → ImageInfo
new_image_info now image repo_tag = set_scan_status now unknown (record {
  scan_status = unknown;
  time_of_last_status_change = now;
  time_of_last_refresh = none;
  scan_results = none;
  image_sha = image.sha;
  repo_tags = repo_tag ∷ [];
  priority = image.priority;
  black_duck_project_name = image.black_duck_project_name;
  black_duck_project_version = image.black_duck_project_version;
})

unfoldable pub first_repo_tag : ImageInfo → Run RepoTag
first_repo_tag info = elim info.repo_tags [ [] ↦ panic | repo_tag ∷ _ ↦ ok repo_tag ]

-- The method Image of ImageInfo.
unfoldable pub image_of : ImageInfo → Run Image
unfolding first_repo_tag
image_of info = elim (first_repo_tag info) [
  | ok repo_tag ↦ ok (record {
    repository = repo_tag.repository;
    tag = repo_tag.tag;
    sha = info.image_sha;
    priority = info.priority;
    black_duck_project_name = info.black_duck_project_name;
    black_duck_project_version = info.black_duck_project_version;
  })
  | panic ↦ panic
  | Run.out_of_fuel ↦ Run.out_of_fuel
]

unfoldable pub qualified_name : Pod → String
qualified_name pod = String.◌++◌ (String.◌++◌ pod.namespace "/") pod.name

-- A slice of a shorter sha panics; a sha is ASCII, so bytes are characters.
unfoldable pub sha_prefix : Image → Run String
sha_prefix image = if ltb (len image.sha) 20 then panic else ok (String.slice image.sha 0 20)

unfoldable pub get_black_duck_project_name : Image → String
get_black_duck_project_name image =
    if image.black_duck_project_name == "" then image.repository else image.black_duck_project_name

unfoldable pub get_black_duck_project_version_name : Image → Run String
get_black_duck_project_version_name image =
    if not (image.black_duck_project_version == "")
    then ok image.black_duck_project_version
    else sha_prefix image >>= λ prefix.
        ok (String.◌++◌ (if image.tag == "" then "" else String.◌++◌ image.tag "-") prefix)

unfoldable pub get_black_duck_scan_name : Image → String
get_black_duck_scan_name image = image.sha
