-- ===== src/Core/ApiMapper/Tests.antt =====
-- Runs of the conversions of pkg/core/apimapper.go at concrete inputs.
use perceptor.Prelude.{◌≡◌, refl, pos, none, some, [], ◌∷◌, String}
use perceptor.Core.Model.Image.{Pod}
use perceptor.Core.ApiMapper.{ApiImage, api_pod_to_core_pod, core_pod_to_api_pod}
use perceptor.Core.ApiMapper.RoundTrip.{api_pod_to_core_pod-core_pod_to_api_pod}

abbrev digest : String
digest = "0123456789abcdef0123456789abcdef0123456789abcdef0123456789abcdef"

abbrev web : Pod
web = record {
  name = "web";
  uid = "uid1";
  namespace = "default";
  containers =
      record {
        image = record {
          repository = "nginx";
          tag = "1.15";
          sha = digest;
          priority = pos 4;
          black_duck_project_name = "nginx";
          black_duck_project_version = "1.15";
        };
        name = "nginx";
      }
      ∷ [];
}

abbrev cut_off : ApiImage
cut_off = record {
  repository = "nginx";
  tag = "1.15";
  sha = "0123";
  priority = none;
  black_duck_project_name = "";
  black_duck_project_version = "";
}

api_pod_to_core_pod-core_pod_to_api_pod_example :
    api_pod_to_core_pod (core_pod_to_api_pod web) ≡ some web
api_pod_to_core_pod-core_pod_to_api_pod_example =
    api_pod_to_core_pod-core_pod_to_api_pod web (refl, tt)
