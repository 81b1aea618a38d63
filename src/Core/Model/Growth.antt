-- ===== src/Core/Model/Growth.antt =====
-- pkg/core/model/model.go: what the loops of addPod, allPods and allImages do to the model.
use perceptor.Prelude.{
  ℕ, ◌≡◌, ◌⊎◌, inl, refl, List, [], ◌∷◌, Option, none, some, String, arith, Returns, returned,
  Returns-bind, Returns-weaken, string_eq,
}
use text.Mathlib.TextEquality.{eq_iff}
use perceptor.Core.Model.ScanStatus.{unknown, status_eq}
use perceptor.Core.Model.Image.{DockerImageSha, Image, Pod, new_image_info}
use perceptor.Core.Model.Preserve.{IsConsistent-same}
use perceptor.Core.Model.State.{Model, Error, Outcome, combine_errors, nil}
use perceptor.Core.Model.Handlers.{create_image, for_each, add_pod, all_pods, all_images}
use perceptor.Core.Model.Invariant.{IsConsistent, HasTruePriorities, status_at}
use perceptor.Core.Model.Creation.{Created, create_image_correct}

-- A step that keeps the model consistent, changes no status but adds images with status Unknown.
pub record Grown (m next : Model) : Type 0 where
  pub consistent : IsConsistent next
  pub statuses :
      (k : DockerImageSha)
      → (status_at next k ≡ status_at m k)
        ⊎ (status_at m k ≡ none) × (status_at next k ≡ some unknown)
  pub true_priorities : HasTruePriorities m → HasTruePriorities next

pub Created-Grown :
    {now : ℕ} {m : Model} {image : Image} {r : Model × Option Error}
    → Created now m image r
    → Grown m r.0
unfolding new_image_info
Created-Grown {m = m} {image} t = record {
  consistent = t.consistent;
  statuses = λ k. ground (arith, t.entries k, eq_iff image.sha k);
  true_priorities = t.true_priorities;
}

pub Grown-refl : {m : Model} → IsConsistent m → Grown m m
Grown-refl c = record { consistent = c; statuses = λ k. inl refl; true_priorities = λ h. h }

pub Grown-trans : {m n o : Model} → Grown m n → Grown n o → Grown m o
Grown-trans s t = record {
  consistent = t.consistent;
  statuses = λ k. ground (arith, s.statuses k, t.statuses k);
  true_priorities = λ h. t.true_priorities (s.true_priorities h);
}

-- Changing the pods alone changes nothing here.
pub with_pods :
    {m next : Model} (pods : List (String × Pod))
    → Grown m next
    → Grown m (record next { pods = pods })
with_pods {next = next} pods g = record {
  consistent = IsConsistent-same {m = next} refl refl g.consistent;
  statuses = g.statuses;
  true_priorities = g.true_priorities;
}

-- A loop whose body grows the model grows the model; without errors in the body it has none.
pub for_each-Grown :
    {A : Type 0} (add : A → Model → Outcome)
    → ((x : A) (m : Model) → IsConsistent m → Returns (λ r. Grown m r.0 × (r.1 ≡ none)) (add x m))
    → (xs : List A) (m : Model) → IsConsistent m
    → Returns (λ r. Grown m r.0 × (r.1 ≡ nil)) (for_each add xs m)
unfolding for_each
for_each-Grown add body [] m c = returned (Grown-refl c, refl)
for_each-Grown add body (x ∷ xs) m c = Returns-bind (body x m c) λ (next, err) (g, fine).
    Returns-bind (for_each-Grown add body xs next g.consistent)
      λ (last, errs) (h, none_left). returned (Grown-trans g h, ground (arith, fine, none_left))

pub create_image-Grown :
    (now : ℕ) (image : Image) (m : Model)
    → IsConsistent m
    → Returns (λ r. Grown m r.0 × (r.1 ≡ none)) (create_image now image m)
create_image-Grown now image m c =
    Returns-weaken (create_image_correct now m image c) λ r t. (Created-Grown t, t.done)

-- Adding a pod, all pods or all images never panics nor fails, and only adds images and raises
-- priorities.
pub add_pod-Grown :
    (now : ℕ) (pod : Pod) (m : Model)
    → IsConsistent m
    → Returns (λ r. Grown m r.0 × (r.1 ≡ none)) (add_pod now pod m)
unfolding add_pod combine_errors
add_pod-Grown now pod m c =
    Returns-bind (for_each-Grown _ (λ x. create_image-Grown now x.image) pod.containers m c)
      λ (next, errs) (g, fine). rw fine (returned (with_pods _ g, refl))

pub all_pods-Grown :
    (now : ℕ) (pods : List Pod) (m : Model)
    → IsConsistent m
    → Returns (λ r. Grown m r.0 × (r.1 ≡ none)) (all_pods now pods m)
unfolding all_pods combine_errors
all_pods-Grown now pods m c =
    let start = with_pods [] (Grown-refl c) in
    Returns-bind (for_each-Grown _ (add_pod-Grown now) pods _ start.consistent)
      λ (next, errs) (g, fine). rw fine (returned (Grown-trans start g, refl))

pub all_images-Grown :
    (now : ℕ) (images : List Image) (m : Model)
    → IsConsistent m
    → Returns (λ r. Grown m r.0 × (r.1 ≡ none)) (all_images now images m)
unfolding all_images combine_errors
all_images-Grown now images m c =
    Returns-bind (for_each-Grown _ (create_image-Grown now) images m c)
      λ (next, errs) (g, fine). rw fine (returned (g, refl))
