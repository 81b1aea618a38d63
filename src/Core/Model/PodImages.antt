-- ===== src/Core/Model/PodImages.antt =====
-- The images of the pods are images of the model.
use perceptor.Prelude.{
  ℕ, ◌≡◌, ◌≢◌, inl, inr, refl, ◌∙◌, Option-cases, Bool-cases, List, [], ◌∷◌, none, some, String,
  arith, Returns, returned, Returns-bind, Returns-both, Returns-weaken, ◌==◌, string_eq,
}
use text.Mathlib.TextEquality.{eq_iff}
use perceptor.Prelude.Maps
use perceptor.Core.Model.Image.{DockerImageSha, Image, Container, Pod, qualified_name}
use perceptor.Core.Model.State.{Model, Errors, nil, Outcome}
use perceptor.Core.Model.Handlers.{
  create_image, for_each, add_pod, all_pods, all_images, delete_pod,
}
use perceptor.Core.Model.Invariant.{IsConsistent, status_at}
use perceptor.Core.Model.Creation.{create_image_correct}
use perceptor.Core.Model.Growth.{
  Grown, Grown-refl, Grown-trans, Created-Grown, with_pods, create_image-Grown, add_pod-Grown,
}

-- Every container's image is in the model.
abbrev pub HasImages : Model → List Container → Type 0
HasImages m [] = Unit {0}
HasImages m (container ∷ rest) = (status_at m container.image.sha ≢ none) × HasImages m rest

abbrev pub HasKnownPods : Model → Type 0
HasKnownPods m =
    (name : String) (pod : Pod) → Maps.lookup name m.pods ≡ some pod → HasImages m pod.containers

-- No image leaves.
abbrev pub Keeps : Model → Model → Type 0
Keeps m next = (k : DockerImageSha) → status_at m k ≢ none → status_at next k ≢ none

HasImages-Keeps :
    (m next : Model) (cs : List Container) → Keeps m next → HasImages m cs → HasImages next cs
HasImages-Keeps m next [] keeps h = tt
HasImages-Keeps m next (c ∷ cs) keeps h =
    (keeps c.image.sha h.0, HasImages-Keeps m next cs keeps h.1)

Grown-Keeps : {m next : Model} → Grown m next → Keeps m next
Grown-Keeps g k h = elim (g.statuses k) [
  | inl same ↦ λ e. h (ground (arith, same))
  | inr (absent, new) ↦ absurd (h absent)
]

pub HasKnownPods-Keeps :
    (m next : Model) → next.pods ≡ m.pods → Keeps m next → HasKnownPods m → HasKnownPods next
HasKnownPods-Keeps m next pods keeps known name pod e =
    HasImages-Keeps m next pod.containers keeps (known name pod (rw pods at e))

-- The loop of addPod leaves the image of every container in the model.
record Contained (m : Model) (cs : List Container) (r : Model × Errors) : Type 0 where
  images : HasImages r.0 cs
  grown : Grown m r.0
  pods : r.0.pods ≡ m.pods
  done : r.1 ≡ nil

add_containers-Contained :
    (now : ℕ) (cs : List Container) (m : Model)
    → IsConsistent m
    → Returns (Contained m cs) (for_each (λ (c : Container). create_image now c.image) cs m)
unfolding for_each
add_containers-Contained now [] m c =
    returned (record { images = tt; grown = Grown-refl c; pods = refl; done = refl })
add_containers-Contained now (x ∷ cs) m c =
    Returns-bind (create_image_correct now m x.image c) λ (next, err) t.
      Returns-bind (add_containers-Contained now cs next t.consistent) λ (last, errs) u.
        let there : status_at next x.image.sha ≢ none =
          λ e. ground (arith, t.entries x.image.sha, eq_iff x.image.sha x.image.sha) in
        returned (record {
          images = (Grown-Keeps u.grown x.image.sha there, u.images);
          grown = Grown-trans (Created-Grown t) u.grown;
          pods = u.pods ∙ t.pods;
          done = ground (arith, t.done, u.done);
        })

-- Once a pod is added, its images are in the model, and those of the other pods still are.
pub add_pod-HasKnownPods :
    (now : ℕ) (pod : Pod) (m : Model)
    → IsConsistent m
    → HasKnownPods m
    → Returns (λ r. HasKnownPods r.0) (add_pod now pod m)
unfolding add_pod
add_pod-HasKnownPods now pod m c known =
    Returns-bind (add_containers-Contained now pod.containers m c) λ (next, errs) t.
      returned (λ name p e. elim (Bool-cases (qualified_name pod == name)) [
        | inl hit ↦
            let same : p ≡ pod =
              ground (arith, Maps.lookup-insert (qualified_name pod) name pod next.pods) in
            rw same t.images
        | inr miss ↦
            HasKnownPods-Keeps m next t.pods (Grown-Keeps t.grown) known name p
              (ground (arith, Maps.lookup-insert (qualified_name pod) name pod next.pods))
      ])

-- A call that grows the model and keeps its pods known.
abbrev GrowsKnown : {A : Type 0} → (A → Model → Outcome) → Type 0
GrowsKnown {A} add =
    (x : A) (m : Model)
    → IsConsistent m
    → HasKnownPods m
    → Returns (λ r. (Grown m r.0 × (r.1 ≡ none)) × HasKnownPods r.0) (add x m)

for_each-HasKnownPods :
    {A : Type 0} (add : A → Model → Outcome)
    → GrowsKnown add
    → (xs : List A) (m : Model) → IsConsistent m
    → HasKnownPods m
    → Returns (λ r. HasKnownPods r.0) (for_each add xs m)
unfolding for_each
for_each-HasKnownPods add body [] m c known = returned known
for_each-HasKnownPods add body (x ∷ xs) m c known =
    Returns-bind (body x m c known) λ (next, err) ((g, _), k).
      Returns-bind (for_each-HasKnownPods add body xs next g.consistent k) λ r h. returned h

pub create_image-HasKnownPods :
    (now : ℕ) (image : Image) (m : Model)
    → IsConsistent m
    → HasKnownPods m
    → Returns (λ r. HasKnownPods r.0) (create_image now image m)
create_image-HasKnownPods now image m c known =
    Returns-weaken (create_image_correct now m image c)
      λ r t. HasKnownPods-Keeps m r.0 t.pods (Grown-Keeps (Created-Grown t)) known

pub all_pods-HasKnownPods :
    (now : ℕ) (pods : List Pod) (m : Model)
    → IsConsistent m
    → Returns (λ r. HasKnownPods r.0) (all_pods now pods m)
unfolding all_pods
all_pods-HasKnownPods now pods m c =
    let start = with_pods [] (Grown-refl c) in
    Returns-bind
      (for_each-HasKnownPods (add_pod now)
        (λ pod n d known.
          Returns-both (add_pod-Grown now pod n d) (add_pod-HasKnownPods now pod n d known))
        pods _ start.consistent (λ name p. unfold Maps.lookup in λ e. cc))
      λ r h. returned h

pub all_images-HasKnownPods :
    (now : ℕ) (images : List Image) (m : Model)
    → IsConsistent m
    → HasKnownPods m
    → Returns (λ r. HasKnownPods r.0) (all_images now images m)
unfolding all_images
all_images-HasKnownPods now images m c known =
    Returns-bind
      (for_each-HasKnownPods (create_image now)
        (λ image n d k.
          Returns-both (create_image-Grown now image n d)
            (create_image-HasKnownPods now image n d k))
        images m c known)
      λ r h. returned h

pub delete_pod-HasKnownPods :
    (name : String) (m : Model)
    → HasKnownPods m
    → Returns (λ r. HasKnownPods r.0) (delete_pod name m)
unfolding delete_pod
delete_pod-HasKnownPods name m known = elim (Option-cases (Maps.lookup name m.pods)) [
  | inl e ↦ rw (e, delete_pod) (returned known)
  | inr (pod, e) ↦
      rw (e, delete_pod)
        (returned (λ k p f. known k p (ground (arith, Maps.lookup-delete name k m.pods))))
]
