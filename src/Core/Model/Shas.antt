-- ===== src/Core/Model/Shas.antt =====
-- pkg/core/model/model.go: the shas of the images that an action brings into the model.
use perceptor.Prelude.{
  ℕ, ◌≢◌, inl, inr, refl, subst, Bool-cases, List, [], ◌∷◌, none, arith, Returns, returned,
  Returns-bind, Returns-weaken, ◌==◌, string_eq,
}
use text.Mathlib.TextEquality.{eq_iff}
use perceptor.Core.Model.ScanStatus.{status_eq}
use perceptor.Core.Model.Image.{DockerImageSha, Image, Container, Pod}
use perceptor.Core.Model.State.{Model, Outcome}
use perceptor.Core.Model.Handlers.{
  Action, adds_pod, updates_pod, deletes_pod, sets_pods, adds_image, sets_images, finishes_scan_job,
  scan_finishes, starts_scan_client, create_image, for_each, add_pod, all_pods, all_images, apply,
}
use perceptor.Core.Model.Invariant.{IsConsistent, status_at}
use perceptor.Core.Model.Known.{
  IsWithoutNew, delete_pod-IsWithoutNew, finish_running_scan_client-IsWithoutNew,
  scan_did_finish-IsWithoutNew, start_scan_client-IsWithoutNew,
}
use perceptor.Core.Model.Creation.{create_image_correct}
use perceptor.Core.Model.Preserve.{IsConsistent-same}

abbrev pub All {ℓ} : {A : Type ℓ} → (A → Type 0) → List A → Type 0
All Q [] = Unit {0}
All Q (x ∷ xs) = Q x × All Q xs

module _ (P : DockerImageSha → Type 0) where
  -- Every image of the model has a sha that satisfies `P`.
  abbrev pub HasShas : Model → Type 0
  HasShas m = (k : DockerImageSha) → status_at m k ≢ none → P k

  -- Every image that an action brings has such a sha.
  abbrev pub HasPodShas : Pod → Type 0
  HasPodShas pod = All (λ (c : Container). P c.image.sha) pod.containers

  abbrev pub IsBringing : Action → Type 0
  IsBringing (adds_pod pod) = HasPodShas pod
  IsBringing (updates_pod pod) = HasPodShas pod
  IsBringing (sets_pods pods) = All HasPodShas pods
  IsBringing (adds_image image) = P image.sha
  IsBringing (sets_images images) = All (λ (i : Image). P i.sha) images
  IsBringing action = Unit {0}

  Fine : Model → Type 0
  Fine m = IsConsistent m × HasShas m

  for_each-Fine :
      {A : Type 0} (add : A → Model → Outcome) (Q : A → Type 0)
      → ((x : A) (m : Model) → Fine m → Q x → Returns (λ r. Fine r.0) (add x m))
      → (xs : List A) (m : Model) → Fine m
      → All Q xs
      → Returns (λ r. Fine r.0) (for_each add xs m)
  unfolding for_each
  for_each-Fine add Q body [] m f q = returned f
  for_each-Fine add Q body (x ∷ xs) m f (q, qs) =
      Returns-bind (body x m f q)
        λ (next, e) g. Returns-bind (for_each-Fine add Q body xs next g qs) λ r h. returned h

  create_image-Fine :
      (now : ℕ) (image : Image) (m : Model)
      → Fine m
      → P image.sha
      → Returns (λ r. Fine r.0) (create_image now image m)
  unfolding Fine
  create_image-Fine now image m (c, f) p =
      Returns-weaken (create_image_correct now m image c) λ r t. (
        t.consistent,
        λ k n. elim (Bool-cases (image.sha == k)) [
          | inl e ↦ subst P ((eq_iff image.sha k).0 e) p
          | inr e ↦ f k (λ absent. n (ground (arith, t.entries k, e, absent)))
        ],
      )

  add_pod-Fine :
      (now : ℕ) (pod : Pod) (m : Model)
      → Fine m
      → HasPodShas pod
      → Returns (λ r. Fine r.0) (add_pod now pod m)
  unfolding add_pod Fine
  add_pod-Fine now pod m f q =
      Returns-bind
        (for_each-Fine _ (λ (c : Container). P c.image.sha) (λ x. create_image-Fine now x.image)
          pod.containers m f q)
        λ (next, errs) (c, h). returned (IsConsistent-same {m = next} refl refl c, h)

  all_pods-Fine :
      (now : ℕ) (pods : List Pod) (m : Model)
      → Fine m
      → All HasPodShas pods
      → Returns (λ r. Fine r.0) (all_pods now pods m)
  unfolding all_pods Fine
  all_pods-Fine now pods m (c, f) q =
      Returns-bind
        (for_each-Fine (add_pod now) HasPodShas (add_pod-Fine now) pods _
          (IsConsistent-same {m = m} refl refl c, f) q)
        λ r h. returned h

  all_images-Fine :
      (now : ℕ) (images : List Image) (m : Model)
      → Fine m
      → All (λ (i : Image). P i.sha) images
      → Returns (λ r. Fine r.0) (all_images now images m)
  unfolding all_images
  all_images-Fine now images m f q =
      Returns-bind
        (for_each-Fine (create_image now) (λ (i : Image). P i.sha) (create_image-Fine now) images m
          f q)
        λ r h. returned h

  -- No image is new, so their shas are as before.
  kept_shas :
      (m : Model) {call : Outcome}
      → HasShas m
      → Returns (IsWithoutNew m) call
      → Returns (λ r. HasShas r.0) call
  kept_shas m f run = Returns-weaken run λ r known k n. f k (λ absent. n (known k absent))

  shas_of : {call : Outcome} → Returns (λ r. Fine r.0) call → Returns (λ r. HasShas r.0) call
  unfolding Fine
  shas_of run = Returns-weaken run λ r (c, f). f

  -- Whatever an action does to a consistent model, if the images that it brings have shas that satisfy
  -- a predicate, and so have those of the model, then those of the model still have.
  pub apply-HasShas :
      (now : ℕ) (action : Action) (m : Model)
      → IsConsistent m
      → HasShas m
      → IsBringing action
      → Returns (λ r. HasShas r.0) (apply now action m)
  unfolding apply Fine
  apply-HasShas now (adds_pod pod) m c f q = shas_of (add_pod-Fine now pod m (c, f) q)
  apply-HasShas now (updates_pod pod) m c f q = shas_of (add_pod-Fine now pod m (c, f) q)
  apply-HasShas now (deletes_pod name) m c f q = kept_shas m f (delete_pod-IsWithoutNew name m)
  apply-HasShas now (sets_pods pods) m c f q = shas_of (all_pods-Fine now pods m (c, f) q)
  apply-HasShas now (adds_image image) m c f q = shas_of (create_image-Fine now image m (c, f) q)
  apply-HasShas now (sets_images images) m c f q = shas_of (all_images-Fine now images m (c, f) q)
  apply-HasShas now (finishes_scan_job image err) m c f q =
      kept_shas m f (finish_running_scan_client-IsWithoutNew now image err m c)
  apply-HasShas now (scan_finishes sha results) m c f q =
      kept_shas m f (scan_did_finish-IsWithoutNew now sha results m c)
  apply-HasShas now (starts_scan_client sha) m c f q =
      kept_shas m f (start_scan_client-IsWithoutNew now sha m c)
