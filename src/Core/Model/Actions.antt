-- ===== src/Core/Model/Actions.antt =====
-- The actions one after another: what every one of them keeps, and what holds in every state that
-- they can reach.
use perceptor.Prelude.{
  ℕ, negsuc, ◌≡◌, inl, inr, refl, Option-cases, not, List, [], ◌∷◌, Option, none, some, String,
  arith, Returns, returned, Returns-bind, Returns-if, Returns-value, Returns-ok, ◌==◌, string_eq,
}
use perceptor.Prelude.Maps
use perceptor.Util.PriorityQueue.{new_priority_queue}
use perceptor.Util.PriorityQueue.Slots.{find}
use perceptor.Util.PriorityQueue.Valid.{new-IsValid}
use perceptor.Hub.DataTypes.{ScanResults, ScanSummaryStatus, scan_summary_status}
use perceptor.Core.Model.ScanStatus.{in_queue, running_scan_client, running_hub_scan, status_eq}
use perceptor.Core.Model.Image.{DockerImageSha, Image, ImageInfo}
use perceptor.Core.Model.State.{Model, Error, Outcome, new_model, put_image}
use perceptor.Core.Model.Handlers.{
  Action, adds_pod, updates_pod, deletes_pod, sets_pods, adds_image, sets_images, finishes_scan_job,
  scan_finishes, starts_scan_client, apply, run_actions, delete_pod, scan_not_found, scan_succeeded,
  scan_in_progress, scan_failed, scan_did_finish, start_scan_client, finish_running_scan_client,
}
use perceptor.Core.Model.Invariant.{IsConsistent, status_at}
use perceptor.Core.Model.Preserve.{Follows-refl, IsConsistent-same}
use perceptor.Core.Model.PodImages.{
  HasKnownPods, add_pod-HasKnownPods, all_pods-HasKnownPods, all_images-HasKnownPods,
  create_image-HasKnownPods,
}
use perceptor.Core.Model.Growth.{
  Grown, create_image-Grown, add_pod-Grown, all_pods-Grown, all_images-Grown,
}
use perceptor.Core.Model.Kept.{
  Kept, Kept-refl, Grown-Kept, put_transition-Kept, moves, scan_not_found-Kept,
  scan_in_progress-Kept, scan_failed-Kept, scan_succeeded-Kept, finished-IsSound,
}

scan_did_finish-Kept :
    (now : ℕ) (sha : DockerImageSha) (results : Option ScanResults) (m : Model)
    → IsConsistent m
    → Returns (Kept m) (scan_did_finish now sha results m)
unfolding scan_did_finish
scan_did_finish-Kept now sha results m c = elim (Option-cases (Maps.lookup sha m.images)) [
  | inl e ↦ rw (e, scan_did_finish) (returned (Kept-refl c))
  | inr (info, e) ↦ rw (e, scan_did_finish) (found info e results)
]
  where
    outcome :
        (info : ImageInfo) (r : ScanResults)
        → Maps.lookup sha m.images ≡ some info
        → (s : ScanSummaryStatus)
        → Returns (Kept m) (elim s [
          | ScanSummaryStatus.success ↦
              scan_succeeded now sha info.scan_status
                (put_image sha (record info { scan_results = some r }) m)
          | ScanSummaryStatus.in_progress ↦ scan_in_progress now sha info.scan_status m
          | ScanSummaryStatus.failure ↦ scan_failed now sha info.scan_status m
        ])
    outcome info r e ScanSummaryStatus.success =
        scan_succeeded-Kept now sha info c e r info.scan_status
    outcome info r e ScanSummaryStatus.in_progress =
        scan_in_progress-Kept now sha info c e info.scan_status
    outcome info r e ScanSummaryStatus.failure = scan_failed-Kept now sha info c e info.scan_status

    found :
        (info : ImageInfo)
        → Maps.lookup sha m.images ≡ some info
        → (o : Option ScanResults)
        → Returns (Kept m) (elim o [
          | none ↦ scan_not_found now sha info.scan_status m
          | some r ↦ elim (scan_summary_status r) [
            | ScanSummaryStatus.success ↦
                scan_succeeded now sha info.scan_status
                  (put_image sha (record info { scan_results = some r }) m)
            | ScanSummaryStatus.in_progress ↦ scan_in_progress now sha info.scan_status m
            | ScanSummaryStatus.failure ↦ scan_failed now sha info.scan_status m
          ]
        ])
    found info e none = scan_not_found-Kept now sha info c e info.scan_status
    found info e (some r) = outcome info r e (scan_summary_status r)

start_scan_client-Kept :
    (now : ℕ) (sha : DockerImageSha) (m : Model)
    → IsConsistent m
    → Returns (Kept m) (start_scan_client now sha m)
unfolding start_scan_client
start_scan_client-Kept now sha m c = elim (Option-cases (Maps.lookup sha m.images)) [
  | inl e ↦ rw (e, start_scan_client) (returned (Kept-refl c))
  | inr (info, e) ↦
      rw (e, start_scan_client)
        (Returns-if (not (info.scan_status == in_queue)) (λ other. returned (Kept-refl c))
          (λ waiting. moves now sha info c e running_scan_client (λ p. cc)))
]

finish_running_scan_client-Kept :
    (now : ℕ) (image : Image) (err : Option Error) (m : Model)
    → IsConsistent m
    → Returns (Kept m) (finish_running_scan_client now image err m)
unfolding finish_running_scan_client
finish_running_scan_client-Kept now image none m c =
    elim (Option-cases (Maps.lookup image.sha m.images)) [
      | inl e ↦ rw (e, finish_running_scan_client) (returned (Kept-refl c))
      | inr (info, e) ↦
          rw (e, finish_running_scan_client)
            (moves now image.sha info c e running_hub_scan (λ p. cc))
    ]
finish_running_scan_client-Kept now image (some err) m c =
    elim (Option-cases (Maps.lookup image.sha m.images)) [
      | inl e ↦ rw (e, finish_running_scan_client) (returned (Kept-refl c))
      | inr (info, e) ↦
          rw (e, finish_running_scan_client)
            (put_transition-Kept _ c e refl (finished-IsSound now image.sha info c e (negsuc 0)) now
              in_queue (λ p. cc))
    ]

delete_pod-Kept :
    (name : String) (m : Model) → IsConsistent m → Returns (Kept m) (delete_pod name m)
unfolding delete_pod
delete_pod-Kept name m c = elim (Option-cases (Maps.lookup name m.pods)) [
  | inl e ↦ rw (e, delete_pod) (returned (Kept-refl c))
  | inr (pod, e) ↦
      rw (e, delete_pod)
        (returned (record {
          consistent = IsConsistent-same {m = m} refl refl c;
          follows = λ k. Follows-refl (status_at m k);
          known_pods = λ known k p f. known k p (ground (arith, Maps.lookup-delete name k m.pods));
        }))
]

grown :
    {m : Model} (r : Outcome)
    → Returns (λ r. Grown m r.0 × (r.1 ≡ none)) r
    → (HasKnownPods m → Returns (λ r. HasKnownPods r.0) r)
    → Returns (Kept m) r
grown {m} r run known =
    let (a, e, (g, _)) = Returns-value run in
    rw e (returned (Grown-Kept g (λ h. Returns-ok (rw e at (known h)))))

-- On a consistent model no action panics, whatever it is given. The model stays consistent, and the
-- status of every image stays or changes to one that the table of legal transitions allows.
pub apply-Kept :
    (now : ℕ) (action : Action) (m : Model) → IsConsistent m → Returns (Kept m) (apply now action m)
unfolding apply
apply-Kept now (adds_pod pod) m c =
    grown _ (add_pod-Grown now pod m c) (add_pod-HasKnownPods now pod m c)
apply-Kept now (updates_pod pod) m c =
    grown _ (add_pod-Grown now pod m c) (add_pod-HasKnownPods now pod m c)
apply-Kept now (deletes_pod name) m c = delete_pod-Kept name m c
apply-Kept now (sets_pods pods) m c =
    grown _ (all_pods-Grown now pods m c) (λ h. all_pods-HasKnownPods now pods m c)
apply-Kept now (adds_image image) m c =
    grown _ (create_image-Grown now image m c) (create_image-HasKnownPods now image m c)
apply-Kept now (sets_images images) m c =
    grown _ (all_images-Grown now images m c) (all_images-HasKnownPods now images m c)
apply-Kept now (finishes_scan_job image err) m c = finish_running_scan_client-Kept now image err m c
apply-Kept now (scan_finishes sha results) m c = scan_did_finish-Kept now sha results m c
apply-Kept now (starts_scan_client sha) m c = start_scan_client-Kept now sha m c

new_model-IsConsistent : IsConsistent new_model
unfolding new_model new_priority_queue find Maps.lookup
new_model-IsConsistent = record {
  queue = (new-IsValid 10 (omega arith)).0;
  sound = λ k i f. cc;
  waiting = λ k i f. cc;
  queued = λ k n f. cc;
}

-- What holds between two actions.
pub record IsSane (m : Model) : Type 0 where
  pub consistent : IsConsistent m
  pub known_pods : HasKnownPods m

pub new_model-IsSane : IsSane new_model
unfolding new_model Maps.lookup
new_model-IsSane = record { consistent = new_model-IsConsistent; known_pods = λ name pod e. cc }

run_actions-IsSane :
    (actions : List (ℕ × Action)) (m : Model) → IsSane m → Returns IsSane (run_actions actions m)
unfolding run_actions
run_actions-IsSane [] m s = returned s
run_actions-IsSane ((now, action) ∷ rest) m s =
    Returns-bind (apply-Kept now action m s.consistent) λ r t.
      run_actions-IsSane rest r.0
        (record { consistent = t.consistent; known_pods = t.known_pods s.known_pods })

-- Whatever actions arrive, in whatever order, the loop that runs them from a new model never panics,
-- and it ends in a model that is consistent and has the images of all its pods.
pub run_actions-new_model :
    (actions : List (ℕ × Action)) → Returns IsSane (run_actions actions new_model)
run_actions-new_model actions = run_actions-IsSane actions new_model new_model-IsSane
