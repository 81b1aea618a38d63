-- ===== src/Core/Model/Known.antt =====
-- pkg/core/model/model.go: the handlers that bring no image into the model.
use perceptor.Prelude.{
  ℕ, negsuc, ◌≡◌, inl, inr, refl, ap, Option-cases, Bool-cases, not, Option, none, some,
  some-ne-none, String, arith, ok, Returns, returned, Returns-if, Returns-weaken, ◌==◌, string_eq,
}
use text.Mathlib.TextEquality.{eq_iff}
use perceptor.Prelude.Maps
use perceptor.Hub.DataTypes.{ScanResults, ScanSummaryStatus, scan_summary_status}
use perceptor.Core.Model.ScanStatus.{
  ScanStatus, unknown, in_queue, running_scan_client, running_hub_scan, complete,
  is_legal_transition, status_eq,
}
use perceptor.Core.Model.Image.{DockerImageSha, Image, ImageInfo, set_scan_status}
use perceptor.Core.Model.State.{Model, Error, put_image, set_image_scan_status}
use perceptor.Core.Model.Handlers.{
  delete_pod, scan_not_found, scan_succeeded, scan_in_progress, scan_failed, scan_did_finish,
  start_scan_client, finish_running_scan_client,
}
use perceptor.Core.Model.Invariant.{IsConsistent, IsSound, status_at, put_image-IsConsistent}
use perceptor.Core.Model.Transition.{set_image_scan_status_correct}
use perceptor.Core.Model.Kept.{finished-IsSound}

-- No image is new.
abbrev pub IsWithoutNew : Model → Model × Option Error → Type 0
IsWithoutNew m r = (k : DockerImageSha) → status_at m k ≡ none → status_at r.0 k ≡ none

transition-IsWithoutNew :
    {m : Model} (now : ℕ) (sha : DockerImageSha) (info : ImageInfo) (status : ScanStatus)
    → IsConsistent m
    → Maps.lookup sha m.images ≡ some info
    → Returns (IsWithoutNew m) (set_image_scan_status now sha status m)
transition-IsWithoutNew {m} now sha info status c e =
    Returns-weaken (set_image_scan_status_correct now sha info status c e) λ r t k absent.
      elim (Bool-cases (is_legal_transition info.scan_status status)) [
        | inl legal ↦
            let (_, images, _) = t.moved legal in
            ground (
              arith,
              ap (Maps.lookup k) images,
              Maps.lookup-insert sha k (set_scan_status now status info) m.images,
              eq_iff sha k,
              e,
              absent,
            )
        | inr illegal ↦
            let (_, images, _) = t.refused illegal in
            ground (arith, ap (Maps.lookup k) images, absent)
      ]

module _ {m : Model} (now : ℕ) (sha : DockerImageSha) (info : ImageInfo) (c : IsConsistent m)
    (e : Maps.lookup sha m.images ≡ some info) where
  put_transition-IsWithoutNew :
      (next : ImageInfo) (status : ScanStatus)
      → next.scan_status ≡ info.scan_status
      → IsSound sha next
      → Returns (IsWithoutNew m) (set_image_scan_status now sha status (put_image sha next m))
  put_transition-IsWithoutNew next status same sound =
      Returns-weaken
        (transition-IsWithoutNew now sha next status
          (put_image-IsConsistent c sha info next e same sound)
          (ground (arith, Maps.lookup-insert sha sha next m.images, eq_iff sha sha)))
        λ r t k absent.
          t k (ground (arith, Maps.lookup-insert sha k next m.images, eq_iff sha k, e, absent))

  moves : (status : ScanStatus) → Returns (IsWithoutNew m) (set_image_scan_status now sha status m)
  moves status = transition-IsWithoutNew now sha info status c e

  stays : {err : Option Error} → Returns (IsWithoutNew m) (ok (m, err))
  stays = returned λ k absent. absent

  scan_not_found-IsWithoutNew :
      (s : ScanStatus) → Returns (IsWithoutNew m) (scan_not_found now sha s m)
  unfolding scan_not_found
  scan_not_found-IsWithoutNew unknown = moves in_queue
  scan_not_found-IsWithoutNew s = stays

  scan_in_progress-IsWithoutNew :
      (s : ScanStatus) → Returns (IsWithoutNew m) (scan_in_progress now sha s m)
  unfolding scan_in_progress
  scan_in_progress-IsWithoutNew unknown = moves running_hub_scan
  scan_in_progress-IsWithoutNew in_queue = moves running_hub_scan
  scan_in_progress-IsWithoutNew s = stays

  scan_failed-IsWithoutNew : (s : ScanStatus) → Returns (IsWithoutNew m) (scan_failed now sha s m)
  unfolding scan_failed
  scan_failed-IsWithoutNew unknown = moves in_queue
  scan_failed-IsWithoutNew running_hub_scan = moves in_queue
  scan_failed-IsWithoutNew s = stays

  scan_succeeded-IsWithoutNew :
      (r : ScanResults) (s : ScanStatus)
      → Returns
          (IsWithoutNew m)
          (scan_succeeded now sha s (put_image sha (record info { scan_results = some r }) m))
  unfolding scan_succeeded
  scan_succeeded-IsWithoutNew r complete = returned λ k absent. ground (
    arith,
    Maps.lookup-insert sha k (record info { scan_results = some r }) m.images,
    eq_iff sha k,
    e,
    absent,
  )
  scan_succeeded-IsWithoutNew r s =
      let old = c.sound sha info e in
      put_transition-IsWithoutNew _ complete refl
        (record { keyed = old.keyed; tagged = old.tagged; scanned = λ p. some-ne-none r })

pub scan_did_finish-IsWithoutNew :
    (now : ℕ) (sha : DockerImageSha) (results : Option ScanResults) (m : Model)
    → IsConsistent m
    → Returns (IsWithoutNew m) (scan_did_finish now sha results m)
unfolding scan_did_finish
scan_did_finish-IsWithoutNew now sha results m c = elim (Option-cases (Maps.lookup sha m.images)) [
  | inl e ↦ rw (e, scan_did_finish) (returned λ k absent. absent)
  | inr (info, e) ↦ rw (e, scan_did_finish) (found info e results)
]
  where
    outcome :
        (info : ImageInfo) (r : ScanResults)
        → Maps.lookup sha m.images ≡ some info
        → (s : ScanSummaryStatus)
        → Returns (IsWithoutNew m) (elim s [
          | ScanSummaryStatus.success ↦
              scan_succeeded now sha info.scan_status
                (put_image sha (record info { scan_results = some r }) m)
          | ScanSummaryStatus.in_progress ↦ scan_in_progress now sha info.scan_status m
          | ScanSummaryStatus.failure ↦ scan_failed now sha info.scan_status m
        ])
    outcome info r e ScanSummaryStatus.success =
        scan_succeeded-IsWithoutNew now sha info c e r info.scan_status
    outcome info r e ScanSummaryStatus.in_progress =
        scan_in_progress-IsWithoutNew now sha info c e info.scan_status
    outcome info r e ScanSummaryStatus.failure =
        scan_failed-IsWithoutNew now sha info c e info.scan_status

    found :
        (info : ImageInfo)
        → Maps.lookup sha m.images ≡ some info
        → (o : Option ScanResults)
        → Returns (IsWithoutNew m) (elim o [
          | none ↦ scan_not_found now sha info.scan_status m
          | some r ↦ elim (scan_summary_status r) [
            | ScanSummaryStatus.success ↦
                scan_succeeded now sha info.scan_status
                  (put_image sha (record info { scan_results = some r }) m)
            | ScanSummaryStatus.in_progress ↦ scan_in_progress now sha info.scan_status m
            | ScanSummaryStatus.failure ↦ scan_failed now sha info.scan_status m
          ]
        ])
    found info e none = scan_not_found-IsWithoutNew now sha info c e info.scan_status
    found info e (some r) = outcome info r e (scan_summary_status r)

pub start_scan_client-IsWithoutNew :
    (now : ℕ) (sha : DockerImageSha) (m : Model)
    → IsConsistent m
    → Returns (IsWithoutNew m) (start_scan_client now sha m)
unfolding start_scan_client
start_scan_client-IsWithoutNew now sha m c = elim (Option-cases (Maps.lookup sha m.images)) [
  | inl e ↦ rw (e, start_scan_client) (returned λ k absent. absent)
  | inr (info, e) ↦
      rw (e, start_scan_client)
        (Returns-if (not (info.scan_status == in_queue)) (λ other. returned λ k absent. absent)
          (λ waiting. moves now sha info c e running_scan_client))
]

pub finish_running_scan_client-IsWithoutNew :
    (now : ℕ) (image : Image) (err : Option Error) (m : Model)
    → IsConsistent m
    → Returns (IsWithoutNew m) (finish_running_scan_client now image err m)
unfolding finish_running_scan_client
finish_running_scan_client-IsWithoutNew now image none m c =
    elim (Option-cases (Maps.lookup image.sha m.images)) [
      | inl e ↦ rw (e, finish_running_scan_client) (returned λ k absent. absent)
      | inr (info, e) ↦
          rw (e, finish_running_scan_client) (moves now image.sha info c e running_hub_scan)
    ]
finish_running_scan_client-IsWithoutNew now image (some err) m c =
    elim (Option-cases (Maps.lookup image.sha m.images)) [
      | inl e ↦ rw (e, finish_running_scan_client) (returned λ k absent. absent)
      | inr (info, e) ↦
          rw (e, finish_running_scan_client)
            (put_transition-IsWithoutNew now image.sha info c e _ in_queue refl
              (finished-IsSound now image.sha info c e (negsuc 0)))
    ]

pub delete_pod-IsWithoutNew :
    (name : String) (m : Model) → Returns (IsWithoutNew m) (delete_pod name m)
unfolding delete_pod
delete_pod-IsWithoutNew name m = elim (Option-cases (Maps.lookup name m.pods)) [
  | inl e ↦ rw (e, delete_pod) (returned λ k absent. absent)
  | inr (pod, e) ↦ rw (e, delete_pod) (returned λ k absent. absent)
]
