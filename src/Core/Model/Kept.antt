-- ===== src/Core/Model/Kept.antt =====
-- pkg/core/model/model.go: what one action keeps of the model, for the steps of scanDidFinish.
use perceptor.Prelude.{
  ℕ, ℤ, ◌≡◌, ◌≢◌, ◌⊎◌, inl, refl, Option, none, some, some-ne-none, arith, ok, Returns, returned,
  Returns-weaken, string_eq,
}
use text.Mathlib.TextEquality.{eq_iff}
use perceptor.Prelude.Maps
use perceptor.Hub.DataTypes.{ScanResults}
use perceptor.Core.Model.ScanStatus.{
  ScanStatus, unknown, in_queue, running_hub_scan, complete, status_eq,
}
use perceptor.Core.Model.Image.{DockerImageSha, ImageInfo, set_priority}
use perceptor.Core.Model.State.{Model, Error, put_image, set_image_scan_status}
use perceptor.Core.Model.Handlers.{scan_not_found, scan_succeeded, scan_in_progress, scan_failed}
use perceptor.Core.Model.Invariant.{IsSound, IsConsistent, status_at, put_image-IsConsistent}
use perceptor.Core.Model.Transition.{set_image_scan_status_correct}
use perceptor.Core.Model.Preserve.{
  Follows, Follows-refl, Transitioned-IsConsistent, Transitioned-Follows,
}
use perceptor.Core.Model.PodImages.{HasKnownPods, HasKnownPods-Keeps}
use perceptor.Core.Model.Growth.{Grown}

-- A step keeps the model consistent and the images of its pods known, and each image follows the
-- table of legal transitions.
pub record Kept (m : Model) (r : Model × Option Error) : Type 0 where
  pub consistent : IsConsistent r.0
  pub follows : (k : DockerImageSha) → Follows (status_at m k) (status_at r.0 k)
  pub known_pods : HasKnownPods m → HasKnownPods r.0

pub Kept-refl : {m : Model} {err : Option Error} → IsConsistent m → Kept m (m, err)
Kept-refl {m} c = record {
  consistent = c;
  follows = λ k. Follows-refl (status_at m k);
  known_pods = λ h. h;
}

Follows-grown : (s t : Option ScanStatus) → (t ≡ s) ⊎ (s ≡ none) × (t ≡ some unknown) → Follows s t
Follows-grown none t h = ground (arith, h)
Follows-grown (some s) t h = inl (ground (arith, h))

pub Grown-Kept :
    {m : Model} {r : Model × Option Error}
    → Grown m r.0
    → (HasKnownPods m → HasKnownPods r.0)
    → Kept m r
Grown-Kept {m} {r} g known = record {
  consistent = g.consistent;
  follows = λ k. Follows-grown (status_at m k) (status_at r.0 k) (g.statuses k);
  known_pods = known;
}

-- Only the map of images has changed, and no image has left it.
Follows-HasKnownPods :
    (m next : Model)
    → next.pods ≡ m.pods
    → ((k : DockerImageSha) → Follows (status_at m k) (status_at next k))
    → HasKnownPods m
    → HasKnownPods next
Follows-HasKnownPods m next pods follows =
    HasKnownPods-Keeps m next pods (λ k. stays (status_at m k) (status_at next k) (follows k))
  where
    stays : (s t : Option ScanStatus) → Follows s t → s ≢ none → t ≢ none
    stays none t f h = absurd (h refl)
    stays (some s) t f h = ground (arith, f)

transition-Kept :
    {m : Model} (now : ℕ) (sha : DockerImageSha) (info : ImageInfo) (status : ScanStatus)
    → IsConsistent m
    → Maps.lookup sha m.images ≡ some info
    → (status ≡ complete → info.scan_results ≢ none)
    → Returns (Kept m) (set_image_scan_status now sha status m)
transition-Kept {m} now sha info status c e results =
    Returns-weaken (set_image_scan_status_correct now sha info status c e) λ r t. record {
      consistent = Transitioned-IsConsistent c e t results;
      follows = Transitioned-Follows c e t;
      known_pods = Follows-HasKnownPods m r.0 t.pods (Transitioned-Follows c e t);
    }

-- A change of the entry of an image that leaves its status, and then a transition of it.
module _ {m : Model} {sha : DockerImageSha} {info : ImageInfo} (next : ImageInfo)
    (c : IsConsistent m) (e : Maps.lookup sha m.images ≡ some info)
    (same : next.scan_status ≡ info.scan_status) (sound : IsSound sha next) where
  put_status : (k : DockerImageSha) → status_at (put_image sha next m) k ≡ status_at m k
  put_status k = ground (arith, Maps.lookup-insert sha k next m.images, eq_iff sha k)

  put-Kept : {err : Option Error} → Kept m (put_image sha next m, err)
  put-Kept = record {
    consistent = put_image-IsConsistent c sha info next e same sound;
    follows = λ k. rw (put_status k) (Follows-refl (status_at m k));
    known_pods =
        Follows-HasKnownPods m (put_image sha next m) refl
          λ k. rw (put_status k) (Follows-refl (status_at m k));
  }

  pub put_transition-Kept :
      (now : ℕ) (status : ScanStatus)
      → (status ≡ complete → next.scan_results ≢ none)
      → Returns (Kept m) (set_image_scan_status now sha status (put_image sha next m))
  put_transition-Kept now status results =
      Returns-weaken
        (transition-Kept now sha next status (put_image-IsConsistent c sha info next e same sound)
          (ground (arith, Maps.lookup-insert sha sha next m.images, eq_iff sha sha)) results)
        λ r t. record {
          consistent = t.consistent;
          follows = λ k. rw (put_status k) at (t.follows k);
          known_pods = λ h. t.known_pods ((put-Kept {err = none}).known_pods h);
        }

module _ {m : Model} (now : ℕ) (sha : DockerImageSha) (info : ImageInfo) (c : IsConsistent m)
    (e : Maps.lookup sha m.images ≡ some info) where
  pub moves :
      (status : ScanStatus)
      → status ≢ complete
      → Returns (Kept m) (set_image_scan_status now sha status m)
  moves status other = transition-Kept now sha info status c e (λ p. absurd (other p))

  pub stays : {err : Option Error} → Returns (Kept m) (ok (m, err))
  stays = returned (Kept-refl c)

  pub scan_not_found-Kept : (s : ScanStatus) → Returns (Kept m) (scan_not_found now sha s m)
  unfolding scan_not_found
  scan_not_found-Kept unknown = moves in_queue (λ p. cc)
  scan_not_found-Kept s = stays

  pub scan_in_progress-Kept : (s : ScanStatus) → Returns (Kept m) (scan_in_progress now sha s m)
  unfolding scan_in_progress
  scan_in_progress-Kept unknown = moves running_hub_scan (λ p. cc)
  scan_in_progress-Kept in_queue = moves running_hub_scan (λ p. cc)
  scan_in_progress-Kept s = stays

  pub scan_failed-Kept : (s : ScanStatus) → Returns (Kept m) (scan_failed now sha s m)
  unfolding scan_failed
  scan_failed-Kept unknown = moves in_queue (λ p. cc)
  scan_failed-Kept running_hub_scan = moves in_queue (λ p. cc)
  scan_failed-Kept s = stays

  scanned-IsSound :
      (results : ScanResults) → IsSound sha (record info { scan_results = some results })
  scanned-IsSound results =
      let old = c.sound sha info e in
      record { keyed = old.keyed; tagged = old.tagged; scanned = λ p. some-ne-none results }

  pub scan_succeeded-Kept :
      (results : ScanResults) (s : ScanStatus)
      → Returns
          (Kept m)
          (scan_succeeded now sha s (put_image sha (record info { scan_results = some results }) m))
  unfolding scan_succeeded
  scan_succeeded-Kept results complete = returned (put-Kept _ c e refl (scanned-IsSound results))
  scan_succeeded-Kept results s =
      put_transition-Kept _ c e refl (scanned-IsSound results) now complete
        (λ p. some-ne-none results)

  pub finished-IsSound : (priority : ℤ) → IsSound sha (set_priority priority info)
  finished-IsSound priority =
      let old = c.sound sha info e in
      record { keyed = old.keyed; tagged = old.tagged; scanned = old.scanned }
