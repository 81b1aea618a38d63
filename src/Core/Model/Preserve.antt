-- ===== src/Core/Model/Preserve.antt =====
-- A transition keeps the model consistent, and every status it changes is changed legally.
use perceptor.Prelude.{
  ℕ, ◌≡◌, ◌≢◌, ◌⊎◌, inl, inr, refl, ap, ◌∙◌, Bool-cases, true, Option, none, some, arith, ◌==◌,
  string_eq,
}
use text.Mathlib.TextEquality.{eq_iff}
use perceptor.Prelude.Maps
use perceptor.Core.Model.ScanStatus.{
  ScanStatus, unknown, in_queue, complete, is_legal_transition, status_beq_iff,
}
use perceptor.Core.Model.Image.{DockerImageSha, ImageInfo, set_scan_status}
use perceptor.Core.Model.State.{Model, Error}
use perceptor.Core.Model.Invariant.{IsConsistent, HasTruePriorities, status_at}
use perceptor.Core.Model.Transition.{Transitioned}

-- What may become of the status of an image: a new image has status Unknown, and an image that is
-- there stays, with the same status or one that the table allows next.
abbrev pub Follows : Option ScanStatus → Option ScanStatus → Type 0
Follows none after = (after ≡ none) ⊎ (after ≡ some unknown)
Follows (some s) after =
    (after ≡ some s) ⊎ ((t : ScanStatus) × (after ≡ some t) × (is_legal_transition s t ≡ true))

pub Follows-refl : (s : Option ScanStatus) → Follows s s
Follows-refl none = inl refl
Follows-refl (some s) = inl refl

module _ {now : ℕ} {m : Model} {sha : DockerImageSha} {info : ImageInfo} {status : ScanStatus}
    {r : Model × Option Error} (c : IsConsistent m) (e : Maps.lookup sha m.images ≡ some info)
    (t : Transitioned now m sha info status r) where
  moved-IsConsistent :
      is_legal_transition info.scan_status status ≡ true
      → (status ≡ complete → info.scan_results ≢ none)
      → IsConsistent r.0
  moved-IsConsistent legal results =
      let (_, images, nodes) = t.moved legal in
      let at = λ (k : DockerImageSha).
        ap (Maps.lookup k) images
        ∙ Maps.lookup-insert sha k (set_scan_status now status info) m.images in
      let old = c.sound sha info e in
      record {
        queue = t.queue;
        sound = λ k i f.
            ground (arith, at k, eq_iff sha k, c.sound k i, old.keyed, old.tagged, results);
        waiting = λ k i f s. ground (arith, at k, nodes k, eq_iff sha k, c.waiting k i);
        queued = λ k n f.
            ground
              (arith, at k, nodes k, eq_iff sha k, c.queued k n, status_beq_iff status in_queue);
      }

  moved-HasTruePriorities :
      is_legal_transition info.scan_status status ≡ true
      → HasTruePriorities m
      → HasTruePriorities r.0
  moved-HasTruePriorities legal true_priorities k n i f g =
      let (_, images, nodes) = t.moved legal in
      let at =
        ap (Maps.lookup k) images
        ∙ Maps.lookup-insert sha k (set_scan_status now status info) m.images in
      ground (arith, at, nodes k, true_priorities k n i)

  moved-Follows :
      is_legal_transition info.scan_status status ≡ true
      → (k : DockerImageSha) → Follows (status_at m k) (status_at r.0 k)
  moved-Follows legal k =
      let (_, images, _) = t.moved legal in
      let at =
        ap (Maps.lookup k) images
        ∙ Maps.lookup-insert sha k (set_scan_status now status info) m.images in
      elim (Bool-cases (sha == k)) [
        | inl hit ↦
            let same : status_at m k ≡ some info.scan_status = ground (arith, eq_iff sha k, e) in
            rw same (inr (status, ground (arith, at), legal))
        | inr miss ↦
            let same : status_at r.0 k ≡ status_at m k = ground (arith, at) in
            rw same (Follows-refl (status_at m k))
      ]

-- Consistency is about the images and the queue alone.
pub IsConsistent-same :
    {m next : Model}
    → next.images ≡ m.images
    → next.image_scan_queue ≡ m.image_scan_queue
    → IsConsistent m
    → IsConsistent next
IsConsistent-same {m} {next} images queue c = record {
  queue = rw queue c.queue;
  sound = λ k i f. c.sound k i (rw images at f);
  waiting = λ k i f s. rw queue (c.waiting k i (rw images at f) s);
  queued = λ k n f. rw images (c.queued k n (rw queue at f));
}

module _ {now : ℕ} {m : Model} {sha : DockerImageSha} {info : ImageInfo} {status : ScanStatus}
    {r : Model × Option Error} (c : IsConsistent m) (e : Maps.lookup sha m.images ≡ some info)
    (t : Transitioned now m sha info status r) where
  -- Whether or not the transition is legal, the model stays consistent, if an image that becomes
  -- complete has its results.
  pub Transitioned-IsConsistent : (status ≡ complete → info.scan_results ≢ none) → IsConsistent r.0
  Transitioned-IsConsistent results =
      elim (Bool-cases (is_legal_transition info.scan_status status)) [
        | inl legal ↦ moved-IsConsistent c e t legal results
        | inr illegal ↦
            let (_, images, queue) = t.refused illegal in IsConsistent-same images queue c
      ]

  pub Transitioned-HasTruePriorities : HasTruePriorities m → HasTruePriorities r.0
  Transitioned-HasTruePriorities h =
      elim (Bool-cases (is_legal_transition info.scan_status status)) [
        | inl legal ↦ moved-HasTruePriorities c e t legal h
        | inr illegal ↦
            let (_, images, queue) = t.refused illegal in
            λ k n i f g. h k n i (rw queue at f) (rw images at g)
      ]

  pub Transitioned-Follows : (k : DockerImageSha) → Follows (status_at m k) (status_at r.0 k)
  Transitioned-Follows k = elim (Bool-cases (is_legal_transition info.scan_status status)) [
    | inl legal ↦ moved-Follows c e t legal k
    | inr illegal ↦
        let (_, images, _) = t.refused illegal in rw images (Follows-refl (status_at m k))
  ]
