-- ===== src/Core/Model/Creation.antt =====
-- createImage, and the loops that call it: addPod, allPods and allImages.
use perceptor.Prelude.{
  ℕ, ℤ, pos, ltb_ℤ, ◌≡◌, ◌≢◌, inl, inr, refl, Option-cases, not, ◌&&◌, Option, none, some, arith,
  Returns, returned, Returns-bind, Returns-if, if◌then◌else◌, ◌==◌, string_eq,
}
use text.Mathlib.TextEquality.{eq_iff}
use perceptor.Prelude.Maps
use perceptor.Util.PriorityQueue.Slots.{find}
use perceptor.Util.PriorityQueue.SetPriority.{set_priority_correct}
use perceptor.Core.Model.ScanStatus.{in_queue, status_eq, status_beq_iff}
use perceptor.Core.Model.Image.{DockerImageSha, Image, ImageInfo, set_priority, new_image_info}
use perceptor.Core.Model.State.{Model, Error, put_image, set_image_priority, and_then-return}
use perceptor.Core.Model.Handlers.{create_image}
use perceptor.Core.Model.Invariant.{IsConsistent, HasTruePriorities, put_image-IsConsistent}

-- The priority of an image that is seen again: the higher of the two, but a negative one stays.
abbrev pub raised_priority : ℤ → ℤ → ℤ
raised_priority old new = if ltb_ℤ old new && not (ltb_ℤ old (pos 0)) then new else old

abbrev pub entry_after : ℕ → Image → Option ImageInfo → ImageInfo
entry_after now image none =
    new_image_info now image (record { repository = image.repository; tag = image.tag })
entry_after now image (some info) = set_priority (raised_priority info.priority image.priority) info

-- What createImage promises: no error, the entry of this image new or with its priority raised, all
-- other entries and the pods as before, and a consistent model whose priorities are still true.
pub record Created (now : ℕ) (m : Model) (image : Image) (r : Model × Option Error) : Type 0 where
  pub done : r.1 ≡ none
  pub consistent : IsConsistent r.0
  pub entries :
      (k : DockerImageSha)
      → Maps.lookup k r.0.images ≡ (
          if image.sha == k
          then some (entry_after now image (Maps.lookup image.sha m.images))
          else Maps.lookup k m.images)
  pub pods : r.0.pods ≡ m.pods
  pub true_priorities : HasTruePriorities m → HasTruePriorities r.0

module _ (now : ℕ) (m : Model) (image : Image) (c : IsConsistent m) where
  -- An image with a new sha.
  new_image :
      Maps.lookup image.sha m.images ≡ none
      → Created now m image (put_image image.sha (entry_after now image none) m, none)
  unfolding new_image_info
  new_image e =
      let at = λ (k : DockerImageSha).
        Maps.lookup-insert image.sha k (entry_after now image none) m.images in
      record {
        done = refl;
        consistent = record {
          queue = c.queue;
          sound = λ k i f. ground (arith, at k, eq_iff image.sha k, c.sound k i);
          waiting = λ k i f s. ground (arith, at k, eq_iff image.sha k, c.waiting k i);
          queued = λ k n f. ground (arith, at k, eq_iff image.sha k, c.queued k n);
        };
        entries = λ k. ground (arith, at k, e);
        pods = refl;
        true_priorities =
            λ h k n i f g. ground (arith, at k, eq_iff image.sha k, c.queued k n, h k n i);
      }

  module _ (info : ImageInfo) (e : Maps.lookup image.sha m.images ≡ some info) where
    -- An image whose priority stays.
    kept_image :
        raised_priority info.priority image.priority ≡ info.priority → Created now m image (m, none)
    kept_image same = record {
      done = refl;
      consistent = c;
      entries = λ k. ground (arith, eq_iff image.sha k, e, same);
      pods = refl;
      true_priorities = λ h. h;
    }

    abbrev raised : Model
    raised = put_image image.sha (set_priority image.priority info) m

    at_raised :
        (k : DockerImageSha)
        → Maps.lookup k raised.images ≡ (
            if image.sha == k
            then some (set_priority image.priority info)
            else Maps.lookup k m.images)
    at_raised k = Maps.lookup-insert image.sha k (set_priority image.priority info) m.images

    raised-IsConsistent : IsConsistent raised
    raised-IsConsistent =
        let old = c.sound image.sha info e in
        put_image-IsConsistent c image.sha info (set_priority image.priority info) e refl
          (record { keyed = old.keyed; tagged = old.tagged; scanned = old.scanned })

    -- An image that is not queued, with a higher priority.
    raised_image :
        raised_priority info.priority image.priority ≡ image.priority
        → info.scan_status ≢ in_queue
        → Created now m image (raised, none)
    raised_image same other = record {
      done = refl;
      consistent = raised-IsConsistent;
      entries = λ k. ground (arith, at_raised k, e, same);
      pods = refl;
      true_priorities =
          λ h k n i f g. ground (arith, at_raised k, eq_iff image.sha k, c.queued k n, h k n i);
    }

    -- A queued image with a higher priority: the queue follows.
    requeued_image :
        raised_priority info.priority image.priority ≡ image.priority
        → info.scan_status ≡ in_queue
        → Returns (Created now m image) (set_image_priority image.sha image.priority raised)
    unfolding set_image_priority
    requeued_image same waiting =
        Returns-bind (set_priority_correct m.image_scan_queue image.sha image.priority c.queue)
          λ (q, err) s. elim (Option-cases (find m.image_scan_queue image.sha)) [
            | inl f ↦ absurd (c.waiting image.sha info e waiting f)
            | inr (n, f) ↦
                let (fine, size, nodes) = s.accepted n f in
                rw fine (
                  returned (record {
                    done = refl;
                    consistent = record {
                      queue = s.valid;
                      sound = raised-IsConsistent.sound;
                      waiting =
                          λ k i g t. ground (arith, nodes k, raised-IsConsistent.waiting k i g t);
                      queued = λ k j g. ground (
                        arith,
                        nodes k,
                        eq_iff image.sha k,
                        raised-IsConsistent.queued k n,
                        raised-IsConsistent.queued k j,
                      );
                    };
                    entries = λ k. ground (arith, at_raised k, e, same);
                    pods = refl;
                    true_priorities = λ h k j i g l. ground (arith, nodes k, at_raised k, h k j i);
                  }))
          ]

  -- On a consistent model createImage never panics nor fails: the entry of this image is new or has
  -- its priority raised, all others stay, and the queue follows the entry's priority.
  pub create_image_correct : Returns (Created now m image) (create_image now image m)
  unfolding create_image
  create_image_correct = elim (Option-cases (Maps.lookup image.sha m.images)) [
    | inl e ↦ rw (e, create_image) (returned (new_image e))
    | inr (info, e) ↦
        rw (e, create_image)
          (Returns-if (not (ltb_ℤ info.priority image.priority))
            (λ low. returned (kept_image info e (ground (arith, low))))
            (λ high.
              Returns-if (ltb_ℤ info.priority (pos 0))
                (λ failed. returned (kept_image info e (ground (arith, failed))))
                (λ fresh.
                  let same : raised_priority info.priority image.priority ≡ image.priority =
                    ground (arith, high, fresh) in
                  Returns-if (not (info.scan_status == in_queue))
                    (λ other. returned (
                      raised_image info e same
                        (ground (arith, other, status_beq_iff info.scan_status in_queue))))
                    (λ waiting.
                      Returns-bind
                        (requeued_image info e same
                          (ground (arith, waiting, status_beq_iff info.scan_status in_queue)))
                        λ r t. and_then-return _ r t.done t))))
  ]
