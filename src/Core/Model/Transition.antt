-- ===== src/Core/Model/Transition.antt =====
-- The transition of one image: leaveState, enterState and setImageScanStatus.
use perceptor.Prelude.{
  ℕ, ◌≡◌, ◌≢◌, ◌↔◌, inl, inr, some-ne-none, refl, ap, ◌∙◌, Option-cases, Bool-cases, true, false,
  [], ◌∷◌, ◌++◌, Option, none, some, String, arith, ok, Returns, returned, Returns-bind,
  if◌then◌else◌, ◌==◌, string_eq,
}
use text.Mathlib.TextEquality.{eq_iff}
use perceptor.Prelude.Maps
use perceptor.Util.PriorityQueue.{Node}
use perceptor.Util.PriorityQueue.Slots.{find}
use perceptor.Util.PriorityQueue.Valid.{IsValid}
use perceptor.Util.PriorityQueue.Insert.{add_correct}
use perceptor.Util.PriorityQueue.Remove.{remove_correct}
use perceptor.Core.Model.ScanStatus.{ScanStatus, in_queue, is_legal_transition, status_beq}
use perceptor.Core.Model.Image.{DockerImageSha, ImageInfo, set_scan_status}
use perceptor.Core.Model.State.{
  Model, Error, illegal_transition, ImageTransition, with_queue, leave_state, enter_state,
  add_image_to_scan_queue, remove_image_from_scan_queue, set_image_scan_status_for_sha, status_text,
  set_image_scan_status,
}
use perceptor.Core.Model.Invariant.{IsConsistent, find-not_waiting}

abbrev waiting_node : DockerImageSha → ImageInfo → Node DockerImageSha
waiting_node sha info = record { key = sha; priority = info.priority; value = sha }

-- The step succeeded and only the queue has changed: the sha has no node.
record Left (m : Model) (sha : DockerImageSha) (r : Model × Option Error) : Type 0 where
  done : r.1 ≡ none
  rest : r.0 ≡ with_queue m r.0.image_scan_queue
  queue : IsValid r.0.image_scan_queue
  nodes :
      (k : String)
      → find r.0.image_scan_queue k ≡ (if sha == k then none else find m.image_scan_queue k)

unmoved :
    {m : Model} {sha : DockerImageSha}
    → IsConsistent m
    → find m.image_scan_queue sha ≡ none
    → Left m sha (m, none)
unmoved {m} {sha} c e = record {
  done = refl;
  rest = refl;
  queue = c.queue;
  nodes = λ k. ground (arith, eq_iff sha k);
}

leave_state-Left :
    {m : Model} (sha : DockerImageSha) (info : ImageInfo) (s : ScanStatus)
    → IsConsistent m
    → Maps.lookup sha m.images ≡ some info
    → info.scan_status ≡ s
    → Returns (Left m sha) (leave_state sha s m)
unfolding leave_state remove_image_from_scan_queue
leave_state-Left {m} sha info in_queue c e q =
    Returns-bind (remove_correct m.image_scan_queue sha c.queue) λ r removed.
      elim (Option-cases (find m.image_scan_queue sha)) [
        | inl f ↦ absurd (c.waiting sha info e q f)
        | inr (n, f) ↦
            let (value, fine, size, nodes) = removed.accepted n f in
            rw fine
              (returned (record { done = refl; rest = refl; queue = removed.valid; nodes = nodes }))
      ]
leave_state-Left {m} sha info s c e q =
    returned (unmoved c (find-not_waiting c sha info e (ground (arith, q))))

-- The step succeeded and only the queue has changed: the sha has a node exactly if it is to wait.
record Entered (m : Model) (sha : DockerImageSha) (info : ImageInfo) (status : ScanStatus)
    (r : Model × Option Error) : Type 0 where
  done : r.1 ≡ none
  rest : r.0 ≡ with_queue m r.0.image_scan_queue
  queue : IsValid r.0.image_scan_queue
  nodes :
      (k : String)
      → find r.0.image_scan_queue k ≡ (
          if sha == k
          then (if status_beq status in_queue then some (waiting_node sha info) else none)
          else find m.image_scan_queue k)

enter_state-Entered :
    {m : Model} (sha : DockerImageSha) (info : ImageInfo) (s : ScanStatus)
    → IsValid m.image_scan_queue
    → Maps.lookup sha m.images ≡ some info
    → find m.image_scan_queue sha ≡ none
    → Returns (Entered m sha info s) (enter_state sha s m)
unfolding enter_state add_image_to_scan_queue
enter_state-Entered {m} sha info in_queue v e f =
    rw (e, add_image_to_scan_queue)
      (Returns-bind (add_correct m.image_scan_queue sha info.priority sha v) λ r added.
        let (fine, size, nodes) = added.accepted f in
        rw fine
          (returned (record { done = refl; rest = refl; queue = added.valid; nodes = nodes })))
enter_state-Entered {m} sha info s v e f =
    returned
      (record { done = refl; rest = refl; queue = v; nodes = λ k. ground (arith, eq_iff sha k) })

abbrev pub transition_entry :
    ℕ → Model → DockerImageSha → ScanStatus → Option Error → ImageTransition
transition_entry now m sha status e = record {
  sha = sha;
  from = status_text sha m;
  to = status;
  err = e;
  time = now;
}

-- What setImageScanStatus promises for an image in the model, from its entry `info`: a legal
-- transition succeeds, moves this image alone, and puts its sha in the queue or takes it out; an
-- illegal one is refused, and images and queue stay as they are. Both are logged.
pub record Transitioned (now : ℕ) (m : Model) (sha : DockerImageSha) (info : ImageInfo)
    (status : ScanStatus) (r : Model × Option Error) : Type 0 where
  pub moved :
      is_legal_transition info.scan_status status ≡ true
      → (r.1 ≡ none)
        × (r.0.images ≡ Maps.insert sha (set_scan_status now status info) m.images)
        × ((k : String)
            → find r.0.image_scan_queue k ≡ (
                if sha == k
                then (if status_beq status in_queue then some (waiting_node sha info) else none)
                else find m.image_scan_queue k))
  pub refused :
      is_legal_transition info.scan_status status ≡ false
      → (r.1 ≢ none) × (r.0.images ≡ m.images) × (r.0.image_scan_queue ≡ m.image_scan_queue)
  pub queue : IsValid r.0.image_scan_queue
  pub pods : r.0.pods ≡ m.pods
  pub logged :
      (e : Option Error) × (r.0.image_transitions
        ≡ m.image_transitions ++ transition_entry now m sha status e ∷ [])
      × ((e ≡ none) ↔ (is_legal_transition info.scan_status status ≡ true))

-- The legal case before the log.
record Moved (now : ℕ) (m : Model) (sha : DockerImageSha) (info : ImageInfo) (status : ScanStatus)
    (r : Model × Option Error) : Type 0 where
  done : r.1 ≡ none
  images : r.0.images ≡ Maps.insert sha (set_scan_status now status info) m.images
  queue : IsValid r.0.image_scan_queue
  nodes :
      (k : String)
      → find r.0.image_scan_queue k ≡ (
          if sha == k
          then (if status_beq status in_queue then some (waiting_node sha info) else none)
          else find m.image_scan_queue k)
  pods : r.0.pods ≡ m.pods
  transitions : r.0.image_transitions ≡ m.image_transitions

set_image_scan_status_for_sha-Moved :
    {m : Model} (now : ℕ) (sha : DockerImageSha) (info : ImageInfo) (status : ScanStatus)
    → IsConsistent m
    → Maps.lookup sha m.images ≡ some info
    → is_legal_transition info.scan_status status ≡ true
    → Returns (Moved now m sha info status) (set_image_scan_status_for_sha now sha status m)
unfolding set_image_scan_status_for_sha
set_image_scan_status_for_sha-Moved {m} now sha info status c e legal =
    rw (e, set_image_scan_status_for_sha, legal)
      (Returns-bind (leave_state-Left sha info info.scan_status c e refl) λ (left, err) l.
        rw l.done (
          Returns-bind
            (enter_state-Entered {m = left} sha info status l.queue
              (ap (λ (x : Model). Maps.lookup sha x.images) l.rest ∙ e)
              (ground (arith, l.nodes sha, eq_iff sha sha)))
            λ (entered, err') n. rw n.done (
              returned (record {
                done = refl;
                images =
                    ap (λ (x : Model). Maps.insert sha (set_scan_status now status info) x.images)
                      (n.rest ∙ ap (λ (x : Model). with_queue x entered.image_scan_queue) l.rest);
                queue = n.queue;
                nodes = λ k. ground (arith, n.nodes k, l.nodes k);
                pods = ap (λ (x : Model). x.pods) n.rest ∙ ap (λ (x : Model). x.pods) l.rest;
                transitions =
                    ap (λ (x : Model). x.image_transitions) n.rest
                    ∙ ap (λ (x : Model). x.image_transitions) l.rest;
              }))))

set_image_scan_status_for_sha-refused :
    {m : Model} (now : ℕ) (sha : DockerImageSha) (info : ImageInfo) (status : ScanStatus)
    → Maps.lookup sha m.images ≡ some info
    → is_legal_transition info.scan_status status ≡ false
    → set_image_scan_status_for_sha now sha status m
      ≡ ok (m, some (illegal_transition info.scan_status status sha))
unfolding set_image_scan_status_for_sha
set_image_scan_status_for_sha-refused now sha info status e illegal =
    rw (e, set_image_scan_status_for_sha, illegal)

-- On a consistent model setImageScanStatus never panics, for an image that the model has: a legal
-- transition moves this image alone and puts its sha in the queue or takes it out, an illegal one is
-- refused and changes neither images nor queue, and both are logged.
pub set_image_scan_status_correct :
    {m : Model} (now : ℕ) (sha : DockerImageSha) (info : ImageInfo) (status : ScanStatus)
    → IsConsistent m
    → Maps.lookup sha m.images ≡ some info
    → Returns (Transitioned now m sha info status) (set_image_scan_status now sha status m)
unfolding set_image_scan_status
set_image_scan_status_correct {m} now sha info status c e =
    elim (Bool-cases (is_legal_transition info.scan_status status)) [
      | inr illegal ↦
          rw (set_image_scan_status_for_sha-refused {m = m} now sha info status e illegal) (
            returned (record {
              moved = λ p. absurd (ground (arith, p, illegal));
              refused = λ p. (some-ne-none _, refl, refl);
              queue = c.queue;
              pods = refl;
              logged = (
                some (illegal_transition info.scan_status status sha),
                refl,
                ((λ q. absurd (some-ne-none _ q)), λ q. absurd (ground (arith, q, illegal))),
              );
            }))
      | inl legal ↦
          Returns-bind (set_image_scan_status_for_sha-Moved now sha info status c e legal)
            λ (next, err) s. rw s.done (
              returned (record {
                moved = λ p. (refl, s.images, s.nodes);
                refused = λ p. absurd (ground (arith, p, legal));
                queue = s.queue;
                pods = s.pods;
                logged = (
                  err,
                  ap (λ l. l ++ transition_entry now m sha status err ∷ []) s.transitions,
                  ((λ q. legal), λ q. s.done),
                );
              }))
    ]
