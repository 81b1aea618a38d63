-- ===== src/Core/HubManager/Keyed.antt =====
-- pkg/core/hubmanager.go: every hub stands under its own host, and no key comes twice.
use perceptor.Prelude.{
  ◌≡◌, ◌≢◌, inl, inr, refl, ◌∙◌, Option-cases, Bool, Bool-cases, true, false, List, [], ◌∷◌, none,
  some, String, arith, Run, Returns, returned, Returns-bind, Returns-if, Returns-weaken, ok, not,
  ◌||◌, ◌&&◌, ◌==◌, string_eq,
}
use perceptor.Prelude.Maps
use perceptor.Hub.Hub.{Hub, stop_hub, hub_start_scan_client, hub_finish_scan_client}
use perceptor.Core.HubManager.{
  Host, Creation, created, failed, HubManager, has, register, delete_removed, create, create_hubs,
  create_missing, hubs_to_create, Hosts, Creating, start_scan_client, finish_scan_client,
}
use text.Mathlib.TextEquality.{eq_iff}

abbrev pub is_one_of : String → List String → Bool
is_one_of key [] = false
is_one_of key (k ∷ keys) = (k == key) || is_one_of key keys

pub has-hubs_to_create :
    (hosts : Hosts) (hubs : List (String × Hub)) (key : String)
    → is_one_of key (hubs_to_create hosts hubs) ≡ (has key hosts && not (has key hubs))
unfolding hubs_to_create Maps.lookup
has-hubs_to_create [] hubs key = ground arith
has-hubs_to_create ((url, host) ∷ rest) hubs key =
    ground (arith, eq_iff url key, has-hubs_to_create rest hubs key)

pub known_to_create :
    (hosts : Hosts) (hubs : List (String × Hub)) (key : String)
    → is_one_of key (hubs_to_create hosts hubs) ≡ true
    → Maps.lookup key hosts ≢ none
known_to_create hosts hubs key h n = ground (arith, has-hubs_to_create hosts hubs key, h, n)

-- The hub has the key as its host, and has not been stopped.
abbrev pub IsOf : String → Hub → Type 0
IsOf key hub = (hub.host ≡ key) × (hub.stopped ≡ false)

abbrev pub IsKeyed : List (String × Hub) → Type 0
IsKeyed [] = Unit {0}
IsKeyed ((key, hub) ∷ rest) = IsOf key hub × (Maps.lookup key rest ≡ none) × IsKeyed rest

insert-IsKeyed :
    (key : String) (hub : Hub) (hubs : List (String × Hub))
    → IsOf key hub
    → IsKeyed hubs
    → IsKeyed (Maps.insert key hub hubs)
unfolding Maps.insert Maps.lookup
insert-IsKeyed key hub [] e k = (e, refl, tt)
insert-IsKeyed key hub ((url, old) ∷ rest) e (a, b, c) = elim (Bool-cases (url == key)) [
  | inl f ↦ rw (f, Maps.insert) (e, ground (arith, f, eq_iff url key, b), c)
  | inr f ↦
      rw (f, Maps.insert)
        (
          a,
          ground (arith, f, eq_iff url key, eq_iff key url, b, Maps.lookup-insert key url hub rest),
          insert-IsKeyed key hub rest e c,
        )
]

delete-IsKeyed :
    (key : String) (hubs : List (String × Hub)) → IsKeyed hubs → IsKeyed (Maps.delete key hubs)
unfolding Maps.delete
delete-IsKeyed key [] k = tt
delete-IsKeyed key ((url, old) ∷ rest) (a, b, c) = elim (Bool-cases (url == key)) [
  | inl f ↦ rw (f, Maps.delete) (delete-IsKeyed key rest c)
  | inr f ↦
      rw (f, Maps.delete)
        (a, ground (arith, b, Maps.lookup-delete key url rest), delete-IsKeyed key rest c)
]

pub lookup-IsOf :
    (key : String) (hub : Hub) (hubs : List (String × Hub))
    → IsKeyed hubs
    → Maps.lookup key hubs ≡ some hub
    → IsOf key hub
unfolding Maps.lookup
lookup-IsOf key hub [] k e = absurd (cc)
lookup-IsOf key hub ((url, old) ∷ rest) (a, b, c) e =
    ground (arith, eq_iff url key, a, e, lookup-IsOf key hub rest c)

-- A hub that is created has the domain as its host, and has not been stopped.
abbrev pub IsSoundCreation : Host → Creation → Type 0
IsSoundCreation host (created hub) = IsOf host.domain hub
IsSoundCreation host (failed e) = Unit {0}

pub stop_hub-ok :
    (hub : Hub) → hub.stopped ≡ false → stop_hub hub ≡ ok (record hub { stopped = true })
unfolding stop_hub
stop_hub-ok hub e = rw e refl

-- The hubs are keyed, and these goroutines still run.
abbrev pub IsKeyedWith : List Creating → HubManager → Type 0
IsKeyedWith creating hm = IsKeyed hm.hubs × (hm.creating ≡ creating)

pub delete_removed-IsKeyed :
    (hosts : Hosts) (entries : List (String × Hub)) (hm : HubManager)
    → IsKeyed entries
    → IsKeyed hm.hubs
    → Returns (IsKeyedWith hm.creating) (delete_removed hosts entries hm)
unfolding delete_removed
delete_removed-IsKeyed hosts [] hm l k = returned (k, refl)
delete_removed-IsKeyed hosts ((url, hub) ∷ rest) hm (a, b, l) k =
    elim (Bool-cases (has url hosts)) [
      | inl e ↦ rw (e, delete_removed) (delete_removed-IsKeyed hosts rest hm l k)
      | inr e ↦
          rw (e, delete_removed, stop_hub-ok hub (a.1))
            (delete_removed-IsKeyed hosts rest _ l (delete-IsKeyed url hm.hubs k))
    ]

register-IsKeyed :
    (host : Host) (c : Creation) (hm : HubManager)
    → IsSoundCreation host c
    → IsKeyed hm.hubs
    → IsKeyed (register host c hm).0.hubs
unfolding register
register-IsKeyed host (created hub) hm s k = insert-IsKeyed host.domain hub hm.hubs s k
register-IsKeyed host (failed e) hm s k = k

-- A change of the hub under a key that keeps its host.
change-IsKeyed :
    (url : String) (old hub : Hub) (hubs : List (String × Hub))
    → hub.host ≡ old.host
    → hub.stopped ≡ old.stopped
    → Maps.lookup url hubs ≡ some old
    → IsKeyed hubs
    → IsKeyed (Maps.insert url hub hubs)
change-IsKeyed url old hub hubs same runs e k =
    let (host, running) = lookup-IsOf url old hubs k e in
    insert-IsKeyed url hub hubs (same ∙ host, runs ∙ running) k

pub start_scan_client-IsKeyed :
    (url name : String) (hm : HubManager)
    → IsKeyed hm.hubs
    → IsKeyed (start_scan_client url name hm).0.hubs
unfolding start_scan_client hub_start_scan_client
start_scan_client-IsKeyed url name hm k = elim (Option-cases (Maps.lookup url hm.hubs)) [
  | inl e ↦ rw (e, start_scan_client) k
  | inr (hub, e) ↦ rw (e, start_scan_client) (change-IsKeyed url hub _ hm.hubs refl refl e k)
]

pub finish_scan_client-IsKeyed :
    (url name : String) (err : Bool) (hm : HubManager)
    → IsKeyed hm.hubs
    → IsKeyed (finish_scan_client url name err hm).0.hubs
unfolding finish_scan_client hub_finish_scan_client
finish_scan_client-IsKeyed url name err hm k = elim (Option-cases (Maps.lookup url hm.hubs)) [
  | inl e ↦ rw (e, finish_scan_client) k
  | inr (hub, e) ↦ rw (e, finish_scan_client) (change-IsKeyed url hub _ hm.hubs refl refl e k)
]

register-creating :
    (host : Host) (c : Creation) (hm : HubManager) → (register host c hm).0.creating ≡ hm.creating
unfolding register
register-creating host (created hub) hm = refl
register-creating host (failed e) hm = refl

-- No entry is nil.
abbrev pub IsFilled : Hosts → Type 0
IsFilled hosts = (key : String) → Maps.lookup key hosts ≢ some none

abbrev pub IsKnown : Hosts → List String → Type 0
IsKnown hosts urls = (url : String) → is_one_of url urls ≡ true → Maps.lookup url hosts ≢ none

module _ (new_hub_client : Host → Run Creation)
    (sound : (host : Host) → Returns (IsSoundCreation host) (new_hub_client host)) where
  create-IsKeyed :
      (host : Host) (hm : HubManager)
      → IsKeyed hm.hubs
      → Returns (λ r. IsKeyedWith hm.creating r.0) (create new_hub_client host hm)
  unfolding create
  create-IsKeyed host hm k =
      Returns-if (has host.domain hm.hubs) (λ e. returned (k, refl))
        (λ e.
          Returns-bind (sound host)
            λ c s. returned (register-IsKeyed host c hm s k, register-creating host c hm))

  pub create_missing-IsKeyed :
      (hosts : Hosts) (url : String) (hm : HubManager)
      → IsFilled hosts
      → Maps.lookup url hosts ≢ none
      → IsKeyed hm.hubs
      → Returns (IsKeyedWith hm.creating) (create_missing new_hub_client hosts url hm)
  unfolding create_missing
  create_missing-IsKeyed hosts url hm filled known k =
      Returns-if (has url hm.hubs) (λ e. returned (k, refl))
        λ e. elim (Option-cases (Maps.lookup url hosts)) [
          | inl f ↦ absurd (known f)
          | inr (none, f) ↦ absurd (filled url f)
          | inr (some host, f) ↦ rw f (Returns-bind (create-IsKeyed host hm k) λ r l. returned l)
        ]

  pub create_hubs-IsKeyed :
      (hosts : Hosts) (urls : List String) (hm : HubManager)
      → IsFilled hosts
      → IsKnown hosts urls
      → IsKeyed hm.hubs
      → Returns (IsKeyedWith hm.creating) (create_hubs new_hub_client hosts urls hm)
  unfolding create_hubs
  create_hubs-IsKeyed hosts [] hm filled known k = returned (k, refl)
  create_hubs-IsKeyed hosts (url ∷ urls) hm filled known k =
      Returns-bind
        (create_missing-IsKeyed hosts url hm filled (known url (ground (arith, eq_iff url url))) k)
        λ next (l, same).
          Returns-weaken
            (create_hubs-IsKeyed hosts urls next filled (λ u h. known u (ground (arith, h))) l)
            λ r (m, also). (m, also ∙ same)

pub start_scan_client-creating :
    (url name : String) (hm : HubManager) → (start_scan_client url name hm).0.creating ≡ hm.creating
unfolding start_scan_client
start_scan_client-creating url name hm = ground arith

pub finish_scan_client-creating :
    (url name : String) (err : Bool) (hm : HubManager)
    → (finish_scan_client url name err hm).0.creating ≡ hm.creating
unfolding finish_scan_client
finish_scan_client-creating url name err hm = ground arith
