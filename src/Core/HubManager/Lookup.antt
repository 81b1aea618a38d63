-- ===== src/Core/HubManager/Lookup.antt =====
-- pkg/core/hubmanager.go: which hubs there are after SetHubs.
use perceptor.Prelude.{
  ◌≡◌, ◌≢◌, inl, inr, ◌∙◌, Option-cases, Bool, Bool-cases, true, false, not, ◌&&◌, List, [], ◌∷◌,
  Option, none, some, String, arith, Run, ok, ◌>>=◌, Returns, returned, Returns-bind, Returns-if,
  Returns-weaken, Returns-both, ◌==◌, string_eq, if◌then◌else◌,
}
use perceptor.Prelude.Maps
use perceptor.Hub.Hub.{Hub}
use perceptor.Core.HubManager.{
  Host, Creation, created, failed, HubManager, has, register, hubs_to_create, delete_removed,
  create, create_missing, create_hubs, set_hubs, Hosts,
}
use perceptor.Core.HubManager.Keyed.{
  is_one_of, has-hubs_to_create, known_to_create, IsKeyed, IsFilled, IsSoundCreation, stop_hub-ok,
  create_hubs-IsKeyed,
}
use text.Mathlib.TextEquality.{eq_iff}

lookup-delete_removed :
    (hosts : Hosts) (entries : List (String × Hub)) (hm : HubManager)
    → IsKeyed entries
    → Returns
        (λ r.
          (key : String)
          → Maps.lookup key r.hubs
            ≡ (if not (has key hosts) && has key entries then none else Maps.lookup key hm.hubs))
        (delete_removed hosts entries hm)
unfolding delete_removed Maps.lookup
lookup-delete_removed hosts [] hm k = returned λ key. ground arith
lookup-delete_removed hosts ((url, hub) ∷ rest) hm (a, b, k) = elim (Bool-cases (has url hosts)) [
  | inl e ↦
      rw (e, delete_removed)
        (Returns-weaken (lookup-delete_removed hosts rest hm k)
          λ r f key. ground (arith, eq_iff url key, e, f key))
  | inr e ↦
      rw (e, delete_removed, stop_hub-ok hub (a.1))
        (Returns-weaken (lookup-delete_removed hosts rest _ k)
          λ r f key. f key ∙ ground (arith, eq_iff url key, e, Maps.lookup-delete url key hm.hubs))
]

-- Every entry is a host, and stands under its domain.
abbrev pub IsByDomain : Hosts → Type 0
IsByDomain hosts =
    (key : String) (entry : Option Host)
    → Maps.lookup key hosts ≡ some entry
    → (host : Host) × (entry ≡ some host) × (host.domain ≡ key)

IsByDomain-IsFilled : (hosts : Hosts) → IsByDomain hosts → IsFilled hosts
IsByDomain-IsFilled hosts d key e = let (host, f, same) = d key none e in absurd (cc)

abbrev pub client_of : Run Creation → Option Hub
client_of (ok (created hub)) = some hub
client_of call = none

register-lookup :
    (host : Host) (hm : HubManager) {call : Run Creation}
    → Returns (λ c. Unit {0}) call
    → Maps.lookup host.domain hm.hubs ≡ none
    → Returns
        (λ r.
          (key : String)
          → Maps.lookup key r.0.hubs
            ≡ (if host.domain == key then client_of call else Maps.lookup key hm.hubs))
        (call >>= λ c. ok (register host c hm))
unfolding register
register-lookup host hm (returned {a = created hub} _) e =
    returned λ key. Maps.lookup-insert host.domain key hub hm.hubs
register-lookup host hm (returned {a = failed message} _) e =
    returned λ key. ground (arith, eq_iff host.domain key, e)

abbrev first_of : Option Hub → Option Hub → Option Hub
first_of none other = other
first_of (some hub) other = some hub

module _ (new_hub_client : Host → Run Creation) where
  abbrev made : Option (Option Host) → Option Hub
  made none = none
  made (some none) = none
  made (some (some host)) = client_of (new_hub_client host)

  lookup-create :
      (host : Host) (hm : HubManager)
      → Returns (λ c. Unit {0}) (new_hub_client host)
      → Maps.lookup host.domain hm.hubs ≡ none
      → Returns
          (λ r.
            (key : String)
            → Maps.lookup key r.0.hubs ≡ (
                if host.domain == key
                then client_of (new_hub_client host)
                else Maps.lookup key hm.hubs))
          (create new_hub_client host hm)
  unfolding create
  lookup-create host hm run e =
      Returns-if (has host.domain hm.hubs) (λ h. absurd (ground (arith, h, e)))
        (λ h. register-lookup host hm run e)

  module _ (returns : (host : Host) → Returns (λ c. Unit {0}) (new_hub_client host)) (hosts : Hosts)
      (by_domain : IsByDomain hosts) where
    -- The body of the loop for one key.
    missing_created :
        (url : String) (hm : HubManager)
        → Maps.lookup url hosts ≢ none
        → Returns
            (λ r.
              (key : String)
              → Maps.lookup key r.hubs
                ≡ first_of
                    (Maps.lookup key hm.hubs)
                    (if url == key then made (Maps.lookup key hosts) else none))
            (create_missing new_hub_client hosts url hm)
    unfolding create_missing
    missing_created url hm known =
        Returns-if (has url hm.hubs) (λ h. returned λ key. ground (arith, h, eq_iff url key))
          (λ h. elim (Option-cases (Maps.lookup url hosts)) [
            | inl f ↦ absurd (known f)
            | inr (entry, f) ↦
                let (host, g, same) = by_domain url entry f in
                rw (f, g)
                  (Returns-bind (lookup-create host hm (returns host) (ground (arith, h, same)))
                    λ r k. returned λ key. ground (arith, k key, h, same, f, g, eq_iff url key))
          ])

    lookup-create_hubs :
        (urls : List String) (hm : HubManager)
        → ((key : String) → is_one_of key urls ≡ true → Maps.lookup key hosts ≢ none)
        → Returns
            (λ r.
              (key : String)
              → Maps.lookup key r.hubs
                ≡ first_of
                    (Maps.lookup key hm.hubs)
                    (if is_one_of key urls then made (Maps.lookup key hosts) else none))
            (create_hubs new_hub_client hosts urls hm)
    unfolding create_hubs
    lookup-create_hubs [] hm known = returned λ key. ground arith
    lookup-create_hubs (url ∷ urls) hm known =
        Returns-bind (missing_created url hm (known url (ground (arith, eq_iff url url)))) λ next f.
          Returns-weaken (lookup-create_hubs urls next (λ key h. known key (ground (arith, h))))
            λ r k key. ground (arith, k key, f key, eq_iff url key)

-- The hub that a key is to have: none without a host, the one it has, or else a new one if a client
-- can be created.
abbrev pub wanted_hub : (Host → Run Creation) → Option (Option Host) → Option Hub → Option Hub
wanted_hub new_hub_client none old = none
wanted_hub new_hub_client (some entry) (some hub) = some hub
wanted_hub new_hub_client (some none) none = none
wanted_hub new_hub_client (some (some host)) none = client_of (new_hub_client host)

-- SetHubs, where each entry is a host under its domain, the hubs of the manager stand under their own
-- hosts and have not been stopped, creating a client returns, with such a hub or an error, and nothing
-- else touches the manager until the goroutine of SetHubs has ended: nothing panics, every host that had
-- a hub keeps it, every other one has a new hub unless its client could not be created, and no other hub
-- is left. That is so whether the creation or the removal comes first.
pub lookup-set_hubs :
    (new_hub_client : Host → Run Creation) (create_first : Bool) (hosts : Hosts) (hm : HubManager)
    → ((host : Host) → Returns (IsSoundCreation host) (new_hub_client host))
    → IsByDomain hosts
    → IsKeyed hm.hubs
    → Returns
        (λ r.
          (key : String)
          → Maps.lookup key r.hubs
            ≡ wanted_hub new_hub_client (Maps.lookup key hosts) (Maps.lookup key hm.hubs))
        (set_hubs new_hub_client create_first hosts hm)
unfolding set_hubs
lookup-set_hubs new_hub_client true hosts hm sound by_domain keyed =
    Returns-bind
      (Returns-both
        (create_hubs-IsKeyed new_hub_client sound hosts (hubs_to_create hosts hm.hubs) hm
          (IsByDomain-IsFilled hosts by_domain) (known_to_create hosts hm.hubs) keyed)
        (lookup-create_hubs new_hub_client (λ host. Returns-weaken (sound host) λ c s. tt) hosts
          by_domain (hubs_to_create hosts hm.hubs) hm (known_to_create hosts hm.hubs)))
      λ next (l, k).
        Returns-weaken (lookup-delete_removed hosts next.hubs next (l.0))
          λ r f key. ground (arith, f key, k key, has-hubs_to_create hosts hm.hubs key)
lookup-set_hubs new_hub_client false hosts hm sound by_domain keyed =
    Returns-bind (lookup-delete_removed hosts hm.hubs hm keyed) λ next f.
      Returns-weaken
        (lookup-create_hubs new_hub_client (λ host. Returns-weaken (sound host) λ c s. tt) hosts
          by_domain (hubs_to_create hosts hm.hubs) next (known_to_create hosts hm.hubs))
        λ r k key. ground (arith, k key, f key, has-hubs_to_create hosts hm.hubs key)
