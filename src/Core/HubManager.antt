-- ===== src/Core/HubManager.antt =====
-- pkg/core/hubmanager.go: the hubs that the configuration names, one client for each. The function that
-- creates a client, a field of the manager, is a parameter.
pub mod Lookup
pub mod Keyed
pub mod Calls
pub mod Created
mod Tests
use Prim.Native.String
use perceptor.Prelude.{
  ℕ, zero, suc, ◌-◌, ℤ, pos, Bool, true, false, not, List, [], ◌∷◌, Option, none, some, String, Run,
  ok, ◌>>=◌, or_panic, if◌then◌else◌, string_eq,
}
use perceptor.Prelude.Maps
use perceptor.Hub.DataTypes.{Scan}
use perceptor.Hub.Model.{Update}
use perceptor.Hub.Hub.{
  Hub, Timings, new_hub, stop_hub, hub_start_scan_client, hub_finish_scan_client,
}

-- A Black Duck host of the configuration.
pub record Host : Type 0 where
  pub scheme : String
  pub domain : String
  pub port : ℤ
  pub user : String
  pub password : String
  pub concurrent_scan_limit : ℤ

pub data Error : Type 0 where
  already_exists : String → Error
  not_created : String → Error
  hub_not_found : String → Error

pub data Creation : Type 0 where
  created : Hub → Creation
  failed : String → Creation

-- The timings that both creators take, in nanoseconds.
abbrev pub default_timings : Timings
default_timings = record {
  scan_completion_pause = pos 60_000_000_000;
  fetch_unknown_scans_pause = pos 30_000_000_000;
  fetch_all_scans_pause = pos 3_599_996_400_000_000_000;
  refresh_scan_threshold = pos 3_600_000_000_000;
  get_metrics_pause = pos 15_000_000_000;
  login_pause = pos 1_800_000_000_000;
}

-- `new_with_session` is hubclient's: the error of a host for which there is no client.
unfoldable pub create_hub_client : (Host → Option String) → Host → Run Creation
create_hub_client new_with_session host = elim (new_with_session host) [
  | some e ↦ ok (failed e)
  | none ↦
      new_hub host.domain host.concurrent_scan_limit default_timings >>= λ hub. ok (created hub)
]

unfoldable pub create_mock_hub_client : Host → Run Creation
create_mock_hub_client host =
    new_hub host.domain host.concurrent_scan_limit default_timings >>= λ hub. ok (created hub)

-- A configuration; an entry may be nil.
abbrev pub Hosts : Type 0
Hosts = List (String × Option Host)

-- A goroutine of SetHubs that still has to create the hubs under some keys of a configuration.
pub record Creating : Type 0 where
  pub hosts : Hosts
  pub urls : List String

-- `stopped` are the hubs that have been removed, the last one first, and `creating` the goroutines
-- that still run.
pub record HubManager : Type 0 where
  pub hubs : List (String × Hub)
  pub stopped : List Hub
  pub creating : List Creating

unfoldable pub new_hub_manager : HubManager
new_hub_manager = record { hubs = []; stopped = []; creating = [] }

abbrev pub has {ℓ} : {A : Type ℓ} → String → List (String × A) → Bool
has key entries = elim (Maps.lookup key entries) [ none ↦ false | some _ ↦ true ]

unfoldable pub register : Host → Creation → HubManager → HubManager × Option Error
register host (created hub) hm = (record hm { hubs = Maps.insert host.domain hub hm.hubs }, none)
register host (failed e) hm = (hm, some (not_created e))

-- The keys of the configuration that have no hub yet.
unfoldable pub hubs_to_create : Hosts → List (String × Hub) → List String
hubs_to_create [] hubs = []
hubs_to_create ((url, host) ∷ rest) hubs =
    let others = hubs_to_create rest hubs in if has url hubs then others else url ∷ others

-- The loop over the hubs that are there, whose key the configuration no longer has.
unfoldable pub delete_removed : Hosts → List (String × Hub) → HubManager → Run HubManager
delete_removed hosts [] hm = ok hm
delete_removed hosts ((url, hub) ∷ rest) hm =
    (if has url hosts
      then ok hm
      else stop_hub hub >>= λ stopped.
          ok (record hm { hubs = Maps.delete url hm.hubs; stopped = stopped ∷ hm.stopped }))
    >>= delete_removed hosts rest

-- SetHubs up to its return: the goroutine of the new hubs is to run.
unfoldable pub start_set_hubs : Hosts → HubManager → Run HubManager
start_set_hubs hosts hm = delete_removed hosts hm.hubs (record hm {
  creating = record { hosts = hosts; urls = hubs_to_create hosts hm.hubs } ∷ hm.creating;
})

unfoldable pub take_from :
    ℕ
    → Hosts
    → List String
    → Option (Hosts × String) × List Creating
    → List Creating
    → Option (Hosts × String) × List Creating
take_from zero hosts [] later rest = (none, rest)
take_from zero hosts (url ∷ urls) later rest =
    (some (hosts, url), record { hosts = hosts; urls = urls } ∷ rest)
take_from (suc i) hosts urls later rest = (later.0, record { hosts = hosts; urls = urls } ∷ later.1)

-- The goroutine at an index takes its next key, and ends without one.
unfoldable pub take_key : ℕ → List Creating → Option (Hosts × String) × List Creating
take_key i [] = (none, [])
take_key i (c ∷ rest) = take_from i c.hosts c.urls (take_key (i - 1) rest) rest

module _ (new_hub_client : Host → Run Creation) where
  unfoldable pub create : Host → HubManager → Run (HubManager × Option Error)
  create host hm =
      if has host.domain hm.hubs
      then ok (hm, some (already_exists host.domain))
      else new_hub_client host >>= λ creation. ok (register host creation hm)

  -- The body of the loop that creates the clients; an error is only logged. A key that is not there
  -- reads as nil.
  unfoldable pub create_missing : Hosts → String → HubManager → Run HubManager
  create_missing hosts url hm =
      if has url hm.hubs
      then ok hm
      else or_panic (Maps.lookup url hosts) >>= or_panic >>= λ host.
          create host hm >>= λ (next, e). ok next

  unfoldable pub create_hubs : Hosts → List String → HubManager → Run HubManager
  create_hubs hosts [] hm = ok hm
  create_hubs hosts (url ∷ urls) hm = create_missing hosts url hm >>= create_hubs hosts urls

  -- A goroutine takes its next key and creates its hub, if there is none.
  unfoldable pub create_next : ℕ → HubManager → Run HubManager
  create_next i hm = elim (take_key i hm.creating).0 [
    | none ↦ ok (record hm { creating = (take_key i hm.creating).1 })
    | some (hosts, url) ↦
        create_missing hosts url (record hm { creating = (take_key i hm.creating).1 })
  ]

  -- SetHubs with its goroutine run to the end, where nothing else touches the manager meanwhile; the
  -- goroutine may come before or after the loop over the removed hubs.
  unfoldable pub set_hubs : Bool → Hosts → HubManager → Run HubManager
  set_hubs true hosts hm = create_hubs hosts (hubs_to_create hosts hm.hubs) hm >>= λ next.
      delete_removed hosts next.hubs next
  set_hubs false hosts hm =
      delete_removed hosts hm.hubs hm >>= create_hubs hosts (hubs_to_create hosts hm.hubs)

-- The hub behind the pointer of a key is changed in place.
unfoldable pub start_scan_client : String → String → HubManager → HubManager × Option Error
start_scan_client url name hm = elim (Maps.lookup url hm.hubs) [
  | none ↦ (hm, some (hub_not_found url))
  | some hub ↦ (record hm { hubs = Maps.insert url (hub_start_scan_client name hub) hm.hubs }, none)
]

unfoldable pub finish_scan_client : String → String → Bool → HubManager → HubManager × Option Error
finish_scan_client url name scan_err hm = elim (Maps.lookup url hm.hubs) [
  | none ↦ (hm, some (hub_not_found url))
  | some hub ↦ (
    record hm { hubs = Maps.insert url (hub_finish_scan_client name scan_err hub) hm.hubs },
    none,
  )
]

unfoldable pub scan_results : List (String × Hub) → List (String × List (String × Scan))
scan_results [] = []
scan_results ((url, hub) ∷ rest) = (url, hub.model.scans) ∷ scan_results rest
