-- ===== src/Core/HubManager/Calls.antt =====
-- pkg/core/hubmanager.go: the calls that the manager gets, and the turns of the goroutines of SetHubs, in
-- any order. A turn creates one hub, and the loop over the removed hubs is one step.
use perceptor.Prelude.{
  ℕ, zero, suc, ◌-◌, ◌≢◌, sym, subst, Bool, List, [], ◌∷◌, Option, none, some, String, arith, Run,
  ok, ◌>>=◌, Returns, returned, Returns-bind, Returns-weaken, string_eq,
}
use perceptor.Prelude.Maps
use perceptor.Core.HubManager.{
  Host, Hosts, Creating, Creation, HubManager, new_hub_manager, take_from, take_key, start_set_hubs,
  create_next, create_missing, start_scan_client, finish_scan_client,
}
use perceptor.Core.HubManager.Keyed.{
  IsKeyed, IsFilled, IsKnown, IsSoundCreation, known_to_create, delete_removed-IsKeyed,
  create_missing-IsKeyed, start_scan_client-IsKeyed, finish_scan_client-IsKeyed,
  start_scan_client-creating, finish_scan_client-creating,
}
use text.Mathlib.TextEquality.{eq_iff}

-- The calls that change the manager, and a turn of the goroutine at an index.
pub data Call : Type 0 where
  sets_hubs : Hosts → Call
  takes_turn : ℕ → Call
  starts_scan_client : String → String → Call
  finishes_scan_client : String → String → Bool → Call

-- An error of a call is returned to its caller.
unfoldable pub run_call : (Host → Run Creation) → Call → HubManager → Run HubManager
run_call new_hub_client (sets_hubs hosts) hm = start_set_hubs hosts hm
run_call new_hub_client (takes_turn i) hm = create_next new_hub_client i hm
run_call new_hub_client (starts_scan_client url name) hm = ok (start_scan_client url name hm).0
run_call new_hub_client (finishes_scan_client url name err) hm =
    ok (finish_scan_client url name err hm).0

unfoldable pub run_calls : (Host → Run Creation) → List Call → HubManager → Run HubManager
run_calls new_hub_client [] hm = ok hm
run_calls new_hub_client (call ∷ calls) hm =
    run_call new_hub_client call hm >>= run_calls new_hub_client calls

-- No configuration that is set has a nil entry.
abbrev pub IsFilledCall : Call → Type 0
IsFilledCall (sets_hubs hosts) = IsFilled hosts
IsFilledCall call = Unit {0}

abbrev pub AllFilled : List Call → Type 0
AllFilled [] = Unit {0}
AllFilled (call ∷ calls) = IsFilledCall call × AllFilled calls

-- The keys that the goroutines still have to take have hosts.
abbrev pub IsPrepared : List Creating → Type 0
IsPrepared [] = Unit {0}
IsPrepared (c ∷ rest) = IsFilled c.hosts × IsKnown c.hosts c.urls × IsPrepared rest

-- Every hub stands under its own host, once, and has not been stopped.
pub record IsManaged (hm : HubManager) : Type 0 where
  pub keyed : IsKeyed hm.hubs
  pub prepared : IsPrepared hm.creating

abbrev IsTaken : Option (Hosts × String) → Type 0
IsTaken none = Unit {0}
IsTaken (some (hosts, url)) = IsFilled hosts × (Maps.lookup url hosts ≢ none)

take_from-IsPrepared :
    (i : ℕ) (hosts : Hosts) (urls : List String) (later : Option (Hosts × String) × List Creating)
    (rest : List Creating)
    → IsFilled hosts
    → IsKnown hosts urls
    → IsPrepared rest
    → IsTaken later.0 × IsPrepared later.1
    → IsTaken (take_from i hosts urls later rest).0
      × IsPrepared (take_from i hosts urls later rest).1
unfolding take_from
take_from-IsPrepared zero hosts [] later rest f k p l = (tt, p)
take_from-IsPrepared zero hosts (url ∷ urls) later rest f k p l =
    ((f, k url (ground (arith, eq_iff url url))), (f, (λ u h. k u (ground (arith, h))), p))
take_from-IsPrepared (suc i) hosts urls later rest f k p l = (l.0, (f, k, l.1))

take_key-IsPrepared :
    (i : ℕ) (cs : List Creating)
    → IsPrepared cs
    → IsTaken (take_key i cs).0 × IsPrepared (take_key i cs).1
unfolding take_key
take_key-IsPrepared i [] p = (tt, tt)
take_key-IsPrepared i (c ∷ rest) (f, k, p) =
    take_from-IsPrepared i c.hosts c.urls (take_key (i - 1) rest) rest f k p
      (take_key-IsPrepared (i - 1) rest p)

pub start_set_hubs-IsManaged :
    (hosts : Hosts) (hm : HubManager)
    → IsFilled hosts
    → IsManaged hm
    → Returns IsManaged (start_set_hubs hosts hm)
unfolding start_set_hubs
start_set_hubs-IsManaged hosts hm f i =
    Returns-weaken (delete_removed-IsKeyed hosts hm.hubs _ i.keyed i.keyed) λ r (k, same). record {
      keyed = k;
      prepared = subst IsPrepared (sym same) (f, known_to_create hosts hm.hubs, i.prepared);
    }

pub start_scan_client-IsManaged :
    (url name : String) (hm : HubManager)
    → IsManaged hm
    → IsManaged (start_scan_client url name hm).0
start_scan_client-IsManaged url name hm i = record {
  keyed = start_scan_client-IsKeyed url name hm i.keyed;
  prepared = subst IsPrepared (sym (start_scan_client-creating url name hm)) i.prepared;
}

pub finish_scan_client-IsManaged :
    (url name : String) (err : Bool) (hm : HubManager)
    → IsManaged hm
    → IsManaged (finish_scan_client url name err hm).0
finish_scan_client-IsManaged url name err hm i = record {
  keyed = finish_scan_client-IsKeyed url name err hm i.keyed;
  prepared = subst IsPrepared (sym (finish_scan_client-creating url name err hm)) i.prepared;
}

module _ (new_hub_client : Host → Run Creation)
    (sound : (host : Host) → Returns (IsSoundCreation host) (new_hub_client host)) where
  pub create_next-IsManaged :
      (i : ℕ) (hm : HubManager) → IsManaged hm → Returns IsManaged (create_next new_hub_client i hm)
  unfolding create_next
  create_next-IsManaged i hm m =
      let (taken, rest) = take_key-IsPrepared i hm.creating m.prepared in
      after (take_key i hm.creating).0 (take_key i hm.creating).1 taken rest
    where
      after :
          (key : Option (Hosts × String)) (rest : List Creating)
          → IsTaken key
          → IsPrepared rest
          → Returns IsManaged (elim key [
            | none ↦ ok (record hm { creating = rest })
            | some (hosts, url) ↦
                create_missing new_hub_client hosts url (record hm { creating = rest })
          ])
      after none rest t p = returned (record { keyed = m.keyed; prepared = p })
      after (some (hosts, url)) rest (f, known) p =
          Returns-weaken
            (create_missing-IsKeyed new_hub_client sound hosts url (record hm { creating = rest }) f
              known m.keyed)
            λ r (k, same). record { keyed = k; prepared = subst IsPrepared (sym same) p }

  run_call-IsManaged :
      (call : Call) (hm : HubManager)
      → IsFilledCall call
      → IsManaged hm
      → Returns IsManaged (run_call new_hub_client call hm)
  unfolding run_call
  run_call-IsManaged (sets_hubs hosts) hm f i = start_set_hubs-IsManaged hosts hm f i
  run_call-IsManaged (takes_turn n) hm f i = create_next-IsManaged n hm i
  run_call-IsManaged (starts_scan_client url name) hm f i =
      returned (start_scan_client-IsManaged url name hm i)
  run_call-IsManaged (finishes_scan_client url name err) hm f i =
      returned (finish_scan_client-IsManaged url name err hm i)

  run_calls-IsManaged :
      (calls : List Call) (hm : HubManager)
      → AllFilled calls
      → IsManaged hm
      → Returns IsManaged (run_calls new_hub_client calls hm)
  unfolding run_calls
  run_calls-IsManaged [] hm f i = returned i
  run_calls-IsManaged (call ∷ calls) hm (f, fs) i =
      Returns-bind (run_call-IsManaged call hm f i) λ next j. run_calls-IsManaged calls next fs j

  -- Whatever calls the manager gets, and whenever the goroutines of SetHubs create their hubs, if no
  -- configuration has a nil entry, creating a client returns, a hub that it gives has the domain as its
  -- host and has not been stopped, and no two of these steps overlap: no call panics, no hub is stopped
  -- twice, every hub stands under its own host, and once, and has not been stopped.
  pub run_calls-new_hub_manager :
      (calls : List Call)
      → AllFilled calls
      → Returns IsManaged (run_calls new_hub_client calls new_hub_manager)
  unfolding new_hub_manager
  run_calls-new_hub_manager calls f =
      run_calls-IsManaged calls new_hub_manager f (record { keyed = tt; prepared = tt })
