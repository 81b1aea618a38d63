-- ===== src/Core/Perceptor/Serving.antt =====
-- pkg/core/perceptor.go: what all requests and events keep.
use perceptor.Prelude.{
  ℕ, ◌≡◌, inl, inr, refl, subst, Option-cases, Bool, true, false, List, [], ◌∷◌, Option, none, some,
  String, arith, Run, Returns, returned, Returns-bind, string_eq,
}
use perceptor.Prelude.Maps
use perceptor.Hub.Model.{Update, did_find_scan, did_finish_scan}
use perceptor.Hub.Hub.{Hub, hub_reset_circuit_breaker}
use perceptor.Core.Model.Handlers.{
  Action, adds_pod, updates_pod, sets_pods, adds_image, sets_images,
}
use perceptor.Core.ApiMapper.{api_pod_to_core_pod, api_image_to_core_image}
use perceptor.Core.HubManager.{Host, Hosts, Creation, new_hub_manager}
use perceptor.Core.Model.State.{new_model}
use perceptor.Core.Model.Actions.{new_model-IsSane}
use perceptor.Core.HubManager.Keyed.{IsSoundCreation, IsKeyed, IsFilled}
use perceptor.Core.HubManager.Calls.{
  start_set_hubs-IsManaged, create_next-IsManaged, finish_scan_client-IsManaged,
}
use perceptor.Core.Perceptor.Starting.{start_scan-IsSound}
use perceptor.Core.Perceptor.{
  Perceptor, new_perceptor, ImageSpec, update_config, create_hub, send_mapped, map_all, add_pod,
  update_pod, delete_pod, add_image, update_all_pods, update_all_images, post_finish_scan,
  has_failed, handle_update, reset_all, post_command,
}
use perceptor.Core.Perceptor.Requests.{
  Request, IsComplete, AllComplete, only_state, serve, serve_all, adds_api_pod, updates_api_pod,
  deletes_api_pod, adds_api_image, updates_all_pods, updates_all_images, posts_finish_scan,
  posts_command, hub_updates, updates_config, creates_hub, asks_next_image, starts_late,
  finds_unknown_images,
}
use perceptor.Core.Perceptor.Sound.{IsSound, send-IsSound}
use perceptor.Core.Perceptor.Unknown.{handle_unknown_images}
use perceptor.Core.Perceptor.Unknown.Kept.{handle_unknown_shas-IsSound}
use perceptor.Core.Perceptor.NextImage.{get_next_image-IsSound}
use perceptor.Core.ApiMapper.Shas.{
  Gives, IsSha, api_pod_to_core_pod-HasPodShas, api_image_to_core_image-Gives,
}
use perceptor.Core.Model.Shas.{All, IsBringing}

map_all-Gives :
    {A B : Type 0} (f : A → Option B) (Q : B → Type 0)
    → ((a : A) → Gives Q (f a))
    → (xs : List A) → Gives (All Q) (map_all f xs)
unfolding map_all
map_all-Gives f Q g [] = tt
map_all-Gives f Q g (x ∷ xs) = elim (Option-cases (f x)) [
  | inl e ↦ rw (e, map_all) tt
  | inr (b, e) ↦ elim (Option-cases (map_all f xs)) [
    | inl h ↦ rw (e, map_all, h) tt
    | inr (bs, h) ↦
        rw (e, map_all, h)
          (subst (Gives Q) e (g x), subst (Gives (All Q)) h (map_all-Gives f Q g xs))
  ]
]

send_mapped-IsSound :
    {A : Type 0} (now : ℕ) (action : A → Action) (a : Option A) (pcp : Perceptor)
    → IsSound pcp
    → Gives (λ x. IsBringing IsSha (action x)) a
    → Returns IsSound (only_state (send_mapped now action a pcp))
unfolding send_mapped
send_mapped-IsSound now action none pcp s b = returned s
send_mapped-IsSound now action (some a) pcp s b =
    Returns-bind
      (Returns-bind {Then = λ r. IsSound r.0} (send-IsSound now (action a) pcp s b)
        λ next t. returned t)
      λ r t. returned t

lookup-reset_all :
    (key : String) (hubs : List (String × Hub))
    → Maps.lookup key hubs ≡ none
    → Maps.lookup key (reset_all hubs) ≡ none
unfolding reset_all Maps.lookup
lookup-reset_all key [] e = refl
lookup-reset_all key ((url, hub) ∷ rest) e = ground (arith, e, lookup-reset_all key rest)

reset_all-IsKeyed : (hubs : List (String × Hub)) → IsKeyed hubs → IsKeyed (reset_all hubs)
unfolding reset_all hub_reset_circuit_breaker
reset_all-IsKeyed [] k = tt
reset_all-IsKeyed ((url, hub) ∷ rest) (a, b, c) =
    (a, lookup-reset_all url rest b, reset_all-IsKeyed rest c)

post_command-IsSound :
    (reset : Bool) (pcp : Perceptor) → IsSound pcp → IsSound (post_command reset pcp)
unfolding post_command
post_command-IsSound true pcp s = record {
  sane = s.sane;
  shas = s.shas;
  managed = record {
    keyed = reset_all-IsKeyed pcp.hub_manager.hubs s.managed.keyed;
    prepared = s.managed.prepared;
  };
  filled = s.filled;
}
post_command-IsSound false pcp s = s

handle_update-IsSound :
    (now : ℕ) (update : Update) (pcp : Perceptor)
    → IsSound pcp
    → Returns IsSound (handle_update now update pcp)
unfolding handle_update
handle_update-IsSound now (did_find_scan name results) pcp s = send-IsSound now _ pcp s tt
handle_update-IsSound now (did_finish_scan name results) pcp s = send-IsSound now _ pcp s tt

finish-IsSound :
    (now : ℕ) (spec : Option ImageSpec) (err : String) (pcp : Perceptor)
    → IsComplete (posts_finish_scan (record { image_spec = spec; err = err }))
    → IsSound pcp
    → Returns IsSound (post_finish_scan now (record { image_spec = spec; err = err }) pcp)
unfolding post_finish_scan
finish-IsSound now none err pcp f s = absurd (f refl)
finish-IsSound now (some spec) err pcp f s =
    send-IsSound now _ _
      (record {
        sane = s.sane;
        shas = s.shas;
        managed =
            finish_scan_client-IsManaged spec.domain spec.black_duck_scan_name (has_failed err)
              pcp.hub_manager s.managed;
        filled = s.filled;
      })
      tt

module _ (new_hub_client : Host → Run Creation)
    (sound : (host : Host) → Returns (IsSoundCreation host) (new_hub_client host)) where
  serve-IsSound :
      (now : ℕ) (request : Request) (pcp : Perceptor)
      → IsComplete request
      → IsSound pcp
      → Returns IsSound (serve new_hub_client now request pcp)
  unfolding serve create_hub update_config add_pod update_pod delete_pod add_image update_all_pods
      update_all_images handle_unknown_images
  serve-IsSound now (adds_api_pod pod) pcp f s =
      send_mapped-IsSound now adds_pod (api_pod_to_core_pod pod) pcp s
        (api_pod_to_core_pod-HasPodShas pod)
  serve-IsSound now (updates_api_pod pod) pcp f s =
      send_mapped-IsSound now updates_pod (api_pod_to_core_pod pod) pcp s
        (api_pod_to_core_pod-HasPodShas pod)
  serve-IsSound now (deletes_api_pod name) pcp f s = send-IsSound now _ pcp s tt
  serve-IsSound now (adds_api_image image) pcp f s =
      send_mapped-IsSound now adds_image (api_image_to_core_image image) pcp s
        (api_image_to_core_image-Gives image)
  serve-IsSound now (updates_all_pods pods) pcp f s =
      send_mapped-IsSound now sets_pods (map_all api_pod_to_core_pod pods) pcp s
        (map_all-Gives _ _ api_pod_to_core_pod-HasPodShas pods)
  serve-IsSound now (updates_all_images images) pcp f s =
      send_mapped-IsSound now sets_images (map_all api_image_to_core_image images) pcp s
        (map_all-Gives _ _ api_image_to_core_image-Gives images)
  serve-IsSound now (posts_finish_scan job) pcp f s =
      finish-IsSound now job.image_spec job.err pcp f s
  serve-IsSound now (posts_command reset) pcp f s = returned (post_command-IsSound reset pcp s)
  serve-IsSound now (hub_updates update) pcp f s = handle_update-IsSound now update pcp s
  serve-IsSound now updates_config pcp f s =
      Returns-bind (start_set_hubs-IsManaged pcp.hosts pcp.hub_manager s.filled s.managed)
        λ hm k. returned (record { sane = s.sane; shas = s.shas; managed = k; filled = s.filled })
  serve-IsSound now (creates_hub i) pcp f s =
      Returns-bind (create_next-IsManaged new_hub_client sound i pcp.hub_manager s.managed)
        λ hm k. returned (record { sane = s.sane; shas = s.shas; managed = k; filled = s.filled })
  serve-IsSound now asks_next_image pcp f s =
      Returns-bind (get_next_image-IsSound now pcp s) λ r t. returned t
  serve-IsSound now (starts_late url image) pcp f s = start_scan-IsSound now url image pcp s
  serve-IsSound now finds_unknown_images pcp f s = handle_unknown_shas-IsSound now _ pcp s

  serve_all-IsSound :
      (requests : List (ℕ × Request)) (pcp : Perceptor)
      → AllComplete requests
      → IsSound pcp
      → Returns IsSound (serve_all new_hub_client requests pcp)
  unfolding serve_all
  serve_all-IsSound [] pcp f s = returned s
  serve_all-IsSound ((now, request) ∷ rest) pcp (f, fs) s =
      Returns-bind (serve-IsSound now request pcp f s) λ next t. serve_all-IsSound rest next fs t

  -- Whatever requests that change the state, and events, perceptor gets from its start on, in whatever
  -- order, if every report of a scan client has a specification, no host of the secret is nil, creating a
  -- client returns, a hub that it gives has the domain as its host and has not been stopped, and no two
  -- of these steps overlap: nothing panics; the model is consistent and has the images of its pods, all
  -- with shas of 64 characters, and every hub stands under its own host, once, and has not been stopped.
  pub serve_all-new_perceptor :
      (requests : List (ℕ × Request)) (hosts : Hosts)
      → AllComplete requests
      → IsFilled hosts
      → Returns IsSound (serve_all new_hub_client requests (new_perceptor hosts))
  unfolding new_perceptor new_hub_manager new_model Maps.lookup
  serve_all-new_perceptor requests hosts complete filled =
      serve_all-IsSound requests _ complete (record {
        sane = new_model-IsSane;
        shas = λ k n. absurd (n refl);
        managed = record { keyed = tt; prepared = tt };
        filled = filled;
      })
