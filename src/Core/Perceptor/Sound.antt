-- ===== src/Core/Perceptor/Sound.antt =====
-- pkg/core/perceptor.go: what holds between two requests.
use perceptor.Prelude.{ℕ, Returns, returned, Returns-bind, Returns-both}
use perceptor.Core.Model.Handlers.{Action}
use perceptor.Core.Model.Actions.{IsSane, apply-Kept}
use perceptor.Core.Model.Shas.{HasShas, IsBringing, apply-HasShas}
use perceptor.Core.ApiMapper.Shas.{IsSha}
use perceptor.Core.HubManager.Keyed.{IsFilled}
use perceptor.Core.HubManager.Calls.{IsManaged}
use perceptor.Core.Perceptor.{Perceptor, send}

-- The model is sane, all its shas have 64 characters, every hub stands under its own host and has not
-- been stopped, and no host of the secret is nil.
pub record IsSound (pcp : Perceptor) : Type 0 where
  pub sane : IsSane pcp.model
  pub shas : HasShas IsSha pcp.model
  pub managed : IsManaged pcp.hub_manager
  pub filled : IsFilled pcp.hosts

pub send-IsSound :
    (now : ℕ) (action : Action) (pcp : Perceptor)
    → IsSound pcp
    → IsBringing IsSha action
    → Returns IsSound (send now action pcp)
unfolding send
send-IsSound now action pcp s b =
    Returns-bind
      (Returns-both (apply-Kept now action pcp.model s.sane.consistent)
        (apply-HasShas IsSha now action pcp.model s.sane.consistent s.shas b))
      λ r (t, shas). returned (record {
        sane = record { consistent = t.consistent; known_pods = t.known_pods s.sane.known_pods };
        shas = shas;
        managed = s.managed;
        filled = s.filled;
      })
