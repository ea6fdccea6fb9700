-- ===== src/Api/Lifecycle/Failures.antt =====
-- What the server shows after a request that failed.
use prose_pod_server.Common.{◌≡◌, refl, ap, ◌∙◌, false, none, List, [], ◌∷◌}
use prose_pod_server.Common.Results.{err}
use prose_pod_server.Api.Errors.{Error}
use prose_pod_server.Api.State.{
  FrontendRunning, FrontendRestarting, BackendUndergoingFactoryReset, undergoing_factory_reset,
  frontend_restarting_health, factory_reset_health, BackendRunning, AppState, AppContext, Routes,
  operational, being_reset, unhealthy, frontend_running_health, running_health, starting_health,
  restarting_health, restart_failed_health, start_failed_health,
}
use prose_pod_server.Api.State.Traits.{
  operational_state, reset_state, starting_state, restarting_state, restart_failed_state,
  start_failed_state, running_as_ref, running_handles,
}
use prose_pod_server.Api.State.Transitions.{
  itself, running_to_restarting, running_fails, backend_running_fails, start_failed_to_starting,
  restart_failed_to_restarting, serving, set_state, with_auto_transition, new_state,
}
use prose_pod_server.Api.Lifecycle.{Environment}
use prose_pod_server.Api.Lifecycle.Reset.{factory_reset, do_factory_reset}
use prose_pod_server.Api.Lifecycle.Serve.{
  Request, Served, factory_reset as reset_request, factory_reset_,
}
use prose_pod_server.Api.Lifecycle.Server.{route, serve, run}

-- An answer with an error is the one that the backend's health shows.
abbrev ShowsError : Served → Type 0
ShowsError (r, c) = (x : Error) → r ≡ err x → c.router.backend_health ≡ unhealthy x none

route-being_reset :
    (e : Environment) (r : Request) (x : Routes) (c : AppContext)
    {s : AppState FrontendRestarting BackendUndergoingFactoryReset}
    → x ≡ being_reset s
    → (route e r x c).1 ≡ c
route-being_reset e r x c h = rw h refl

-- Nothing is served in this state but the health of the frontend.
run-being_reset :
    (rs : List (Environment × Request)) (c : AppContext)
    (s : AppState FrontendRestarting BackendUndergoingFactoryReset)
    → c.router.routes ≡ being_reset s
    → run rs c ≡ c
unfolding run serve
run-being_reset [] c s h = refl
run-being_reset ((e, r) ∷ rs) c s h =
    ap (λ d. run rs d) (route-being_reset e r c.router.routes c h) ∙ run-being_reset rs c s h

-- Once the erasure of a factory reset has failed, no sequence of requests changes the state any
-- more, whatever the rest of the system answers.
pub failed_reset_stays :
    (e : Environment) (c : AppContext) (s : AppState FrontendRunning BackendRunning)
    (rs : List (Environment × Request))
    → c.router.routes ≡ operational s
    → (factory_reset e).0 ≡ false
    → run rs (serve e reset_request c).1 ≡ (serve e reset_request c).1
unfolding serve factory_reset_ do_factory_reset with_auto_transition new_state set_state serving
failed_reset_stays e c s rs h p =
    rw (h, p)
      (run-being_reset rs _
        (record {
          frontend = record { tracing_reload_handles = s.frontend.tracing_reload_handles };
          backend = undergoing_factory_reset;
        })
        refl)
