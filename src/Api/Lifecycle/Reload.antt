-- ===== src/Api/Lifecycle/Reload.antt =====
-- What `/lifecycle/reload`, the route that `SIGHUP` requests, does to the health of the frontend.
use prose_pod_server.Common.{ℕ, ◌≡◌, refl, sym, ◌∙◌, Option-cases, List, inl, inr}
use prose_pod_server.Api.State.{
  AppConfig, AppState, FrontendRunning, BackendRunning, AppContext, Routes, operational,
  config_needed, misconfigured, healthy, frontend_running_health, running_health,
}
use prose_pod_server.Api.State.Traits.{operational_state, running_as_ref, running_handles}
use prose_pod_server.Api.State.Transitions.{
  itself, running_fails, backend_running_fails, serving, set_state, with_auto_transition, new_state,
  transition_with, transition_failed,
}
use prose_pod_server.Api.Lifecycle.{
  Environment, reload_frontend, do_reload_frontend, try_reload_frontend,
}
use prose_pod_server.Api.Lifecycle.Serve.{Request, reload, reload_running}
use prose_pod_server.Api.Lifecycle.Server.{route, serve}
use prose_pod_server.Api.Lifecycle.Invariant.{view_of}
use prose_pod_server.Api.Lifecycle.Replies.{then_reload_backend-keeps}
use prose_pod_server.Api.Lifecycle.Reached.{reached, reached-IsCoherent}

do_reload_frontend-healthy :
    (e : Environment) (s : AppState FrontendRunning BackendRunning) (c : AppContext)
    → (do_reload_frontend {B' = BackendRunning} {F'' = FrontendRunning} {B'' = BackendRunning} e s
        c).1.router.frontend_health
      ≡ healthy
unfolding do_reload_frontend try_reload_frontend with_auto_transition new_state transition_failed
    transition_with set_state serving
do_reload_frontend-healthy e s c = elim (Option-cases (reload_frontend e s)) [
  | inl p ↦ rw p refl
  | inr (f, p) ↦ rw p refl
]

route-healthy :
    (e : Environment) (x : Routes) (c : AppContext)
    → (view_of x).frontend ≡ healthy
    → c.router.frontend_health ≡ healthy
    → (route e reload x c).1.router.frontend_health ≡ healthy
unfolding reload_running
route-healthy e (operational s) c k h =
    then_reload_backend-keeps (λ d. d.router.frontend_health ≡ healthy) {F = FrontendRunning} e
      (do_reload_frontend {F'' = FrontendRunning} {B'' = BackendRunning} e s c)
      (do_reload_frontend-healthy e s c)
route-healthy e (misconfigured s) c k h = cc
route-healthy e (config_needed s) c k h = cc
route-healthy e _ c k h = h

-- In every context that is reached, a reload leaves a healthy frontend healthy, whether its
-- configuration is accepted or refused and whatever else fails: it never records a misconfiguration.
pub reload-healthy :
    (config : AppConfig) (handles : ℕ) (e e' : Environment) (rs : List (Environment × Request))
    → (reached config handles e rs).router.frontend_health ≡ healthy
    → (serve e' reload (reached config handles e rs)).1.router.frontend_health ≡ healthy
unfolding serve
reload-healthy config handles e e' rs h =
    let coherent = reached-IsCoherent config handles e rs in
    route-healthy e' _ _ (sym coherent.frontend_health ∙ h) h
