-- ===== src/Api/Lifecycle/Domain/Kept.antt =====
-- No request but a factory reset changes the domain.
use prose_pod_server.Common.{◌≡◌, refl, ◌≢◌, Bool, some, List, [], ◌∷◌, Text, if◌then◌else◌, All}
use prose_pod_server.Common.Results.{Result, err, panicked}
use prose_pod_server.Api.Errors.{Error}
use prose_pod_server.Api.State.{
  FrontendRunning, BackendRunning, BackendRestarting, AppState, AppContext, Routes, operational,
  misconfigured, starting_up, being_restarted, restart_failed, config_needed, start_failed,
  missing_backups, undergoing_backup, undergoing_restore, restarting, starting,
  frontend_running_health, running_health, starting_health, restarting_health,
  restart_failed_health, start_failed_health, misconfiguration_health,
}
use prose_pod_server.Api.State.Traits.{
  operational_state, starting_state, restarting_state, restart_failed_state, start_failed_state,
  misconfigured_state, running_as_ref, running_handles, misconfiguration_handles,
}
use prose_pod_server.Api.State.Transitions.{
  Into, itself, running_fails, misconfiguration_fails, misconfiguration_of, backend_running_fails,
  restart_failed_to_restarting, start_failed_to_starting, backup_to_restarting,
  restore_to_restarting, with_auto_transition, with_backend, new_state,
}
use prose_pod_server.Api.Lifecycle.{Environment, do_reload_backend, do_restart_backend}
use prose_pod_server.Api.Lifecycle.Serve.{
  Request, Served, backend_restart, backend_reload, frontend_reload, reload,
  factory_reset as reset_request, post_backups, put_restore, backend_start_again,
  backend_start_retry, backend_restart_, backend_restart_again, backend_restart_retry,
  backend_reload_, reload_running, reload_misconfigured,
}
use prose_pod_server.Api.Lifecycle.Server.{
  handle, route, post_backups_, post_backups_all, put_backup_restore, put_backup_restore_all, serve,
  run,
}
use prose_pod_server.Api.Lifecycle.Replies.{reply-keeps, then_reload_backend-keeps, guard-keeps}
use prose_pod_server.Api.Lifecycle.Domain.{
  HasDomain, bootstrapping-HasDomain, restart-HasDomain, operational_reload-HasDomain,
  frontend_reload-HasDomain, misconfigured_reload-HasDomain, domain_of,
}

module _ (d : Text) (e : Environment) where
  restarts :
      {B : Type 0} ⦃j : Into B BackendRestarting⦄ (has_service : Bool) (r : Result Error (Unit {0}))
      (b : B) (s : AppState FrontendRunning BackendRunning) (c : AppContext)
      → s.frontend.config.domain ≡ d
      → HasDomain d c
      → let out : Served =
          if has_service
          then (if e.stops
              then (r, (do_restart_backend e (with_backend b s) c).1)
              else (panicked, c))
          else (err missing_backups, c) in
        HasDomain d out.1
  restarts has_service r b s c n h =
      guard-keeps (HasDomain d) has_service _ _
        (guard-keeps (HasDomain d) e.stops _ _ (restart-HasDomain d e (with_backend b s) c n) h) h

  handle-HasDomain :
      (r : Request) (s : AppState FrontendRunning BackendRunning) (c : AppContext)
      → r ≢ reset_request
      → s.frontend.config.domain ≡ d
      → HasDomain d c
      → HasDomain d (handle e r s c).1
  unfolding backend_restart_ backend_reload_ reload_running post_backups_all post_backups_
      put_backup_restore_all put_backup_restore
  handle-HasDomain backend_restart s c keeps n h =
      guard-keeps (HasDomain d) e.stops _ _
        (reply-keeps (HasDomain d) _ (restart-HasDomain d e (with_backend restarting s) c n)) h
  handle-HasDomain backend_reload s c keeps n h =
      reply-keeps (HasDomain d) (do_reload_backend e s, c) h
  handle-HasDomain frontend_reload s c keeps n h = frontend_reload-HasDomain d e s c n
  handle-HasDomain reload s c keeps n h =
      then_reload_backend-keeps (HasDomain d) e _ (operational_reload-HasDomain d e s c n)
  handle-HasDomain reset_request s c keeps n h = absurd (keeps refl)
  handle-HasDomain (post_backups is_admin is_tar has_data) s c keeps n h =
      guard-keeps (HasDomain d) is_admin _ _
        (guard-keeps (HasDomain d) is_tar _ _
          (guard-keeps (HasDomain d) has_data _ _
            (restarts s.backend.state.has_backup_service e.creates_backup undergoing_backup s c n h)
            h)
          h)
        h
  handle-HasDomain (put_restore is_admin has_token) s c keeps n h =
      guard-keeps (HasDomain d) is_admin _ _
        (guard-keeps (HasDomain d) has_token _ _
          (restarts s.backend.state.has_backup_service e.restores_backup undergoing_restore s c n h)
          h)
        h

  route-HasDomain :
      (r : Request) (x : Routes) (c : AppContext)
      → r ≢ reset_request
      → domain_of x ≡ some d
      → HasDomain d c
      → HasDomain d (route e r x c).1
  unfolding backend_start_again backend_start_retry backend_restart_again backend_restart_retry
      reload_misconfigured with_auto_transition new_state
  route-HasDomain r (operational s) c keeps n h = handle-HasDomain r s c keeps (cc) h
  route-HasDomain backend_restart (starting_up s) c keeps n h =
      reply-keeps (HasDomain d) _ (bootstrapping-HasDomain d e s c cc)
  route-HasDomain backend_restart (being_restarted s) c keeps n h =
      reply-keeps (HasDomain d) _ (restart-HasDomain d e s c cc)
  route-HasDomain backend_restart (restart_failed s) c keeps n h =
      reply-keeps (HasDomain d) _
        (restart-HasDomain d e (record { frontend = s.frontend; backend = restarting }) _ cc)
  route-HasDomain backend_restart (start_failed s) c keeps n h =
      reply-keeps (HasDomain d) _
        (bootstrapping-HasDomain d e (record { frontend = s.frontend; backend = starting }) _ cc)
  route-HasDomain reload (misconfigured s) c keeps n h =
      then_reload_backend-keeps (HasDomain d) e _ (misconfigured_reload-HasDomain d e s c cc)
  route-HasDomain reload (config_needed s) c keeps n h = cc
  route-HasDomain r _ c keeps n h = h

-- The domain of the server is the same after any requests without a factory reset, whatever the
-- rest of the system answers, as long as the server has one at first.
pub run-HasDomain :
    (d : Text) (rs : List (Environment × Request)) (c : AppContext)
    → All (λ x. x.1 ≢ reset_request) rs
    → HasDomain d c
    → HasDomain d (run rs c)
unfolding run serve
run-HasDomain d [] c keeps h = h
run-HasDomain d ((e, r) ∷ rs) c keeps h =
    run-HasDomain d rs (serve e r c).1 keeps.1 (route-HasDomain d e r c.router.routes c keeps.0 h h)
