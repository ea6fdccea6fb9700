-- ===== src/Api/Lifecycle/Server.antt =====
-- The handlers of a backup and of a restoration (api/src/router/backups.rs), the routes of each
-- state (api/src/router/mod.rs), and the start (`AppState::new` in `main_inner`, then `startup`;
-- api/src/lib.rs). Requests are served one after the other.
use prose_pod_server.Common.{ℕ, Bool, List, [], ◌∷◌, text, if◌then◌else◌}
use prose_pod_server.Common.Results.{Result, err, panicked}
use prose_pod_server.Api.Errors.{forbidden, validation_error, unsupported_media_type}
use prose_pod_server.Api.State.{
  AppConfig, FrontendRunning, BackendStarting, starting, BackendRunning, undergoing_backup,
  undergoing_restore, AppState, AppContext, Routes, operational, starting_up, being_restarted,
  restart_failed, misconfigured, being_reset, being_saved, being_restored, config_needed,
  start_failed, missing_backups, frontend_running_health, starting_health,
}
use prose_pod_server.Api.State.Traits.{
  operational_state, starting_state, restarting_state, restart_failed_state, running_as_ref,
}
use prose_pod_server.Api.State.Transitions.{
  running_fails, backup_to_restarting, restore_to_restarting, with_backend, serving,
}
use prose_pod_server.Api.Lifecycle.{Environment, do_restart_backend, try_bootstrapping}
use prose_pod_server.Api.Lifecycle.Serve.{
  Request, backend_restart, backend_reload, frontend_reload, reload, factory_reset, post_backups,
  put_restore, Answer, answered, fallback, Served, backend_start_again, backend_start_retry,
  backend_restart_, backend_restart_again, backend_restart_retry, backend_reload_, frontend_reload_,
  reload_running, reload_misconfigured, init_config, factory_reset_,
}

-- `post_backups_`: the result of the restart is dropped.
unfoldable pub post_backups_ :
    Environment → AppState FrontendRunning BackendRunning → AppContext → Served
post_backups_ e s c =
    if s.backend.state.has_backup_service
    then (if e.stops
        then (e.creates_backup, (do_restart_backend e (with_backend undergoing_backup s) c).1)
        else (panicked, c))
    else (err missing_backups, c)

unfoldable pub post_backups_all :
    Bool → Bool → Bool → Environment → AppState FrontendRunning BackendRunning → AppContext → Served
post_backups_all is_admin is_tar has_data e s c =
    if is_admin
    then (if is_tar
        then (if has_data
            then post_backups_ e s c
            else (err (validation_error (text "BAD_REQUEST")), c))
        else (err (unsupported_media_type (text "BAD_REQUEST")), c))
    else (err forbidden, c)

-- `put_backup_restore`, with `put_backup_restore_`
unfoldable pub put_backup_restore :
    Environment → AppState FrontendRunning BackendRunning → AppContext → Served
put_backup_restore e s c =
    if s.backend.state.has_backup_service
    then (if e.stops
        then (e.restores_backup, (do_restart_backend e (with_backend undergoing_restore s) c).1)
        else (panicked, c))
    else (err missing_backups, c)

unfoldable pub put_backup_restore_all :
    Bool → Bool → Environment → AppState FrontendRunning BackendRunning → AppContext → Served
put_backup_restore_all is_admin has_token e s c =
    if is_admin
    then (if has_token
        then put_backup_restore e s c
        else (err (validation_error (text "BAD_REQUEST")), c))
    else (err forbidden, c)

abbrev pub handled : Served → Answer × AppContext
handled (r, c) = (answered r, c)

-- The routes of the operational state.
abbrev pub handle :
    Environment → Request → AppState FrontendRunning BackendRunning → AppContext → Served
handle e backend_restart s c = backend_restart_ e s c
handle e backend_reload s c = backend_reload_ e s c
handle e frontend_reload s c = frontend_reload_ e s c
handle e reload s c = reload_running e s c
handle e factory_reset s c = factory_reset_ e s c
handle e (post_backups is_admin is_tar has_data) s c =
    post_backups_all is_admin is_tar has_data e s c
handle e (put_restore is_admin has_token) s c = put_backup_restore_all is_admin has_token e s c

-- What the router of a state answers: a handler, or the health route that its fallback names.
abbrev pub route : Environment → Request → Routes → AppContext → Answer × AppContext
route e r (operational s) c = handled (handle e r s c)
route e backend_restart (starting_up s) c = handled (backend_start_again e s c)
route e _ (starting_up s) c = (fallback c.router.backend_health, c)
route e backend_restart (being_restarted s) c = handled (backend_restart_again e s c)
route e _ (being_restarted s) c = (fallback c.router.backend_health, c)
route e backend_restart (restart_failed s) c = handled (backend_restart_retry e s c)
route e _ (restart_failed s) c = (fallback c.router.backend_health, c)
route e reload (misconfigured s) c = handled (reload_misconfigured e s c)
route e _ (misconfigured s) c = (fallback c.router.frontend_health, c)
route e _ (being_reset s) c = (fallback c.router.frontend_health, c)
route e _ (being_saved s) c = (fallback c.router.frontend_health, c)
route e _ (being_restored s) c = (fallback c.router.frontend_health, c)
route e reload (config_needed s) c = handled (init_config e s c)
route e _ (config_needed s) c = (fallback c.router.frontend_health, c)
route e backend_restart (start_failed s) c = handled (backend_start_retry e s c)
route e _ (start_failed s) c = (fallback c.router.backend_health, c)

unfoldable pub serve : Environment → Request → AppContext → Answer × AppContext
serve e r c = route e r c.router.routes c

-- The state with which the server starts, and its context.
unfoldable pub startup_app_state :
    AppConfig → (handles : ℕ) → AppState FrontendRunning BackendStarting
startup_app_state config handles = record {
  frontend = record { config = config; tracing_reload_handles = handles };
  backend = starting;
}

-- `AppContext::new`, then `AppState::new`
unfoldable pub main_inner : AppConfig → (handles : ℕ) → AppContext
main_inner config handles = serving (startup_app_state config handles) []

-- `startup`; where it fails, the server exits
unfoldable pub startup :
    Environment
    → AppState FrontendRunning BackendStarting
    → AppContext
    → Result (AppState FrontendRunning BackendStarting) (AppState FrontendRunning BackendRunning)
      × AppContext
startup e s c = try_bootstrapping e s c

-- A server that serves requests, each under what the rest of the system answers then.
unfoldable pub run : List (Environment × Request) → AppContext → AppContext
run [] c = c
run ((e, r) ∷ rs) c = run rs (serve e r c).1
