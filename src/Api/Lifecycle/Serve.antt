-- ===== src/Api/Lifecycle/Serve.antt =====
-- The handlers of api/src/router/lifecycle, that restart, reload, configure and reset the server,
-- with the answer that each gives.
use prose_pod_server.Common.{Bool, if◌then◌else◌}
use prose_pod_server.Common.Results.{Result, ok, err, panicked, e1, e2}
use prose_pod_server.Api.Errors.{Error}
use prose_pod_server.Api.State.{
  FrontendRunning, FrontendRunningWithMisconfiguration, FrontendMisconfigured, BackendStarting,
  BackendStartFailed, BackendRunning, BackendRestarting, restarting, BackendRestartFailed,
  BackendStopped, Health, AppState, AppContext, FailState, frontend_running_health,
  misconfiguration_health, misconfigured_health, running_health, starting_health,
  start_failed_health, restarting_health, restart_failed_health,
}
use prose_pod_server.Api.State.Traits.{
  operational_state, starting_state, restarting_state, restart_failed_state, misconfigured_state,
  config_needed_state, start_failed_state, running_handles, misconfiguration_handles,
  misconfigured_handles, running_as_ref,
}
use prose_pod_server.Api.State.Transitions.{
  itself, running_fails, misconfiguration_fails, misconfigured_of, misconfiguration_of,
  starting_fails, backend_running_fails, restarting_fails, restart_failed_to_restarting,
  stopped_to_starting, start_failed_to_starting, backup_to_restarting, restore_to_restarting,
  with_auto_transition, with_backend,
}
use prose_pod_server.Api.Lifecycle.{
  Environment, do_reload_backend, do_reload_frontend, do_bootstrapping, do_restart_backend,
}
use prose_pod_server.Api.Lifecycle.Reset.{do_init_config, Configured, ResetDone, do_factory_reset}

-- The requests for a backup and a restoration carry what their guards test.
pub data Request : Type 0 where
  backend_restart backend_reload frontend_reload reload factory_reset : Request
  post_backups : (is_admin is_tar has_data : Bool) → Request
  put_restore : (is_admin has_token : Bool) → Request

-- `fallback` is the answer of a health route.
pub data Answer : Type 0 where
  answered : Result Error (Unit {0}) → Answer
  fallback : Health → Answer

abbrev pub Served : Type 0
Served = Result Error (Unit {0}) × AppContext

-- `Ok(_) => Ok(()), Err(FailState { error, .. }) => Err(error)`
abbrev pub reply : {F B S : Type 0} → Result (FailState F B) S × AppContext → Served
reply (ok s, c) = (ok tt, c)
reply (err f, c) = (err f.error, c)
reply (panicked, c) = (panicked, c)

unfoldable pub backend_start_again :
    Environment → AppState FrontendRunning BackendStarting → AppContext → Served
backend_start_again e s c = reply (do_bootstrapping e s c)

unfoldable pub backend_start_retry :
    Environment → AppState FrontendRunning BackendStartFailed → AppContext → Served
backend_start_retry e s c =
    let (t, c') = with_auto_transition {F = FrontendRunning} {B = BackendStarting} s c in
    reply (do_bootstrapping e t c')

-- A failed stop panics, here and below.
unfoldable pub backend_restart_ :
    Environment → AppState FrontendRunning BackendRunning → AppContext → Served
backend_restart_ e s c =
    if e.stops
    then reply (
        do_restart_backend {F = FrontendRunning} {B = BackendRestarting} e
          (with_backend restarting s) c)
    else (panicked, c)

unfoldable pub backend_restart_again :
    Environment → AppState FrontendRunning BackendRestarting → AppContext → Served
backend_restart_again e s c = reply (do_restart_backend e s c)

unfoldable pub backend_restart_retry :
    Environment → AppState FrontendRunning BackendRestartFailed → AppContext → Served
backend_restart_retry e s c =
    let (t, c') = with_auto_transition {F = FrontendRunning} {B = BackendRestarting} s c in
    reply (do_restart_backend e t c')

unfoldable pub backend_reload_ :
    Environment → AppState FrontendRunning BackendRunning → AppContext → Served
backend_reload_ e s c = reply (do_reload_backend e s, c)

unfoldable pub frontend_reload_ :
    Environment → AppState FrontendRunning BackendRunning → AppContext → Served
frontend_reload_ e s c = reply (
    do_reload_frontend {B' = BackendRunning} {F'' = FrontendRunningWithMisconfiguration}
      {B'' = BackendRunning} e s c)

module _ {F : Type 0} where
  abbrev pub then_reload_backend :
      Environment
      → Result (FailState F BackendRunning) (AppState FrontendRunning BackendRunning) × AppContext
      → Served
  then_reload_backend e (ok s, c) = reply (do_reload_backend e s, c)
  then_reload_backend e (err f, c) = (err f.error, c)
  then_reload_backend e (panicked, c) = (panicked, c)

-- `reload`: the frontend's fail state is the state itself.
unfoldable pub reload_running :
    Environment → AppState FrontendRunning BackendRunning → AppContext → Served
reload_running e s c =
    then_reload_backend e (do_reload_frontend {F'' = FrontendRunning} {B'' = BackendRunning} e s c)

unfoldable pub reload_misconfigured :
    Environment → AppState FrontendRunningWithMisconfiguration BackendRunning → AppContext → Served
reload_misconfigured e s c =
    then_reload_backend e
      (do_reload_frontend {F'' = FrontendRunningWithMisconfiguration} {B'' = BackendRunning} e s c)

abbrev pub on_init : Configured → Served
on_init (ok s, c) = (ok tt, c)
on_init (err (e1 f), c) = (err f.error, c)
on_init (err (e2 f), c) = (err f.error, c)
on_init (panicked, c) = (panicked, c)

unfoldable pub init_config :
    Environment → AppState FrontendMisconfigured BackendStopped → AppContext → Served
init_config e s c = on_init (do_init_config e s c)

abbrev pub on_reset : ResetDone → Served
on_reset (ok s, c) = (ok tt, c)
on_reset (err (e1 f), c) = (err f.error, c)
on_reset (err (e2 f), c) = (err f.error, c)
on_reset (panicked, c) = (panicked, c)

unfoldable pub factory_reset_ :
    Environment → AppState FrontendRunning BackendRunning → AppContext → Served
factory_reset_ e s c = on_reset (do_factory_reset e s c)
