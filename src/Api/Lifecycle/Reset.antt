-- ===== src/Api/Lifecycle/Reset.antt =====
-- `do_init_config` (api/src/router/lifecycle/reload.rs) and the factory reset
-- (api/src/router/lifecycle/factory_reset.rs).
use prose_pod_server.Common.{
  Bool, true, false, Option, none, some, List, [], ◌∷◌, Text, text, if◌then◌else◌,
}
use prose_pod_server.Common.Results.{Result, ok, err, panicked, Either, e1, e2}
use prose_pod_server.Api.Errors.{internal_server_error, service_unavailable}
use prose_pod_server.Api.State.{
  FrontendRunning, FrontendMisconfigured, FrontendRestarting, BackendStarting, BackendStartFailed,
  BackendRunning, BackendUndergoingFactoryReset, undergoing_factory_reset, BackendStopped, AppState,
  AppContext, FailState, frontend_running_health, misconfigured_health, frontend_restarting_health,
  running_health, starting_health, start_failed_health, stopped_health, factory_reset_health,
}
use prose_pod_server.Api.State.Traits.{
  operational_state, starting_state, reset_state, config_needed_state, start_failed_state,
  misconfigured_handles, restarting_handles, running_as_ref,
}
use prose_pod_server.Api.State.Transitions.{
  itself, misconfigured_of, running_fails, stopped_fails, starting_fails, stopped_to_starting,
  reset_to_starting, reset_to_stopped_unit, running_to_restarting, with_auto_transition,
  transition_with, with_error, with_backend,
}
use prose_pod_server.Api.Lifecycle.{
  Environment, do_reload_frontend, try_reload_frontend, do_bootstrapping,
}

-- What `do_init_config` and `do_factory_reset` have in common.
abbrev pub Booted : Type 0
Booted =
    Result (FailState FrontendRunning BackendStartFailed) (AppState FrontendRunning BackendRunning)
    × AppContext

abbrev pub Configured : Type 0
Configured =
    Result
      (Either (FailState FrontendMisconfigured BackendStopped)
        (FailState FrontendRunning BackendStartFailed))
      (AppState FrontendRunning BackendRunning)
    × AppContext

abbrev pub second_error : Booted → Configured
second_error (ok s, c) = (ok s, c)
second_error (err s, c) = (err (e2 s), c)
second_error (panicked, c) = (panicked, c)

abbrev pub on_configured :
    Environment
    → Result
        (FailState FrontendMisconfigured BackendStopped)
        (AppState FrontendRunning BackendStarting)
      × AppContext
    → Configured
on_configured e (ok s, c) =
    let (t, c') = with_auto_transition {F = FrontendRunning} {B = BackendStarting} s c in
    second_error (do_bootstrapping e t c')
on_configured e (err s, c) = (err (e1 s), c)
on_configured e (panicked, c) = (panicked, c)

unfoldable pub do_init_config :
    Environment → AppState FrontendMisconfigured BackendStopped → AppContext → Configured
do_init_config e s c = on_configured e (do_reload_frontend e s c)

-- What a factory reset does that cannot be undone.
pub data Erasure : Type 0 where
  prosody_stopped : Erasure
  emptied : Text → Erasure
  config_file_reset : Erasure

-- A fallible step, and what comes after it.
abbrev pub then_erase : Bool → Erasure → Bool × List Erasure → Bool × List Erasure
then_erase done x (b, xs) = if done then (b, x ∷ xs) else (false, [])

-- `AppState::factory_reset`: whether it succeeds, and what it has done by then.
unfoldable pub erase : Environment → Text → Text → Bool × List Erasure
erase e config_path data_path = then_erase e.stops prosody_stopped (
    then_erase (e.empties config_path) (emptied config_path) (
      then_erase (e.empties data_path) (emptied data_path)
        (then_erase e.resets_config_file config_file_reset (true, []))))

abbrev pub with_paths : Environment → Option Text → Option Text → Bool × List Erasure
with_paths e none d = (false, [])
with_paths e (some c) none = (false, [])
with_paths e (some c) (some d) = erase e c d

unfoldable pub factory_reset : Environment → Bool × List Erasure
factory_reset e = with_paths e e.paths_config e.paths_data

abbrev pub ResetDone : Type 0
ResetDone =
    Result
      (Either (FailState FrontendRestarting BackendUndergoingFactoryReset)
        (FailState FrontendRunning BackendStartFailed))
      (Either (AppState FrontendMisconfigured BackendStopped)
        (AppState FrontendRunning BackendRunning))
    × AppContext

abbrev pub second_both : Booted → ResetDone
second_both (ok s, c) = (ok (e2 s), c)
second_both (err s, c) = (err (e2 s), c)
second_both (panicked, c) = (panicked, c)

abbrev pub after_reset :
    Environment
    → Result
        (AppState FrontendRestarting BackendUndergoingFactoryReset)
        (AppState FrontendRunning BackendStarting)
      × AppContext
    → ResetDone
after_reset e (ok s, c) = second_both (do_bootstrapping e s c)
after_reset e (err s, c) =
    let (t, c') =
      transition_with {F = FrontendMisconfigured} {B = BackendStopped} s
        (service_unavailable (text "BAD_CONFIGURATION"), tt) c in
    (ok (e1 t), c')
after_reset e (panicked, c) = (panicked, c)

unfoldable pub do_factory_reset :
    Environment → AppState FrontendRunning BackendRunning → AppContext → ResetDone
do_factory_reset e s c =
    let (t, c') =
      with_auto_transition {F = FrontendRestarting} {B = BackendUndergoingFactoryReset}
        (with_backend undergoing_factory_reset s) c in
    if (factory_reset e).0
    then after_reset e (try_reload_frontend e t c')
    else (err (e1 (with_error t (internal_server_error (text "FACTORY_RESET_FAILED")))), c')
