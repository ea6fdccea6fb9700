-- ===== src/Api/Lifecycle.antt =====
-- Transitions of the life cycle: reloading, restarting, bootstrapping and resetting
-- (api/src/router/lifecycle/{backend_reload,backend_restart,factory_reset,frontend_reload,reload}.rs,
-- and the transitions of api/src/startup.rs). An operation takes the context and returns it.
pub mod Diagram
pub mod Invariant
pub mod Reachable
pub mod Coherent
pub mod Replies
pub mod Reached
pub mod Domain
pub mod Failures
pub mod Reload
pub mod Recovery
mod Tests
pub mod Reset
pub mod Serve
pub mod Server
use prose_pod_server.Common.{ℕ, Bool, Option, none, some, List, [], ◌∷◌, Text, text, if◌then◌else◌}
use prose_pod_server.Common.Results.{Result, ok, err, panicked, Either, e1, e2}
use prose_pod_server.Api.Errors.{Error, internal_server_error, service_unavailable, no_context}
use prose_pod_server.Api.State.{
  AppConfig, FrontendRunning, Operational, frontend_running_health, running_health,
  restarting_health, restart_failed_health, start_failed_health, BackendStarting,
  BackendStartFailed, BackendRunning, BackendRestarting, BackendRestartFailed,
  BackendUndergoingFactoryReset, undergoing_factory_reset, BackendStopped, HealthTrait, AppState,
  AppContext, FailState,
}
use prose_pod_server.Api.State.Traits.{AppStateTrait, FrontendStateTrait, AsRunning}
use prose_pod_server.Api.State.Transitions.{
  Into, itself, starting_fails, restarting_fails, with_auto_transition, transition_with,
  transition_failed, with_error, with_frontend, with_backend,
}

-- What the rest of the system answers while a request is served: `AppConfig::from_default_figment`,
-- `update_tracing_config`, `bootstrap`, the calls of the child process and of `prosodyctl`, and the
-- file system.
pub record Environment : Type 0 where
  pub from_default_figment : Option AppConfig
  pub updates_tracing : Bool
  pub bootstrap : AppConfig → Option Operational
  pub stops : Bool
  pub reloads : Bool
  pub loads_modules : Bool
  pub paths_config : Option Text
  pub paths_data : Option Text
  pub empties : Text → Bool
  pub resets_config_file : Bool
  pub creates_backup : Result Error (Unit {0})
  pub restores_backup : Result Error (Unit {0})

unfoldable pub do_reload_backend :
    {F : Type 0}
    → Environment
    → AppState F BackendRunning
    → Result (FailState F BackendRunning) (AppState F BackendRunning)
do_reload_backend e s =
    if e.reloads
    then (if e.loads_modules then ok s else err (with_error s no_context))
    else err (with_error s no_context)

module _ {F B : Type 0} ⦃a : AppStateTrait F B⦄ ⦃h : FrontendStateTrait F⦄ where
  -- The new configuration is read, checked against the current one, and applied to the logs.
  abbrev pub on_config : Environment → AppState F B → Option AppConfig → Option FrontendRunning
  on_config e s none = none
  on_config e s (some config) =
      if a.validates s config
      then (if e.updates_tracing
          then some (record { config = config; tracing_reload_handles = h.handles s.frontend })
          else none)
      else none

  unfoldable pub reload_frontend : Environment → AppState F B → Option FrontendRunning
  reload_frontend e s = on_config e s e.from_default_figment

  module _ {B' : Type 0} ⦃i : Into B B'⦄ ⦃b : HealthTrait B'⦄
      ⦃a' : AppStateTrait FrontendRunning B'⦄ where
    abbrev pub on_reloaded :
        AppState F B
        → AppContext
        → Option FrontendRunning
        → Result (AppState F B) (AppState FrontendRunning B') × AppContext
    on_reloaded s c none = (err s, c)
    on_reloaded s c (some frontend) =
        let (t, c') = with_auto_transition (with_frontend frontend s) c in (ok t, c')

    unfoldable pub try_reload_frontend :
        Environment
        → AppState F B
        → AppContext
        → Result (AppState F B) (AppState FrontendRunning B') × AppContext
    try_reload_frontend e s c = on_reloaded s c (reload_frontend e s)

    module _ {F'' B'' : Type 0} ⦃f'' : HealthTrait F''⦄ ⦃b'' : HealthTrait B''⦄
        ⦃a'' : AppStateTrait F'' B''⦄ ⦃j : Into (F × Error) F''⦄ ⦃k : Into (B × Error) B''⦄ where
      abbrev pub on_tried :
          Result (AppState F B) (AppState FrontendRunning B') × AppContext
          → Result (FailState F'' B'') (AppState FrontendRunning B') × AppContext
      on_tried (ok t, c) = let (u, c') = with_auto_transition t c in (ok u, c')
      on_tried (err s, c) =
          let (t, c') = transition_failed s (service_unavailable (text "BAD_CONFIGURATION")) c in
          (err t, c')
      on_tried (panicked, c) = (panicked, c)

      unfoldable pub do_reload_frontend :
          Environment
          → AppState F B
          → AppContext
          → Result (FailState F'' B'') (AppState FrontendRunning B') × AppContext
      do_reload_frontend e s c = on_tried (try_reload_frontend e s c)

module _ {F B : Type 0} ⦃f : HealthTrait F⦄ ⦃r : AsRunning F⦄
    ⦃a : AppStateTrait F BackendRunning⦄ where
  abbrev pub on_bootstrapped :
      AppState F B
      → AppContext
      → Option Operational
      → Result (AppState F B) (AppState F BackendRunning) × AppContext
  on_bootstrapped s c none = (err s, c)
  on_bootstrapped s c (some state) =
      let (t, c') =
        with_auto_transition {B = BackendRunning} {B' = BackendRunning}
          (with_backend (record { state = state }) s) c in
      (ok t, c')

  unfoldable pub try_bootstrapping :
      Environment
      → AppState F B
      → AppContext
      → Result (AppState F B) (AppState F BackendRunning) × AppContext
  try_bootstrapping e s c = on_bootstrapped s c (e.bootstrap (r.as_ref s.frontend).config)

  -- A failed attempt becomes a fail state with the error of that code.
  module _ {B' : Type 0} ⦃b : HealthTrait B'⦄ ⦃a' : AppStateTrait F B'⦄ ⦃i : Into (F × Error) F⦄
      ⦃j : Into (B × Error) B'⦄ where
    abbrev pub or_fail :
        Text
        → Result (AppState F B) (AppState F BackendRunning) × AppContext
        → Result (FailState F B') (AppState F BackendRunning) × AppContext
    or_fail code (ok t, c) = (ok t, c)
    or_fail code (err s, c) =
        let (t, c') = transition_failed s (internal_server_error code) c in (err t, c')
    or_fail code (panicked, c) = (panicked, c)

module _ {F : Type 0} ⦃f : HealthTrait F⦄ ⦃r : AsRunning F⦄ ⦃a : AppStateTrait F BackendRunning⦄
    ⦃i : Into (F × Error) F⦄ where
  unfoldable pub do_bootstrapping :
      ⦃a' : AppStateTrait F BackendStartFailed⦄
      → Environment
      → AppState F BackendStarting
      → AppContext
      → Result (FailState F BackendStartFailed) (AppState F BackendRunning) × AppContext
  do_bootstrapping e s c = or_fail (text "START_FAILED") (try_bootstrapping e s c)

  -- The model leaves out the first of the two errors, which the code never returns.
  unfoldable pub do_restart_backend :
      {B : Type 0} ⦃j : Into B BackendRestarting⦄ ⦃a' : AppStateTrait F BackendRestarting⦄
      ⦃a'' : AppStateTrait F BackendRestartFailed⦄
      → Environment
      → AppState F B
      → AppContext
      → Result (FailState F BackendRestartFailed) (AppState F BackendRunning) × AppContext
  do_restart_backend e s c =
      let (t, c') = with_auto_transition {F = F} {B = BackendRestarting} s c in
      or_fail (text "RESTART_FAILED") (try_bootstrapping e t c')
