-- ===== src/Api/State.antt =====
-- The states of the API (api/src/state.rs, api/src/router/mod.rs, api/src/router/health.rs): the
-- frontend's and the backend's, one type each as in the code, what each answers on a health route,
-- and `AppContext`, which holds the router that is served and the handle on Prosody.

pub mod Traits
pub mod Transitions
use prose_pod_server.Common.{ℕ, Bool, true, Option, none, some, List, Text, text, same}
use prose_pod_server.Api.Errors.{
  Error, internal_server_error, too_early, service_unavailable, configuration_error,
}

-- The part of the configuration that decides whether it can replace another one; `rest` stands for
-- the others.
pub record AppConfig : Type 0 where
  pub domain : Text
  pub rest : ℕ

-- `AppConfig::validate_config_changes`, less what it logs
unfoldable pub validate_config_changes : AppConfig → AppConfig → Bool
validate_config_changes old new = same new.domain old.domain

-- Shared objects are named by numbers: here the handles, below the child process.
pub record FrontendRunning : Type 0 where
  pub config : AppConfig
  pub tracing_reload_handles : ℕ

pub record FrontendRunningWithMisconfiguration : Type 0 where
  pub inner : FrontendRunning
  pub error : Error

pub record FrontendMisconfigured : Type 0 where
  pub error : Error
  pub tracing_reload_handles : ℕ

pub record FrontendRestarting : Type 0 where
  pub tracing_reload_handles : ℕ

-- Of its services, the child process and whether backups are configured.
pub record Operational : Type 0 where
  pub prosody : ℕ
  pub has_backup_service : Bool

pub data BackendStarting : Type 0 where
  starting : BackendStarting

pub record BackendStartFailed : Type 0 where
  pub error : Error

pub record BackendRunning : Type 0 where
  pub state : Operational

pub data BackendRestarting : Type 0 where
  restarting : BackendRestarting

pub record BackendRestartFailed : Type 0 where
  pub error : Error

pub data BackendUndergoingFactoryReset : Type 0 where
  undergoing_factory_reset : BackendUndergoingFactoryReset

pub data BackendUndergoingBackup : Type 0 where
  undergoing_backup : BackendUndergoingBackup

pub data BackendUndergoingRestore : Type 0 where
  undergoing_restore : BackendUndergoingRestore

pub data BackendStopped : Type 0 where
  stopped : BackendStopped

-- The answer of a health route: with an error, after how many seconds to try again.
pub data Health : Type 0 where
  healthy : Health
  unhealthy : Error → Option ℕ → Health

pub record HealthTrait (S : Type 0) : Type 0 where
  pub health : S → Health

instance abbrev pub running_health : HealthTrait BackendRunning
running_health = record { health = λ _. healthy }

instance abbrev pub stopped_health : HealthTrait BackendStopped
stopped_health = record {
  health = λ _. unhealthy (service_unavailable (text "SERVER_STOPPED")) none;
}

instance abbrev pub starting_health : HealthTrait BackendStarting
starting_health = record { health = λ _. unhealthy (too_early (text "SERVER_STARTING")) (some 1) }

instance abbrev pub start_failed_health : HealthTrait BackendStartFailed
start_failed_health = record { health = λ s. unhealthy s.error none }

instance abbrev pub restarting_health : HealthTrait BackendRestarting
restarting_health = record {
  health = λ _. unhealthy (too_early (text "SERVER_RESTARTING")) (some 1);
}

instance abbrev pub restart_failed_health : HealthTrait BackendRestartFailed
restart_failed_health = record { health = λ s. unhealthy s.error none }

instance abbrev pub factory_reset_health : HealthTrait BackendUndergoingFactoryReset
factory_reset_health = record {
  health = λ _. unhealthy (service_unavailable (text "FACTORY_RESET_IN_PROGRESS")) (some 15);
}

instance abbrev pub backup_health : HealthTrait BackendUndergoingBackup
backup_health = record {
  health = λ _. unhealthy (service_unavailable (text "BACKUP_IN_PROGRESS")) (some 10);
}

instance abbrev pub restore_health : HealthTrait BackendUndergoingRestore
restore_health = record {
  health = λ _. unhealthy (service_unavailable (text "BACKUP_RESTORE_IN_PROGRESS")) (some 10);
}

instance abbrev pub frontend_running_health : HealthTrait FrontendRunning
frontend_running_health = record { health = λ _. healthy }

instance abbrev pub misconfiguration_health : HealthTrait FrontendRunningWithMisconfiguration
misconfiguration_health = record { health = λ s. unhealthy s.error none }

instance abbrev pub misconfigured_health : HealthTrait FrontendMisconfigured
misconfigured_health = record { health = λ s. unhealthy s.error none }

instance abbrev pub frontend_restarting_health : HealthTrait FrontendRestarting
frontend_restarting_health = record {
  health = λ _. unhealthy (service_unavailable (text "FACTORY_RESET_IN_PROGRESS")) (some 15);
}

-- `AppState`, less its pointer to the context, which the operations below pass on
pub record AppState (F : Type 0) (B : Type 0) : Type 0 where
  pub frontend : F
  pub backend : B

-- The router of a state holds the state; each constructor is an `impl AppStateTrait`.
pub data Routes : Type 0 where
  operational : AppState FrontendRunning BackendRunning → Routes
  starting_up : AppState FrontendRunning BackendStarting → Routes
  being_restarted : AppState FrontendRunning BackendRestarting → Routes
  restart_failed : AppState FrontendRunning BackendRestartFailed → Routes
  misconfigured : AppState FrontendRunningWithMisconfiguration BackendRunning → Routes
  being_reset : AppState FrontendRestarting BackendUndergoingFactoryReset → Routes
  being_saved : AppState FrontendRunning BackendUndergoingBackup → Routes
  being_restored : AppState FrontendRunning BackendUndergoingRestore → Routes
  config_needed : AppState FrontendMisconfigured BackendStopped → Routes
  start_failed : AppState FrontendRunning BackendStartFailed → Routes

-- `with_base_routes`: the routes of a state and the two health routes
pub record Router : Type 0 where
  pub frontend_health : Health
  pub backend_health : Health
  pub routes : Routes

-- `AppStateTrait::state_name`
pub data StateName : Type 0 where
  operational_name starting_name restarting_name restart_failed_name misconfigured_name : StateName
  reset_name backup_name restore_name config_needed_name start_failed_name : StateName

-- `changes` is what `set_state` logs, the last change first. `none` is the handle of a state
-- without Prosody.
pub record AppContext : Type 0 where
  pub router : Router
  pub prosody : Option ℕ
  pub changes : List StateName

-- `FailState`
pub record FailState (F : Type 0) (B : Type 0) : Type 0 where
  pub state : AppState F B
  pub error : Error

-- `Operational::backup_service`, by its error
unfoldable pub missing_backups : Error
missing_backups = configuration_error (text "MISSING_CONFIG")
