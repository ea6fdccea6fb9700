-- ===== src/Api/State/Traits.antt =====
-- `AppStateTrait` and its instances (api/src/router/mod.rs), and the traits of the frontend states
-- (api/src/state.rs).
use prose_pod_server.Common.{ℕ, Bool, true, Option, none, some}
use prose_pod_server.Api.State.{
  AppConfig, validate_config_changes, FrontendRunning, FrontendRunningWithMisconfiguration,
  FrontendMisconfigured, FrontendRestarting, BackendStarting, BackendStartFailed, BackendRunning,
  BackendRestarting, BackendRestartFailed, BackendUndergoingFactoryReset, BackendUndergoingBackup,
  BackendUndergoingRestore, BackendStopped, AppState, StateName, operational_name, starting_name,
  restarting_name, restart_failed_name, misconfigured_name, reset_name, backup_name, restore_name,
  config_needed_name, start_failed_name, Routes, operational, starting_up, being_restarted,
  restart_failed, misconfigured, being_reset, being_saved, being_restored, config_needed,
  start_failed,
}

pub record AppStateTrait (F : Type 0) (B : Type 0) : Type 0 where
  pub state_name : StateName
  pub into_router : AppState F B → Routes
  pub validates : AppState F B → AppConfig → Bool
  pub prosody_weak : AppState F B → Option ℕ

instance abbrev pub operational_state : AppStateTrait FrontendRunning BackendRunning
operational_state = record {
  state_name = operational_name;
  into_router = operational;
  validates = λ s. validate_config_changes s.frontend.config;
  prosody_weak = λ s. some s.backend.state.prosody;
}

instance abbrev pub starting_state : AppStateTrait FrontendRunning BackendStarting
starting_state = record {
  state_name = starting_name;
  into_router = starting_up;
  validates = λ s. validate_config_changes s.frontend.config;
  prosody_weak = λ _. none;
}

instance abbrev pub restarting_state : AppStateTrait FrontendRunning BackendRestarting
restarting_state = record {
  state_name = restarting_name;
  into_router = being_restarted;
  validates = λ s. validate_config_changes s.frontend.config;
  prosody_weak = λ _. none;
}

instance abbrev pub restart_failed_state : AppStateTrait FrontendRunning BackendRestartFailed
restart_failed_state = record {
  state_name = restart_failed_name;
  into_router = restart_failed;
  validates = λ s. validate_config_changes s.frontend.config;
  prosody_weak = λ _. none;
}

instance abbrev pub misconfigured_state :
    AppStateTrait FrontendRunningWithMisconfiguration BackendRunning
misconfigured_state = record {
  state_name = misconfigured_name;
  into_router = misconfigured;
  validates = λ s. validate_config_changes s.frontend.inner.config;
  prosody_weak = λ s. some s.backend.state.prosody;
}

instance abbrev pub reset_state : AppStateTrait FrontendRestarting BackendUndergoingFactoryReset
reset_state = record {
  state_name = reset_name;
  into_router = being_reset;
  validates = λ _ _. true;
  prosody_weak = λ _. none;
}

instance abbrev pub backup_state : AppStateTrait FrontendRunning BackendUndergoingBackup
backup_state = record {
  state_name = backup_name;
  into_router = being_saved;
  validates = λ _ _. true;
  prosody_weak = λ _. none;
}

instance abbrev pub restore_state : AppStateTrait FrontendRunning BackendUndergoingRestore
restore_state = record {
  state_name = restore_name;
  into_router = being_restored;
  validates = λ _ _. true;
  prosody_weak = λ _. none;
}

instance abbrev pub config_needed_state : AppStateTrait FrontendMisconfigured BackendStopped
config_needed_state = record {
  state_name = config_needed_name;
  into_router = config_needed;
  validates = λ _ _. true;
  prosody_weak = λ _. none;
}

instance abbrev pub start_failed_state : AppStateTrait FrontendRunning BackendStartFailed
start_failed_state = record {
  state_name = start_failed_name;
  into_router = start_failed;
  validates = λ s. validate_config_changes s.frontend.config;
  prosody_weak = λ _. none;
}

-- `FrontendStateTrait`, by the name that its method has
pub record FrontendStateTrait (F : Type 0) : Type 0 where
  pub handles : F → ℕ

instance abbrev pub running_handles : FrontendStateTrait FrontendRunning
running_handles = record { handles = λ f. f.tracing_reload_handles }

instance abbrev pub misconfiguration_handles :
    FrontendStateTrait FrontendRunningWithMisconfiguration
misconfiguration_handles = record { handles = λ f. f.inner.tracing_reload_handles }

instance abbrev pub misconfigured_handles : FrontendStateTrait FrontendMisconfigured
misconfigured_handles = record { handles = λ f. f.tracing_reload_handles }

instance abbrev pub restarting_handles : FrontendStateTrait FrontendRestarting
restarting_handles = record { handles = λ f. f.tracing_reload_handles }

-- `AsRef<FrontendRunning>`
pub record AsRunning (F : Type 0) : Type 0 where
  pub as_ref : F → FrontendRunning

instance abbrev pub running_as_ref : AsRunning FrontendRunning
running_as_ref = record { as_ref = λ f. f }

instance abbrev pub misconfiguration_as_ref : AsRunning FrontendRunningWithMisconfiguration
misconfiguration_as_ref = record { as_ref = λ f. f.inner }
