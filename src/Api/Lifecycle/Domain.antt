-- ===== src/Api/Lifecycle/Domain.antt =====
-- The domain of the server, which `validate_config_changes` protects: no request but a factory
-- reset changes it.
pub mod Kept
use prose_pod_server.Common.{
  arith, ℕ, ◌≡◌, refl, sym, ap, ◌∙◌, ◌≢◌, Bool, true, false, Bool-cases, Option, Option-cases, none,
  some, List, [], ◌∷◌, inl, inr, Text, same, same→eq, if◌then◌else◌, All,
}
use prose_pod_server.Common.Results.{Result, ok, err, panicked}
use prose_pod_server.Api.Errors.{Error}
use prose_pod_server.Api.State.{
  AppConfig, validate_config_changes, FrontendRunning, BackendStarting, BackendRunning,
  BackendRestarting, AppState, AppContext, Routes, operational, misconfigured, starting_up,
  being_restarted, restart_failed, being_reset, being_saved, being_restored, config_needed,
  start_failed, missing_backups, undergoing_backup, undergoing_restore, frontend_running_health,
  running_health, starting_health, restarting_health, restart_failed_health, start_failed_health,
  misconfiguration_health, FrontendRunningWithMisconfiguration,
}
use prose_pod_server.Api.State.Traits.{
  AppStateTrait, FrontendStateTrait, operational_state, starting_state, restarting_state,
  restart_failed_state, start_failed_state, misconfigured_state, running_as_ref, running_handles,
  misconfiguration_handles,
}
use prose_pod_server.Api.State.Transitions.{
  Into, itself, running_fails, misconfiguration_fails, misconfiguration_of, backend_running_fails,
  restart_failed_to_restarting, backup_to_restarting, restore_to_restarting, serving, set_state,
  with_auto_transition, with_backend, new_state, transition_with, transition_failed,
}
use prose_pod_server.Api.Lifecycle.{
  Environment, on_config, reload_frontend, do_reload_frontend, try_reload_frontend,
  do_reload_backend, do_bootstrapping, do_restart_backend, try_bootstrapping,
}
use prose_pod_server.Api.Lifecycle.Serve.{
  Request, Served, backend_restart, backend_reload, frontend_reload, reload,
  factory_reset as reset_request, post_backups, put_restore, backend_start_again,
  backend_start_retry, backend_restart_, backend_restart_again, backend_restart_retry,
  backend_reload_, frontend_reload_, reload_running, reload_misconfigured,
}
use prose_pod_server.Api.Lifecycle.Server.{
  handle, route, post_backups_, post_backups_all, put_backup_restore, put_backup_restore_all, serve,
  run,
}
use prose_pod_server.Api.Lifecycle.Replies.{reply-keeps, then_reload_backend-keeps, guard-keeps}

-- The domain of the configuration in use.
abbrev pub domain_of : Routes → Option Text
domain_of (operational s) = some s.frontend.config.domain
domain_of (starting_up s) = some s.frontend.config.domain
domain_of (being_restarted s) = some s.frontend.config.domain
domain_of (restart_failed s) = some s.frontend.config.domain
domain_of (misconfigured s) = some s.frontend.inner.config.domain
domain_of (being_reset s) = none
domain_of (being_saved s) = some s.frontend.config.domain
domain_of (being_restored s) = some s.frontend.config.domain
domain_of (config_needed s) = none
domain_of (start_failed s) = some s.frontend.config.domain

abbrev pub HasDomain : Text → AppContext → Type 0
HasDomain d c = domain_of c.router.routes ≡ some d

module _ (d : Text) (e : Environment) where
  pub bootstrapping-HasDomain :
      (s : AppState FrontendRunning BackendStarting) (c : AppContext)
      → s.frontend.config.domain ≡ d
      → HasDomain d (do_bootstrapping e s c).1
  unfolding do_bootstrapping try_bootstrapping with_auto_transition new_state transition_failed
      transition_with set_state serving
  bootstrapping-HasDomain s c h = elim (Option-cases (e.bootstrap s.frontend.config)) [
    | inl p ↦ rw p (ap some h)
    | inr (o, p) ↦ rw p (ap some h)
  ]

  pub restart-HasDomain :
      {B : Type 0} ⦃j : Into B BackendRestarting⦄ (s : AppState FrontendRunning B) (c : AppContext)
      → s.frontend.config.domain ≡ d
      → HasDomain d (do_restart_backend e s c).1
  unfolding do_restart_backend try_bootstrapping with_auto_transition new_state transition_failed
      transition_with set_state serving
  restart-HasDomain s c h = elim (Option-cases (e.bootstrap s.frontend.config)) [
    | inl p ↦ rw p (ap some h)
    | inr (o, p) ↦ rw p (ap some h)
  ]

module _ {F B : Type 0} ⦃a : AppStateTrait F B⦄ ⦃h : FrontendStateTrait F⦄ (e : Environment)
    (s : AppState F B) where
  on_config-validates :
      (o : Option AppConfig) {f : FrontendRunning}
      → on_config e s o ≡ some f
      → a.validates s f.config ≡ true
  on_config-validates none k = cc
  on_config-validates (some config) k = ground arith

  -- A configuration that a reload takes was validated against the one before.
  pub reload_frontend-validates :
      {f : FrontendRunning} → reload_frontend e s ≡ some f → a.validates s f.config ≡ true
  unfolding reload_frontend
  reload_frontend-validates k = on_config-validates e.from_default_figment k

validated_domain :
    (old new : AppConfig) {d : Text}
    → validate_config_changes old new ≡ true
    → old.domain ≡ d
    → new.domain ≡ d
unfolding validate_config_changes
validated_domain old new k h = same→eq new.domain old.domain k ∙ h

module _ (d : Text) (e : Environment) where
  pub operational_reload-HasDomain :
      (s : AppState FrontendRunning BackendRunning) (c : AppContext)
      → s.frontend.config.domain ≡ d
      → HasDomain d
          (do_reload_frontend {B' = BackendRunning} {F'' = FrontendRunning} {B'' = BackendRunning} e
            s c).1
  unfolding do_reload_frontend try_reload_frontend with_auto_transition new_state transition_failed
      transition_with set_state serving
  operational_reload-HasDomain s c h = elim (Option-cases (reload_frontend e s)) [
    | inl p ↦ rw p (ap some h)
    | inr (f, p) ↦
        rw p (
          ap some (validated_domain s.frontend.config f.config (reload_frontend-validates e s p) h))
  ]

  pub frontend_reload-HasDomain :
      (s : AppState FrontendRunning BackendRunning) (c : AppContext)
      → s.frontend.config.domain ≡ d
      → HasDomain d (frontend_reload_ e s c).1
  unfolding frontend_reload_ do_reload_frontend try_reload_frontend with_auto_transition new_state
      transition_failed transition_with set_state serving
  frontend_reload-HasDomain s c h = elim (Option-cases (reload_frontend e s)) [
    | inl p ↦ rw p (ap some h)
    | inr (f, p) ↦
        rw p (
          ap some (validated_domain s.frontend.config f.config (reload_frontend-validates e s p) h))
  ]

  pub misconfigured_reload-HasDomain :
      (s : AppState FrontendRunningWithMisconfiguration BackendRunning) (c : AppContext)
      → s.frontend.inner.config.domain ≡ d
      → HasDomain d
          (do_reload_frontend {B' = BackendRunning} {F'' = FrontendRunningWithMisconfiguration}
            {B'' = BackendRunning} e s c).1
  unfolding do_reload_frontend try_reload_frontend with_auto_transition new_state transition_failed
      transition_with set_state serving
  misconfigured_reload-HasDomain s c h = elim (Option-cases (reload_frontend e s)) [
    | inl p ↦ rw p (ap some h)
    | inr (f, p) ↦ rw p (
        ap some
          (validated_domain s.frontend.inner.config f.config (reload_frontend-validates e s p) h))
  ]
