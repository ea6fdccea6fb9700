-- ===== src/Api/Lifecycle/Coherent.antt =====
-- Every request, from the start on, keeps the context coherent.
use prose_pod_server.Common.{◌≡◌, refl, Bool, Bool-cases, Option-cases, if◌then◌else◌, inl, inr}
use prose_pod_server.Common.Results.{Result, err, panicked}
use prose_pod_server.Api.Errors.{Error}
use prose_pod_server.Api.State.{
  missing_backups, undergoing_backup, undergoing_restore, restart_failed_health, FrontendRunning,
  FrontendMisconfigured, FrontendRestarting, BackendRunning, BackendRestarting,
  BackendUndergoingFactoryReset, BackendStopped, AppState, AppContext, Routes, operational,
  starting_up, being_restarted, restart_failed, misconfigured, undergoing_factory_reset,
  config_needed, start_failed, operational_name, config_needed_name, frontend_running_health,
  misconfiguration_health, misconfigured_health, frontend_restarting_health, running_health,
  stopped_health, restarting_health, starting_health, factory_reset_health,
}
use prose_pod_server.Api.State.Traits.{
  operational_state, starting_state, restarting_state, restart_failed_state, running_as_ref,
  misconfigured_state, reset_state, config_needed_state, running_handles, misconfiguration_handles,
  misconfigured_handles, restarting_handles,
}
use prose_pod_server.Api.State.Transitions.{
  Into, running_fails, misconfiguration_fails, misconfiguration_of, misconfigured_of, itself,
  backend_running_fails, stopped_fails, stopped_to_starting, restart_failed_to_restarting,
  start_failed_to_starting, backup_to_restarting, restore_to_restarting, reset_to_starting,
  with_auto_transition, with_backend, transition_with, transition_failed, new_state,
}
use prose_pod_server.Api.Lifecycle.{
  Environment, reload_frontend, do_reload_backend, do_restart_backend, do_reload_frontend,
  try_reload_frontend,
}
use prose_pod_server.Api.Lifecycle.Diagram.{
  still_needs_config, configured, starting_again, documented, reset, restart, restarting_again,
  restart_retry, boot_again, reloaded, bad_configuration, still_bad, repaired, configured_by_env,
  needs_config,
}
use prose_pod_server.Api.Lifecycle.Reset.{factory_reset, do_init_config, do_factory_reset}
use prose_pod_server.Api.Lifecycle.Serve.{
  Request, Served, backend_restart, backend_reload, frontend_reload, reload,
  factory_reset as reset_request, post_backups, put_restore, backend_start_again,
  backend_start_retry, backend_restart_, backend_restart_again, backend_restart_retry,
  backend_reload_, frontend_reload_, reload_running, reload_misconfigured, init_config,
  factory_reset_,
}
use prose_pod_server.Api.Lifecycle.Server.{
  handle, route, post_backups_, post_backups_all, put_backup_restore, put_backup_restore_all, serve,
}
use prose_pod_server.Api.Lifecycle.Invariant.{
  IsCoherent, view_of, name_of, set_state-IsCoherent, set_state_again, name_of-set_state,
  operational_law, starting_law, restarting_law, misconfigured_law, reset_law, config_needed_law,
}
use prose_pod_server.Api.Lifecycle.Replies.{
  reply-keeps, then_reload_backend-keeps, on_init-keeps, on_reset-keeps, second_error-keeps,
  second_both-keeps, guard-keeps,
}
use prose_pod_server.Api.Lifecycle.Reachable.{
  do_bootstrapping-IsCoherent, bootstrapping_served, do_restart_backend-IsCoherent,
  do_reload_frontend-IsCoherent,
}

module _ (e : Environment) (c : AppContext) where
  do_init_config-IsCoherent :
      (s : AppState FrontendMisconfigured BackendStopped)
      → name_of c ≡ config_needed_name
      → IsCoherent c
      → IsCoherent (do_init_config e s c).1
  unfolding do_init_config do_reload_frontend try_reload_frontend with_auto_transition new_state
      transition_failed transition_with
  do_init_config-IsCoherent s n h = elim (Option-cases (reload_frontend e s)) [
    | inl p ↦ rw p (set_state-IsCoherent _ c (rw n (documented still_needs_config)) h)
    | inr (f, p) ↦ rw p (
        second_error-keeps IsCoherent _ (
          bootstrapping_served e _ _ _ (
            set_state_again _ _ _ starting_again (
              set_state_again _ _ c starting_again
                (set_state-IsCoherent _ c (rw n (documented configured)) h)))))
  ]

  do_factory_reset-IsCoherent :
      (s : AppState FrontendRunning BackendRunning)
      → name_of c ≡ operational_name
      → IsCoherent c
      → IsCoherent (do_factory_reset e s c).1
  unfolding do_factory_reset try_reload_frontend with_auto_transition new_state transition_with
  do_factory_reset-IsCoherent s n h =
      let k = set_state-IsCoherent _ c (rw n (documented reset)) h in
      elim (Bool-cases (factory_reset e).0) [
        | inl p ↦
            rw p
              (elim (Option-cases (
                reload_frontend {F = FrontendRestarting} {B = BackendUndergoingFactoryReset} e
                  (record {
                    frontend = record {
                      tracing_reload_handles = s.frontend.tracing_reload_handles;
                    };
                    backend = undergoing_factory_reset;
                  }))) [
                    | inl q ↦ rw q (set_state_again _ _ c (documented needs_config) k)
                    | inr (f, q) ↦ rw q (
                        second_both-keeps IsCoherent _ (
                          bootstrapping_served e _ _ _
                            (set_state_again _ _ c (documented configured_by_env) k)))
                  ])
        | inr p ↦ rw p k
      ]

  -- A backup and a restoration restart the backend, unless a guard stops them.
  restarts :
      {B : Type 0} ⦃j : Into B BackendRestarting⦄ (has_service : Bool) (r : Result Error (Unit {0}))
      (b : B) (s : AppState FrontendRunning BackendRunning)
      → name_of c ≡ operational_name
      → IsCoherent c
      → let out : Served =
          if has_service
          then (if e.stops
              then (r, (do_restart_backend e (with_backend b s) c).1)
              else (panicked, c))
          else (err missing_backups, c) in
        IsCoherent out.1
  restarts has_service r b s n h =
      guard-keeps IsCoherent has_service _ _
        (guard-keeps IsCoherent e.stops _ _
          (do_restart_backend-IsCoherent e (with_backend b s) c (rw n (documented restart)) h) h)
        h

  handle-IsCoherent :
      (r : Request) (s : AppState FrontendRunning BackendRunning)
      → name_of c ≡ operational_name
      → IsCoherent c
      → IsCoherent (handle e r s c).1
  unfolding backend_restart_ backend_reload_ frontend_reload_ reload_running factory_reset_
      post_backups_all post_backups_ put_backup_restore_all put_backup_restore
  handle-IsCoherent backend_restart s n h =
      guard-keeps IsCoherent e.stops _ _
        (reply-keeps IsCoherent _
          (do_restart_backend-IsCoherent e _ c (rw n (documented restart)) h))
        h
  handle-IsCoherent backend_reload s n h = reply-keeps IsCoherent (do_reload_backend e s, c) h
  handle-IsCoherent frontend_reload s n h = reply-keeps IsCoherent _ (
      do_reload_frontend-IsCoherent _ _ _ e s c (rw n (documented reloaded)) (documented reloaded)
        (rw n (documented bad_configuration)) h)
  handle-IsCoherent reload s n h = then_reload_backend-keeps IsCoherent e _ (
      do_reload_frontend-IsCoherent _ _ _ e s c (rw n (documented reloaded)) (documented reloaded)
        (rw n (documented reloaded)) h)
  handle-IsCoherent reset_request s n h =
      on_reset-keeps IsCoherent _ (do_factory_reset-IsCoherent s n h)
  handle-IsCoherent (post_backups is_admin is_tar has_data) s n h =
      guard-keeps IsCoherent is_admin _ _
        (guard-keeps IsCoherent is_tar _ _
          (guard-keeps IsCoherent has_data _ _
            (restarts s.backend.state.has_backup_service e.creates_backup undergoing_backup s n h)
            h)
          h)
        h
  handle-IsCoherent (put_restore is_admin has_token) s n h =
      guard-keeps IsCoherent is_admin _ _
        (guard-keeps IsCoherent has_token _ _
          (restarts s.backend.state.has_backup_service e.restores_backup undergoing_restore s n h)
          h)
        h

  route-IsCoherent :
      (r : Request) (x : Routes)
      → name_of c ≡ (view_of x).name
      → IsCoherent c
      → IsCoherent (route e r x c).1
  unfolding backend_start_again backend_start_retry backend_restart_again backend_restart_retry
      reload_misconfigured init_config with_auto_transition new_state
  route-IsCoherent r (operational s) n h = handle-IsCoherent r s n h
  route-IsCoherent backend_restart (starting_up s) n h =
      reply-keeps IsCoherent _ (do_bootstrapping-IsCoherent e s c n h)
  route-IsCoherent backend_restart (being_restarted s) n h =
      reply-keeps IsCoherent _ (do_restart_backend-IsCoherent e s c (rw n restarting_again) h)
  route-IsCoherent backend_restart (restart_failed s) n h = reply-keeps IsCoherent _ (
      do_restart_backend-IsCoherent e _ _
        (rw (name_of-set_state {F = FrontendRunning} {B = BackendRestarting} _ c) restarting_again)
        (set_state-IsCoherent _ c (rw n (documented restart_retry)) h))
  route-IsCoherent reload (misconfigured s) n h = then_reload_backend-keeps IsCoherent e _ (
      do_reload_frontend-IsCoherent _ _ _ e s c (rw n (documented repaired)) (documented reloaded)
        (rw n (documented still_bad)) h)
  route-IsCoherent reload (config_needed s) n h =
      on_init-keeps IsCoherent _ (do_init_config-IsCoherent s n h)
  route-IsCoherent backend_restart (start_failed s) n h =
      reply-keeps IsCoherent _
        (bootstrapping_served e _ _ c (set_state-IsCoherent _ c (rw n (documented boot_again)) h))
  route-IsCoherent r _ n h = h

  pub serve-IsCoherent : (r : Request) → IsCoherent c → IsCoherent (serve e r c).1
  unfolding serve
  serve-IsCoherent r h = route-IsCoherent r c.router.routes refl h
