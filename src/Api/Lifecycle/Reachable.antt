-- ===== src/Api/Lifecycle/Reachable.antt =====
-- Every operation of the life cycle keeps the context coherent.
use prose_pod_server.Common.{◌≡◌, Option-cases, inl, inr}
use prose_pod_server.Api.Errors.{Error}
use prose_pod_server.Api.State.{
  HealthTrait, FrontendRunning, BackendStarting, BackendRestarting, AppState, AppContext,
  starting_name, restarting_name, frontend_running_health, misconfiguration_health,
  misconfigured_health, running_health, stopped_health, start_failed_health, restarting_health,
  restart_failed_health, starting_health,
}
use prose_pod_server.Api.State.Traits.{
  AppStateTrait, FrontendStateTrait, operational_state, starting_state, start_failed_state,
  restarting_state, restart_failed_state, misconfigured_state, config_needed_state, running_handles,
  misconfiguration_handles, misconfigured_handles, running_as_ref,
}
use prose_pod_server.Api.State.Transitions.{
  Into, running_fails, misconfiguration_fails, misconfiguration_of, misconfigured_of, itself,
  backend_running_fails, stopped_fails, stopped_to_starting, with_auto_transition, transition_with,
  transition_failed, new_state, set_state,
}
use prose_pod_server.Api.Lifecycle.{
  Environment, reload_frontend, do_reload_frontend, try_reload_frontend, do_bootstrapping,
  do_restart_backend, try_bootstrapping,
}
use prose_pod_server.Api.Lifecycle.Diagram.{
  ◌⇒◌, documented, booted, boot_failed, restarted, restart_fails,
}
use prose_pod_server.Api.Lifecycle.Invariant.{
  IsCoherent, LawfulState, name_of, set_state-IsCoherent, set_state_again, name_of-set_state,
  operational_law, starting_law, start_failed_law, restarting_law, restart_failed_law,
  misconfigured_law, config_needed_law,
}

pub do_bootstrapping-IsCoherent :
    (e : Environment) (s : AppState FrontendRunning BackendStarting) (c : AppContext)
    → name_of c ≡ starting_name
    → IsCoherent c
    → IsCoherent (do_bootstrapping e s c).1
unfolding do_bootstrapping try_bootstrapping with_auto_transition new_state transition_failed
    transition_with
do_bootstrapping-IsCoherent e s c n h = elim (Option-cases (e.bootstrap s.frontend.config)) [
  | inl p ↦ rw p (set_state-IsCoherent _ c (rw n (documented boot_failed)) h)
  | inr (o, p) ↦ rw p (set_state-IsCoherent _ c (rw n (documented booted)) h)
]

pub do_restart_backend-IsCoherent :
    {B : Type 0} ⦃j : Into B BackendRestarting⦄ (e : Environment) (s : AppState FrontendRunning B)
    (c : AppContext)
    → name_of c ⇒ restarting_name
    → IsCoherent c
    → IsCoherent (do_restart_backend e s c).1
unfolding do_restart_backend try_bootstrapping with_auto_transition new_state transition_failed
    transition_with
do_restart_backend-IsCoherent ⦃j⦄ e s c n h =
    let k =
      set_state-IsCoherent (record { frontend = s.frontend; backend = j.into s.backend }) c n h in
    elim (Option-cases (e.bootstrap s.frontend.config)) [
      | inl p ↦ rw p (set_state_again _ _ c (documented restart_fails) k)
      | inr (o, p) ↦ rw p (set_state_again _ _ c (documented restarted) k)
    ]

-- A reload serves the new state twice, or the fail state.
pub do_reload_frontend-IsCoherent :
    {F B : Type 0} (B' F'' B'' : Type 0) ⦃a : AppStateTrait F B⦄ ⦃h : FrontendStateTrait F⦄
    ⦃i : Into B B'⦄ ⦃b : HealthTrait B'⦄ ⦃a' : AppStateTrait FrontendRunning B'⦄
    ⦃l' : LawfulState FrontendRunning B'⦄ ⦃f'' : HealthTrait F''⦄ ⦃b'' : HealthTrait B''⦄
    ⦃a'' : AppStateTrait F'' B''⦄ ⦃l'' : LawfulState F'' B''⦄ ⦃j : Into (F × Error) F''⦄
    ⦃k : Into (B × Error) B''⦄ (e : Environment) (s : AppState F B) (c : AppContext)
    → name_of c ⇒ a'.state_name
    → a'.state_name ⇒ a'.state_name
    → name_of c ⇒ a''.state_name
    → IsCoherent c
    → IsCoherent (do_reload_frontend {B' = B'} {F'' = F''} {B'' = B''} e s c).1
unfolding do_reload_frontend try_reload_frontend with_auto_transition new_state transition_failed
    transition_with
do_reload_frontend-IsCoherent _ _ _ e s c good again bad h =
    elim (Option-cases (reload_frontend e s)) [
      | inl p ↦ rw p (set_state-IsCoherent _ c bad h)
      | inr (f, p) ↦ rw p (set_state_again _ _ c again (set_state-IsCoherent _ c good h))
    ]

-- Bootstrapping in a state that was just served.
pub bootstrapping_served :
    (e : Environment) (s t : AppState FrontendRunning BackendStarting) (c : AppContext)
    → IsCoherent (set_state t c)
    → IsCoherent (do_bootstrapping e s (set_state t c)).1
bootstrapping_served e s t c h =
    do_bootstrapping-IsCoherent e s (set_state t c) (name_of-set_state t c) h
