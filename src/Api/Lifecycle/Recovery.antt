-- ===== src/Api/Lifecycle/Recovery.antt =====
-- One request brings the server back, unless a factory reset has failed.
use prose_pod_server.Common.{
  ℕ, ◌≡◌, ◌≢◌, refl, sym, subst, true, Option, some, List, inl, inr, Text, same, same_refl,
}
use prose_pod_server.Common.Results.{ok}
use prose_pod_server.Common.Members.{IsIn}
use prose_pod_server.Api.State.{
  AppConfig, validate_config_changes, Operational, FrontendRunning, BackendRunning, AppState,
  AppContext, Routes, operational, starting_up, being_restarted, restart_failed, misconfigured,
  being_reset, being_saved, being_restored, config_needed, start_failed, StateName, reset_name,
  backup_name, restore_name,
}
use prose_pod_server.Api.State.Transitions.{
  serving, set_state, with_auto_transition, new_state, transition_with, transition_failed,
}
use prose_pod_server.Api.Lifecycle.{
  Environment, reload_frontend, do_reload_frontend, try_reload_frontend, do_reload_backend,
  do_bootstrapping, do_restart_backend, try_bootstrapping,
}
use prose_pod_server.Api.Lifecycle.Reset.{do_init_config}
use prose_pod_server.Api.Lifecycle.Serve.{
  Request, backend_restart, reload, Answer, answered, backend_start_again, backend_start_retry,
  backend_restart_, backend_restart_again, backend_restart_retry, reload_misconfigured, init_config,
}
use prose_pod_server.Api.Lifecycle.Server.{route, serve}
use prose_pod_server.Api.Lifecycle.Domain.{domain_of}
use prose_pod_server.Api.Lifecycle.Invariant.{name_of, view_of}
use prose_pod_server.Api.Lifecycle.Reached.{reached, reached-IsCoherent, reached-not_backup}

-- What an administrator sends: `reload` where the configuration was at fault.
abbrev pub repair : Routes → Request
repair (misconfigured s) = reload
repair (config_needed s) = reload
repair _ = backend_restart

-- Everything works, and the configuration is one that a server of this domain may take.
pub record IsWorking (e : Environment) (domain : Option Text) : Type 0 where
  pub config : AppConfig
  pub operational : Operational
  pub reads : e.from_default_figment ≡ some config
  pub keeps_domain : (d : Text) → domain ≡ some d → config.domain ≡ d
  pub updates : e.updates_tracing ≡ true
  pub boots : (k : AppConfig) → e.bootstrap k ≡ some operational
  pub stops : e.stops ≡ true
  pub reloads : e.reloads ≡ true
  pub loads : e.loads_modules ≡ true

abbrev pub IsOperational : Answer × AppContext → Type 0
IsOperational (a, c) =
    (a ≡ answered (ok tt))
    × ((s : AppState FrontendRunning BackendRunning) × (c.router.routes ≡ operational s))

same_domain : {a b : Text} → a ≡ b → same a b ≡ true
same_domain {a} h = subst (λ b. same a b ≡ true) h (same_refl a)

module _ (e : Environment) (c : AppContext) where
  route-IsOperational :
      (x : Routes)
      → IsWorking e (domain_of x)
      → (view_of x).name ≢ reset_name
      → (view_of x).name ≢ backup_name
      → (view_of x).name ≢ restore_name
      → IsOperational (route e (repair x) x c)
  unfolding backend_start_again backend_start_retry backend_restart_ backend_restart_again
      backend_restart_retry reload_misconfigured init_config do_init_config do_reload_frontend
      try_reload_frontend reload_frontend validate_config_changes do_reload_backend do_bootstrapping
      do_restart_backend try_bootstrapping with_auto_transition new_state transition_with
      transition_failed set_state serving
  route-IsOperational (operational s) w n m k =
      rw (w.stops, w.boots s.frontend.config) (refl, (_, refl))
  route-IsOperational (starting_up s) w n m k = rw (w.boots s.frontend.config) (refl, (_, refl))
  route-IsOperational (being_restarted s) w n m k = rw (w.boots s.frontend.config) (refl, (_, refl))
  route-IsOperational (restart_failed s) w n m k = rw (w.boots s.frontend.config) (refl, (_, refl))
  route-IsOperational (start_failed s) w n m k = rw (w.boots s.frontend.config) (refl, (_, refl))
  route-IsOperational (misconfigured s) w n m k =
      rw
        (
          w.reads,
          same_domain (w.keeps_domain s.frontend.inner.config.domain refl),
          w.updates,
          w.reloads,
          w.loads,
        )
        (refl, (_, refl))
  route-IsOperational (config_needed s) w n m k =
      rw (w.reads, w.updates, w.boots w.config) (refl, (_, refl))
  route-IsOperational (being_reset s) w n m k = absurd (n refl)
  route-IsOperational (being_saved s) w n m k = absurd (m refl)
  route-IsOperational (being_restored s) w n m k = absurd (k refl)

-- No request enters the states of a backup and of a restoration, so they are not reached.
module _ (config : AppConfig) (handles : ℕ) (env : Environment)
    (rs : List (Environment × Request)) where
  reached-name :
      (n : StateName)
      → name_of (reached config handles env rs) ≡ n
      → IsIn n (reached config handles env rs).changes
  reached-name n h =
      subst (λ l. IsIn n l) (sym (reached-IsCoherent config handles env rs).logged) (inl (sym h))

  -- From every context that is reached, except one in which a factory reset has failed or is under
  -- way, one request suffices to be operational, once the rest of the system works again and the
  -- configuration keeps the domain: `reload` where the configuration was at fault, else
  -- `backend_restart`. The answer is a success.
  pub reached_recovers :
      (e : Environment)
      → let c = reached config handles env rs in
        IsWorking e (domain_of c.router.routes)
        → name_of c ≢ reset_name
        → IsOperational (serve e (repair c.router.routes) c)
  unfolding serve
  reached_recovers e w n =
      let c = reached config handles env rs in
      route-IsOperational e c c.router.routes w n
        (λ h. reached-not_backup config handles env rs (inl (reached-name backup_name h)))
        (λ h. reached-not_backup config handles env rs (inr (reached-name restore_name h)))
