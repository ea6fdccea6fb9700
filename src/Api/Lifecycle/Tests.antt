-- ===== src/Api/Lifecycle/Tests.antt =====
-- The life cycle of a server on concrete answers.
use prose_pod_server.Common.{
  ℕ, ◌≡◌, refl, ◌↔◌, true, false, none, some, List, [], ◌∷◌, ◌⊎◌, text, text_dec,
}
use prose_pod_server.Common.Members.{IsIn}
use prose_pod_server.Common.Results.{ok}
use prose_pod_server.Api.State.{
  AppConfig, validate_config_changes, FrontendRunning, BackendRunning, AppState, AppContext,
  starting_name, operational_name, restarting_name, misconfigured_name, reset_name,
  restart_failed_name, config_needed_name, backup_name, restore_name, healthy,
}
use prose_pod_server.Api.State.Transitions.{
  serving, set_state, with_auto_transition, new_state, transition_with, transition_failed,
}
use prose_pod_server.Api.Lifecycle.{
  Environment, do_reload_backend, do_reload_frontend, try_reload_frontend, reload_frontend,
  do_bootstrapping, do_restart_backend, try_bootstrapping,
}
use prose_pod_server.Api.Lifecycle.Reset.{factory_reset, do_factory_reset, erase}
use prose_pod_server.Api.Lifecycle.Diagram.{IsPath}
use prose_pod_server.Api.Lifecycle.Serve.{
  Request, backend_restart, frontend_reload, reload, factory_reset as reset_request, post_backups,
  backend_restart_retry, reload_misconfigured, frontend_reload_, factory_reset_,
}
use prose_pod_server.Api.Lifecycle.Server.{
  post_backups_, post_backups_all, serve, startup_app_state, main_inner, startup, run,
}
use prose_pod_server.Api.Lifecycle.Reached.{
  reached, reached-IsPath, reached-healthy_iff, reached-not_backup,
}
use prose_pod_server.Api.Lifecycle.Domain.{HasDomain}
use prose_pod_server.Api.Lifecycle.Domain.Kept.{run-HasDomain}
use prose_pod_server.Api.Lifecycle.Failures.{failed_reset_stays}
use prose_pod_server.Api.Lifecycle.Reload.{reload-healthy}
use prose_pod_server.Api.Lifecycle.Recovery.{IsOperational, repair, reached_recovers}

abbrev example_config : AppConfig
example_config = record { domain = text "a.org"; rest = 0 }

-- Everything works, in a server with backups.
abbrev working : Environment
working = record {
  from_default_figment = some (record { domain = text "a.org"; rest = 1 });
  updates_tracing = true;
  bootstrap = λ config. some (record { prosody = 0; has_backup_service = true });
  stops = true;
  reloads = true;
  loads_modules = true;
  paths_config = some (text "/etc/prosody");
  paths_data = some (text "/var/lib/prosody");
  empties = λ path. true;
  resets_config_file = true;
  creates_backup = ok tt;
  restores_backup = ok tt;
}

-- The configuration is broken, and Prosody does not start.
abbrev broken : Environment
broken = record working { from_default_figment = none; bootstrap = λ config. none }

abbrev half_erased : Environment
half_erased = record working { resets_config_file = false }

-- A backup after which Prosody does not start, a restart, a bad reload and a factory reset.
abbrev some_requests : List (Environment × Request)
some_requests =
    (broken, post_backups true true true)
    ∷ (working, backend_restart)
    ∷ (broken, frontend_reload)
    ∷ (working, reload)
    ∷ (broken, reset_request)
    ∷ []

abbrev safe_requests : List (Environment × Request)
safe_requests =
    (broken, post_backups true true true)
    ∷ (working, backend_restart)
    ∷ (broken, frontend_reload)
    ∷ (
      record working { from_default_figment = some (record { domain = text "b.org"; rest = 0 }) },
      reload,
    )
    ∷ []

abbrev running_state : AppState FrontendRunning BackendRunning
running_state = record {
  frontend = record { config = example_config; tracing_reload_handles = 7 };
  backend = record { state = record { prosody = 0; has_backup_service = true } };
}

abbrev running_context : AppContext
running_context =
    (startup working (startup_app_state example_config 7) (main_inner example_config 7)).1

-- The log of the requests above, the last change first.
changes_test :
    (reached example_config 7 working some_requests).changes
    ≡ config_needed_name ∷ reset_name ∷ operational_name ∷ operational_name ∷ misconfigured_name
      ∷ operational_name ∷ restarting_name ∷ restarting_name ∷ restart_failed_name ∷ restarting_name
      ∷ operational_name ∷ starting_name ∷ []
unfolding run serve startup main_inner startup_app_state try_bootstrapping with_auto_transition
    new_state set_state serving post_backups_all post_backups_ do_restart_backend do_bootstrapping
    frontend_reload_ do_reload_frontend try_reload_frontend reload_frontend transition_failed
    transition_with factory_reset_ do_factory_reset factory_reset erase do_reload_backend
    backend_restart_retry reload_misconfigured validate_config_changes text_dec
changes_test = refl

reached-IsPath_example : IsPath (reached example_config 7 working some_requests).changes
reached-IsPath_example = reached-IsPath example_config 7 working some_requests

reached-healthy_iff_example :
    ((reached example_config 7 working some_requests).router.backend_health ≡ healthy)
    ↔ ((p : ℕ) × ((reached example_config 7 working some_requests).prosody ≡ some p))
reached-healthy_iff_example = reached-healthy_iff example_config 7 working some_requests

reached-not_backup_example : ¬ (
    IsIn backup_name (reached example_config 7 working some_requests).changes
    ⊎ IsIn restore_name (reached example_config 7 working some_requests).changes)
reached-not_backup_example = reached-not_backup example_config 7 working some_requests

run-HasDomain_example : HasDomain (text "a.org") (run safe_requests running_context)
unfolding startup main_inner startup_app_state try_bootstrapping with_auto_transition new_state
    set_state serving
run-HasDomain_example =
    run-HasDomain (text "a.org") safe_requests running_context
      (λ h. cc, (λ h. cc, (λ h. cc, (λ h. cc, tt)))) refl

reload-healthy_example :
    (serve broken reload (reached example_config 7 working [])).1.router.frontend_health ≡ healthy
unfolding startup main_inner startup_app_state try_bootstrapping with_auto_transition new_state
    set_state serving run
reload-healthy_example = reload-healthy example_config 7 working broken [] refl

failed_reset_stays_example :
    run some_requests (serve half_erased reset_request running_context).1
    ≡ (serve half_erased reset_request running_context).1
unfolding startup main_inner startup_app_state try_bootstrapping with_auto_transition new_state
    set_state serving factory_reset erase
failed_reset_stays_example =
    failed_reset_stays half_erased running_context running_state some_requests refl refl

reached_recovers_example : IsOperational (
    serve working
      (repair (reached example_config 7 working some_requests).router.routes)
      (reached example_config 7 working some_requests))
unfolding run serve startup main_inner startup_app_state try_bootstrapping with_auto_transition
    new_state set_state serving post_backups_all post_backups_ do_restart_backend do_bootstrapping
    frontend_reload_ do_reload_frontend try_reload_frontend reload_frontend transition_failed
    transition_with factory_reset_ do_factory_reset factory_reset erase do_reload_backend
    backend_restart_retry reload_misconfigured validate_config_changes text_dec
reached_recovers_example =
    reached_recovers example_config 7 working some_requests working
      (record {
        config = record { domain = text "a.org"; rest = 1 };
        operational = record { prosody = 0; has_backup_service = true };
        reads = refl;
        keeps_domain = λ d h. cc;
        updates = refl;
        boots = λ k. refl;
        stops = refl;
        reloads = refl;
        loads = refl;
      })
      (λ h. cc)
