-- ===== src/Api/Lifecycle/Diagram.antt =====
-- The changes of state that are documented: those that the state diagram of api/docs draws
-- (state-machine.md), and those in the comments on `do_restart_backend`, `set_backend_restarting`,
-- `set_backend_starting`, `do_reload_frontend`, `do_reload_backend`, `do_bootstrapping` and
-- `do_factory_reset`. Beside them, the two repetitions of a state that the
-- diagram and the comments on `set_backend_starting` and `set_backend_restarting` do not have.
use prose_pod_server.Common.{List, [], ◌∷◌, ◌≡◌}
use prose_pod_server.Api.State.{
  StateName, operational_name, starting_name, restarting_name, restart_failed_name,
  misconfigured_name, reset_name, config_needed_name, start_failed_name,
}

infix 40 ◌⟶◌
pub data ◌⟶◌ : StateName → StateName → Type 0 where
  booted : starting_name ⟶ operational_name
  boot_failed : starting_name ⟶ start_failed_name
  boot_again : start_failed_name ⟶ starting_name
  restart : operational_name ⟶ restarting_name
  restart_retry : restart_failed_name ⟶ restarting_name
  restarted : restarting_name ⟶ operational_name
  restart_fails : restarting_name ⟶ restart_failed_name
  reloaded : operational_name ⟶ operational_name
  bad_configuration : operational_name ⟶ misconfigured_name
  still_bad : misconfigured_name ⟶ misconfigured_name
  repaired : misconfigured_name ⟶ operational_name
  reset : operational_name ⟶ reset_name
  configured_by_env : reset_name ⟶ starting_name
  needs_config : reset_name ⟶ config_needed_name
  still_needs_config : config_needed_name ⟶ config_needed_name
  configured : config_needed_name ⟶ starting_name

-- A change of the code's: a documented one, or the state is set once more, by
-- `set_backend_starting` and the conversion before it where the configuration is given, and by
-- `set_backend_restarting` where a restart is requested during or after another one.
infix 40 ◌⇒◌
pub data ◌⇒◌ : StateName → StateName → Type 0 where
  documented : {x y : StateName} → x ⟶ y → x ⇒ y
  starting_again : starting_name ⇒ starting_name
  restarting_again : restarting_name ⇒ restarting_name

-- A log, the last change first, that starts with the start-up and has no other changes.
abbrev pub IsPath : List StateName → Type 0
IsPath [] = ⊥
IsPath (x ∷ []) = x ≡ starting_name
IsPath (y ∷ x ∷ l) = (x ⇒ y) × IsPath (x ∷ l)
