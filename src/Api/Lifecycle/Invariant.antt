-- ===== src/Api/Lifecycle/Invariant.antt =====
-- What holds of a context between two requests: the log has no changes but those of the diagram, and
-- the handle on Prosody and the health routes are those of the state that is served.
use prose_pod_server.Common.{ℕ, ◌≡◌, refl, sym, ap, subst, Option, List, ◌∷◌}
use prose_pod_server.Api.State.{
  FrontendRunning, FrontendRunningWithMisconfiguration, FrontendMisconfigured, FrontendRestarting,
  BackendStarting, BackendStartFailed, BackendRunning, BackendRestarting, BackendRestartFailed,
  BackendUndergoingFactoryReset, BackendStopped, HealthTrait, AppState, Routes, operational,
  starting_up, being_restarted, restart_failed, misconfigured, being_reset, being_saved,
  being_restored, config_needed, start_failed, AppContext, StateName, Health, running_health,
  stopped_health, starting_health, start_failed_health, restarting_health, restart_failed_health,
  factory_reset_health, backup_health, restore_health, frontend_running_health,
  misconfiguration_health, misconfigured_health, frontend_restarting_health,
}
use prose_pod_server.Api.State.Traits.{
  AppStateTrait, operational_state, starting_state, restarting_state, restart_failed_state,
  misconfigured_state, reset_state, backup_state, restore_state, config_needed_state,
  start_failed_state,
}
use prose_pod_server.Api.State.Transitions.{serving, set_state}
use prose_pod_server.Api.Lifecycle.Diagram.{◌⇒◌, IsPath}

-- What the server shows of a state.
pub record View : Type 0 where
  pub name : StateName
  pub prosody : Option ℕ
  pub frontend : Health
  pub backend : Health

module _ {F B : Type 0} ⦃f : HealthTrait F⦄ ⦃b : HealthTrait B⦄ ⦃a : AppStateTrait F B⦄ where
  abbrev pub view : AppState F B → View
  view s = record {
    name = a.state_name;
    prosody = a.prosody_weak s;
    frontend = f.health s.frontend;
    backend = b.health s.backend;
  }

-- The view of the state in a router.
abbrev pub view_of : Routes → View
view_of (operational s) = view s
view_of (starting_up s) = view s
view_of (being_restarted s) = view s
view_of (restart_failed s) = view s
view_of (misconfigured s) = view s
view_of (being_reset s) = view s
view_of (being_saved s) = view s
view_of (being_restored s) = view s
view_of (config_needed s) = view s
view_of (start_failed s) = view s

abbrev pub name_of : AppContext → StateName
name_of c = (view_of c.router.routes).name

pub record IsCoherent (c : AppContext) : Type 0 where
  pub earlier : List StateName
  pub logged : c.changes ≡ name_of c ∷ earlier
  pub follows : IsPath c.changes
  pub prosody_handle : c.prosody ≡ (view_of c.router.routes).prosody
  pub frontend_health : c.router.frontend_health ≡ (view_of c.router.routes).frontend
  pub backend_health : c.router.backend_health ≡ (view_of c.router.routes).backend

-- The law of a state: its router shows its own view.
pub record LawfulState (F : Type 0) (B : Type 0) ⦃f : HealthTrait F⦄ ⦃b : HealthTrait B⦄
    ⦃a : AppStateTrait F B⦄ : Type 0 where
  pub shows : (s : AppState F B) → view_of (a.into_router s) ≡ view s

instance abbrev pub operational_law : LawfulState FrontendRunning BackendRunning
operational_law = record { shows = λ s. refl }

instance abbrev pub starting_law : LawfulState FrontendRunning BackendStarting
starting_law = record { shows = λ s. refl }

instance abbrev pub restarting_law : LawfulState FrontendRunning BackendRestarting
restarting_law = record { shows = λ s. refl }

instance abbrev pub restart_failed_law : LawfulState FrontendRunning BackendRestartFailed
restart_failed_law = record { shows = λ s. refl }

instance abbrev pub misconfigured_law :
    LawfulState FrontendRunningWithMisconfiguration BackendRunning
misconfigured_law = record { shows = λ s. refl }

instance abbrev pub reset_law : LawfulState FrontendRestarting BackendUndergoingFactoryReset
reset_law = record { shows = λ s. refl }

instance abbrev pub config_needed_law : LawfulState FrontendMisconfigured BackendStopped
config_needed_law = record { shows = λ s. refl }

instance abbrev pub start_failed_law : LawfulState FrontendRunning BackendStartFailed
start_failed_law = record { shows = λ s. refl }

-- A change along the diagram keeps the context coherent.
pub set_state-IsCoherent :
    {F B : Type 0} ⦃f : HealthTrait F⦄ ⦃b : HealthTrait B⦄ ⦃a : AppStateTrait F B⦄
    ⦃l : LawfulState F B⦄ (s : AppState F B) (c : AppContext)
    → name_of c ⇒ a.state_name
    → IsCoherent c
    → IsCoherent (set_state s c)
unfolding set_state serving
set_state-IsCoherent ⦃l⦄ s c edge h = record {
  earlier = c.changes;
  logged = ap (λ v. v.name ∷ c.changes) (sym (l.shows s));
  follows = rw h.logged (edge, subst (λ l. IsPath l) h.logged h.follows);
  prosody_handle = ap (λ v. v.prosody) (sym (l.shows s));
  frontend_health = ap (λ v. v.frontend) (sym (l.shows s));
  backend_health = ap (λ v. v.backend) (sym (l.shows s));
}

pub name_of-set_state :
    {F B : Type 0} ⦃f : HealthTrait F⦄ ⦃b : HealthTrait B⦄ ⦃a : AppStateTrait F B⦄
    ⦃l : LawfulState F B⦄ (s : AppState F B) (c : AppContext)
    → name_of (set_state s c) ≡ a.state_name
unfolding set_state serving
name_of-set_state ⦃l⦄ s c = ap (λ v. v.name) (l.shows s)

-- A second change, from the state of the first.
pub set_state_again :
    {F B F' B' : Type 0} ⦃f : HealthTrait F⦄ ⦃b : HealthTrait B⦄ ⦃a : AppStateTrait F B⦄
    ⦃l : LawfulState F B⦄ ⦃f' : HealthTrait F'⦄ ⦃b' : HealthTrait B'⦄ ⦃a' : AppStateTrait F' B'⦄
    ⦃l' : LawfulState F' B'⦄ (s : AppState F B) (t : AppState F' B') (c : AppContext)
    → a.state_name ⇒ a'.state_name
    → IsCoherent (set_state s c)
    → IsCoherent (set_state t (set_state s c))
set_state_again s t c edge h =
    set_state-IsCoherent t (set_state s c) (rw (name_of-set_state s c) edge) h
