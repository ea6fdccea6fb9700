-- ===== src/Api/State/Transitions.antt =====
-- Transitions (api/src/state.rs): the `From` impls of the states, and the operations on `AppState`
-- that convert one and serve it. `Into A B` is `From<A> for B`, on pairs for the fail states.
use prose_pod_server.Common.{List, ◌∷◌}
use prose_pod_server.Api.Errors.{Error}
use prose_pod_server.Api.State.{
  FrontendRunning, FrontendRunningWithMisconfiguration, FrontendMisconfigured, FrontendRestarting,
  BackendStarting, starting, BackendStartFailed, BackendRunning, BackendRestarting, restarting,
  BackendRestartFailed, BackendUndergoingFactoryReset, BackendUndergoingBackup,
  BackendUndergoingRestore, BackendStopped, stopped, HealthTrait, AppState, AppContext, StateName,
  FailState,
}
use prose_pod_server.Api.State.Traits.{AppStateTrait, FrontendStateTrait}

pub record Into (A : Type 0) (B : Type 0) : Type 0 where
  pub into : A → B

-- `impl<T> From<T> for T`
instance abbrev pub itself : {A : Type 0} → Into A A
itself = record { into = λ a. a }

-- `impl_fail_state_from_pair!((S, &Error) use left)`
instance abbrev pub running_fails : Into (FrontendRunning × Error) FrontendRunning
running_fails = record { into = λ p. p.0 }

instance abbrev pub misconfiguration_fails :
    Into (FrontendRunningWithMisconfiguration × Error) FrontendRunningWithMisconfiguration
misconfiguration_fails = record { into = λ p. p.0 }

instance abbrev pub misconfigured_of :
    {F : Type 0} ⦃s : FrontendStateTrait F⦄ → Into (F × Error) FrontendMisconfigured
misconfigured_of ⦃s⦄ = record {
  into = λ p. record { error = p.1; tracing_reload_handles = s.handles p.0 };
}

instance abbrev pub misconfiguration_of :
    Into (FrontendRunning × Error) FrontendRunningWithMisconfiguration
misconfiguration_of = record { into = λ p. record { inner = p.0; error = p.1 } }

instance abbrev pub misconfiguration_to_running :
    Into FrontendRunningWithMisconfiguration FrontendRunning
misconfiguration_to_running = record { into = λ f. f.inner }

instance abbrev pub running_to_restarting : Into FrontendRunning FrontendRestarting
running_to_restarting = record {
  into = λ f. record { tracing_reload_handles = f.tracing_reload_handles };
}

instance abbrev pub misconfiguration_to_restarting :
    Into FrontendRunningWithMisconfiguration FrontendRestarting
misconfiguration_to_restarting = record {
  into = λ f. record { tracing_reload_handles = f.inner.tracing_reload_handles };
}

instance abbrev pub misconfigured_to_restarting : Into FrontendMisconfigured FrontendRestarting
misconfigured_to_restarting = record {
  into = λ f. record { tracing_reload_handles = f.tracing_reload_handles };
}

instance abbrev pub starting_fails : Into (BackendStarting × Error) BackendStartFailed
starting_fails = record { into = λ p. record { error = p.1 } }

instance abbrev pub backend_running_fails : Into (BackendRunning × Error) BackendRunning
backend_running_fails = record { into = λ p. p.0 }

instance abbrev pub restarting_fails : Into (BackendRestarting × Error) BackendRestartFailed
restarting_fails = record { into = λ p. record { error = p.1 } }

instance abbrev pub restart_failed_to_restarting : Into BackendRestartFailed BackendRestarting
restart_failed_to_restarting = record { into = λ _. restarting }

instance abbrev pub stopped_to_starting : Into BackendStopped BackendStarting
stopped_to_starting = record { into = λ _. starting }

instance abbrev pub stopped_to_restarting : Into BackendStopped BackendRestarting
stopped_to_restarting = record { into = λ _. restarting }

instance abbrev pub stopped_fails : Into (BackendStopped × Error) BackendStopped
stopped_fails = record { into = λ p. p.0 }

instance abbrev pub start_failed_to_starting : Into BackendStartFailed BackendStarting
start_failed_to_starting = record { into = λ _. starting }

instance abbrev pub reset_to_stopped : Into BackendUndergoingFactoryReset BackendStopped
reset_to_stopped = record { into = λ _. stopped }

instance abbrev pub reset_to_starting : Into BackendUndergoingFactoryReset BackendStarting
reset_to_starting = record { into = λ _. starting }

instance abbrev pub reset_fails : Into (BackendUndergoingFactoryReset × Error) BackendStopped
reset_fails = record { into = λ _. stopped }

instance abbrev pub backup_to_restarting : Into BackendUndergoingBackup BackendRestarting
backup_to_restarting = record { into = λ _. restarting }

instance abbrev pub restore_to_stopped : Into BackendUndergoingRestore BackendStopped
restore_to_stopped = record { into = λ _. stopped }

instance abbrev pub restore_to_restarting : Into BackendUndergoingRestore BackendRestarting
restore_to_restarting = record { into = λ _. restarting }

instance abbrev pub restore_fails : Into (BackendUndergoingRestore × Error) BackendStopped
restore_fails = record { into = λ _. stopped }

-- `impl_trivial_transition!` with the unit as its data
instance abbrev pub reset_to_stopped_unit :
    Into (BackendUndergoingFactoryReset × Unit {0}) BackendStopped
reset_to_stopped_unit = record { into = λ _. stopped }

abbrev pub with_error : {F B : Type 0} → AppState F B → Error → FailState F B
with_error s e = record { state = s; error = e }

abbrev pub with_frontend : {F B F' : Type 0} → F' → AppState F B → AppState F' B
with_frontend f s = record { frontend = f; backend = s.backend }

abbrev pub with_backend : {F B B' : Type 0} → B' → AppState F B → AppState F B'
with_backend b s = record { frontend = s.frontend; backend = b }

-- The parameters are the state that is served in the end.
module _ {F B : Type 0} ⦃f : HealthTrait F⦄ ⦃b : HealthTrait B⦄ ⦃a : AppStateTrait F B⦄ where
  -- The context in which a state is served, after the changes logged before.
  unfoldable pub serving : AppState F B → List StateName → AppContext
  serving s changes = record {
    router = record {
      frontend_health = f.health s.frontend;
      backend_health = b.health s.backend;
      routes = a.into_router s;
    };
    prosody = a.prosody_weak s;
    changes = a.state_name ∷ changes;
  }

  -- `AppContext::set_state`
  unfoldable pub set_state : AppState F B → AppContext → AppContext
  set_state s c = serving s c.changes

  -- `AppContext::new_state`
  unfoldable pub new_state : AppState F B → AppContext → AppState F B × AppContext
  new_state s c = (s, set_state s c)

  unfoldable pub with_auto_transition :
      {F' B' : Type 0} ⦃i : Into F' F⦄ ⦃j : Into B' B⦄
      → AppState F' B'
      → AppContext
      → AppState F B × AppContext
  with_auto_transition ⦃i⦄ ⦃j⦄ s c =
      new_state (record { frontend = i.into s.frontend; backend = j.into s.backend }) c

  -- `TransitionWith::transition_with`
  unfoldable pub transition_with :
      {F' B' FData BData : Type 0} ⦃i : Into (F' × FData) F⦄ ⦃j : Into (B' × BData) B⦄
      → AppState F' B'
      → FData × BData
      → AppContext
      → AppState F B × AppContext
  transition_with ⦃i⦄ ⦃j⦄ s (x, y) c =
      new_state (record { frontend = i.into (s.frontend, x); backend = j.into (s.backend, y) }) c

  unfoldable pub transition_failed :
      {F' B' : Type 0} ⦃i : Into (F' × Error) F⦄ ⦃j : Into (B' × Error) B⦄
      → AppState F' B'
      → Error
      → AppContext
      → FailState F B × AppContext
  transition_failed s e c = let (t, c') = transition_with s (e, e) c in (with_error t e, c')
