-- ===== src/Api/Lifecycle/Reached.antt =====
-- What holds of every context that the server reaches: it starts, then serves any requests, each
-- under any answers of the rest of the system.
use prose_pod_server.Common.{
  ℕ, ◌≡◌, refl, sym, subst, ◌↔◌, Option-cases, some, List, [], ◌∷◌, inl, inr, ◌⊎◌,
}
use prose_pod_server.Common.Members.{IsIn}
use prose_pod_server.Api.State.{
  AppConfig, AppState, FrontendRunning, BackendStarting, starting_name, AppContext, Routes,
  operational, misconfigured, healthy, StateName, backup_name, restore_name,
  frontend_running_health, running_health, starting_health,
}
use prose_pod_server.Api.State.Traits.{operational_state, starting_state}
use prose_pod_server.Api.State.Transitions.{serving, with_auto_transition, new_state}
use prose_pod_server.Api.Lifecycle.{Environment, try_bootstrapping}
use prose_pod_server.Api.Lifecycle.Diagram.{◌⇒◌, documented, IsPath, booted}
use prose_pod_server.Api.Lifecycle.Serve.{Request}
use prose_pod_server.Api.Lifecycle.Server.{serve, startup_app_state, main_inner, startup, run}
use prose_pod_server.Api.Lifecycle.Invariant.{
  IsCoherent, view_of, name_of, set_state-IsCoherent, operational_law,
}
use prose_pod_server.Api.Lifecycle.Coherent.{serve-IsCoherent}

run-IsCoherent :
    (rs : List (Environment × Request)) (c : AppContext) → IsCoherent c → IsCoherent (run rs c)
unfolding run
run-IsCoherent [] c h = h
run-IsCoherent ((e, r) ∷ rs) c h = run-IsCoherent rs (serve e r c).1 (serve-IsCoherent e c r h)

main_inner-IsCoherent : (config : AppConfig) (handles : ℕ) → IsCoherent (main_inner config handles)
unfolding main_inner serving
main_inner-IsCoherent config handles = record {
  earlier = [];
  logged = refl;
  follows = refl;
  prosody_handle = refl;
  frontend_health = refl;
  backend_health = refl;
}

startup-IsCoherent :
    (e : Environment) (s : AppState FrontendRunning BackendStarting) (c : AppContext)
    → name_of c ≡ starting_name
    → IsCoherent c
    → IsCoherent (startup e s c).1
unfolding startup try_bootstrapping with_auto_transition new_state
startup-IsCoherent e s c n h = elim (Option-cases (e.bootstrap s.frontend.config)) [
  | inl p ↦ rw p h
  | inr (o, p) ↦ rw p (set_state-IsCoherent _ c (rw n (documented booted)) h)
]

main_inner_starting :
    (config : AppConfig) (handles : ℕ) → name_of (main_inner config handles) ≡ starting_name
unfolding main_inner serving
main_inner_starting config handles = refl

-- The context after the start-up and the requests.
abbrev pub reached :
    AppConfig → (handles : ℕ) → Environment → List (Environment × Request) → AppContext
reached config handles e rs =
    run rs (startup e (startup_app_state config handles) (main_inner config handles)).1

-- `/health` is good exactly where the handle on Prosody is kept.
view_of-healthy :
    (x : Routes) → ((view_of x).backend ≡ healthy) ↔ ((p : ℕ) × ((view_of x).prosody ≡ some p))
view_of-healthy (operational s) = (λ _. (s.backend.state.prosody, refl), λ _. refl)
view_of-healthy (misconfigured s) = (λ _. (s.backend.state.prosody, refl), λ _. refl)
view_of-healthy _ = (λ h. cc, λ h. cc)

-- No change enters the states of a backup and of a restoration.
not_into_backup : {x : StateName} → ¬ (x ⇒ backup_name)
not_into_backup (documented e) = elim e [ ]

not_into_restore : {x : StateName} → ¬ (x ⇒ restore_name)
not_into_restore (documented e) = elim e [ ]

IsPath-not_backup : (l : List StateName) → IsPath l → ¬ (IsIn backup_name l ⊎ IsIn restore_name l)
IsPath-not_backup [] h k = absurd h
IsPath-not_backup (x ∷ []) h (inl (inl q)) = cc
IsPath-not_backup (x ∷ []) h (inr (inl q)) = cc
IsPath-not_backup (x ∷ []) h (inl (inr q)) = absurd q
IsPath-not_backup (x ∷ []) h (inr (inr q)) = absurd q
IsPath-not_backup (y ∷ x ∷ l) h (inl (inl q)) = not_into_backup (subst (λ n. x ⇒ n) (sym q) h.0)
IsPath-not_backup (y ∷ x ∷ l) h (inr (inl q)) = not_into_restore (subst (λ n. x ⇒ n) (sym q) h.0)
IsPath-not_backup (y ∷ x ∷ l) h (inl (inr q)) = IsPath-not_backup (x ∷ l) h.1 (inl q)
IsPath-not_backup (y ∷ x ∷ l) h (inr (inr q)) = IsPath-not_backup (x ∷ l) h.1 (inr q)

module _ (config : AppConfig) (handles : ℕ) (e : Environment)
    (rs : List (Environment × Request)) where
  pub reached-IsCoherent : IsCoherent (reached config handles e rs)
  reached-IsCoherent = run-IsCoherent rs _ (
      startup-IsCoherent e (startup_app_state config handles) (main_inner config handles)
        (main_inner_starting config handles) (main_inner-IsCoherent config handles))

  -- In the log of every context that is reached, the first change is to `starting_name`, and each
  -- change after it is a documented one, except that `starting_name` and `restarting_name` can each be
  -- set once more while they last, which neither the state diagram nor the comments on
  -- `set_backend_starting` and `set_backend_restarting` have.
  pub reached-IsPath : IsPath (reached config handles e rs).changes
  reached-IsPath = reached-IsCoherent.follows

  -- In every context that is reached, `/health` is good exactly if the context holds a handle on
  -- Prosody, which is what a shutdown stops.
  pub reached-healthy_iff :
      ((reached config handles e rs).router.backend_health ≡ healthy)
      ↔ ((p : ℕ) × ((reached config handles e rs).prosody ≡ some p))
  reached-healthy_iff =
      let h = reached-IsCoherent in
      rw (h.backend_health, h.prosody_handle)
        (view_of-healthy (reached config handles e rs).router.routes)

  -- The states of a backup and of a restoration are never served, not even while one runs.
  pub reached-not_backup : ¬ (
      IsIn backup_name (reached config handles e rs).changes
      ⊎ IsIn restore_name (reached config handles e rs).changes)
  reached-not_backup = IsPath-not_backup _ reached-IsPath
