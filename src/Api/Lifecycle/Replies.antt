-- ===== src/Api/Lifecycle/Replies.antt =====
-- What builds an answer from the result of an operation keeps the context.
use prose_pod_server.Common.{Bool, true, false, if◌then◌else◌}
use prose_pod_server.Common.Results.{Result, ok, err, panicked, e1, e2}
use prose_pod_server.Api.State.{BackendRunning, FrontendRunning, AppState, AppContext, FailState}
use prose_pod_server.Api.Lifecycle.{Environment, do_reload_backend}
use prose_pod_server.Api.Lifecycle.Reset.{Booted, Configured, ResetDone, second_error, second_both}
use prose_pod_server.Api.Lifecycle.Serve.{Served, reply, then_reload_backend, on_init, on_reset}

module _ (P : AppContext → Type 0) where
  pub reply-keeps :
      {F B S : Type 0} (x : Result (FailState F B) S × AppContext) → P x.1 → P (reply x).1
  reply-keeps (ok s, c) h = h
  reply-keeps (err f, c) h = h
  reply-keeps (panicked, c) h = h

  pub then_reload_backend-keeps :
      {F : Type 0} (e : Environment)
      (x : Result (FailState F BackendRunning) (AppState FrontendRunning BackendRunning)
        × AppContext)
      → P x.1
      → P (then_reload_backend e x).1
  then_reload_backend-keeps e (ok s, c) h = reply-keeps (do_reload_backend e s, c) h
  then_reload_backend-keeps e (err f, c) h = h
  then_reload_backend-keeps e (panicked, c) h = h

  pub on_init-keeps : (x : Configured) → P x.1 → P (on_init x).1
  on_init-keeps (ok s, c) h = h
  on_init-keeps (err (e1 f), c) h = h
  on_init-keeps (err (e2 f), c) h = h
  on_init-keeps (panicked, c) h = h

  pub on_reset-keeps : (x : ResetDone) → P x.1 → P (on_reset x).1
  on_reset-keeps (ok s, c) h = h
  on_reset-keeps (err (e1 f), c) h = h
  on_reset-keeps (err (e2 f), c) h = h
  on_reset-keeps (panicked, c) h = h

  pub second_error-keeps : (x : Booted) → P x.1 → P (second_error x).1
  second_error-keeps (ok s, c) h = h
  second_error-keeps (err f, c) h = h
  second_error-keeps (panicked, c) h = h

  pub second_both-keeps : (x : Booted) → P x.1 → P (second_both x).1
  second_both-keeps (ok s, c) h = h
  second_both-keeps (err f, c) h = h
  second_both-keeps (panicked, c) h = h

  pub guard-keeps : (b : Bool) (x y : Served) → P x.1 → P y.1 → P (if b then x else y).1
  guard-keeps true x y h k = h
  guard-keeps false x y h k = k
