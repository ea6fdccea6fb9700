-- ===== src/Api/Shell/Operations.antt =====
-- The operations of the shell (api/crates/prosodyctl/src/prosody_shell.rs), over a shell in some
-- state that answers a command. An operation that fails sends no further command.
use prose_pod_server.Common.{
  Bool, true, false, Option, List, [], ◌∷◌, Text, text, same, length, ◌-◌, take, drop, ends_with,
  if◌then◌else◌,
}
use prose_pod_server.Common.Results.{Result, ok, err, panicked, map_err}
use prose_pod_server.Api.Shell.{ShellError, message, host_missing, module_missing, ProsodyResponse}
use prose_pod_server.Api.Shell.Readings.{
  result_unit, result_bool, result_bool_expecting, result_string_array, InviteRow, invite_rows,
}
use prose_pod_server.Api.Shell.Commands.{
  groups_add_member_command, groups_create_command, groups_exists_command, groups_sync_command,
  host_exists_command, invite_list_command, module_is_loaded_command, module_list_command,
  module_list_enabled_command, module_load_command, module_load_modules_for_host_command,
  module_reload_command, module_unload_command, user_create_command, user_delete_command,
  user_disable_command, user_enable_command, user_exists_command, user_get_jids_with_role_command,
  user_list_command, user_password_command, user_role_command, user_set_role_command,
}

abbrev pub Shell : Type 0 → Type 0 → Type 0
Shell σ A = σ → Result ShellError A × σ

abbrev pub then_run :
    {σ A B : Type 0} → Result ShellError A × σ → (A → Shell σ B) → Result ShellError B × σ
then_run (ok a, s) f = f a s
then_run (err e, s) f = (err e, s)
then_run (panicked, s) f = (panicked, s)

infixl 5 ◌>>=◌
abbrev pub ◌>>=◌ : {σ A B : Type 0} → Shell σ A → (A → Shell σ B) → Shell σ B
(m >>= f) s = then_run (m s) f

abbrev pub of : {σ A : Type 0} → Result ShellError A → Shell σ A
of r s = (r, s)

abbrev pub pure : {σ A : Type 0} → A → Shell σ A
pure a s = (ok a, s)

abbrev pub summary : ProsodyResponse → Result ShellError Text
summary r = map_err message r.result

abbrev pub without_suffix : Text → Text
without_suffix role =
    if ends_with role (text " (primary)") then take (length role - 10) role else role

abbrev pub primary : Result ShellError Text → Result ShellError Text
primary (ok role) = ok (without_suffix role)
primary (err e) = err e
primary panicked = panicked

pub data UserCreateError : Type 0 where
  conflict : UserCreateError
  internal : ShellError → UserCreateError

-- `From<String>`
unfoldable pub created : ProsodyResponse → Result UserCreateError Text
created r =
    map_err (λ e. if same e (text "User exists") then conflict else internal (message e)) r.result

abbrev pub on_created :
    {σ : Type 0} → Result ShellError ProsodyResponse × σ → Result UserCreateError Text × σ
on_created (ok r, s) = (created r, s)
on_created (err e, s) = (err (internal e), s)
on_created (panicked, s) = (panicked, s)

module _ {σ : Type 0} (exec : Text → Shell σ ProsodyResponse) where
  unfoldable pub user_create : Text → Text → Option Text → σ → Result UserCreateError Text × σ
  user_create jid password role s = on_created (exec (user_create_command jid password role) s)

  unfoldable pub prosody_paths_config : Shell σ Text
  prosody_paths_config = do r ← exec (text "> prosody.paths.config"); of (summary r)

  unfoldable pub prosody_paths_data : Shell σ Text
  prosody_paths_data = do r ← exec (text "> prosody.paths.data"); of (summary r)

  unfoldable pub host_exists : Text → Shell σ Bool
  host_exists host = do r ← exec (host_exists_command host); of (result_bool r)

  unfoldable pub user_list : (domain : Text) → (pattern : Option Text) → Shell σ (List Text)
  user_list domain pattern = do r ← exec (user_list_command domain pattern); pure r.lines

  unfoldable pub user_password : (jid password : Text) → Shell σ (Text)
  user_password jid password = do r ← exec (user_password_command jid password); of (summary r)

  unfoldable pub user_role : (jid : Text) → (host : Option Text) → Shell σ (Text)
  user_role jid host = do r ← exec (user_role_command jid host); of (primary (summary r))

  unfoldable pub user_set_role :
      (jid : Text) → (host : Option Text) → (new_role : Text) → Shell σ (Text)
  user_set_role jid host new_role = do
    r ← exec (user_set_role_command jid host new_role)
    of (summary r)

  unfoldable pub user_disable : (jid : Text) → Shell σ (Text)
  user_disable jid = do r ← exec (user_disable_command jid); of (summary r)

  unfoldable pub user_enable : (jid : Text) → Shell σ (Text)
  user_enable jid = do r ← exec (user_enable_command jid); of (summary r)

  unfoldable pub user_delete : (jid : Text) → Shell σ (Text)
  user_delete jid = do r ← exec (user_delete_command jid); of (summary r)

  unfoldable pub module_load : (name : Text) → (host : Option Text) → Shell σ (Text)
  module_load name host = do r ← exec (module_load_command name host); of (summary r)

  unfoldable pub module_unload : (name : Text) → (host : Option Text) → Shell σ (Text)
  module_unload name host = do r ← exec (module_unload_command name host); of (summary r)

  unfoldable pub module_reload : (name : Text) → (host : Option Text) → Shell σ (Text)
  module_reload name host = do r ← exec (module_reload_command name host); of (summary r)

  -- Goes on if the test gives `true`.
  abbrev pub if_true : {A : Type 0} → Bool → ShellError → Shell σ A → Shell σ A
  if_true true e m = m
  if_true false e m = of (err e)

  unfoldable pub user_exists : (username host : Text) → Shell σ Bool
  user_exists username host = do
    exists ← host_exists host
    if_true exists host_missing (do
      r ← exec (user_exists_command username host)
      of (result_bool_expecting r (text "Auth failed. Invalid username" ∷ [])))

  unfoldable pub user_get_jids_with_role : (host role_name : Text) → Shell σ (List Text)
  user_get_jids_with_role host role_name = do
    exists ← host_exists host
    if_true exists host_missing
        (do r ← exec (user_get_jids_with_role_command host role_name); of (result_string_array r))

  -- `host != "*" && !self.host_exists(host)`
  abbrev pub any_host_exists : Text → Shell σ Bool
  any_host_exists host = if same host (text "*") then pure true else host_exists host

  unfoldable pub module_is_loaded : (host name : Text) → Shell σ Bool
  module_is_loaded host name = do
    exists ← any_host_exists host
    if_true exists host_missing
        (do r ← exec (module_is_loaded_command host name); of (result_bool r))

  unfoldable pub module_list : (host : Text) → Shell σ (List Text)
  module_list host = do
    exists ← any_host_exists host
    if_true exists host_missing (do r ← exec (module_list_command host); of (result_string_array r))

  unfoldable pub module_list_enabled : (host : Text) → Shell σ (List Text)
  module_list_enabled host = do
    exists ← host_exists host
    if_true exists host_missing
        (do r ← exec (module_list_enabled_command host); of (result_string_array r))

  unfoldable pub module_load_modules_for_host : (host : Text) → Shell σ (Unit {0})
  module_load_modules_for_host host = do
    exists ← host_exists host
    if_true exists host_missing
        (do r ← exec (module_load_modules_for_host_command host); of (result_unit r))

  -- What is only logged where the module is missing is left out.
  unfoldable pub require_module : (host name : Text) → Shell σ (Unit {0})
  require_module host name = do
    loaded ← module_is_loaded host name
    if_true loaded module_missing (pure tt)

  unfoldable pub groups_create : Text → Text → Option Bool → Option Text → Shell σ Text
  groups_create host group_name create_default_muc group_id = do
    u ← require_module (text "*") (text "groups_shell")
    r ← exec (groups_create_command host group_name create_default_muc group_id)
    of (summary r)

  unfoldable pub groups_add_member : Text → Text → Text → Option Bool → Shell σ Text
  groups_add_member host group_id username delay_update = do
    u ← require_module (text "*") (text "groups_shell")
    r ← exec (groups_add_member_command host group_id username delay_update)
    of (summary r)

  unfoldable pub groups_sync : (host group_id : Text) → Shell σ Text
  groups_sync host group_id = do
    u ← require_module (text "*") (text "groups_shell")
    r ← exec (groups_sync_command host group_id)
    of (summary r)

  unfoldable pub groups_exists : (host group_id : Text) → Shell σ Bool
  groups_exists host group_id = do
    u ← require_module host (text "groups_internal")
    r ← exec (groups_exists_command host group_id)
    of (result_bool r)

  -- The first line is the header of the table.
  unfoldable pub invite_list : Text → Shell σ (List InviteRow)
  invite_list host = do
    u ← require_module host (text "invites")
    r ← exec (invite_list_command host)
    of (invite_rows (drop 1 r.lines))
