-- ===== src/Api/Shell/Commands.antt =====
-- The texts of the commands (api/crates/prosodyctl/src/prosody_shell.rs). The code writes each one
-- out with `format!`, and escapes nothing.
use prose_pod_server.Common.{Bool, true, false, Option, none, some, List, [], ◌∷◌, ◌++◌, Text, text}

abbrev pub quoted : Text → Text
quoted s = b'"' ∷ (s ++ b'"' ∷ [])

abbrev pub commas : List Text → Text
commas [] = []
commas (a ∷ []) = a
commas (a ∷ b ∷ args) = a ++ (text ", " ++ commas (b ∷ args))

abbrev pub call : Text → List Text → Text
call name args = name ++ (text "(" ++ (commas args ++ text ")"))

abbrev pub with_option : List Text → Option Text → List Text
with_option args none = args
with_option args (some a) = args ++ quoted a ∷ []

unfoldable pub user_create_command : Text → Text → Option Text → Text
user_create_command jid password role =
    call (text "user:create") (with_option (quoted jid ∷ quoted password ∷ []) role)

abbrev pub lua_bool : Bool → Text
lua_bool true = text "true"
lua_bool false = text "false"

-- The optional arguments of `groups_create_command`.
abbrev pub group_options : Option Bool → Option Text → List Text
group_options none none = []
group_options (some b) none = lua_bool b ∷ []
group_options (some b) (some group_id) = lua_bool b ∷ quoted group_id ∷ []
group_options none (some group_id) = text "nil" ∷ quoted group_id ∷ []

unfoldable pub groups_create_command : Text → Text → Option Bool → Option Text → Text
groups_create_command host group_name create_default_muc group_id =
    call (text "groups:create")
      (quoted host ∷ quoted group_name ∷ group_options create_default_muc group_id)

abbrev pub delay_option : Option Bool → List Text
delay_option none = []
delay_option (some b) = quoted (lua_bool b) ∷ []

unfoldable pub groups_add_member_command : Text → Text → Text → Option Bool → Text
groups_add_member_command host group_id username delay_update =
    call (text "groups:add_member")
      (quoted host ∷ quoted group_id ∷ quoted username ∷ delay_option delay_update)

unfoldable pub user_list_command : (domain : Text) → (pattern : Option Text) → Text
user_list_command domain pattern =
    call (text "user:list") (with_option (quoted domain ∷ []) pattern)

unfoldable pub user_password_command : (jid password : Text) → Text
user_password_command jid password = call (text "user:password") (quoted jid ∷ quoted password ∷ [])

unfoldable pub user_role_command : (jid : Text) → (host : Option Text) → Text
user_role_command jid host = call (text "user:role") (with_option (quoted jid ∷ []) host)

unfoldable pub user_set_role_command :
    (jid : Text) → (host : Option Text) → (new_role : Text) → Text
user_set_role_command jid host new_role =
    call (text "user:set_role") (with_option (quoted jid ∷ []) host ++ quoted new_role ∷ [])

unfoldable pub user_disable_command : (jid : Text) → Text
user_disable_command jid = call (text "user:disable") (quoted jid ∷ [])

unfoldable pub user_enable_command : (jid : Text) → Text
user_enable_command jid = call (text "user:enable") (quoted jid ∷ [])

unfoldable pub user_delete_command : (jid : Text) → Text
user_delete_command jid = call (text "user:delete") (quoted jid ∷ [])

unfoldable pub module_load_command : (name : Text) → (host : Option Text) → Text
module_load_command name host = call (text "module:load") (with_option (quoted name ∷ []) host)

unfoldable pub module_unload_command : (name : Text) → (host : Option Text) → Text
module_unload_command name host = call (text "module:unload") (with_option (quoted name ∷ []) host)

unfoldable pub module_reload_command : (name : Text) → (host : Option Text) → Text
module_reload_command name host = call (text "module:reload") (with_option (quoted name ∷ []) host)

unfoldable pub host_exists_command : (host : Text) → Text
host_exists_command host = text "> not not prosody.hosts[" ++ quoted host ++ text "]"

unfoldable pub user_exists_command : (username host : Text) → Text
user_exists_command username host =
    call (text "> um.user_exists") (quoted username ∷ quoted host ∷ [])

unfoldable pub user_get_jids_with_role_command : (host role_name : Text) → Text
user_get_jids_with_role_command host role_name =
    text "> dump("
    ++ call (text "um.get_jids_with_role") (quoted role_name ∷ quoted host ∷ [])
    ++ text ")"

unfoldable pub module_is_loaded_command : (host name : Text) → Text
module_is_loaded_command host name = call (text "> mm.is_loaded") (quoted host ∷ quoted name ∷ [])

unfoldable pub module_list_command : (host : Text) → Text
module_list_command host =
    text "> dump(it.to_array(it.keys("
    ++ call (text "mm.get_modules") (quoted host ∷ [])
    ++ text ")))"

unfoldable pub module_list_enabled_command : (host : Text) → Text
module_list_enabled_command host =
    text "> dump(it.to_array("
    ++ call (text "mm.get_modules_for_host") (quoted host ∷ [])
    ++ text "))"

unfoldable pub module_load_modules_for_host_command : (host : Text) → Text
module_load_modules_for_host_command host =
    call (text "> mm.load_modules_for_host") (quoted host ∷ [])

unfoldable pub groups_sync_command : (host group_id : Text) → Text
groups_sync_command host group_id =
    call (text "groups:sync_group") (quoted host ∷ quoted group_id ∷ [])

unfoldable pub groups_exists_command : (host group_id : Text) → Text
groups_exists_command host group_id =
    call (text "> mm.get_module") (quoted host ∷ quoted (text "groups_internal") ∷ [])
    ++ call (text ".exists") (quoted group_id ∷ [])

unfoldable pub invite_list_command : (host : Text) → Text
invite_list_command host = call (text "invite:list") (quoted host ∷ [])
