-- ===== src/Api/Shell/Tests.antt =====
-- The shell by example.
use prose_pod_server.Common.{
  ◌≡◌, refl, true, none, some, List, [], ◌∷◌, ◌++◌, Text, text, text_dec, arith, starts_with,
  ends_with, split,
}
use prose_pod_server.Common.Results.{Result, ok, err, panicked}
use prose_pod_server.Api.Shell.{
  ShellError, timeout, not_started, ProsodyResponse, too_late, Exchange, exec, get_handle_or_start,
  command_name,
}
use prose_pod_server.Api.Shell.Commands.{
  call, quoted, user_create_command, module_is_loaded_command,
}
use prose_pod_server.Api.Shell.Readings.{
  result_bool, lua_string_to_string_array, lua_string_to_array_iter, split_array, invite_row,
  invite_rows,
}
use prose_pod_server.Api.Shell.Operations.{groups_create, require_module, module_is_loaded}
use prose_pod_server.Api.Shell.Name.{command_name-call}
use prose_pod_server.Api.Shell.Quotes.{
  pieces, split-user_create_command, user_create_command-injection,
}
use prose_pod_server.Api.Shell.Answers.{print_answer, exec-late}

-- The tests of the source.
array_test :
    (lua_string_to_string_array (text "{}") ≡ ok [])
    × (lua_string_to_string_array (text "{ \"offline\" }") ≡ ok (text "offline" ∷ []))
    × (lua_string_to_string_array (text "{ \"offline\"; \"presence\"; \"c2s\" }")
        ≡ ok (text "offline" ∷ text "presence" ∷ text "c2s" ∷ []))
unfolding lua_string_to_string_array lua_string_to_array_iter split_array text_dec starts_with
    ends_with
array_test = (refl, refl, refl)

name_test :
    (command_name (text "> not not prosody.hosts[\"example.org\"]")
      ≡ ok (text "> not not prosody.hosts"))
    × (command_name (text "> mm = require\"core.modulemanager\"")
        ≡ ok (text "> mm = require\"core.modulemanager\""))
    × (command_name (text "> mm = \"x\"") ≡ panicked)
unfolding command_name starts_with
name_test = (refl, refl, refl)

row_test :
    invite_rows (text "tCyd | 2025-10-06T16:05:34  | Register | here" ∷ [])
    ≡ ok (
        record {
          token = text "tCyd";
          expires_at = text "2025-10-06T16:05:34";
          description = text "Register | here";
        }
        ∷ [])
unfolding invite_rows invite_row starts_with
row_test = refl

-- A shell that records the commands, and answers as told.
abbrev answering : Text → Text → List Text → Result ShellError ProsodyResponse × List Text
answering answer command sent =
    (ok (record { lines = []; result = ok answer }), sent ++ command ∷ [])

gate_test :
    (groups_create (answering (text "false")) (text "a.org") (text "Team") none none []).1
    ≡ text "> mm.is_loaded(\"*\", \"groups_shell\")" ∷ []
unfolding groups_create require_module module_is_loaded result_bool text_dec
    module_is_loaded_command
gate_test = refl

abbrev some_command : Text
some_command = text "user:list(\"a.org\")"

abbrev other_command : Text
other_command = text "user:role(\"b@a.org\")"

abbrev some_answer : ProsodyResponse
some_answer = record { lines = text "b@a.org" ∷ []; result = ok (text "2 users") }

-- The first line comes in time; the rest of the answer, and then the next one's, do not.
abbrev slow : Exchange
slow = record {
  starts = none;
  is_sent = true;
  on_time = text "| a@a.org" ∷ [];
  end = too_late;
  late = print_answer some_answer;
}

abbrev prompt : Exchange
prompt = record {
  starts = none;
  is_sent = true;
  on_time = text "| Result: member" ∷ [];
  end = too_late;
  late = [];
}

exec-late_example :
    ((exec some_command slow (record { handle = some [] })).0 ≡ err timeout)
    × (exec other_command prompt (exec some_command slow (record { handle = some [] })).1
        ≡ (ok some_answer, record { handle = some (text "| Result: member" ∷ []) }))
unfolding command_name starts_with
exec-late_example =
    exec-late some_command other_command slow prompt (text "a@a.org" ∷ []) some_answer
      (λ h. cc, omega arith, (text "user:list", refl))
      (λ h. cc, omega arith, (text "user:role", refl)) ((refl, refl), tt)
      (((refl, refl), tt), λ h. cc) refl refl refl refl refl

not_started_test :
    exec some_command slow (record { handle = none }) ≡ (err not_started, record { handle = none })
unfolding exec get_handle_or_start
not_started_test = refl

command_name-call_example :
    command_name
      (call (text "user:password") (quoted (text "a@a.org") ∷ quoted (text "pass(word") ∷ []))
    ≡ ok (text "user:password")
command_name-call_example =
    command_name-call (text "user:password")
      (quoted (text "a@a.org") ∷ quoted (text "pass(word") ∷ []) refl refl

split-user_create_command_example :
    split b'"' (user_create_command (text "a@a.org") (text "secret") (some (text "prosody:admin")))
    ≡ pieces (text "a@a.org") (text "secret") (some (text "prosody:admin"))
split-user_create_command_example =
    split-user_create_command (text "a@a.org") (text "secret") (some (text "prosody:admin"))
      (refl, (refl, (refl, tt)))

user_create_command-injection_example :
    user_create_command (text "a@a.org") (text "x" ++ (text "\", \"" ++ text "prosody:admin")) none
    ≡ user_create_command (text "a@a.org") (text "x") (some (text "prosody:admin"))
user_create_command-injection_example =
    user_create_command-injection (text "a@a.org") (text "x") (text "prosody:admin")
