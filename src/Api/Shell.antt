-- ===== src/Api/Shell.antt =====
-- The client of `prosodyctl shell` (api/crates/prosodyctl/src/prosody_shell.rs): the loop that reads
-- an answer, the checks of a command, and the handle that is kept between commands. What the process
-- writes is a list of lines, and how its output ends within the timeout. A release build is modelled.
pub mod Readings
pub mod Commands
pub mod Operations
mod Tests
pub mod Answers
pub mod Name
pub mod Quotes
use prose_pod_server.Common.{
  ℕ, zero, suc, ◌+◌, ◌-◌, Bool, true, false, not, ◌&&◌, ◌||◌, Option, none, some, List, [], ◌∷◌,
  ◌++◌, map, Text, text, same, starts_with, ends_with, strip_prefix, length, take, drop, any,
  has_byte, leb, ltb, ◌==◌, if◌then◌else◌,
}
use prose_pod_server.Common.Results.{Result, ok, err, panicked, ◌>>=◌, map_err}

pub data ShellError : Type 0 where
  timeout io_error prosody_error no_result not_started : ShellError
  message : Text → ShellError
  host_missing module_missing : ShellError

-- `result` is the summary, or the message of the error.
pub record ProsodyResponse : Type 0 where
  pub lines : List Text
  pub result : Result Text Text

-- How the lines end: the next one comes too late, cannot be read, or there is none.
pub data End : Type 0 where
  too_late unreadable closed : End

abbrev pub end_error : End → ShellError
end_error too_late = timeout
end_error unreadable = io_error
end_error closed = no_result

-- `line.contains(part)`
abbrev pub has_text : Text → Text → Bool
has_text part [] = starts_with [] part
has_text part (c ∷ line) = starts_with (c ∷ line) part || has_text part line

-- What a line says: a result that ends the answer, a line of it, an error of Prosody's, or nothing.
pub data Line : Type 0 where
  done : Result Text Text → Line
  log : Text → Line
  abort skip : Line

abbrev pub strip : Text → Text → Text
strip p line = drop (length p) line

unfoldable pub parse_line : Text → Line
parse_line line =
    if starts_with line (text "** ")
    then done (err (strip (text "** ") line))
    else if starts_with line (text "! Error: ")
    then done (err (strip (text "! Error: ") line))
    else if starts_with line (text "! ")
    then done (err (strip (text "! ") line))
    else if starts_with line (text "| OK: ")
    then done (ok (strip (text "| OK: ") line))
    else if starts_with line (text "| Result: ")
    then done (ok (strip (text "| Result: ") line))
    else if starts_with line (text "| ")
    then log (strip (text "| ") line)
    else if has_text (text "warn\t") line
    then skip
    else if has_text (text "error\t") line
    then abort
    else skip

abbrev pub first_line_prefix : Text
first_line_prefix = text "prosody> "

abbrev pub without_prompt : Text → Text
without_prompt line =
    if starts_with line first_line_prefix then strip first_line_prefix line else line

abbrev pub Answer : Type 0
Answer = Result ShellError ProsodyResponse

-- The loop over the lines, with those of the answer so far; it leaves the lines after the result.
abbrev pub on_line :
    Line
    → (Text → Answer × List Text)
    → Answer × List Text
    → List Text
    → List Text
    → Answer × List Text
on_line (done r) push continue lines rest = (ok (record { lines = lines; result = r }), rest)
on_line (log line) push continue lines rest = push line
on_line abort push continue lines rest = (err prosody_error, rest)
on_line skip push continue lines rest = continue

unfoldable pub read_answer : End → List Text → List Text → Answer × List Text
read_answer end lines [] = (err (end_error end), [])
read_answer end lines (line ∷ rest) =
    on_line (parse_line (without_prompt line)) (λ l. read_answer end (lines ++ l ∷ []) rest)
      (read_answer end lines rest) lines rest

abbrev pub map_suc : Option ℕ → Option ℕ
map_suc none = none
map_suc (some i) = some (suc i)

-- `str::find` of one byte
abbrev pub find : ℕ → Text → Option ℕ
find c [] = none
find c (d ∷ s) = if d == c then some 0 else map_suc (find c s)

-- Where the name of a command ends; `none` is the panic.
abbrev pub marker_idx : Text → Option ℕ → Option ℕ → Option ℕ
marker_idx command (some paren_idx) b = some paren_idx
marker_idx command none (some bracket_idx) = some bracket_idx
marker_idx command none none =
    if has_text (text "require") command
    then some (length command)
    else if has_byte b'"' command
    then none
    else some (length command)

-- The space of a basic command comes after its name.
abbrev pub is_spaced : Bool → Option ℕ → ℕ → Bool
is_spaced true s i = true
is_spaced false none i = true
is_spaced false (some space_idx) i = ltb i space_idx

abbrev pub name_up_to : Text → Option ℕ → Result ShellError Text
name_up_to command none = panicked
name_up_to command (some i) =
    if is_spaced (starts_with command (text ">")) (find b' ' command) i
    then ok (take i command)
    else panicked

unfoldable pub command_name : Text → Result ShellError Text
command_name command =
    name_up_to command (marker_idx command (find b'(' command) (find b'[' command))

abbrev pub max_command_length : ℕ
max_command_length = 1024

abbrev pub named : Result ShellError Text → Answer × List Text → List Text → Answer × List Text
named (ok name) r lines = r
named (err e) r lines = (err e, lines)
named panicked r lines = (panicked, lines)

-- What happens around a command: whether a shell could be started, with the lines that its imports
-- leave unread; whether the command could be written and flushed; what the process writes within the
-- timeout, and how that ends; and what it writes afterwards.
pub record Exchange : Type 0 where
  pub starts : Option (List Text)
  pub is_sent : Bool
  pub on_time : List Text
  pub end : End
  pub late : List Text

-- What was not read stays in the pipe, before what is written later.
abbrev pub keep_late : Exchange → Answer × List Text → Answer × List Text
keep_late x (r, rest) = (r, rest ++ x.late)

abbrev pub send : Exchange → List Text → Answer × List Text
send x lines =
    if x.is_sent
    then keep_late x (read_answer x.end [] (lines ++ x.on_time))
    else (err io_error, (lines ++ x.on_time) ++ x.late)

-- `ProsodyShellHandle::exec_with_timeout`, with the lines that are there to be read before it, and
-- those after it.
unfoldable pub exec_with_timeout : Text → Exchange → List Text → Answer × List Text
exec_with_timeout command x lines =
    if same command []
    then (panicked, lines)
    else if leb max_command_length (length command)
    then (panicked, lines)
    else named (command_name command) (send x lines) lines

-- The shell: the unread lines of its process, if it is started
pub record ProsodyShell : Type 0 where
  pub handle : Option (List Text)

abbrev pub or_start : Option (List Text) → Option (List Text) → Option (List Text)
or_start none started = started
or_start (some lines) started = some lines

-- `get_handle_or_start`
unfoldable pub get_handle_or_start : Exchange → ProsodyShell → Option (List Text)
get_handle_or_start x s = or_start s.handle x.starts

abbrev pub keep_handle : Answer × List Text → Answer × ProsodyShell
keep_handle (r, lines) = (r, record { handle = some lines })

abbrev pub on_handle : Text → Exchange → ProsodyShell → Option (List Text) → Answer × ProsodyShell
on_handle command x s none = (err not_started, s)
on_handle command x s (some lines) = keep_handle (exec_with_timeout command x lines)

-- `ProsodyShell::exec_with_timeout`, which keeps the handle whatever the outcome is
unfoldable pub exec : Text → Exchange → ProsodyShell → Answer × ProsodyShell
exec command x s = on_handle command x s (get_handle_or_start x s)
