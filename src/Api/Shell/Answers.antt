-- ===== src/Api/Shell/Answers.antt =====
-- The answers that Prosody prints, apart from the code, and what the loop reads of them.
use mathlib.Core.List.{append_assoc, append-nil}
use prose_pod_server.Common.{
  ◌≡◌, ◌≢◌, refl, ap, ◌∙◌, true, false, some, List, [], ◌∷◌, ◌++◌, map, Text, text, same, same→eq,
  ◌<◌, starts_with, length, leb, All, arith,
}
use prose_pod_server.Common.Results.{Result, ok, err, panicked}
use prose_pod_server.Api.Shell.{
  timeout, ProsodyResponse, End, too_late, end_error, parse_line, done, log, read_answer, Exchange,
  keep_late, keep_handle, exec_with_timeout, get_handle_or_start, exec, without_prompt,
  max_command_length, command_name,
}

-- A line that is not taken for a result.
abbrev pub IsLog : Text → Type 0
IsLog line = (starts_with line (text "OK: ") ≡ false) × (starts_with line (text "Result: ") ≡ false)

abbrev pub print_log : Text → Text
print_log line = text "| " ++ line

abbrev pub print_result : Result Text Text → Text
print_result (ok s) = text "| OK: " ++ s
print_result (err e) = text "! Error: " ++ e
print_result panicked = text "** "

abbrev pub print_answer : ProsodyResponse → List Text
print_answer r = map print_log r.lines ++ print_result r.result ∷ []

abbrev pub IsAnswer : ProsodyResponse → Type 0
IsAnswer r = All IsLog r.lines × (r.result ≢ panicked)

parse-print_log :
    (line : Text) → IsLog line → parse_line (without_prompt (print_log line)) ≡ log line
unfolding parse_line starts_with
parse-print_log line (h, k) = rw (h, k) refl

parse-print_result :
    (r : Result Text Text) → r ≢ panicked → parse_line (without_prompt (print_result r)) ≡ done r
unfolding parse_line starts_with
parse-print_result (ok s) h = refl
parse-print_result (err e) h = refl
parse-print_result panicked h = absurd (h refl)

-- The lines of an answer are read back up to its result, and what comes after is left.
read_answer-print :
    (end : End) (before : List Text) (lines : List Text) (r : Result Text Text) (rest : List Text)
    → All IsLog lines
    → r ≢ panicked
    → read_answer end before (map print_log lines ++ (print_result r ∷ rest))
      ≡ (ok (record { lines = before ++ lines; result = r }), rest)
unfolding read_answer
read_answer-print end before [] r rest h k = rw (parse-print_result r k, append-nil before) refl
read_answer-print end before (line ∷ lines) r rest h k = rw (parse-print_log line h.0) (
    read_answer-print end (before ++ line ∷ []) lines r rest h.1 k
    ∙ ap (λ l. (ok (record { lines = l; result = r }), rest))
        (append_assoc before (line ∷ []) lines))

abbrev pub IsCommand : Text → Type 0
IsCommand c = (c ≢ []) × (length c < max_command_length) × ((n : Text) × (command_name c ≡ ok n))

-- Where only lines come before the end, there is no answer and nothing is left.
read_answer-logs :
    (end : End) (before lines : List Text)
    → All IsLog lines
    → read_answer end before (map print_log lines) ≡ (err (end_error end), [])
unfolding read_answer
read_answer-logs end before [] h = refl
read_answer-logs end before (line ∷ lines) h =
    rw (parse-print_log line h.0) (read_answer-logs end (before ++ line ∷ []) lines h.1)

exec-read :
    (c : Text) (x : Exchange) (lines : List Text)
    → IsCommand c
    → x.is_sent ≡ true
    → exec c x (record { handle = some lines })
      ≡ keep_handle (keep_late x (read_answer x.end [] (lines ++ x.on_time)))
unfolding exec get_handle_or_start exec_with_timeout
exec-read c x lines (h, k, (n, e)) sent =
    let nonempty : same c [] ≡ false = ground (arith, same→eq c []) in
    let short : leb max_command_length (length c) ≡ false = ground arith in
    rw (nonempty, short, e, sent) refl

-- A command that is sent, but of whose answer only lines come in time.
exec_late :
    (c : Text) (x : Exchange) (lines : List Text)
    → IsCommand c
    → x.is_sent ≡ true
    → x.on_time ≡ map print_log lines
    → All IsLog lines
    → exec c x (record { handle = some [] })
      ≡ (err (end_error x.end), record { handle = some x.late })
exec_late c x lines h sent p l =
    exec-read c x [] h sent
    ∙ ap (λ z. keep_handle (keep_late x (read_answer x.end [] z))) p
    ∙ ap (λ z. keep_handle (keep_late x z)) (read_answer-logs x.end [] lines l)

-- A command that finds an answer before its own.
exec_next :
    (c : Text) (x : Exchange) (a : ProsodyResponse)
    → IsCommand c
    → x.is_sent ≡ true
    → IsAnswer a
    → exec c x (record { handle = some (print_answer a) })
      ≡ (ok a, record { handle = some (x.on_time ++ x.late) })
exec_next c x a h sent (l, m) =
    exec-read c x (print_answer a) h sent
    ∙ ap (λ z. keep_handle (keep_late x (read_answer x.end [] z)))
        (append_assoc (map print_log a.lines) (print_result a.result ∷ []) x.on_time)
    ∙ ap (λ z. keep_handle (keep_late x z))
        (read_answer-print x.end [] a.lines a.result x.on_time l m)

-- Over a running shell with nothing left to read, let a command be sent of whose answer some lines
-- come before the timeout, and the rest after it. It ends in a timeout; and the next command that is
-- sent gets the rest of that answer for its own, whatever is printed then, and leaves what is
-- printed then to the command after it. Both commands are neither empty nor too long, and their
-- names can be told.
pub exec-late :
    (c next : Text) (x y : Exchange) (lines : List Text) (a : ProsodyResponse)
    → IsCommand c
    → IsCommand next
    → All IsLog lines
    → IsAnswer a
    → x.is_sent ≡ true
    → x.on_time ≡ map print_log lines
    → x.end ≡ too_late
    → x.late ≡ print_answer a
    → y.is_sent ≡ true
    → ((exec c x (record { handle = some [] })).0 ≡ err timeout)
      × (exec next y (exec c x (record { handle = some [] })).1
          ≡ (ok a, record { handle = some (y.on_time ++ y.late) }))
exec-late c next x y lines a h k l m sent on_time late rest sent' =
    let first = exec_late c x lines h sent on_time l in
    (
      ap (λ z. z.0) first ∙ ap (λ z. err (end_error z)) late,
      ap (λ z. exec next y z.1) first
          ∙ ap (λ z. exec next y (record { handle = some z })) rest
          ∙ exec_next next y a k sent' m,
    )
