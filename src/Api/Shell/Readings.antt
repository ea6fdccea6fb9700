-- ===== src/Api/Shell/Readings.antt =====
-- What a result is read as: `ProsodyResponse::result_unit` and the others, arrays in Lua's notation,
-- and the rows of `invite_list` (api/crates/prosodyctl/src/prosody_shell.rs). White space is that of
-- ASCII.
use mathlib.Core.List.{reverse}
use prose_pod_server.Common.{
  ℕ, ◌-◌, Bool, false, not, ◌&&◌, ◌||◌, Option, none, some, List, [], ◌∷◌, map, Text, text, same,
  starts_with, ends_with, length, take, drop, any, has_byte, leb, ◌==◌, if◌then◌else◌, cons_first,
}
use prose_pod_server.Common.Results.{Result, ok, err, panicked, ◌>>=◌, map_err}
use prose_pod_server.Api.Shell.{ShellError, message, ProsodyResponse}

unfoldable pub result_unit : ProsodyResponse → Result ShellError (Unit {0})
result_unit r = do s ← map_err message r.result; ok tt

-- A release build takes what is neither for `false`.
unfoldable pub result_bool : ProsodyResponse → Result ShellError Bool
result_bool r = do s ← map_err message r.result; ok (same s (text "true"))

abbrev pub expecting :
    List Text → Result Text Text → Result ShellError Bool → Result ShellError Bool
expecting expected (err e) b = if any (λ x. same x e) expected then ok false else b
expecting expected (ok s) b = b
expecting expected panicked b = b

unfoldable pub result_bool_expecting : ProsodyResponse → List Text → Result ShellError Bool
result_bool_expecting r expected_errors = expecting expected_errors r.result (result_bool r)

abbrev pub is_whitespace : ℕ → Bool
is_whitespace c = c == b' ' || (leb 9 c && leb c 13)

abbrev pub skip_while {ℓ} : {A : Type ℓ} → (A → Bool) → List A → List A
skip_while p [] = []
skip_while p (x ∷ xs) = if p x then skip_while p xs else x ∷ xs

-- `trim_matches`
abbrev pub trim_matches : (ℕ → Bool) → Text → Text
trim_matches p s = reverse (skip_while p (reverse (skip_while p s)))

-- `split("; ")`
unfoldable pub split_array : Text → List Text
split_array [] = [] ∷ []
split_array (c ∷ []) = (c ∷ []) ∷ []
split_array (c ∷ d ∷ s) =
    if c == b';' && d == b' ' then [] ∷ split_array s else cons_first c (split_array (d ∷ s))

abbrev pub is_array : Text → Bool
is_array lua = starts_with lua (text "{") && ends_with lua (text "}") && not (has_byte b'\n' lua)

unfoldable pub lua_string_to_array_iter : Text → Result ShellError (List Text)
lua_string_to_array_iter lua =
    if is_array lua
    then ok (
        skip_while (λ s. same s [])
          (split_array (trim_matches is_whitespace (take (length lua - 2) (drop 1 lua)))))
    else panicked

unfoldable pub lua_string_to_string_array : Text → Result ShellError (List Text)
lua_string_to_string_array lua = do
  strings ← lua_string_to_array_iter lua
  ok (map (trim_matches (λ c. c == b'"')) strings)

unfoldable pub result_string_array : ProsodyResponse → Result ShellError (List Text)
result_string_array r = do s ← map_err message r.result; lua_string_to_string_array s

pub record InviteRow : Type 0 where
  pub token : Text
  pub expires_at : Text
  pub description : Text

abbrev pub cons_left : ℕ → Option (Text × Text) → Option (Text × Text)
cons_left c none = none
cons_left c (some (a, b)) = some (c ∷ a, b)

-- The first cell of a row and the rest, at the first ` | `.
abbrev pub split_cell : Text → Option (Text × Text)
split_cell [] = none
split_cell (c ∷ row) =
    if starts_with (c ∷ row) (text " | ")
    then some ([], drop 2 row)
    else cons_left c (split_cell row)

-- `none` is a missing cell.
abbrev pub second_cell : Text → Option (Text × Text) → Result ShellError InviteRow
second_cell a none = panicked
second_cell a (some (b, c)) = ok (record {
  token = trim_matches is_whitespace a;
  expires_at = trim_matches is_whitespace b;
  description = trim_matches is_whitespace c;
})

abbrev pub first_cell : Option (Text × Text) → Result ShellError InviteRow
first_cell none = panicked
first_cell (some (a, rest)) = second_cell a (split_cell rest)

unfoldable pub invite_row : Text → Result ShellError InviteRow
invite_row row = first_cell (split_cell row)

unfoldable pub invite_rows : List Text → Result ShellError (List InviteRow)
invite_rows [] = ok []
invite_rows (row ∷ rows) = do r ← invite_row row; rs ← invite_rows rows; ok (r ∷ rs)
