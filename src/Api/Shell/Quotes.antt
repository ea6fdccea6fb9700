-- ===== src/Api/Shell/Quotes.antt =====
-- What a command says of its arguments, which are put between quotation marks as they are.
use mathlib.Core.List.{append_assoc}
use prose_pod_server.Common.{
  ◌≡◌, refl, Option, none, some, List, [], ◌∷◌, ◌++◌, Text, text, split, split-append, NoneHas,
}
use prose_pod_server.Api.Shell.Commands.{user_create_command}

abbrev pub option_text : Option Text → List Text
option_text none = []
option_text (some a) = a ∷ []

-- The command, taken apart at its quotation marks.
abbrev pub pieces : Text → Text → Option Text → List Text
pieces jid password none = text "user:create(" ∷ jid ∷ text ", " ∷ password ∷ text ")" ∷ []
pieces jid password (some role) =
    text "user:create(" ∷ jid ∷ text ", " ∷ password ∷ text ", " ∷ role ∷ text ")" ∷ []

-- If no argument holds a quotation mark, the arguments stand between those of the command and can
-- be read back from it: two different commands to create a user are never the same text.
pub split-user_create_command :
    (jid password : Text) (role : Option Text)
    → NoneHas b'"' (jid ∷ password ∷ option_text role)
    → split b'"' (user_create_command jid password role) ≡ pieces jid password role
unfolding user_create_command split
split-user_create_command jid password none (h, (k, u)) =
    simp (append_assoc, split-append b'"' jid _ h, split-append b'"' password _ k) refl
split-user_create_command jid password (some role) (h, (k, (l, u))) =
    simp
      (
        append_assoc,
        split-append b'"' jid _ h,
        split-append b'"' password _ k,
        split-append b'"' role _ l,
      )
      refl

-- A password that holds a quotation mark can give the command of another one with a role: nothing
-- is escaped.
pub user_create_command-injection :
    (jid password role : Text)
    → user_create_command jid (password ++ (text "\", \"" ++ role)) none
      ≡ user_create_command jid password (some role)
unfolding user_create_command
user_create_command-injection jid password role = simp append_assoc refl
