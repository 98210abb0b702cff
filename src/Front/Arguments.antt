-- ===== src/Front/Arguments.antt =====
-- main.go: the grammar of the arguments that `run` takes, and what it makes of them.
use gopls_mcp_manager.Prelude.{
  ℕ, zero, suc, String, Bool, false, ◌||◌, not, Option, none, some, List, [], ◌∷◌, length, ltb, eqb,
  ◌==◌, string_eq, if◌then◌else◌, ◌≡◌, refl,
}

-- What `run` goes on to do.
pub data Command : Type 0 where
  trim_logs status list : Command
  ensure bridge : String → Command
  serve : String → String → Command

-- The argument at an index, or another.
abbrev pub argument : List String → ℕ → String → String
argument [] n fallback = fallback
argument (x ∷ xs) zero fallback = x
argument (x ∷ xs) (suc n) fallback = argument xs n fallback

-- `command`
abbrev pub command_of : List String → String
command_of args = if ltb 1 (length args) then argument args 1 "bridge" else "bridge"

-- The switch on the command: does it let the arguments pass?
unfoldable pub is_usable : String → ℕ → Bool
is_usable command n =
    if command == "http"
    then not (ltb 4 n)
    else if command == "list" || command == "status" || command == "trim-logs"
    then eqb n 2
    else if command == "bridge" || command == "ensure"
    then not (ltb 3 n)
    else false

unfoldable pub dispatch : String → List String → Command
dispatch command args =
    if command == "trim-logs"
    then trim_logs
    else if command == "status"
    then status
    else if command == "list"
    then list
    else if command == "http"
    then serve (argument args 2 "127.0.0.1:6099") (argument args 3 ".")
    else if command == "ensure"
    then ensure (argument args 2 ".")
    else bridge (argument args 2 ".")

-- `run` as far as the arguments decide; `none` is the usage error.
unfoldable pub run : List String → Option Command
unfolding is_usable dispatch
run args =
    let command = command_of args in
    if is_usable command (length args) then some (dispatch command args) else none

-- The words of a command, as the usage line spells them.
abbrev pub words : Command → List String
words trim_logs = "trim-logs" ∷ []
words status = "status" ∷ []
words list = "list" ∷ []
words (ensure worktree) = "ensure" ∷ worktree ∷ []
words (bridge worktree) = "bridge" ∷ worktree ∷ []
words (serve address worktree) = "http" ∷ address ∷ worktree ∷ []

pub run-words : (program : String) (c : Command) → run (program ∷ words c) ≡ some c
unfolding run is_usable dispatch
run-words program trim_logs = refl
run-words program status = refl
run-words program list = refl
run-words program (ensure worktree) = refl
run-words program (bridge worktree) = refl
run-words program (serve address worktree) = refl
