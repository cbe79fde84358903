-- ===== src/Commands.antt =====
-- libs/commands/commands.c: the table of commands, how a command line is cut into words, and exec_cmd.
pub mod Mode
pub mod Copy
mod Copying
mod Words
mod Running
mod Handlers
mod Table
mod Rights
mod Listing
mod Directories
mod Entries
pub mod Info
pub mod Pids
mod ListingTests
mod Tests
use local_server_c.Base.{
  ℕ, zero, suc, ◌+◌, Option, none, some, Bool, true, false, List, [], ◌∷◌, ◌==◌, if◌then◌else◌,
  length, get_or, ℤ, pos, negsuc,
}
use local_server_c.Base.Text.{codes, c_str, strlen, same_text}

abbrev pub exec_error : ℤ
exec_error = negsuc 1

abbrev pub invalid_command : ℤ
invalid_command = negsuc 0

abbrev pub invalid_pointer_commands : ℤ
invalid_pointer_commands = negsuc 2

-- USUAL_CMD and CUSTOM_CMD (and INVALID_CMD, of the entry that no command has).
pub data CommandType : Type 0 where
  invalid_cmd usual_cmd custom_cmd : CommandType

-- COMMANDS from index 1.
abbrev pub commands : List (List ℕ)
commands =
    codes "ls"
    ∷ codes "ps"
    ∷ codes "pwd"
    ∷ codes "rm"
    ∷ codes "touch"
    ∷ codes "mkdir"
    ∷ codes "exit"
    ∷ codes "help"
    ∷ codes "info"
    ∷ codes "ccp"
    ∷ codes "lsl"
    ∷ codes "uinfo"
    ∷ []

-- TYPES.
abbrev pub types : List CommandType
types =
    invalid_cmd ∷ usual_cmd ∷ usual_cmd ∷ usual_cmd ∷ usual_cmd ∷ usual_cmd ∷ usual_cmd ∷ usual_cmd
    ∷ custom_cmd ∷ custom_cmd ∷ custom_cmd ∷ custom_cmd ∷ custom_cmd ∷ []

-- `strtok` and `strtok_r` with the delimiter " ": skip the spaces, ...
unfoldable pub skip_spaces : List ℕ → List ℕ
skip_spaces [] = []
skip_spaces (c ∷ s) = if c == b' ' then skip_spaces s else c ∷ s

-- ... take the bytes up to the next space, ...
unfoldable pub word : List ℕ → List ℕ
word [] = []
word (c ∷ s) = if c == b' ' then [] else c ∷ word s

-- ... and leave what follows that space.
unfoldable pub after_word : List ℕ → List ℕ
after_word [] = []
after_word (c ∷ s) = if c == b' ' then s else after_word s

unfoldable pub strtok_r : List ℕ → Option (List ℕ × List ℕ)
unfolding skip_spaces word after_word
strtok_r s = elim (skip_spaces s) [ [] ↦ none | c ∷ t ↦ some (word (c ∷ t), after_word (c ∷ t)) ]

-- The search of `is_command_available` in the table from index `i`.
unfoldable pub search_command : List ℕ → ℕ → List (List ℕ) → ℕ
search_command prefix i [] = 0
search_command prefix i (name ∷ names) =
    if same_text prefix name then i else search_command prefix (suc i) names

-- `is_command_available`.
unfoldable pub is_command_available : Option (List ℕ) → ℤ
unfolding strtok_r search_command
is_command_available none = invalid_pointer_commands
is_command_available (some cmd) = elim (strtok_r (c_str cmd)) [
  | none ↦ pos 0
  | some (prefix, rest) ↦ pos (search_command prefix 1 commands)
]

-- The loop of `exec_cmd` that fills `tokens`, on fuel.
unfoldable pub tokens : ℕ → List ℕ → Option (List (List ℕ))
tokens zero s = none
tokens (suc n) s = elim (strtok_r s) [
  | none ↦ some []
  | some (token, rest) ↦ elim (tokens n rest) [ none ↦ none | some ts ↦ some (token ∷ ts) ]
]

-- How `exec_cmd` ends: it returns (after `wait`, or not); the child is replaced by the program, with
-- its arguments; a handler is called on the arguments and its result returned; the loop is still
-- running; memory at NULL is read.
pub data Executed : Type 0 where
  returned : (waited : Bool) → ℤ → Executed
  replaced : List (List ℕ) → Executed
  handled : ℕ → List (List ℕ) → Executed
  running : Executed
  crash : Executed

-- The `switch (fork())` of `exec_cmd`: what `fork` returns, and whether `execvp` fails.
unfoldable pub run_usual : ℤ → Bool → List (List ℕ) → Executed
run_usual (negsuc n) exec_fails args = elim n [
  | zero ↦ returned false exec_error
  | suc k ↦ returned false (pos 1)
]
run_usual (pos zero) exec_fails args =
    if exec_fails then returned false exec_error else replaced args
run_usual (pos (suc zero)) exec_fails args = returned true (pos 1)
run_usual (pos (suc (suc n))) exec_fails args = returned false (pos 1)

-- `exec_cmd` for the command of an index.
unfoldable pub dispatch : CommandType → ℕ → ℤ → Bool → List (List ℕ) → Executed
unfolding run_usual
dispatch usual_cmd id fork exec_fails args = run_usual fork exec_fails args
dispatch invalid_cmd id fork exec_fails args = handled id args
dispatch custom_cmd id fork exec_fails args = handled id args

-- `exec_cmd`; `strlen(cmd) + 1` rounds of fuel are given to the loop.
unfoldable pub exec_cmd : Option (List ℕ) → ℤ → Bool → Executed
unfolding is_command_available tokens dispatch strlen
exec_cmd none fork exec_fails = crash
exec_cmd (some cmd) fork exec_fails = elim (is_command_available (some cmd)) [
  | negsuc n ↦ crash
  | pos id ↦
      if id == 0
      then returned false invalid_command
      else elim (tokens (suc (strlen cmd)) (c_str cmd)) [
        | none ↦ running
        | some args ↦ dispatch (get_or types id invalid_cmd) id fork exec_fails args
      ]
]
