-- ===== src/Commands/Handlers.antt =====
-- libs/commands/commands.c: the table FUNCTIONS of the handlers of the custom commands, and the command
-- help (print_commands, exec_help).
use local_server_c.Base.{ℕ, Option, none, some, List, [], ◌∷◌, ◌++◌, get_or, ℤ, pos}
use local_server_c.Base.Text.{codes}
use local_server_c.Commands
use local_server_c.Commands.{Executed}

-- exec_help, exec_info, exec_ccp, exec_lsl and exec_uinfo.
pub data Handler : Type 0 where
  by_help by_info by_ccp by_lsl by_uinfo : Handler

-- FUNCTIONS; `none` is NULL.
abbrev pub functions : List (Option Handler)
functions =
    none
    ∷ none
    ∷ none
    ∷ none
    ∷ none
    ∷ none
    ∷ none
    ∷ none
    ∷ some by_help
    ∷ some by_info
    ∷ some by_ccp
    ∷ some by_lsl
    ∷ some by_uinfo
    ∷ []

-- What `exec_cmd` comes to: the call of a handler on its arguments, a call through NULL, or what it does
-- itself.
pub data Called : Type 0 where
  calls : Handler → List (List ℕ) → Called
  calls_null : Called
  itself : Executed → Called

unfoldable pub called : Executed → Called
called (Commands.handled id args) = elim (get_or functions id none) [
  | none ↦ calls_null
  | some h ↦ calls h args
]
called (Commands.returned waited r) = itself (Commands.returned waited r)
called (Commands.replaced args) = itself (Commands.replaced args)
called Commands.running = itself Commands.running
called Commands.crash = itself Commands.crash

-- A line of the list of commands: a name in colour, and a text.
abbrev item : List ℕ → List ℕ → List ℕ
item name text =
    codes "    - " ++ 27 ∷ codes "[0;36m" ++ name ++ 27 ∷ codes "[0m" ++ text ++ 10 ∷ []

-- What `print_commands` writes.
abbrev pub print_commands : List ℕ
print_commands =
    codes "Liste des commandes usuelles disponibles :\n"
    ++ item (codes "ls ...") (codes " : Toutes les variantes de ls.")
    ++ item (codes "ps ...") (codes " : Toutes les variantes de ps.")
    ++ item (codes "pwd ... ") (codes " : Toutes les variantes de pwd.")
    ++ item (codes "rm ...") (codes " : Toutes les variantes de rm.")
    ++ item (codes "mkdir ...") (codes " : Toutes les variantes de mkdir.")
    ++ item (codes "touch ...") (codes " : Toutes les variantes de touch.")
    ++ item (codes "exit")
        (codes " : Permet de se d" ++ 195 ∷ 169 ∷ codes "connecter du serveur.\n")
    ++ codes "Liste des commandes personnalis"
    ++ 195 ∷ 169 ∷ codes "es disponibles :\n"
    ++ item (codes "info <PID>") (
        codes " : Affiche sur la sortie standard les informations concernant le processus de num"
        ++ 195 ∷ 169 ∷ codes "ro PID.")
    ++ item (codes "ccp -f <src> -d <dest> -[v|a|b|e]") (
        codes " : Copie src dans le fichier dest. -v permet de v"
        ++ 195 ∷ 169 ∷ codes "rifier si le fichier existe d"
        ++ 195 ∷ 169 ∷ codes "j"
        ++ 195
          ∷ 160
          ∷ codes ", -a permet de copier en mode ajout, -b et -e permettent respectivement de d"
        ++ 195 ∷ 169 ∷ codes "finir un offset de d"
        ++ 195 ∷ 169 ∷ codes "but et de fin.")
    ++ item (codes "lsl") (codes " : Commande raccourcie de ls -ali.")
    ++ item (codes "uinfo") (codes " : Vos informations utilisateurs.")

-- `exec_help`: what it writes, and its result.
abbrev pub exec_help : List ℕ × ℤ
exec_help = (print_commands, pos 1)
