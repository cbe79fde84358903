-- ===== src/Commands/Table.antt =====
-- libs/commands/commands.c: the three tables COMMANDS, TYPES and FUNCTIONS agree.
use local_server_c.Base.{
  ℕ, zero, suc, ◌≡◌, refl, ap, ◌∙◌, Option, none, some, Bool, true, false, List, ◌∷◌, ltb,
  if◌then◌else◌, get_elem?, ℤ, pos, negsuc,
}
use local_server_c.Base.Text.{codes, c_str, strlen, same_text}
use local_server_c.Commands.{tokens, commands, is_command_available, exec_cmd, run_usual, handled}
use local_server_c.Commands.Running.{exec_cmd-run_usual}
use local_server_c.Commands.Handlers.{
  Handler, by_help, by_info, by_ccp, by_lsl, by_uinfo, Called, calls, itself, called,
}

-- The handler of a command by its name.
abbrev pub handler_named : List ℕ → Option Handler
handler_named name =
    if same_text name (codes "help")
    then some by_help
    else if same_text name (codes "info")
    then some by_info
    else if same_text name (codes "ccp")
    then some by_ccp
    else if same_text name (codes "lsl")
    then some by_lsl
    else if same_text name (codes "uinfo")
    then some by_uinfo
    else none

-- What a command comes to, by its name.
abbrev pub by_name : List ℕ → ℤ → Bool → List (List ℕ) → Called
by_name name fork exec_fails args = elim (handler_named name) [
  | none ↦ itself (run_usual fork exec_fails args)
  | some h ↦ calls h args
]

abbrev by_index : ℕ → ℤ → Bool → List (List ℕ) → Called
by_index i fork exec_fails args =
    if ltb i 7 then itself (run_usual fork exec_fails args) else called (handled (suc i) args)

called-run_usual :
    (fork : ℤ) (exec_fails : Bool) (args : List (List ℕ))
    → called (run_usual fork exec_fails args) ≡ itself (run_usual fork exec_fails args)
unfolding called run_usual
called-run_usual (negsuc zero) exec_fails args = refl
called-run_usual (negsuc (suc n)) exec_fails args = refl
called-run_usual (pos zero) true args = refl
called-run_usual (pos zero) false args = refl
called-run_usual (pos (suc zero)) exec_fails args = refl
called-run_usual (pos (suc (suc n))) exec_fails args = refl

called-split :
    (usual : Bool) (i : ℕ) (fork : ℤ) (exec_fails : Bool) (args : List (List ℕ))
    → called (if usual then run_usual fork exec_fails args else handled i args)
      ≡ (if usual then itself (run_usual fork exec_fails args) else called (handled i args))
called-split true i fork exec_fails args = called-run_usual fork exec_fails args
called-split false i fork exec_fails args = refl

module _ (fork : ℤ) (exec_fails : Bool) (args : List (List ℕ)) where
  named :
      (i : ℕ) (name t : List ℕ)
      → some name ≡ some t
      → by_index i fork exec_fails args ≡ by_name name fork exec_fails args
      → by_index i fork exec_fails args ≡ by_name t fork exec_fails args
  named i name t same e =
      let same' : name ≡ t = cc in e ∙ ap (λ n. by_name n fork exec_fails args) same'

  by_index-by_name :
      (i : ℕ) (t : List ℕ)
      → get_elem? commands i ≡ some t
      → by_index i fork exec_fails args ≡ by_name t fork exec_fails args
  unfolding same_text called
  by_index-by_name zero t h = named 0 (codes "ls") t h refl
  by_index-by_name (suc zero) t h = named 1 (codes "ps") t h refl
  by_index-by_name (suc (suc zero)) t h = named 2 (codes "pwd") t h refl
  by_index-by_name (suc (suc (suc zero))) t h = named 3 (codes "rm") t h refl
  by_index-by_name (suc (suc (suc (suc zero)))) t h = named 4 (codes "touch") t h refl
  by_index-by_name (suc (suc (suc (suc (suc zero))))) t h = named 5 (codes "mkdir") t h refl
  by_index-by_name (suc (suc (suc (suc (suc (suc zero)))))) t h = named 6 (codes "exit") t h refl
  by_index-by_name (suc (suc (suc (suc (suc (suc (suc zero))))))) t h =
      named 7 (codes "help") t h refl
  by_index-by_name (suc (suc (suc (suc (suc (suc (suc (suc zero)))))))) t h =
      named 8 (codes "info") t h refl
  by_index-by_name (suc (suc (suc (suc (suc (suc (suc (suc (suc zero))))))))) t h =
      named 9 (codes "ccp") t h refl
  by_index-by_name (suc (suc (suc (suc (suc (suc (suc (suc (suc (suc zero)))))))))) t h =
      named 10 (codes "lsl") t h refl
  by_index-by_name (suc (suc (suc (suc (suc (suc (suc (suc (suc (suc (suc zero))))))))))) t h =
      named 11 (codes "uinfo") t h refl
  by_index-by_name (suc (suc (suc (suc (suc (suc (suc (suc (suc (suc (suc (suc i)))))))))))) t h =
      cc

-- When a command line is available, `exec_cmd` runs it by its first word: `help`, `info`, `ccp`, `lsl` and
-- `uinfo` by the handler of that name on all the words (never through NULL), any other command by `fork`
-- and `execvp` with the words, whatever these answer.
pub exec_cmd-called :
    (cmd : List ℕ) (i : ℕ)
    → is_command_available (some cmd) ≡ pos (suc i)
    → (t : List ℕ) × (ts : List (List ℕ)) × (tokens (suc (strlen cmd)) (c_str cmd) ≡ some (t ∷ ts))
      × (get_elem? commands i ≡ some t)
      × ((fork : ℤ) (exec_fails : Bool)
          → called (exec_cmd (some cmd) fork exec_fails) ≡ by_name t fork exec_fails (t ∷ ts))
exec_cmd-called cmd i h =
    let (t, ts, cut, name, runs) = exec_cmd-run_usual cmd i h in
    (
      t,
      ts,
      cut,
      name,
      λ fork exec_fails.
          ap called (runs fork exec_fails)
          ∙ called-split (ltb i 7) (suc i) fork exec_fails (t ∷ ts)
          ∙ by_index-by_name fork exec_fails (t ∷ ts) i t name,
    )
