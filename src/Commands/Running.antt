-- ===== src/Commands/Running.antt =====
-- What exec_cmd does with a command line, on every answer of fork and execvp.
use local_server_c.Base.{
  ℕ, zero, suc, ◌≡◌, ◌≢◌, refl, sym, ap, ◌∙◌, Option, none, some, Bool, true, false, List, ◌∷◌,
  ◌==◌, ltb, if◌then◌else◌, get_elem?, get_or, ℤ, pos, negsuc, arith,
}
use local_server_c.Base.Text.{c_str, strlen}
use local_server_c.Commands.{
  tokens, commands, types, is_command_available, exec_cmd, dispatch, run_usual, returned, handled,
  crash, invalid_cmd, usual_cmd, custom_cmd, invalid_command,
}
use local_server_c.Commands.Words.{is_command_available-first}

type_of_index :
    (i : ℕ)
    → (t : List ℕ) → get_elem? commands i ≡ some t
    → get_or types (suc i) invalid_cmd ≡ (if ltb i 7 then usual_cmd else custom_cmd)
type_of_index zero t h = refl
type_of_index (suc zero) t h = refl
type_of_index (suc (suc zero)) t h = refl
type_of_index (suc (suc (suc zero))) t h = refl
type_of_index (suc (suc (suc (suc zero)))) t h = refl
type_of_index (suc (suc (suc (suc (suc zero))))) t h = refl
type_of_index (suc (suc (suc (suc (suc (suc zero)))))) t h = refl
type_of_index (suc (suc (suc (suc (suc (suc (suc zero))))))) t h = refl
type_of_index (suc (suc (suc (suc (suc (suc (suc (suc zero)))))))) t h = refl
type_of_index (suc (suc (suc (suc (suc (suc (suc (suc (suc zero))))))))) t h = refl
type_of_index (suc (suc (suc (suc (suc (suc (suc (suc (suc (suc zero)))))))))) t h = refl
type_of_index (suc (suc (suc (suc (suc (suc (suc (suc (suc (suc (suc zero))))))))))) t h = refl
type_of_index (suc (suc (suc (suc (suc (suc (suc (suc (suc (suc (suc (suc i)))))))))))) t h = cc

not_zero : (i : ℕ) → (suc i == 0) ≡ false
not_zero i = ground arith

exec_cmd-dispatch :
    (cmd : List ℕ)
    → (i : ℕ) → (args : List (List ℕ)) → is_command_available (some cmd) ≡ pos (suc i)
    → tokens (suc (strlen cmd)) (c_str cmd) ≡ some args
    → (fork : ℤ) → (exec_fails : Bool)
    → exec_cmd (some cmd) fork exec_fails
      ≡ dispatch (get_or types (suc i) invalid_cmd) (suc i) fork exec_fails args
unfolding exec_cmd
exec_cmd-dispatch cmd i args available cut fork exec_fails =
    simp (available, not_zero i, cut, exec_cmd)

dispatch-split :
    (b : Bool)
    → (i : ℕ) → (fork : ℤ) → (exec_fails : Bool) → (args : List (List ℕ))
    → dispatch (if b then usual_cmd else custom_cmd) i fork exec_fails args
      ≡ (if b then run_usual fork exec_fails args else handled i args)
unfolding dispatch
dispatch-split true i fork exec_fails args = refl
dispatch-split false i fork exec_fails args = refl

-- When a command line is available, its first token is the command of the index; a usual command is
-- run by `fork` and `execvp` with the tokens, and a custom command by its handler on the tokens.
pub exec_cmd-run_usual :
    (cmd : List ℕ)
    → (i : ℕ) → is_command_available (some cmd) ≡ pos (suc i)
    → (t : List ℕ) × (ts : List (List ℕ)) × (tokens (suc (strlen cmd)) (c_str cmd) ≡ some (t ∷ ts))
      × (get_elem? commands i ≡ some t)
      × ((fork : ℤ)
          → (exec_fails : Bool)
          → exec_cmd (some cmd) fork exec_fails
            ≡ (if ltb i 7 then run_usual fork exec_fails (t ∷ ts) else handled (suc i) (t ∷ ts)))
exec_cmd-run_usual cmd i h =
    let (t, ts, cut, name) = is_command_available-first cmd i h in
    (
      t,
      ts,
      cut,
      name,
      λ fork exec_fails.
          exec_cmd-dispatch cmd i (t ∷ ts) h cut fork exec_fails
          ∙ ap (λ y. dispatch y (suc i) fork exec_fails (t ∷ ts)) (type_of_index i t name)
          ∙ dispatch-split (ltb i 7) (suc i) fork exec_fails (t ∷ ts),
    )

run_usual-no_wait :
    (fork : ℤ)
    → (exec_fails : Bool) → (args : List (List ℕ)) → (r : ℤ) → fork ≢ pos 1
    → run_usual fork exec_fails args ≢ returned true r
unfolding run_usual
run_usual-no_wait (negsuc zero) exec_fails args r other h = cc
run_usual-no_wait (negsuc (suc n)) exec_fails args r other h = cc
run_usual-no_wait (pos zero) true args r other h = cc
run_usual-no_wait (pos zero) false args r other h = cc
run_usual-no_wait (pos (suc zero)) exec_fails args r other h = absurd (other refl)
run_usual-no_wait (pos (suc (suc n))) exec_fails args r other h = cc

split-no_wait :
    (b : Bool)
    → (i : ℕ) → (fork : ℤ) → (exec_fails : Bool) → (args : List (List ℕ)) → (r : ℤ) → fork ≢ pos 1
    → (if b then run_usual fork exec_fails args else handled i args) ≢ returned true r
split-no_wait true i fork exec_fails args r other h =
    run_usual-no_wait fork exec_fails args r other h
split-no_wait false i fork exec_fails args r other h = cc

unavailable-no_wait :
    (cmd : List ℕ)
    → (z : ℤ) → is_command_available (some cmd) ≡ z
    → (fork : ℤ) → (exec_fails : Bool) → (r : ℤ) → fork ≢ pos 1
    → exec_cmd (some cmd) fork exec_fails ≢ returned true r
unfolding exec_cmd
unavailable-no_wait cmd (negsuc n) e fork exec_fails r other h =
    let h' : crash ≡ returned true r = simp (e, exec_cmd) at h in cc
unavailable-no_wait cmd (pos zero) e fork exec_fails r other h =
    let h' : returned false invalid_command ≡ returned true r = simp (e, exec_cmd) at h in cc
unavailable-no_wait cmd (pos (suc i)) e fork exec_fails r other h =
    let (t, ts, cut, name, runs) = exec_cmd-run_usual cmd i e in
    split-no_wait (ltb i 7) (suc i) fork exec_fails (t ∷ ts) r other
      (sym (runs fork exec_fails) ∙ h)

-- `exec_cmd` calls `wait` only where `fork` returns 1, the identifier of no child: it does not wait
-- for the command.
pub exec_cmd-never_waits :
    (cmd : Option (List ℕ))
    → (fork : ℤ) → (exec_fails : Bool) → (r : ℤ) → fork ≢ pos 1
    → exec_cmd cmd fork exec_fails ≢ returned true r
unfolding exec_cmd
exec_cmd-never_waits none fork exec_fails r other h = cc
exec_cmd-never_waits (some cmd) fork exec_fails r other h =
    unavailable-no_wait cmd (is_command_available (some cmd)) refl fork exec_fails r other h
