-- ===== src/Commands/Info.antt =====
-- libs/commands/commands.c: the commands info and uinfo (exec_info, exec_uinfo). What
-- the system answers is an argument, and so is what the local arrays hold before they are written.
use local_server_c.Base.{
  ℕ, zero, suc, ◌+◌, ◌-◌, ◌/◌, ◌%◌, Option, none, some, Bool, not, ◌||◌, List, [], ◌∷◌, ◌++◌, ◌==◌,
  ltb, if◌then◌else◌, length, take, drop, ℤ, pos,
}
use local_server_c.Base.Text.{codes, c_str, strlen, strncpy}
use local_server_c.Commands.{exec_error}

-- PID_NB_NUMBER.
abbrev pub pid_nb_number : ℕ
pid_nb_number = 7

-- The decimal digits of a number, on fuel, before the ones that are there already.
unfoldable pub digits : ℕ → ℕ → List ℕ
digits zero n = []
digits (suc k) n =
    let front = digits k (n / 10) in (if n / 10 == 0 then [] else front) ++ (48 + n % 10) ∷ []

-- `%d` of a number that is not negative: a `pid_t` and a `uid_t` have ten digits at most.
abbrev pub decimal : ℕ → List ℕ
decimal = digits 10

-- `snprintf(pid, n + 1, "%d", k)`.
unfoldable pub snprintf : List ℕ → ℕ → ℕ → List ℕ
unfolding digits
snprintf buffer n k = let text = take n (decimal k) in text ++ 0 ∷ drop (length text + 1) buffer

-- What is in `pid`, from what it holds, the number of the client and the arguments.
unfoldable pub pid_text : List ℕ → ℕ → List (List ℕ) → List ℕ
unfolding snprintf
pid_text memory client (name ∷ arg ∷ args) = strncpy memory arg pid_nb_number
pid_text memory client args = snprintf memory (pid_nb_number - 1) client

-- What is printed: the header, a line that could not be read, a file that could not be opened, no
-- memory, the command, a line of the status.
pub data Out : Type 0 where
  header : List ℕ → Out
  read_error : Out
  no_cmdline no_status no_memory : Out
  command : List ℕ → List ℕ → Out
  status : List ℕ → List ℕ → Out

-- What the system answers: the two results of `malloc`, and what the calls of `fgets` on a file that
-- can be opened store in turn, until NULL.
pub record InfoEnv : Type 0 where
  pub first_allocated : Bool
  pub second_allocated : Bool
  pub file : List ℕ → Option (List (List ℕ))

-- A call of `fgets` into `line`: what `line` holds after it, and what is left to read.
unfoldable pub next_line : List ℕ → List (List ℕ) → List Out × List ℕ × List (List ℕ)
next_line buffer [] = (read_error ∷ [], buffer, [])
next_line buffer (l ∷ ls) = ([], l ++ 0 ∷ drop (length l + 1) buffer, ls)

-- The loop on `status`: `k` rounds from index `i`.
unfoldable pub status_loop : List ℕ → ℕ → ℕ → List ℕ → List (List ℕ) → List Out
unfolding next_line
status_loop pid zero i buffer ls = []
status_loop pid (suc k) i buffer ls =
    let (outs, buffer', ls') = next_line buffer ls in
    let shown = if i == 2 || (i == 3 || i == 6) then status pid (c_str buffer') ∷ [] else [] in
    outs ++ (shown ++ status_loop pid k (suc i) buffer' ls')

-- The path of a file of a process.
abbrev pub proc_path : List ℕ → List ℕ → List ℕ
proc_path pid file = codes "/proc/" ++ (pid ++ file)

-- `exec_info` from the file status on.
unfoldable pub info_status : InfoEnv → List ℕ → List ℕ → List Out → List Out × ℤ
unfolding status_loop
info_status env pid buffer outs =
    if not env.second_allocated
    then (outs ++ no_memory ∷ [], exec_error)
    else elim (env.file (proc_path pid (codes "/status"))) [
      | none ↦ (outs ++ no_status ∷ [], exec_error)
      | some ls ↦ (outs ++ status_loop pid 7 0 buffer ls, pos 1)
    ]

-- `exec_info` from the header on, for the text of `pid`.
unfoldable pub info_pid : InfoEnv → List ℕ → List ℕ → List Out × ℤ
unfolding info_status
info_pid env line_memory pid =
    if not env.first_allocated
    then (header pid ∷ no_memory ∷ [], exec_error)
    else elim (env.file (proc_path pid (codes "/cmdline"))) [
      | none ↦ (header pid ∷ no_cmdline ∷ [], exec_error)
      | some ls ↦
          let (outs, buffer, ls') = next_line line_memory ls in
          info_status env pid buffer (header pid ∷ (outs ++ command pid (c_str buffer) ∷ []))
    ]

-- `exec_info`; `none` where the array `pid` has no NUL, and what follows it is read.
unfoldable pub exec_info : InfoEnv → List ℕ → List ℕ → ℕ → List (List ℕ) → Option (List Out × ℤ)
unfolding info_pid pid_text
exec_info env pid_memory line_memory client args =
    let pid = pid_text pid_memory client args in
    if ltb (strlen pid) (length pid) then some (info_pid env line_memory (c_str pid)) else none

-- `struct passwd`, as far as it is used.
pub record Passwd : Type 0 where
  pub pw_name : List ℕ
  pub pw_uid : ℕ
  pub pw_gid : ℕ
  pub pw_dir : List ℕ
  pub pw_shell : List ℕ

-- `exec_uinfo`, on the results of `getpwuid`: the entry that is printed, and the result; `none` where
-- memory at NULL is read.
unfoldable pub exec_uinfo : (ℕ → Option Passwd) → ℕ → Option (Passwd × ℤ)
exec_uinfo getpwuid uid = elim (getpwuid uid) [ none ↦ none | some p ↦ some (p, pos 1) ]
