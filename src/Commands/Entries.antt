-- ===== src/Commands/Entries.antt =====
-- The lines that the command lsl prints for the entries of a directory.
use local_server_c.Base.{
  ℕ, ◌+◌, ◌≤◌, ◌≡◌, ◌≢◌, refl, sym, ap, ◌∙◌, Option, none, some, Bool, true, false, ◌||◌, List, [],
  ◌∷◌, ◌++◌, ◌==◌, ltb, inl, inr, Bool-cases, if◌then◌else◌, map, take, length, get_or,
  length-append, take_all, pos, All, drop, arith,
}
use mathlib.Core.Path.{subst}
use local_server_c.Base.Text.{codes, c_str, strncpy, same_text, NulFree, copied}
use local_server_c.Commands.Mode.{mode_str_length, color_size, strmode, get_color}
use local_server_c.Commands.Listing.{
  path_max, Stats, ListEnv, Out, line, Line, lower_first, returned, print_line, print_file_info,
  list_entries, dir_path, list_directory, exec_lsl,
}
use local_server_c.Commands.Directories.{exec_lsl-path, slash_path, dir_path-slash}

-- The entries other than `.` and `..`.
abbrev pub visible : List (List ℕ) → List (List ℕ)
visible [] = []
visible (name ∷ names) =
    if same_text name (codes ".") || same_text name (codes "..")
    then visible names
    else name ∷ visible names

-- Every call of `print_file_info` for a path works.
pub record Shown (env : ListEnv) (p : List ℕ) : Type 0 where
  pub stats : Stats
  pub owner : List ℕ
  pub team : List ℕ
  pub found : env.lstat p ≡ some stats
  pub user_found : env.user stats.uid ≡ some owner
  pub group_found : env.group stats.gid ≡ some team
  pub dated : length (env.date stats.mtime) ≢ 0

-- The line of a path.
abbrev pub line_of : (env : ListEnv) (p : List ℕ) → Shown env p → Line
line_of env p s =
    let mode = (strmode s.stats.mode (env.mode_memory p) (mode_str_length + 1)).1 in
    record {
      ino = s.stats.ino;
      mode = c_str mode;
      nlink = s.stats.nlink;
      user = s.owner;
      group = s.team;
      size = s.stats.size;
      date = lower_first (env.date s.stats.mtime);
      color = c_str (get_color (env.color_memory p) (color_size + 1) (get_or mode 0 0));
      path = p;
    }

strmode-enough :
    (mode : ℕ) (memory : List ℕ) → (strmode mode memory (mode_str_length + 1)).0 ≡ pos 0
unfolding strmode
strmode-enough mode memory = refl

print_file_info-line :
    (env : ListEnv) (p : List ℕ) (s : Shown env p)
    → print_file_info env p ≡ (line (line_of env p s) ∷ [], returned (pos 0))
unfolding print_file_info print_line
print_file_info-line env p s =
    let e : (length (env.date s.stats.mtime) == 0) ≡ false = (let d = s.dated in ground arith) in
    simp (
      s.found,
      strmode-enough s.stats.mode (env.mode_memory p),
      e,
      s.user_found,
      s.group_found,
      print_file_info,
      print_line,
    )

-- The path of an entry is not too long, and the entry has its line.
abbrev pub Has : (env : ListEnv) → List ℕ → (List ℕ → Line) → List ℕ → Type 0
Has env prefix lines name =
    (length (prefix ++ name) ≤ path_max + 1)
    × ((s : Shown env (prefix ++ name)) × (lines name ≡ line_of env (prefix ++ name) s))

is_dot : List ℕ → Bool
is_dot name = same_text name (codes ".") || same_text name (codes "..")

visible-dot :
    (name : List ℕ) (names : List (List ℕ))
    → is_dot name ≡ true
    → visible (name ∷ names) ≡ visible names
unfolding is_dot
visible-dot name names e = simp e

visible-entry :
    (name : List ℕ) (names : List (List ℕ))
    → is_dot name ≡ false
    → visible (name ∷ names) ≡ name ∷ visible names
unfolding is_dot
visible-entry name names e = simp e

module _ (env : ListEnv) (prefix : List ℕ) (lines : List ℕ → Line)
    (ok : env.errno_set ≡ false) where
  list_entries-dot :
      (name : List ℕ) (names : List (List ℕ))
      → is_dot name ≡ true
      → list_entries env prefix (name ∷ names) ≡ list_entries env prefix names
  unfolding list_entries is_dot
  list_entries-dot name names e = simp (e, list_entries)

  list_entries-entry :
      (name : List ℕ) (names : List (List ℕ)) (outs : List Out)
      → is_dot name ≡ false
      → Has env prefix lines name
      → list_entries env prefix names ≡ (outs, returned (pos 1))
      → list_entries env prefix (name ∷ names) ≡ (line (lines name) ∷ outs, returned (pos 1))
  unfolding list_entries is_dot
  list_entries-entry name names outs e (short, (s, same)) later =
      let whole : take (path_max + 1) name ≡ name =
        take_all (path_max + 1) name (omega (arith, length-append prefix name)) in
      let fits : ltb (path_max + 1) (length (prefix ++ name)) ≡ false = ground arith in
      simp (e, whole, fits, print_file_info-line env (prefix ++ name) s, later, same, list_entries)

  list_entries-lines :
      (names : List (List ℕ))
      → All (Has env prefix lines) (visible names)
      → list_entries env prefix names
        ≡ (map (λ name. line (lines name)) (visible names), returned (pos 1))
  unfolding list_entries
  list_entries-lines [] shown = simp ok
  list_entries-lines (name ∷ names) shown = elim (Bool-cases (is_dot name)) [
    | inl dot ↦
        let same = visible-dot name names dot in
        let IH = list_entries-lines names (subst (All (Has env prefix lines)) same shown) in
        list_entries-dot name names dot
        ∙ IH
        ∙ ap (λ l. (map (λ n. line (lines n)) l, returned (pos 1))) (sym same)
    | inr entry ↦
        let same = visible-entry name names entry in
        let (first, rest) = subst (All (Has env prefix lines)) same shown in
        let IH = list_entries-lines names rest in
        list_entries-entry name names (map (λ n. line (lines n)) (visible names)) entry first IH
        ∙ ap (λ l. (map (λ n. line (lines n)) l, returned (pos 1))) (sym same)
  ]

-- The directory of lsl: none given, or one that is given with a `/` at its end.
abbrev pub given : Option (List ℕ) → List (List ℕ)
given none = []
given (some d) = (d ++ b'/' ∷ []) ∷ []

abbrev pub opened : Option (List ℕ) → List ℕ
opened none = codes "."
opened (some d) = d ++ b'/' ∷ []

abbrev pub prefix_of : Option (List ℕ) → List ℕ
prefix_of none = []
prefix_of (some d) = d ++ b'/' ∷ []

abbrev pub IsShort : Option (List ℕ) → Type 0
IsShort none = Unit
IsShort (some d) = NulFree d × (length d + 2 ≤ path_max)

here_path : (memory : List ℕ) → c_str (strncpy memory (codes ".") path_max) ≡ codes "."
unfolding strncpy c_str
here_path memory =
    copied 4095 (codes ".") (drop path_max memory) ((λ e. omega arith), tt) (omega arith)

exec_lsl-directory :
    (env : ListEnv) (memory name : List ℕ) (target : Option (List ℕ))
    → IsShort target
    → (names : List (List ℕ)) → env.names (opened target) ≡ some names
    → env.closed ≡ true
    → (outs : List Out) → list_entries env (prefix_of target) names ≡ (outs, returned (pos 1))
    → exec_lsl env memory (name ∷ given target) ≡ (outs, returned (pos 1))
unfolding exec_lsl list_directory dir_path
exec_lsl-directory env memory name none short names e closed outs run =
    simp (here_path memory, e, closed, run, exec_lsl, list_directory)
exec_lsl-directory env memory name (some d) (free, short) names e closed outs run =
    exec_lsl-path env memory (strncpy memory (d ++ b'/' ∷ []) (path_max + 1)) name (d ++ b'/' ∷ [])
      [] (dir_path-slash d memory free short name [])
    ∙ ap (list_directory env true) (slash_path d memory free short)
    ∙ simp (e, closed, run, list_directory)

-- When no call fails, lsl of the current directory, or of a directory that is given with a `/` at its
-- end, returns 1 and prints the line of each entry other than `.` and `..`, in the order of `readdir`
-- and once: its inode, mode, links, owner, group, size, date, color and path.
pub exec_lsl-lines :
    (env : ListEnv) (memory name : List ℕ) (target : Option (List ℕ))
    → IsShort target
    → (names : List (List ℕ)) → env.names (opened target) ≡ some names
    → env.closed ≡ true
    → env.errno_set ≡ false
    → (lines : List ℕ → Line) → All (Has env (prefix_of target) lines) (visible names)
    → exec_lsl env memory (name ∷ given target)
      ≡ (map (λ n. line (lines n)) (visible names), returned (pos 1))
exec_lsl-lines env memory name target short names e closed ok lines shown =
    exec_lsl-directory env memory name target short names e closed
      (map (λ n. line (lines n)) (visible names))
      (list_entries-lines env (prefix_of target) lines ok names shown)
