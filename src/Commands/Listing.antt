-- ===== src/Commands/Listing.antt =====
-- libs/commands/commands.c: the command lsl (exec_lsl, print_file_info). What the system answers is an
-- argument, and so is what the local arrays hold before they are written.
use local_server_c.Base.{
  ℕ, ◌+◌, ◌-◌, Option, none, some, Bool, true, false, ◌&&◌, ◌||◌, List, [], ◌∷◌, ◌++◌, ◌==◌, ltb,
  leb, if◌then◌else◌, length, take, drop, get_or, ℤ, pos, negsuc, eqb_ℤ,
}
use local_server_c.Base.Text.{codes, c_str, strlen, strncpy, same_text}
use local_server_c.Commands.{exec_error}
use local_server_c.Commands.Mode.{mode_str_length, color_size, strmode, get_color}

-- PATH_MAX of <limits.h>.
abbrev pub path_max : ℕ
path_max = 4096

-- `struct stat`, as far as it is used.
pub record Stats : Type 0 where
  pub ino : ℕ
  pub mode : ℕ
  pub nlink : ℕ
  pub uid : ℕ
  pub gid : ℕ
  pub size : ℕ
  pub mtime : ℕ

-- What the system answers. `names` of a directory are those that `readdir` gives until NULL, `date` is
-- the text of `strftime` (empty where it returns 0), and `mode_memory` and `color_memory` are what the
-- arrays of `print_file_info` hold.
pub record ListEnv : Type 0 where
  pub names : List ℕ → Option (List (List ℕ))
  pub errno_set : Bool
  pub closed : Bool
  pub lstat : List ℕ → Option Stats
  pub user : ℕ → Option (List ℕ)
  pub group : ℕ → Option (List ℕ)
  pub date : ℕ → List ℕ
  pub mode_memory : List ℕ → List ℕ
  pub color_memory : List ℕ → List ℕ

-- What the line of a file is printed from.
pub record Line : Type 0 where
  pub ino : ℕ
  pub mode : List ℕ
  pub nlink : ℕ
  pub user : List ℕ
  pub group : List ℕ
  pub size : ℕ
  pub date : List ℕ
  pub color : List ℕ
  pub path : List ℕ

-- What is printed.
pub data Out : Type 0 where
  line : Line → Out
  mode_cut no_date path_too_long invalid_path : Out
  unexpected_file : List ℕ → Out

-- How a function ends: with a result, or by an access to memory that is not its own. FILE_NOT_FOUND
-- is -1, PRINT_ERROR -2.
pub data Ended : Type 0 where
  returned : ℤ → Ended
  bad_access : Ended

-- `tolower` of an ASCII character.
unfoldable pub tolower : ℕ → ℕ
tolower c = if leb 65 c && leb c 90 then c + 32 else c

abbrev pub lower_first : List ℕ → List ℕ
lower_first [] = []
lower_first (c ∷ s) = tolower c ∷ s

-- `print_file_info` from the date on, with the mode.
unfoldable pub print_line : ListEnv → List ℕ → Stats → List ℕ → List Out → List Out × Ended
print_line env path stats mode outs =
    if length (env.date stats.mtime) == 0
    then (outs ++ no_date ∷ [], returned (negsuc 1))
    else elim (env.user stats.uid) [
      | none ↦ (outs, bad_access)
      | some user ↦ elim (env.group stats.gid) [
        | none ↦ (outs, bad_access)
        | some group ↦ (
          outs
              ++ line (record {
                ino = stats.ino;
                mode = c_str mode;
                nlink = stats.nlink;
                user = user;
                group = group;
                size = stats.size;
                date = lower_first (env.date stats.mtime);
                color =
                    c_str (get_color (env.color_memory path) (color_size + 1) (get_or mode 0 0));
                path = path;
              })
                ∷ [],
          returned (pos 0),
        )
      ]
    ]

-- `print_file_info`.
unfoldable pub print_file_info : ListEnv → List ℕ → List Out × Ended
unfolding print_line
print_file_info env path = elim (env.lstat path) [
  | none ↦ ([], returned (negsuc 0))
  | some stats ↦
      let (r, mode) = strmode stats.mode (env.mode_memory path) (mode_str_length + 1) in
      print_line env path stats mode (if eqb_ℤ r (pos 0) then [] else mode_cut ∷ [])
]

-- The loop on the entries, from the name that comes next, up to `close`; `prefix` is what the paths
-- start with.
unfoldable pub list_entries : ListEnv → List ℕ → List (List ℕ) → List Out × Ended
unfolding print_file_info
list_entries env prefix [] = ([], returned (if env.errno_set then exec_error else pos 1))
list_entries env prefix (name ∷ names) =
    let fullname = prefix ++ take (path_max + 1) name in
    let later = list_entries env prefix names in
    elim (same_text name (codes ".") || same_text name (codes "..")) [
      | true ↦ later
      | false ↦
          if ltb (path_max + 1) (length fullname)
          then (invalid_path ∷ [], returned exec_error)
          else (let (outs, info) = print_file_info env fullname in
              elim info [
                | bad_access ↦ (outs, bad_access)
                | returned r ↦
                    if eqb_ℤ r (negsuc 0)
                    then (outs ++ unexpected_file fullname ∷ [], returned exec_error)
                    else (outs ++ later.0, later.1)
              ])
    ]

-- `strcat` into an array: the string of the array is found, and followed by `src` and a NUL; `none`
-- where that leaves the array.
unfoldable pub strcat : List ℕ → List ℕ → Option (List ℕ)
strcat dst src =
    let n = strlen dst in
    if ltb (n + length src) (length dst)
    then some (take n dst ++ src ++ 0 ∷ drop (n + length src + 1) dst)
    else none

-- `dir_path`, from what it holds and the arguments: an access to memory that is not its own, the error
-- on a long path, or the bytes of the array.
pub data DirPath : Type 0 where
  no_access too_long : DirPath
  path : List ℕ → DirPath

unfoldable pub dir_path : List ℕ → List (List ℕ) → DirPath
unfolding strcat
dir_path memory [] = no_access
dir_path memory (name ∷ []) = path (strncpy memory (codes ".") path_max)
dir_path memory (name ∷ dir ∷ args) =
    if length dir == 0
    then no_access
    else if get_or dir (length dir - 1) 0 == b'/'
    then path (strncpy memory dir (path_max + 1))
    else elim (strcat (strncpy memory dir path_max) (codes "/")) [
      | none ↦ no_access
      | some bytes ↦ if get_or bytes path_max 0 == 0 then path bytes else too_long
    ]

-- `exec_lsl` from `opendir` on.
unfoldable pub list_directory : ListEnv → Bool → List ℕ → List Out × Ended
unfolding list_entries
list_directory env prefixed dir = elim (env.names dir) [
  | none ↦ ([], returned exec_error)
  | some names ↦
      let (outs, end) = list_entries env (if prefixed then dir else []) names in
      elim end [
        | bad_access ↦ (outs, bad_access)
        | returned r ↦ (outs, returned (if env.closed then r else exec_error))
      ]
]

-- `exec_lsl`, on its arguments and what `dir_path` holds.
unfoldable pub exec_lsl : ListEnv → List ℕ → List (List ℕ) → List Out × Ended
unfolding dir_path list_directory
exec_lsl env memory args = elim (dir_path memory args) [
  | no_access ↦ ([], bad_access)
  | too_long ↦ (path_too_long ∷ [], returned exec_error)
  | path bytes ↦ list_directory env (ltb 1 (length args)) (c_str bytes)
]
