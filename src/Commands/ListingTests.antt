-- ===== src/Commands/ListingTests.antt =====
-- The theorems on lsl and info, at a directory of one file and a client with a number of seven digits.
use local_server_c.Base.{
  ℕ, ◌+◌, ◌≡◌, refl, some, true, false, List, [], ◌∷◌, ◌++◌, ◌==◌, if◌then◌else◌, map, replicate,
  get_or, pos, arith,
}
use local_server_c.Base.Text.{codes, c_str, same_text, strlen, NulFree, strlen-NulFree}
use local_server_c.Commands.{exec_error}
use local_server_c.Commands.Listing
use local_server_c.Commands.Listing.{path_max, Stats, ListEnv, line, Line, path_too_long, exec_lsl}
use local_server_c.Commands.Directories.{exec_lsl-slash}
use local_server_c.Commands.Entries.{visible, Shown, line_of, given, exec_lsl-lines}
use local_server_c.Commands.Info.{decimal, InfoEnv, header, command, status, exec_info}
use local_server_c.Commands.Pids.{shown_pid, exec_info-own}

abbrev stats : Stats
stats = record { ino = 7; mode = 33188; nlink = 1; uid = 0; gid = 0; size = 12; mtime = 0 }

-- Every directory holds one file, besides `.` and `..`.
abbrev env : ListEnv
env = record {
  names = λ d. some (codes "." ∷ codes ".." ∷ codes "a" ∷ []);
  errno_set = false;
  closed = true;
  lstat = λ p. some stats;
  user = λ u. some (codes "root");
  group = λ g. some (codes "root");
  date = λ t. codes "Jan.  01 00:00";
  mode_memory = λ p. replicate 11 1;
  color_memory = λ p. replicate 10 1;
}

abbrev memory : List ℕ
memory = replicate (path_max + 1) 99

tmp-NulFree : NulFree (codes "tmp")
unfolding strlen c_str
tmp-NulFree = strlen-NulFree (codes "tmp") refl

exec_lsl-slash_example : exec_lsl env memory (codes "lsl" ∷ codes "tmp" ∷ []) ≡ (
    if get_or memory path_max 0 == 0
    then exec_lsl env memory (codes "lsl" ∷ (codes "tmp" ++ b'/' ∷ []) ∷ [])
    else (path_too_long ∷ [], Listing.returned exec_error))
exec_lsl-slash_example =
    exec_lsl-slash env memory (codes "lsl") (codes "tmp") [] tmp-NulFree (omega arith)
      (λ e. omega arith) (λ e. omega arith)

shown : (p : List ℕ) → Shown env p
shown p = record {
  stats = stats;
  owner = codes "root";
  team = codes "root";
  found = refl;
  user_found = refl;
  group_found = refl;
  dated = λ e. omega arith;
}

abbrev lines : List ℕ → Line
lines name =
    line_of env ((codes "tmp" ++ b'/' ∷ []) ++ name) (shown ((codes "tmp" ++ b'/' ∷ []) ++ name))

one_file : visible (codes "." ∷ codes ".." ∷ codes "a" ∷ []) ≡ codes "a" ∷ []
unfolding same_text
one_file = refl

exec_lsl-lines_example : exec_lsl env memory (codes "lsl" ∷ given (some (codes "tmp"))) ≡ (
  map (λ n. line (lines n)) (visible (codes "." ∷ codes ".." ∷ codes "a" ∷ [])),
  Listing.returned (pos 1),
)
exec_lsl-lines_example =
    exec_lsl-lines env memory (codes "lsl") (some (codes "tmp")) (tmp-NulFree, omega arith)
      (codes "." ∷ codes ".." ∷ codes "a" ∷ []) refl refl refl lines
      (rw one_file ((omega arith, (shown _, refl)), tt))

-- Every file has seven lines.
abbrev seven : List (List ℕ)
seven = codes "1" ∷ codes "2" ∷ codes "3" ∷ codes "4" ∷ codes "5" ∷ codes "6" ∷ codes "7" ∷ []

abbrev proc : InfoEnv
proc = record { first_allocated = true; second_allocated = true; file = λ p. some seven }

exec_info-own_example :
    let pid = decimal (shown_pid 1234567) in
    exec_info proc (replicate 8 99) (replicate 256 99) 1234567 (codes "info" ∷ [])
    ≡ some (
      header pid
          ∷ command pid (c_str (codes "1"))
          ∷ status pid (c_str (codes "3"))
          ∷ status pid (c_str (codes "4"))
          ∷ status pid (c_str (codes "7"))
          ∷ [],
      pos 1,
    )
exec_info-own_example =
    exec_info-own proc (replicate 8 99) (replicate 256 99) (codes "info") 1234567 (omega arith) refl
      refl (codes "1") (codes "2" ∷ codes "3" ∷ codes "4" ∷ codes "5" ∷ codes "6" ∷ codes "7" ∷ [])
      refl (codes "1") (codes "2") (codes "3") (codes "4") (codes "5") (codes "6") (codes "7") []
      refl
