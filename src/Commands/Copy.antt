-- ===== src/Commands/Copy.antt =====
-- libs/commands/commands.c: the command ccp. `getopt` is not modelled: the options come as the list of
-- what its calls answer, with the numbers that `atol` makes of their arguments.
use local_server_c.Base.{
  ℕ, zero, suc, Option, none, some, Bool, true, false, List, [], ◌∷◌, ◌++◌, ◌==◌, if◌then◌else◌,
  length, get_elem?, eqb_ℤ, take, drop, ℤ, pos, negsuc, ltb,
}
use local_server_c.Commands.{exec_error}

-- READ_ERROR and WRITE_ERROR.
abbrev pub read_error : ℤ
read_error = negsuc 0

abbrev pub write_error : ℤ
write_error = negsuc 1

-- The open destination: its bytes, the offset of the descriptor, and is it open with O_APPEND?
pub record Dest : Type 0 where
  pub bytes : List ℕ
  pub offset : ℕ
  pub append : Bool

-- `write` of one byte.
unfoldable pub write_byte : ℕ → Dest → Dest
write_byte b d =
    if d.append
    then record d { bytes = d.bytes ++ b ∷ []; offset = suc (length d.bytes) }
    else record d {
      bytes = take d.offset d.bytes ++ b ∷ drop (suc d.offset) d.bytes;
      offset = suc d.offset;
    }

-- `max == -1 || TELL(fd_dest) != max`; `none` is -1.
abbrev pub goes_on : Option ℕ → ℕ → Bool
goes_on none offset = true
goes_on (some max) offset = if offset == max then false else true

-- `ccp` from round `i`, on fuel, with the source's descriptor at `at`. `read_fails` and `write_fails` say
-- in which rounds the calls fail. Where the source and the destination are one file (`one_file`), what
-- is written is read.
module _ (read_fails write_fails : ℕ → Bool) (one_file : Bool) (src : List ℕ) (max : Option ℕ) where
  unfoldable pub ccp : ℕ → ℕ → ℕ → Dest → Option (ℤ × Dest)
  ccp zero i at d = none
  ccp (suc n) i at d = elim (goes_on max d.offset) [
    | false ↦ some (pos 0, d)
    | true ↦ elim (read_fails i) [
      | true ↦ some (read_error, d)
      | false ↦ elim (get_elem? (if one_file then d.bytes else src) at) [
        | none ↦ some (pos 0, d)
        | some b ↦ elim (write_fails i) [
          | true ↦ some (write_error, d)
          | false ↦ ccp n (suc i) (suc at) (write_byte b d)
        ]
      ]
    ]
  ]

-- What a call of `getopt` answers.
pub data Opt : Type 0 where
  opt_f opt_d : List ℕ → Opt
  opt_v opt_a opt_bad : Opt
  opt_b opt_e : ℤ → Opt

-- The variables that the options fill; a file that no option has named is not initialised.
pub record Options : Type 0 where
  pub src_file : Option (List ℕ)
  pub dest_file : Option (List ℕ)
  pub excl : Bool
  pub append : Bool
  pub bvalue : ℕ
  pub evalue : Option ℕ

abbrev pub default_options : Options
default_options = record {
  src_file = none;
  dest_file = none;
  excl = false;
  append = false;
  bvalue = 0;
  evalue = none;
}

-- The `switch` of `exec_ccp`; `none` is the return of EXEC_ERROR.
unfoldable pub read_option : Opt → Options → Option Options
read_option (opt_f s) o = some (record o { src_file = some s })
read_option (opt_d s) o = some (record o { dest_file = some s })
read_option opt_v o = some (record o { excl = true })
read_option opt_a o = some (record o { append = true })
read_option opt_bad o = none
read_option (opt_b (pos n)) o = some (record o { bvalue = n })
read_option (opt_b (negsuc n)) o = none
read_option (opt_e (pos n)) o = if ltb n o.bvalue then none else some (record o { evalue = some n })
read_option (opt_e (negsuc n)) o = none

unfoldable pub read_options : List Opt → Options → Option Options
unfolding read_option
read_options [] o = some o
read_options (x ∷ xs) o = elim (read_option x o) [ none ↦ none | some o' ↦ read_options xs o' ]

-- The files, by path; and what the system answers besides.
abbrev pub Files : Type 0
Files = List ℕ → Option (List ℕ)

pub record Answers : Type 0 where
  pub same_path : List ℕ → List ℕ → Bool
  pub src_refused : Bool
  pub seek_refused : Bool
  pub dest_refused : Bool
  pub read_fails : ℕ → Bool
  pub write_fails : ℕ → Bool

abbrev pub write_file : Answers → Files → List ℕ → List ℕ → Files
write_file a fs path bytes q = if a.same_path path q then some bytes else fs q

-- `open` of the source with O_CREAT, and O_EXCL with -v: the bytes and the files.
unfoldable pub open_src : Answers → Files → Bool → List ℕ → Option (List ℕ × Files)
open_src a fs excl path = if a.src_refused then none else elim (fs path) [
  | none ↦ some ([], write_file a fs path [])
  | some bytes ↦ if excl then none else some (bytes, fs)
]

-- `open` of the destination, with O_TRUNC or, with -a, O_APPEND.
unfoldable pub open_dest : Answers → Files → Bool → List ℕ → Option Dest
open_dest a fs append path = if a.dest_refused then none else elim (fs path) [
  | none ↦ some (record { bytes = []; offset = 0; append = append })
  | some bytes ↦ some (record { bytes = if append then bytes else []; offset = 0; append = append })
]

-- How `exec_ccp` ends: with a result and the files, by using a pointer that nothing has set, or still
-- in its loop.
pub data Copied : Type 0 where
  copied : ℤ → Files → Copied
  undefined : Copied
  running : Copied

-- What `exec_ccp` makes of the result of `ccp`.
abbrev pub copy_result : ℤ → ℤ
copy_result r = if eqb_ℤ r (pos 0) then pos 1 else exec_error

-- `exec_ccp` after its options, with the files named. A descriptor that `lseek` has put past the end
-- reads nothing.
unfoldable pub copy_files : ℕ → Answers → Files → Options → List ℕ → List ℕ → Copied
unfolding open_src open_dest ccp
copy_files fuel a fs o src_path dest_path = elim (open_src a fs o.excl src_path) [
  | none ↦ copied exec_error fs
  | some (src, fs₁) ↦
      if a.seek_refused then copied exec_error fs₁ else elim (open_dest a fs₁ o.append dest_path) [
        | none ↦ copied exec_error fs₁
        | some d ↦
            elim (ccp a.read_fails a.write_fails (a.same_path dest_path src_path) src o.evalue fuel
              0 o.bvalue d) [
                | none ↦ running
                | some (r, d') ↦ copied (copy_result r) (write_file a fs₁ dest_path d'.bytes)
              ]
      ]
]

-- `exec_ccp`.
unfoldable pub exec_ccp : ℕ → Answers → Files → ℕ → List Opt → Copied
unfolding read_options copy_files
exec_ccp fuel a fs argc opts =
    if argc == 1 then copied exec_error fs else elim (read_options opts default_options) [
      | none ↦ copied exec_error fs
      | some o ↦ elim o.src_file [
        | none ↦ undefined
        | some src_path ↦ elim o.dest_file [
          | none ↦ undefined
          | some dest_path ↦ copy_files fuel a fs o src_path dest_path
        ]
      ]
    ]
