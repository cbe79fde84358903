-- ===== src/Commands/Tests.antt =====
-- The theorems on the commands at small command lines, modes and files.
use local_server_c.Base.{
  ℕ, suc, ◌≤◌, ◌≡◌, refl, none, some, Bool, true, false, List, [], ◌∷◌, if◌then◌else◌, length,
  get_elem?, drop, All, ℤ, pos, arith,
}
use local_server_c.Base.Text.{codes, c_str, strlen, same_text}
use local_server_c.Commands.{tokens, commands, is_command_available, exec_cmd}
use local_server_c.Commands.Mode.{strmode}
use local_server_c.Commands.Copy.{
  Dest, Opt, opt_f, opt_d, opt_v, opt_b, opt_e, Options, default_options, read_options, Files,
  Answers, write_file, ccp, copied, exec_ccp,
}
use local_server_c.Commands.Words.{IsWord, flat, squeeze, tokens-words}
use local_server_c.Commands.Handlers.{by_lsl, called}
use local_server_c.Commands.Table.{handler_named, by_name, exec_cmd-called}
use local_server_c.Commands.Rights.{right, strmode_ninth_right}
use local_server_c.Commands.Copying.{limit, exec_ccp-copies, ccp-self_append}

abbrev line : List ℕ
line = codes "ls  -l"

tokens-words_example :
    (ts : List (List ℕ)) × (tokens 7 line ≡ some ts)
    × All IsWord ts
    × (flat ts ≡ squeeze line)
    × (length ts ≤ length line)
tokens-words_example = tokens-words 7 line (omega arith)

abbrev custom_line : List ℕ
custom_line = codes " lsl  tmp"

custom_line-available : is_command_available (some custom_line) ≡ pos 11
unfolding is_command_available c_str same_text
custom_line-available = refl

-- `lsl` is run by exec_lsl.
custom_line-named : handler_named (codes "lsl") ≡ some by_lsl
unfolding same_text
custom_line-named = refl

exec_cmd-called_example :
    (t : List ℕ) × (ts : List (List ℕ)) × (tokens (suc (strlen custom_line)) (c_str custom_line)
      ≡ some (t ∷ ts))
    × (get_elem? commands 10 ≡ some t)
    × ((fork : ℤ) (exec_fails : Bool)
        → called (exec_cmd (some custom_line) fork exec_fails) ≡ by_name t fork exec_fails (t ∷ ts))
exec_cmd-called_example = exec_cmd-called custom_line 10 custom_line-available

-- The mode 100755.
strmode_ninth_right_example : strmode 33261 (1 ∷ 1 ∷ 1 ∷ 1 ∷ 1 ∷ 1 ∷ 1 ∷ 1 ∷ 1 ∷ 63 ∷ 1 ∷ []) 11 ≡ (
  pos 0,
  b'-'
      ∷ right 33261 b'-' 1
      ∷ right 33261 b'-' 2
      ∷ right 33261 b'-' 3
      ∷ right 33261 b'-' 4
      ∷ right 33261 b'-' 5
      ∷ right 33261 b'-' 6
      ∷ right 33261 b'-' 7
      ∷ right 33261 b'-' 8
      ∷ 63
      ∷ 0
      ∷ [],
)
strmode_ninth_right_example = strmode_ninth_right 33261 b'-' 1 1 1 1 1 1 1 1 1 63 1 refl

abbrev disk : Files
disk q = if same_text q (codes "a") then some (codes "hello") else none

abbrev sound : Answers
sound = record {
  same_path = same_text;
  src_refused = false;
  seek_refused = false;
  dest_refused = false;
  read_fails = λ i. false;
  write_fails = λ i. false;
}

abbrev part : List Opt
part = opt_f (codes "a") ∷ opt_d (codes "b") ∷ opt_b (pos 1) ∷ opt_e (pos 3) ∷ []

abbrev part_options : Options
part_options = record {
  src_file = some (codes "a");
  dest_file = some (codes "b");
  excl = false;
  append = false;
  bvalue = 1;
  evalue = some 3;
}

part_read : read_options part default_options ≡ some part_options
unfolding read_options
part_read = refl

a_there : disk (codes "a") ≡ some (codes "hello")
unfolding same_text
a_there = refl

b_is_not_a : same_text (codes "b") (codes "a") ≡ false
unfolding same_text
b_is_not_a = refl

exec_ccp-copies_example :
    exec_ccp 6 sound disk 9 part
    ≡ copied (pos 1) (write_file sound disk (codes "b") (limit (some 3) 0 (drop 1 (codes "hello"))))
exec_ccp-copies_example =
    exec_ccp-copies sound disk 9 part part_options (codes "a") (codes "b") (codes "hello") refl
      part_read refl refl refl refl a_there b_is_not_a refl refl refl (λ i. refl) (λ i. refl)

abbrev checked : List Opt
checked = opt_f (codes "a") ∷ opt_d (codes "b") ∷ opt_v ∷ []

abbrev checked_options : Options
checked_options = record {
  src_file = some (codes "a");
  dest_file = some (codes "b");
  excl = true;
  append = false;
  bvalue = 0;
  evalue = none;
}

checked_read : read_options checked default_options ≡ some checked_options
unfolding read_options
checked_read = refl

abbrev growing : Dest
growing = record { bytes = codes "hello"; offset = 0; append = true }

ccp-self_append_example :
    ccp (λ i. false) (λ i. false) true (codes "hello") none 1000 0 0 growing ≡ none
ccp-self_append_example =
    ccp-self_append (λ i. false) (λ i. false) (λ i. refl) (λ i. refl) (codes "hello") 1000 0 0
      growing refl (omega arith)
