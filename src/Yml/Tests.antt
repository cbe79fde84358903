-- ===== src/Yml/Tests.antt =====
-- The theorems on the parser at a small file, with a matcher for keys of one letter and values of one
-- digit.
use local_server_c.Base.{
  ℕ, suc, ◌+◌, ◌≡◌, refl, Option, none, some, true, false, List, [], ◌∷◌, ◌++◌, ◌==◌, leb, ◌&&◌,
  if◌then◌else◌, pos, negsuc,
}
use local_server_c.Base.Text.{same_text, codes, c_str}
use local_server_c.Yml.HashMap.{Table}
use local_server_c.Yml.Parser.{
  Parser, returned, waits, Answers, Held, initialised, failed, init_yml_parser, exec_parser, get,
  free_parser,
}
use local_server_c.Yml.Reading.{
  all_well, lookup, elements, elements_of, configuration, answer_of, get-configuration,
}
use local_server_c.Yml.Failures.{exec_failure_locks}
use local_server_c.Yml.{
  Kind, int_type, string_type, Regex, Match, int_bytes, convert, reg_apply_func, yml_invalid_file,
}

unfoldable small_match : ℕ → List ℕ → Option Match
small_match i [] = none
small_match i (k ∷ []) = none
small_match i (k ∷ c ∷ []) = none
small_match i (k ∷ c ∷ d ∷ s) =
    let later = small_match (suc i) (c ∷ d ∷ s) in
    if leb b'a' k && (leb k b'z' && (c == b':' && (leb b'0' d && leb d b'9')))
    then some (record {
      match_eo = i + 3;
      key_so = i;
      key_eo = i + 1;
      value_so = i + 2;
      value_eo = i + 3;
    })
    else later

unfoldable small_exec : Kind → List ℕ → Option Match
unfolding small_match
small_exec int_type s = small_match 0 s
small_exec string_type s = none

abbrev small : Regex
small = record { compiles = λ k. true; exec = small_exec }

-- A matcher whose expressions do not compile.
abbrev refused : Regex
refused = record { compiles = λ k. false; exec = λ k s. none }

abbrev file : List ℕ
file = codes "a:1\nb:2\na:3"

-- The first of two values for a key.
lookup_first : lookup (codes "a") (configuration small (file ++ 0 ∷ [])) ≡ some (int_bytes 1)
unfolding lookup small_exec elements_of elements c_str same_text convert
lookup_first = refl

get-configuration_example :
    (p : Parser) × (p' : Parser) × (init_yml_parser false (all_well file) ≡ initialised p)
    × (exec_parser small false false p ≡ returned (pos 1) p')
    × ((key : List ℕ)
        → get (some p') key false ≡ answer_of (lookup key (configuration small (file ++ 0 ∷ []))))
get-configuration_example = get-configuration small refl refl file

abbrev empty_table : Table
empty_table = record { buckets = λ i. record { elems = []; broken = false }; mallocs = [] }

abbrev ready : Parser
ready = record { mutex = 1; content = file; map = empty_table; executed = false }

abbrev spoilt : Parser
spoilt = record { mutex = 0; content = file; map = empty_table; executed = false }

exec_refused : exec_parser refused false false ready ≡ returned (negsuc 0) spoilt
unfolding exec_parser reg_apply_func
exec_refused = refl

exec_failure_locks_example : free_parser false (some spoilt) ≡ waits
exec_failure_locks_example = exec_failure_locks refused false ready 0 spoilt refl exec_refused

abbrev no_file : Answers
no_file = record (all_well file) { opened = false }

abbrev map_held : Held
map_held = record { parser = false; map = true; content = false; descriptor = false }

init_no_file : init_yml_parser false no_file ≡ failed yml_invalid_file map_held
unfolding init_yml_parser
init_no_file = refl
