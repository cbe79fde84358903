-- ===== src/Yml.antt =====
-- libs/yml_parser/yml_parser.c: the hash table of the configuration and the parser that fills it. The
-- regular expression matcher is a parameter: `regexec` of <regex.h> with the two expressions. The
-- answers of `malloc` and of the semaphore calls are arguments too.
pub mod HashMap
pub mod Parser
pub mod Entries
pub mod Expressions
pub mod Lines
pub mod Numbers
pub mod Values
pub mod Matches
pub mod FileTests
pub mod RoundTrip
pub mod Reading
mod Failures
mod Tests
use local_server_c.Base.{
  ℕ, zero, suc, ◌+◌, ◌-◌, ◌*◌, ◌/◌, ◌%◌, ◌^◌, Option, none, some, Bool, true, false, not, List, [],
  ◌∷◌, ◌++◌, ◌==◌, ltb, leb, ◌&&◌, if◌then◌else◌, length, take, drop, ℤ, pos, negsuc, ltb_ℤ, eqb_ℤ,
}
use local_server_c.Yml.HashMap.{
  Put, stored, undefined_access, Table, hashmap_insert, str_hashfun, map_size, find_in, Found,
  found, absent, broken_link,
}
use local_server_c.Base.Text.{c_str}

abbrev pub yml_invalid_pointer : ℤ
yml_invalid_pointer = negsuc 0

abbrev pub yml_not_enough_memory : ℤ
yml_not_enough_memory = negsuc 1

abbrev pub yml_invalid_file : ℤ
yml_invalid_file = negsuc 2

abbrev pub yml_file_error : ℤ
yml_file_error = negsuc 3

abbrev pub yml_sem_error : ℤ
yml_sem_error = negsuc 4

abbrev pub yml_already_executed : ℤ
yml_already_executed = negsuc 5

-- The kinds of values: YML_INT_TYPE and YML_STRING_TYPE.
pub data Kind : Type 0 where
  int_type string_type : Kind

-- `regmatch_t matches[4]`, as far as the program reads it: offsets from the cursor of the whole match,
-- the key and the value.
pub record Match : Type 0 where
  pub match_eo : ℕ
  pub key_so : ℕ
  pub key_eo : ℕ
  pub value_so : ℕ
  pub value_eo : ℕ

-- `regcomp` (does it succeed?) and `regexec` of each of the two expressions.
pub record Regex : Type 0 where
  pub compiles : Kind → Bool
  pub exec : Kind → List ℕ → Option Match

-- The bytes from `so` to `eo`.
abbrev pub slice : List ℕ → ℕ → ℕ → List ℕ
slice s so eo = take (eo - so) (drop so s)

pub is_space : ℕ → Bool
is_space c = if c == 32 then true else leb 9 c && leb c 13

pub is_digit : ℕ → Bool
is_digit c = leb b'0' c && leb c b'9'

-- `atoi`: white space, a sign, digits up to the first other byte.
unfoldable pub digits_value : ℕ → List ℕ → ℕ
unfolding is_digit
digits_value acc [] = acc
digits_value acc (c ∷ s) = elim (is_digit c) [
  | true ↦ digits_value (acc * 10 + (c - b'0')) s
  | false ↦ acc
]

-- A 32-bit `int` as its bit pattern: -n is 2 ^ 32 - n.
unfoldable pub signed_value : List ℕ → ℕ
unfolding digits_value
signed_value [] = 0
signed_value (c ∷ s) =
    if c == b'-'
    then (2 ^ 32 - digits_value 0 s % 2 ^ 32) % 2 ^ 32
    else if c == b'+'
    then digits_value 0 s % 2 ^ 32
    else digits_value 0 (c ∷ s) % 2 ^ 32

unfoldable pub atoi : List ℕ → ℕ
unfolding is_space signed_value
atoi [] = 0
atoi (c ∷ s) = elim (is_space c) [ true ↦ atoi s | false ↦ signed_value (c ∷ s) ]

-- The four bytes of an `int`, lowest first, as `memcpy` copies them.
abbrev pub int_bytes : ℕ → List ℕ
int_bytes w = w % 256 ∷ w / 256 % 256 ∷ w / 65536 % 256 ∷ w / 16777216 % 256 ∷ []

-- The value that is stored for the text of a match.
unfoldable pub convert : Kind → List ℕ → List ℕ
unfolding atoi
convert int_type value = int_bytes (atoi (c_str value))
convert string_type value = c_str value ++ 0 ∷ []

-- The accumulator of `reg_apply_func`: a kind, or -1 after a failed insertion.
abbrev pub Acc : Type 0
Acc = Option Kind

-- `insert_keys_values`; `none` is undefined behaviour.
unfoldable pub insert_keys_values : Table → List ℕ → Match → Acc → Option (Table × Acc)
insert_keys_values map str m none = some (map, none)
insert_keys_values map str m (some kind) =
    elim (hashmap_insert map (c_str (slice str m.key_so m.key_eo))
      (convert kind (slice str m.value_so m.value_eo))) [
        | undefined_access ↦ none
        | stored r map' ↦ some (map', if ltb_ℤ r (pos 0) then none else some kind)
      ]

module _ (regex : Regex) where
  -- The loop of `reg_apply_func`, on the rounds that are left.
  unfoldable pub apply_matches : Kind → ℕ → List ℕ → Table → Acc → Option (Table × Acc)
  apply_matches reg zero cursor map acc = some (map, acc)
  apply_matches reg (suc n) cursor map acc = elim (regex.exec reg cursor) [
    | none ↦ some (map, acc)
    | some m ↦ elim (insert_keys_values map cursor m acc) [
      | none ↦ none
      | some (map', acc') ↦ apply_matches reg n (drop m.match_eo cursor) map' acc'
    ]
  ]

  -- `reg_apply_func` with `insert_keys_values` on the map: at most strlen / 3 matches.
  unfoldable pub reg_apply_func : List ℕ → Kind → Table → Option (Table × Acc)
  unfolding apply_matches
  reg_apply_func str reg map =
      if regex.compiles reg
      then apply_matches reg (length (c_str str) / 3) (c_str str) map (some reg)
      else some (map, none)
