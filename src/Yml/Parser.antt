-- ===== src/Yml/Parser.antt =====
-- libs/yml_parser/yml_parser.c: the life of a parser: init_yml_parser, exec_parser, get, free_parser.
use local_server_c.Base.{
  ℕ, zero, suc, ◌-◌, ◌++◌, Option, none, some, Bool, true, false, not, List, [], ◌∷◌, ◌==◌,
  if◌then◌else◌, ℤ, pos, negsuc,
}
use local_server_c.Yml.HashMap.{Elem, Chain, Table, map_size, found, absent, broken_link, find}
use local_server_c.Yml.{
  int_type, string_type, Regex, reg_apply_func, yml_invalid_pointer, yml_not_enough_memory,
  yml_invalid_file, yml_file_error, yml_sem_error, yml_already_executed,
}

-- `struct yml_parser`; `mutex` is the value of the semaphore.
pub record Parser : Type 0 where
  pub mutex : ℕ
  pub content : List ℕ
  pub map : Table
  pub executed : Bool

-- What a call leaves: a result, a wait that nobody ends, or undefined behaviour (a walk through a
-- broken chain, a write through NULL).
pub data Ran (A : Type 0) : Type 0 where
  returned : ℤ → A → Ran A
  waits : Ran A
  undefined_access : Ran A

-- What the system answers to `init_yml_parser`. `opened` is what `content` holds after a `read` of the
-- whole length (`none` for each call that fails); `memory` is what the buckets of a new map hold.
pub record Answers : Type 0 where
  pub parser_allocated : Bool
  pub sem_initialised : Bool
  pub map_allocated : Bool
  pub opened : Bool
  pub measured : Bool
  pub rewound : Bool
  pub content_allocated : Bool
  pub bytes : Option (List ℕ)
  pub memory : ℕ → Chain
  pub later_mallocs : List Bool

-- What a call of `init_yml_parser` that fails has not given back.
pub record Held : Type 0 where
  pub parser : Bool
  pub map : Bool
  pub content : Bool
  pub descriptor : Bool

pub data Init : Type 0 where
  initialised : Parser → Init
  failed : ℤ → Held → Init

abbrev nothing_held : Held
nothing_held = record { parser = false; map = false; content = false; descriptor = false }

-- `init_yml_parser`; the path is NULL or not.
unfoldable pub init_yml_parser : Bool → Answers → Init
init_yml_parser null a =
    if null
    then failed yml_invalid_pointer nothing_held
    else if not a.parser_allocated
    then failed yml_not_enough_memory nothing_held
    else if not a.sem_initialised
    then failed yml_sem_error nothing_held
    else if not a.map_allocated
    then failed yml_not_enough_memory nothing_held
    else if not a.opened
    then failed yml_invalid_file (record nothing_held { map = true })
    else if not a.measured
    then failed yml_file_error (record nothing_held { map = true; descriptor = true })
    else if not a.rewound
    then failed yml_file_error (record nothing_held { map = true; descriptor = true })
    else if not a.content_allocated
    then failed yml_not_enough_memory (record nothing_held { descriptor = true })
    else elim a.bytes [
      | none ↦ failed yml_file_error (record nothing_held { content = true; descriptor = true })
      | some bytes ↦ initialised (record {
        mutex = 1;
        content = bytes ++ 0 ∷ [];
        map = record { buckets = a.memory; mallocs = a.later_mallocs };
        executed = false;
      })
    ]

-- A wait on the mutex that the system does not break off (`fails`), and what follows it.
unfoldable pub locked : {A : Type 0} → Bool → Parser → A → (Parser → Ran A) → Ran A
locked fails p same next =
    if fails
    then returned yml_sem_error same
    else if p.mutex == 0
    then waits
    else next (record p { mutex = p.mutex - 1 })

module _ (regex : Regex) where
  -- `exec_parser` after its wait.
  unfoldable pub exec_locked : Bool → Parser → Ran Parser
  exec_locked post_fails p =
      if p.executed
      then returned yml_already_executed p
      else elim (reg_apply_func regex p.content int_type p.map) [
        | none ↦ undefined_access
        | some (map, none) ↦ returned (negsuc 0) (record p { map = map })
        | some (map, some k) ↦ elim (reg_apply_func regex p.content string_type map) [
          | none ↦ undefined_access
          | some (map', none) ↦ returned (negsuc 0) (record p { map = map' })
          | some (map', some k') ↦
              let done = record p { map = map'; executed = true } in
              if post_fails
              then returned yml_sem_error done
              else returned (pos 1) (record done { mutex = suc p.mutex })
        ]
      ]

  -- `exec_parser`: do the wait and the post on the mutex fail?
  unfoldable pub exec_parser : Bool → Bool → Parser → Ran Parser
  unfolding exec_locked locked
  exec_parser wait_fails post_fails p = locked wait_fails p p (exec_locked post_fails)

-- `get` into a buffer that is NULL or not: the result and the bytes that are copied.
unfoldable pub get : Option Parser → List ℕ → Bool → Ran (List ℕ)
get none key buffer_null = returned yml_invalid_pointer []
get (some p) key buffer_null =
    if buffer_null then returned yml_invalid_pointer [] else elim (find p.map key) [
      | found e ↦ returned (pos 1) e.value
      | absent ↦ returned (pos 0) []
      | broken_link ↦ undefined_access
    ]

-- `free_hash_map` on the buckets from `i`, `n` of them: the elements that are freed, in order.
unfoldable pub free_buckets : (ℕ → Chain) → ℕ → ℕ → Option (List Elem)
free_buckets f i zero = some []
free_buckets f i (suc n) =
    let rest = free_buckets f (suc i) n in
    if (f i).broken then none else elim rest [ none ↦ none | some es ↦ some ((f i).elems ++ es) ]

-- `free_hash_map`.
unfoldable pub free_hash_map : Table → Option (List Elem)
unfolding free_buckets
free_hash_map t = free_buckets t.buckets 0 map_size

-- `free_parser`: what is left of the parser (nothing, when it is freed) and the freed elements.
unfoldable pub free_parser : Bool → Option Parser → Ran (Option Parser × List Elem)
unfolding locked
free_parser wait_fails none = returned yml_invalid_pointer (none, [])
free_parser wait_fails (some p) =
    locked wait_fails p (some p, [])
      (λ q. elim (free_hash_map q.map) [
        | none ↦ undefined_access
        | some es ↦ returned (pos 1) (none, es)
      ])
