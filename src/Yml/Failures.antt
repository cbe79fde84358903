-- ===== src/Yml/Failures.antt =====
-- The error paths of the parser.
use local_server_c.Base.{
  ℕ, suc, ◌≡◌, refl, ap, sym, ◌⊎◌, ◌∙◌, ◌-◌, ◌++◌, none, some, Bool, true, false, List, [], ◌∷◌,
  ◌==◌, ℤ, negsuc, arith, length, ◌/◌,
}
use local_server_c.Base.Text.{c_str}
use local_server_c.Yml.HashMap.{Chain, Table, Put, hashmap_insert, bucket_of}
use local_server_c.Yml.Parser.{
  Parser, returned, waits, undefined_access, Answers, Held, initialised, failed, init_yml_parser,
  exec_parser, exec_locked, locked, free_parser,
}
use local_server_c.Yml.Reading.{all_well, loaded, element}
use local_server_c.Yml.{
  Kind, int_type, Regex, Match, insert_keys_values, apply_matches, reg_apply_func, yml_invalid_file,
  yml_file_error,
}

module _ (regex : Regex) where
  exec_locked_negative :
      (post_fails : Bool)
      → (p : Parser) → (n : ℕ) → (p' : Parser)
      → exec_locked regex post_fails p ≡ returned (negsuc n) p'
      → p'.mutex ≡ p.mutex
  unfolding exec_locked
  exec_locked_negative post_fails p n p' h = ground arith

  exec_parser_taken :
      (post_fails : Bool)
      → (p : Parser) → (p.mutex == 0) ≡ false
      → exec_parser regex false post_fails p
        ≡ exec_locked regex post_fails (record p { mutex = p.mutex - 1 })
  unfolding exec_parser locked
  exec_parser_taken post_fails p h = simp (h, exec_parser)

  -- After a call of `exec_parser` that took the mutex (it was at 1) and returned a negative result,
  -- the clean-up of the callers, `free_parser`, waits for ever.
  pub exec_failure_locks :
      (post_fails : Bool)
      → (p : Parser) → (n : ℕ) → (p' : Parser) → p.mutex ≡ 1
      → exec_parser regex false post_fails p ≡ returned (negsuc n) p'
      → free_parser false (some p') ≡ waits
  unfolding locked free_parser
  exec_failure_locks post_fails p n p' one h =
      let taken : (p.mutex == 0) ≡ false = simp one in
      let kept =
        exec_locked_negative post_fails (record p { mutex = p.mutex - 1 }) n p'
          (sym (exec_parser_taken post_fails p taken) ∙ h) in
      let zero_left : p'.mutex ≡ 0 = kept ∙ ap (λ x. x - 1) one in simp zero_left

  insert_dirty :
      (t : Table)
      → (k v : List ℕ) → (t.buckets (bucket_of k)).broken ≡ true
      → hashmap_insert t k v ≡ Put.undefined_access
  unfolding hashmap_insert
  insert_dirty t k v h = simp h

  match_dirty :
      (kind : Kind)
      → (s : List ℕ) → (t : Table) → (m : Match)
      → (t.buckets (bucket_of (element kind s m).key)).broken ≡ true
      → insert_keys_values t s m (some kind) ≡ none
  unfolding insert_keys_values
  match_dirty kind s t m h =
      simp (insert_dirty t (element kind s m).key (element kind s m).value h, insert_keys_values)

  access_lem :
      regex.compiles int_type ≡ true
      → (bytes : List ℕ) → (memory : ℕ → Chain) → (m : Match) → (n : ℕ)
      → length (c_str (bytes ++ 0 ∷ [])) / 3 ≡ suc n
      → regex.exec int_type (c_str (bytes ++ 0 ∷ [])) ≡ some m
      → (memory (bucket_of (element int_type (c_str (bytes ++ 0 ∷ [])) m).key)).broken ≡ true
      → reg_apply_func regex (bytes ++ 0 ∷ []) int_type (record { buckets = memory; mallocs = [] })
        ≡ none
  unfolding reg_apply_func apply_matches
  access_lem c bytes memory m n len first dirty =
      let e =
        match_dirty int_type (c_str (bytes ++ 0 ∷ [])) (record { buckets = memory; mallocs = [] }) m
          dirty in
      simp (c, len, first, e, apply_matches)

  -- `malloc` does not clear memory: when the first expression compiles and finds a match, no call of
  -- `init_yml_parser` fails, and the memory of the new map holds for the bucket of the key a pointer that
  -- is not NULL and leads to no element, `exec_parser` reads through it.
  uninitialised_access :
      regex.compiles int_type ≡ true
      → (bytes : List ℕ) → (memory : ℕ → Chain) → (m : Match) → (n : ℕ)
      → length (c_str (bytes ++ 0 ∷ [])) / 3 ≡ suc n
      → regex.exec int_type (c_str (bytes ++ 0 ∷ [])) ≡ some m
      → (memory (bucket_of (element int_type (c_str (bytes ++ 0 ∷ [])) m).key)).broken ≡ true
      → (p : Parser) × (init_yml_parser false (record (all_well bytes) { memory = memory })
          ≡ initialised p)
        × (exec_parser regex false false p ≡ undefined_access)
  unfolding init_yml_parser exec_parser locked
  uninitialised_access c bytes memory m n len first dirty =
      (loaded bytes memory, refl, rw (access_lem c bytes memory m n len first dirty) refl)

-- A call of `init_yml_parser` that fails has freed the parser; what it leaves behind is the map, only
-- when the file cannot be opened or read, and the descriptor, only when the file was opened.
pub init_failure-Held :
    (null : Bool)
    → (a : Answers) → (err : ℤ) → (held : Held) → init_yml_parser null a ≡ failed err held
    → (held.parser ≡ false)
      × (held.map ≡ true → (err ≡ yml_invalid_file) ⊎ (err ≡ yml_file_error))
      × (held.descriptor ≡ true → a.opened ≡ true)
unfolding init_yml_parser
init_failure-Held null a err held h = ground arith
