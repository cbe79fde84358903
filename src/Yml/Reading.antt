-- ===== src/Yml/Reading.antt =====
-- What `get` answers after `exec_parser`: the first value that the file has for the key.
use local_server_c.Base.{
  ◌≢◌, ℕ, zero, suc, ◌≡◌, refl, sym, ap, ◌∙◌, Option, none, some, true, false, List, [], ◌∷◌, ◌++◌,
  ◌==◌, if◌then◌else◌, length, drop, ◌-◌, ◌/◌, pos, arith, append-nil, append_assoc,
}
use mathlib.Core.Path.{subst}
use local_server_c.Base.Text.{c_str, same_text}
use local_server_c.Base.{Bool-cases, Option-cases, inl, inr}
use local_server_c.Yml.HashMap.{Elem, Chain, Table, find_in, find, found, absent, broken_link}
use local_server_c.Yml.Entries.{Holds, hashmap_insert-Holds}
use local_server_c.Yml.Parser.{
  Parser, Ran, returned, undefined_access, Answers, initialised, init_yml_parser, exec_parser,
  exec_locked, locked, get,
}
use local_server_c.Yml.{
  Kind, int_type, string_type, Regex, Match, slice, convert, insert_keys_values, apply_matches,
  reg_apply_func,
}

-- The element that a match stands for.
abbrev pub element : Kind → List ℕ → Match → Elem
element kind s m = record {
  key = c_str (slice s m.key_so m.key_eo);
  value = convert kind (slice s m.value_so m.value_eo);
}

-- The value of the first element with a key.
unfoldable pub lookup : List ℕ → List Elem → Option (List ℕ)
lookup key [] = none
lookup key (e ∷ es) = if same_text e.key key then some e.value else lookup key es

-- What `get` answers for the value of a key.
abbrev pub answer_of : Option (List ℕ) → Ran (List ℕ)
answer_of none = returned (pos 0) []
answer_of (some v) = returned (pos 1) v

found-lookup :
    (key : List ℕ)
    → (es : List Elem)
    → (elim (find_in key es false) [
      | found e ↦ returned (pos 1) e.value
      | absent ↦ returned (pos 0) []
      | broken_link ↦ undefined_access
    ])
      ≡ answer_of (lookup key es)
unfolding lookup find_in
found-lookup key [] = refl
found-lookup key (e ∷ es) = elim (Bool-cases (same_text e.key key)) [
  | inl same ↦ simp same
  | inr other ↦ simp other (found-lookup key es)
]

-- `get` on a table that holds the elements.
pub get-lookup :
    (p : Parser)
    → (es : List Elem) → Holds p.map es
    → (key : List ℕ) → get (some p) key false ≡ answer_of (lookup key es)
unfolding get
get-lookup p es (m, u, h) key = simp (h key) (found-lookup key es)

insert_keys_values-Holds :
    (t : Table)
    → (es : List Elem) → (s : List ℕ) → (m : Match) → (kind : Kind) → Holds t es
    → (t' : Table) × (insert_keys_values t s m (some kind) ≡ some (t', some kind))
      × Holds t' (es ++ element kind s m ∷ [])
unfolding insert_keys_values
insert_keys_values-Holds t es s m kind h =
    let (t', e, h') =
      hashmap_insert-Holds t es (c_str (slice s m.key_so m.key_eo))
        (convert kind (slice s m.value_so m.value_eo)) h in
    (t', simp (e, insert_keys_values), h')

not_zero : (n : ℕ) → n ≢ 0 → (n == 0) ≡ false
not_zero n h = ground arith

-- No call fails, and the memory of the new map is all NULL.
abbrev pub all_well : List ℕ → Answers
all_well bytes = record {
  parser_allocated = true;
  sem_initialised = true;
  map_allocated = true;
  opened = true;
  measured = true;
  rewound = true;
  content_allocated = true;
  bytes = some bytes;
  memory = λ i. record { elems = []; broken = false };
  later_mallocs = [];
}

-- The parser that a successful `init_yml_parser` makes.
abbrev pub loaded : List ℕ → (ℕ → Chain) → Parser
loaded bytes memory = record {
  mutex = 1;
  content = bytes ++ 0 ∷ [];
  map = record { buckets = memory; mallocs = [] };
  executed = false;
}

module _ (regex : Regex) where
  -- The elements that the matches in a text stand for: at most `n`, each from the end of the one before.
  unfoldable pub elements : Kind → ℕ → List ℕ → List Elem
  elements kind zero s = []
  elements kind (suc n) s = elim (regex.exec kind s) [
    | none ↦ []
    | some m ↦ element kind s m ∷ elements kind n (drop m.match_eo s)
  ]

  pub elements_end :
      (kind : Kind)
      → (n : ℕ) → (s : List ℕ) → regex.exec kind s ≡ none
      → elements kind (suc n) s ≡ []
  unfolding elements
  elements_end kind n s e = simp (e, elements)

  pub elements_one :
      (kind : Kind)
      → (n : ℕ) → (s : List ℕ) → (m : Match) → regex.exec kind s ≡ some m
      → elements kind (suc n) s ≡ element kind s m ∷ elements kind n (drop m.match_eo s)
  unfolding elements
  elements_one kind n s m e = simp (e, elements)

  apply_matches-Holds :
      (kind : Kind)
      → (n : ℕ) → (s : List ℕ) → (t : Table) → (es : List Elem) → Holds t es
      → (t' : Table) × (apply_matches regex kind n s t (some kind) ≡ some (t', some kind))
        × Holds t' (es ++ elements kind n s)
  unfolding apply_matches elements
  apply_matches-Holds kind zero s t es h = (t, refl, rw (append-nil es) h)
  apply_matches-Holds kind (suc n) s t es h = elim (Option-cases (regex.exec kind s)) [
    | inl end ↦ (
      t,
      simp (end, apply_matches),
      subst (Holds t) (sym (append-nil es) ∙ ap (λ x. es ++ x) (sym (elements_end kind n s end))) h,
    )
    | inr (m, one) ↦
        let (t', e, h') = insert_keys_values-Holds t es s m kind h in
        let (t'', e', h'') =
          apply_matches-Holds kind n (drop m.match_eo s) t' (es ++ element kind s m ∷ []) h' in
        (
          t'',
          simp (one, e, apply_matches) e',
          subst (Holds t'')
              (append_assoc es (element kind s m ∷ []) (elements kind n (drop m.match_eo s))
                ∙ ap (λ x. es ++ x) (sym (elements_one kind n s m one)))
              h'',
        )
  ]

  -- The elements of a text: at most a third of its length.
  unfoldable pub elements_of : Kind → List ℕ → List Elem
  elements_of kind text = elements kind (length (c_str text) / 3) (c_str text)

  reg_apply_func-Holds :
      (kind : Kind)
      → (text : List ℕ) → (t : Table) → (es : List Elem) → regex.compiles kind ≡ true
      → Holds t es
      → (t' : Table) × (reg_apply_func regex text kind t ≡ some (t', some kind))
        × Holds t' (es ++ elements_of kind text)
  unfolding reg_apply_func elements_of
  reg_apply_func-Holds kind text t es c h =
      let (t', e, h') = apply_matches-Holds kind (length (c_str text) / 3) (c_str text) t es h in
      (t', simp (c, reg_apply_func) e, h')

  -- Both passes of `exec_parser`: the integers of the file, then the strings.
  abbrev pub configuration : List ℕ → List Elem
  configuration content = elements_of int_type content ++ elements_of string_type content

  -- A parser that holds nothing is executed with success, and holds the configuration.
  exec_parser-Holds :
      (p : Parser)
      → p.executed ≡ false
      → p.mutex ≢ 0
      → Holds p.map []
      → regex.compiles int_type ≡ true
      → regex.compiles string_type ≡ true
      → (p' : Parser) × (exec_parser regex false false p ≡ returned (pos 1) p')
        × ((p'.executed ≡ true) × (p'.mutex ≡ p.mutex))
        × Holds p'.map (configuration p.content)
  unfolding exec_parser exec_locked locked
  exec_parser-Holds p fresh free h ci cs =
      let (t, e, h₁) = reg_apply_func-Holds int_type p.content p.map [] ci h in
      let (t', e', h₂) =
        reg_apply_func-Holds string_type p.content t (elements_of int_type p.content) cs h₁ in
      let taken = not_zero p.mutex free in
      (
        record { mutex = suc (p.mutex - 1); content = p.content; map = t'; executed = true },
        simp (taken, fresh, e, e', exec_locked),
        (refl, omega arith),
        h₂,
      )

  -- When both expressions compile, no call fails and the memory of the new map is NULL, a file is
  -- read with success, and `get` answers the value of the first match for the key, an integer match
  -- before any string match.
  pub get-configuration :
      regex.compiles int_type ≡ true
      → regex.compiles string_type ≡ true
      → (bytes : List ℕ)
      → (p : Parser) × (p' : Parser) × (init_yml_parser false (all_well bytes) ≡ initialised p)
        × (exec_parser regex false false p ≡ returned (pos 1) p')
        × ((key : List ℕ)
            → get (some p') key false ≡ answer_of (lookup key (configuration (bytes ++ 0 ∷ []))))
  unfolding init_yml_parser find find_in
  get-configuration ci cs bytes =
      let p = loaded bytes (λ i. record { elems = []; broken = false }) in
      let (p', e, _, h) =
        exec_parser-Holds p refl (ground arith) (refl, (λ i. refl), (λ key. refl)) ci cs in
      (p, p', refl, e, get-lookup p' (configuration (bytes ++ 0 ∷ [])) h)
