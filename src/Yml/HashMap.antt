-- ===== src/Yml/HashMap.antt =====
-- The hash table of yml_parser.c: 256 buckets, each a chain of elements.
use local_server_c.Base.{
  ℕ, ◌+◌, ◌*◌, ◌%◌, ◌^◌, Bool, true, not, List, [], ◌∷◌, ◌++◌, ◌==◌, if◌then◌else◌, ℤ, pos, negsuc,
}
use local_server_c.Base.Text.{same_text}

-- `struct yml_hash_map_elem`; `size` is the length of `value`.
pub record Elem : Type 0 where
  pub key : List ℕ
  pub value : List ℕ

-- A chain; where `broken`, its last pointer is not NULL and leads to no element (memory never written,
-- or freed): what the code does when it reads through that pointer is undefined.
pub record Chain : Type 0 where
  pub elems : List Elem
  pub broken : Bool

-- `struct yml_hash_map`, and what the coming calls of `malloc` answer (success, where the list ends).
pub record Table : Type 0 where
  pub buckets : ℕ → Chain
  pub mallocs : List Bool

-- MAP_SIZE.
abbrev pub map_size : ℕ
map_size = 256

-- The loop of `str_hashfun`, with `size_t` arithmetic.
unfoldable pub hash_from : ℕ → List ℕ → ℕ
hash_from h [] = h
hash_from h (c ∷ s) = hash_from ((37 * h + c) % 2 ^ 64) s

unfoldable pub str_hashfun : List ℕ → ℕ
unfolding hash_from
str_hashfun s = hash_from 0 s

-- The bucket of a key.
abbrev pub bucket_of : List ℕ → ℕ
bucket_of key = str_hashfun key % map_size

unfoldable pub answer : List Bool → Bool
answer [] = true
answer (b ∷ bs) = b

unfoldable pub rest : List Bool → List Bool
rest [] = []
rest (b ∷ bs) = bs

abbrev pub update : (ℕ → Chain) → ℕ → Chain → ℕ → Chain
update f i c j = if j == i then c else f j

-- How an insertion ends: with a result, or by reading through a pointer to nothing.
pub data Put : Type 0 where
  stored : ℤ → Table → Put
  undefined_access : Put

-- `hashmap_insert`. A failed `malloc` of the element is not noticed (the code tests the pointer to
-- the link instead of the link) and the NULL is written through; after a failed `malloc` of the key
-- or the value the link to the freed or unfinished element stays.
unfoldable pub hashmap_insert : Table → List ℕ → List ℕ → Put
unfolding answer rest
hashmap_insert t key value =
    let i = bucket_of key in
    let chain = t.buckets i in
    let left = record t { mallocs = rest (rest (rest t.mallocs)) } in
    let cut = record t {
      buckets = update t.buckets i (record chain { broken = true });
      mallocs = rest (rest t.mallocs);
    } in
    if chain.broken
    then undefined_access
    else if not (answer t.mallocs)
    then undefined_access
    else if not (answer (rest t.mallocs))
    then stored (negsuc 0) cut
    else if not (answer (rest (rest t.mallocs)))
    then stored (negsuc 0) (record cut { mallocs = rest (rest (rest t.mallocs)) })
    else stored (pos 1) (record left {
      buckets =
          update t.buckets i
            (record chain { elems = chain.elems ++ record { key = key; value = value } ∷ [] });
    })

-- The walk of `get` along a chain.
pub data Found : Type 0 where
  found : Elem → Found
  absent : Found
  broken_link : Found

unfoldable pub find_in : List ℕ → List Elem → Bool → Found
find_in key [] broken = if broken then broken_link else absent
find_in key (e ∷ es) broken = if same_text e.key key then found e else find_in key es broken

unfoldable pub find : Table → List ℕ → Found
unfolding find_in
find t key = let chain = t.buckets (bucket_of key) in find_in key chain.elems chain.broken
