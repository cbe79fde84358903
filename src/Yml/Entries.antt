-- ===== src/Yml/Entries.antt =====
-- What a table stands for: its elements as one list, in the order of their insertion.
use local_server_c.Base.{
  ℕ, ◌≡◌, refl, sym, ap, ◌∙◌, false, List, [], ◌∷◌, ◌++◌, ◌==◌, ==_refl, ==_iff, pos, Bool-cases,
  inl, inr, arith,
}
use mathlib.Core.Path.{subst}
use local_server_c.Base.Text.{same_text, eq_of_same_text}
use local_server_c.Yml.HashMap.{
  Elem, Chain, Table, bucket_of, update, answer, rest, stored, hashmap_insert, find_in, find, Found,
  found, absent, broken_link,
}

-- The table is sound and holds the elements: a key is found in it as by a walk along the list.
abbrev pub Holds : Table → List Elem → Type 0
Holds t es =
    (t.mallocs ≡ [])
    × ((i : ℕ) → (t.buckets i).broken ≡ false)
    × ((key : List ℕ) → find t key ≡ find_in key es false)

abbrev or_else : Found → Found → Found
or_else (found e) g = found e
or_else absent g = g
or_else broken_link g = broken_link

find_in-append :
    (key : List ℕ)
    → (es fs : List Elem)
    → find_in key (es ++ fs) false ≡ or_else (find_in key es false) (find_in key fs false)
unfolding find_in
find_in-append key [] fs = refl
find_in-append key (e ∷ es) fs = ground (arith, find_in-append key es fs)

find_other :
    (j k v : List ℕ)
    → (es : List Elem) → same_text k j ≡ false
    → find_in j (es ++ record { key = k; value = v } ∷ []) false ≡ find_in j es false
unfolding find_in
find_other j k v [] h = ground arith
find_other j k v (e ∷ es) h = ground (arith, find_other j k v es h)

-- The table that an insertion leaves when it succeeds.
abbrev put : Table → List ℕ → List ℕ → Table
put t k v = record {
  buckets = update t.buckets (bucket_of k) (record (t.buckets (bucket_of k)) {
    elems = (t.buckets (bucket_of k)).elems ++ record { key = k; value = v } ∷ [];
  });
  mallocs = [];
}

hashmap_insert-put :
    (t : Table)
    → (k v : List ℕ) → t.mallocs ≡ []
    → (t.buckets (bucket_of k)).broken ≡ false
    → hashmap_insert t k v ≡ stored (pos 1) (put t k v)
unfolding hashmap_insert answer rest
hashmap_insert-put t k v m u = simp (m, u)

put_unbroken :
    (t : Table)
    → (k v : List ℕ) → ((i : ℕ) → (t.buckets i).broken ≡ false)
    → (i : ℕ) → ((put t k v).buckets i).broken ≡ false
put_unbroken t k v u i = elim (Bool-cases (i == bucket_of k)) [
  | inl e ↦ simp (e, u (bucket_of k))
  | inr e ↦ simp (e, u i)
]

find_in_end :
    (j : List ℕ)
    → (e : Elem) → (c : Chain) → (es : List Elem) → c.broken ≡ false
    → find_in j c.elems c.broken ≡ find_in j es false
    → find_in j (c.elems ++ e ∷ []) c.broken ≡ find_in j (es ++ e ∷ []) false
find_in_end j e c es u h = rw u (
    find_in-append j c.elems (e ∷ [])
    ∙ ap (λ f. or_else f (find_in j (e ∷ []) false)) (rw u at h)
    ∙ sym (find_in-append j es (e ∷ [])))

text_of_bucket : (j k : List ℕ) → (bucket_of j == bucket_of k) ≡ false → same_text k j ≡ false
text_of_bucket j k h = elim (Bool-cases (same_text k j)) [
  | inl e ↦
      let same = subst (λ x. (bucket_of j == bucket_of x) ≡ false) (eq_of_same_text k j e) h in
      let own = ==_refl (bucket_of j) in cc
  | inr e ↦ e
]

find-put :
    (t : Table)
    → (es : List Elem) → (k v : List ℕ) → ((i : ℕ) → (t.buckets i).broken ≡ false)
    → ((key : List ℕ) → find t key ≡ find_in key es false)
    → (j : List ℕ) → find (put t k v) j ≡ find_in j (es ++ record { key = k; value = v } ∷ []) false
unfolding find
find-put t es k v u h j = elim (Bool-cases (bucket_of j == bucket_of k)) [
  | inl e ↦
      (let q = (==_iff (bucket_of j) (bucket_of k)).0 e in
        simp (e) (
          find_in_end j (record { key = k; value = v }) (t.buckets (bucket_of k)) es
            (u (bucket_of k))
            (subst (λ b. find_in j (t.buckets b).elems (t.buckets b).broken ≡ find_in j es false) q
              (h j))))
  | inr e ↦ simp (e) (h j ∙ sym (find_other j k v es (text_of_bucket j k e)))
]

-- An insertion into a sound table that holds some elements, when no `malloc` fails, returns 1 and
-- leaves a sound table that holds the new element after the others: a key that was there keeps its
-- value.
pub hashmap_insert-Holds :
    (t : Table)
    → (es : List Elem) → (k v : List ℕ) → Holds t es
    → (t' : Table) × (hashmap_insert t k v ≡ stored (pos 1) t')
      × Holds t' (es ++ record { key = k; value = v } ∷ [])
unfolding hashmap_insert answer rest find
hashmap_insert-Holds t es k v (m, u, h) = (
  put t k v,
  hashmap_insert-put t k v m (u (bucket_of k)),
  (refl, put_unbroken t k v u, find-put t es k v u h),
)
