-- ===== src/LinkedList/Walk.antt =====
-- `list_apply`, `list_dispose`, and what a failed `list_add` leaves behind.
use local_server_c.Base.{
  ℕ, zero, suc, ◌+◌, ◌-◌, ◌<◌, ◌≡◌, refl, sym, ◌∙◌, ◌≢◌, ◌⊎◌, inl, inr, Bool, true, false, none,
  some, List, [], ◌∷◌, ◌==◌, if◌then◌else◌, length, ℤ, pos, arith,
}
use mathlib.Core.Path.{subst}
use local_server_c.LinkedList.Memory.{
  Ptr, null, Handle, Heap, ok, blocked, write, write_self, write-ne, Returns, Returns-bind,
  Returns-mono, load_list, load_cell, load_value, free_list, free_value, free_cell, sem_wait,
  sem_wait-ok,
}
use local_server_c.LinkedList.{
  AddEnv, list_add, list_remove, apply_loop, list_apply, dispose_loop, list_dispose,
}
use local_server_c.LinkedList.Chain.{
  Entry, has_cell, has_value, Distinct, first, Node, Chain, IsList, Chain-same, load_cell-ok,
  load_value-ok, ne_of_has_cell, ne_of_has_value,
}

-- The fold that `list_apply` computes.
unfoldable pub fold : {V S : Type 0} → (V → ℤ → S → ℤ × S) → ℤ → S → List (Entry V) → ℤ × S
fold apply acc s [] = (acc, s)
fold apply acc s (e ∷ es) = let r = apply e.item acc s in fold apply r.0 r.1 es

apply_loop-fold :
    {V S : Type 0} (h : Heap V) (apply : V → ℤ → S → ℤ × S) (k : ℕ) (es : List (Entry V)) (acc : ℤ)
    (s : S)
    → Chain h es null
    → length es < k
    → apply_loop apply k (first es null) acc s h ≡ ok (fold apply acc s es) h
unfolding apply_loop fold
apply_loop-fold h apply zero es acc s c fuel = absurd (omega arith)
apply_loop-fold h apply (suc k) [] acc s c fuel = refl
apply_loop-fold h apply (suc k) (e ∷ es) acc s c fuel =
    let ne : (e.cell == null) ≡ false = ground (arith, c.0.cell_ne) in
    let r = apply e.item acc s in
    rw (ne, load_cell-ok c.0, load_value-ok c.0)
      (apply_loop-fold h apply k es r.0 r.1 c.1 (omega arith))

-- `list_apply` returns the fold of the function over the elements in order, from 0, and changes
-- nothing (it does not touch the mutex).
pub list_apply-fold :
    {V S : Type 0} (h : Heap V) (p : Ptr) (l : Handle) (apply : V → ℤ → S → ℤ × S)
    (es : List (Entry V)) (s : S)
    → IsList h p l es
    → list_apply p (some apply) s h ≡ ok (fold apply (pos 0) s es) h
unfolding list_apply load_list
list_apply-fold h p l apply es s is = ground (
  arith,
  is.list_ne,
  is.head_at,
  apply_loop-fold h apply (l.size + 1) es (pos 0) s is.chain (omega (arith, is.size_at)),
)

-- `g` is `h` less the cells and copies of `es`.
pub record Freed {V : Type 0} (h : Heap V) (es : List (Entry V)) (g : Heap V) : Type 0 where
  pub cells : (a : Ptr) → g.cells a ≡ (if has_cell a es then none else h.cells a)
  pub values : (a : Ptr) → g.values a ≡ (if has_value a es then none else h.values a)
  pub lists : (a : Ptr) → g.lists a ≡ h.lists a

-- One round: the heap without the first entry.
abbrev dropped : {V : Type 0} → Heap V → Entry V → Heap V
dropped h e = record h { cells = write h.cells e.cell none; values = write h.values e.value none }

dispose_step :
    {V : Type 0} (h : Heap V) (k : ℕ) (e : Entry V) (q : Ptr)
    → Node h e q
    → dispose_loop (suc k) e.cell h ≡ dispose_loop k q (dropped h e)
unfolding dispose_loop load_cell load_value free_value free_cell
dispose_step h k e q n = ground (arith, n)

dropped-Chain :
    {V : Type 0} (h : Heap V) (e : Entry V) (es : List (Entry V))
    → Chain h es null
    → has_cell e.cell es ≡ false
    → has_value e.value es ≡ false
    → Chain (dropped h e) es null
dropped-Chain h e es c nc nv =
    Chain-same h (dropped h e) es null c
      (λ a m. write-ne h.cells e.cell none (ne_of_has_cell a e.cell es m nc))
      (λ a m. write-ne h.values e.value none (ne_of_has_value a e.value es m nv))

dispose_loop-Freed :
    {V : Type 0} (k : ℕ) (h : Heap V) (es : List (Entry V))
    → Chain h es null
    → Distinct es
    → length es < k
    → Returns (λ r. Freed h es) (dispose_loop k (first es null) h)
unfolding dispose_loop
dispose_loop-Freed zero h es c d fuel = absurd (omega arith)
dispose_loop-Freed (suc k) h [] c d fuel = record {
  cells = λ a. refl;
  values = λ a. refl;
  lists = λ a. refl;
}
dispose_loop-Freed (suc k) h (e ∷ es) c d fuel = rw (dispose_step h k e (first es null) c.0) (
    Returns-mono _ _ (dispose_loop k (first es null) (dropped h e))
      (dispose_loop-Freed k (dropped h e) es (dropped-Chain h e es c.1 d.0.0 d.0.1) d.1
        (omega arith))
      λ r g f. record {
        cells = λ a. ground (arith, f.cells a);
        values = λ a. ground (arith, f.values a);
        lists = f.lists;
      })

-- A completed `list_dispose`: the cells, the copies and the structure are freed, nothing else is.
pub record Disposed {V : Type 0} (h : Heap V) (p : Ptr) (es : List (Entry V)) (r : ℤ) (g : Heap V)
    : Type 0 where
  pub result : r ≡ pos 1
  pub cells : (a : Ptr) → g.cells a ≡ (if has_cell a es then none else h.cells a)
  pub values : (a : Ptr) → g.values a ≡ (if has_value a es then none else h.values a)
  pub lists : (a : Ptr) → g.lists a ≡ (if a == p then none else h.lists a)

free_list-eq :
    {V : Type 0} (h : Heap V) (p : Ptr) (l : Handle)
    → p ≢ null
    → h.lists p ≡ some l
    → free_list p h ≡ ok tt (record h { lists = write h.lists p none })
unfolding free_list load_list
free_list-eq h p l ne at = ground arith

module _ {V : Type 0} (h : Heap V) (p : Ptr) (l : Handle) (es : List (Entry V))
    (is : IsList h p l es) (free : l.mutex ≢ 0) where
  abbrev held : Heap V
  held = record h { lists = write h.lists p (some (record l { mutex = l.mutex - 1 })) }

  load_held : load_list p held ≡ ok (record l { mutex = l.mutex - 1 }) held
  unfolding load_list
  load_held = ground (arith, is.list_ne)

  -- When the wait does not fail, `list_dispose` on a list whose mutex is free returns 1, without
  -- fault: exactly the cells and the copies of the list and the structure itself are freed, each
  -- once.
  pub list_dispose-Freed : Returns (Disposed h p es) (list_dispose true p h)
  unfolding list_dispose
  list_dispose-Freed =
      let ne : (p == null) ≡ false = ground (arith, is.list_ne) in
      rw (ne, sem_wait-ok h p l is.list_ne is.stored free, load_held)
        (Returns-bind (λ r. Freed held es) (Disposed h p es) (dispose_loop (l.size + 1) l.head held)
          _
          (subst (λ x. Returns (λ r. Freed held es) (dispose_loop (l.size + 1) x held))
            (sym is.head_at)
            (dispose_loop-Freed (l.size + 1) held es
              (Chain-same h held es null is.chain (λ a m. refl) (λ a m. refl)) is.distinct
              (omega (arith, is.size_at))))
          λ r g f.
            rw
              (free_list-eq g p (record l { mutex = l.mutex - 1 }) is.list_ne
                (f.lists p ∙ write_self h.lists p _))
              (record {
                result = refl;
                cells = f.cells;
                values = f.values;
                lists = λ a. ground (arith, f.lists a);
              }))

-- A wait on a mutex at 0.
wait-locked :
    {V : Type 0} (h : Heap V) (p : Ptr) (l : Handle)
    → p ≢ null
    → h.lists p ≡ some l
    → l.mutex ≡ 0
    → sem_wait true p h ≡ blocked h
unfolding sem_wait load_list
wait-locked h p l ne at zero_at = ground arith

-- `list_remove` on a list whose mutex is at 0.
list_remove-locked :
    {V : Type 0} (compar : V → V → ℤ) (other : V) (post : Bool) (h : Heap V) (p : Ptr) (l : Handle)
    → p ≢ null
    → h.lists p ≡ some l
    → l.mutex ≡ 0
    → list_remove compar true post p (some other) h ≡ blocked h
unfolding list_remove
list_remove-locked compar other post h p l ne at zero_at =
    let n : (p == null) ≡ false = ground arith in rw (n, wait-locked h p l ne at zero_at) refl

-- When one of the two calls of `malloc` in `list_add` fails, that of the cell or, after it, that of the
-- copy, the call returns NULL with the mutex taken: when the waits do not fail, the next `list_remove` on
-- the list (whose mutex was at 1) waits for ever.
pub add_failure_locks :
    {V : Type 0} (compar : V → V → ℤ) (env : AddEnv) (elem other : V) (post : Bool) (h : Heap V)
    (p : Ptr) (l : Handle)
    → p ≢ null
    → env.wait ≡ true
    → (env.cell ≡ null) ⊎ ((env.cell ≢ null) × (env.value ≡ null))
    → h.lists p ≡ some l
    → l.mutex ≡ 1
    → Returns
        (λ r g. (r ≡ null) × (list_remove compar true post p (some other) g ≡ blocked g))
        (list_add env p (some elem) h)
unfolding list_add
add_failure_locks compar env elem other post h p l ne waits no_memory at one =
    let n : (p == null) ≡ false = ground arith in
    let held_l : Handle = record l { mutex = l.mutex - 1 } in
    let locked = λ (g : Heap _) (e : g.lists p ≡ some held_l).
      list_remove-locked compar other post g p held_l ne e (omega arith) in
    let stored = write_self h.lists p (some held_l) in
    elim no_memory [
      | inl no_cell ↦
          rw (n, waits, sem_wait-ok h p l ne at (omega arith), no_cell) (refl, locked _ stored)
      | inr (cell_ne, no_copy) ↦
          let c : (env.cell == null) ≡ false = ground arith in
          rw (n, waits, sem_wait-ok h p l ne at (omega arith), c, no_copy) (refl, locked _ stored)
    ]
