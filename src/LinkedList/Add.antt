-- ===== src/LinkedList/Add.antt =====
-- `list_add` appends a copy of the element, and what it does when the kernel refuses.
use local_server_c.Base.{
  suc, ◌+◌, ◌-◌, ◌%◌, ◌<◌, ◌^◌, ◌≡◌, refl, sym, ◌∙◌, ◌≢◌, true, false, none, some, List, [], ◌∷◌,
  ◌++◌, length, length-append, append-nil, arith,
}
use local_server_c.LinkedList.Memory.{
  Ptr, null, Cell, Handle, Heap, ok, write, write_self, write-ne, Returns, load_list, load_cell,
  sem_wait-ok, sem_post-ok,
}
use local_server_c.LinkedList.{AddEnv, link_last, list_add}
use local_server_c.LinkedList.Chain.{
  Entry, has_cell, has_value, Distinct, last, Node, Chain, IsList, Chain-relink, has_cell_of_none,
  has_value_of_none, last-cell, last-append, Distinct-append_one,
}

-- The new entry of the list.
abbrev pub added : {V : Type 0} → AddEnv → V → Entry V
added env elem = record { cell = env.cell; value = env.value; item = elem }

-- A completed call: the result is the copy, the entries are those of before and the new one, the
-- mutex is as it was, and no other list structure has changed.
pub record Added {V : Type 0} (h : Heap V) (p : Ptr) (l : Handle) (es : List (Entry V))
    (e : Entry V) (r : Ptr) (g : Heap V) : Type 0 where
  pub result : r ≡ e.value
  pub handle : Handle
  pub list : IsList g p handle (es ++ e ∷ [])
  pub mutex : handle.mutex ≡ l.mutex
  pub others : (q : Ptr) → q ≢ p → g.lists q ≡ h.lists q

abbrev linked_handle : Handle → Ptr → Handle
linked_handle l c = record l { tail = c; size = (l.size + 1) % 2 ^ 64 }

module _ {V : Type 0} (h : Heap V) (p c v : Ptr) (l : Handle) (list_ne : p ≢ null)
    (stored : h.lists p ≡ some l) where
  link_last-empty :
      l.size ≡ 0
      → link_last p c v h
        ≡ ok tt (record h {
          lists =
              write
                (write h.lists p (some (record l { head = c })))
                p
                (some (record (linked_handle l c) { head = c }));
          cells = write h.cells c (some (record { value = v; next = null }));
        })
  unfolding link_last load_list load_cell
  link_last-empty z = ground arith

  link_last-more :
      (t : Cell)
      → l.size ≢ 0
      → l.tail ≢ null
      → c ≢ l.tail
      → h.cells l.tail ≡ some t
      → link_last p c v h
        ≡ ok tt (record h {
          lists = write h.lists p (some (linked_handle l c));
          cells =
              write
                (write h.cells c (some (record { value = v; next = null })))
                l.tail
                (some (record t { next = c }));
        })
  unfolding link_last load_list load_cell
  link_last-more t z ne other at = ground arith

-- The heap with the new cell behind the last one.
linked-Chain :
    {V : Type 0} (h g : Heap V) (e d : Entry V) (pre : List (Entry V))
    → Distinct (d ∷ pre)
    → Chain h (d ∷ pre) null
    → Node g e null
    → has_cell e.cell (d ∷ pre) ≡ false
    → has_value e.value (d ∷ pre) ≡ false
    → ((a : Ptr) → a ≢ e.cell → a ≢ last pre d.cell → g.cells a ≡ h.cells a)
    → ((v : Ptr)
        → h.cells (last pre d.cell) ≡ some (record { value = v; next = null })
        → g.cells (last pre d.cell) ≡ some (record { value = v; next = e.cell }))
    → ((a : Ptr) → a ≢ e.value → g.values a ≡ h.values a)
    → Chain g ((d ∷ pre) ++ e ∷ []) null
linked-Chain h g e d pre dist c n new_c new_v same linked values =
    Chain-relink {h = h} d pre [] (e ∷ []) null dist (rw append-nil c)
      (λ a m ne. same a (λ q. ground arith) ne) linked (λ a m. values a (λ q. ground arith)) (n, tt)

module _ {V : Type 0} (env : AddEnv) (elem : V) (h : Heap V) (p : Ptr) (l : Handle)
    (waits : env.wait ≡ true) (posts : env.post ≡ true) (cell_ne : env.cell ≢ null)
    (value_ne : env.value ≢ null) (cell_free : h.cells env.cell ≡ none)
    (value_free : h.values env.value ≡ none) (free : l.mutex ≢ 0) where
  -- The heap when `link_last` is called.
  abbrev before_link : Heap V
  before_link = record {
    lists = write h.lists p (some (record l { mutex = l.mutex - 1 }));
    cells = write h.cells env.cell (some (record (env.garbage) { value = env.value }));
    values = write h.values env.value (some elem);
  }

  -- The call is `link_last` between the wait and the post.
  call-link :
      (k : Heap V) (m : Handle)
      → p ≢ null
      → h.lists p ≡ some l
      → link_last p env.cell env.value before_link ≡ ok tt k
      → k.lists p ≡ some m
      → list_add env p (some elem) h
        ≡ ok env.value
            (record k { lists = write k.lists p (some (record m { mutex = m.mutex + 1 })) })
  unfolding list_add
  call-link k m ne at linked at' =
      ground (arith, sem_wait-ok h p l ne at free, sem_post-ok k p m ne at')

  -- The locked structure.
  abbrev locked : Handle
  locked = record l { mutex = l.mutex - 1 }

  append_to_empty :
      IsList h p l [] → Returns (Added h p l [] (added env elem)) (list_add env p (some elem) h)
  append_to_empty is =
      rw
        (call-link _ (record (linked_handle locked env.cell) { head = env.cell }) is.list_ne
          is.stored
          (link_last-empty before_link p env.cell env.value locked is.list_ne (ground arith)
            is.size_at)
          (ground arith))
        (record {
          result = refl;
          handle = record l {
            head = env.cell;
            tail = env.cell;
            size = (l.size + 1) % 2 ^ 64;
            mutex = l.mutex - 1 + 1;
          };
          list = record {
            list_ne = is.list_ne;
            stored = ground arith;
            chain = (ground arith, tt);
            distinct = ((refl, refl), tt);
            head_at = refl;
            tail_at = refl;
            size_at = omega (arith, is.size_at);
            small = omega arith;
          };
          mutex = omega arith;
          others = λ q ne. ground arith;
        })

  append_to_more :
      (d : Entry V) (pre : List (Entry V))
      → IsList h p l (d ∷ pre)
      → suc (length (d ∷ pre)) < 2 ^ 64
      → Returns (Added h p l (d ∷ pre) (added env elem)) (list_add env p (some elem) h)
  append_to_more d pre is room =
      let (tail_ne, (v, at)) = last-cell h d pre null is.chain in
      let other : env.cell ≢ l.tail = (λ q. ground (arith, is.tail_at)) in
      let new_c = has_cell_of_none h env.cell (d ∷ pre) null is.chain cell_free in
      let new_v = has_value_of_none h env.value (d ∷ pre) null is.chain value_free in
      rw
        (call-link _ (linked_handle locked env.cell) is.list_ne is.stored
          (link_last-more before_link p env.cell env.value locked is.list_ne (ground arith)
            (record { value = v; next = null }) (omega (arith, is.size_at))
            (ground (arith, is.tail_at)) (ground (arith, is.tail_at)) (ground (arith, is.tail_at)))
          (ground arith))
        (record {
          result = refl;
          handle = record (linked_handle locked env.cell) { mutex = l.mutex - 1 + 1 };
          list = record {
            list_ne = is.list_ne;
            stored = ground arith;
            chain =
                linked-Chain h _ (added env elem) d pre is.distinct is.chain
                  (record {
                    cell_ne = cell_ne;
                    value_ne = value_ne;
                    cell_at =
                        write-ne
                          (write (before_link).cells env.cell
                            (some (record { value = env.value; next = null })))
                          l.tail _ other
                        ∙ write_self (before_link).cells env.cell _;
                    value_at = ground arith;
                  })
                  new_c new_v (λ a ne ne'. ground (arith, is.tail_at))
                  (λ w q. ground (arith, is.tail_at)) (λ a ne. ground arith);
            distinct = Distinct-append_one (d ∷ pre) (added env elem) is.distinct new_c new_v;
            head_at = is.head_at;
            tail_at = sym (last-append pre (added env elem) d.cell);
            size_at = omega (arith, is.size_at, length-append (d ∷ pre) (added env elem ∷ []));
            small = omega (arith, length-append (d ∷ pre) (added env elem ∷ []));
          };
          mutex = omega arith;
          others = λ q ne. ground arith;
        })

  -- When no call of the kernel fails, `list_add` on a list of fewer than 2 ^ 64 - 1 elements whose
  -- mutex is free returns, without fault: the result is the address of the copy, the list holds the
  -- elements of before and then the copy, with `head`, `tail` and `size` right and the mutex free
  -- again, and no other list structure has changed.
  pub list_add-append :
      (es : List (Entry V))
      → IsList h p l es
      → suc (length es) < 2 ^ 64
      → Returns (Added h p l es (added env elem)) (list_add env p (some elem) h)
  list_add-append [] is room = append_to_empty is
  list_add-append (d ∷ pre) is room = append_to_more d pre is room
