-- ===== src/LinkedList/Chain.antt =====
-- Which elements a list structure holds: entries (cell, copy, element) linked from `head`, all at
-- different addresses.
use local_server_c.Base.{
  ◌<◌, ◌^◌, ◌≡◌, refl, ap, ◌≢◌, Bool, true, false, ◌||◌, none, some, List, [], ◌∷◌, ◌++◌, ◌==◌,
  length, arith,
}
use local_server_c.LinkedList.Memory.{Ptr, null, Handle, Heap, ok, load_cell, load_value}

pub record Entry (V : Type 0) : Type 0 where
  pub cell : Ptr
  pub value : Ptr
  pub item : V

module _ {V : Type 0} where
  abbrev pub has_cell : Ptr → List (Entry V) → Bool
  has_cell a [] = false
  has_cell a (e ∷ es) = a == e.cell || has_cell a es

  abbrev pub has_value : Ptr → List (Entry V) → Bool
  has_value a [] = false
  has_value a (e ∷ es) = a == e.value || has_value a es

  -- The entry's addresses are not those of `es`.
  abbrev pub Fresh : Entry V → List (Entry V) → Type 0
  Fresh e es = (has_cell e.cell es ≡ false) × (has_value e.value es ≡ false)

  abbrev pub Distinct : List (Entry V) → Type 0
  Distinct [] = Unit
  Distinct (e ∷ es) = Fresh e es × Distinct es

  -- The cell to start at, and the last cell.
  abbrev pub first : List (Entry V) → Ptr → Ptr
  first [] stop = stop
  first (e ∷ es) stop = e.cell

  abbrev pub last : List (Entry V) → Ptr → Ptr
  last [] start = start
  last (e ∷ es) start = last es e.cell

  pub record Node (h : Heap V) (e : Entry V) (next : Ptr) : Type 0 where
    pub cell_ne : e.cell ≢ null
    pub value_ne : e.value ≢ null
    pub cell_at : h.cells e.cell ≡ some (record { value = e.value; next = next })
    pub value_at : h.values e.value ≡ some e.item

  abbrev pub Chain : Heap V → List (Entry V) → Ptr → Type 0
  Chain h [] stop = Unit
  Chain h (e ∷ es) stop = Node h e (first es stop) × Chain h es stop

  -- At `p` stands the structure `l`, which holds the entries `es`.
  pub record IsList (h : Heap V) (p : Ptr) (l : Handle) (es : List (Entry V)) : Type 0 where
    pub list_ne : p ≢ null
    pub stored : h.lists p ≡ some l
    pub chain : Chain h es null
    pub distinct : Distinct es
    pub head_at : l.head ≡ first es null
    pub tail_at : l.tail ≡ last es l.tail
    pub size_at : l.size ≡ length es
    pub small : length es < 2 ^ 64

  pub load_cell-ok :
      {h : Heap V} {e : Entry V} {q : Ptr}
      → Node h e q
      → load_cell e.cell h ≡ ok (record { value = e.value; next = q }) h
  unfolding load_cell
  load_cell-ok n = ground arith

  pub load_value-ok :
      {h : Heap V} {e : Entry V} {q : Ptr} → Node h e q → load_value e.value h ≡ ok (e.item) h
  unfolding load_value
  load_value-ok n = ground arith

  pub Node-same :
      {h g : Heap V} {e : Entry V} {q : Ptr}
      → Node h e q
      → g.cells e.cell ≡ h.cells e.cell
      → g.values e.value ≡ h.values e.value
      → Node g e q
  Node-same n c v = ground arith

  -- A chain survives what happens at other addresses.
  pub Chain-same :
      (h g : Heap V) (es : List (Entry V)) (stop : Ptr)
      → Chain h es stop
      → ((a : Ptr) → has_cell a es ≡ true → g.cells a ≡ h.cells a)
      → ((a : Ptr) → has_value a es ≡ true → g.values a ≡ h.values a)
      → Chain g es stop
  Chain-same h g [] stop c same_cells same_values = tt
  Chain-same h g (e ∷ es) stop c same_cells same_values = (
    Node-same c.0 (same_cells e.cell (ground arith)) (same_values e.value (ground arith)),
    Chain-same h g es stop c.1 (λ a h. same_cells a (ground arith))
        (λ a h. same_values a (ground arith)),
  )

  pub last-mem : (e : Entry V) (es : List (Entry V)) → has_cell (last es e.cell) (e ∷ es) ≡ true
  last-mem e [] = ground arith
  last-mem e (d ∷ es) = ground (arith, last-mem d es)

  -- Linking the last cell of a chain to another chain joins the two.
  pub Chain-relink :
      {h g : Heap V} (d : Entry V) (pre xs ys : List (Entry V)) (stop : Ptr)
      → Distinct (d ∷ pre)
      → Chain h ((d ∷ pre) ++ xs) stop
      → ((a : Ptr) → has_cell a (d ∷ pre) ≡ true → a ≢ last pre d.cell → g.cells a ≡ h.cells a)
      → ((v : Ptr)
          → h.cells (last pre d.cell) ≡ some (record { value = v; next = first xs stop })
          → g.cells (last pre d.cell) ≡ some (record { value = v; next = first ys stop }))
      → ((a : Ptr) → has_value a (d ∷ pre) ≡ true → g.values a ≡ h.values a)
      → Chain g ys stop
      → Chain g ((d ∷ pre) ++ ys) stop
  Chain-relink d [] xs ys stop dist c same linked values joined = (
    record {
      cell_ne = c.0.cell_ne;
      value_ne = c.0.value_ne;
      cell_at = linked d.value c.0.cell_at;
      value_at = ground (arith, values d.value, c.0);
    },
    joined,
  )
  Chain-relink d (e ∷ pre) xs ys stop dist c same linked values joined = (
    Node-same c.0 (same d.cell (ground arith) (λ q. ground (arith, last-mem e pre)))
        (values d.value (ground arith)),
    Chain-relink e pre xs ys stop dist.1 c.1 (λ a m ne. same a (ground arith) ne) linked
        (λ a m. values a (ground arith)) joined,
  )

  pub has_cell-append :
      (a : Ptr) (xs ys : List (Entry V)) → has_cell a (xs ++ ys) ≡ (has_cell a xs || has_cell a ys)
  has_cell-append a [] ys = refl
  has_cell-append a (x ∷ xs) ys = ground (arith, has_cell-append a xs ys)

  pub has_value-append :
      (a : Ptr) (xs ys : List (Entry V))
      → has_value a (xs ++ ys) ≡ (has_value a xs || has_value a ys)
  has_value-append a [] ys = refl
  has_value-append a (x ∷ xs) ys = ground (arith, has_value-append a xs ys)

  -- An address that holds nothing is no address of a chain.
  pub has_cell_of_none :
      (h : Heap V) (a : Ptr) (es : List (Entry V)) (stop : Ptr)
      → Chain h es stop
      → h.cells a ≡ none
      → has_cell a es ≡ false
  has_cell_of_none h a [] stop c n = refl
  has_cell_of_none h a (e ∷ es) stop c n = ground (arith, has_cell_of_none h a es stop c.1 n, c.0)

  pub has_value_of_none :
      (h : Heap V) (a : Ptr) (es : List (Entry V)) (stop : Ptr)
      → Chain h es stop
      → h.values a ≡ none
      → has_value a es ≡ false
  has_value_of_none h a [] stop c n = refl
  has_value_of_none h a (e ∷ es) stop c n = ground (arith, has_value_of_none h a es stop c.1 n, c.0)

  -- The last cell of a chain is allocated and ends it.
  pub last-cell :
      (h : Heap V) (d : Entry V) (es : List (Entry V)) (stop : Ptr)
      → Chain h (d ∷ es) stop
      → (last es d.cell ≢ null)
        × ((v : Ptr) × (h.cells (last es d.cell) ≡ some (record { value = v; next = stop })))
  last-cell h d [] stop c = (c.0.cell_ne, (d.value, c.0.cell_at))
  last-cell h d (e ∷ es) stop c = last-cell h e es stop c.1

  pub last-append :
      (xs : List (Entry V)) (e : Entry V) (start : Ptr) → last (xs ++ e ∷ []) start ≡ e.cell
  last-append [] e start = refl
  last-append (x ∷ xs) e start = last-append xs e x.cell

  pub Distinct-append_one :
      (xs : List (Entry V)) (e : Entry V)
      → Distinct xs
      → has_cell e.cell xs ≡ false
      → has_value e.value xs ≡ false
      → Distinct (xs ++ e ∷ [])
  Distinct-append_one [] e d c v = ((refl, refl), tt)
  Distinct-append_one (x ∷ xs) e d c v = (
    (
      ground (arith, has_cell-append x.cell xs (e ∷ []), d.0),
      ground (arith, has_value-append x.value xs (e ∷ []), d.0),
    ),
    Distinct-append_one xs e d.1 (ground arith) (ground arith),
  )

  -- The parts of a chain of two lists.
  pub Chain-prefix :
      (h : Heap V) (xs ys : List (Entry V)) (stop : Ptr)
      → Chain h (xs ++ ys) stop
      → Chain h xs (first ys stop)
  Chain-prefix h [] ys stop c = tt
  Chain-prefix h (x ∷ []) ys stop c = (c.0, tt)
  Chain-prefix h (x ∷ y ∷ xs) ys stop c = (c.0, Chain-prefix h (y ∷ xs) ys stop c.1)

  pub Chain-suffix :
      (h : Heap V) (xs ys : List (Entry V)) (stop : Ptr) → Chain h (xs ++ ys) stop → Chain h ys stop
  Chain-suffix h [] ys stop c = c
  Chain-suffix h (x ∷ xs) ys stop c = Chain-suffix h xs ys stop c.1

  pub Distinct-prefix : (xs ys : List (Entry V)) → Distinct (xs ++ ys) → Distinct xs
  Distinct-prefix [] ys d = tt
  Distinct-prefix (x ∷ xs) ys d = (
    (
      ground (arith, has_cell-append x.cell xs ys, d.0),
      ground (arith, has_value-append x.value xs ys, d.0),
    ),
    Distinct-prefix xs ys d.1,
  )

  pub Distinct-suffix : (xs ys : List (Entry V)) → Distinct (xs ++ ys) → Distinct ys
  Distinct-suffix [] ys d = d
  Distinct-suffix (x ∷ xs) ys d = Distinct-suffix xs ys d.1

  pub cells_disjoint :
      (xs ys : List (Entry V)) (a : Ptr)
      → Distinct (xs ++ ys)
      → has_cell a xs ≡ true
      → has_cell a ys ≡ false
  cells_disjoint [] ys a d m = cc
  cells_disjoint (x ∷ xs) ys a d m =
      ground (arith, has_cell-append x.cell xs ys, d.0, cells_disjoint xs ys a d.1)

  pub values_disjoint :
      (xs ys : List (Entry V)) (a : Ptr)
      → Distinct (xs ++ ys)
      → has_value a xs ≡ true
      → has_value a ys ≡ false
  values_disjoint [] ys a d m = cc
  values_disjoint (x ∷ xs) ys a d m =
      ground (arith, has_value-append x.value xs ys, d.0, values_disjoint xs ys a d.1)

  pub Distinct-remove :
      (xs : List (Entry V)) (e : Entry V) (ys : List (Entry V))
      → Distinct (xs ++ e ∷ ys)
      → Distinct (xs ++ ys)
  Distinct-remove [] e ys d = d.1
  Distinct-remove (x ∷ xs) e ys d = (
    (
      ground (arith, has_cell-append x.cell xs ys, has_cell-append x.cell xs (e ∷ ys), d.0),
      ground (arith, has_value-append x.value xs ys, has_value-append x.value xs (e ∷ ys), d.0),
    ),
    Distinct-remove xs e ys d.1,
  )

  pub last-append_cons :
      (xs : List (Entry V)) (y : Entry V) (ys : List (Entry V)) (start : Ptr)
      → last (xs ++ y ∷ ys) start ≡ last ys y.cell
  last-append_cons [] y ys start = refl
  last-append_cons (x ∷ xs) y ys start = last-append_cons xs y ys x.cell

  pub ne_of_not-has_cell :
      (a : Ptr) (e : Entry V) (es : List (Entry V)) → has_cell a (e ∷ es) ≡ false → a ≢ e.cell
  ne_of_not-has_cell a e es h = ground arith

  pub ne_of_has_cell :
      (a b : Ptr) (es : List (Entry V)) → has_cell a es ≡ true → has_cell b es ≡ false → a ≢ b
  ne_of_has_cell a b es m o e = cc (ap (λ x. has_cell x es) e)

  pub ne_of_has_value :
      (a b : Ptr) (es : List (Entry V)) → has_value a es ≡ true → has_value b es ≡ false → a ≢ b
  ne_of_has_value a b es m o e = cc (ap (λ x. has_value x es) e)

  pub ne_of_not-has_value :
      (a : Ptr) (e : Entry V) (es : List (Entry V)) → has_value a (e ∷ es) ≡ false → a ≢ e.value
  ne_of_not-has_value a e es h = ground arith

  pub has_cell-tail :
      (a : Ptr) (e : Entry V) (es : List (Entry V))
      → has_cell a (e ∷ es) ≡ false
      → has_cell a es ≡ false
  has_cell-tail a e es h = ground arith
