-- ===== src/LinkedList/Unlink.antt =====
-- The unlinking of one cell in `list_remove`, and what it leaves of the chain.
use local_server_c.Base.{
  ℕ, ◌≡◌, refl, ◌≢◌, inl, inr, Bool, true, Option, none, some, ◌==◌, if◌then◌else◌, Bool-cases,
  arith,
}
use local_server_c.LinkedList.Memory.{
  Ptr, null, Cell, Handle, Heap, ok, write, Returns, load_list, load_cell, load_value, free_value,
  free_cell,
}
use local_server_c.LinkedList.{head_slot, next_slot, load_slot, store_slot, unlink}
use local_server_c.LinkedList.Chain.{Entry, Node}

-- What unlinking entry `e` leaves: the structure at `p` is `l'`, the cells are `cells'`, the copy is
-- gone, and all else is as it was.
pub record Unlinked {V : Type 0} (h : Heap V) (p : Ptr) (e : Entry V) (l' : Handle)
    (cells' : Ptr → Option Cell) (r : Bool) (g : Heap V) : Type 0 where
  pub result : r ≡ true
  pub stored : g.lists p ≡ some l'
  pub others : (a : Ptr) → a ≢ p → g.lists a ≡ h.lists a
  pub cells : (a : Ptr) → g.cells a ≡ cells' a
  pub values : (a : Ptr) → g.values a ≡ (if a == e.value then none else h.values a)

module _ {V : Type 0} (h : Heap V) (p : Ptr) (l : Handle) (list_ne : p ≢ null)
    (stored : h.lists p ≡ some l) (e : Entry V) (q : Ptr) (n : Node h e q) where
  -- The cells without that of `e`.
  abbrev pub without : Ptr → Option Cell
  without a = if a == e.cell then none else h.cells a

  -- The handle after the move of `tail`.
  abbrev pub retailed : Ptr → ℕ → Handle
  retailed prev j = record l { tail = if j == l.size then prev else l.tail }

  -- The writes to the structures before the cell is taken out.
  abbrev moved_tail : Ptr → ℕ → Ptr → Option Handle
  moved_tail prev j =
      if j == l.size then write h.lists p (some (record l { tail = prev })) else h.lists

  unlink_head-eq :
      (prev : Ptr) (j : ℕ)
      → l.head ≡ e.cell
      → unlink p head_slot prev j h
        ≡ ok true (record {
          lists = write (moved_tail prev j) p (some (record (retailed prev j) { head = q }));
          cells = write h.cells e.cell none;
          values = write h.values e.value none;
        })
  unfolding unlink load_slot store_slot load_list load_cell load_value free_value free_cell
  unlink_head-eq prev j at = elim (Bool-cases (j == l.size)) [
    | inl y ↦ ground (arith, n)
    | inr z ↦ ground (arith, n)
  ]

  pub unlink_head :
      (prev : Ptr) (j : ℕ)
      → l.head ≡ e.cell
      → Returns
          (Unlinked h p e (record (retailed prev j) { head = q }) without)
          (unlink p head_slot prev j h)
  unlink_head prev j at = rw (unlink_head-eq prev j at) (record {
    result = refl;
    stored = ground arith;
    others = λ a ne. ground arith;
    cells = λ a. refl;
    values = λ a. refl;
  })

  unlink_next-eq :
      (prev d v : Ptr) (j : ℕ)
      → d ≢ null
      → d ≢ e.cell
      → h.cells d ≡ some (record { value = v; next = e.cell })
      → unlink p (next_slot d) prev j h
        ≡ ok true (record {
          lists = moved_tail prev j;
          cells = write (write h.cells d (some (record { value = v; next = q }))) e.cell none;
          values = write h.values e.value none;
        })
  unfolding unlink load_slot store_slot load_list load_cell load_value free_value free_cell
  unlink_next-eq prev d v j ne other at = elim (Bool-cases (j == l.size)) [
    | inl y ↦ ground (arith, n)
    | inr z ↦ ground (arith, n)
  ]

  pub unlink_next :
      (prev d v : Ptr) (j : ℕ)
      → d ≢ null
      → d ≢ e.cell
      → h.cells d ≡ some (record { value = v; next = e.cell })
      → Returns
          (Unlinked h p e (retailed prev j) (λ a.
            if a == e.cell
            then none
            else if a == d
            then some (record { value = v; next = q })
            else h.cells a))
          (unlink p (next_slot d) prev j h)
  unlink_next prev d v j ne other at = rw (unlink_next-eq prev d v j ne other at) (record {
    result = refl;
    stored = ground arith;
    others = λ a ne'. ground arith;
    cells = λ a. refl;
    values = λ a. refl;
  })
