-- ===== src/LinkedList/Removal.antt =====
-- `list_remove` takes the first element that compares equal out of the list.
use local_server_c.Base.{
  suc, ◌+◌, ◌-◌, ◌%◌, ◌^◌, ◌≡◌, refl, sym, ap, ◌∙◌, ◌≢◌, inl, inr, Bool, true, false, Option, none,
  some, List, [], ◌∷◌, ◌++◌, if◌then◌else◌, length, length-append, ℤ, pos, arith,
}
use mathlib.Core.Path.{subst}
use local_server_c.LinkedList.Memory.{
  Ptr, null, Handle, Heap, ok, write, write_self, write-ne, Returns, Returns-bind, load_list,
  sem_wait-ok, sem_post-ok,
}
use local_server_c.LinkedList.{
  head_slot, load_slot, unlink, finish_remove, remove_locked, list_remove,
}
use local_server_c.LinkedList.Remove.{
  slot_after, NoHit, erase, contains, Split, split, loop_none, loop_hit,
}
use local_server_c.LinkedList.TakeOut.{TakenOut, take_head, take_next}
use local_server_c.LinkedList.Chain.{
  Entry, has_cell, has_cell-append, Distinct, first, last, IsList, Chain-same, Distinct-remove,
}

-- A completed call: the result says whether an element compared equal; the list holds the entries
-- without the first such, whose cell and copy are freed; the mutex is as it was, and no other list
-- structure has changed.
pub record Removed {V : Type 0} (compar : V → V → ℤ) (elem : V) (h : Heap V) (p : Ptr) (l : Handle)
    (es : List (Entry V)) (r : ℤ) (g : Heap V) : Type 0 where
  pub result : r ≡ (if contains compar elem es then pos 1 else pos 0)
  pub handle : Handle
  pub list : IsList g p handle (erase compar elem es)
  pub mutex : handle.mutex ≡ l.mutex
  pub freed :
      (a : Ptr)
      → has_cell a es ≡ true
      → has_cell a (erase compar elem es) ≡ false
      → g.cells a ≡ none
  pub others : (q : Ptr) → q ≢ p → g.lists q ≡ h.lists q

abbrev counted : Handle → Handle
counted m = record m { size = (m.size + 2 ^ 64 - 1) % 2 ^ 64 }

write_twice :
    {A : Type 0} (f : Ptr → Option A) (p : Ptr) (x y : Option A) {q : Ptr}
    → q ≢ p
    → write (write f p x) p y q ≡ f q
write_twice f p x y ne = ground arith

-- An entry's cell is the only one that leaves with it.
only_entry :
    {V : Type 0} (a : Ptr) (pre : List (Entry V)) (e : Entry V) (post : List (Entry V))
    → has_cell a (pre ++ e ∷ post) ≡ true
    → has_cell a (pre ++ post) ≡ false
    → a ≡ e.cell
only_entry a pre e post m o =
    ground (arith, has_cell-append a pre (e ∷ post), has_cell-append a pre post)

module _ {V : Type 0} (g : Heap V) (p : Ptr) (m : Handle) (ne : p ≢ null)
    (at : g.lists p ≡ some m) where
  finish-none :
      finish_remove p true false g
      ≡ ok (pos 0) (record g { lists = write g.lists p (some (record m { mutex = m.mutex + 1 })) })
  unfolding finish_remove load_list
  finish-none = ground (arith, sem_post-ok g p m ne at)

  finish-hit :
      finish_remove p true true g
      ≡ ok (pos 1) (record g {
        lists =
            write
              (write g.lists p (some (counted m)))
              p
              (some (record (counted m) { mutex = m.mutex + 1 }));
      })
  unfolding finish_remove load_list
  finish-hit =
      let w =
        sem_post-ok (record g { lists = write g.lists p (some (counted m)) }) p (counted m) ne
          (write_self g.lists p (some (counted m))) in
      ground arith

module _ {V : Type 0} (compar : V → V → ℤ) (elem : V) (h : Heap V) (p : Ptr) (l : Handle)
    (free : l.mutex ≢ 0) where
  -- The heap and the structure under the mutex.
  abbrev held : Heap V
  held = record h { lists = write h.lists p (some (record l { mutex = l.mutex - 1 })) }

  abbrev held_list : Handle
  held_list = record l { mutex = l.mutex - 1 }

  held-IsList : (es : List (Entry V)) → IsList h p l es → IsList held p held_list es
  held-IsList es is = record {
    list_ne = is.list_ne;
    stored = write_self h.lists p (some held_list);
    chain = Chain-same h held es null is.chain (λ a m. refl) (λ a m. refl);
    distinct = is.distinct;
    head_at = is.head_at;
    tail_at = is.tail_at;
    size_at = is.size_at;
    small = is.small;
  }

  locked-call :
      (es : List (Entry V))
      → IsList h p l es
      → list_remove compar true true p (some elem) h ≡ remove_locked compar p elem true held
  unfolding list_remove
  locked-call es is = ground (arith, sem_wait-ok h p l is.list_ne is.stored free, is.list_ne)

  at_head :
      (es : List (Entry V)) → IsList h p l es → load_slot p head_slot held ≡ ok (first es null) held
  unfolding load_slot load_list
  at_head es is = ground (arith, is.list_ne, is.head_at)

  load_held : (es : List (Entry V)) → IsList h p l es → load_list p held ≡ ok held_list held
  unfolding load_list
  load_held es is = ground (arith, is.list_ne)

  -- Nothing compares equal.
  remove_none :
      (es : List (Entry V))
      → IsList h p l es
      → NoHit compar elem es
      → erase compar elem es ≡ es
      → contains compar elem es ≡ false
      → Returns (Removed compar elem h p l es) (list_remove compar true true p (some elem) h)
  unfolding remove_locked
  remove_none es is no_hit same not_in =
      let is' = held-IsList es is in
      rw
        (
          locked-call es is,
          load_held es is,
          loop_none compar elem held p (l.size + 1) 0 head_slot null es is'.chain no_hit
              (at_head es is) (omega (arith, is.size_at)) (omega (arith, is.small)),
          finish-none held p held_list is.list_ne is'.stored,
        )
        (record {
          result = rw not_in;
          handle = record held_list { mutex = l.mutex - 1 + 1 };
          list = subst (IsList _ p _) (sym same) (record {
            list_ne = is.list_ne;
            stored = write_self held.lists p _;
            chain = Chain-same h _ es null is.chain (λ a m. refl) (λ a m. refl);
            distinct = is.distinct;
            head_at = is.head_at;
            tail_at = is.tail_at;
            size_at = is.size_at;
            small = is.small;
          });
          mutex = omega arith;
          freed = λ a m o. cc (same);
          others = λ q ne. ground arith;
        })

  taken_out :
      (pre : List (Entry V)) (e : Entry V) (post : List (Entry V))
      → IsList held p held_list (pre ++ e ∷ post)
      → Returns
          (TakenOut held p held_list pre e post)
          (unlink p (slot_after head_slot pre) (last pre null) (length pre + 1) held)
  taken_out [] e post is = take_head held p held_list e post is
  taken_out (d ∷ pre) e post is = take_next held p held_list e post d pre is

  Removed-of :
      (es pre : List (Entry V)) (e : Entry V) (post : List (Entry V))
      → IsList h p l es
      → es ≡ pre ++ e ∷ post
      → erase compar elem es ≡ pre ++ post
      → contains compar elem es ≡ true
      → length es ≡ length pre + suc (length post)
      → (g : Heap V) (r : Bool) (t : TakenOut held p held_list pre e post r g)
      → Removed compar elem h p l es (pos 1) (record g {
        lists =
            write
              (write g.lists p (some (counted t.handle)))
              p
              (some (record (counted t.handle) { mutex = t.handle.mutex + 1 }));
      })
  Removed-of es pre e post is eq rest is_in len g r t = record {
    result = rw is_in;
    handle = record (counted t.handle) { mutex = t.handle.mutex + 1 };
    list = subst (IsList _ p _) (sym rest) (record {
      list_ne = is.list_ne;
      stored = write_self (write g.lists p _) p _;
      chain = Chain-same g _ (pre ++ post) null t.chain (λ a m. refl) (λ a m. refl);
      distinct = Distinct-remove pre e post (subst Distinct eq is.distinct);
      head_at = t.head_at;
      tail_at = t.tail_at;
      size_at = omega (arith, t.size, is.size_at, is.small, len, length-append pre post);
      small = omega (arith, is.small, len, length-append pre post);
    });
    mutex = omega (arith, t.mutex);
    freed = λ a m o.
        ap g.cells (
          only_entry a pre e post (subst (λ x. has_cell a x ≡ true) eq m)
            (subst (λ x. has_cell a x ≡ false) rest o))
        ∙ t.cell_freed;
    others = λ q ne. write_twice g.lists p _ _ ne ∙ t.others q ne ∙ write-ne h.lists p _ ne;
  }

  -- The entry `e` between `pre` and `post` is the first that compares equal.
  remove_hit :
      (es : List (Entry V))
      → IsList h p l es
      → Split compar elem es
      → Returns (Removed compar elem h p l es) (list_remove compar true true p (some elem) h)
  unfolding remove_locked Split
  remove_hit es is (pre, e, post, eq, no_hit, hits, rest, is_in) =
      let is' = subst (IsList held p held_list) eq (held-IsList es is) in
      let len : length es ≡ length pre + suc (length post) =
        ap length eq ∙ length-append pre (e ∷ post) in
      rw
        (
          locked-call es is,
          load_held es is,
          loop_hit compar elem held p (l.size + 1) 0 (length pre + 1) head_slot null pre e post
              is'.chain no_hit hits
              (subst (λ x. load_slot p head_slot held ≡ ok (first x null) held) eq (at_head es is))
              (omega (arith, is.size_at)) (omega arith) (omega (arith, is.small)),
        )
        (Returns-bind _ _
          (unlink p (slot_after head_slot pre) (last pre null) (length pre + 1) held)
          (finish_remove p true) (taken_out pre e post is')
          λ r g t.
            rw (t.result, finish-hit g p t.handle is.list_ne t.stored)
              (Removed-of es pre e post is eq rest is_in len g r t))

  -- When the waits and posts do not fail, `list_remove` on a list whose mutex is free returns, without
  -- fault: the result is 1 and the first element that compares equal is out of the list and its cell
  -- freed, or the result is 0 and the elements are as they were; `head`, `tail` and `size` are right,
  -- the mutex is free again, and no other list structure has changed.
  pub list_remove-erase :
      (es : List (Entry V))
      → IsList h p l es
      → Returns (Removed compar elem h p l es) (list_remove compar true true p (some elem) h)
  list_remove-erase es is = elim (split compar elem es) [
    | inl (no_hit, same, not_in) ↦ remove_none es is no_hit same not_in
    | inr s ↦ remove_hit es is s
  ]
