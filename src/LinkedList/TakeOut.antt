-- ===== src/LinkedList/TakeOut.antt =====
-- Taking one entry out of the middle of a list: the writes of `list_remove` when it finds one.
use local_server_c.Base.{
  ◌+◌, ◌≡◌, refl, sym, ◌∙◌, ◌≢◌, Bool, true, false, Option, none, some, List, [], ◌∷◌, ◌++◌, ◌==◌,
  if◌then◌else◌, length, length-append, append-nil, arith,
}
use local_server_c.LinkedList.Memory.{Ptr, null, Cell, Handle, Heap, Returns, Returns-mono}
use local_server_c.LinkedList.{head_slot, next_slot, unlink}
use local_server_c.LinkedList.Remove.{slot_after}
use local_server_c.LinkedList.Unlink.{unlink_head, unlink_next, retailed}
use local_server_c.LinkedList.Chain.{
  Entry, has_cell, first, last, last-mem, Chain, IsList, Chain-same, Chain-relink, Chain-prefix,
  Chain-suffix, Distinct-prefix, Distinct-suffix, cells_disjoint, values_disjoint, last-cell,
  ne_of_not-has_cell, ne_of_has_cell, ne_of_has_value, ne_of_not-has_value, has_cell-tail,
  last-append_cons,
}

-- What taking `e` out from between `pre` and `post` leaves, `size` not yet counted down.
pub record TakenOut {V : Type 0} (h : Heap V) (p : Ptr) (l : Handle) (pre : List (Entry V))
    (e : Entry V) (post : List (Entry V)) (r : Bool) (g : Heap V) : Type 0 where
  pub result : r ≡ true
  pub handle : Handle
  pub stored : g.lists p ≡ some handle
  pub mutex : handle.mutex ≡ l.mutex
  pub size : handle.size ≡ l.size
  pub head_at : handle.head ≡ first (pre ++ post) null
  pub tail_at : handle.tail ≡ last (pre ++ post) handle.tail
  pub chain : Chain g (pre ++ post) null
  pub cell_freed : g.cells e.cell ≡ none
  pub value_freed : g.values e.value ≡ none
  pub others : (a : Ptr) → a ≢ p → g.lists a ≡ h.lists a

module _ {A : Type 0} where
  spared :
      (x y z : Option A) (a b c : Ptr)
      → a ≢ b
      → a ≢ c
      → (if a == b then y else if a == c then z else x) ≡ x
  spared x y z a b c n m = ground arith

  spared_one : (x y : Option A) (a b : Ptr) → a ≢ b → (if a == b then y else x) ≡ x
  spared_one x y a b n = ground arith

relinked :
    {x y : Option Cell} {t c v q r : Ptr} (w : Ptr)
    → y ≡ some (record { value = w; next = r })
    → x ≡ (if t == c then none else if t == t then some (record { value = v; next = q }) else y)
    → t ≢ c
    → y ≡ some (record { value = v; next = r })
    → x ≡ some (record { value = w; next = q })
relinked w b u n at = ground arith

module _ {V : Type 0} (h : Heap V) (p : Ptr) (l : Handle) where
  slot_after-last :
      (x : Ptr) (pre : List (Entry V)) → slot_after (next_slot x) pre ≡ next_slot (last pre x)
  slot_after-last x [] = refl
  slot_after-last x (d ∷ pre) = slot_after-last d.cell pre

  -- `tail` moves exactly when the last entry goes.
  tail_after :
      (e : Entry V) (post pre : List (Entry V)) (start : Ptr)
      → l.size ≡ length (pre ++ e ∷ post)
      → l.tail ≡ last (pre ++ e ∷ post) l.tail
      → let t = if (length pre + 1) == l.size then last pre start else l.tail in
        t ≡ last (pre ++ post) t
  tail_after e [] [] start size tail = refl
  tail_after e [] (d ∷ pre) start size tail =
      let y : ((length (d ∷ pre) + 1) == l.size) ≡ true =
        ground (arith, length-append pre (e ∷ []), size) in
      rw (y, append-nil)
  tail_after e (f ∷ post) pre start size tail =
      let z : ((length pre + 1) == l.size) ≡ false =
        ground (arith, length-append pre (e ∷ f ∷ post), size) in
      rw z
        (tail ∙ last-append_cons pre e (f ∷ post) l.tail ∙ sym (last-append_cons pre f post l.tail))

  module _ (e : Entry V) (post : List (Entry V)) where
    pub take_head :
        IsList h p l (e ∷ post) → Returns (TakenOut h p l [] e post) (unlink p head_slot null 1 h)
    take_head is =
        let n = is.chain.0 in
        Returns-mono _ _ (unlink p head_slot null 1 h)
          (unlink_head h p l is.list_ne is.stored e (first post null) n null 1 is.head_at)
          λ r g u. record {
            result = u.result;
            handle = record (retailed h p l is.list_ne is.stored e (first post null) n null 1) {
              head = first post null;
            };
            stored = u.stored;
            mutex = refl;
            size = refl;
            head_at = refl;
            tail_at = tail_after e post [] null is.size_at is.tail_at;
            chain =
                Chain-same h g post null is.chain.1
                  (λ a m. ground (arith, u.cells a, is.distinct.0))
                  (λ a m. ground (arith, u.values a, is.distinct.0));
            cell_freed = ground (arith, u.cells e.cell);
            value_freed = ground (arith, u.values e.value);
            others = u.others;
          }

    pub take_next :
        (d : Entry V) (pre : List (Entry V))
        → IsList h p l ((d ∷ pre) ++ e ∷ post)
        → Returns (TakenOut h p l (d ∷ pre) e post) (
            unlink p
              (slot_after head_slot (d ∷ pre))
              (last (d ∷ pre) null)
              (length (d ∷ pre) + 1)
              h)
    take_next d pre is =
        let n = (Chain-suffix h (d ∷ pre) (e ∷ post) null is.chain).0 in
        let q = first post null in
        let t = last pre d.cell in
        let after = Chain-suffix h (d ∷ pre) (e ∷ post) null is.chain in
        let (ne, (v, at)) =
          last-cell h d pre e.cell (Chain-prefix h (d ∷ pre) (e ∷ post) null is.chain) in
        let apart = λ (a : Ptr) (m : has_cell a (d ∷ pre) ≡ true).
          cells_disjoint (d ∷ pre) (e ∷ post) a is.distinct m in
        let dist = Distinct-suffix (d ∷ pre) (e ∷ post) is.distinct in
        let far = apart t (last-mem d pre) in
        rw (slot_after-last d.cell pre) (
          Returns-mono _ _ (unlink p (next_slot t) t (length (d ∷ pre) + 1) h)
            (unlink_next h p l is.list_ne is.stored e q n t t v (length (d ∷ pre) + 1) ne
              (ne_of_not-has_cell t e post far) at)
            λ r g u. record {
              result = u.result;
              handle = retailed h p l is.list_ne is.stored e q n t (length (d ∷ pre) + 1);
              stored = u.stored;
              mutex = refl;
              size = refl;
              head_at = is.head_at;
              tail_at = tail_after e post (d ∷ pre) null is.size_at is.tail_at;
              chain =
                  Chain-relink {h = h} d pre (e ∷ post) post null
                    (Distinct-prefix (d ∷ pre) (e ∷ post) is.distinct) is.chain
                    (λ a m far_a.
                      u.cells a
                      ∙ spared (h.cells a) none (some (record { value = v; next = q })) a e.cell t
                          (ne_of_not-has_cell a e post (apart a m)) far_a)
                    (λ w b. relinked w b (u.cells t) (ne_of_not-has_cell t e post far) at)
                    (λ a m.
                      u.values a
                      ∙ spared_one (h.values a) none a e.value (
                          ne_of_not-has_value a e post
                            (values_disjoint (d ∷ pre) (e ∷ post) a is.distinct m)))
                    (Chain-same h g post null after.1
                      (λ a m.
                        u.cells a
                        ∙ spared (h.cells a) none (some (record { value = v; next = q })) a e.cell t
                            (ne_of_has_cell a e.cell post m dist.0.0)
                            (ne_of_has_cell a t post m (has_cell-tail t e post far)))
                      (λ a m.
                        u.values a
                        ∙ spared_one (h.values a) none a e.value
                            (ne_of_has_value a e.value post m dist.0.1)));
              cell_freed = ground (arith, u.cells e.cell);
              value_freed = ground (arith, u.values e.value);
              others = u.others;
            })
