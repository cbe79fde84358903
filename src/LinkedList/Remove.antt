-- ===== src/LinkedList/Remove.antt =====
-- `list_remove` takes out the first element that compares equal, and frees it.
use local_server_c.Base.{
  ℕ, zero, suc, ◌+◌, ◌-◌, ◌%◌, ◌<◌, ◌^◌, ◌≡◌, refl, ap, ◌∙◌, ◌⊎◌, inl, inr, Bool, true, false, List,
  [], ◌∷◌, ◌++◌, ◌==◌, if◌then◌else◌, Bool-cases, length, ℤ, pos, eqb_ℤ, arith,
}
use local_server_c.LinkedList.Memory.{Ptr, null, Heap, ok}
use local_server_c.LinkedList.{Slot, next_slot, load_slot, unlink, remove_loop}
use local_server_c.LinkedList.Chain.{Entry, first, last, Node, Chain, load_cell-ok, load_value-ok}

module _ {V : Type 0} where
  -- Where the loop stands, and which cell is behind it, after passing some entries.
  abbrev pub slot_after : Slot → List (Entry V) → Slot
  slot_after slot [] = slot
  slot_after slot (e ∷ es) = slot_after (next_slot e.cell) es

module _ {V : Type 0} (compar : V → V → ℤ) (elem : V) where
  abbrev pub hit : Entry V → Bool
  hit e = eqb_ℤ (compar elem e.item) (pos 0)

  abbrev pub NoHit : List (Entry V) → Type 0
  NoHit [] = Unit
  NoHit (e ∷ es) = (hit e ≡ false) × NoHit es

  -- The entries without the first that compares equal.
  unfoldable pub erase : List (Entry V) → List (Entry V)
  erase [] = []
  erase (e ∷ es) = if hit e then es else e ∷ erase es

  unfoldable pub contains : List (Entry V) → Bool
  contains [] = false
  contains (e ∷ es) = if hit e then true else contains es

  -- Either nothing compares equal, or the entries split at the first that does.
  unfoldable pub Split : List (Entry V) → Type 0
  Split es =
      (pre : List (Entry V)) × (e : Entry V) × (post : List (Entry V)) × (es ≡ pre ++ e ∷ post)
      × NoHit pre
      × (hit e ≡ true)
      × (erase es ≡ pre ++ post)
      × (contains es ≡ true)

  pub split :
      (es : List (Entry V)) → (NoHit es × (erase es ≡ es) × (contains es ≡ false)) ⊎ Split es
  unfolding erase contains Split
  split [] = inl (tt, refl, refl)
  split (e ∷ es) = elim (Bool-cases (hit e)) [
    | inl h ↦ inr ([], e, es, refl, tt, h, rw h, rw h)
    | inr m ↦ elim (split es) [
      | inl (no_hit, same, not_in) ↦ inl ((m, no_hit), rw (m, same), rw (m, not_in))
      | inr (pre, d, post, eq, no_hit, h, rest, is_in) ↦
          inr
            (e ∷ pre, d, post, ap (◌∷◌ e) eq, (m, no_hit), h, rw m (ap (◌∷◌ e) rest), rw (m, is_in))
    ]
  ]

  module _ (h : Heap V) (p : Ptr) where
    -- One round of the loop at an entry.
    loop_step :
        (k i : ℕ) (slot : Slot) (prev : Ptr) (e : Entry V) (q : Ptr)
        → Node h e q
        → load_slot p slot h ≡ ok (e.cell) h
        → i < 2 ^ 64 - 1
        → remove_loop compar p elem (suc k) slot prev i h ≡ (
            if hit e
            then unlink p slot prev (i + 1) h
            else remove_loop compar p elem k (next_slot e.cell) e.cell (i + 1) h)
    unfolding remove_loop
    loop_step k i slot prev e q n at small =
        let ne : (e.cell == null) ≡ false = ground (arith, n.cell_ne) in
        let no_wrap : (i + 1) % 2 ^ 64 ≡ i + 1 = omega arith in
        rw (at, ne, load_cell-ok n, load_value-ok n, no_wrap)
          (elim (Bool-cases (hit e)) [ inl y ↦ rw y | inr z ↦ rw z ])

    at_next : (e : Entry V) (q : Ptr) → Node h e q → load_slot p (next_slot e.cell) h ≡ ok q h
    unfolding load_slot
    at_next e q n = rw (load_cell-ok n)

    -- The loop passes the entries that do not compare equal.
    pub loop_none :
        (k i : ℕ) (slot : Slot) (prev : Ptr) (es : List (Entry V))
        → Chain h es null
        → NoHit es
        → load_slot p slot h ≡ ok (first es null) h
        → length es < k
        → i + length es < 2 ^ 64
        → remove_loop compar p elem k slot prev i h ≡ ok false h
    unfolding remove_loop
    loop_none zero i slot prev es c m at fuel small = absurd (omega arith)
    loop_none (suc k) i slot prev [] c m at fuel small = rw at
    loop_none (suc k) i slot prev (e ∷ es) c m at fuel small =
        loop_step k i slot prev e (first es null) c.0 at (omega arith)
        ∙ rw m.0 (
            loop_none k (i + 1) (next_slot e.cell) e.cell es c.1 m.1 (at_next e (first es null) c.0)
              (omega arith) (omega arith))

    pub loop_hit :
        (k i j : ℕ) (slot : Slot) (prev : Ptr) (pre : List (Entry V)) (e : Entry V)
        (post : List (Entry V))
        → Chain h (pre ++ e ∷ post) null
        → NoHit pre
        → hit e ≡ true
        → load_slot p slot h ≡ ok (first (pre ++ e ∷ post) null) h
        → length pre < k
        → j ≡ i + length pre + 1
        → j < 2 ^ 64
        → remove_loop compar p elem k slot prev i h
          ≡ unlink p (slot_after slot pre) (last pre prev) j h
    loop_hit zero i j slot prev pre e post c m is_hit at fuel eq small = absurd (omega arith)
    loop_hit (suc k) i j slot prev [] e post c m is_hit at fuel eq small =
        loop_step k i slot prev e (first post null) c.0 at (omega arith)
        ∙ rw is_hit (ap (λ n. unlink p slot prev n h) (omega arith))
    loop_hit (suc k) i j slot prev (d ∷ pre) e post c m is_hit at fuel eq small =
        loop_step k i slot prev d (first (pre ++ e ∷ post) null) c.0 at (omega arith)
        ∙ rw m.0 (
            loop_hit k (i + 1) j (next_slot d.cell) d.cell pre e post c.1 m.1 is_hit
              (at_next d (first (pre ++ e ∷ post) null) c.0) (omega arith) (omega arith) small)
