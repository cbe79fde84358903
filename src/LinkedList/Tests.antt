-- ===== src/LinkedList/Tests.antt =====
-- The theorems on the linked list at a heap with two elements.
use local_server_c.Base.{
  inr, ℕ, ◌≡◌, refl, true, none, some, [], ◌∷◌, ◌==◌, if◌then◌else◌, ℤ, pos, arith,
}
use local_server_c.LinkedList.Memory.{null, Handle, Heap, blocked, Returns}
use local_server_c.LinkedList.{AddEnv, list_add, list_remove, list_dispose}
use local_server_c.LinkedList.Chain.{Entry, IsList}
use local_server_c.LinkedList.Add.{Added, added, list_add-append}
use local_server_c.LinkedList.Removal.{Removed, list_remove-erase}
use local_server_c.LinkedList.Walk.{Disposed, list_dispose-Freed, add_failure_locks}

abbrev five : Entry ℕ
five = record { cell = 10; value = 11; item = 5 }

abbrev six : Entry ℕ
six = record { cell = 20; value = 21; item = 6 }

abbrev handle : Handle
handle = record { mutex = 1; head = 10; tail = 20; size = 2 }

abbrev heap : Heap ℕ
heap = record {
  lists = λ a. if a == 1 then some handle else none;
  cells = λ a.
      if a == 10
      then some (record { value = 11; next = 20 })
      else if a == 20
      then some (record { value = 21; next = 0 })
      else none;
  values = λ a. if a == 11 then some 5 else if a == 21 then some 6 else none;
}

heap-IsList : IsList heap 1 handle (five ∷ six ∷ [])
heap-IsList = record {
  list_ne = omega arith;
  stored = refl;
  chain = (
    record { cell_ne = omega arith; value_ne = omega arith; cell_at = refl; value_at = refl },
    (record { cell_ne = omega arith; value_ne = omega arith; cell_at = refl; value_at = refl }, tt),
  );
  distinct = ((refl, refl), ((refl, refl), tt));
  head_at = refl;
  tail_at = refl;
  size_at = refl;
  small = omega arith;
}

abbrev answers : AddEnv
answers = record {
  wait = true;
  cell = 30;
  value = 31;
  garbage = record { value = 99; next = 99 };
  post = true;
}

abbrev compare_items : ℕ → ℕ → ℤ
compare_items a b = if a == b then pos 0 else pos 1

list_add-append_example :
    Returns
      (Added heap 1 handle (five ∷ six ∷ []) (added answers 7))
      (list_add answers 1 (some 7) heap)
list_add-append_example =
    list_add-append answers 7 heap 1 handle refl refl (omega arith) (omega arith) refl refl
      (omega arith) (five ∷ six ∷ []) heap-IsList (omega arith)

list_remove-erase_example :
    Returns
      (Removed compare_items 6 heap 1 handle (five ∷ six ∷ []))
      (list_remove compare_items true true 1 (some 6) heap)
list_remove-erase_example =
    list_remove-erase compare_items 6 heap 1 handle (omega arith) (five ∷ six ∷ []) heap-IsList

list_dispose-Freed_example : Returns (Disposed heap 1 (five ∷ six ∷ [])) (list_dispose true 1 heap)
list_dispose-Freed_example =
    list_dispose-Freed heap 1 handle (five ∷ six ∷ []) heap-IsList (omega arith)

add_failure_locks_example :
    Returns
      (λ r g. (r ≡ null) × (list_remove compare_items true true 1 (some 6) g ≡ blocked g))
      (list_add (record answers { value = 0 }) 1 (some 7) heap)
add_failure_locks_example =
    add_failure_locks compare_items (record answers { value = 0 }) 7 6 true heap 1 handle
      (omega arith) refl (inr (omega arith, refl)) refl refl
