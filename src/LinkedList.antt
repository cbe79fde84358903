-- ===== src/LinkedList.antt =====
-- libs/list/list.c: the linked list with a mutex, over an explicit heap. The heap has the three kinds
-- of objects that the functions allocate: list structures, cells and copies of elements. What the
-- kernel answers (addresses from `malloc`, results of semaphore calls) is an argument.
pub mod Memory
pub mod Chain
pub mod Add
pub mod Remove
pub mod Unlink
pub mod TakeOut
pub mod Removal
pub mod Walk
mod Tests
use local_server_c.Base.{
  ℕ, zero, suc, ◌+◌, ◌-◌, ◌%◌, ◌^◌, Option, none, some, Bool, true, false, not, ◌==◌, if◌then◌else◌,
  ℤ, pos, negsuc, eqb_ℤ,
}
use local_server_c.LinkedList.Memory.{
  Ptr, null, Cell, Handle, Heap, Run, ok, blocked, fault, out_of_fuel, Cmd, pure, ◌>>=◌, ◌>>◌,
  load_list, store_list, load_cell, store_cell, load_value, store_value, free_list, free_cell,
  free_value, sem_wait, sem_post,
}

abbrev pub null_elem : ℤ
null_elem = negsuc 0

abbrev pub sem_error : ℤ
sem_error = negsuc 2

-- What the kernel answers to `list_add`, and what the new cell holds before it is filled.
pub record AddEnv : Type 0 where
  pub wait : Bool
  pub cell : Ptr
  pub value : Ptr
  pub garbage : Cell
  pub post : Bool

-- The pointer to a cell that `list_remove` walks with: `&list_p->head` or `&cell->next`.
pub data Slot : Type 0 where
  head_slot : Slot
  next_slot : Ptr → Slot

module _ {V : Type 0} where
  -- `init_list`; `fresh` is what `malloc` returns and `garbage` what stands there.
  unfoldable pub init_list : Ptr → Handle → Bool → Cmd V Ptr
  init_list fresh garbage sem_ok =
      if fresh == null
      then pure null
      else if not sem_ok
      then (do store_list fresh garbage; pure null)
      else do
        store_list fresh (record { mutex = 1; head = null; tail = null; size = 0 })
        pure fresh

  -- `cell->next = NULL`, the link from the old last cell or the head, and the new tail and size.
  unfoldable pub link_last : Ptr → Ptr → Ptr → Cmd V (Unit {0})
  link_last list_p cell value = do
    store_cell cell (record { value = value; next = null })
    l ← load_list list_p
    if l.size == 0
        then store_list list_p (record l { head = cell })
        else (do t ← load_cell l.tail; store_cell l.tail (record t { next = cell }))
    l' ← load_list list_p
    store_list list_p (record l' { tail = cell; size = (l'.size + 1) % 2 ^ 64 })

  -- The body of `list_add` from the first `malloc` on.
  unfoldable pub add_cell : AddEnv → Ptr → V → Cmd V Ptr
  unfolding link_last
  add_cell env list_p elem = if env.cell == null then pure null else do
    store_cell env.cell (record (env.garbage) { value = env.value })
    if env.value == null then pure null else do
      store_value env.value elem
      link_last list_p env.cell env.value
      posted ← sem_post env.post list_p
      pure (if posted then env.value else null)

  -- `list_add`; `elem` is what the caller's pointer points to (`none` for NULL), of `elem_size` bytes.
  unfoldable pub list_add : AddEnv → Ptr → Option V → Cmd V Ptr
  unfolding add_cell
  list_add env list_p none = pure null
  list_add env list_p (some elem) =
      if list_p == null
      then pure null
      else do got ← sem_wait env.wait list_p; if got then add_cell env list_p elem else pure null

  unfoldable pub load_slot : Ptr → Slot → Cmd V Ptr
  load_slot list_p head_slot = do l ← load_list list_p; pure l.head
  load_slot list_p (next_slot c) = do n ← load_cell c; pure n.next

  unfoldable pub store_slot : Ptr → Slot → Ptr → Cmd V (Unit {0})
  store_slot list_p head_slot q = do l ← load_list list_p; store_list list_p (record l { head = q })
  store_slot list_p (next_slot c) q = do n ← load_cell c; store_cell c (record n { next = q })

  -- The body of the `if` in the loop of `list_remove`.
  unfoldable pub unlink : Ptr → Slot → Ptr → ℕ → Cmd V Bool
  unlink list_p slot prev i = do
    c ← load_slot list_p slot
    l ← load_list list_p
    if i == l.size then store_list list_p (record l { tail = prev }) else pure tt
    n ← load_cell c
    store_slot list_p slot n.next
    free_value n.value
    free_cell c
    pure true

  -- `list_remove` after its loop.
  unfoldable pub finish_remove : Ptr → Bool → Bool → Cmd V ℤ
  finish_remove list_p post_ok r = do
    l ← load_list list_p
    if r then store_list list_p (record l { size = (l.size + 2 ^ 64 - 1) % 2 ^ 64 }) else pure tt
    posted ← sem_post post_ok list_p
    pure (if posted then (if r then pos 1 else pos 0) else sem_error)

  module _ (compar : V → V → ℤ) (list_p : Ptr) (elem : V) where
    -- The loop of `list_remove`, on fuel.
    unfoldable pub remove_loop : ℕ → Slot → Ptr → ℕ → Cmd V Bool
    remove_loop zero slot prev i = λ _. out_of_fuel
    remove_loop (suc k) slot prev i = do
      c ← load_slot list_p slot
      if c == null then pure false else do
        n ← load_cell c
        v ← load_value n.value
        if eqb_ℤ (compar elem v) (pos 0)
            then unlink list_p slot prev ((i + 1) % 2 ^ 64)
            else remove_loop k (next_slot c) c ((i + 1) % 2 ^ 64)

    -- The rest of `list_remove` under the mutex.
    unfoldable pub remove_locked : Bool → Cmd V ℤ
    remove_locked post_ok = do
      l ← load_list list_p
      r ← remove_loop (l.size + 1) head_slot null 0
      finish_remove list_p post_ok r

  unfoldable pub list_remove : (V → V → ℤ) → Bool → Bool → Ptr → Option V → Cmd V ℤ
  unfolding remove_locked
  list_remove compar wait_ok post_ok list_p none = pure null_elem
  list_remove compar wait_ok post_ok list_p (some elem) =
      if list_p == null then pure null_elem else do
        got ← sem_wait wait_ok list_p
        if got then remove_locked compar list_p elem post_ok else pure sem_error

  -- The loop of `list_apply`, on fuel; `S` is what the calls of `apply` leave behind.
  unfoldable pub apply_loop : {S : Type 0} → (V → ℤ → S → ℤ × S) → ℕ → Ptr → ℤ → S → Cmd V (ℤ × S)
  apply_loop apply zero cell acc s = λ _. out_of_fuel
  apply_loop apply (suc k) cell acc s = if cell == null then pure (acc, s) else do
    n ← load_cell cell
    v ← load_value n.value
    let r = apply v acc s
    apply_loop apply k n.next r.0 r.1

  unfoldable pub list_apply : {S : Type 0} → Ptr → Option (V → ℤ → S → ℤ × S) → S → Cmd V (ℤ × S)
  unfolding apply_loop
  list_apply list_p none s = pure (null_elem, s)
  list_apply list_p (some apply) s =
      if list_p == null
      then pure (null_elem, s)
      else do l ← load_list list_p; apply_loop apply (l.size + 1) l.head (pos 0) s

  -- The loop of `list_dispose`, on fuel.
  unfoldable pub dispose_loop : ℕ → Ptr → Cmd V (Unit {0})
  dispose_loop zero cell = λ _. out_of_fuel
  dispose_loop (suc k) cell =
      if cell == null
      then pure tt
      else do n ← load_cell cell; free_value n.value; free_cell cell; dispose_loop k n.next

  unfoldable pub list_dispose : Bool → Ptr → Cmd V ℤ
  list_dispose wait_ok list_p = if list_p == null then pure null_elem else do
    got ← sem_wait wait_ok list_p
    if got
        then (do
          l ← load_list list_p
          dispose_loop (l.size + 1) l.head
          free_list list_p
          pure (pos 1))
        else pure sem_error
