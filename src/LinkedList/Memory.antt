-- ===== src/LinkedList/Memory.antt =====
-- The heap of list.c, and commands that read and write it, wait and fail.
use local_server_c.Base.{
  ◌≡◌, ◌≢◌, refl, arith, ℕ, ◌+◌, ◌-◌, Option, none, some, Bool, true, false, ◌==◌, if◌then◌else◌,
}

abbrev pub Ptr : Type 0
Ptr = ℕ

abbrev pub null : Ptr
null = 0

-- `struct clist`.
pub record Cell : Type 0 where
  pub value : Ptr
  pub next : Ptr

-- `struct list` less its function pointer `compar`, which is an argument of `list_remove`.
pub record Handle : Type 0 where
  pub mutex : ℕ
  pub head : Ptr
  pub tail : Ptr
  pub size : ℕ

-- `V` is what a copied element holds.
pub record Heap (V : Type 0) : Type 0 where
  pub lists : Ptr → Option Handle
  pub cells : Ptr → Option Cell
  pub values : Ptr → Option V

-- How a run ends: with a value, waiting for ever on a semaphore at 0, at a fault (NULL, a pointer to
-- nothing, a second `free`), or out of fuel.
pub data Run (V : Type 0) (A : Type 0) : Type 0 where
  ok : A → Heap V → Run V A
  blocked : Heap V → Run V A
  fault : Run V A
  out_of_fuel : Run V A

abbrev pub Cmd : Type 0 → Type 0 → Type 0
Cmd V A = Heap V → Run V A

abbrev pub write : {A : Type 0} → (Ptr → Option A) → Ptr → Option A → Ptr → Option A
write f p c a = if a == p then c else f a

pub write_self : {A : Type 0} (f : Ptr → Option A) (p : Ptr) (c : Option A) → write f p c p ≡ c
write_self f p c = ground arith

pub write-ne :
    {A : Type 0} (f : Ptr → Option A) (p : Ptr) (c : Option A) {a : Ptr}
    → a ≢ p
    → write f p c a ≡ f a
write-ne f p c ne = ground arith

abbrev pub pure : {V A : Type 0} → A → Cmd V A
pure a h = ok a h

module _ {V A : Type 0} where
  -- Total correctness of a run: it ends with a value, no fault, no wait, enough fuel, and `P`.
  abbrev pub Returns : (A → Heap V → Type 0) → Run V A → Type 0
  Returns P (ok a h) = P a h
  Returns P (blocked h) = ⊥
  Returns P fault = ⊥
  Returns P out_of_fuel = ⊥

module _ {V A B : Type 0} where
  abbrev pub and_then : Run V A → (A → Cmd V B) → Run V B
  and_then (ok a h) k = k a h
  and_then (blocked h) k = blocked h
  and_then fault k = fault
  and_then out_of_fuel k = out_of_fuel

  infixl 5 ◌>>=◌ ◌>>◌
  abbrev pub ◌>>=◌ : Cmd V A → (A → Cmd V B) → Cmd V B
  m >>= k = λ h. and_then (m h) k

  abbrev pub ◌>>◌ : Cmd V A → Cmd V B → Cmd V B
  m >> n = m >>= λ _. n

-- A read through a pointer, and the raw writes.
module _ {V : Type 0} where
  abbrev pub found : {A : Type 0} → Ptr → Option A → Cmd V A
  found p none h = fault
  found p (some a) h = if p == null then fault else ok a h

  unfoldable pub load_list : Ptr → Cmd V Handle
  load_list p h = found p (h.lists p) h

  unfoldable pub load_cell : Ptr → Cmd V Cell
  load_cell p h = found p (h.cells p) h

  unfoldable pub load_value : Ptr → Cmd V V
  load_value p h = found p (h.values p) h

  abbrev pub store_list : Ptr → Handle → Cmd V (Unit {0})
  store_list p l h = ok tt (record h { lists = write h.lists p (some l) })

  abbrev pub store_cell : Ptr → Cell → Cmd V (Unit {0})
  store_cell p c h = ok tt (record h { cells = write h.cells p (some c) })

  abbrev pub store_value : Ptr → V → Cmd V (Unit {0})
  store_value p v h = ok tt (record h { values = write h.values p (some v) })

  abbrev pub clear_list : Ptr → Cmd V (Unit {0})
  clear_list p h = ok tt (record h { lists = write h.lists p none })

  abbrev pub clear_cell : Ptr → Cmd V (Unit {0})
  clear_cell p h = ok tt (record h { cells = write h.cells p none })

  abbrev pub clear_value : Ptr → Cmd V (Unit {0})
  clear_value p h = ok tt (record h { values = write h.values p none })

  -- `free` of what is not allocated is a fault.
  unfoldable pub free_list : Ptr → Cmd V (Unit {0})
  free_list p = load_list p >> clear_list p

  unfoldable pub free_cell : Ptr → Cmd V (Unit {0})
  free_cell p = load_cell p >> clear_cell p

  unfoldable pub free_value : Ptr → Cmd V (Unit {0})
  free_value p = load_value p >> clear_value p

  -- The semaphore calls on the list's mutex: `false` where the call itself fails.
  unfoldable pub sem_wait : Bool → Ptr → Cmd V Bool
  sem_wait succeeds p =
      if succeeds
      then (do
        l ← load_list p
        if l.mutex == 0
            then blocked
            else (do store_list p (record l { mutex = l.mutex - 1 }); pure true))
      else pure false

  unfoldable pub sem_post : Bool → Ptr → Cmd V Bool
  sem_post succeeds p =
      if succeeds
      then (do l ← load_list p; store_list p (record l { mutex = l.mutex + 1 }); pure true)
      else pure false

module _ {V : Type 0} where
  -- Taking and giving back the mutex of the structure at `p`.
  pub sem_wait-ok :
      (h : Heap V) (p : Ptr) (l : Handle)
      → p ≢ null
      → h.lists p ≡ some l
      → l.mutex ≢ 0
      → sem_wait true p h
        ≡ ok true (record h { lists = write h.lists p (some (record l { mutex = l.mutex - 1 })) })
  unfolding sem_wait load_list
  sem_wait-ok h p l ne at free = ground arith

  pub sem_post-ok :
      (h : Heap V) (p : Ptr) (l : Handle)
      → p ≢ null
      → h.lists p ≡ some l
      → sem_post true p h
        ≡ ok true (record h { lists = write h.lists p (some (record l { mutex = l.mutex + 1 })) })
  unfolding sem_post load_list
  sem_post-ok h p l ne at = ground arith

-- Sequencing: the second part from each result of the first.
pub Returns-bind :
    {V A B : Type 0} (P : A → Heap V → Type 0) (Q : B → Heap V → Type 0) (r : Run V A)
    (k : A → Cmd V B)
    → Returns P r
    → ((a : A) (h : Heap V) → P a h → Returns Q (k a h))
    → Returns Q (and_then r k)
Returns-bind P Q (ok a h) k x next = next a h x
Returns-bind P Q (blocked h) k x next = x
Returns-bind P Q fault k x next = x
Returns-bind P Q out_of_fuel k x next = x

pub Returns-mono :
    {V A : Type 0} (P Q : A → Heap V → Type 0) (r : Run V A)
    → Returns P r
    → ((a : A) (h : Heap V) → P a h → Q a h)
    → Returns Q r
Returns-mono P Q (ok a h) x weaken = weaken a h x
Returns-mono P Q (blocked h) x weaken = x
Returns-mono P Q fault x weaken = x
Returns-mono P Q out_of_fuel x weaken = x

-- A run that returns, as an equation.
pub Returns-ok :
    {V A : Type 0} (P : A → Heap V → Type 0) (r : Run V A)
    → Returns P r
    → (x : A) × (h : Heap V) × (r ≡ ok x h) × P x h
Returns-ok P (ok x h) p = (x, h, refl, p)
Returns-ok P (blocked h) p = absurd p
Returns-ok P fault p = absurd p
Returns-ok P out_of_fuel p = absurd p
