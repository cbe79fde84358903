-- ===== src/Queue/Life.antt =====
-- libs/connection/connection.c: how the shared memory of the queue is made, joined, left and removed
-- (init_server_queue, connect, disconnect, free_server_queue). What the system answers is an argument.
pub mod Cycle
mod Tests
use local_server_c.Base.{
  ℕ, ◌+◌, ◌-◌, ◌%◌, ◌^◌, ◌==◌, Option, none, some, Bool, true, false, not, if◌then◌else◌, replicate,
  ℤ, pos, negsuc,
}
use local_server_c.Queue.{ServerQueue, Outcome, returned, blocked, shm_error, semaphore_error}
use local_server_c.Queue.System.{no_request}

-- What a process sees: the object that SHM_NAME leads to, and how many descriptors and mappings of it
-- the process holds.
pub record World : Type 0 where
  pub object : Option ServerQueue
  pub descriptors : ℕ
  pub mappings : ℕ

-- What `init_server_queue` and `connect` return (NULL is `none`), and the world after the call.
abbrev pub Opened : Type 0
Opened = Option ServerQueue × World

-- What the system answers to `init_server_queue`; `shm_open` fails besides when the name is taken.
pub record InitEnv : Type 0 where
  pub shm_fd : ℕ
  pub shm_opened : Bool
  pub truncated : Bool
  pub mapped : Bool
  pub mutex_set : Bool
  pub empty_set : Bool
  pub full_set : Bool
  pub closed : Bool
  pub unlinked : Bool

-- The object after `ftruncate`: zeros.
abbrev pub zeroed : ℕ → ServerQueue
zeroed max_slot = record {
  shm_fd = 0;
  nb_slots = 0;
  mutex = 0;
  empty = 0;
  full = 0;
  length = 0;
  head = 0;
  tail = 0;
  buffer = replicate max_slot no_request;
}

-- The label `err`.
unfoldable pub init_err : InitEnv → World → Opened
init_err env w = (
  none,
  record w {
    descriptors = if env.closed then w.descriptors - 1 else w.descriptors;
    object = if env.unlinked then none else w.object;
  },
)

-- The semaphores and the fields, in mapped memory that holds `q`.
unfoldable pub init_fields : InitEnv → ℕ → ServerQueue → World → Opened
init_fields env max_slot q w =
    let q₀ = record q { shm_fd = env.shm_fd } in
    let q₁ = record q₀ { mutex = 1 } in
    let q₂ = record q₁ { empty = max_slot % 2 ^ 32 } in
    let q₃ = record q₂ { full = 0; nb_slots = max_slot; length = 0; head = 0; tail = 0 } in
    if not env.mutex_set
    then (none, record w { object = some q₀ })
    else if not env.empty_set
    then (none, record w { object = some q₁ })
    else if not env.full_set
    then (none, record w { object = some q₂ })
    else (some q₃, record w { object = some q₃ })

-- `init_server_queue`.
unfoldable pub init_server_queue : InitEnv → ℕ → World → Opened
unfolding init_err init_fields
init_server_queue env max_slot w = elim w.object [
  | some q ↦ (none, w)
  | none ↦
      let w₁ = record w { object = some (zeroed 0); descriptors = w.descriptors + 1 } in
      if not env.shm_opened
      then (none, w)
      else if not env.truncated
      then init_err env w₁
      else if not env.mapped
      then init_err env (record w₁ { object = some (zeroed max_slot) })
      else init_fields env max_slot (zeroed max_slot)
          (record w₁ { object = some (zeroed max_slot); mappings = w.mappings + 1 })
]

-- What the system answers to `connect`.
pub record ConnectEnv : Type 0 where
  pub shm_opened : Bool
  pub first_mapped : Bool
  pub unmapped : Bool
  pub mapped : Bool
  pub closed : Bool

-- `connect` to SHM_NAME.
unfoldable pub connect : ConnectEnv → World → Opened
connect env w = elim w.object [
  | none ↦ (none, w)
  | some q ↦
      let kept = if env.closed then w.descriptors else w.descriptors + 1 in
      if not env.shm_opened
      then (none, w)
      else if not env.first_mapped
      then (none, record w { descriptors = kept })
      else if not env.unmapped
      then (none, record w { descriptors = w.descriptors + 1; mappings = w.mappings + 1 })
      else if not env.mapped
      then (none, record w { descriptors = kept })
      else if not env.closed
      then (none, record w { descriptors = kept; mappings = w.mappings + 1 })
      else (some q, record w { mappings = w.mappings + 1 })
]

-- `disconnect`.
unfoldable pub disconnect : Bool → World → ℤ × World
disconnect unmapped w =
    if unmapped then (pos 1, record w { mappings = w.mappings - 1 }) else (shm_error, w)

-- What the system answers to `free_server_queue`.
pub record FreeEnv : Type 0 where
  pub waited : Bool
  pub closed : Bool
  pub unmapped : Bool
  pub unlinked : Bool

-- `free_server_queue` on mapped memory that holds `q`.
unfoldable pub free_server_queue : FreeEnv → ServerQueue → World → Outcome World
free_server_queue env q w =
    let w₁ = record w { descriptors = w.descriptors - 1 } in
    let w₂ = record w₁ { mappings = w.mappings - 1 } in
    if not env.waited
    then returned semaphore_error w
    else if q.mutex == 0
    then blocked w
    else if not env.closed
    then returned shm_error w
    else if not env.unmapped
    then returned shm_error w₁
    else if not env.unlinked
    then returned shm_error w₂
    else returned (pos 1) (record w₂ { object = none })
