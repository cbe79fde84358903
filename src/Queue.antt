-- ===== src/Queue.antt =====
-- libs/connection/connection.c: the queue of connection requests in shared memory. A circular
-- buffer of `nb_slots` requests with three semaphores: `empty` counts free slots, `full` counts
-- waiting requests, `mutex` guards the buffer. What the kernel answers (clock, semaphores, memory)
-- is an argument of the functions.
pub mod System
pub mod Invariant
pub mod Preserved
pub mod Safety
pub mod Progress
pub mod Solo
pub mod Life
mod Tests
use local_server_c.Base.{
  ℕ, ◌+◌, ◌-◌, ◌*◌, ◌%◌, ◌^◌, Option, none, some, Bool, not, List, ◌==◌, if◌then◌else◌, get_elem?,
  set, replicate, ℤ, pos, negsuc,
}
use local_server_c.Base.Text.{strncpy}

-- NAME_MAX of <limits.h>.
abbrev pub name_max : ℕ
name_max = 255

abbrev pub invalid_pointer : ℤ
invalid_pointer = negsuc 0

abbrev pub shm_error : ℤ
shm_error = negsuc 1

abbrev pub semaphore_error : ℤ
semaphore_error = negsuc 2

-- `struct shm_request`.
pub record ShmRequest : Type 0 where
  pub request_pipe : List ℕ
  pub response_pipe : List ℕ
  pub pid : ℕ
  pub uid : ℕ

-- `struct server_queue`; the semaphores are their values.
pub record ServerQueue : Type 0 where
  pub shm_fd : ℕ
  pub nb_slots : ℕ
  pub mutex : ℕ
  pub empty : ℕ
  pub full : ℕ
  pub length : ℕ
  pub head : ℕ
  pub tail : ℕ
  pub buffer : List ShmRequest

-- `size_t` arithmetic.
abbrev pub add_size : ℕ → ℕ → ℕ
add_size a b = (a + b) % 2 ^ 64

abbrev pub sub_size : ℕ → ℕ → ℕ
sub_size a b = (a + 2 ^ 64 - b) % 2 ^ 64

-- The request of a client: zeroed buffers, then the two names cut to NAME_MAX bytes.
unfoldable pub make_request : List ℕ → List ℕ → ℕ → ℕ → ShmRequest
make_request request_pipe_name response_pipe_name pid uid = record {
  request_pipe = strncpy (replicate (name_max + 1) 0) request_pipe_name name_max;
  response_pipe = strncpy (replicate (name_max + 1) 0) response_pipe_name name_max;
  pid = pid;
  uid = uid;
}

-- The writes of `send_shm_request` under the mutex.
unfoldable pub enqueue : ShmRequest → ServerQueue → ServerQueue
enqueue request q = record q {
  buffer = set q.buffer q.head request;
  head = add_size q.head 1 % q.nb_slots;
  length = add_size q.length 1;
}

-- The writes of `fetch_shm_request` under the mutex.
unfoldable pub dequeue : ServerQueue → ServerQueue
dequeue q = record q { tail = add_size q.tail 1 % q.nb_slots; length = sub_size q.length 1 }

-- How a wait on a semaphore ends: it is taken, the deadline passes, or the call fails.
pub data Wait : Type 0 where
  taken timed_out failed : Wait

-- How a call ends: it returns, waits for ever on a semaphore at 0, or reads outside the buffer.
pub data Outcome (A : Type 0) : Type 0 where
  returned : ℤ → A → Outcome A
  blocked : A → Outcome A
  fault : Outcome A

-- The same outcome, seen through the caller's pointer.
unfoldable pub shared : {A B : Type 0} → (A → B) → Outcome A → Outcome B
shared f (returned r a) = returned r (f a)
shared f (blocked a) = blocked (f a)
shared f fault = fault

-- What the kernel answers to `send_shm_request`. The waits are told the deadline.
pub record SendEnv : Type 0 where
  pub clock : Option ℕ
  pub wait_empty : ℕ → Wait
  pub wait_mutex : ℕ → Wait
  pub post_mutex : Bool
  pub post_full : Bool
  pub pid : ℕ
  pub uid : ℕ

-- From `sem_post(&server_q->mutex)` on.
unfoldable pub send_post : SendEnv → ServerQueue → Outcome ServerQueue
send_post env q =
    if env.post_mutex
    then (let q₁ = record q { mutex = q.mutex + 1 } in
        if env.post_full
        then returned (pos 1) (record q₁ { full = q₁.full + 1 })
        else returned semaphore_error q₁)
    else returned semaphore_error q

-- From `sem_timedwait(&server_q->mutex, &ts)` on.
unfoldable pub send_locked : SendEnv → ℕ → List ℕ → List ℕ → ServerQueue → Outcome ServerQueue
unfolding send_post
send_locked env deadline request_name response_name q = elim (env.wait_mutex deadline) [
  | timed_out ↦ returned (pos 0) q
  | failed ↦ returned semaphore_error q
  | taken ↦
      if q.mutex == 0
      then blocked q
      else send_post env (
          enqueue (make_request request_name response_name env.pid env.uid)
            (record q { mutex = q.mutex - 1 }))
]

unfoldable pub send_shm_request :
    SendEnv → Option ServerQueue → List ℕ → List ℕ → ℕ → Outcome (Option ServerQueue)
unfolding send_locked shared
send_shm_request env none request_name response_name timeout = returned invalid_pointer none
send_shm_request env (some q) request_name response_name timeout = elim env.clock [
  | none ↦ returned shm_error (some q)
  | some now ↦ elim (env.wait_empty (now + timeout)) [
    | timed_out ↦ returned (pos 0) (some q)
    | failed ↦ returned semaphore_error (some q)
    | taken ↦
        if q.empty == 0
        then blocked (some q)
        else shared some (
            send_locked env (now + timeout) request_name response_name
              (record q { empty = q.empty - 1 }))
  ]
]

-- What the kernel answers to `fetch_shm_request`: does each call succeed?
pub record FetchEnv : Type 0 where
  pub wait_full : Bool
  pub wait_mutex : Bool
  pub post_mutex : Bool
  pub post_empty : Bool

-- `apply` is the caller's function on the request, over a state `S` of the caller's.
module _ {S : Type 0} where
  -- From `sem_post(&server_q->mutex)` on, with the value of `apply`.
  unfoldable pub fetch_post : FetchEnv → ℤ → ServerQueue → S → Outcome (ServerQueue × S)
  fetch_post env r q st =
      if env.post_mutex
      then (let q₁ = record q { mutex = q.mutex + 1 } in
          if env.post_empty
          then returned r (record q₁ { empty = q₁.empty + 1 }, st)
          else returned semaphore_error (q₁, st))
      else returned semaphore_error (q, st)

  -- From the call of `apply` on the oldest request on.
  unfoldable pub fetch_apply :
      FetchEnv → (ShmRequest → S → ℤ × S) → ServerQueue → S → Outcome (ServerQueue × S)
  unfolding fetch_post
  fetch_apply env apply q st = elim (get_elem? q.buffer q.tail) [
    | none ↦ fault
    | some request ↦ let (r, st') = apply request st in fetch_post env r (dequeue q) st'
  ]

  unfoldable pub fetch_shm_request :
      FetchEnv
      → Option ServerQueue
      → Option (ShmRequest → S → ℤ × S)
      → S
      → Outcome (Option ServerQueue × S)
  unfolding fetch_apply shared
  fetch_shm_request env none apply st = returned invalid_pointer (none, st)
  fetch_shm_request env (some q) none st = returned invalid_pointer (some q, st)
  fetch_shm_request env (some q) (some apply) st =
      if not env.wait_full
      then returned semaphore_error (some q, st)
      else if q.full == 0
      then blocked (some q, st)
      else if not env.wait_mutex
      then returned semaphore_error (some (record q { full = q.full - 1 }), st)
      else if q.mutex == 0
      then blocked (some (record q { full = q.full - 1 }), st)
      else shared (λ (q', st'). (some q', st'))
          (fetch_apply env apply (record q { full = q.full - 1; mutex = q.mutex - 1 }) st)
