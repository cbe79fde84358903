-- ===== src/Queue/System.antt =====
-- Processes that share the request queue: any number of clients in `send_shm_request` and of
-- threads in `fetch_shm_request`, interleaved at their semaphore calls. What a process does under
-- the mutex is one step.
use local_server_c.Base.{
  ℕ, ◌+◌, ◌-◌, ◌^◌, ◌<◌, ◌≡◌, some, List, [], ◌∷◌, ◌++◌, get_elem?, get_or, All, set, replicate,
}
use local_server_c.Queue.{name_max, ShmRequest, ServerQueue, enqueue, dequeue}

-- Where a client is in `send_shm_request`: outside, after the wait on `empty`, after the wait on
-- `mutex`, after the writes, after the post of `mutex`.
pub data Sender : Type 0 where
  idle reserved locked stored unlocked : Sender

-- Where a thread is in `fetch_shm_request`: outside, after the wait on `full`, after the wait on
-- `mutex`, after `apply` and the writes, after the post of `mutex`.
pub data Fetcher : Type 0 where
  idle reserved locked removed unlocked : Fetcher

-- `sent` and `handled` record the requests stored and those given to `apply`, oldest first; `lost`
-- and `lost_full` count the calls that took `empty` or `full` and then gave up on `mutex`.
pub record System : Type 0 where
  pub queue : ServerQueue
  pub senders : List Sender
  pub fetchers : List Fetcher
  pub sent : List ShmRequest
  pub handled : List ShmRequest
  pub lost : ℕ
  pub lost_full : ℕ

-- A zero-filled slot.
abbrev pub no_request : ShmRequest
no_request = record {
  request_pipe = replicate (name_max + 1) 0;
  response_pipe = replicate (name_max + 1) 0;
  pid = 0;
  uid = 0;
}

-- The request that `apply` is given.
abbrev pub oldest : ServerQueue → ShmRequest
oldest q = get_or q.buffer q.tail no_request

pub data Step (s : System) : System → Type 0 where
  send_wait_empty :
      (i : ℕ)
      → get_elem? s.senders i ≡ some Sender.idle
      → 0 < s.queue.empty
      → Step s (record s {
        queue = record (s.queue) { empty = s.queue.empty - 1 };
        senders = set s.senders i Sender.reserved;
      })
  send_wait_mutex :
      (i : ℕ)
      → get_elem? s.senders i ≡ some Sender.reserved
      → 0 < s.queue.mutex
      → Step s (record s {
        queue = record (s.queue) { mutex = s.queue.mutex - 1 };
        senders = set s.senders i Sender.locked;
      })
  send_give_up :
      (i : ℕ)
      → get_elem? s.senders i ≡ some Sender.reserved
      → Step s (record s { senders = set s.senders i Sender.idle; lost = s.lost + 1 })
  send_store :
      (i : ℕ) (request : ShmRequest)
      → get_elem? s.senders i ≡ some Sender.locked
      → Step s (record s {
        queue = enqueue request s.queue;
        senders = set s.senders i Sender.stored;
        sent = s.sent ++ request ∷ [];
      })
  send_post_mutex :
      (i : ℕ)
      → get_elem? s.senders i ≡ some Sender.stored
      → Step s (record s {
        queue = record (s.queue) { mutex = s.queue.mutex + 1 };
        senders = set s.senders i Sender.unlocked;
      })
  send_post_full :
      (i : ℕ)
      → get_elem? s.senders i ≡ some Sender.unlocked
      → Step s (record s {
        queue = record (s.queue) { full = s.queue.full + 1 };
        senders = set s.senders i Sender.idle;
      })
  fetch_wait_full :
      (i : ℕ)
      → get_elem? s.fetchers i ≡ some Fetcher.idle
      → 0 < s.queue.full
      → Step s (record s {
        queue = record (s.queue) { full = s.queue.full - 1 };
        fetchers = set s.fetchers i Fetcher.reserved;
      })
  fetch_wait_mutex :
      (i : ℕ)
      → get_elem? s.fetchers i ≡ some Fetcher.reserved
      → 0 < s.queue.mutex
      → Step s (record s {
        queue = record (s.queue) { mutex = s.queue.mutex - 1 };
        fetchers = set s.fetchers i Fetcher.locked;
      })
  fetch_give_up :
      (i : ℕ)
      → get_elem? s.fetchers i ≡ some Fetcher.reserved
      → Step s (record s { fetchers = set s.fetchers i Fetcher.idle; lost_full = s.lost_full + 1 })
  fetch_apply :
      (i : ℕ)
      → get_elem? s.fetchers i ≡ some Fetcher.locked
      → Step s (record s {
        queue = dequeue s.queue;
        fetchers = set s.fetchers i Fetcher.removed;
        handled = s.handled ++ oldest s.queue ∷ [];
      })
  fetch_post_mutex :
      (i : ℕ)
      → get_elem? s.fetchers i ≡ some Fetcher.removed
      → Step s (record s {
        queue = record (s.queue) { mutex = s.queue.mutex + 1 };
        fetchers = set s.fetchers i Fetcher.unlocked;
      })
  fetch_post_empty :
      (i : ℕ)
      → get_elem? s.fetchers i ≡ some Fetcher.unlocked
      → Step s (record s {
        queue = record (s.queue) { empty = s.queue.empty + 1 };
        fetchers = set s.fetchers i Fetcher.idle;
      })

-- What `init_server_queue(nb_slots)` leaves in the shared memory.
abbrev pub fresh_queue : ℕ → ℕ → ServerQueue
fresh_queue fd nb_slots = record {
  shm_fd = fd;
  nb_slots = nb_slots;
  mutex = 1;
  empty = nb_slots;
  full = 0;
  length = 0;
  head = 0;
  tail = 0;
  buffer = replicate nb_slots no_request;
}

-- A fresh queue with at least one slot, and nobody in a call yet.
pub record IsStart (s : System) : Type 0 where
  pub some_slot : 0 < s.queue.nb_slots
  pub small : s.queue.nb_slots < 2 ^ 64
  pub fresh : s.queue ≡ fresh_queue s.queue.shm_fd s.queue.nb_slots
  pub senders_idle : All (λ p. p ≡ Sender.idle) s.senders
  pub fetchers_idle : All (λ p. p ≡ Fetcher.idle) s.fetchers
  pub nothing_sent : s.sent ≡ []
  pub nothing_handled : s.handled ≡ []
  pub nothing_lost : s.lost ≡ 0
  pub nothing_lost_full : s.lost_full ≡ 0

pub data Reach (s : System) : System → Type 0 where
  here : Reach s s
  next : {t u : System} → Reach s t → Step t u → Reach s u
