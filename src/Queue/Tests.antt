-- ===== src/Queue/Tests.antt =====
-- The theorems on the request queue at small concrete states: two slots (or one), two clients and
-- one thread.
use local_server_c.Base.{
  ℕ, ◌+◌, ◌≤◌, ◌<◌, ◌≡◌, refl, some, [], ◌∷◌, ◌++◌, true, pos, get_elem?, total, arith,
}
use local_server_c.Base.Text.{codes}
use local_server_c.Queue.{
  taken, SendEnv, FetchEnv, ServerQueue, ShmRequest, returned, make_request, enqueue, dequeue,
  send_shm_request, fetch_shm_request,
}
use local_server_c.Queue.System.{
  Sender, Fetcher, System, Step, Reach, IsStart, fresh_queue, no_request,
}
use local_server_c.Queue.Invariant.{waiting, Inv, send_holds, fetch_holds}
use local_server_c.Queue.Safety.{
  reachable-Inv, mutual_exclusion, store_in_bounds, fetch_in_bounds, fifo, semaphores_bounded,
}
use local_server_c.Queue.Progress.{Progress, no_deadlock}
use local_server_c.Queue.Solo.{SendRuns, FetchRuns, send_shm_request-runs, fetch_shm_request-runs}

abbrev start : ℕ → System
start slots = record {
  queue = fresh_queue 3 slots;
  senders = Sender.idle ∷ Sender.idle ∷ [];
  fetchers = Fetcher.idle ∷ [];
  sent = [];
  handled = [];
  lost = 0;
  lost_full = 0;
}

start-IsStart : (slots : ℕ) → 0 < slots → slots < 3 → IsStart (start slots)
start-IsStart slots positive small = record {
  some_slot = positive;
  small = omega arith;
  fresh = refl;
  senders_idle = (refl, (refl, tt));
  fetchers_idle = (refl, tt);
  nothing_sent = refl;
  nothing_handled = refl;
  nothing_lost = refl;
  nothing_lost_full = refl;
}

abbrev request : ShmRequest
request = record { request_pipe = b'q' ∷ []; response_pipe = b'r' ∷ []; pid = 7; uid = 1 }

two_start : IsStart (start 2)
two_start = start-IsStart 2 (omega arith) (omega arith)

-- Client 0 has a slot, then the mutex.
abbrev reserved : System
reserved = record (start 2) {
  queue = record (fresh_queue 3 2) { empty = 1 };
  senders = Sender.reserved ∷ Sender.idle ∷ [];
}

abbrev locked : System
locked = record (start 2) {
  queue = record (fresh_queue 3 2) { empty = 1; mutex = 0 };
  senders = Sender.locked ∷ Sender.idle ∷ [];
}

abbrev to_locked : Reach (start 2) locked
to_locked =
    Reach.next {t = reserved} (Reach.next Reach.here (Step.send_wait_empty 0 refl (omega arith)))
      (Step.send_wait_mutex 0 refl (omega arith))

-- The request stored, the mutex posted, `full` posted.
abbrev stored_queue : ServerQueue
stored_queue = record (fresh_queue 3 2) {
  empty = 1;
  mutex = 0;
  length = 1;
  head = 1;
  buffer = request ∷ no_request ∷ [];
}

abbrev stored : System
stored = record (start 2) {
  queue = stored_queue;
  senders = Sender.stored ∷ Sender.idle ∷ [];
  sent = request ∷ [];
}

abbrev unlocked : System
unlocked = record stored {
  queue = record stored_queue { mutex = 1 };
  senders = Sender.unlocked ∷ Sender.idle ∷ [];
}

abbrev delivered : System
delivered = record stored {
  queue = record stored_queue { mutex = 1; full = 1 };
  senders = Sender.idle ∷ Sender.idle ∷ [];
}

-- Thread 0 has the request in hand, then the mutex.
abbrev claimed : System
claimed = record delivered {
  queue = record stored_queue { mutex = 1; full = 0 };
  fetchers = Fetcher.reserved ∷ [];
}

abbrev fetching : System
fetching = record delivered {
  queue = record stored_queue { mutex = 0; full = 0 };
  fetchers = Fetcher.locked ∷ [];
}

store_step : Step locked stored
unfolding enqueue
store_step = Step.send_store 0 request refl

to_delivered : Reach (start 2) delivered
to_delivered =
    Reach.next {t = unlocked}
      (Reach.next {t = stored} (Reach.next to_locked store_step) (Step.send_post_mutex 0 refl))
      (Step.send_post_full 0 refl)

to_fetching : Reach (start 2) fetching
to_fetching =
    Reach.next {t = claimed} (Reach.next to_delivered (Step.fetch_wait_full 0 refl (omega arith)))
      (Step.fetch_wait_mutex 0 refl (omega arith))

-- One slot, and client 0 gives up on the mutex.
abbrev one_reserved : System
one_reserved = record (start 1) {
  queue = record (fresh_queue 3 1) { empty = 0 };
  senders = Sender.reserved ∷ Sender.idle ∷ [];
}

abbrev one_lost : System
one_lost = record (start 1) { queue = record (fresh_queue 3 1) { empty = 0 }; lost = 1 }

reachable-Inv_example : Inv fetching
reachable-Inv_example = reachable-Inv two_start to_fetching

mutual_exclusion_example : total send_holds locked.senders + total fetch_holds locked.fetchers ≤ 1
mutual_exclusion_example = mutual_exclusion two_start to_locked

store_in_bounds_example :
    (0 < 2) × (waiting (enqueue request locked.queue) ≡ waiting locked.queue ++ request ∷ [])
store_in_bounds_example = store_in_bounds two_start to_locked 0 request refl

fetch_in_bounds_example :
    (get_elem? stored_queue.buffer 0 ≡ some request)
    × (waiting fetching.queue ≡ request ∷ waiting (dequeue fetching.queue))
fetch_in_bounds_example = fetch_in_bounds two_start to_fetching 0 refl

fifo_example : request ∷ [] ≡ [] ++ request ∷ []
fifo_example = fifo two_start to_delivered

semaphores_bounded_example : (1 ≤ 1) × (1 + 1 + 0 + 0 ≤ 2) × (1 ≤ 1) × (1 ≤ 2)
semaphores_bounded_example = semaphores_bounded two_start to_delivered

no_deadlock_example : Progress delivered
no_deadlock_example =
    no_deadlock two_start to_delivered (omega arith) 0 0 Sender.idle Fetcher.idle refl refl

abbrev answers : SendEnv
answers = record {
  clock = some 100;
  wait_empty = λ _. taken;
  wait_mutex = λ _. taken;
  post_mutex = true;
  post_full = true;
  pid = 7;
  uid = 1;
}

abbrev fetch_answers : FetchEnv
fetch_answers = record { wait_full = true; wait_mutex = true; post_mutex = true; post_empty = true }

send_shm_request-runs_example :
    SendRuns
      (start 2)
      (make_request (codes "q") (codes "r") 7 1)
      (send_shm_request answers (some (start 2).queue) (codes "q") (codes "r") 5)
send_shm_request-runs_example =
    send_shm_request-runs answers (start 2) 0 (codes "q") (codes "r") refl refl refl 5

fetch_shm_request-runs_example :
    FetchRuns delivered
      (λ r n. (pos 1, n + r.pid))
      0
      (fetch_shm_request fetch_answers (some delivered.queue) (some (λ r n. (pos 1, n + r.pid))) 0)
fetch_shm_request-runs_example =
    fetch_shm_request-runs fetch_answers (λ r n. (pos 1, n + r.pid)) 0 two_start to_delivered 0 refl
      refl refl

-- A fetch hands the stored request to `apply` and empties the queue.
fetch_delivered :
    fetch_shm_request fetch_answers (some delivered.queue) (some (λ r n. (pos 1, n + r.pid))) 0
    ≡ returned
        (pos 1)
        (some (record stored_queue { mutex = 1; full = 0; empty = 2; length = 0; tail = 1 }), 7)
unfolding fetch_shm_request dequeue
fetch_delivered = refl
