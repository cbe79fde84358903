-- ===== src/Queue/Invariant.antt =====
-- The invariant of the shared queue, and that every step of every process keeps it.
use local_server_c.Base.{
  ℕ, suc, ◌+◌, ◌-◌, ◌%◌, ◌^◌, ◌≤◌, ◌<◌, ◌≡◌, sym, ap, ap₂, ◌∙◌, List, [], ◌∷◌, ◌++◌, get_or, set,
  total, length, length-set, arith,
}
use native.Mathlib.Nat.{mod-add-mod, mod-eq_of_lt, mod-mod}
use local_server_c.Base.Window.{window, window-congr, window-snoc}
use local_server_c.Queue.{ShmRequest, ServerQueue, add_size, enqueue, dequeue}
use local_server_c.Queue.System.{Sender, Fetcher, System, no_request, oldest}

-- Who holds the mutex.
abbrev pub send_holds : Sender → ℕ
send_holds Sender.locked = 1
send_holds Sender.stored = 1
send_holds _ = 0

abbrev pub fetch_holds : Fetcher → ℕ
fetch_holds Fetcher.locked = 1
fetch_holds Fetcher.removed = 1
fetch_holds _ = 0

-- Who has a free slot in hand: clients before their write, threads after their removal.
abbrev pub send_before : Sender → ℕ
send_before Sender.reserved = 1
send_before Sender.locked = 1
send_before _ = 0

abbrev pub fetch_after : Fetcher → ℕ
fetch_after Fetcher.removed = 1
fetch_after Fetcher.unlocked = 1
fetch_after _ = 0

-- Who has a stored request in hand that `full` does not count.
abbrev pub send_after : Sender → ℕ
send_after Sender.stored = 1
send_after Sender.unlocked = 1
send_after _ = 0

abbrev pub fetch_before : Fetcher → ℕ
fetch_before Fetcher.reserved = 1
fetch_before Fetcher.locked = 1
fetch_before _ = 0

-- The waiting requests, oldest first.
abbrev pub waiting : ServerQueue → List ShmRequest
waiting q = window no_request q.nb_slots q.buffer q.tail q.length

-- The shape of the buffer: no index out of range, `head` just past the waiting requests.
pub record Shape (q : ServerQueue) : Type 0 where
  pub small : q.nb_slots < 2 ^ 64
  pub sized : q.nb_slots ≡ length q.buffer
  pub room : q.length ≤ q.nb_slots
  pub tail_in : q.tail < q.nb_slots
  pub head_at : q.head ≡ (q.tail + q.length) % q.nb_slots

-- The semaphores: one holder of the mutex, every slot accounted for, every request accounted for.
pub record Counts (s : System) : Type 0 where
  pub lock : s.queue.mutex + total send_holds s.senders + total fetch_holds s.fetchers ≡ 1
  pub slots :
      s.queue.empty
        + total send_before s.senders
        + total fetch_after s.fetchers
        + s.lost
        + s.queue.length
      ≡ s.queue.nb_slots
  pub requests :
      s.queue.full + total send_after s.senders + total fetch_before s.fetchers + s.lost_full
      ≡ s.queue.length

pub record Inv (s : System) : Type 0 where
  pub shape : Shape s.queue
  pub counts : Counts s
  pub log : s.sent ≡ s.handled ++ waiting s.queue

-- The index and the count that `enqueue` writes do not wrap.
next_head :
    (q : ServerQueue)
    → Shape q
    → q.length < q.nb_slots
    → add_size q.head 1 % q.nb_slots ≡ (q.tail + add_size q.length 1) % q.nb_slots
next_head q h lt =
    ap (λ k. k % q.nb_slots) (omega (arith, h.small, h.tail_in, h.head_at))
    ∙ ap (λ k. (k + 1) % q.nb_slots) h.head_at
    ∙ mod-add-mod (q.tail + q.length) q.nb_slots 1
    ∙ ap (λ k. k % q.nb_slots) (omega (arith, h.small))

-- `enqueue` on a queue with room keeps the shape and appends the request.
pub enqueue-Shape :
    (r : ShmRequest) (q : ServerQueue) → Shape q → q.length < q.nb_slots → Shape (enqueue r q)
unfolding enqueue
enqueue-Shape r q h lt = record {
  small = h.small;
  sized = omega (arith, length-set q.buffer q.head r, h.sized);
  room = omega (arith, h.room, h.small);
  tail_in = h.tail_in;
  head_at = next_head q h lt;
}

pub waiting-enqueue :
    (r : ShmRequest) (q : ServerQueue)
    → Shape q
    → q.length < q.nb_slots
    → waiting (enqueue r q) ≡ waiting q ++ r ∷ []
unfolding enqueue
waiting-enqueue r q h lt =
    ap₂ (λ k n. window no_request q.nb_slots (set q.buffer k r) q.tail n) {v = suc q.length}
      h.head_at (omega (arith, h.small))
    ∙ window-snoc no_request q.nb_slots q.buffer q.tail q.length r h.sized lt

-- `dequeue` on a queue that is not empty keeps the shape and removes the oldest request.
pub dequeue-Shape : (q : ServerQueue) → Shape q → 0 < q.length → Shape (dequeue q)
unfolding dequeue
dequeue-Shape q h pos = record {
  small = h.small;
  sized = h.sized;
  room = omega (arith, h.small, h.room);
  tail_in = omega (arith, h.tail_in);
  head_at =
      h.head_at
      ∙ ap (λ k. k % q.nb_slots) (omega (arith, h.small, h.room))
      ∙ sym (mod-add-mod (q.tail + 1) q.nb_slots (q.length - 1))
      ∙ ap₂ (λ a b. (a % q.nb_slots + b) % q.nb_slots) (omega (arith, h.small, h.tail_in))
          (omega (arith, h.small, h.room));
}

pub waiting-dequeue :
    (q : ServerQueue) → Shape q → 0 < q.length → waiting q ≡ oldest q ∷ waiting (dequeue q)
unfolding dequeue
waiting-dequeue q h pos =
    ap (window no_request q.nb_slots q.buffer q.tail) {y = suc (q.length - 1)} (omega arith)
    ∙ ap₂ ◌∷◌ (ap (λ k. get_or q.buffer k no_request) (mod-eq_of_lt h.tail_in)) (
        window-congr no_request q.nb_slots q.buffer (q.tail + 1) (add_size q.tail 1 % q.nb_slots)
          (q.length - 1)
          (sym (
            mod-mod (add_size q.tail 1) q.nb_slots
            ∙ ap (λ k. k % q.nb_slots) (omega (arith, h.small, h.tail_in))))
        ∙ ap (window no_request q.nb_slots q.buffer (add_size q.tail 1 % q.nb_slots))
            (omega (arith, h.small, h.room)))
