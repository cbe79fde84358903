-- ===== src/Queue/Safety.antt =====
-- What holds of the request queue whatever the interleaving of clients and threads, from a fresh
-- queue on.
use local_server_c.Base.{
  ℕ, zero, suc, ◌+◌, ◌≤◌, ◌<◌, ◌≡◌, refl, ◌≢◌, ap, some, List, [], ◌∷◌, ◌++◌, get_elem?,
  get_elem?-eq-get_or, total, le-total, length, arith,
}
use native.Mathlib.Decide.{ℕ_discrete}
use local_server_c.Queue.{ShmRequest, enqueue, dequeue}
use local_server_c.Queue.System.{Sender, Fetcher, System, Reach, no_request, oldest, IsStart}
use local_server_c.Queue.Invariant.{
  send_holds, fetch_holds, waiting, Inv, waiting-enqueue, waiting-dequeue,
}
use local_server_c.Queue.Preserved.{start-Inv, Reach-Inv, room_when_locked, request_when_locked}

le-total_two {ℓ} :
    {A : Type ℓ} (w : A → ℕ) (xs : List A) (i j : ℕ) (a b : A)
    → get_elem? xs i ≡ some a
    → get_elem? xs j ≡ some b
    → i ≢ j
    → w a + w b ≤ total w xs
le-total_two w [] i j a b p q ne = ground arith
le-total_two w (x ∷ xs) zero zero a b p q ne = absurd (ne refl)
le-total_two w (x ∷ xs) zero (suc j) a b p q ne = ground (arith, le-total w xs j b q)
le-total_two w (x ∷ xs) (suc i) zero a b p q ne = ground (arith, le-total w xs i a p)
le-total_two w (x ∷ xs) (suc i) (suc j) a b p q ne =
    omega (arith, le-total_two w xs i j a b p q (λ e. ne (ap suc e)))

module _ {s₀ s : System} (start : IsStart s₀) (r : Reach s₀ s) where
  pub reachable-Inv : Inv s
  reachable-Inv = Reach-Inv (start-Inv start) r

  -- Two clients that hold `mutex` are the same.
  senders_exclusive :
      (i j : ℕ) (a b : Sender)
      → get_elem? s.senders i ≡ some a
      → get_elem? s.senders j ≡ some b
      → send_holds a ≡ 1
      → send_holds b ≡ 1
      → i ≡ j
  senders_exclusive i j a b p q ha hb = elim (ℕ_discrete i j) [
    | yes e ↦ e
    | no ne ↦
        absurd
          (omega (arith, reachable-Inv.counts, le-total_two send_holds s.senders i j a b p q ne))
  ]

  -- A client and a thread do not both hold it.
  sender_fetcher_exclusive :
      (i j : ℕ) (a : Sender) (b : Fetcher)
      → get_elem? s.senders i ≡ some a
      → get_elem? s.fetchers j ≡ some b
      → ¬ ((send_holds a ≡ 1) × (fetch_holds b ≡ 1))
  sender_fetcher_exclusive i j a b p q h = omega (
    arith,
    reachable-Inv.counts,
    le-total send_holds s.senders i a p,
    le-total fetch_holds s.fetchers j b q,
    h,
  )

  -- Whatever the interleaving, at most one process, client or thread, is between its wait on `mutex`
  -- and its post.
  pub mutual_exclusion : total send_holds s.senders + total fetch_holds s.fetchers ≤ 1
  mutual_exclusion = omega (arith, reachable-Inv.counts)

  -- Whatever the interleaving, a client that is about to write has room: the index is inside the
  -- buffer, and the write appends its request to the waiting ones and overwrites none of them.
  pub store_in_bounds :
      (i : ℕ) (request : ShmRequest)
      → get_elem? s.senders i ≡ some Sender.locked
      → (s.queue.head < length s.queue.buffer)
        × (waiting (enqueue request s.queue) ≡ waiting s.queue ++ request ∷ [])
  store_in_bounds i request at = (
    omega (arith, reachable-Inv.shape),
    waiting-enqueue request s.queue reachable-Inv.shape (room_when_locked reachable-Inv i at),
  )

  -- Whatever the interleaving, a thread that is about to call `apply` reads inside the buffer, and
  -- reads the oldest waiting request, which the removal takes off.
  pub fetch_in_bounds :
      (i : ℕ)
      → get_elem? s.fetchers i ≡ some Fetcher.locked
      → (get_elem? s.queue.buffer s.queue.tail ≡ some (oldest s.queue))
        × (waiting s.queue ≡ oldest s.queue ∷ waiting (dequeue s.queue))
  fetch_in_bounds i at = (
    get_elem?-eq-get_or s.queue.buffer s.queue.tail no_request (omega (arith, reachable-Inv.shape)),
    waiting-dequeue s.queue reachable-Inv.shape (request_when_locked reachable-Inv i at),
  )

  -- Whatever the interleaving, the requests given to `apply`, then the waiting ones, are the
  -- requests that clients stored, in the order in which they were stored: none is lost, repeated
  -- or overtaken.
  pub fifo : s.sent ≡ s.handled ++ waiting s.queue
  fifo = reachable-Inv.log

  -- The values of the semaphores and of `length` stay within the number of slots.
  pub semaphores_bounded :
      (s.queue.mutex ≤ 1)
      × (s.queue.empty + s.queue.full + s.lost + s.lost_full ≤ s.queue.nb_slots)
      × (s.queue.full ≤ s.queue.length)
      × (s.queue.length ≤ s.queue.nb_slots)
  semaphores_bounded = omega (arith, reachable-Inv.counts)

pub Reach-trans : {s t u : System} → Reach s t → Reach t u → Reach s u
Reach-trans p Reach.here = p
Reach-trans p (Reach.next r st) = Reach.next (Reach-trans p r) st
