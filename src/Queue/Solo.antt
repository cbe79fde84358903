-- ===== src/Queue/Solo.antt =====
-- The whole calls `send_shm_request` and `fetch_shm_request` are runs of the steps of `System`, so
-- what holds of the interleavings holds of the functions.
use local_server_c.Base.{
  ℕ, ◌+◌, ◌-◌, ◌<◌, ◌≡◌, refl, ◌∙◌, ◌⊎◌, inl, inr, some, none, Option, List, [], ◌∷◌, ◌++◌, true,
  Bool-cases, Option-cases, ◌==◌, if◌then◌else◌, get_elem?, get_elem?-set_self, get_elem?-eq-get_or,
  set-set, set_same, ℤ, pos, eqb_ℤ, arith,
}
use local_server_c.Queue.{
  Wait, taken, timed_out, failed, Outcome, returned, blocked, fault, SendEnv, FetchEnv, ShmRequest,
  ServerQueue, make_request, enqueue, dequeue, send_post, send_locked, send_shm_request,
  fetch_apply, fetch_shm_request, shared, semaphore_error,
}
use local_server_c.Queue.System.{Sender, Fetcher, System, Step, Reach, no_request, oldest, IsStart}
use local_server_c.Queue.Safety.{reachable-Inv}

Wait-cases : (w : Wait) → (w ≡ taken) ⊎ (w ≡ timed_out) ⊎ (w ≡ failed)
Wait-cases taken = inl refl
Wait-cases timed_out = inr (inl refl)
Wait-cases failed = inr (inr refl)

-- The outcome of a call of client `i` from `s`: a run that ends in `q` with the clients as they were.
abbrev pub Ran : System → ServerQueue → List ShmRequest → List ShmRequest → Type 0
Ran s q sent handled =
    (t : System) × Reach s t
    × (t.queue ≡ q)
    × (t.senders ≡ s.senders)
    × (t.fetchers ≡ s.fetchers)
    × (t.sent ≡ sent)
    × (t.handled ≡ handled)

-- What a completed call leaves: the slot taken, the request stored, both semaphores posted.
abbrev pub sent_queue : ShmRequest → ServerQueue → ServerQueue
sent_queue request q =
    let q₁ = enqueue request (record q { empty = q.empty - 1; mutex = q.mutex - 1 }) in
    record q₁ { mutex = q₁.mutex + 1; full = q₁.full + 1 }

abbrev pub fetched_queue : ServerQueue → ServerQueue
fetched_queue q =
    let q₁ = dequeue (record q { full = q.full - 1; mutex = q.mutex - 1 }) in
    record q₁ { mutex = q₁.mutex + 1; empty = q₁.empty + 1 }

module _ (s : System) (i : ℕ) where
  -- A client gives up on the mutex.
  sender_gave_up :
      get_elem? s.senders i ≡ some Sender.idle
      → 0 < s.queue.empty
      → Ran s (record (s.queue) { empty = s.queue.empty - 1 }) s.sent s.handled
  sender_gave_up at free = (
    _,
    Reach.next (Reach.next Reach.here (Step.send_wait_empty i at free))
        (Step.send_give_up i (get_elem?-set_self s.senders i Sender.idle Sender.reserved at)),
    refl,
    set-set s.senders i Sender.reserved Sender.idle ∙ set_same s.senders i Sender.idle at,
    refl,
    refl,
    refl,
  )

  -- A client's whole call.
  sender_sent :
      (request : ShmRequest)
      → get_elem? s.senders i ≡ some Sender.idle
      → 0 < s.queue.empty
      → 0 < s.queue.mutex
      → Ran s (sent_queue request s.queue) (s.sent ++ request ∷ []) s.handled
  unfolding enqueue
  sender_sent request at free lock =
      let at₁ = get_elem?-set_self s.senders i Sender.idle Sender.reserved at in
      let at₂ = get_elem?-set_self _ i Sender.reserved Sender.locked at₁ in
      let at₃ = get_elem?-set_self _ i Sender.locked Sender.stored at₂ in
      let at₄ = get_elem?-set_self _ i Sender.stored Sender.unlocked at₃ in
      let r₁ : Reach s _ = Reach.next Reach.here (Step.send_wait_empty i at free) in
      let r₂ = Reach.next r₁ (Step.send_wait_mutex i at₁ lock) in
      let r₃ = Reach.next r₂ (Step.send_store i request at₂) in
      let r₄ = Reach.next r₃ (Step.send_post_mutex i at₃) in
      (
        _,
        Reach.next r₄ (Step.send_post_full i at₄),
        refl,
        simp set-set (set_same s.senders i Sender.idle at),
        refl,
        refl,
        refl,
      )

  -- A thread gives up on the mutex.
  fetcher_gave_up :
      get_elem? s.fetchers i ≡ some Fetcher.idle
      → 0 < s.queue.full
      → Ran s (record (s.queue) { full = s.queue.full - 1 }) s.sent s.handled
  fetcher_gave_up at free = (
    _,
    Reach.next (Reach.next Reach.here (Step.fetch_wait_full i at free))
        (Step.fetch_give_up i (get_elem?-set_self s.fetchers i Fetcher.idle Fetcher.reserved at)),
    refl,
    refl,
    set-set s.fetchers i Fetcher.reserved Fetcher.idle ∙ set_same s.fetchers i Fetcher.idle at,
    refl,
    refl,
  )

  -- A thread's whole call.
  fetcher_fetched :
      get_elem? s.fetchers i ≡ some Fetcher.idle
      → 0 < s.queue.full
      → 0 < s.queue.mutex
      → Ran s (fetched_queue s.queue) s.sent (s.handled ++ oldest s.queue ∷ [])
  unfolding dequeue
  fetcher_fetched at free lock =
      let at₁ = get_elem?-set_self s.fetchers i Fetcher.idle Fetcher.reserved at in
      let at₂ = get_elem?-set_self _ i Fetcher.reserved Fetcher.locked at₁ in
      let at₃ = get_elem?-set_self _ i Fetcher.locked Fetcher.removed at₂ in
      let at₄ = get_elem?-set_self _ i Fetcher.removed Fetcher.unlocked at₃ in
      let r₁ : Reach s _ = Reach.next Reach.here (Step.fetch_wait_full i at free) in
      let r₂ = Reach.next r₁ (Step.fetch_wait_mutex i at₁ lock) in
      let r₃ = Reach.next r₂ (Step.fetch_apply i at₂) in
      let r₄ = Reach.next r₃ (Step.fetch_post_mutex i at₃) in
      (
        _,
        Reach.next r₄ (Step.fetch_post_empty i at₄),
        refl,
        refl,
        simp set-set (set_same s.fetchers i Fetcher.idle at),
        refl,
        refl,
      )

stayed : (s : System) → Ran s (s.queue) s.sent s.handled
stayed s = (s, Reach.here, refl, refl, refl, refl, refl)

-- A call that returns is a run of its process from `s`, one that changes `sent` exactly when the
-- result is 1, and no call reads outside the buffer. (A call that blocks has not returned.)
abbrev pub SendRuns : System → ShmRequest → Outcome (Option ServerQueue) → Type 0
SendRuns s request (returned r (some q)) =
    Ran s q (if eqb_ℤ r (pos 1) then s.sent ++ request ∷ [] else s.sent) s.handled
SendRuns s request (returned r none) = ⊥
SendRuns s request (blocked q) = Unit {0}
SendRuns s request fault = ⊥

module _ (env : SendEnv) (s : System) (i : ℕ) (a b : List ℕ)
    (at : get_elem? s.senders i ≡ some Sender.idle) (posts : env.post_mutex ≡ true)
    (posts_full : env.post_full ≡ true) where
  send_locked-runs :
      (deadline : ℕ)
      → 0 < s.queue.empty
      → SendRuns s (make_request a b env.pid env.uid) (
          shared some
            (send_locked env deadline a b (record (s.queue) { empty = s.queue.empty - 1 })))
  unfolding send_locked shared
  send_locked-runs deadline free = elim (Wait-cases (env.wait_mutex deadline)) [
    | inl e ↦ elim (Bool-cases (s.queue.mutex == 0)) [
      | inl z ↦ rw (e, send_locked, z) tt
      | inr p ↦
          rw (e, send_locked, p, send_post, posts, posts_full)
            (sender_sent s i (make_request a b env.pid env.uid) at free (ground arith))
    ]
    | inr (inl e) ↦ rw (e, send_locked) (sender_gave_up s i at free)
    | inr (inr e) ↦ rw (e, send_locked) (sender_gave_up s i at free)
  ]

  -- When posting does not fail, a call of `send_shm_request` by a client that is not in a call is
  -- a run of the interleaved system, from any state of the others: if it returns, the queue is
  -- what that run leaves, everybody is where they were, and the client's request has been stored,
  -- once, exactly when the result is 1.
  pub send_shm_request-runs :
      (timeout : ℕ)
      → SendRuns s
          (make_request a b env.pid env.uid)
          (send_shm_request env (some (s.queue)) a b timeout)
  unfolding send_shm_request
  send_shm_request-runs timeout = elim (Option-cases env.clock) [
    | inl e ↦ rw (e, send_shm_request) (stayed s)
    | inr (now, e) ↦ elim (Wait-cases (env.wait_empty (now + timeout))) [
      | inl w ↦ elim (Bool-cases (s.queue.empty == 0)) [
        | inl z ↦ rw (e, send_shm_request, w, z) tt
        | inr p ↦ rw (e, send_shm_request, w, p) (send_locked-runs (now + timeout) (ground arith))
      ]
      | inr (inl w) ↦ rw (e, send_shm_request, w) (stayed s)
      | inr (inr w) ↦ rw (e, send_shm_request, w) (stayed s)
    ]
  ]

-- A call that returns is a run of its process: either `apply` was given the oldest request and gave
-- the result, or nothing was removed and the result is an error.
abbrev pub FetchRuns :
    {S : Type 0} → System → (ShmRequest → S → ℤ × S) → S → Outcome (Option ServerQueue × S) → Type 0
FetchRuns s apply st (returned r (some q, st')) =
    (Ran s q s.sent (s.handled ++ oldest s.queue ∷ []) × ((r, st') ≡ apply (oldest s.queue) st))
    ⊎ (Ran s q s.sent s.handled × (r ≡ semaphore_error) × (st' ≡ st))
FetchRuns s apply st (returned r (none, st')) = ⊥
FetchRuns s apply st (blocked q) = Unit {0}
FetchRuns s apply st fault = ⊥

module _ {S : Type 0} (env : FetchEnv) (apply : ShmRequest → S → ℤ × S) (st : S) {s₀ s : System}
    (start : IsStart s₀) (reach : Reach s₀ s) (i : ℕ)
    (at : get_elem? s.fetchers i ≡ some Fetcher.idle) (posts : env.post_mutex ≡ true)
    (posts_empty : env.post_empty ≡ true) where
  fetch_apply-runs :
      0 < s.queue.full
      → 0 < s.queue.mutex
      → FetchRuns s apply st (
          shared
            (λ (q', st'). (some q', st'))
            (fetch_apply env apply
              (record (s.queue) { full = s.queue.full - 1; mutex = s.queue.mutex - 1 })
              st))
  unfolding fetch_apply shared
  fetch_apply-runs free lock =
      let found =
        get_elem?-eq-get_or s.queue.buffer s.queue.tail no_request
          (omega (arith, (reachable-Inv start reach).shape)) in
      rw (found, fetch_apply)
        (simp (posts, posts_empty) (inl (fetcher_fetched s i at free lock, refl)))

  -- When posting does not fail, a call of `fetch_shm_request` by a thread that is not in a call,
  -- in any reachable state, is a run of the interleaved system and reads inside the buffer: if it
  -- returns, either `apply` was given the oldest waiting request, which is off the queue, and the
  -- result is that of `apply`, or no request was touched and the result is SEMAPHORE_ERROR.
  pub fetch_shm_request-runs :
      FetchRuns s apply st (fetch_shm_request env (some (s.queue)) (some apply) st)
  unfolding fetch_shm_request
  fetch_shm_request-runs = elim (Bool-cases env.wait_full) [
    | inr e ↦ simp e (inr (stayed s, refl, refl))
    | inl e ↦ elim (Bool-cases (s.queue.full == 0)) [
      | inl z ↦ simp (e, z) tt
      | inr p ↦ elim (Bool-cases env.wait_mutex) [
        | inr m ↦ simp (e, p, m) (inr (fetcher_gave_up s i at (ground arith), refl, refl))
        | inl m ↦ elim (Bool-cases (s.queue.mutex == 0)) [
          | inl z ↦ simp (e, p, m, z) tt
          | inr q ↦ simp (e, p, m, q) (fetch_apply-runs (ground arith) (ground arith))
        ]
      ]
    ]
  ]
