-- ===== src/Server/Admission.antt =====
-- connection.c with server.c: a client that asks for a connection, and the server that fetches its request
-- and takes it into the list (fetch_shm_request with allocate_request_ressources as main calls it).
use local_server_c.Base.{
  ℕ, suc, ◌+◌, ◌-◌, ◌%◌, ◌^◌, ◌<◌, ◌≡◌, ◌≢◌, ap, ◌∙◌, some, Bool, true, false, refl, take,
  replicate, List, [], ◌∷◌, ◌++◌, ◌==◌, length, length-set, set, get_elem?, get_elem?-some,
  get_elem?-set_self, ℤ, pos, arith,
}
use native.Mathlib.Nat.{mod-lt}
use local_server_c.Base.Text.{c_str, strncpy, c_str-fit, NulFree-c_str}
use local_server_c.Queue.{
  ShmRequest, ServerQueue, make_request, enqueue, dequeue, taken, returned, shared, SendEnv,
  send_shm_request, send_locked, send_post, FetchEnv, fetch_shm_request, fetch_apply, fetch_post,
  add_size,
}
use local_server_c.LinkedList.Memory.{Ptr}
use local_server_c.LinkedList.{AddEnv}
use local_server_c.Server.{thread_error}
use local_server_c.Server.Crowd.{Crowd, arrives, arrive, happen, admit}
use local_server_c.Server.Population.{Represents, Allowed, allocate_request_ressources-Represents}

-- A queue that nobody uses and in which nothing waits, wherever its indices are.
pub record IsDrained (q : ServerQueue) : Type 0 where
  pub some_slot : 0 < q.nb_slots
  pub few_slots : q.nb_slots < 2 ^ 64
  pub sized : length q.buffer ≡ q.nb_slots
  pub inside : q.tail < q.nb_slots
  pub met : q.head ≡ q.tail
  pub nothing : q.length ≡ 0
  pub free : q.mutex ≡ 1
  pub all_empty : q.empty ≡ q.nb_slots
  pub none_full : q.full ≡ 0

-- The calls of a client and of the server work.
abbrev pub Sends : SendEnv → ℕ → Type 0
Sends s wait =
    (now : ℕ) × (s.clock ≡ some now)
    × (s.wait_empty (now + wait) ≡ taken)
    × (s.wait_mutex (now + wait) ≡ taken)
    × (s.post_mutex ≡ true)
    × (s.post_full ≡ true)

abbrev pub Fetches : FetchEnv → Type 0
Fetches f =
    (f.wait_full ≡ true) × (f.wait_mutex ≡ true) × (f.post_mutex ≡ true) × (f.post_empty ≡ true)

-- The queue with one request, and after it is fetched.
abbrev pub asked : ShmRequest → ServerQueue → ServerQueue
asked request q = record (enqueue request (record q { empty = q.empty - 1; mutex = q.mutex - 1 })) {
  mutex = q.mutex - 1 + 1;
  full = q.full + 1;
}

abbrev pub fetched : ServerQueue → ServerQueue
fetched q = record (dequeue (record q { full = q.full - 1; mutex = q.mutex - 1 })) {
  mutex = q.mutex - 1 + 1;
  empty = q.empty + 1;
}

pub send_shm_request-asked :
    (s : SendEnv) (wait : ℕ) (q : ServerQueue) (a b : List ℕ)
    → Sends s wait
    → IsDrained q
    → send_shm_request s (some q) a b wait
      ≡ returned (pos 1) (some (asked (make_request a b s.pid s.uid) q))
unfolding send_shm_request send_locked send_post shared enqueue
send_shm_request-asked s wait q a b (now, e1, e2, e3, e4, e5) d =
    let room : (q.empty == 0) ≡ false =
      let e = d.all_empty in let p = d.some_slot in ground arith in
    let free : (q.mutex == 0) ≡ false = let e = d.free in ground arith in
    simp (e1, e2, e3, e4, e5, room, free, send_shm_request, send_locked, send_post)

-- A request that is taken in.
pub admit-Represents :
    (p : Ptr) (env : AddEnv) (request : ShmRequest) (c : Crowd) (rs : List ShmRequest)
    → Represents p c rs
    → Allowed (arrives env request) c rs
    → (c' : Crowd) × (admit p env true true request (some c) ≡ (pos 1, some c'))
      × (happen p (arrives env request) c ≡ some c')
      × Represents p c' (rs ++ request ∷ [])
unfolding admit happen arrive
admit-Represents p env request c rs rep ok =
    let (g, run, next) =
      allocate_request_ressources-Represents p c rs rep env request true true ok in
    (
      record { heap = g; threads = c.threads ++ env.value ∷ [] },
      simp (run, admit),
      simp (run, arrive),
      next,
    )

-- A request for which no thread can be made: the list holds it all the same.
pub admit-refused :
    (p : Ptr) (env : AddEnv) (request : ShmRequest) (c : Crowd) (rs : List ShmRequest)
    → Represents p c rs
    → Allowed (arrives env request) c rs
    → (detached : Bool)
    → (c' : Crowd) × (admit p env false detached request (some c) ≡ (thread_error, some c'))
      × (c'.threads ≡ c.threads)
      × Represents p (record c' { threads = c'.threads ++ env.value ∷ [] }) (rs ++ request ∷ [])
unfolding admit
admit-refused p env request c rs rep ok detached =
    let (g, run, next) =
      allocate_request_ressources-Represents p c rs rep env request false detached ok in
    (record c { heap = g }, simp (run, admit), refl, next)

fetch_shm_request-fetched :
    {S : Type 0} (f : FetchEnv) (apply : ShmRequest → S → ℤ × S) (q : ServerQueue)
    (request : ShmRequest) (st st' : S) (r : ℤ)
    → Fetches f
    → q.full ≢ 0
    → q.mutex ≢ 0
    → get_elem? q.buffer q.tail ≡ some request
    → apply request st ≡ (r, st')
    → fetch_shm_request f (some q) (some apply) st ≡ returned r (some (fetched q), st')
unfolding fetch_shm_request fetch_apply fetch_post shared dequeue
fetch_shm_request-fetched f apply q request st st' r (e1, e2, e3, e4) waiting free oldest taken_in =
    let full : (q.full == 0) ≡ false = ground arith in
    let mutex : (q.mutex == 0) ≡ false = ground arith in
    simp (e1, e2, e3, e4, full, mutex, oldest, taken_in, fetch_shm_request, fetch_apply, fetch_post)

pub fetched-IsDrained :
    (q : ServerQueue) (request : ShmRequest) → IsDrained q → IsDrained (fetched (asked request q))
unfolding enqueue dequeue
fetched-IsDrained q request d =
    let e1 = d.nothing in
    let e2 = d.free in
    let e3 = d.all_empty in
    let e4 = d.none_full in
    let e5 = d.some_slot in
    record {
      some_slot = d.some_slot;
      few_slots = d.few_slots;
      sized = length-set q.buffer q.head request ∙ d.sized;
      inside = mod-lt ((q.tail + 1) % 2 ^ 64) d.some_slot;
      met = ap (λ k. add_size k 1 % q.nb_slots) d.met;
      nothing = omega arith;
      free = omega arith;
      all_empty = omega arith;
      none_full = omega arith;
    }

-- The oldest request of a queue that was drained before it is the one that was asked.
asked-oldest :
    (q : ServerQueue) (request : ShmRequest)
    → IsDrained q
    → get_elem? (asked request q).buffer q.tail ≡ some request
unfolding enqueue
asked-oldest q request d =
    let e1 = d.sized in
    let e2 = d.inside in
    let (old, there) = get_elem?-some q.buffer q.tail (omega arith) in
    ap (λ i. get_elem? (set q.buffer i request) q.tail) d.met
    ∙ get_elem?-set_self q.buffer q.tail old request there

-- `fetch_shm_request` on the request of one client.
pub fetch_shm_request-asked :
    {S : Type 0} (f : FetchEnv) (apply : ShmRequest → S → ℤ × S) (q : ServerQueue)
    (request : ShmRequest) (st st' : S) (r : ℤ)
    → Fetches f
    → IsDrained q
    → apply request st ≡ (r, st')
    → fetch_shm_request f (some (asked request q)) (some apply) st
      ≡ returned r (some (fetched (asked request q)), st')
unfolding enqueue
fetch_shm_request-asked f apply q request st st' r fetches d taken_in =
    let e3 = d.none_full in
    let e4 = d.free in
    fetch_shm_request-fetched f apply (asked request q) request st st' r fetches (omega arith)
      (omega arith) (asked-oldest q request d) taken_in

-- What `strncpy` of NAME_MAX bytes puts in a name that was set to 0, read as a string.
c_str-name : (a : List ℕ) → c_str (strncpy (replicate 256 0) a 255) ≡ take 255 (c_str a)
unfolding strncpy
c_str-name a = c_str-fit 255 (c_str a) [] (NulFree-c_str a)

-- The request of a client: both names cut to NAME_MAX bytes, its number and its user.
abbrev pub Carries : ShmRequest → List ℕ → List ℕ → SendEnv → Type 0
Carries request a b s =
    (c_str request.request_pipe ≡ take 255 (c_str a))
    × (c_str request.response_pipe ≡ take 255 (c_str b))
    × (request.pid ≡ s.pid)
    × (request.uid ≡ s.uid)

make_request-Carries : (a b : List ℕ) (s : SendEnv) → Carries (make_request a b s.pid s.uid) a b s
unfolding make_request
make_request-Carries a b s = (c_str-name a, c_str-name b, refl, refl)

pub fetched-nb_slots :
    (q : ServerQueue) (request : ShmRequest) → (fetched (asked request q)).nb_slots ≡ q.nb_slots
unfolding enqueue dequeue
fetched-nb_slots q request = refl

-- From the request of a client to its place in the list of the server: when every call works, `malloc` gives
-- new memory and no connected client has its number, a client that asks a server where nothing waits gets 1,
-- the server's `fetch_shm_request` then returns 1, and the queue is again one where nothing waits, at the next
-- index; the list of the server, whatever it held, has at its end the client's request: the names of its two
-- pipes cut to NAME_MAX bytes, each in its own field, its number and its user.
pub send_shm_request-admit :
    (s : SendEnv) (wait : ℕ) (f : FetchEnv) (q : ServerQueue) (a b : List ℕ)
    → Sends s wait
    → Fetches f
    → IsDrained q
    → (p : Ptr) (env : AddEnv) (c : Crowd) (rs : List ShmRequest) → Represents p c rs
    → Allowed (arrives env (make_request a b s.pid s.uid)) c rs
    → (q₁ : ServerQueue) × (q₂ : ServerQueue) × (c' : Crowd) × (send_shm_request s (some q) a b wait
        ≡ returned (pos 1) (some q₁))
      × (fetch_shm_request f (some q₁) (some (admit p env true true)) (some c)
          ≡ returned (pos 1) (some q₂, some c'))
      × IsDrained q₂
      × (q₂.tail ≡ suc q.tail % q.nb_slots)
      × Represents p c' (rs ++ make_request a b s.pid s.uid ∷ [])
      × Carries (make_request a b s.pid s.uid) a b s
unfolding enqueue dequeue
send_shm_request-admit s wait f q a b sends fetches d p env c rs rep ok =
    let request = make_request a b s.pid s.uid in
    let (c', run, now, next) = admit-Represents p env request c rs rep ok in
    let e2 = d.inside in
    let e4 = d.few_slots in
    let step : (q.tail + 1) % 2 ^ 64 ≡ suc q.tail = omega arith in
    (
      asked request q,
      fetched (asked request q),
      c',
      send_shm_request-asked s wait q a b sends d,
      fetch_shm_request-asked f (admit p env true true) q request (some c) (some c') (pos 1) fetches
          d run,
      fetched-IsDrained q request d,
      ap (λ k. k % q.nb_slots) step,
      next,
      make_request-Carries a b s,
    )
