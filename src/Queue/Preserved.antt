-- ===== src/Queue/Preserved.antt =====
-- Every step of every process keeps the invariant, so it holds in every reachable state.
use local_server_c.Base.{
  ℕ, ◌+◌, ◌^◌, ◌≤◌, ◌<◌, ◌≡◌, refl, sym, ap, ap₂, ◌∙◌, some, List, [], ◌∷◌, ◌++◌, append_assoc,
  get_elem?, set, All, total, total-set, le-total, length-replicate, arith,
}
use mathlib.Core.Path.{subst}
use local_server_c.Queue.{ServerQueue, enqueue, dequeue}
use local_server_c.Queue.System.{
  Sender, Fetcher, System, Step, Reach, no_request, oldest, fresh_queue, IsStart,
}
use local_server_c.Queue.Invariant.{
  send_holds, send_before, send_after, fetch_holds, fetch_before, fetch_after, waiting, Shape,
  Counts, Inv, enqueue-Shape, waiting-enqueue, dequeue-Shape, waiting-dequeue,
}

-- A client moves from `old` to `new`: the three sums over the clients change by their weights.
abbrev pub Moved : (List Sender) → ℕ → Sender → Sender → Type 0
Moved xs i old new =
    (total send_holds (set xs i new) + send_holds old ≡ total send_holds xs + send_holds new)
    × (total send_before (set xs i new) + send_before old ≡ total send_before xs + send_before new)
    × (total send_after (set xs i new) + send_after old ≡ total send_after xs + send_after new)
    × (send_before old ≤ total send_before xs)

moved :
    (xs : List Sender) (i : ℕ) (old new : Sender) → get_elem? xs i ≡ some old → Moved xs i old new
moved xs i old new at = (
  total-set send_holds xs i old new at,
  total-set send_before xs i old new at,
  total-set send_after xs i old new at,
  le-total send_before xs i old at,
)

abbrev pub MovedF : (List Fetcher) → ℕ → Fetcher → Fetcher → Type 0
MovedF xs i old new =
    (total fetch_holds (set xs i new) + fetch_holds old ≡ total fetch_holds xs + fetch_holds new)
    × (total fetch_before (set xs i new) + fetch_before old
        ≡ total fetch_before xs + fetch_before new)
    × (total fetch_after (set xs i new) + fetch_after old ≡ total fetch_after xs + fetch_after new)
    × (fetch_before old ≤ total fetch_before xs)

moved_f :
    (xs : List Fetcher) (i : ℕ) (old new : Fetcher)
    → get_elem? xs i ≡ some old
    → MovedF xs i old new
moved_f xs i old new at = (
  total-set fetch_holds xs i old new at,
  total-set fetch_before xs i old new at,
  total-set fetch_after xs i old new at,
  le-total fetch_before xs i old at,
)

Step-Counts : {s t : System} → Step s t → Inv s → Counts t
unfolding enqueue dequeue
Step-Counts {s} (Step.send_wait_empty i at free) v =
    let m = moved s.senders i Sender.idle Sender.reserved at in omega (arith, v.counts)
Step-Counts {s} (Step.send_wait_mutex i at free) v =
    let m = moved s.senders i Sender.reserved Sender.locked at in omega (arith, v.counts)
Step-Counts {s} (Step.send_give_up i at) v =
    let m = moved s.senders i Sender.reserved Sender.idle at in omega (arith, v.counts)
Step-Counts {s} (Step.send_store i r at) v =
    let m = moved s.senders i Sender.locked Sender.stored at in omega (arith, v.counts, v.shape)
Step-Counts {s} (Step.send_post_mutex i at) v =
    let m = moved s.senders i Sender.stored Sender.unlocked at in omega (arith, v.counts)
Step-Counts {s} (Step.send_post_full i at) v =
    let m = moved s.senders i Sender.unlocked Sender.idle at in omega (arith, v.counts)
Step-Counts {s} (Step.fetch_wait_full i at free) v =
    let m = moved_f s.fetchers i Fetcher.idle Fetcher.reserved at in omega (arith, v.counts)
Step-Counts {s} (Step.fetch_wait_mutex i at free) v =
    let m = moved_f s.fetchers i Fetcher.reserved Fetcher.locked at in omega (arith, v.counts)
Step-Counts {s} (Step.fetch_give_up i at) v =
    let m = moved_f s.fetchers i Fetcher.reserved Fetcher.idle at in omega (arith, v.counts)
Step-Counts {s} (Step.fetch_apply i at) v =
    let m = moved_f s.fetchers i Fetcher.locked Fetcher.removed at in
    omega (arith, v.counts, v.shape)
Step-Counts {s} (Step.fetch_post_mutex i at) v =
    let m = moved_f s.fetchers i Fetcher.removed Fetcher.unlocked at in omega (arith, v.counts)
Step-Counts {s} (Step.fetch_post_empty i at) v =
    let m = moved_f s.fetchers i Fetcher.unlocked Fetcher.idle at in omega (arith, v.counts)

-- A client under the mutex has a free slot in hand, a thread under it a request.
pub room_when_locked :
    {s : System}
    → Inv s
    → (i : ℕ) → get_elem? s.senders i ≡ some Sender.locked
    → s.queue.length < s.queue.nb_slots
room_when_locked {s} v i at =
    omega (arith, v.counts, le-total send_before s.senders i Sender.locked at)

pub request_when_locked :
    {s : System}
    → Inv s
    → (i : ℕ) → get_elem? s.fetchers i ≡ some Fetcher.locked
    → 0 < s.queue.length
request_when_locked {s} v i at =
    omega (arith, v.counts, le-total fetch_before s.fetchers i Fetcher.locked at)

-- Only the two writes under the mutex change the buffer.
Step-Shape : {s t : System} → Step s t → Inv s → Shape t.queue
Step-Shape {s} (Step.send_store i r at) v =
    enqueue-Shape r s.queue v.shape (room_when_locked v i at)
Step-Shape {s} (Step.fetch_apply i at) v =
    dequeue-Shape s.queue v.shape (request_when_locked v i at)
Step-Shape {s} (Step.send_wait_empty i at free) v = omega (arith, v.shape)
Step-Shape _ v = omega (arith, v.shape)

Step-log : {s t : System} → Step s t → Inv s → t.sent ≡ t.handled ++ waiting t.queue
Step-log {s} (Step.send_store i r at) v =
    ap (λ l. l ++ r ∷ []) v.log
    ∙ append_assoc s.handled (waiting s.queue) (r ∷ [])
    ∙ ap (λ l. s.handled ++ l) (sym (waiting-enqueue r s.queue v.shape (room_when_locked v i at)))
Step-log {s} (Step.fetch_apply i at) v =
    v.log
    ∙ ap (λ l. s.handled ++ l) (waiting-dequeue s.queue v.shape (request_when_locked v i at))
    ∙ sym (append_assoc s.handled (oldest s.queue ∷ []) (waiting (dequeue s.queue)))
Step-log {s} (Step.send_wait_empty i at free) v = v.log
Step-log _ v = v.log

-- Every step keeps the invariant.
pub Step-Inv : {s t : System} → Step s t → Inv s → Inv t
Step-Inv st v = record { shape = Step-Shape st v; counts = Step-Counts st v; log = Step-log st v }

total-idle {ℓ} :
    {A : Type ℓ} (w : A → ℕ) (idle : A)
    → w idle ≡ 0
    → (xs : List A) → All (λ p. p ≡ idle) xs
    → total w xs ≡ 0
total-idle w idle h [] all = refl
total-idle w idle h (x ∷ xs) all = omega (arith, ap w all.0, h, total-idle w idle h xs all.1)

start-Shape :
    (q : ServerQueue)
    → 0 < q.nb_slots
    → q.nb_slots < 2 ^ 64
    → q ≡ fresh_queue q.shm_fd q.nb_slots
    → Shape q
start-Shape q pos small fresh = subst Shape (sym fresh) (record {
  small = small;
  sized = sym (length-replicate q.nb_slots no_request);
  room = omega arith;
  tail_in = pos;
  head_at = omega arith;
})

-- The invariant holds at the start.
pub start-Inv : {s : System} → IsStart s → Inv s
start-Inv {s} start = record {
  shape = start-Shape s.queue start.some_slot start.small start.fresh;
  counts = omega (
    arith,
    ap (λ (q : ServerQueue). q.mutex) start.fresh,
    ap (λ (q : ServerQueue). q.empty) start.fresh,
    ap (λ (q : ServerQueue). q.full) start.fresh,
    ap (λ (q : ServerQueue). q.length) start.fresh,
    total-idle send_holds Sender.idle refl s.senders start.senders_idle,
    total-idle send_before Sender.idle refl s.senders start.senders_idle,
    total-idle send_after Sender.idle refl s.senders start.senders_idle,
    total-idle fetch_holds Fetcher.idle refl s.fetchers start.fetchers_idle,
    total-idle fetch_before Fetcher.idle refl s.fetchers start.fetchers_idle,
    total-idle fetch_after Fetcher.idle refl s.fetchers start.fetchers_idle,
  );
  log = start.nothing_sent ∙ ap₂ ◌++◌ (sym start.nothing_handled) (sym (ap waiting start.fresh));
}

pub Reach-Inv : {s u : System} → Inv s → Reach s u → Inv u
Reach-Inv v Reach.here = v
Reach-Inv v (Reach.next r st) = Step-Inv st (Reach-Inv v r)
