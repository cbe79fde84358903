-- ===== src/Queue/Progress.antt =====
-- No interleaving of clients and threads of the request queue comes to a standstill, as long as
-- some slot is neither lost nor held back.
use local_server_c.Base.{
  ℕ, zero, suc, ◌+◌, ◌≤◌, ◌<◌, ◌≡◌, refl, some, List, [], ◌∷◌, get_elem?, total, arith,
}
use native.Mathlib.Decide.{dec_lt}
use local_server_c.Queue.System.{Sender, Fetcher, System, Step, Reach, no_request, IsStart}
use local_server_c.Queue.Invariant.{
  send_holds, send_before, send_after, fetch_holds, fetch_before, fetch_after,
}
use local_server_c.Queue.Safety.{reachable-Inv}

find_weight {ℓ} :
    {A : Type ℓ} (w : A → ℕ) (xs : List A)
    → 0 < total w xs
    → (i : ℕ) × (a : A) × (get_elem? xs i ≡ some a) × (0 < w a)
find_weight w [] h = absurd (omega arith)
find_weight w (x ∷ xs) h = elim (dec_lt 0 (w x)) [
  | yes p ↦ (zero, x, refl, p)
  | no p ↦ let (i, a, at, q) = find_weight w xs (omega arith) in (suc i, a, at, q)
]

-- Some process takes a step that is not giving up on the mutex.
abbrev pub Progress : System → Type 0
Progress s = (t : System) × Step s t × (t.lost ≡ s.lost) × (t.lost_full ≡ s.lost_full)

sender_moves :
    (s : System) (i : ℕ) (a : Sender)
    → get_elem? s.senders i ≡ some a
    → 0 < s.queue.mutex + send_holds a + send_after a
    → 0 < s.queue.empty + send_before a + send_after a
    → Progress s
sender_moves s i Sender.idle at m e = (_, Step.send_wait_empty i at (omega arith), refl, refl)
sender_moves s i Sender.reserved at m e = (_, Step.send_wait_mutex i at (omega arith), refl, refl)
sender_moves s i Sender.locked at m e = (_, Step.send_store i no_request at, refl, refl)
sender_moves s i Sender.stored at m e = (_, Step.send_post_mutex i at, refl, refl)
sender_moves s i Sender.unlocked at m e = (_, Step.send_post_full i at, refl, refl)

fetcher_moves :
    (s : System) (i : ℕ) (a : Fetcher)
    → get_elem? s.fetchers i ≡ some a
    → 0 < s.queue.mutex + fetch_holds a + fetch_after a
    → 0 < s.queue.full + fetch_before a + fetch_after a
    → Progress s
fetcher_moves s i Fetcher.idle at m e = (_, Step.fetch_wait_full i at (omega arith), refl, refl)
fetcher_moves s i Fetcher.reserved at m e =
    (_, Step.fetch_wait_mutex i at (omega arith), refl, refl)
fetcher_moves s i Fetcher.locked at m e = (_, Step.fetch_apply i at, refl, refl)
fetcher_moves s i Fetcher.removed at m e = (_, Step.fetch_post_mutex i at, refl, refl)
fetcher_moves s i Fetcher.unlocked at m e = (_, Step.fetch_post_empty i at, refl, refl)

holder_is_busy : (a : Sender) → send_holds a ≤ send_before a + send_after a
holder_is_busy Sender.idle = omega arith
holder_is_busy Sender.reserved = omega arith
holder_is_busy Sender.locked = omega arith
holder_is_busy Sender.stored = omega arith
holder_is_busy Sender.unlocked = omega arith

fetch_holder_is_busy : (a : Fetcher) → fetch_holds a ≤ fetch_before a + fetch_after a
fetch_holder_is_busy Fetcher.idle = omega arith
fetch_holder_is_busy Fetcher.reserved = omega arith
fetch_holder_is_busy Fetcher.locked = omega arith
fetch_holder_is_busy Fetcher.removed = omega arith
fetch_holder_is_busy Fetcher.unlocked = omega arith

-- Somebody holds the mutex: that process goes on.
holder_moves :
    (s : System) → 0 < total send_holds s.senders + total fetch_holds s.fetchers → Progress s
holder_moves s h = elim (dec_lt 0 (total send_holds s.senders)) [
  | yes p ↦
      let (i, a, at, q) = find_weight send_holds s.senders p in
      sender_moves s i a at (omega arith) (omega (arith, holder_is_busy a))
  | no p ↦
      let (i, a, at, q) = find_weight fetch_holds s.fetchers (omega arith) in
      fetcher_moves s i a at (omega arith) (omega (arith, fetch_holder_is_busy a))
]

-- The mutex is free, and there is a client and a thread.
free_moves :
    (s : System) (i j : ℕ) (a : Sender) (b : Fetcher)
    → 0 < s.queue.mutex
    → get_elem? s.senders i ≡ some a
    → get_elem? s.fetchers j ≡ some b
    → 0
      < s.queue.empty
        + s.queue.full
        + total send_before s.senders
        + total send_after s.senders
        + total fetch_before s.fetchers
        + total fetch_after s.fetchers
    → Progress s
free_moves s i j a b m ha hb h = elim (dec_lt 0 s.queue.empty) [
  | yes p ↦ sender_moves s i a ha (omega arith) (omega arith)
  | no p ↦ elim (dec_lt 0 s.queue.full) [
    | yes q ↦ fetcher_moves s j b hb (omega arith) (omega arith)
    | no q ↦ elim (dec_lt 0 (total send_before s.senders)) [
      | yes r ↦
          let (k, c, at, w) = find_weight send_before s.senders r in
          sender_moves s k c at (omega arith) (omega arith)
      | no r ↦ elim (dec_lt 0 (total send_after s.senders)) [
        | yes u ↦
            let (k, c, at, w) = find_weight send_after s.senders u in
            sender_moves s k c at (omega arith) (omega arith)
        | no u ↦ elim (dec_lt 0 (total fetch_before s.fetchers)) [
          | yes v ↦
              let (k, c, at, w) = find_weight fetch_before s.fetchers v in
              fetcher_moves s k c at (omega arith) (omega arith)
          | no v ↦
              let (k, c, at, w) = find_weight fetch_after s.fetchers (omega arith) in
              fetcher_moves s k c at (omega arith) (omega arith)
        ]
      ]
    ]
  ]
]

-- In every reachable state with at least one client, one thread and a slot that is not lost, some
-- process can take a step other than giving up on the mutex.
pub no_deadlock :
    {s₀ s : System}
    → IsStart s₀
    → Reach s₀ s
    → s.lost + s.lost_full < s.queue.nb_slots
    → (i j : ℕ) (a : Sender) (b : Fetcher) → get_elem? s.senders i ≡ some a
    → get_elem? s.fetchers j ≡ some b
    → Progress s
no_deadlock {s} start r left i j a b ha hb =
    let v = (reachable-Inv start r).counts in
    elim (dec_lt 0 (total send_holds s.senders + total fetch_holds s.fetchers)) [
      | yes p ↦ holder_moves s p
      | no p ↦ free_moves s i j a b (omega (arith, v)) ha hb (omega (arith, v))
    ]
