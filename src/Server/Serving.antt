-- ===== src/Server/Serving.antt =====
-- server.c: the loop of main over the clients that come, one request at a time, while threads end.
use local_server_c.Base.{
  ℕ, ◌≡◌, refl, sym, length, length-map, ap, ◌∙◌, Option, none, some, Bool, Option-cases, inl, inr,
  true, false, List, [], ◌∷◌, ◌++◌, map, append-nil, append_assoc, All, pos,
}
use mathlib.Core.Path.{subst}
use local_server_c.Queue.{
  ServerQueue, ShmRequest, make_request, Outcome, returned, SendEnv, send_shm_request, FetchEnv,
}
use local_server_c.LinkedList.Memory.{Ptr}
use local_server_c.LinkedList.{AddEnv}
use local_server_c.Server.{thread_error}
use local_server_c.Server.Crowd.{Crowd, Event, arrives, departs, admit, happen, history}
use local_server_c.Server.Life.{Visit, exits, serve, kept}
use local_server_c.Server.Population.{Represents, AllAllowed, after, after_all, history-Represents}
use local_server_c.Server.Admission.{
  IsDrained, Sends, Fetches, asked, fetched, send_shm_request-asked, fetch_shm_request-asked,
  fetched-IsDrained, fetched-nb_slots, admit-Represents, admit-refused,
}

-- A client: its call of `send_shm_request`, which threads end before the server looks at its request,
-- and what the system answers to the server.
pub record Client : Type 0 where
  pub send : SendEnv
  pub wait : ℕ
  pub request_pipe : List ℕ
  pub response_pipe : List ℕ
  pub leaves : List ℕ
  pub fetch : FetchEnv
  pub add : AddEnv

abbrev pub request_of : Client → ShmRequest
request_of k = make_request k.request_pipe k.response_pipe k.send.pid k.send.uid

-- The queue after a call of `send_shm_request`.
abbrev pub left_by : ServerQueue → Outcome (Option ServerQueue) → ServerQueue
left_by q (returned r o) = kept q o
left_by q (Outcome.blocked o) = kept q o
left_by q Outcome.fault = q

abbrev pub or_same : Crowd → Option Crowd → Crowd
or_same c none = c
or_same c (some c') = c'

-- The round of the server for a client: the client's own call on the queue, the ends of threads on the
-- list, then the fetch. `created` is the answer of `pthread_create`.
abbrev pub visit_of : Ptr → Bool → Bool → Client → Visit
visit_of p created detached k = record {
  clients = λ q. left_by q (send_shm_request k.send (some q) k.request_pipe k.response_pipe k.wait);
  ends = λ c. or_same c (history p (map departs k.leaves) c);
  fetch = k.fetch;
  add = k.add;
  created = created;
  detached = detached;
}

-- What happens to the list for one client and for several.
abbrev pub events_of : Client → List Event
events_of k = map departs k.leaves ++ arrives k.add (request_of k) ∷ []

abbrev pub all_events : List Client → List Event
all_events [] = []
all_events (k ∷ ks) = events_of k ++ all_events ks

-- The calls of the client and of the server's fetch work.
abbrev pub Works : Client → Type 0
Works k = Sends k.send k.wait × Fetches k.fetch

-- A history in two parts.
AllAllowed-split :
    (p : Ptr) (es fs : List Event) (c c' : Crowd) (rs : List ShmRequest)
    → AllAllowed p (es ++ fs) c rs
    → history p es c ≡ some c'
    → AllAllowed p fs c' (after_all es rs)
unfolding history
AllAllowed-split p [] fs c c' rs ok run =
    let same : c ≡ c' = cc in subst (λ x. AllAllowed p fs x rs) same ok
AllAllowed-split p (e ∷ es) fs c c' rs ok run = elim (Option-cases (happen p e c)) [
  | inl n ↦ absurd (let stop : none ≡ some c' = simp (n, history) at run in cc)
  | inr (d, n) ↦ AllAllowed-split p es fs d c' (after e rs) (ok.1 d n) (simp (n, history) at run)
]

AllAllowed-first :
    (p : Ptr) (es fs : List Event) (c : Crowd) (rs : List ShmRequest)
    → AllAllowed p (es ++ fs) c rs
    → AllAllowed p es c rs
AllAllowed-first p [] fs c rs ok = tt
AllAllowed-first p (e ∷ es) fs c rs (now, later) =
    (now, λ c' run. AllAllowed-first p es fs c' (after e rs) (later c' run))

after_all-append :
    (es fs : List Event) (rs : List ShmRequest)
    → after_all (es ++ fs) rs ≡ after_all fs (after_all es rs)
after_all-append [] fs rs = refl
after_all-append (e ∷ es) fs rs = after_all-append es fs (after e rs)

module _ (p : Ptr) (k : Client) (q : ServerQueue) (c : Crowd) (rs : List ShmRequest)
    (works : Works k) (drained : IsDrained q) (rep : Represents p c rs) where
  -- What is left of the list when threads have ended.
  abbrev pub remaining : List ShmRequest
  remaining = after_all (map departs k.leaves) rs

  arrived : after_all (events_of k) rs ≡ remaining ++ request_of k ∷ []
  arrived = after_all-append (map departs k.leaves) (arrives k.add (request_of k) ∷ []) rs

  left_by-asked :
      left_by q (send_shm_request k.send (some q) k.request_pipe k.response_pipe k.wait)
      ≡ asked (request_of k) q
  left_by-asked =
      ap (left_by q)
        (send_shm_request-asked k.send k.wait q k.request_pipe k.response_pipe works.0 drained)

  -- The threads that end do, and the request is one that can be taken in.
  ends-Represents :
      (es : List Event)
      → AllAllowed p (events_of k ++ es) c rs
      → (c₁ : Crowd) × (or_same c (history p (map departs k.leaves) c) ≡ c₁)
        × Represents p c₁ remaining
        × AllAllowed p (arrives k.add (request_of k) ∷ es) c₁ remaining
  ends-Represents es ok =
      let parts : AllAllowed p (map departs k.leaves ++ arrives k.add (request_of k) ∷ es) c rs =
        subst (λ x. AllAllowed p x c rs)
          (append_assoc (map departs k.leaves) (arrives k.add (request_of k) ∷ []) es) ok in
      let (c₁, run, next) =
        history-Represents p (map departs k.leaves) c rs rep
          (AllAllowed-first p (map departs k.leaves) _ c rs parts) in
      (c₁, ap (or_same c) run, next, AllAllowed-split p (map departs k.leaves) _ c c₁ rs parts run)

  -- One served client.
  serve-client :
      (es : List Event)
      → AllAllowed p (events_of k ++ es) c rs
      → (q' : ServerQueue) × (c' : Crowd) × ((vs : List Visit)
          → serve p (visit_of p true true k ∷ vs) q c ≡ serve p vs q' c')
        × IsDrained q'
        × (q'.nb_slots ≡ q.nb_slots)
        × Represents p c' (after_all (events_of k) rs)
        × AllAllowed p es c' (after_all (events_of k) rs)
  unfolding serve
  serve-client es ok =
      let (c₁, gone, rep₁, (now, later)) = ends-Represents es ok in
      let (c', run, came, next) = admit-Represents p k.add (request_of k) c₁ remaining rep₁ now in
      let got =
        fetch_shm_request-asked k.fetch (admit p k.add true true) q (request_of k) (some c₁)
          (some c') (pos 1) works.1 drained run in
      (
        fetched (asked (request_of k) q),
        c',
        λ vs. simp (left_by-asked, gone, got, serve),
        fetched-IsDrained q (request_of k) drained,
        fetched-nb_slots q (request_of k),
        subst (Represents p c') (sym arrived) next,
        subst (AllAllowed p es c') (sym arrived) (later c' came),
      )

  -- A client for whom `pthread_create` fails.
  pub serve-refused :
      (vs : List Visit) (detached : Bool)
      → AllAllowed p (events_of k) c rs
      → (q' : ServerQueue) × (c' : Crowd) × (serve p (visit_of p false detached k ∷ vs) q c
          ≡ (exits 1, q', c'))
        × IsDrained q'
        × (length c'.threads ≡ length remaining)
        × Represents p
            (record c' { threads = c'.threads ++ k.add.value ∷ [] })
            (remaining ++ request_of k ∷ [])
  unfolding serve
  serve-refused vs detached ok =
      let (c₁, gone, rep₁, (now, later)) =
        ends-Represents [] (subst (λ x. AllAllowed p x c rs) (sym (append-nil (events_of k))) ok) in
      let (c', run, same, next) =
        admit-refused p k.add (request_of k) c₁ remaining rep₁ now detached in
      let got =
        fetch_shm_request-asked k.fetch (admit p k.add false detached) q (request_of k) (some c₁)
          (some c') thread_error works.1 drained run in
      (
        fetched (asked (request_of k) q),
        c',
        simp (left_by-asked, gone, got, serve),
        fetched-IsDrained q (request_of k) drained,
        ap length same ∙ threads-length rep₁,
        next,
      )
    where
      threads-length :
          {c₂ : Crowd} {ss : List ShmRequest} → Represents p c₂ ss → length c₂.threads ≡ length ss
      threads-length r =
          ap length (sym r.values)
          ∙ length-map (λ e. e.value) r.entries
          ∙ sym (length-map (λ e. e.item) r.entries)
          ∙ ap length r.items

-- Any number of served clients.
pub serve-clients :
    (p : Ptr) (ks : List Client) (es : List Event) (q : ServerQueue) (c : Crowd)
    (rs : List ShmRequest)
    → All Works ks
    → IsDrained q
    → Represents p c rs
    → AllAllowed p (all_events ks ++ es) c rs
    → (q' : ServerQueue) × (c' : Crowd) × ((vs : List Visit)
        → serve p (map (visit_of p true true) ks ++ vs) q c ≡ serve p vs q' c')
      × IsDrained q'
      × (q'.nb_slots ≡ q.nb_slots)
      × Represents p c' (after_all (all_events ks) rs)
      × AllAllowed p es c' (after_all (all_events ks) rs)
serve-clients p [] es q c rs works drained rep ok = (q, c, λ vs. refl, drained, refl, rep, ok)
serve-clients p (k ∷ ks) es q c rs (now, later) drained rep ok =
    let parts =
      subst (λ x. AllAllowed p x c rs) (append_assoc (events_of k) (all_events ks) es) ok in
    let (q₁, c₁, first, drained₁, size, rep₁, ok₁) =
      serve-client p k q c rs now drained rep (all_events ks ++ es) parts in
    let (q', c', rest, drained', size', rep', ok') =
      serve-clients p ks es q₁ c₁ (after_all (events_of k) rs) later drained₁ rep₁ ok₁ in
    let same = sym (after_all-append (events_of k) (all_events ks) rs) in
    (
      q',
      c',
      λ vs. first (map (visit_of p true true) ks ++ vs) ∙ rest vs,
      drained',
      size' ∙ size,
      subst (Represents p c') same rep',
      subst (AllAllowed p es c') same ok',
    )
