-- ===== src/Server/Starting.antt =====
-- server.c: a start of main whose calls work, and the end of the server by one client (main,
-- init_server_queue of libs/connection/connection.c).
use local_server_c.Base.{
  ℕ, ◌+◌, ◌^◌, ◌<◌, ◌≡◌, refl, sym, append-nil, ap, ◌∙◌, none, some, Bool, true, false, List, [],
  ◌∷◌, ◌++◌, ◌==◌, map, length, length-replicate, All, pos, ltb_ℤ, arith,
}
use mathlib.Core.Path.{subst}
use local_server_c.Queue.{ServerQueue, ShmRequest}
use local_server_c.Queue.System.{fresh_queue, no_request}
use local_server_c.Queue.Life.{World, InitEnv, init_server_queue}
use local_server_c.LinkedList.Memory.{Ptr}
use local_server_c.Server.Crowd.{Crowd, departs}
use local_server_c.Server.Life.{
  MainEnv, MainEnd, Visit, exits, serve, start_crowd, main_signals, main,
}
use local_server_c.Server.Population.{Represents, AllAllowed, after_all}
use local_server_c.Server.Admission.{IsDrained}
use local_server_c.Server.Serving.{
  Client, Works, request_of, events_of, all_events, visit_of, serve-clients, serve-refused,
}

-- The calls of `init_server_queue` work.
abbrev pub Makes : InitEnv → Type 0
Makes i =
    (i.shm_opened ≡ true)
    × (i.truncated ≡ true)
    × (i.mapped ≡ true)
    × (i.mutex_set ≡ true)
    × (i.empty_set ≡ true)
    × (i.full_set ≡ true)

-- The world when a server has made its queue.
abbrev pub opened : World → ServerQueue → World
opened w q = record { object = some q; descriptors = w.descriptors + 1; mappings = w.mappings + 1 }

init_server_queue-opened :
    (i : InitEnv) (n : ℕ) (w : World)
    → Makes i
    → w.object ≡ none
    → n < 2 ^ 32
    → init_server_queue i n w ≡ (some (fresh_queue i.shm_fd n), opened w (fresh_queue i.shm_fd n))
unfolding init_server_queue
init_server_queue-opened i n w (e1, e2, e3, e4, e5, e6) free small = ground arith

init-taken :
    (i : InitEnv) (slots : ℕ) (w : World) (q : ServerQueue)
    → w.object ≡ some q
    → init_server_queue i slots w ≡ (none, w)
unfolding init_server_queue
init-taken i slots w q h = ground arith

pub fresh_queue-IsDrained : (fd n : ℕ) → 0 < n → n < 2 ^ 64 → IsDrained (fresh_queue fd n)
fresh_queue-IsDrained fd n some_slot few_slots = record {
  some_slot = some_slot;
  few_slots = few_slots;
  sized = length-replicate n no_request;
  inside = some_slot;
  met = refl;
  nothing = refl;
  free = refl;
  all_empty = refl;
  none_full = refl;
}

-- The calls before the loop of `main` work, and the server is no daemon.
abbrev pub Starts : MainEnv → Type 0
Starts env =
    (env.list_made ≡ true)
    × (env.parser_made ≡ true)
    × (ltb_ℤ env.parsed (pos 0) ≡ false)
    × (env.daemon ≡ 0)
    × (env.mask_filled ≡ true)
    × (env.int_set ≡ true)
    × (env.quit_set ≡ true)
    × (env.term_set ≡ true)
    × (env.pipe_set ≡ true)

-- A run of `main` as its loop leaves it.
abbrev pub run_of : World → MainEnd × ServerQueue × Crowd → MainEnd × World × Crowd
run_of w (end, q, c) = (end, opened w q, c)

pub main-serve :
    (env : MainEnv) (visits : List Visit) (w : World)
    → Starts env
    → Makes env.queue
    → w.object ≡ none
    → env.slots < 2 ^ 32
    → main env visits w
      ≡ run_of w
          (serve env.client_list visits (fresh_queue env.queue.shm_fd env.slots) (start_crowd env))
unfolding main main_signals
main-serve env visits w (e1, e2, e3, e4, e5, e6, e7, e8, e9) makes free small =
    let made = init_server_queue-opened env.queue env.slots w makes free small in
    let zero : (env.daemon == 0) ≡ true = ground arith in
    simp (e1, e2, e3, zero, e5, e6, e7, e8, e9, made, main_signals)

-- The requests of those who are connected when the last client is fetched.
abbrev pub remaining_of : List Client → Client → List ShmRequest
remaining_of ks k = after_all (map departs k.leaves) (after_all (all_events ks) [])

-- The rounds of clients, then of one for whom `pthread_create` fails, then any others.
abbrev pub refused : Ptr → List Client → Client → Bool → List Visit → List Visit
refused p ks k detached rest = map (visit_of p true true) ks ++ visit_of p false detached k ∷ rest

module _ (env : MainEnv) (w : World) (starts : Starts env) (makes : Makes env.queue)
    (free : w.object ≡ none) (some_slot : 0 < env.slots) (few_slots : env.slots < 2 ^ 32)
    (empty : Represents env.client_list (start_crowd env) []) (ks : List Client)
    (works : All Works ks) where
  -- Any number of clients is served.
  pub main-clients :
      AllAllowed env.client_list (all_events ks) (start_crowd env) []
      → (q : ServerQueue) × (c : Crowd) × (main env (map (visit_of env.client_list true true) ks) w
          ≡ (MainEnd.serves, opened w q, c))
        × IsDrained q
        × (q.nb_slots ≡ env.slots)
        × Represents env.client_list c (after_all (all_events ks) [])
  unfolding serve
  main-clients ok =
      let (q, c, served, drained, size, rep, rest) =
        serve-clients env.client_list ks [] (fresh_queue env.queue.shm_fd env.slots)
          (start_crowd env) [] works
          (fresh_queue-IsDrained env.queue.shm_fd env.slots some_slot (omega arith)) empty
          (subst (λ x. AllAllowed env.client_list x (start_crowd env) [])
            (sym (append-nil (all_events ks))) ok) in
      let visits = map (visit_of env.client_list true true) ks in
      (
        q,
        c,
        main-serve env visits w starts makes free few_slots
            ∙ ap (run_of w) (
                ap
                  (λ vs.
                    serve env.client_list vs (fresh_queue env.queue.shm_fd env.slots)
                      (start_crowd env))
                  (sym (append-nil visits))
                ∙ served []),
        drained,
        size,
        rep,
      )

  -- One client for whom `pthread_create` fails ends the whole server with EXIT_FAILURE, after any number
  -- of clients who were served while threads ended: no later round is run, the client's request is left in
  -- the list behind those of the others though no thread works on it, and the shared memory keeps its name
  -- with a queue in which nothing waits, so that the server cannot be started again: every later
  -- `init_server_queue` that finds the object that the server left returns NULL. The conditions: the
  -- server is no daemon, it has from 1 to 2 ^ 32 - 1 slots, the name was free and the list empty when it
  -- started, every other call of `main`, of the clients and of the rounds works, `malloc` gives new
  -- memory, and a client who comes has the number of nobody who is connected.
  pub main-one_failure :
      (k : Client)
      → Works k
      → (detached : Bool) (rest : List Visit)
      → AllAllowed env.client_list (all_events ks ++ events_of k) (start_crowd env) []
      → (i : InitEnv) (slots : ℕ) (later : World)
      → later.object ≡ (main env (refused env.client_list ks k detached rest) w).1.object
      → (q : ServerQueue) × (c : Crowd) × (main env (refused env.client_list ks k detached rest) w
          ≡ (exits 1, opened w q, c))
        × IsDrained q
        × (length c.threads ≡ length (remaining_of ks k))
        × Represents env.client_list
            (record c { threads = c.threads ++ k.add.value ∷ [] })
            (remaining_of ks k ++ request_of k ∷ [])
        × (init_server_queue i slots later ≡ (none, later))
  main-one_failure k good detached rest ok i slots later same =
      let (q₁, c₁, served, drained, size, rep, ok₁) =
        serve-clients env.client_list ks (events_of k) (fresh_queue env.queue.shm_fd env.slots)
          (start_crowd env) [] works
          (fresh_queue-IsDrained env.queue.shm_fd env.slots some_slot (omega arith)) empty ok in
      let (q, c, stopped, drained', idle, rep') =
        serve-refused env.client_list k q₁ c₁ (after_all (all_events ks) []) good drained rep rest
          detached ok₁ in
      let run =
        main-serve env (refused env.client_list ks k detached rest) w starts makes free few_slots
        ∙ ap (run_of w) (served (visit_of env.client_list false detached k ∷ rest) ∙ stopped) in
      (
        q,
        c,
        run,
        drained',
        idle,
        rep',
        init-taken i slots later q (same ∙ ap (λ x. x.1.object) run),
      )
