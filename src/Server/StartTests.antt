-- ===== src/Server/StartTests.antt =====
-- The theorems on a start of the server, for a configuration of five lines.
use local_server_c.Base.{
  ◌≡◌, refl, sym, ap, ◌∙◌, Option, none, some, true, false, List, [], ◌∷◌, ◌++◌, ◌==◌,
  if◌then◌else◌, pos, arith, length,
}
use local_server_c.Base.Text.{codes}
use local_server_c.Queue.{ServerQueue, ShmRequest, make_request}
use local_server_c.Queue.Life.{World, init_server_queue}
use local_server_c.LinkedList.Memory.{
  Cell, Heap, sem_wait, sem_post, load_list, load_cell, load_value, free_value, free_cell,
}
use local_server_c.LinkedList.{
  list_add, add_cell, link_last, list_remove, remove_locked, remove_loop, finish_remove, unlink,
  load_slot, store_slot,
}
use local_server_c.Server.{allocate_request_ressources, remove_client, request_cmp}
use local_server_c.Yml.Parser.{Parser, returned, initialised, init_yml_parser, exec_parser}
use local_server_c.Server.Life.{MainEnv, goes_on, main, exits, serves, start_crowd, Visit}
use local_server_c.Server.Crowd.{Crowd, arrives, departs, happen, arrive, depart}
use local_server_c.Server.Admission.{IsDrained}
use local_server_c.Server.Population.{Represents, AllAllowed}
use local_server_c.Server.Serving.{Client, Works, all_events, events_of, visit_of, request_of}
use local_server_c.Server.Starting.{Starts, Makes, opened, refused, main-one_failure}
use local_server_c.Yml.{int_bytes}
use local_server_c.Yml.Numbers.{int_word}
use local_server_c.Yml.Matches.{render}
use local_server_c.Yml.Reading.{all_well}
use local_server_c.Yml.FileTests.{
  expressions, server_lines, server_lines-IsLine, slots-Has, title-Has, daemon-Has, timeout-Has,
  limit-Has,
}
use local_server_c.Server.Settings.{response_limit, overrun, load, settings, configured}
use local_server_c.Server.Loading.{limit_of}
use local_server_c.Server.Configuration.{main-configured, configured-limit, load-string}
use local_server_c.Server.Tests.{init_works, after_stop, asks, fetches, answers}

-- The list as `init_list` leaves it.
abbrev empty_heap : Heap ShmRequest
empty_heap = record {
  lists = λ a. if a == 1 then some (record { mutex = 1; head = 0; tail = 0; size = 0 }) else none;
  cells = λ a. none;
  values = λ a. none;
}

abbrev starts : MainEnv
starts = record {
  list_made = true;
  client_list = 1;
  heap = empty_heap;
  parser_made = true;
  parsed = pos 1;
  freed = true;
  daemon = 0;
  dameon = goes_on (pos 1);
  mask_filled = true;
  int_set = true;
  quit_set = true;
  term_set = true;
  pipe_set = true;
  slots = 4;
  queue = init_works;
}

starts-Represents : Represents 1 (start_crowd starts) []
starts-Represents = record {
  handle = record { mutex = 1; head = 0; tail = 0; size = 0 };
  entries = [];
  list = record {
    list_ne = omega arith;
    stored = refl;
    chain = tt;
    distinct = tt;
    head_at = refl;
    tail_at = refl;
    size_at = refl;
    small = omega arith;
  };
  free = omega arith;
  items = refl;
  values = refl;
  unique = tt;
}

-- The client with number 8 is served; its thread has ended when the client with number 9 is looked at.
abbrev client_8 : Client
client_8 = record {
  send = asks;
  wait = 5;
  request_pipe = codes "q8";
  response_pipe = codes "r8";
  leaves = [];
  fetch = fetches;
  add = answers;
}

abbrev client_9 : Client
client_9 = record client_8 {
  send = record asks { pid = 9 };
  request_pipe = codes "q9";
  response_pipe = codes "r9";
  leaves = 0 ∷ [];
  add = record answers { cell = 40; value = 41 };
}

client-Works : Works client_8 × Works client_9
client-Works = (
  ((100, refl, refl, refl, refl, refl), (refl, refl, refl, refl)),
  ((100, refl, refl, refl, refl, refl), (refl, refl, refl, refl)),
)

abbrev departed : Option Crowd → Option Crowd
departed none = none
departed (some c) = happen 1 (departs 0) c

-- The list when client 8 has come and gone.
abbrev gone : Option Crowd
gone = departed (happen 1 (arrives client_8.add (request_of client_8)) (start_crowd starts))

abbrev cell_40 : Option Crowd → Option Cell
cell_40 none = none
cell_40 (some c) = c.heap.cells 40

abbrev value_41 : Option Crowd → Option ShmRequest
value_41 none = none
value_41 (some c) = c.heap.values 41

gone-free : (cell_40 gone ≡ none) × (value_41 gone ≡ none)
unfolding happen arrive depart allocate_request_ressources remove_client request_cmp make_request
    list_add add_cell link_last list_remove remove_locked remove_loop finish_remove unlink load_slot
    store_slot sem_wait sem_post load_list load_cell load_value free_value free_cell
gone-free = (refl, refl)

clients-AllAllowed :
    AllAllowed 1 (all_events (client_8 ∷ []) ++ events_of client_9) (start_crowd starts) []
clients-AllAllowed = (
  (refl, refl, omega arith, omega arith, refl, refl, tt, omega arith),
  λ c run. (
    omega arith,
    λ c' run'.
        let same : some c' ≡ gone = sym (ap departed run ∙ run') in
        (
          (
            refl,
            refl,
            omega arith,
            omega arith,
            ap cell_40 same ∙ gone-free.0,
            ap value_41 same ∙ gone-free.1,
            tt,
            omega arith,
          ),
          λ c'' run''. tt,
        ),
  ),
)

starts_well : Starts starts
starts_well = (refl, refl, refl, refl, refl, refl, refl, refl, refl)

queue_works : Makes init_works
queue_works = (refl, refl, refl, refl, refl, refl)

-- Client 8 comes again after client 9.
abbrev rest : List Visit
rest = visit_of 1 true true client_8 ∷ []

abbrev visits : List Visit
visits = refused 1 (client_8 ∷ []) client_9 true rest

-- What the server leaves.
abbrev left : World
left = (main starts visits after_stop).1

main-one_failure_example :
    (q : ServerQueue) × (c : Crowd) × (main starts visits after_stop
      ≡ (exits 1, opened after_stop q, c))
    × IsDrained q
    × (length c.threads ≡ 0)
    × Represents 1 (record c { threads = c.threads ++ 41 ∷ [] }) (request_of client_9 ∷ [])
    × (init_server_queue init_works 4 left ≡ (none, left))
main-one_failure_example =
    main-one_failure starts after_stop starts_well queue_works refl (omega arith) (omega arith)
      starts-Represents (client_8 ∷ []) (client-Works.0, tt) client_9 client-Works.1 true rest
      clients-AllAllowed init_works 4 left refl

main-configured_example :
    (p : Parser) × (p' : Parser) × (q : ServerQueue) × (c : Crowd) × (init_yml_parser false
        (all_well (render server_lines))
      ≡ initialised p)
    × (exec_parser expressions false false p ≡ returned (pos 1) p')
    × (settings p' (9 ∷ 9 ∷ 9 ∷ 9 ∷ [])
        ≡ some (record {
          res_timeout = int_bytes (int_word false 5);
          daemon = int_bytes 0;
          nb_slots = int_bytes 256;
        }))
    × (configured p' (9 ∷ 9 ∷ 9 ∷ 9 ∷ []) starts (visit_of 1 true true client_8 ∷ []) after_stop
        ≡ some (serves, opened after_stop q, c))
    × IsDrained q
    × (q.nb_slots ≡ 256)
    × Represents 1 c (request_of client_8 ∷ [])
main-configured_example =
    main-configured expressions (λ kind s. refl) refl refl server_lines server_lines-IsLine 256
      (omega arith) (omega arith) false 5 slots-Has daemon-Has timeout-Has (9 ∷ 9 ∷ 9 ∷ 9 ∷ []) refl
      starts (client_8 ∷ []) after_stop starts_well queue_works refl starts-Represents
      (client-Works.0, tt)
      ((refl, refl, omega arith, omega arith, refl, refl, tt, omega arith), λ c run. tt)

load-string_example :
    (p : Parser) × (p' : Parser) × (init_yml_parser false (all_well (render server_lines))
      ≡ initialised p)
    × (exec_parser expressions false false p ≡ returned (pos 1) p')
    × (load p' (codes "title") (1 ∷ 2 ∷ 3 ∷ 4 ∷ []) ≡ overrun)
load-string_example =
    load-string expressions (λ kind s. refl) refl refl server_lines server_lines-IsLine
      (codes "title") (codes "my server") title-Has (omega arith) (1 ∷ 2 ∷ 3 ∷ 4 ∷ []) refl

configured-limit_example :
    (p : Parser) × (p' : Parser) × (init_yml_parser false (all_well (render server_lines))
      ≡ initialised p)
    × (exec_parser expressions false false p ≡ returned (pos 1) p')
    × (response_limit p' ≡ some (limit_of true 1))
configured-limit_example =
    configured-limit expressions (λ kind s. refl) refl refl server_lines server_lines-IsLine true 1
      limit-Has (omega arith) (omega arith)
