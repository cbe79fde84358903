-- ===== src/Server/Tests.antt =====
-- The theorems on the server with one client connected.
use local_server_c.Base.{
  ◌≡◌, ◌≢◌, refl, none, some, true, false, List, [], ◌∷◌, ◌%◌, ◌==◌, if◌then◌else◌, pos, arith,
}
use local_server_c.Base.Text.{codes}
use local_server_c.Queue.{
  ServerQueue, make_request, taken, SendEnv, send_shm_request, FetchEnv, fetch_shm_request,
  ShmRequest, returned,
}
use local_server_c.Queue.System.{fresh_queue}
use local_server_c.Queue.Life.{World, InitEnv, FreeEnv, free_server_queue}
use local_server_c.LinkedList.Memory.{Handle, Heap}
use local_server_c.LinkedList.{AddEnv}
use local_server_c.LinkedList.Chain.{Entry, IsList}
use local_server_c.Yml.Parser
use local_server_c.Yml.Parser.{Parser, free_parser, free_hash_map, locked}
use local_server_c.Request
use local_server_c.Request.{received}
use local_server_c.Server.Session.{in_parent, Round}
use local_server_c.Server.Life.{
  sigint, sigpipe, Globals, FreeAnswers, sig_free, exits_success, exits_failure,
}
use local_server_c.Server.Crowd.{Crowd, Event, arrives, departs, admit, history}
use local_server_c.Server.Admission.{IsDrained, Carries, send_shm_request-admit}
use local_server_c.Server.Population.{Represents, AllAllowed, history-Represents}
use local_server_c.Server.Shutdown.{reached, sig_free-status}

abbrev first_client : ShmRequest
first_client = record { request_pipe = codes "q7"; response_pipe = codes "r7"; pid = 7; uid = 1 }

abbrev second_client : ShmRequest
second_client = record { request_pipe = codes "q8"; response_pipe = codes "r8"; pid = 8; uid = 1 }

abbrev entry : Entry ShmRequest
entry = record { cell = 10; value = 11; item = first_client }

abbrev handle : Handle
handle = record { mutex = 1; head = 10; tail = 10; size = 1 }

abbrev heap : Heap ShmRequest
heap = record {
  lists = λ a. if a == 1 then some handle else none;
  cells = λ a. if a == 10 then some (record { value = 11; next = 0 }) else none;
  values = λ a. if a == 11 then some first_client else none;
}

heap-IsList : IsList heap 1 handle (entry ∷ [])
heap-IsList = record {
  list_ne = omega arith;
  stored = refl;
  chain = (
    record { cell_ne = omega arith; value_ne = omega arith; cell_at = refl; value_at = refl },
    tt,
  );
  distinct = ((refl, refl), tt);
  head_at = refl;
  tail_at = refl;
  size_at = refl;
  small = omega arith;
}

abbrev pub answers : AddEnv
answers = record {
  wait = true;
  cell = 30;
  value = 31;
  garbage = record { value = 99; next = 99 };
  post = true;
}

-- The first client's thread runs; the second client comes, then the first thread ends.
abbrev crowd : Crowd
crowd = record { heap = heap; threads = 11 ∷ [] }

abbrev events : List Event
events = arrives answers second_client ∷ departs 0 ∷ []

crowd-Represents : Represents 1 crowd (first_client ∷ [])
crowd-Represents = record {
  handle = handle;
  entries = entry ∷ [];
  list = heap-IsList;
  free = omega arith;
  items = refl;
  values = refl;
  unique = (tt, tt);
}

events-AllAllowed : AllAllowed 1 events crowd (first_client ∷ [])
events-AllAllowed = (
  (refl, refl, omega arith, omega arith, refl, refl, (omega arith, tt), omega arith),
  λ c' run. (omega arith, λ c'' run'. tt),
)

history-Represents_example :
    (c' : Crowd) × (history 1 events crowd ≡ some c') × Represents 1 c' (second_client ∷ [])
history-Represents_example =
    history-Represents 1 events crowd (first_client ∷ []) crowd-Represents events-AllAllowed

-- A client asks a server that has served three requests on four slots.
abbrev used_queue : ServerQueue
used_queue = record (fresh_queue 5 4) { head = 3; tail = 3 }

used_queue-IsDrained : IsDrained used_queue
used_queue-IsDrained = record {
  some_slot = omega arith;
  few_slots = omega arith;
  sized = refl;
  inside = omega arith;
  met = refl;
  nothing = refl;
  free = refl;
  all_empty = refl;
  none_full = refl;
}

abbrev pub asks : SendEnv
asks = record {
  clock = some 100;
  wait_empty = λ d. taken;
  wait_mutex = λ d. taken;
  post_mutex = true;
  post_full = true;
  pid = 8;
  uid = 1;
}

abbrev pub fetches : FetchEnv
fetches = record { wait_full = true; wait_mutex = true; post_mutex = true; post_empty = true }

send_shm_request-admit_example :
    (q₁ : ServerQueue) × (q₂ : ServerQueue) × (c' : Crowd) × (send_shm_request asks
        (some used_queue)
        (codes "q8")
        (codes "r8")
        5
      ≡ returned (pos 1) (some q₁))
    × (fetch_shm_request fetches (some q₁) (some (admit 1 answers true true)) (some crowd)
        ≡ returned (pos 1) (some q₂, some c'))
    × IsDrained q₂
    × (q₂.tail ≡ 4 % 4)
    × Represents 1 c' (first_client ∷ make_request (codes "q8") (codes "r8") 8 1 ∷ [])
    × Carries (make_request (codes "q8") (codes "r8") 8 1) (codes "q8") (codes "r8") asks
unfolding make_request
send_shm_request-admit_example =
    send_shm_request-admit asks 5 fetches used_queue (codes "q8") (codes "r8")
      (100, refl, refl, refl, refl, refl) (refl, refl, refl, refl) used_queue-IsDrained 1 answers
      crowd (first_client ∷ []) crowd-Represents
      (refl, refl, omega arith, omega arith, refl, refl, (omega arith, tt), omega arith)

-- A round that prints `hi`, and the request that follows it.
abbrev pub listener : Request.ListenEnv
listener = record { opened = true; read_works = true; closed = true; memory = [] }

abbrev pub printing : Round
printing = record {
  tube_made = true;
  forked = in_parent;
  write_closed = true;
  child_writes = true;
  output = codes "hi";
  reallocs = λ i. true;
  reads = λ i. some 1;
  read_closed = true;
  sent = λ text. pos 1;
  listen = listener;
  requests = some (codes "exit");
}

-- The request pipe cannot be read when the command of `printing` is done.
abbrev deaf : Round
deaf = record printing { listen = record listener { read_works = false } }

abbrev free_works : FreeEnv
free_works = record { waited = true; closed = true; unmapped = true; unlinked = true }

abbrev after_start : World
after_start = record { object = some (fresh_queue 5 4); descriptors = 4; mappings = 1 }

abbrev pub after_stop : World
after_stop = record { object = none; descriptors = 3; mappings = 0 }

abbrev config : Parser
config = record {
  mutex = 1;
  content = [];
  map = record { buckets = λ i. record { elems = []; broken = false }; mallocs = [] };
  executed = true;
}

abbrev globals : Globals
globals = record {
  heap = heap;
  client_list = 1;
  config = some config;
  server_q = fresh_queue 5 4;
  world = after_start;
}

-- The client with number 7 cannot be signalled.
abbrev unreached : FreeAnswers
unreached = record {
  kill = λ pid. false;
  list_waited = true;
  parser_wait_fails = false;
  queue = free_works;
}

parser_freed : free_parser false (some config) ≡ Parser.returned (pos 1) (none, [])
unfolding free_parser locked free_hash_map
parser_freed = refl

queue_freed :
    free_server_queue free_works (fresh_queue 5 4) after_start ≡ returned (pos 1) after_stop
unfolding free_server_queue
queue_freed = refl

not_sigpipe : sigint ≢ sigpipe
not_sigpipe h = cc

sig_free-status_example : sig_free unreached sigint globals ≡ (
  7 ∷ [],
  if reached (λ pid. false) (entry ∷ [])
      then exits_success after_stop
      else exits_failure after_stop,
)
sig_free-status_example =
    sig_free-status unreached sigint globals handle (entry ∷ []) not_sigpipe heap-IsList
      (omega arith) refl (none, []) parser_freed after_stop queue_freed

abbrev pub init_works : InitEnv
init_works = record {
  shm_fd = 5;
  shm_opened = true;
  truncated = true;
  mapped = true;
  mutex_set = true;
  empty_set = true;
  full_set = true;
  closed = true;
  unlinked = true;
}
