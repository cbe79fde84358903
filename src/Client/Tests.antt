-- ===== src/Client/Tests.antt =====
-- The theorems on the client, for a user who types an unknown command, two known ones and `exit`.
use local_server_c.Base.{
  ℕ, zero, suc, length, sym, ◌+◌, ◌<◌, ◌≡◌, refl, none, some, true, false, List, [], ◌∷◌, ◌++◌,
  take, replicate, pos, arith,
}
use mathlib.Core.Path.{subst}
use local_server_c.Base.Text.{codes, c_str, strlen, fit, same_text, NulFree, strlen-NulFree}
use local_server_c.Queue.{
  ServerQueue, taken, enqueue, make_request, send_shm_request, send_locked, send_post, shared,
}
use local_server_c.Queue.System.{fresh_queue}
use local_server_c.Queue.Life.{World, connect}
use local_server_c.Yml.Parser
use local_server_c.Yml.Parser.{Parser, free_parser, free_hash_map, locked}
use local_server_c.Request
use local_server_c.Response
use local_server_c.Response.{Message, heard, read_loop, give_buffer, listen_response}
use local_server_c.Commands.{is_command_available}
use local_server_c.Client.{Exchange, typed, typed_from}
use local_server_c.Client.Requests.{Answered, requests, commands_of, in_pipe}
use local_server_c.Client.Silence.{Unanswered}
use local_server_c.Client.Life.{exits, CleanEnv, MainEnv, asks_help, main}
use local_server_c.Client.Starting.{Asks, Cleans, Joins, Starts, restored}
use local_server_c.Client.Ending.{main-silent}

abbrev sender : Request.SendEnv
sender = record {
  forked = true;
  mask_filled = true;
  action_set = true;
  alarm_rings = false;
  opened = true;
  written = true;
  closed = true;
  later_exit = pos 0;
}

abbrev listener : Response.ListenEnv
listener = record {
  opened = true;
  first_select = some true;
  header_read = true;
  allocated = true;
  selects = λ i. some true;
  reads = λ i. some 2;
  buffer_allocated = true;
  closed = true;
}

abbrev pub good_exchange : Exchange
good_exchange = record {
  send = sender;
  listen = listener;
  response = some (record { size = 3; msg = codes "ok" ++ 0 ∷ [] });
}

-- `select` times out.
abbrev deaf_exchange : Exchange
deaf_exchange = record good_exchange { listen = record listener { first_select = some false } }

heard_ok : listen_response 9 listener good_exchange.response ≡ heard (pos 1) (codes "ok" ++ 0 ∷ [])
unfolding listen_response read_loop give_buffer fit c_str
heard_ok = refl

pub good_exchange-Answered : Answered 9 good_exchange (codes "ok" ++ 0 ∷ [])
good_exchange-Answered = record {
  sends = (refl, refl, refl, refl, refl, refl, refl);
  hears = heard_ok;
}

heard_nothing : listen_response 9 deaf_exchange.listen deaf_exchange.response ≡ heard (pos 0) []
unfolding listen_response
heard_nothing = refl

deaf_exchange-Unanswered : Unanswered 9 deaf_exchange
deaf_exchange-Unanswered = record {
  sends = (refl, refl, refl, refl, refl, refl, refl);
  result = pos 0;
  got = [];
  hears = heard_nothing;
  bad = refl;
}

abbrev config : Parser
config = record {
  mutex = 1;
  content = [];
  map = record { buckets = λ i. record { elems = []; broken = false }; mallocs = [] };
  executed = true;
}

abbrev pub start : World
start = record { object = some (fresh_queue 5 4); descriptors = 3; mappings = 0 }

abbrev pub clean_works : CleanEnv
clean_works = record {
  unmapped = true;
  request_unlinked = true;
  response_unlinked = true;
  parser_wait_fails = false;
}

-- Every exchange is answered.
abbrev pub answered : MainEnv
answered = record {
  argument = none;
  config = some config;
  parsed = pos 1;
  parser_wait_fails = false;
  mask_filled = true;
  int_set = true;
  quit_set = true;
  term_set = true;
  usr1_set = true;
  usr2_set = true;
  connected = record {
    shm_opened = true;
    first_mapped = true;
    unmapped = true;
    mapped = true;
    closed = true;
  };
  request_path = codes "req";
  request_memory = some (replicate 256 0);
  request_made = true;
  response_path = codes "res";
  response_memory = some (replicate 256 0);
  response_made = true;
  ask = record {
    clock = some 100;
    wait_empty = λ d. taken;
    wait_mutex = λ d. taken;
    post_mutex = true;
    post_full = true;
    pid = 7;
    uid = 1;
  };
  wait = 5;
  fuel = 9;
  exchanges = λ i. good_exchange;
  clean = clean_works;
}

-- Only the first exchange is answered.
abbrev then_deaf : ℕ → Exchange
then_deaf zero = good_exchange
then_deaf (suc i) = deaf_exchange

abbrev silent : MainEnv
silent = record answered { exchanges = then_deaf }

abbrev pub input : List ℕ
input = codes "cat x" ++ 10 ∷ codes "ls" ++ 10 ∷ 10 ∷ codes "ps" ++ 10 ∷ codes "exit" ++ 10 ∷ []

connected :
    connect answered.connected start ≡ (some (fresh_queue 5 4), record start { mappings = 0 + 1 })
unfolding connect
connected = refl

no_help : asks_help none ≡ false
unfolding asks_help
no_help = refl

answered-Joins : Joins answered start
answered-Joins = (
  no_help,
  (config, refl),
  refl,
  (refl, refl, refl, refl, refl, refl),
  (fresh_queue 5 4, connected),
)

pub answered-Starts : Starts answered start
answered-Starts = (answered-Joins, ((replicate 256 0, refl), refl), ((replicate 256 0, refl), refl))

-- The queue with the request of the client.
abbrev pub asked_queue : ServerQueue
asked_queue =
    record (enqueue (make_request (codes "req") (codes "res") 7 1)
      (record (fresh_queue 5 4) { empty = 3; mutex = 0 })) { mutex = 1; full = 1 }

pub answered-Asks : Asks answered start (some asked_queue)
unfolding send_shm_request send_locked send_post shared enqueue
answered-Asks = (0, refl)

config_freed : free_parser false (some config) ≡ Parser.returned (pos 1) (none, [])
unfolding free_parser locked free_hash_map
config_freed = refl

pub clean_works-Cleans : Cleans clean_works (some config)
clean_works-Cleans = (refl, refl, refl, ([], config_freed))

pub input-NulFree : NulFree input
unfolding strlen c_str
input-NulFree = strlen-NulFree input refl

first-Answered : (i : ℕ) → i < 1 → Answered 9 (then_deaf i) (codes "ok" ++ 0 ∷ [])
first-Answered zero h = good_exchange-Answered
first-Answered (suc i) h = absurd (omega arith)

two_commands : commands_of (typed input) ≡ codes "ls" ∷ codes "ps" ∷ []
unfolding typed typed_from same_text strlen c_str is_command_available
two_commands = refl

main-silent_example :
    let (acts, end) = main silent input start in
    (requests acts ≡ in_pipe (take 2 (commands_of (typed input))))
    × (end ≡ exits true (restored (record start { object = some asked_queue })))
main-silent_example =
    main-silent silent input start answered-Starts (some asked_queue) answered-Asks
      clean_works-Cleans input-NulFree (λ i. codes "ok" ++ 0 ∷ []) 1 first-Answered
      deaf_exchange-Unanswered (subst (λ cs. 1 < length cs) (sym two_commands) (omega arith))
