-- ===== src/Client/Starting.antt =====
-- client.c: how a run of the client starts and cleans up.
use local_server_c.Base.{
  ℕ, ℤ, suc, ◌+◌, ◌-◌, ◌⊎◌, if◌then◌else◌, ◌≡◌, refl, ap, ◌∙◌, Option, none, some, Bool, true,
  false, ◌&&◌, List, [], inl, inr, pos, ltb_ℤ, arith,
}
use local_server_c.Base.Text.{strncpy}
use local_server_c.Queue.{ServerQueue, name_max, returned, send_shm_request}
use local_server_c.Queue.Life.{World, connect, disconnect}
use local_server_c.Yml.HashMap.{Elem}
use local_server_c.Yml.Parser.{Parser, Ran, free_parser}
use local_server_c.Request.{
  Fifo, made, not_made, init_request_fifo, init_response_fifo, close_request_fifo,
  close_response_fifo,
}
use local_server_c.Client.Life.{
  State, exits, CleanEnv, clean_up, MainEnv, main_loop, main_pipes, main_signals, asks_help, main,
}

-- What is left of a state when every call of the clean-up works.
abbrev pub cleaned : State → State
cleaned st = record {
  world = record st.world { mappings = st.world.mappings - 1 };
  config = none;
  request_pipe = false;
  response_pipe = false;
}

-- Every call of the clean-up works.
abbrev pub Cleans : CleanEnv → Option Parser → Type 0
Cleans env config =
    (env.unmapped ≡ true)
    × (env.request_unlinked ≡ true)
    × (env.response_unlinked ≡ true)
    × ((es : List Elem) × (free_parser env.parser_wait_fails config
          ≡ Ran.returned (pos 1) (none, es)))

and_true : (b : Bool) → (b && true) ≡ b
and_true true = refl
and_true false = refl

and_false : (b : Bool) → (b && false) ≡ false
and_false true = refl
and_false false = refl

pub clean_up-cleaned :
    (env : CleanEnv) (good : Bool) (st : State)
    → Cleans env st.config
    → clean_up env good st ≡ exits good (cleaned st)
unfolding clean_up disconnect close_request_fifo close_response_fifo
clean_up-cleaned env good st (e1, e2, e3, (es, e4)) =
    simp (e1, e2, e3, e4, and_true, and_false, clean_up)

-- The calls of `main` before those that make the pipes work.
abbrev pub Joins : MainEnv → World → Type 0
Joins env w =
    (asks_help env.argument ≡ false)
    × ((p : Parser) × (env.config ≡ some p))
    × (ltb_ℤ env.parsed (pos 0) ≡ false)
    × ((env.mask_filled ≡ true)
        × (env.int_set ≡ true)
        × (env.quit_set ≡ true)
        × (env.term_set ≡ true)
        × (env.usr1_set ≡ true)
        × (env.usr2_set ≡ true))
    × ((q : ServerQueue) × (connect env.connected w
          ≡ (some q, record w { mappings = w.mappings + 1 })))

-- The calls of `main` before `send_shm_request` work.
abbrev pub Starts : MainEnv → World → Type 0
Starts env w =
    Joins env w
    × (((m : List ℕ) × (env.request_memory ≡ some m)) × (env.request_made ≡ true))
    × (((m : List ℕ) × (env.response_memory ≡ some m)) × (env.response_made ≡ true))

-- The request for a connection is stored in the queue, which is then `object`.
abbrev pub Asks : MainEnv → World → Option ServerQueue → Type 0
Asks env w object =
    (n : ℕ) × (send_shm_request env.ask w.object env.request_path env.response_path env.wait
      ≡ returned (pos (suc n)) object)

-- The state of a client that has joined the queue, with the names of its pipes or not.
abbrev pub joined : MainEnv → World → Bool → Bool → State
joined env w request_pipe response_pipe = record {
  world = record w { mappings = w.mappings + 1 };
  config = env.config;
  request_pipe = request_pipe;
  response_pipe = response_pipe;
}

-- The state before the client, without its configuration.
abbrev pub restored : World → State
restored w = record { world = w; config = none; request_pipe = false; response_pipe = false }

pub cleaned-joined : (env : MainEnv) (w : World) → cleaned (joined env w true true) ≡ restored w
cleaned-joined env w =
    let e : w.mappings + 1 - 1 ≡ w.mappings = omega arith in
    ap (λ n. restored (record w { mappings = n })) e

main-joined :
    (env : MainEnv) (input : List ℕ) (w : World)
    → Joins env w
    → main env input w ≡ main_pipes env input (joined env w false false)
unfolding main main_signals
main-joined env input w (help, (p, config), parsed, (s1, s2, s3, s4, s5, s6), (q, shared)) =
    simp (help, config, parsed, s1, s2, s3, s4, s5, s6, shared, main, main_signals)

request_made :
    (memory : Option (List ℕ)) (m id : List ℕ) (fifo_made : Bool)
    → memory ≡ some m
    → fifo_made ≡ true
    → init_request_fifo memory fifo_made id ≡ made (record { id = strncpy m id name_max })
unfolding init_request_fifo
request_made memory m id fifo_made e h = simp (e, h)

response_made :
    (memory : Option (List ℕ)) (m id : List ℕ) (fifo_made : Bool)
    → memory ≡ some m
    → fifo_made ≡ true
    → init_response_fifo memory fifo_made id ≡ made (record { id = strncpy m id name_max })
unfolding init_response_fifo
response_made memory m id fifo_made e h = simp (e, h)

response_fails :
    (memory : Option (List ℕ)) (id : List ℕ) (fifo_made : Bool)
    → (memory ≡ none) ⊎ (fifo_made ≡ false)
    → (leaked : Bool) × (init_response_fifo memory fifo_made id ≡ not_made leaked)
unfolding init_response_fifo
response_fails none id fifo_made broken = (false, refl)
response_fails (some m) id fifo_made (inl e) = absurd (ground arith)
response_fails (some m) id fifo_made (inr e) = (true, simp e)

pub main-opened :
    (env : MainEnv) (input : List ℕ) (w : World)
    → Starts env w
    → (r : ℤ) (object : Option ServerQueue)
    → send_shm_request env.ask w.object env.request_path env.response_path env.wait
      ≡ returned r object
    → (fifo : Fifo) × (main env input w ≡ (
        if ltb_ℤ (pos 0) r
        then main_loop env input fifo (joined env (record w { object = object }) true true)
        else ([], clean_up env.clean false (joined env (record w { object = object }) true true))))
unfolding main_pipes
main-opened env input w (joins, ((m, r1), r2), ((m', r3), r4)) r object asked = (
  record { id = strncpy m env.request_path name_max },
  main-joined env input w joins
      ∙ simp (
        request_made env.request_memory m env.request_path env.request_made r1 r2,
        response_made env.response_memory m' env.response_path env.response_made r3 r4,
        asked,
        main_pipes,
      ),
)

-- When the response pipe cannot be made, the client ends with EXIT_FAILURE and leaves its request pipe
-- under its name, and the shared memory mapped.
pub main-leftover :
    (env : MainEnv) (input : List ℕ) (w : World) (m : List ℕ)
    → Joins env w
    → env.request_memory ≡ some m
    → env.request_made ≡ true
    → (env.response_memory ≡ none) ⊎ (env.response_made ≡ false)
    → main env input w ≡ ([], exits false (joined env w true false))
unfolding main_pipes
main-leftover env input w m joins r1 r2 broken =
    let (leaked, e) =
      response_fails env.response_memory env.response_path env.response_made broken in
    main-joined env input w joins
    ∙ simp
        (request_made env.request_memory m env.request_path env.request_made r1 r2, e, main_pipes)
