-- ===== src/Client/Life.antt =====
-- client.c: the client from its start to its end (main, sig_disconnect). What
-- other processes do to the shared memory after the client's request is not part of its state.
use local_server_c.Base.{
  ℕ, Option, none, some, Bool, true, false, not, ◌&&◌, ◌||◌, List, [], if◌then◌else◌, ℤ, pos, ltb_ℤ,
}
use local_server_c.Base.Text.{codes, same_text}
use local_server_c.Queue
use local_server_c.Queue.{send_shm_request}
use local_server_c.Queue.Life.{World, ConnectEnv, connect, disconnect}
use local_server_c.Yml.Parser.{Parser, Ran, free_parser}
use local_server_c.Request.{
  Fifo, made, not_made, init_request_fifo, init_response_fifo, close_request_fifo,
  close_response_fifo,
}
use local_server_c.Client.{
  Exchange, Act, at_free, listens, unset, faults, session, typed, end_exchange,
}

-- What the client works on: the shared memory as it sees it, its configuration, and whether the two
-- pipes have their names.
pub record State : Type 0 where
  pub world : World
  pub config : Option Parser
  pub request_pipe : Bool
  pub response_pipe : Bool

-- How the client ends: with EXIT_SUCCESS or EXIT_FAILURE, or not: in a wait for a semaphore, in a call
-- of `listen_response`, or by an access to memory that is not its own.
pub data End : Type 0 where
  exits : (good : Bool) → State → End
  waits_for_parser waits_for_queue listens_on unset_size bad_access : End

-- What the system answers to the clean-up.
pub record CleanEnv : Type 0 where
  pub unmapped : Bool
  pub request_unlinked : Bool
  pub response_unlinked : Bool
  pub parser_wait_fails : Bool

-- The label `free` of `main`, and the end of `sig_disconnect`; `good` says that `r` is EXIT_SUCCESS.
unfoldable pub clean_up : CleanEnv → Bool → State → End
clean_up env good st =
    let (left, world) = disconnect env.unmapped st.world in
    let good₁ = good && not (ltb_ℤ left (pos 0)) in
    let good₂ = good₁ && not (ltb_ℤ (close_request_fifo env.request_unlinked).0 (pos 0)) in
    let good₃ = good₂ && not (ltb_ℤ (close_response_fifo env.response_unlinked).0 (pos 0)) in
    let pipes : State = record {
      world = world;
      config = st.config;
      request_pipe = st.request_pipe && not env.request_unlinked;
      response_pipe = st.response_pipe && not env.response_unlinked;
    } in
    elim (free_parser env.parser_wait_fails st.config) [
      | Ran.returned r freed ↦
          exits (good₃ && not (ltb_ℤ r (pos 0))) (record pipes { config = freed.0 })
      | Ran.waits ↦ waits_for_parser
      | Ran.undefined_access ↦ bad_access
    ]

-- What the calls of `main` before its loop give; `wait` is the time limit of `send_shm_request`.
pub record MainEnv : Type 0 where
  pub argument : Option (List ℕ)
  pub config : Option Parser
  pub parsed : ℤ
  pub parser_wait_fails : Bool
  pub mask_filled : Bool
  pub int_set : Bool
  pub quit_set : Bool
  pub term_set : Bool
  pub usr1_set : Bool
  pub usr2_set : Bool
  pub connected : ConnectEnv
  pub request_path : List ℕ
  pub request_memory : Option (List ℕ)
  pub request_made : Bool
  pub response_path : List ℕ
  pub response_memory : Option (List ℕ)
  pub response_made : Bool
  pub ask : Queue.SendEnv
  pub wait : ℕ
  pub fuel : ℕ
  pub exchanges : ℕ → Exchange
  pub clean : CleanEnv

-- `main` from its loop on.
unfoldable pub main_loop : MainEnv → List ℕ → Fifo → State → List Act × End
unfolding clean_up
main_loop env input fifo st =
    let (acts, left) = session env.fuel fifo env.exchanges 0 (typed input) in
    elim left [
      | at_free good ↦ (acts, clean_up env.clean good st)
      | listens ↦ (acts, listens_on)
      | unset ↦ (acts, unset_size)
      | faults ↦ (acts, bad_access)
    ]

-- `main` from the making of the pipes on.
unfoldable pub main_pipes : MainEnv → List ℕ → State → List Act × End
unfolding main_loop
main_pipes env input st =
    elim (init_request_fifo env.request_memory env.request_made env.request_path) [
      | not_made leaked ↦ ([], exits false st)
      | made fifo ↦
          let st₁ = record st { request_pipe = true } in
          elim (init_response_fifo env.response_memory env.response_made env.response_path) [
            | not_made leaked ↦ ([], exits false st₁)
            | made fifo' ↦
                let st₂ = record st₁ { response_pipe = true } in
                elim (send_shm_request env.ask st₂.world.object env.request_path env.response_path
                  env.wait) [
                    | Queue.returned r object ↦
                        let st₃ = record st₂ { world = record st₂.world { object = object } } in
                        if ltb_ℤ (pos 0) r
                        then main_loop env input fifo st₃
                        else ([], clean_up env.clean false st₃)
                    | Queue.blocked object ↦ ([], waits_for_queue)
                    | Queue.fault ↦ ([], bad_access)
                  ]
          ]
    ]

-- `main` from the handling of signals on.
unfoldable pub main_signals : MainEnv → List ℕ → State → List Act × End
unfolding main_pipes
main_signals env input st =
    if not env.mask_filled
    then ([], exits false st)
    else if not env.int_set
    then ([], exits false st)
    else if not env.quit_set
    then ([], exits false st)
    else if not env.term_set
    then ([], exits false st)
    else if not env.usr1_set
    then ([], exits false st)
    else if not env.usr2_set
    then ([], exits false st)
    else (let (queue, world) = connect env.connected st.world in
        elim queue [
          | none ↦ ([], exits false (record st { world = world }))
          | some q ↦ main_pipes env input (record st { world = world })
        ])

-- `argv[PRINT_HELP]` asks for the commands.
unfoldable pub asks_help : Option (List ℕ) → Bool
asks_help none = false
asks_help (some a) = same_text a (codes "--help") || same_text a (codes "-h")

-- `main`, with what the user types.
unfoldable pub main : MainEnv → List ℕ → World → List Act × End
unfolding main_signals asks_help
main env input w =
    let st : State = record {
      world = w;
      config = env.config;
      request_pipe = false;
      response_pipe = false;
    } in
    if asks_help env.argument
    then ([], exits true (record st { config = none }))
    else elim env.config [
      | none ↦ ([], exits false st)
      | some p ↦
          if ltb_ℤ env.parsed (pos 0)
          then elim (free_parser env.parser_wait_fails (some p)) [
            | Ran.returned r freed ↦ ([], exits false (record st { config = freed.0 }))
            | Ran.waits ↦ ([], waits_for_parser)
            | Ran.undefined_access ↦ ([], bad_access)
          ]
          else main_signals env input st
    ]

pub data Signal : Type 0 where
  sigint sigquit sigterm sigusr1 sigusr2 : Signal

-- The exchange of `sig_disconnect` for a signal of the user.
unfoldable pub last_words : ℕ → Fifo → Exchange → CleanEnv → State → List Act × End
unfolding clean_up
last_words fuel fifo x env st =
    let (acts, left) = end_exchange fuel fifo x in
    elim left [
      | at_free good ↦ (acts, clean_up env good st)
      | listens ↦ (acts, listens_on)
      | unset ↦ (acts, unset_size)
      | faults ↦ (acts, bad_access)
    ]

-- `sig_disconnect`.
unfoldable pub sig_disconnect : Signal → ℕ → Fifo → Exchange → CleanEnv → State → List Act × End
unfolding last_words
sig_disconnect sigint fuel fifo x env st = last_words fuel fifo x env st
sig_disconnect sigquit fuel fifo x env st = last_words fuel fifo x env st
sig_disconnect sigterm fuel fifo x env st = last_words fuel fifo x env st
sig_disconnect sigusr1 fuel fifo x env st = ([], clean_up env true st)
sig_disconnect sigusr2 fuel fifo x env st = ([], clean_up env true st)
