-- ===== src/Server/Life.antt =====
-- server.c: the process from its start to its end (main, skeleton_dameon, sig_free).
use local_server_c.Base.{
  ℕ, Option, none, some, Bool, true, false, not, ◌&&◌, List, [], ◌∷◌, ◌==◌, if◌then◌else◌, ℤ, pos,
  negsuc, ltb_ℤ,
}
use local_server_c.Queue.{ServerQueue, ShmRequest, Outcome, FetchEnv, fetch_shm_request}
use local_server_c.Queue.Life.{World, InitEnv, init_server_queue, FreeEnv, free_server_queue}
use local_server_c.LinkedList.Memory.{Ptr, Heap, Run}
use local_server_c.LinkedList.{AddEnv, list_apply, list_dispose}
use local_server_c.Yml.Parser.{Parser, Ran, free_parser}
use local_server_c.Server.{free_online_clients}
use local_server_c.Server.Crowd.{Crowd, admit}

-- What a process that runs `skeleton_dameon` does next: it goes on with a result, or has ended.
pub data Daemon : Type 0 where
  goes_on : ℤ → Daemon
  ended : Daemon

-- What `fork` answers to a process.
pub data Forked : Type 0 where
  no_child child parent : Forked

-- `skeleton_dameon`: the two calls of `fork`, `setsid`, and the two of `dup2`.
unfoldable pub skeleton_dameon : Forked → Bool → Forked → Bool → Bool → Daemon
skeleton_dameon no_child session_made second out_linked err_linked = goes_on (negsuc 0)
skeleton_dameon parent session_made second out_linked err_linked = ended
skeleton_dameon child session_made second out_linked err_linked =
    if not session_made then goes_on (negsuc 0) else elim second [
      | no_child ↦ goes_on (negsuc 0)
      | parent ↦ ended
      | child ↦
          if not out_linked
          then goes_on (negsuc 0)
          else if not err_linked
          then goes_on (negsuc 0)
          else goes_on (pos 1)
    ]

-- What the calls of `main` before its loop give. `client_list` and `heap` are what `init_list` leaves,
-- `daemon` is the entry of the configuration and `dameon` what `skeleton_dameon` leaves; `slots` is the
-- entry that sizes the queue.
pub record MainEnv : Type 0 where
  pub list_made : Bool
  pub client_list : Ptr
  pub heap : Heap ShmRequest
  pub parser_made : Bool
  pub parsed : ℤ
  pub freed : Bool
  pub daemon : ℕ
  pub dameon : Daemon
  pub mask_filled : Bool
  pub int_set : Bool
  pub quit_set : Bool
  pub term_set : Bool
  pub pipe_set : Bool
  pub slots : ℕ
  pub queue : InitEnv

-- How `main` is left: with a code, in a wait that nothing ends, by the end of the process that made the
-- daemon, in a call of `allocate_request_ressources` that does not return, by a read outside the queue,
-- or not (it goes to the next request).
pub data MainEnd : Type 0 where
  exits : ℕ → MainEnd
  waits : MainEnd
  ended_as_daemon : MainEnd
  stuck : MainEnd
  faults : MainEnd
  serves : MainEnd

-- A round of the loop of `main`: what the clients make of the shared memory and the threads of the list
-- before a request is fetched, and what the system answers to the calls of the round.
pub record Visit : Type 0 where
  pub clients : ServerQueue → ServerQueue
  pub ends : Crowd → Crowd
  pub fetch : FetchEnv
  pub add : AddEnv
  pub created : Bool
  pub detached : Bool

-- The queue that a call of `fetch_shm_request` leaves to its caller.
abbrev pub kept : ServerQueue → Option ServerQueue → ServerQueue
kept q none = q
kept q (some q') = q'

-- The `while (1)` of `main`, over the queue and the list at `p`.
unfoldable pub serve : Ptr → List Visit → ServerQueue → Crowd → MainEnd × ServerQueue × Crowd
unfolding admit
serve p [] q c = (serves, q, c)
serve p (v ∷ vs) q c =
    let q₁ = v.clients q in
    let c₁ = v.ends c in
    elim (fetch_shm_request v.fetch (some q₁) (some (admit p v.add v.created v.detached))
      (some c₁)) [
        | Outcome.returned r st ↦ elim st.1 [
          | none ↦ (stuck, kept q₁ st.0, c₁)
          | some c' ↦ elim (ltb_ℤ r (pos 0)) [
            | true ↦ (exits 1, kept q₁ st.0, c')
            | false ↦ serve p vs (kept q₁ st.0) c'
          ]
        ]
        | Outcome.blocked st ↦ (waits, kept q₁ st.0, c₁)
        | Outcome.fault ↦ (faults, q₁, c₁)
      ]

-- The list of `main` before its first request.
abbrev pub start_crowd : MainEnv → Crowd
start_crowd env = record { heap = env.heap; threads = [] }

-- `main` from the registration of its signal handlers on.
unfoldable pub main_signals : MainEnv → List Visit → World → MainEnd × World × Crowd
unfolding serve
main_signals env visits w =
    let c = start_crowd env in
    if not env.mask_filled
    then (exits 1, w, c)
    else if not env.int_set
    then (exits 1, w, c)
    else if not env.quit_set
    then (exits 1, w, c)
    else if not env.term_set
    then (exits 1, w, c)
    else if not env.pipe_set
    then (exits 1, w, c)
    else (let (queue, w') = init_server_queue env.queue env.slots w in
        elim queue [
          | none ↦ (exits 1, w', c)
          | some q ↦
              let (end, q', c') = serve env.client_list visits q c in
              (end, record w' { object = some q' }, c')
        ])

-- `main`. The result of `skeleton_dameon` is not looked at.
unfoldable pub main : MainEnv → List Visit → World → MainEnd × World × Crowd
unfolding main_signals
main env visits w =
    let c = start_crowd env in
    if not env.list_made
    then (exits 1, w, c)
    else if not env.parser_made
    then (exits 1, w, c)
    else if ltb_ℤ env.parsed (pos 0)
    then (if env.freed then exits 1 else waits, w, c)
    else if env.daemon == 0
    then main_signals env visits w
    else elim env.dameon [ ended ↦ (ended_as_daemon, w, c) | goes_on r ↦ main_signals env visits w ]

pub data Signal : Type 0 where
  sigint sigquit sigterm sigpipe : Signal
  other : ℕ → Signal

-- What `sig_free` works on: the global variables and what they lead to.
pub record Globals : Type 0 where
  pub heap : Heap ShmRequest
  pub client_list : Ptr
  pub config : Option Parser
  pub server_q : ServerQueue
  pub world : World

-- What the system answers to `sig_free`.
pub record FreeAnswers : Type 0 where
  pub kill : ℕ → Bool
  pub list_waited : Bool
  pub parser_wait_fails : Bool
  pub queue : FreeEnv

-- How the handler ends: it returns, ends the process with EXIT_SUCCESS or EXIT_FAILURE, waits for a
-- semaphore that nobody posts, or reads what is not there.
pub data Freed : Type 0 where
  ignored : Freed
  exits_success : World → Freed
  exits_failure : World → Freed
  waits : Freed
  faults : Freed

-- The end of `sig_free`, with `good` for EXIT_SUCCESS so far.
abbrev pub finish : Bool → ℤ → World → Freed
finish good r w =
    if ltb_ℤ r (pos 0) then exits_failure w else if good then exits_success w else exits_failure w

-- From the call of `free_server_queue` on.
unfoldable pub free_queue : FreeAnswers → Globals → Bool → Freed
free_queue a g good = elim (free_server_queue a.queue g.server_q g.world) [
  | Outcome.returned r w ↦ finish good r w
  | Outcome.blocked w ↦ waits
  | Outcome.fault ↦ faults
]

-- From the call of `free_parser` on.
unfoldable pub free_config : FreeAnswers → Globals → Bool → Freed
unfolding free_queue
free_config a g good = elim (free_parser a.parser_wait_fails g.config) [
  | Ran.returned r freed ↦ free_queue a g (good && not (ltb_ℤ r (pos 0)))
  | Ran.waits ↦ waits
  | Ran.undefined_access ↦ faults
]

-- From the call of `list_dispose` on.
unfoldable pub free_clients : FreeAnswers → Globals → Bool → Freed
unfolding free_config
free_clients a g good = elim (list_dispose a.list_waited g.client_list g.heap) [
  | Run.ok r h ↦ free_config a g (good && not (ltb_ℤ r (pos 0)))
  | Run.blocked h ↦ waits
  | Run.fault ↦ faults
  | Run.out_of_fuel ↦ faults
]

-- The calls of `sig_free`, with the processes to which a signal is sent in the order of the calls of
-- `kill`.
unfoldable pub free_all : FreeAnswers → Globals → List ℕ × Freed
unfolding free_clients
free_all a g = elim (list_apply g.client_list (some (free_online_clients a.kill)) [] g.heap) [
  | Run.ok r h ↦ (r.1, free_clients a (record g { heap = h }) (not (ltb_ℤ (r.0) (pos 0))))
  | Run.blocked h ↦ ([], waits)
  | Run.fault ↦ ([], faults)
  | Run.out_of_fuel ↦ ([], faults)
]

-- `sig_free`.
unfoldable pub sig_free : FreeAnswers → Signal → Globals → List ℕ × Freed
sig_free a sigpipe g = ([], ignored)
sig_free a sigint g = free_all a g
sig_free a sigquit g = free_all a g
sig_free a sigterm g = free_all a g
sig_free a (other n) g = free_all a g
