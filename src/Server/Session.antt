-- ===== src/Server/Session.antt =====
-- server.c: handle_request, the thread of a client, up to its label `remove`. Each round of its loop
-- has what the system answers in it, and the result of `send_response` for each message.
use local_server_c.Base.{
  ℕ, zero, suc, Option, none, some, Bool, true, false, not, ◌&&◌, List, [], ◌∷◌, ◌++◌, ltb,
  if◌then◌else◌, length, take, drop, min, ℤ, pos, ltb_ℤ, eqb_ℤ,
}
use local_server_c.Base.Text.{codes, c_str, same_text}
use local_server_c.Request
use local_server_c.Request.{listen_request}
use local_server_c.Commands
use local_server_c.Commands.{exec_cmd}

-- PIPE_BUF of <limits.h>.
abbrev pub pipe_buf : ℕ
pipe_buf = 4096

-- The texts that the thread sends besides the commands' output.
pub data Notice : Type 0 where
  reception_error execution_error link_error goodbye : Notice

-- What a thread does to others: a response to its client (a notice, or a buffer), a signal to the
-- client, and in a forked child the run of the command.
pub data Act : Type 0 where
  notice : Notice → Act
  response : List ℕ → Act
  signal : Act
  run : Commands.Executed → Act

-- How the thread's function is left: at the label `remove`, by the `return` of a forked child, or not
-- (it waits, or reads on).
pub data End : Type 0 where
  removes child_returns waits reads_on : End

-- The child of a round.
pub record ChildEnv : Type 0 where
  pub stdout_linked : Bool
  pub stderr_linked : Bool
  pub closed : Bool
  pub fork : ℤ
  pub exec_fails : Bool

pub data Fork : Type 0 where
  fork_failed in_parent : Fork
  in_child : ChildEnv → Fork

-- A round of the loop. `output` is what is written to the tube; `child_writes` says that the child
-- itself writes it, before it ends. `requests` is what the request pipe holds when the next request is
-- read.
pub record Round : Type 0 where
  pub tube_made : Bool
  pub forked : Fork
  pub write_closed : Bool
  pub child_writes : Bool
  pub output : List ℕ
  pub reallocs : ℕ → Bool
  pub reads : ℕ → Option ℕ
  pub read_closed : Bool
  pub sent : List ℕ → ℤ
  pub listen : Request.ListenEnv
  pub requests : Option (List ℕ)

-- What the loop over `realloc` and `read` leaves: no memory, or the bytes and whether `read` failed.
pub data Collected : Type 0 where
  no_memory : Collected
  collected : List ℕ → (failed : Bool) → Collected
  reading : Collected

-- That loop, on fuel, with `got` in the buffer and `rest` in the tube.
module _ (reallocs : ℕ → Bool) (reads : ℕ → Option ℕ) where
  unfoldable pub collect : ℕ → ℕ → List ℕ → List ℕ → Collected
  collect zero i got rest = reading
  collect (suc n) i got rest = elim (reallocs i) [
    | false ↦ no_memory
    | true ↦ elim (reads i) [
      | none ↦ collected got true
      | some k ↦ elim (min (min k pipe_buf) (length rest)) [
        | zero ↦ collected got false
        | suc j ↦ collect n (suc i) (got ++ take (suc j) rest) (drop (suc j) rest)
      ]
    ]
  ]

-- Does `wait` return? The child's own `write` to the tube blocks once the tube is full and nobody reads
-- (pipe(7)), so a child that writes more than `capacity` bytes does not end before the parent reads. A
-- program that the child has started writes on its own: the child ends without waiting for it.
unfoldable pub wait_returns : ℕ → Round → Bool
wait_returns capacity r = not (r.child_writes && ltb capacity (length r.output))

-- What a round leaves: its acts, and the end of the function or the buffer for the next round.
pub data Next : Type 0 where
  stop : End → Next
  go : List ℕ → Next

-- From `listen_request` at the end of a round on.
unfoldable pub next_request : Round → List ℕ → List Act → List Act × Next
next_request r buffer acts =
    let (heard, buffer') = listen_request r.listen r.requests buffer in
    (if ltb_ℤ heard (pos 0) then acts ++ notice reception_error ∷ [] else acts, go buffer')

-- From the last `send_response` of a round on.
unfoldable pub answer_client : Round → List ℕ → List ℕ → List Act → List Act × Next
unfolding next_request
answer_client r buffer got acts =
    let text = got ++ 0 ∷ [] in
    let acts' = acts ++ response text ∷ [] in
    if ltb_ℤ (r.sent text) (pos 0)
    then (acts', stop removes)
    else if eqb_ℤ (r.sent text) (pos 0)
    then (acts' ++ signal ∷ [], stop removes)
    else next_request r buffer acts'

-- The branch of the parent.
unfoldable pub parent_round : ℕ → ℕ → Round → List ℕ → List Act × Next
unfolding answer_client wait_returns
parent_round fuel capacity r buffer =
    let acts = if r.write_closed then [] else notice execution_error ∷ [] in
    if not (wait_returns capacity r)
    then (acts, stop waits)
    else elim (collect r.reallocs r.reads fuel 0 [] r.output) [
      | reading ↦ (acts, stop reads_on)
      | no_memory ↦ (acts ++ notice execution_error ∷ [], stop removes)
      | collected got failed ↦
          let acts' = if failed then acts ++ notice link_error ∷ [] else acts in
          if r.read_closed then answer_client r buffer got acts' else (acts', stop removes)
    ]

-- The branch of the child.
unfoldable pub child_round : ChildEnv → List ℕ → List Act × Next
child_round env buffer =
    if not env.stdout_linked
    then ([], stop child_returns)
    else if not env.stderr_linked
    then ([], stop child_returns)
    else if not env.closed
    then ([], stop child_returns)
    else (run (exec_cmd (some buffer) env.fork env.exec_fails) ∷ [], stop child_returns)

-- The body of the `while`.
unfoldable pub round : ℕ → ℕ → Round → List ℕ → List Act × Next
unfolding parent_round child_round
round fuel capacity r buffer = if not r.tube_made then ([], stop removes) else elim r.forked [
  | fork_failed ↦ (notice execution_error ∷ [], stop removes)
  | in_child env ↦ child_round env buffer
  | in_parent ↦ parent_round fuel capacity r buffer
]

abbrev pub is_exit : List ℕ → Bool
is_exit buffer = same_text (c_str buffer) (codes "exit")

-- The loop, on the rounds to come: where they end, the thread waits for a request.
unfoldable pub session : ℕ → ℕ → List Round → List ℕ → List Act × End
unfolding round
session fuel capacity [] buffer =
    if is_exit buffer then (notice goodbye ∷ [], removes) else ([], waits)
session fuel capacity (r ∷ rs) buffer = elim (is_exit buffer) [
  | true ↦ (notice goodbye ∷ [], removes)
  | false ↦
      let (acts, next) = round fuel capacity r buffer in
      elim next [
        | stop end ↦ (acts, end)
        | go buffer' ↦ let (later, end) = session fuel capacity rs buffer' in (acts ++ later, end)
      ]
]

-- `handle_request` up to `remove`: the first request, then the loop.
unfoldable pub handle_request :
    ℕ → ℕ → Request.ListenEnv → Option (List ℕ) → List ℕ → List Round → List Act × End
unfolding session
handle_request fuel capacity listen requests memory rs =
    let (heard, buffer) = listen_request listen requests memory in
    if ltb_ℤ heard (pos 0)
    then (notice reception_error ∷ [], removes)
    else session fuel capacity rs buffer
