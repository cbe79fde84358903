-- ===== src/Response.antt =====
-- libs/connection/connection.c: send_response and listen_response over a named pipe. The length that
-- comes before the message is one item of the pipe. What the system answers is an argument: how many
-- bytes each `write` and `read` moves, and which calls fail.
pub mod RoundTrip
pub mod Status
pub mod Tests
use local_server_c.Base.{
  ℕ, zero, suc, ◌+◌, ◌-◌, ◌*◌, ◌%◌, ◌&&◌, Option, none, some, Bool, true, false, not, List, [], ◌∷◌,
  ◌++◌, ◌==◌, ltb, if◌then◌else◌, length, take, drop, min, ℤ, pos, negsuc, ltb_ℤ, eqb_ℤ,
}
use local_server_c.Base.Text.{c_str, strlen, fit}

abbrev pub pipe_error : ℤ
pipe_error = negsuc 4

abbrev pub proc_error : ℤ
proc_error = negsuc 6

abbrev pub memory_error : ℤ
memory_error = negsuc 5

abbrev pub sig_error : ℤ
sig_error = negsuc 7

-- `exit_sig`: the code with which a child ends on a signal (is it SIGALRM?).
abbrev pub exit_sig : Bool → ℤ
exit_sig alarm_signal = if alarm_signal then pos 1 else sig_error

-- `struct response`.
pub record Message : Type 0 where
  pub size : ℕ
  pub msg : List ℕ

-- `max_size`; `none` is a negative one.
abbrev pub Limit : Type 0
Limit = Option ℕ

-- The size of the response: the string with its NUL, or the limit if it is less.
unfoldable pub response_size : List ℕ → Limit → ℕ
unfolding strlen
response_size msg none = strlen msg + 1
response_size msg (some max) = if ltb (strlen msg + 1) max then strlen msg + 1 else max

abbrev pub may_write : Limit → ℕ → Bool
may_write none total = true
may_write (some max) total = ltb total max

-- How a `write` of the child ends: an error, the alarm, or a number of bytes moved (at most those that
-- are left).
pub data Write : Type 0 where
  write_fails alarm : Write
  moved : ℕ → Write

-- The loop of `send_response` on fuel: the exit code so far, and the bytes that are in the pipe.
module _ (writes : ℕ → Write) (max : Limit) where
  unfoldable pub write_loop : ℕ → ℕ → ℕ → List ℕ → List ℕ → Option (ℤ × List ℕ)
  write_loop zero i total rest out = none
  write_loop (suc n) i total rest out = elim (may_write max total) [
    | false ↦ some (pos 0, out)
    | true ↦ elim (writes i) [
      | write_fails ↦ some (pipe_error, out)
      | alarm ↦ some (exit_sig true, out)
      | moved k ↦ elim (min k (length rest)) [
        | zero ↦ some (pos 0, out)
        | suc j ↦
            write_loop n (suc i) (total + suc j) (drop (suc j) rest) (out ++ take (suc j) rest)
      ]
    ]
  ]

-- What `wait` stores for a child that calls `exit` with a code.
unfoldable pub exit_status : ℤ → ℤ
exit_status (pos n) = pos (n % 256 * 256)
exit_status (negsuc n) = pos ((255 - n % 256) * 256)

-- The parent's branch on the status.
unfoldable pub wait_result : ℤ → ℤ
wait_result r = if ltb_ℤ r (pos 0) then r else if ltb_ℤ (pos 0) r then pos 0 else pos 1

-- What the system answers to `send_response`; `alarm_rings` is the end of the time limit while the
-- child waits for a reader.
pub record SendEnv : Type 0 where
  pub allocated : Bool
  pub forked : Bool
  pub mask_filled : Bool
  pub action_set : Bool
  pub alarm_rings : Bool
  pub opened : Bool
  pub header_written : Bool
  pub writes : ℕ → Write
  pub closed : Bool

-- The child of `send_response`: its exit code and what it leaves in the pipe.
unfoldable pub send_child : ℕ → SendEnv → Message → Limit → Option (ℤ × Option Message)
unfolding write_loop
send_child fuel env res max =
    if not env.mask_filled
    then some (sig_error, none)
    else if not env.action_set
    then some (sig_error, none)
    else if env.alarm_rings
    then some (exit_sig true, none)
    else if not env.opened
    then some (pipe_error, none)
    else if not env.header_written
    then some (pipe_error, none)
    else elim (write_loop env.writes max fuel 0 0 res.msg []) [
      | none ↦ none
      | some (code, out) ↦ some (
        if eqb_ℤ code (pos 0) && not env.closed then pipe_error else code,
        some (record { size = res.size; msg = out }),
      )
    ]

-- `send_response` to a path and of a message that are not NULL.
unfoldable pub send_response : ℕ → SendEnv → List ℕ → Limit → Option (ℤ × Option Message)
unfolding send_child response_size
send_response fuel env msg max =
    let size = response_size msg max in
    let res : Message = record { size = size; msg = take size (c_str msg ++ 0 ∷ []) } in
    if not env.allocated
    then some (memory_error, none)
    else if not env.forked
    then some (proc_error, none)
    else elim (send_child fuel env res max) [
      | none ↦ none
      | some (code, pipe) ↦ some (wait_result (exit_status code), pipe)
    ]

-- What the system answers to `listen_response`: each `select` (`none` fails, `some false` times out),
-- and how many bytes each `read` gives at most.
pub record ListenEnv : Type 0 where
  pub opened : Bool
  pub first_select : Option Bool
  pub header_read : Bool
  pub allocated : Bool
  pub selects : ℕ → Option Bool
  pub reads : ℕ → Option ℕ
  pub buffer_allocated : Bool
  pub closed : Bool

-- The loop of `listen_response` on fuel: a result that ends the call, or the bytes that were read. At
-- the end of the pipe `read` gives 0 bytes.
module _ (env : ListenEnv) (size : ℕ) where
  unfoldable pub read_loop : ℕ → ℕ → ℕ → List ℕ → List ℕ → Option (ℤ × List ℕ)
  read_loop zero i total rest got = none
  read_loop (suc n) i total rest got = elim (ltb total size) [
    | false ↦ some (pos 1, got)
    | true ↦ elim (env.selects i) [
      | none ↦ some (pipe_error, got)
      | some ready ↦ elim ready [
        | false ↦ some (pos 0, got)
        | true ↦ elim (env.reads i) [
          | none ↦ some (pipe_error, got)
          | some k ↦
              let j = min k (min (length rest) (size - total)) in
              read_loop n (suc i) (total + j) (drop j rest) (got ++ take j rest)
        ]
      ]
    ]
  ]

-- How `listen_response` ends: with a result and the bytes of the buffer, with a size that nothing has
-- set, or still in its loop.
pub data Heard : Type 0 where
  heard : ℤ → List ℕ → Heard
  undefined : Heard
  running : Heard

-- `listen_response` after its loop.
unfoldable pub give_buffer : ListenEnv → ℕ → List ℕ → Heard
give_buffer env size got =
    if not env.buffer_allocated
    then heard memory_error []
    else heard (if env.closed then pos 1 else pipe_error) (fit size (c_str got))

-- `listen_response` from a pipe that holds a response, or nothing (its writer is gone).
unfoldable pub listen_response : ℕ → ListenEnv → Option Message → Heard
unfolding read_loop give_buffer
listen_response fuel env pipe =
    if not env.opened then heard pipe_error [] else elim env.first_select [
      | none ↦ heard pipe_error []
      | some ready ↦
          if not ready
          then heard (pos 0) []
          else if not env.header_read
          then heard pipe_error []
          else elim pipe [
            | none ↦ undefined
            | some res ↦
                if not env.allocated
                then heard memory_error []
                else elim (read_loop env res.size fuel 0 0 res.msg []) [
                  | none ↦ running
                  | some (r, got) ↦
                      if eqb_ℤ r (pos 1) then give_buffer env res.size got else heard r []
                ]
          ]
    ]
