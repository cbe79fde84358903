-- ===== src/Request.antt =====
-- libs/connection/connection.c: the request pipe (init_request_fifo, send_request, listen_request,
-- close_request_fifo), and init_response_fifo and close_response_fifo. What the system answers is an
-- argument.
pub mod RoundTrip
mod Tests
use local_server_c.Base.{
  ℕ, ◌+◌, Option, none, some, Bool, true, false, not, List, [], ◌∷◌, ◌++◌, if◌then◌else◌, length,
  drop, replicate, ℤ, pos, negsuc,
}
use local_server_c.Base.Text.{c_str, strncpy}
use local_server_c.Queue.{name_max, invalid_pointer}
use local_server_c.Response.{sig_error, exit_sig, pipe_error, proc_error, exit_status, wait_result}

abbrev pub max_command_length : ℕ
max_command_length = 256

-- `struct request_fifo` and `struct response_fifo`.
pub record Fifo : Type 0 where
  pub id : List ℕ

-- What a call that makes a pipe leaves: the structure it returns, or NULL and perhaps memory that
-- nobody frees.
pub data Made : Type 0 where
  made : Fifo → Made
  not_made : (leaked : Bool) → Made

-- `init_request_fifo`: `malloc` gives the 256 bytes of `id` (or NULL), and `mkfifo` succeeds or not.
unfoldable pub init_request_fifo : Option (List ℕ) → Bool → List ℕ → Made
init_request_fifo none fifo_made id = not_made false
init_request_fifo (some memory) fifo_made id =
    if fifo_made then made (record { id = strncpy memory id name_max }) else not_made true

-- `init_response_fifo`.
unfoldable pub init_response_fifo : Option (List ℕ) → Bool → List ℕ → Made
init_response_fifo none fifo_made id = not_made false
init_response_fifo (some memory) fifo_made id =
    if fifo_made then made (record { id = strncpy memory id name_max }) else not_made true

-- `close_request_fifo`, where `unlink` succeeds or not: the result, and is the structure freed?
unfoldable pub close_request_fifo : Bool → ℤ × Bool
close_request_fifo unlinked = if unlinked then (pos 1, true) else (pipe_error, false)

-- `close_response_fifo`.
unfoldable pub close_response_fifo : Bool → ℤ × Bool
close_response_fifo unlinked = if unlinked then (pos 1, true) else (pipe_error, false)

-- What the system answers to `send_request`. `alarm_rings` is the end of the time limit while the
-- child waits for a reader; `later_exit` is the code with which a child that returns to the caller
-- ends in the end.
pub record SendEnv : Type 0 where
  pub forked : Bool
  pub mask_filled : Bool
  pub action_set : Bool
  pub alarm_rings : Bool
  pub opened : Bool
  pub written : Bool
  pub closed : Bool
  pub later_exit : ℤ

-- How the child leaves `send_request`: by `exit`, or by `return` into the caller.
pub data Child : Type 0 where
  exits : ℤ → Child
  returns : ℤ → Child

-- The bytes of `struct request` for a command: zeroed, then the command cut to its length.
unfoldable pub request_bytes : List ℕ → List ℕ
request_bytes cmd = strncpy (replicate (max_command_length + 1) 0) cmd max_command_length

-- The branch of the child, and what it leaves in the pipe.
unfoldable pub send_child : SendEnv → List ℕ → Child × Option (List ℕ)
unfolding request_bytes
send_child env cmd =
    if not env.mask_filled
    then (exits sig_error, none)
    else if not env.action_set
    then (exits sig_error, none)
    else if env.alarm_rings
    then (exits (exit_sig true), none)
    else if not env.opened
    then (returns pipe_error, none)
    else if not env.written
    then (returns pipe_error, none)
    else if not env.closed
    then (returns pipe_error, some (request_bytes cmd))
    else (exits (pos 0), some (request_bytes cmd))

-- A call seen from outside: what the process that made it gets, what a second process gets that goes
-- on in the caller as well, and what is in the pipe.
pub record Sent : Type 0 where
  pub parent : ℤ
  pub second : Option ℤ
  pub pipe : Option (List ℕ)

-- The status of the child, as the parent waits for it.
unfoldable pub after_child : SendEnv → Child → Option (List ℕ) → Sent
after_child env (exits code) pipe = record {
  parent = wait_result (exit_status code);
  second = none;
  pipe = pipe;
}
after_child env (returns r) pipe = record {
  parent = wait_result (exit_status env.later_exit);
  second = some r;
  pipe = pipe;
}

-- `send_request`.
unfoldable pub send_request : SendEnv → Option Fifo → Option (List ℕ) → Sent
unfolding send_child after_child
send_request env none cmd = record { parent = invalid_pointer; second = none; pipe = none }
send_request env (some fifo) none = record { parent = invalid_pointer; second = none; pipe = none }
send_request env (some fifo) (some cmd) =
    if not env.forked
    then record { parent = proc_error; second = none; pipe = none }
    else (let (child, pipe) = send_child env cmd in after_child env child pipe)

-- What the system answers to `listen_request`; `memory` is what the local structure holds.
pub record ListenEnv : Type 0 where
  pub opened : Bool
  pub read_works : Bool
  pub closed : Bool
  pub memory : List ℕ

-- The structure after `read`: the bytes of the pipe, none where its writer has left nothing.
unfoldable pub received : List ℕ → Option (List ℕ) → List ℕ
received memory none = memory
received memory (some bytes) = bytes ++ drop (length bytes) memory

-- `listen_request` of a name that is not NULL: the result and the buffer.
unfoldable pub listen_request : ListenEnv → Option (List ℕ) → List ℕ → ℤ × List ℕ
unfolding received
listen_request env pipe buffer =
    if not env.opened
    then (pipe_error, buffer)
    else if not env.read_works
    then (pipe_error, buffer)
    else (
      if env.closed then pos 1 else pipe_error,
      strncpy buffer (received env.memory pipe) (max_command_length + 1),
    )
