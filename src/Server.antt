-- ===== src/Server.antt =====
-- server.c: the list of clients (allocate_request_ressources, the removal at the end of
-- handle_request, request_cmp, free_online_clients).
pub mod Session
pub mod Life
pub mod Crowd
pub mod Settings
mod Loading
mod Configuration
mod Clients
mod Population
mod Admission
mod Serving
mod Starting
pub mod Answers
mod Shutdown
pub mod Tests
mod StartTests
use local_server_c.Base.{
  ℕ, Option, none, some, Bool, true, false, not, ◌==◌, ltb, List, [], ◌∷◌, ◌++◌, if◌then◌else◌, ℤ,
  pos, negsuc, ltb_ℤ,
}
use local_server_c.Queue.{ShmRequest}
use local_server_c.LinkedList.Memory.{Ptr, null, Cmd, pure, ◌>>=◌, ◌>>◌, load_value}
use local_server_c.LinkedList.{AddEnv, list_add, list_remove}

abbrev pub not_enough_memory : ℤ
not_enough_memory = negsuc 0

abbrev pub thread_error : ℤ
thread_error = negsuc 1

-- `request_cmp`.
unfoldable pub request_cmp : ShmRequest → ShmRequest → ℤ
request_cmp a b = if ltb b.pid a.pid then pos 1 else if a.pid == b.pid then pos 0 else negsuc 0

-- `free_online_clients`, where `kill` says whether the signal to a process can be sent; `called` are the
-- processes of the calls of `kill`, in their order.
unfoldable pub free_online_clients : (ℕ → Bool) → ShmRequest → ℤ → List ℕ → ℤ × List ℕ
free_online_clients kill req acc called = (
  if kill req.pid then if ltb_ℤ acc (pos 0) then negsuc 0 else pos 1 else negsuc 0,
  called ++ req.pid ∷ [],
)

-- `allocate_request_ressources`, where `pthread_create` and `pthread_detach` succeed or not: the
-- result, and the request that a new thread works on.
unfoldable pub allocate_request_ressources :
    AddEnv → Bool → Bool → Ptr → ShmRequest → Cmd ShmRequest (ℤ × Option Ptr)
allocate_request_ressources env created detached client_list request = do
  r ← list_add env client_list (some request)
  pure (
      if r == null
      then (not_enough_memory, none)
      else if not created
      then (thread_error, none)
      else if not detached
      then (thread_error, some r)
      else (pos 1, some r))

-- The label `remove` of `handle_request`, on the thread's request.
unfoldable pub remove_client : Bool → Bool → Ptr → Ptr → Cmd ShmRequest ℤ
remove_client wait_ok post_ok client_list req = do
  elem ← load_value req
  r ← list_remove request_cmp wait_ok post_ok client_list (some elem)
  if ltb_ℤ (pos 0) r then pure r else (do named ← load_value req; pure r)
