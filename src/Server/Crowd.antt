-- ===== src/Server/Crowd.antt =====
-- server.c: the list of clients while threads come and go (allocate_request_ressources as it is called
-- for each request, and the end of handle_request).
use local_server_c.Base.{
  ℕ, Option, none, some, Bool, true, List, [], ◌∷◌, ◌++◌, get_elem?, remove_at, ℤ, pos,
}
use local_server_c.Queue.{ShmRequest}
use local_server_c.LinkedList.Memory.{Ptr, Heap, Run}
use local_server_c.LinkedList.{AddEnv}
use local_server_c.Server.{allocate_request_ressources, remove_client}

-- The heap, and the request that each running thread works on.
pub record Crowd : Type 0 where
  pub heap : Heap ShmRequest
  pub threads : List Ptr

-- A request comes from the queue, or the thread of an index ends.
pub data Event : Type 0 where
  arrives : AddEnv → ShmRequest → Event
  departs : ℕ → Event

-- `allocate_request_ressources` where its thread is made, for the list at `p`; `none` where it does not
-- return with a thread.
unfoldable pub arrive : Ptr → AddEnv → ShmRequest → Crowd → Option Crowd
arrive p env request c = elim (allocate_request_ressources env true true p request c.heap) [
  | Run.ok r heap ↦ elim r.1 [
    | none ↦ none
    | some thread ↦ some (record { heap = heap; threads = c.threads ++ thread ∷ [] })
  ]
  | Run.blocked heap ↦ none
  | Run.fault ↦ none
  | Run.out_of_fuel ↦ none
]

-- `allocate_request_ressources` as the argument of `fetch_shm_request`, over the list at `p` and the
-- threads; `none` is a call that does not return.
unfoldable pub admit : Ptr → AddEnv → Bool → Bool → ShmRequest → Option Crowd → ℤ × Option Crowd
admit p env created detached request none = (pos 0, none)
admit p env created detached request (some c) =
    elim (allocate_request_ressources env created detached p request c.heap) [
      | Run.ok r heap ↦ elim r.1 [
        | none ↦ (r.0, some (record c { heap = heap }))
        | some thread ↦ (r.0, some (record { heap = heap; threads = c.threads ++ thread ∷ [] }))
      ]
      | Run.blocked heap ↦ (pos 0, none)
      | Run.fault ↦ (pos 0, none)
      | Run.out_of_fuel ↦ (pos 0, none)
    ]

-- The end of a thread.
unfoldable pub depart : Ptr → ℕ → Crowd → Option Crowd
depart p i c = elim (get_elem? c.threads i) [
  | none ↦ none
  | some thread ↦ elim (remove_client true true p thread c.heap) [
    | Run.ok r heap ↦ some (record { heap = heap; threads = remove_at i c.threads })
    | Run.blocked heap ↦ none
    | Run.fault ↦ none
    | Run.out_of_fuel ↦ none
  ]
]

unfoldable pub happen : Ptr → Event → Crowd → Option Crowd
unfolding arrive depart
happen p (arrives env request) c = arrive p env request c
happen p (departs i) c = depart p i c

-- A history of the server.
unfoldable pub history : Ptr → List Event → Crowd → Option Crowd
unfolding happen
history p [] c = some c
history p (e ∷ es) c = elim (happen p e c) [ none ↦ none | some c' ↦ history p es c' ]
