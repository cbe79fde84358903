-- ===== src/Queue/Life/Cycle.antt =====
-- From the making of the shared memory to its removal, and what a failed start leaves.
use local_server_c.Base.{ℕ, ◌+◌, ◌^◌, ◌<◌, ◌≡◌, ◌⊎◌, none, some, true, false, pos, arith}
use local_server_c.Queue.{returned}
use local_server_c.Queue.System.{fresh_queue}
use local_server_c.Queue.Life.{
  World, InitEnv, init_server_queue, ConnectEnv, connect, disconnect, FreeEnv, free_server_queue,
}

abbrev pub IsSound : InitEnv → ConnectEnv → FreeEnv → Type 0
IsSound i c f =
    ((i.shm_opened ≡ true)
      × (i.truncated ≡ true)
      × (i.mapped ≡ true)
      × (i.mutex_set ≡ true)
      × (i.empty_set ≡ true)
      × (i.full_set ≡ true))
    × ((c.shm_opened ≡ true)
        × (c.first_mapped ≡ true)
        × (c.unmapped ≡ true)
        × (c.mapped ≡ true)
        × (c.closed ≡ true))
    × ((f.waited ≡ true) × (f.closed ≡ true) × (f.unmapped ≡ true) × (f.unlinked ≡ true))

-- When no call fails, the name is free and there are fewer than 2 ^ 32 slots, `init_server_queue`
-- makes a fresh queue; a client's `connect` finds the same queue with one mapping more and no
-- descriptor more, which `disconnect` takes back; and `free_server_queue` returns 1 and leaves the
-- server as it was before, the name free again.
pub init_server_queue-connect :
    (i : InitEnv) (c : ConnectEnv) (f : FreeEnv) (max_slot : ℕ) (server client : World)
    → IsSound i c f
    → max_slot < 2 ^ 32
    → server.object ≡ none
    → (server' : World) × (init_server_queue i max_slot server
        ≡ (some (fresh_queue i.shm_fd max_slot), server'))
      × (let joined = record client { object = server'.object; mappings = client.mappings + 1 } in
          (connect c (record client { object = server'.object })
            ≡ (some (fresh_queue i.shm_fd max_slot), joined))
          × (disconnect true joined ≡ (pos 1, record client { object = server'.object })))
      × (free_server_queue f (fresh_queue i.shm_fd max_slot) server' ≡ returned (pos 1) server)
unfolding init_server_queue connect disconnect free_server_queue
init_server_queue-connect i c f max_slot server client
      ((i1, i2, i3, i4, i5, i6), (c1, c2, c3, c4, c5), (f1, f2, f3, f4)) small free =
    (
      record {
        object = some (fresh_queue i.shm_fd max_slot);
        descriptors = server.descriptors + 1;
        mappings = server.mappings + 1;
      },
      ground arith,
      (ground arith, ground arith),
      ground arith,
    )

-- When `sem_init` fails, `init_server_queue` returns NULL and leaves the object under its name: every
-- later `init_server_queue` on what is left of that name returns NULL, whatever the system answers.
pub init_server_queue-stuck :
    (i j : InitEnv) (max_slot later_slot : ℕ) (w later : World)
    → w.object ≡ none
    → i.shm_opened ≡ true
    → i.truncated ≡ true
    → i.mapped ≡ true
    → (i.mutex_set ≡ false) ⊎ ((i.empty_set ≡ false) ⊎ (i.full_set ≡ false))
    → later.object ≡ (init_server_queue i max_slot w).1.object
    → ((init_server_queue i max_slot w).0 ≡ none)
      × (init_server_queue j later_slot later ≡ (none, later))
unfolding init_server_queue
init_server_queue-stuck i j max_slot later_slot w later free i1 i2 i3 fails left = ground arith
