-- ===== src/Queue/Life/Tests.antt =====
-- The theorems on the life of the shared memory, with four slots.
use local_server_c.Base.{◌+◌, ◌≡◌, refl, none, some, true, false, pos, inl, arith}
use local_server_c.Queue.{returned}
use local_server_c.Queue.System.{fresh_queue}
use local_server_c.Queue.Life.{
  World, InitEnv, init_server_queue, ConnectEnv, connect, disconnect, FreeEnv, free_server_queue,
}
use local_server_c.Queue.Life.Cycle.{init_server_queue-connect, init_server_queue-stuck}

abbrev start : World
start = record { object = none; descriptors = 3; mappings = 0 }

abbrev init_works : InitEnv
init_works = record {
  shm_fd = 5;
  shm_opened = true;
  truncated = true;
  mapped = true;
  mutex_set = true;
  empty_set = true;
  full_set = true;
  closed = true;
  unlinked = true;
}

abbrev connect_works : ConnectEnv
connect_works = record {
  shm_opened = true;
  first_mapped = true;
  unmapped = true;
  mapped = true;
  closed = true;
}

abbrev free_works : FreeEnv
free_works = record { waited = true; closed = true; unmapped = true; unlinked = true }

init_server_queue-connect_example :
    (server' : World) × (init_server_queue init_works 4 start ≡ (some (fresh_queue 5 4), server'))
    × (let joined = record start { object = server'.object; mappings = 0 + 1 } in
        (connect connect_works (record start { object = server'.object })
          ≡ (some (fresh_queue 5 4), joined))
        × (disconnect true joined ≡ (pos 1, record start { object = server'.object })))
    × (free_server_queue free_works (fresh_queue 5 4) server' ≡ returned (pos 1) start)
init_server_queue-connect_example =
    init_server_queue-connect init_works connect_works free_works 4 start start
      (
        (refl, refl, refl, refl, refl, refl),
        (refl, refl, refl, refl, refl),
        (refl, refl, refl, refl),
      )
      (omega arith) refl

abbrev init_fails : InitEnv
init_fails = record init_works { mutex_set = false }

init_server_queue-stuck_example :
    let later = record start { object = (init_server_queue init_fails 4 start).1.object } in
    ((init_server_queue init_fails 4 start).0 ≡ none)
    × (init_server_queue init_works 8 later ≡ (none, later))
init_server_queue-stuck_example =
    init_server_queue-stuck init_fails init_works 4 8 start
      (record start { object = (init_server_queue init_fails 4 start).1.object }) refl refl refl
      refl (inl refl) refl
