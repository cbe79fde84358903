-- ===== src/Conversation/Whole.antt =====
-- client.c and server.c together: from what the user types to what the server answers.
use local_server_c.Base.{
  ℕ, suc, pos, Option, ◌+◌, ◌-◌, ◌≤◌, ◌≡◌, refl, List, [], ◌∷◌, ◌++◌, ◌==◌, ◌||◌, inl, inr,
  Bool-cases, map, length, length-append, length-take, All, arith,
}
use local_server_c.Base.Text.{length-c_str_le, c_str, strlen, NulFree, NulFree-take, NulFree-c_str}
use local_server_c.Request
use local_server_c.Request.RoundTrip.{Hears}
use local_server_c.Queue.{ServerQueue}
use local_server_c.Queue.Life.{World}
use local_server_c.Client.{typed_from, typed}
use local_server_c.Client.Requests.{requests, cut, is_exit, known, has_exit, commands_of, Answered}
use local_server_c.Client.Life.{exits, MainEnv, main}
use local_server_c.Client.Starting.{Asks, Cleans, Starts, restored}
use local_server_c.Client.Ending.{main-commands}
use local_server_c.Server.Session.{notice, goodbye, removes, Round}
use local_server_c.Conversation.{Runs, Sendable, serve_all, texts_of, responses, serve_all-commands}

-- `fgets` stores at most 255 bytes.
typed-short :
    (room : ℕ) (line input : List ℕ)
    → room + length line ≤ 254
    → All (λ l. length l ≤ 255) (typed_from room line input)
unfolding typed_from
typed-short room [] [] h = tt
typed-short room (b ∷ line) [] h = (omega arith, tt)
typed-short room line (c ∷ input) h =
    let size = length-append line (c ∷ []) in
    elim (Bool-cases (c == 10 || room == 0)) [
      | inl e ↦ simp e (omega (arith, size), typed-short 254 [] input (omega arith))
      | inr e ↦
          let more : 1 ≤ room = ground arith in
          simp e (typed-short (room - 1) (line ++ c ∷ []) input (omega (arith, size)))
    ]

length-cut_le : (line : List ℕ) → length (cut line) ≤ length line
length-cut_le line = omega (arith, length-take (strlen line - 1) (c_str line), length-c_str_le line)

cut-NulFree : (line : List ℕ) → NulFree (cut line)
cut-NulFree line = NulFree-take (strlen line - 1) (c_str line) (NulFree-c_str line)

commands_of-Sendable :
    (lines : List (List ℕ)) → All (λ l. length l ≤ 255) lines → All Sendable (commands_of lines)
commands_of-Sendable [] h = tt
commands_of-Sendable (line ∷ lines) (short, rest) = elim (Bool-cases (is_exit (cut line))) [
  | inl last ↦ simp last tt
  | inr other ↦ elim (Bool-cases (known (cut line))) [
    | inl k ↦
        simp (other, k)
          (
            (cut-NulFree line, (omega (arith, length-cut_le line), refl)),
            commands_of-Sendable lines rest,
          )
    | inr u ↦ simp (other, u) (commands_of-Sendable lines rest)
  ]
]

-- When every call of both programs works, every request is answered and the user types no NUL byte,
-- the thread of the server runs, whole and in order, the commands that the user types before `exit`;
-- it answers each with its output and ends with the goodbye for the `exit` that the client sends
-- last, typed or not. The client ends with EXIT_SUCCESS exactly when `exit` was typed, and leaves
-- the memory, the descriptors and the pipes as they were, but for its request in the queue.
pub main-serve_all :
    (env : MainEnv) (input : List ℕ) (w : World)
    → Starts env w
    → (object : Option ServerQueue) → Asks env w object
    → Cleans env.clean env.config
    → NulFree input
    → (answers : ℕ → List ℕ) → ((i : ℕ) → Answered env.fuel (env.exchanges i) (answers i))
    → (fuel capacity : ℕ) (rounds : ℕ → Round) → ((i : ℕ) → Runs fuel capacity (rounds i))
    → ((i : ℕ) → (n : ℕ) × ((rounds i).sent ((rounds i).output ++ 0 ∷ []) ≡ pos (suc n)))
    → (l : Request.ListenEnv) (memory : List ℕ) → Hears l
    → let (acts, end) = main env input w in
      (texts_of fuel capacity rounds l memory (requests acts) ≡ commands_of (typed input))
      × (serve_all fuel capacity rounds l memory (requests acts) ≡ (
        responses fuel capacity rounds 0 (commands_of (typed input)) ++ notice goodbye ∷ [],
        removes,
      ))
      × (end ≡ exits (has_exit (map cut (typed input))) (restored (record w { object = object })))
unfolding typed
main-serve_all env input w starts object asked c text answers answered fuel capacity rounds runs
      received l memory hears =
    let cs = commands_of (typed input) in
    let sent = main-commands env input w starts object asked c text answers answered in
    let sendable = commands_of-Sendable (typed input) (typed-short 254 [] input (omega arith)) in
    let (ran, answered') =
      serve_all-commands fuel capacity rounds runs received l memory cs hears sendable in
    rw (sent.0) (ran, answered', sent.1)
