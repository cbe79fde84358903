-- ===== src/Conversation.antt =====
-- client.c and server.c together: what the client leaves in its request pipe is what the thread of the
-- server (handle_request) reads, one request at the end of each round.
mod Whole
mod Pipe
mod Delivery
mod Tests
use local_server_c.Base.{
  ℕ, zero, suc, ◌+◌, ◌-◌, ◌*◌, ◌≤◌, ◌<◌, ◌≡◌, ◌≢◌, refl, sym, ap, ap₂, ◌∙◌, Option, none, some,
  Bool, true, false, List, [], ◌∷◌, ◌++◌, ◌==◌, ◌||◌, inl, inr, Bool-cases, map, take, length, All,
  pos, ltb_ℤ, arith,
}
use mathlib.Core.Path.{subst}
use local_server_c.Base.Text.{
  codes, c_str, same_text, strlen, same_text_refl, NulFree, strlen-NulFree,
}
use local_server_c.Request
use local_server_c.Request.{request_bytes, listen_request}
use local_server_c.Request.RoundTrip.{Hears, Hears-command}
use local_server_c.Client.Requests.{is_exit, in_pipe}
use local_server_c.Server.Session.{
  Act, response, notice, goodbye, End, removes, waits, in_parent, Round, wait_returns, session,
  handle_request,
}
use local_server_c.Server.Answers.{next_buffer, Works, Serves, session-answers}

-- Every call of a round works, `send_response` aside.
pub record Runs (fuel capacity : ℕ) (r : Round) : Type 0 where
  pub sizes : ℕ → ℕ
  pub made : r.tube_made ≡ true
  pub parent : r.forked ≡ in_parent
  pub write_end : r.write_closed ≡ true
  pub read_end : r.read_closed ≡ true
  pub ends : wait_returns capacity r ≡ true
  pub grows : (i : ℕ) → r.reallocs i ≡ true
  pub moves : (i : ℕ) → r.reads i ≡ some (suc (sizes i))
  pub hears : Hears r.listen
  pub enough : length r.output < fuel

-- A command that goes through the pipe whole.
abbrev pub Sendable : List ℕ → Type 0
Sendable c = NulFree c × ((length c ≤ 256) × (is_exit c ≡ false))

exit-NulFree : NulFree (codes "exit")
unfolding strlen c_str
exit-NulFree = strlen-NulFree (codes "exit") refl

-- The request after a command, of those that are left: `exit` comes last.
abbrev next_command : List (List ℕ) → List ℕ
next_command [] = codes "exit"
next_command (c ∷ cs) = c

-- The text that a round runs, for each round.
abbrev pub texts : List Round → List ℕ → List (List ℕ)
texts [] buffer = []
texts (r ∷ rs) buffer = c_str buffer ∷ texts rs (next_buffer r buffer)

module _ (fuel capacity : ℕ) (env : ℕ → Round) where
  -- The rounds that read these requests at their ends.
  abbrev pub rounds_of : ℕ → List (Option (List ℕ)) → List Round
  rounds_of i [] = []
  rounds_of i (p ∷ ps) = record (env i) { requests = p } ∷ rounds_of (suc i) ps

  -- `handle_request` on the requests of a client.
  abbrev pub serve_all : Request.ListenEnv → List ℕ → List (Option (List ℕ)) → List Act × End
  serve_all l memory [] = ([], waits)
  serve_all l memory (p ∷ ps) = handle_request fuel capacity l p memory (rounds_of 0 ps)

  -- The texts that it runs.
  abbrev pub texts_of : Request.ListenEnv → List ℕ → List (Option (List ℕ)) → List (List ℕ)
  texts_of l memory [] = []
  texts_of l memory (p ∷ ps) = texts (rounds_of 0 ps) (listen_request l p memory).1

  -- The responses to a list of commands.
  abbrev pub responses : ℕ → List (List ℕ) → List Act
  responses i [] = []
  responses i (c ∷ cs) = response ((env i).output ++ 0 ∷ []) ∷ responses (suc i) cs

  -- A round for each command.
  abbrev rounds_for : ℕ → List (List ℕ) → List Round
  rounds_for i [] = []
  rounds_for i (c ∷ cs) =
      record (env i) { requests = some (request_bytes (next_command cs)) } ∷ rounds_for (suc i) cs

  rounds_of-rounds_for :
      (c : List ℕ) (cs : List (List ℕ)) (i : ℕ)
      → rounds_of i (in_pipe (cs ++ codes "exit" ∷ [])) ≡ rounds_for i (c ∷ cs)
  rounds_of-rounds_for c [] i = refl
  rounds_of-rounds_for c (d ∷ cs) i =
      ap (λ rs. record (env i) { requests = some (request_bytes d) } ∷ rs)
        (rounds_of-rounds_for d cs (suc i))

  responses-rounds_for :
      (cs : List (List ℕ)) (i : ℕ)
      → map (λ r. response (r.output ++ 0 ∷ [])) (rounds_for i cs) ≡ responses i cs
  responses-rounds_for [] i = refl
  responses-rounds_for (c ∷ cs) i =
      ap (λ as'. response ((env i).output ++ 0 ∷ []) ∷ as') (responses-rounds_for cs (suc i))

  module _ (runs : (i : ℕ) → Runs fuel capacity (env i))
      (received : (i : ℕ) → (n : ℕ) × ((env i).sent ((env i).output ++ 0 ∷ []) ≡ pos (suc n))) where
    -- A round whose next request is `c`.
    next_buffer-text :
        (i : ℕ) (c buffer : List ℕ)
        → NulFree c
        → length c ≤ 256
        → let r = record (env i) { requests = some (request_bytes c) } in
          Works capacity r buffer × (c_str (next_buffer r buffer) ≡ c)
    unfolding wait_returns
    next_buffer-text i c buffer free short =
        let w = runs i in
        let (b, heard, text) = Hears-command (env i).listen w.hears c buffer free short in
        (
          record {
            sizes = w.sizes;
            made = w.made;
            parent = w.parent;
            write_end = w.write_end;
            read_end = w.read_end;
            ends = w.ends;
            grows = w.grows;
            moves = w.moves;
            received = received i;
            heard = ap (λ x. ltb_ℤ x.0 (pos 0)) heard;
          },
          ap (λ x. c_str x.1) heard ∙ text,
        )

    next_command-Sendable :
        (cs : List (List ℕ))
        → All Sendable cs
        → NulFree (next_command cs) × (length (next_command cs) ≤ 256)
    next_command-Sendable [] h = (exit-NulFree, omega arith)
    next_command-Sendable (c ∷ cs) ((free, (short, other)), rest) = (free, short)

    Serves-commands :
        (cs : List (List ℕ))
        → All Sendable cs
        → (i : ℕ) (buffer : List ℕ) → c_str buffer ≡ next_command cs
        → Serves fuel capacity (rounds_for i cs) buffer × (texts (rounds_for i cs) buffer ≡ cs)
    Serves-commands [] h i buffer text =
        (ap (λ t. same_text t (codes "exit")) text ∙ same_text_refl (codes "exit"), refl)
    Serves-commands (c ∷ cs) ((free, (short, other)), rest) i buffer text =
        let (nfree, nshort) = next_command-Sendable cs rest in
        let (works, next) = next_buffer-text i (next_command cs) buffer nfree nshort in
        let r = record (env i) { requests = some (request_bytes (next_command cs)) } in
        let (later, same) = Serves-commands cs rest (suc i) (next_buffer r buffer) next in
        (
          (ap (λ t. same_text t (codes "exit")) text ∙ other, works, (runs i).enough, later),
          ap₂ (◌∷◌) text same,
        )

    started :
        (l : Request.ListenEnv) (memory : List ℕ) (cs : List (List ℕ))
        → Hears l
        → All Sendable cs
        → (rs : List Round) → rs ≡ rounds_for 0 cs
        → let p = some (request_bytes (next_command cs)) in
          (texts rs (listen_request l p memory).1 ≡ cs)
          × (handle_request fuel capacity l p memory rs
              ≡ (responses 0 cs ++ notice goodbye ∷ [], removes))
    unfolding handle_request
    started l memory cs hears h rs e =
        let (free, short) = next_command-Sendable cs h in
        let (b, heard, text) = Hears-command l hears (next_command cs) memory free short in
        let (serves, same) = Serves-commands cs h 0 b text in
        let answers = session-answers fuel capacity (rounds_for 0 cs) b serves in
        rw e (
          ap (λ x. texts (rounds_for 0 cs) x.1) heard ∙ same,
          simp (heard, handle_request)
              (answers
                ∙ ap (λ as'. (as' ++ notice goodbye ∷ [], removes)) (responses-rounds_for cs 0)),
        )

    -- When every call works, the thread of the server runs the commands that a client sends before
    -- `exit`, each whole and in order, and answers each with its output, then with the goodbye.
    pub serve_all-commands :
        (l : Request.ListenEnv) (memory : List ℕ) (cs : List (List ℕ))
        → Hears l
        → All Sendable cs
        → let sent = in_pipe (cs ++ codes "exit" ∷ []) in
          (texts_of l memory sent ≡ cs)
          × (serve_all l memory sent ≡ (responses 0 cs ++ notice goodbye ∷ [], removes))
    serve_all-commands l memory [] hears h = started l memory [] hears h [] refl
    serve_all-commands l memory (c ∷ cs) hears h =
        started l memory (c ∷ cs) hears h (rounds_of 0 (in_pipe (cs ++ codes "exit" ∷ [])))
          (rounds_of-rounds_for c cs 0)
