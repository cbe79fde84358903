-- ===== src/Conversation/Delivery.antt =====
-- client.c and server.c together, with the response pipe between them: what the server sends in a round
-- is what the client hears in its exchange.
use local_server_c.Base.{
  ℕ, zero, suc, ◌+◌, ◌≡◌, refl, sym, ap, ap₂, ◌∙◌, Option, List, [], ◌∷◌, ◌++◌, map, length, pos,
  arith,
}
use local_server_c.Base.Text.{codes, c_str-append_nul, c_str, NulFree, NulFree-c_str}
use local_server_c.Queue.{ServerQueue}
use local_server_c.Queue.Life.{World}
use local_server_c.Request
use local_server_c.Request.RoundTrip.{Hears, Sends}
use local_server_c.Response
use local_server_c.Response.{
  memory_error, proc_error, wait_result, exit_status, Message, Limit, moved, response_size,
  send_child, send_response, listen_response, heard,
}
use local_server_c.Client.{Exchange, typed}
use local_server_c.Client.Requests.{requests, cut, has_exit, commands_of}
use local_server_c.Client.Answers.{shown, values_from}
use local_server_c.Client.Life.{exits, MainEnv, main}
use local_server_c.Client.Starting.{Asks, Cleans, Starts, restored}
use local_server_c.Client.Ending.{main-shown}
use local_server_c.Server.Session.{
  Notice, reception_error, execution_error, link_error, goodbye, Act, notice, response, signal, run,
  removes, Round, wait_returns,
}
use local_server_c.Conversation.{Runs, serve_all, texts_of, responses}
use local_server_c.Conversation.Whole.{main-serve_all}
use local_server_c.Conversation.Pipe.{
  Works, Carried, result, left, delivered-result, delivered-Answered,
}

-- The bytes of a notice.
abbrev pub notice_text : Notice → List ℕ
notice_text reception_error =
    codes "Erreur lors de la r"
    ++ 195 ∷ 169 ∷ codes "c"
    ++ 195 ∷ 169 ∷ codes "ption de la requ"
    ++ 195 ∷ 170 ∷ codes "te"
    ++ 10 ∷ []
notice_text execution_error =
    codes "Erreur lors de l'ex" ++ 195 ∷ 169 ∷ codes "cution de la commande" ++ 10 ∷ []
notice_text link_error =
    codes "Erreur lors de la liaison entre la commande et la r"
    ++ 195 ∷ 169 ∷ codes "ponse"
    ++ 10 ∷ []
notice_text goodbye = codes "D" ++ 195 ∷ 169 ∷ codes "connexion du serveur..." ++ 10 ∷ []

-- The messages that a thread sends to its client.
abbrev pub sends : List Act → List (List ℕ)
sends [] = []
sends (notice n ∷ acts) = notice_text n ∷ sends acts
sends (response text ∷ acts) = text ∷ sends acts
sends (signal ∷ acts) = sends acts
sends (run e ∷ acts) = sends acts

-- The message of each exchange, the goodbye where there are no more.
abbrev pub said : List (List ℕ) → ℕ → List ℕ
said [] i = notice_text goodbye
said (t ∷ ts) zero = t
said (t ∷ ts) (suc i) = said ts i

values-said :
    (f : List ℕ → List ℕ) (ts : List (List ℕ)) (g : ℕ → List ℕ) (i : ℕ)
    → ((j : ℕ) → g (i + j) ≡ f (said ts j))
    → values_from g i (length ts) ≡ map f ts
values-said f [] g i h = refl
values-said f (t ∷ ts) g i h =
    let here : i + 0 ≡ i = omega arith in
    let next = λ (j : ℕ). let e : suc i + j ≡ i + suc j = omega arith in ap g e ∙ h (suc j) in
    ap₂ (◌∷◌) (ap g (sym here) ∙ h 0) (values-said f ts g (suc i) next)

c_str-with_nul : (t : List ℕ) → c_str (c_str t ++ 0 ∷ []) ≡ c_str t
c_str-with_nul t = c_str-append_nul (c_str t) [] (NulFree-c_str t)

module _ (fuel capacity : ℕ) (rounds : ℕ → Round) where
  -- What the thread of the server does for a list of commands.
  abbrev pub conversation : List (List ℕ) → List Act
  conversation cs = responses fuel capacity rounds 0 cs ++ notice goodbye ∷ []

  length-conversation :
      (i : ℕ) (cs : List (List ℕ))
      → length (sends (responses fuel capacity rounds i cs ++ notice goodbye ∷ []))
        ≡ suc (length cs)
  length-conversation i [] = refl
  length-conversation i (c ∷ cs) = ap suc (length-conversation (suc i) cs)

  -- A property of the goodbye and of every output holds of what is said.
  said_all :
      (P : List ℕ → Type 0)
      → P (notice_text goodbye)
      → ((i : ℕ) → P ((rounds i).output ++ 0 ∷ []))
      → (cs : List (List ℕ)) (i j : ℕ)
      → P (said (sends (responses fuel capacity rounds i cs ++ notice goodbye ∷ [])) j)
  said_all P bye outs [] i zero = bye
  said_all P bye outs [] i (suc j) = bye
  said_all P bye outs (c ∷ cs) i zero = outs i
  said_all P bye outs (c ∷ cs) i (suc j) = said_all P bye outs cs (suc i) j

-- The rounds of a server whose responses go through these pipes.
abbrev pub speaking : ℕ → Limit → (ℕ → Response.SendEnv) → (ℕ → Round) → ℕ → Round
speaking fuel max speaks rounds i = record (rounds i) {
  sent = λ msg. result (send_response fuel (speaks i) msg max);
}

speaking-Runs :
    (fuel capacity : ℕ) (max : Limit) (speaks : ℕ → Response.SendEnv) (rounds : ℕ → Round) (i : ℕ)
    → Runs fuel capacity (rounds i)
    → Runs fuel capacity (speaking fuel max speaks rounds i)
unfolding wait_returns
speaking-Runs fuel capacity max speaks rounds i w = record {
  sizes = w.sizes;
  made = w.made;
  parent = w.parent;
  write_end = w.write_end;
  read_end = w.read_end;
  ends = w.ends;
  grows = w.grows;
  moves = w.moves;
  hears = w.hears;
  enough = w.enough;
}

-- The exchanges of a client at the other end of them.
abbrev pub hearing :
    ℕ
    → Limit
    → (ℕ → Response.SendEnv)
    → (ℕ → Request.SendEnv)
    → (ℕ → Response.ListenEnv)
    → List (List ℕ)
    → ℕ
    → Exchange
hearing fuel max speaks asks listens texts i = record {
  send = asks i;
  listen = listens i;
  response = left (send_response fuel (speaks i) (said texts i) max);
}

-- The two programs together, over both pipes. When every call works, the user types no NUL byte, and
-- no output (nor the goodbye) exceeds the limit on a response, the thread of the server answers the
-- commands that the user types before `exit`, in order, each with its output, then says goodbye; when
-- each exchange of the client reads what the thread leaves in the response pipe in its turn, the client
-- prints exactly those messages, each up to its first NUL, in that order. It ends with EXIT_SUCCESS
-- exactly when `exit` was typed, and leaves the memory, the descriptors and the pipes as they were, but
-- for its request in the queue.
pub main-displays :
    (env : MainEnv) (input : List ℕ) (w : World)
    → Starts env w
    → (object : Option ServerQueue) → Asks env w object
    → Cleans env.clean env.config
    → NulFree input
    → (fuel capacity : ℕ) (max : Limit) (rounds : ℕ → Round)
    → ((i : ℕ) → Runs fuel capacity (rounds i))
    → (speaks : ℕ → Response.SendEnv) (listens : ℕ → Response.ListenEnv)
    → ((i : ℕ) → Works (speaks i) (listens i))
    → ((i : ℕ) → Carried max fuel env.fuel ((rounds i).output ++ 0 ∷ []))
    → Carried max fuel env.fuel (notice_text goodbye)
    → (asks : ℕ → Request.SendEnv) → ((i : ℕ) → Sends (asks i))
    → (l : Request.ListenEnv) (memory : List ℕ) → Hears l
    → let served = speaking fuel max speaks rounds in
      let said_acts = conversation fuel capacity served (commands_of (typed input)) in
      let exchanges = hearing fuel max speaks asks listens (sends said_acts) in
      let (acts, end) = main (record env { exchanges = exchanges }) input w in
      (texts_of fuel capacity served l memory (requests acts) ≡ commands_of (typed input))
      × (serve_all fuel capacity served l memory (requests acts) ≡ (said_acts, removes))
      × (shown acts ≡ map c_str (sends said_acts))
      × (end ≡ exits (has_exit (map cut (typed input))) (restored (record w { object = object })))
main-displays env input w starts object asked c text fuel capacity max rounds runs speaks listens
      works outs bye asks sent l memory hears =
    let served = speaking fuel max speaks rounds in
    let cs = commands_of (typed input) in
    let texts = sends (conversation fuel capacity served cs) in
    let env' = record env { exchanges = hearing fuel max speaks asks listens texts } in
    let carried =
      λ (i : ℕ). said_all fuel capacity served (Carried max fuel env.fuel) bye outs cs 0 i in
    let answered = λ (i : ℕ).
      delivered-Answered (speaks i) (listens i) (works i) max fuel env.fuel (said texts i)
        (carried i) (asks i) (sent i) in
    let answers = λ (i : ℕ). c_str (said texts i) ++ 0 ∷ [] in
    let runs' = λ (i : ℕ). speaking-Runs fuel capacity max speaks rounds i (runs i) in
    let received : (i : ℕ)
        → (n : ℕ) × ((served i).sent ((served i).output ++ 0 ∷ []) ≡ pos (suc n)) =
      λ i. (
        0,
        delivered-result (speaks i) (listens i) (works i) max fuel env.fuel
            ((rounds i).output ++ 0 ∷ []) (outs i),
      ) in
    let (ran, served', ended) =
      main-serve_all env' input w starts object asked c text answers answered fuel capacity served
        runs' received l memory hears in
    let displayed = main-shown env' input w starts object asked c text answers answered in
    let count = length-conversation fuel capacity served 0 cs in
    (
      ran,
      served',
      displayed
          ∙ ap (values_from (λ j. c_str (answers j)) 0) (sym count)
          ∙ values-said c_str texts (λ j. c_str (answers j)) 0
              (λ j.
                let e : 0 + j ≡ j = omega arith in
                c_str-with_nul (said texts (0 + j)) ∙ ap (λ n. c_str (said texts n)) e),
      ended,
    )
