-- ===== src/Client/Ending.antt =====
-- client.c: what a whole run of the client sends and leaves behind.
use local_server_c.Base.{
  ℕ, suc, ◌-◌, ◌⊎◌, ◌≡◌, ◌≢◌, refl, ap, ◌∙◌, Option, Bool, true, ◌||◌, List, [], ◌∷◌, ◌++◌, ◌==◌,
  inl, inr, Bool-cases, map, All, ◌<◌, take, length, pos, ltb_ℤ, arith,
}
use local_server_c.Base.Text.{codes, c_str, strlen, NulFree}
use local_server_c.Queue.{ServerQueue}
use local_server_c.Queue.Life.{World}
use local_server_c.Request.{Fifo}
use local_server_c.Client.{Exchange, Act, at_free, typed_from, typed, end_exchange, session}
use local_server_c.Client.Requests.{
  Answered, requests, cut, has_exit, commands_of, in_pipe, session-requests,
}
use local_server_c.Client.Answers.{shown, values_from, session-shown}
use local_server_c.Client.Silence.{Unanswered, session-silent}
use local_server_c.Client.Starting.{
  cleaned, Cleans, clean_up-cleaned, Asks, Starts, joined, restored, cleaned-joined, main-opened,
}
use local_server_c.Client.Life.{
  Signal, sigint, sigquit, sigterm, sigusr1, sigusr2, last_words, sig_disconnect, State, exits,
  CleanEnv, clean_up, MainEnv, main_loop, main,
}

nonempty_line : (c : ℕ) (line : List ℕ) → NulFree (c ∷ line) → strlen (c ∷ line) ≢ 0
unfolding strlen c_str
nonempty_line c line h = ground (arith, h.0)

NulFree-snoc : (line : List ℕ) (c : ℕ) → NulFree line → c ≢ 0 → NulFree (line ++ c ∷ [])
NulFree-snoc [] c h k = (k, tt)
NulFree-snoc (b ∷ line) c h k = (h.0, NulFree-snoc line c h.1 k)

nonempty_snoc : (line : List ℕ) (c : ℕ) → NulFree (line ++ c ∷ []) → strlen (line ++ c ∷ []) ≢ 0
nonempty_snoc [] c h = nonempty_line c [] h
nonempty_snoc (b ∷ line) c h = nonempty_line b (line ++ c ∷ []) h

typed-nonempty :
    (room : ℕ) (line input : List ℕ)
    → NulFree line
    → NulFree input
    → All (λ l. strlen l ≢ 0) (typed_from room line input)
unfolding typed_from
typed-nonempty room [] [] h k = tt
typed-nonempty room (b ∷ line) [] h k = (nonempty_line b line h, tt)
typed-nonempty room line (c ∷ input) h k =
    let whole = NulFree-snoc line c h k.0 in
    elim (Bool-cases (c == 10 || room == 0)) [
      | inl e ↦ simp e (nonempty_snoc line c whole, typed-nonempty 254 [] input tt k.1)
      | inr e ↦ simp e (typed-nonempty (room - 1) (line ++ c ∷ []) input whole k.1)
    ]

main-ends :
    (env : MainEnv) (input : List ℕ) (w : World) (fifo : Fifo)
    → Cleans env.clean env.config
    → (acts : List Act) (good : Bool)
    → session env.fuel fifo env.exchanges 0 (typed input) ≡ (acts, at_free good)
    → main_loop env input fifo (joined env w true true) ≡ (acts, exits good (restored w))
unfolding main_loop
main-ends env input w fifo c acts good e =
    simp (e, main_loop)
      (ap (λ x. (acts, x))
        (clean_up-cleaned env.clean good (joined env w true true) c
          ∙ ap (exits good) (cleaned-joined env w)))

-- A run of the client is its session, between a start and a clean-up.
main-session :
    (env : MainEnv) (input : List ℕ) (w : World)
    → Starts env w
    → (object : Option ServerQueue) → Asks env w object
    → Cleans env.clean env.config
    → (good : Bool) (P : List Act → Type 0)
    → ((fifo : Fifo)
        → let (acts, left) = session env.fuel fifo env.exchanges 0 (typed input) in
          P acts × (left ≡ at_free good))
    → let (acts, end) = main env input w in
      P acts × (end ≡ exits good (restored (record w { object = object })))
main-session env input w starts object asked c good P runs =
    let (n, stored) = asked in
    let w' = record w { object = object } in
    let positive : ltb_ℤ (pos 0) (pos (suc n)) ≡ true = ground arith in
    let (fifo, e) = main-opened env input w starts (pos (suc n)) object stored in
    let acts = (session env.fuel fifo env.exchanges 0 (typed input)).0 in
    let whole : session env.fuel fifo env.exchanges 0 (typed input) ≡ (acts, at_free good) =
      ap (λ l. (acts, l)) (runs fifo).1 in
    rw (e, positive) (rw (main-ends env input w' fifo c acts good whole) ((runs fifo).0, refl))

-- When every call works, the server answers every request and the user types no NUL byte, a run of
-- the client sends the commands that are typed before `exit` (lines whose first word is no command
-- are left out), then `exit` once, typed or not. It ends with EXIT_SUCCESS exactly when `exit` was
-- typed, and leaves the memory, the descriptors and the pipes as they were, but for its request in
-- the queue.
pub main-commands :
    (env : MainEnv) (input : List ℕ) (w : World)
    → Starts env w
    → (object : Option ServerQueue) → Asks env w object
    → Cleans env.clean env.config
    → NulFree input
    → (answers : ℕ → List ℕ) → ((i : ℕ) → Answered env.fuel (env.exchanges i) (answers i))
    → let (acts, end) = main env input w in
      (requests acts ≡ in_pipe (commands_of (typed input) ++ codes "exit" ∷ []))
      × (end ≡ exits (has_exit (map cut (typed input))) (restored (record w { object = object })))
unfolding typed
main-commands env input w starts object asked c text answers answered =
    main-session env input w starts object asked c (has_exit (map cut (typed input)))
      (λ acts. requests acts ≡ in_pipe (commands_of (typed input) ++ codes "exit" ∷ []))
      (λ fifo.
        session-requests env.fuel fifo env.exchanges answers answered (typed input)
          (typed-nonempty 254 [] input tt text) 0)

-- And it prints the responses of its exchanges, one for each of those commands and one for `exit`.
pub main-shown :
    (env : MainEnv) (input : List ℕ) (w : World)
    → Starts env w
    → (object : Option ServerQueue) → Asks env w object
    → Cleans env.clean env.config
    → NulFree input
    → (answers : ℕ → List ℕ) → ((i : ℕ) → Answered env.fuel (env.exchanges i) (answers i))
    → shown (main env input w).0
      ≡ values_from (λ j. c_str (answers j)) 0 (suc (length (commands_of (typed input))))
unfolding typed
main-shown env input w starts object asked c text answers answered =
    let lines = typed input in
    let some_byte = typed-nonempty 254 [] input tt text in
    (main-session env input w starts object asked c (has_exit (map cut lines))
      (λ acts.
        shown acts ≡ values_from (λ j. c_str (answers j)) 0 (suc (length (commands_of lines))))
      (λ fifo. (
        session-shown env.fuel fifo env.exchanges answers answered lines some_byte 0,
        (session-requests env.fuel fifo env.exchanges answers answered lines some_byte 0).1,
      ))).0

-- When every other call works, the user types no NUL byte, and the server answers `k` requests and
-- takes the next without answering it, the client has sent the first `k + 1` of the commands typed
-- before `exit` (there being as many), and ends with EXIT_SUCCESS, even if `exit` was never typed.
pub main-silent :
    (env : MainEnv) (input : List ℕ) (w : World)
    → Starts env w
    → (object : Option ServerQueue) → Asks env w object
    → Cleans env.clean env.config
    → NulFree input
    → (answers : ℕ → List ℕ) (k : ℕ)
    → ((i : ℕ) → i < k → Answered env.fuel (env.exchanges i) (answers i))
    → Unanswered env.fuel (env.exchanges k)
    → k < length (commands_of (typed input))
    → let (acts, end) = main env input w in
      (requests acts ≡ in_pipe (take (suc k) (commands_of (typed input))))
      × (end ≡ exits true (restored (record w { object = object })))
unfolding typed
main-silent env input w starts object asked c text answers k answered silent more =
    main-session env input w starts object asked c true
      (λ acts. requests acts ≡ in_pipe (take (suc k) (commands_of (typed input))))
      (λ fifo.
        session-silent env.fuel fifo env.exchanges k answers answered silent (typed input)
          (typed-nonempty 254 [] input tt text) more)

-- When the clean-up works, a signal of the user makes the client end with EXIT_SUCCESS exactly when
-- the exchange of `exit` works; one of the server makes it end with EXIT_SUCCESS at once.
pub sig_disconnect-cleaned :
    (s : Signal) (fuel : ℕ) (fifo : Fifo) (x : Exchange) (env : CleanEnv) (st : State)
    → Cleans env st.config
    → (acts : List Act) (good : Bool) → end_exchange fuel fifo x ≡ (acts, at_free good)
    → (((s ≡ sigint) ⊎ (s ≡ sigquit)) ⊎ (s ≡ sigterm)
        → sig_disconnect s fuel fifo x env st ≡ (acts, exits good (cleaned st)))
      × ((s ≡ sigusr1) ⊎ (s ≡ sigusr2)
          → sig_disconnect s fuel fifo x env st ≡ ([], exits true (cleaned st)))
unfolding sig_disconnect last_words
sig_disconnect-cleaned s fuel fifo x env st c acts good e =
    let user : last_words fuel fifo x env st ≡ (acts, exits good (cleaned st)) =
      simp (e, clean_up-cleaned env good st c, last_words) in
    let server : clean_up env true st ≡ exits true (cleaned st) = clean_up-cleaned env true st c in
    (λ h. ground arith, λ h. ground arith)
