-- ===== src/Server/Configuration.antt =====
-- server.c: a start of the server with a configuration that is written line by line.
use local_server_c.Base.{
  ◌-◌, ℕ, ◌^◌, ◌≤◌, ◌<◌, ◌≡◌, refl, ap, ap₂, ◌∙◌, none, some, Bool, true, false, List, [], ◌∷◌,
  ◌++◌, length, length-append, map, All, pos, arith,
}
use local_server_c.Base.Text.{codes}
use local_server_c.Queue.{ServerQueue}
use local_server_c.Queue.Life.{World}
use local_server_c.Yml.{Kind, int_type, string_type, Regex, int_bytes}
use local_server_c.Yml.Parser.{Parser, returned, initialised, init_yml_parser, exec_parser, get}
use local_server_c.Yml.Expressions.{first_match}
use local_server_c.Yml.Numbers.{int_word}
use local_server_c.Yml.Values.{Line, number, string, key_of, IsLine, stored_for}
use local_server_c.Yml.Matches.{render}
use local_server_c.Yml.Reading.{all_well, answer_of}
use local_server_c.Yml.RoundTrip.{
  Has, Absent, value_in, value_in-Has, value_in-Absent, written-parser,
}
use local_server_c.Server.Crowd.{Crowd}
use local_server_c.Server.Life.{MainEnv, Visit, serves, start_crowd, main}
use local_server_c.Server.Population.{Represents, AllAllowed, after_all}
use local_server_c.Server.Admission.{IsDrained}
use local_server_c.Server.Serving.{Client, Works, all_events, visit_of}
use local_server_c.Server.Starting.{Starts, Makes, opened, main-clients}
use local_server_c.Server.Loading.{
  load-number, load-overrun, load-nothing, word_of-int_bytes, as_size-small, limit_of,
  response_limit-loaded,
}
use local_server_c.Server.Settings.{
  response_limit, Settings, overrun, load, word_of, as_size, settings, configured,
}

configured-main :
    (p : Parser) (memory : List ℕ) (s : Settings) (daemon slots : ℕ)
    → settings p memory ≡ some s
    → word_of s.daemon ≡ daemon
    → as_size (word_of s.nb_slots) ≡ slots
    → (env : MainEnv) (visits : List Visit) (w : World)
    → configured p memory env visits w
      ≡ some (main (record env { daemon = daemon; slots = slots }) visits w)
unfolding configured
configured-main p memory s daemon slots e d n env visits w =
    simp (e, configured)
      (ap₂ (λ d' n'. some (main (record env { daemon = d'; slots = n' }) visits w)) d n)

module _ (regex : Regex)
    (finds : (kind : Kind) (s : List ℕ) → regex.exec kind s ≡ first_match kind s)
    (ci : regex.compiles int_type ≡ true) (cs : regex.compiles string_type ≡ true) (ls : List Line)
    (lines : All IsLine ls) where
  get-line :
      (p' : Parser)
      → ((key : List ℕ) → get (some p') key false ≡ answer_of (value_in ls key))
      → (l : Line) → Has ls l
      → get (some p') (key_of l) false ≡ returned (pos 1) (stored_for l)
  get-line p' answers l has = answers (key_of l) ∙ ap answer_of (value_in-Has ls l has)

  -- From the bytes of its configuration to the clients that it serves: a server whose configuration is
  -- written line by line, with one line for each of `slots` (a number from 1 to 2 ^ 31 - 1), `daemon`
  -- (0) and `res_timeout`, reads these numbers into its variables, whatever `nb_slots` held before, and
  -- makes a queue of that many slots; it serves every client that comes, one request at a time, while
  -- threads end in any order: it is then still serving, nothing waits in the queue of its shared memory,
  -- which has as many slots as configured, and its list holds exactly the requests of those who are
  -- connected, in the order in which they came. The conditions: `regexec` finds the first match of the
  -- expressions, both compile, the memory of the hash map is NULL, the name of the shared memory was
  -- free and the list empty when it started, every call of the server and of the clients works, `malloc`
  -- gives new memory, and a client who comes has the number of nobody who is connected.
  pub main-configured :
      (slots : ℕ)
      → 0 < slots
      → slots < 2 ^ 31
      → (late : Bool) (timeout : ℕ) → Has ls (number (codes "slots") false slots)
      → Has ls (number (codes "daemon") false 0)
      → Has ls (number (codes "res_timeout") late timeout)
      → (memory : List ℕ) → length memory ≡ 4
      → (env : MainEnv) (ks : List Client) (w : World) → Starts env
      → Makes env.queue
      → w.object ≡ none
      → Represents env.client_list (start_crowd env) []
      → All Works ks
      → AllAllowed env.client_list (all_events ks) (start_crowd env) []
      → (p : Parser) × (p' : Parser) × (q : ServerQueue) × (c : Crowd) × (init_yml_parser false
            (all_well (render ls))
          ≡ initialised p)
        × (exec_parser regex false false p ≡ returned (pos 1) p')
        × (settings p' memory
            ≡ some (record {
              res_timeout = int_bytes (int_word late timeout);
              daemon = int_bytes 0;
              nb_slots = int_bytes slots;
            }))
        × (configured p' memory env (map (visit_of env.client_list true true) ks) w
            ≡ some (serves, opened w q, c))
        × IsDrained q
        × (q.nb_slots ≡ slots)
        × Represents env.client_list c (after_all (all_events ks) [])
  unfolding settings
  main-configured slots some_slot small late timeout slots-Has daemon-Has timeout-Has memory four
        env ks w starts makes free empty works ok =
      let (p, p', made, run, answers) = written-parser regex finds ci cs ls lines in
      let same : int_word false slots ≡ slots = omega arith in
      let t =
        load-number p' (codes "res_timeout") (int_bytes 5) refl (int_word late timeout)
          (get-line p' answers (number (codes "res_timeout") late timeout) timeout-Has) in
      let d =
        load-number p' (codes "daemon") (int_bytes 0) refl 0
          (get-line p' answers (number (codes "daemon") false 0) daemon-Has) in
      let s = load-number p' (codes "slots") memory four slots (
        get-line p' answers (number (codes "slots") false slots) slots-Has
        ∙ ap (λ n. returned (pos 1) (int_bytes n)) same) in
      let read = word_of-int_bytes slots (omega arith) in
      let size = ap as_size read ∙ as_size-small slots small in
      let whole : settings p' memory
          ≡ some (record {
            res_timeout = int_bytes (int_word late timeout);
            daemon = int_bytes 0;
            nb_slots = int_bytes slots;
          }) =
        simp (t, d, s, settings) in
      let (e1, e2, e3, e4, e5, e6, e7, e8, e9) = starts in
      let sized : MainEnv = record env { daemon = 0; slots = slots } in
      let (q, c, served, drained, nb, rep) =
        main-clients sized w (e1, e2, e3, refl, e5, e6, e7, e8, e9) makes free some_slot
          (omega arith) empty ks works ok in
      (
        p,
        p',
        q,
        c,
        made,
        run,
        whole,
        configured-main p' memory _ 0 slots whole (word_of-int_bytes 0 (omega arith)) size env
              (map (visit_of env.client_list true true) ks) w
            ∙ ap some served,
        drained,
        nb,
        rep,
      )

  -- When `regexec` finds the first match of the expressions, both compile, no call fails and
  -- the memory of the hash map is NULL, in a configuration that is written line by line a line
  -- `response_limit` with a number (not 0, below 2 ^ 31), the only one with its key, is the limit of `handle_request` on a response, none where the number is
  -- negative.
  pub configured-limit :
      (unlimited : Bool) (limit : ℕ)
      → Has ls (number (codes "response_limit") unlimited limit)
      → 0 < limit
      → limit < 2 ^ 31
      → (p : Parser) × (p' : Parser) × (init_yml_parser false (all_well (render ls))
          ≡ initialised p)
        × (exec_parser regex false false p ≡ returned (pos 1) p')
        × (response_limit p' ≡ some (limit_of unlimited limit))
  configured-limit unlimited limit limit-Has positive below =
      let (p, p', made, run, answers) = written-parser regex finds ci cs ls lines in
      let m =
        load-number p' (codes "response_limit") (int_bytes (2 ^ 32 - 1)) refl
          (int_word unlimited limit)
          (get-line p' answers (number (codes "response_limit") unlimited limit) limit-Has) in
      (p, p', made, run, response_limit-loaded p' unlimited limit m positive below)

  -- Without a line `slots`, the queue has as many slots as the memory of `nb_slots` says: it is a variable
  -- that nothing has set.
  pub configured-unset :
      (late : Bool) (timeout : ℕ)
      → Absent (codes "slots") ls
      → Has ls (number (codes "daemon") false 0)
      → Has ls (number (codes "res_timeout") late timeout)
      → (garbage : ℕ) → garbage < 2 ^ 32
      → (p : Parser) × (p' : Parser) × (init_yml_parser false (all_well (render ls))
          ≡ initialised p)
        × (exec_parser regex false false p ≡ returned (pos 1) p')
        × ((env : MainEnv) (visits : List Visit) (w : World)
            → configured p' (int_bytes garbage) env visits w
              ≡ some (main (record env { daemon = 0; slots = as_size garbage }) visits w))
  unfolding settings
  configured-unset late timeout no_slots daemon-Has timeout-Has garbage word =
      let (p, p', made, run, answers) = written-parser regex finds ci cs ls lines in
      let t =
        load-number p' (codes "res_timeout") (int_bytes 5) refl (int_word late timeout)
          (get-line p' answers (number (codes "res_timeout") late timeout) timeout-Has) in
      let d =
        load-number p' (codes "daemon") (int_bytes 0) refl 0
          (get-line p' answers (number (codes "daemon") false 0) daemon-Has) in
      let s =
        load-nothing p' (codes "slots") (int_bytes garbage) refl
          (answers (codes "slots") ∙ ap answer_of (value_in-Absent ls (codes "slots") no_slots)) in
      let whole : settings p' (int_bytes garbage)
          ≡ some (record {
            res_timeout = int_bytes (int_word late timeout);
            daemon = int_bytes 0;
            nb_slots = int_bytes garbage;
          }) =
        simp (t, d, s, settings) in
      (
        p,
        p',
        made,
        run,
        configured-main p' (int_bytes garbage) _ 0 (as_size garbage) whole
            (word_of-int_bytes 0 (omega arith)) (ap as_size (word_of-int_bytes garbage word)),
      )

  -- When `regexec` finds the first match of the expressions, both expressions compile, no call fails and
  -- the memory of the hash map is NULL, in a configuration that is written line by line a string of four
  -- bytes or more whose line is the only one with its key is copied past the end of the `int` variable (four
  -- bytes, whatever they hold) into which the server loads that key.
  pub load-string :
      (key text : List ℕ)
      → Has ls (string key text)
      → 4 ≤ length text
      → (variable : List ℕ) → length variable ≡ 4
      → (p : Parser) × (p' : Parser) × (init_yml_parser false (all_well (render ls))
          ≡ initialised p)
        × (exec_parser regex false false p ≡ returned (pos 1) p')
        × (load p' key variable ≡ overrun)
  load-string key text has long variable four =
      let (p, p', made, run, answers) = written-parser regex finds ci cs ls lines in
      let size = length-append text (0 ∷ []) in
      (
        p,
        p',
        made,
        run,
        load-overrun p' key variable four (text ++ 0 ∷ [])
            (get-line p' answers (string key text) has) (omega (arith, size)),
      )
