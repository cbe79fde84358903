-- ===== src/Conversation/Tests.antt =====
-- The theorem on both programs, for the user and the server of the tests of each.
use local_server_c.Base.{◌≡◌, refl, some, [], ◌∷◌, ◌++◌, map, arith}
use local_server_c.Base.Text.{codes, c_str, strlen}
use local_server_c.Client.{typed}
use local_server_c.Client.Requests.{requests, cut, has_exit, commands_of}
use local_server_c.Client.Life.{exits, main}
use local_server_c.Client.Starting.{restored}
use local_server_c.Client.Tests.{
  answered, start, asked_queue, answered-Asks, input, good_exchange, good_exchange-Answered,
  answered-Starts, clean_works-Cleans, input-NulFree,
}
use local_server_c.Server.Session.{goodbye, removes, wait_returns}
use local_server_c.Server.Tests.{listener, printing}
use local_server_c.Conversation.{Runs, serve_all, texts_of}
use local_server_c.Client.Answers.{shown}
use local_server_c.Client.Life.{MainEnv}
use local_server_c.Response.{response_size}
use local_server_c.Response.Tests
use local_server_c.Conversation.Pipe.{Works, Carried}
use local_server_c.Conversation.Delivery.{
  notice_text, sends, conversation, speaking, hearing, main-displays,
}

printing-Runs : Runs 64 65536 printing
unfolding wait_returns
printing-Runs = record {
  sizes = λ i. 0;
  made = refl;
  parent = refl;
  write_end = refl;
  read_end = refl;
  ends = refl;
  grows = λ i. refl;
  moves = λ i. refl;
  hears = (refl, refl, refl);
  enough = omega arith;
}

speaks-Works : Works Tests.sender Tests.listener
speaks-Works = record {
  sound = ((refl, refl, refl, refl, refl, refl, refl, refl), (refl, refl, refl, refl, refl, refl));
  written = λ i. 1;
  read = λ i. 1;
  writes = λ i. refl;
  reads = λ i. refl;
  ready = λ i. refl;
}

hi-Carried : Carried (some 60) 64 64 (codes "hi" ++ 0 ∷ [])
unfolding response_size strlen c_str
hi-Carried = (refl, omega arith, omega arith)

goodbye-Carried : Carried (some 60) 64 64 (notice_text goodbye)
unfolding response_size strlen c_str
goodbye-Carried = (refl, omega arith, omega arith)

-- The responses take up to 60 bytes.
abbrev patient : MainEnv
patient = record answered { fuel = 64 }

main-displays_example :
    let served = speaking 64 (some 60) (λ i. Tests.sender) (λ i. printing) in
    let said_acts = conversation 64 65536 served (commands_of (typed input)) in
    let exchanges =
      hearing 64
        (some 60)
        (λ i. Tests.sender)
        (λ i. good_exchange.send)
        (λ i. Tests.listener)
        (sends said_acts) in
    let (acts, end) = main (record patient { exchanges = exchanges }) input start in
    (texts_of 64 65536 served listener [] (requests acts) ≡ commands_of (typed input))
    × (serve_all 64 65536 served listener [] (requests acts) ≡ (said_acts, removes))
    × (shown acts ≡ map c_str (sends said_acts))
    × (end
        ≡ exits
            (has_exit (map cut (typed input)))
            (restored (record start { object = some asked_queue })))
main-displays_example =
    main-displays patient input start answered-Starts (some asked_queue) answered-Asks
      clean_works-Cleans input-NulFree 64 65536 (some 60) (λ i. printing) (λ i. printing-Runs)
      (λ i. Tests.sender) (λ i. Tests.listener) (λ i. speaks-Works) (λ i. hi-Carried)
      goodbye-Carried (λ i. good_exchange.send) (λ i. good_exchange-Answered.sends) listener []
      (refl, refl, refl)
