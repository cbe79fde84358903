-- ===== src/Response/Tests.antt =====
-- The theorems on responses at a small message, with a limit and calls that move two bytes.
use local_server_c.Base.{
  ◌≡◌, refl, ℤ, eqb_ℤ, if◌then◌else◌, none, some, true, false, [], ◌∷◌, ◌++◌, take, pos, arith,
}
use local_server_c.Base.Text.{codes}
use local_server_c.Response.{
  SendEnv, ListenEnv, Message, moved, response_size, send_response, send_child, wait_result,
  exit_status, listen_response, heard, read_loop,
}
use local_server_c.Response.RoundTrip.{send_response-listen_response, read_loop-short}
use local_server_c.Response.Status.{IsCode, built, send_response-wait_result}

abbrev pub sender : SendEnv
sender = record {
  allocated = true;
  forked = true;
  mask_filled = true;
  action_set = true;
  alarm_rings = false;
  opened = true;
  header_written = true;
  writes = λ i. moved 2;
  closed = true;
}

abbrev pub listener : ListenEnv
listener = record {
  opened = true;
  first_select = some true;
  header_read = true;
  allocated = true;
  selects = λ i. some true;
  reads = λ i. some 2;
  buffer_allocated = true;
  closed = true;
}

send_response-listen_response_example :
    (res : Message) × (send_response 5 sender (codes "abc") (some 9) ≡ some (pos 1, some res))
    × (listen_response 5 listener (some res)
        ≡ heard (pos 1) (take (response_size (codes "abc") (some 9)) (codes "abc" ++ 0 ∷ [])))
send_response-listen_response_example =
    send_response-listen_response sender listener (λ i. 1) (λ i. 1)
      ((refl, refl, refl, refl, refl, refl, refl, refl), (refl, refl, refl, refl, refl, refl))
      (λ i. refl) (λ i. refl) (λ i. refl) (codes "abc") (some 9)
      (omega arith, (omega arith, (omega arith, tt))) 5 5 (omega arith) (omega arith)

read_loop-short_example : read_loop listener 4 1000 0 0 [] [] ≡ none
read_loop-short_example =
    read_loop-short listener (λ i. 1) (λ i. refl) (λ i. refl) 4 1000 0 0 [] (omega arith)

-- No reader's pipe can be opened.
abbrev unopened : SendEnv
unopened = record sender { opened = false }

no_pipe : send_response 5 unopened (codes "abc") none ≡ some (pos 0, none)
unfolding send_response send_child wait_result exit_status
no_pipe = refl

send_response-wait_result_example :
    (code : ℤ) × (send_child 5 unopened (built (codes "abc") none) none ≡ some (code, none))
    × IsCode code
    × (pos 0 ≡ (if eqb_ℤ code (pos 0) then pos 1 else pos 0))
send_response-wait_result_example =
    send_response-wait_result 5 unopened (codes "abc") none (pos 0) none refl refl no_pipe
