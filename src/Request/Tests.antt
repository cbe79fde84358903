-- ===== src/Request/Tests.antt =====
-- The theorems on requests at a small command.
use local_server_c.Base.{◌≡◌, refl, ◌↔◌, ◌⊎◌, inl, some, true, false, pos}
use local_server_c.Base.Text.{codes}
use local_server_c.Response.{pipe_error, exit_status}
use local_server_c.Request.{Fifo, SendEnv, send_request}
use local_server_c.Request.RoundTrip.{send_request-second_process}

abbrev sender : SendEnv
sender = record {
  forked = true;
  mask_filled = true;
  action_set = true;
  alarm_rings = false;
  opened = true;
  written = true;
  closed = true;
  later_exit = pos 0;
}

abbrev fifo : Fifo
fifo = record { id = codes "p" }

abbrev no_reader : SendEnv
no_reader = record sender { opened = false }

send_request-second_process_example :
    let sent = send_request no_reader (some fifo) (some (codes "ls")) in
    (sent.second ≡ some pipe_error)
    × ((sent.parent ≡ pos 1) ↔ (exit_status no_reader.later_exit ≡ pos 0))
    × ((sent.parent ≡ pos 0) ⊎ (sent.parent ≡ pos 1))
send_request-second_process_example =
    send_request-second_process no_reader fifo (codes "ls") refl refl refl refl (inl refl)
