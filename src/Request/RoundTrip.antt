-- ===== src/Request/RoundTrip.antt =====
-- A command that is sent is the command that is read, up to its length; and the child that returns.
use local_server_c.Base.{
  ℕ, zero, suc, ◌≤◌, ◌≡◌, refl, sym, ap, ◌∙◌, Option, none, some, true, false, List, [], ◌∷◌, ◌++◌,
  length, take, take_all, drop, length-take, append_assoc, replicate, ℤ, pos, arith, negsuc, ◌%◌,
  ◌*◌, ◌-◌, Bool-cases, ◌⊎◌, inl, inr, ◌↔◌,
}
use mathlib.Core.Path.{subst}
use local_server_c.Base.Text.{
  c_str, fit, strncpy, NulFree, NulFree-take, NulFree-c_str, c_str-NulFree, c_str-fit, copied,
}
use local_server_c.Response.{pipe_error, exit_status, wait_result}
use local_server_c.Request.{
  Fifo, SendEnv, request_bytes, returns, send_child, after_child, send_request, ListenEnv, received,
  listen_request,
}

drop-replicate_last : (n : ℕ) → drop {A = ℕ} n (replicate (suc n) 0) ≡ 0 ∷ []
drop-replicate_last zero = refl
drop-replicate_last (suc n) = drop-replicate_last n

strncpy_zeroed :
    (n : ℕ) (s rest : List ℕ) → c_str (strncpy (replicate (suc n) 0) s n ++ rest) ≡ take n (c_str s)
unfolding strncpy
strncpy_zeroed n s rest = rw (drop-replicate_last n) (
    ap c_str (append_assoc (fit n (c_str s)) (0 ∷ []) rest)
    ∙ c_str-fit n (c_str s) rest (NulFree-c_str s))

-- The bytes of a request end with a NUL.
request_bytes-c_str : (cmd rest : List ℕ) → c_str (request_bytes cmd ++ rest) ≡ take 256 (c_str cmd)
unfolding request_bytes
request_bytes-c_str cmd rest = strncpy_zeroed 256 cmd rest

-- The calls of `send_request` work, and a reader comes in time.
abbrev pub Sends : SendEnv → Type 0
Sends s =
    (s.forked ≡ true)
    × (s.mask_filled ≡ true)
    × (s.action_set ≡ true)
    × (s.alarm_rings ≡ false)
    × (s.opened ≡ true)
    × (s.written ≡ true)
    × (s.closed ≡ true)

-- The calls of `listen_request` work.
abbrev pub Hears : ListenEnv → Type 0
Hears l = (l.opened ≡ true) × (l.read_works ≡ true) × (l.closed ≡ true)

-- The calls of a run without failure.
abbrev pub IsSound : SendEnv → ListenEnv → Type 0
IsSound s l = Sends s × (l.opened ≡ true) × (l.read_works ≡ true) × (l.closed ≡ true)

take_le : (n : ℕ) (s : List ℕ) → length (take n s) ≤ n
take_le n s = omega (arith, length-take n s)

pub sent_whole :
    (s : SendEnv)
    → Sends s
    → (fifo : Fifo) (cmd : List ℕ)
    → send_request s (some fifo) (some cmd)
      ≡ record { parent = pos 1; second = none; pipe = some (request_bytes cmd) }
unfolding send_request send_child after_child wait_result exit_status
sent_whole s (s1, s2, s3, s4, s5, s6, s7) fifo cmd = simp (s1, s2, s3, s4, s5, s6, s7)

heard_whole :
    (l : ListenEnv)
    → Hears l
    → (bytes buffer : List ℕ)
    → listen_request l (some bytes) buffer
      ≡ (pos 1, strncpy buffer (bytes ++ drop (length bytes) l.memory) 257)
unfolding listen_request received
heard_whole l (l1, l2, l3) bytes buffer = simp (l1, l2, l3)

text_whole :
    (cmd memory buffer : List ℕ)
    → c_str (strncpy buffer (request_bytes cmd ++ memory) 257) ≡ take 256 (c_str cmd)
unfolding strncpy
text_whole cmd memory buffer = rw (request_bytes-c_str cmd memory) (
    copied 256 (take 256 (c_str cmd)) (drop 257 buffer)
      (NulFree-take 256 (c_str cmd) (NulFree-c_str cmd)) (take_le 256 (c_str cmd)))

-- A command of at most 256 bytes is read whole.
pub Hears-command :
    (l : ListenEnv)
    → Hears l
    → (cmd buffer : List ℕ) → NulFree cmd
    → length cmd ≤ 256
    → (buffer' : List ℕ) × (listen_request l (some (request_bytes cmd)) buffer ≡ (pos 1, buffer'))
      × (c_str buffer' ≡ cmd)
Hears-command l sound cmd buffer free short = (
  strncpy buffer (request_bytes cmd ++ drop (length (request_bytes cmd)) l.memory) 257,
  heard_whole l sound (request_bytes cmd) buffer,
  text_whole cmd (drop (length (request_bytes cmd)) l.memory) buffer
      ∙ ap (take 256) (c_str-NulFree cmd free)
      ∙ take_all 256 cmd short,
)

-- When no call fails and no time limit is reached, `send_request` returns 1 to one process and
-- `listen_request` reads, with result 1 and into any buffer, the command that was sent, cut to 256
-- bytes and ended by a NUL.
pub send_request-listen_request :
    (s : SendEnv) (l : ListenEnv)
    → IsSound s l
    → (fifo : Fifo) (cmd buffer : List ℕ)
    → let sent = send_request s (some fifo) (some cmd) in
      (sent.parent ≡ pos 1)
      × (sent.second ≡ none)
      × ((listen_request l sent.pipe buffer).0 ≡ pos 1)
      × (c_str (listen_request l sent.pipe buffer).1 ≡ take 256 (c_str cmd))
send_request-listen_request s l sound fifo cmd buffer =
    let (sends_all, opened, read_works, closed) = sound in
    let hears_all : Hears l = (opened, read_works, closed) in
    let sent = sent_whole s sends_all fifo cmd in
    let pipe = ap (λ x. x.pipe) sent in
    let hears =
      subst
        (λ x. listen_request l x buffer ≡ (
          pos 1,
          strncpy buffer (request_bytes cmd ++ drop (length (request_bytes cmd)) l.memory) 257,
        ))
        (sym pipe) (heard_whole l hears_all (request_bytes cmd) buffer) in
    (
      ap (λ x. x.parent) sent,
      ap (λ x. x.second) sent,
      ap (λ x. x.0) hears,
      ap (λ x. c_str x.1) hears
          ∙ text_whole cmd (drop (length (request_bytes cmd)) l.memory) buffer,
    )

child_returns :
    (s : SendEnv) (cmd : List ℕ)
    → s.mask_filled ≡ true
    → s.action_set ≡ true
    → s.alarm_rings ≡ false
    → (s.opened ≡ false) ⊎ ((s.written ≡ false) ⊎ (s.closed ≡ false))
    → (p : Option (List ℕ)) × (send_child s cmd ≡ (returns pipe_error, p))
unfolding send_child
child_returns s cmd s2 s3 s4 broken = elim (Bool-cases s.opened) [
  | inr e ↦ (none, simp (s2, s3, s4, e))
  | inl o ↦ elim (Bool-cases s.written) [
    | inr e ↦ (none, simp (s2, s3, s4, o, e))
    | inl w ↦
        let e : s.closed ≡ false = ground arith in
        (some (request_bytes cmd), simp (s2, s3, s4, o, w, e))
  ]
]

status_result :
    (k : ℕ)
    → ((wait_result (pos k) ≡ pos 1) ↔ (pos k ≡ pos 0))
      × ((wait_result (pos k) ≡ pos 0) ⊎ (wait_result (pos k) ≡ pos 1))
unfolding wait_result
status_result zero = (((λ h. refl), (λ h. refl)), inr refl)
status_result (suc k) = (((λ h. ground arith), (λ h. ground arith)), inl (ground arith))

exit_result :
    (c : ℤ)
    → ((wait_result (exit_status c) ≡ pos 1) ↔ (exit_status c ≡ pos 0))
      × ((wait_result (exit_status c) ≡ pos 0) ⊎ (wait_result (exit_status c) ≡ pos 1))
unfolding exit_status
exit_result (pos n) = status_result (n % 256 * 256)
exit_result (negsuc n) = status_result ((255 - n % 256) * 256)

-- When the child of `send_request` cannot open, write or close the pipe, it does not end: it returns
-- PIPE_ERROR into the caller, which goes on in two processes, and the parent gets 1 when the second
-- one ends with success and 0 (the result of a time limit) otherwise.
pub send_request-second_process :
    (s : SendEnv) (fifo : Fifo) (cmd : List ℕ)
    → s.forked ≡ true
    → s.mask_filled ≡ true
    → s.action_set ≡ true
    → s.alarm_rings ≡ false
    → (s.opened ≡ false) ⊎ ((s.written ≡ false) ⊎ (s.closed ≡ false))
    → let sent = send_request s (some fifo) (some cmd) in
      (sent.second ≡ some pipe_error)
      × ((sent.parent ≡ pos 1) ↔ (exit_status s.later_exit ≡ pos 0))
      × ((sent.parent ≡ pos 0) ⊎ (sent.parent ≡ pos 1))
unfolding send_request after_child
send_request-second_process s fifo cmd s1 s2 s3 s4 broken =
    let (p, e) = child_returns s cmd s2 s3 s4 broken in
    let (one, either) = exit_result s.later_exit in
    (simp (s1, e, after_child), simp (s1, e, after_child) one, simp (s1, e, after_child) either)
