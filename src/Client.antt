-- ===== src/Client.antt =====
-- client.c: what the user types and what the client sends for it, the command loop of main. Each
-- exchange with the server has what the system answers in it.
pub mod Life
pub mod Requests
mod Silence
pub mod Answers
pub mod Starting
pub mod Ending
pub mod Tests
use local_server_c.Base.{
  ℕ, zero, suc, ◌-◌, Option, none, some, Bool, true, false, not, List, [], ◌∷◌, ◌++◌, ◌==◌, ◌||◌,
  if◌then◌else◌, take, ℤ, pos, ltb_ℤ, eqb_ℤ,
}
use local_server_c.Base.Text.{codes, c_str, strlen, same_text}
use local_server_c.Request
use local_server_c.Request.{Fifo, send_request}
use local_server_c.Response
use local_server_c.Response.{Message, heard, undefined, running, listen_response}
use local_server_c.Commands.{is_command_available}

-- MAX_COMMAND_LENGTH - 1: how many bytes a call of `fgets` stores at most.
abbrev pub line_max : ℕ
line_max = 255

-- What the calls of `fgets` on `stdin` store in turn, after which it returns NULL: `room` bytes are
-- left to the call that has stored `line`.
unfoldable pub typed_from : ℕ → List ℕ → List ℕ → List (List ℕ)
typed_from room [] [] = []
typed_from room (b ∷ line) [] = (b ∷ line) ∷ []
typed_from room line (c ∷ input) =
    let whole = line ++ c ∷ [] in
    let ended = whole ∷ typed_from (line_max - 1) [] input in
    let longer = typed_from (room - 1) whole input in if c == 10 || room == 0 then ended else longer

unfoldable pub typed : List ℕ → List (List ℕ)
unfolding typed_from
typed input = typed_from (line_max - 1) [] input

-- `s[strlen(s) - 1] = '\0'`: the string that `s` holds after it, or a write before `s`.
unfoldable pub cut_line : List ℕ → Option (List ℕ)
cut_line line = if strlen line == 0 then none else some (take (strlen line - 1) (c_str line))

-- An exchange: the two calls, and what the response pipe holds.
pub record Exchange : Type 0 where
  pub send : Request.SendEnv
  pub listen : Response.ListenEnv
  pub response : Option Message

-- The messages to the user besides the responses.
pub data Notice : Type 0 where
  read_error no_goodbye overloaded not_sent not_received no_answer : Notice

-- What the loop does to others: the prompt, a notice, a command that is not known, what a call of
-- `send_request` leaves in the pipe, and a response that is printed.
pub data Act : Type 0 where
  prompt : Act
  notice : Notice → Act
  unknown_command : List ℕ → Act
  request : Option (List ℕ) → Act
  answer : List ℕ → Act

-- How the loop is left: at the label `free`, where `good` says that `r` is EXIT_SUCCESS; in a call of
-- `listen_response` that does not end, or whose size nothing has set; by the write before `s`.
pub data Left : Type 0 where
  at_free : (good : Bool) → Left
  listens unset faults : Left

-- The exchange of `exit` where `fgets` returns NULL, and in `sig_disconnect`; `good` says that it works.
unfoldable pub end_exchange : ℕ → Fifo → Exchange → List Act × Left
end_exchange fuel fifo x =
    let sent = send_request x.send (some fifo) (some (codes "exit")) in
    let acts = request sent.pipe ∷ [] in
    if not (ltb_ℤ (pos 0) sent.parent)
    then (acts ++ notice no_goodbye ∷ [], at_free false)
    else elim (listen_response fuel x.listen x.response) [
      | heard r got ↦
          if ltb_ℤ (pos 0) r
          then (acts ++ answer got ∷ [], at_free true)
          else (acts ++ notice no_goodbye ∷ [], at_free false)
      | undefined ↦ (acts, unset)
      | running ↦ (acts, listens)
    ]

-- The branch where `fgets` returns NULL.
unfoldable pub say_exit : ℕ → Fifo → Exchange → List Act × Left
unfolding end_exchange
say_exit fuel fifo x =
    let (acts, left) = end_exchange fuel fifo x in
    elim left [
      | at_free good ↦ (acts, at_free false)
      | listens ↦ (acts, listens)
      | unset ↦ (acts, unset)
      | faults ↦ (acts, faults)
    ]

-- What a round leaves: the end of the loop, or its condition.
pub data Next : Type 0 where
  stop : Left → Next
  go : Next

-- A round from `listen_response` on.
unfoldable pub hear : ℕ → Exchange → List Act → List Act × Next
hear fuel x acts = elim (listen_response fuel x.listen x.response) [
  | heard r got ↦
      if ltb_ℤ r (pos 0)
      then (acts ++ notice not_received ∷ [], stop (at_free true))
      else if eqb_ℤ r (pos 0)
      then (acts ++ notice no_answer ∷ [], stop (at_free true))
      else (acts ++ answer got ∷ [], go)
  | undefined ↦ (acts, stop unset)
  | running ↦ (acts, stop listens)
]

-- A round from `send_request` on.
unfoldable pub exchange : ℕ → Fifo → Exchange → List ℕ → List Act × Next
unfolding hear
exchange fuel fifo x s =
    let sent = send_request x.send (some fifo) (some s) in
    let acts = prompt ∷ request sent.pipe ∷ [] in
    if eqb_ℤ sent.parent (pos 0)
    then (acts ++ notice overloaded ∷ [], stop (at_free false))
    else if ltb_ℤ sent.parent (pos 0)
    then (acts ++ notice not_sent ∷ [], stop (at_free false))
    else hear fuel x acts

-- The loop on what `fgets` stores, from the exchange of number `i` on.
module _ (fuel : ℕ) (fifo : Fifo) (exchanges : ℕ → Exchange) where
  -- The body of a round, once the line is cut; with the number of the next exchange.
  unfoldable pub body : ℕ → List ℕ → List Act × ℕ × Next
  unfolding exchange
  body i s =
      if same_text s []
      then (prompt ∷ [], i, go)
      else if eqb_ℤ (is_command_available (some s)) (pos 0)
      then (prompt ∷ unknown_command s ∷ [], i, go)
      else (let (acts, next) = exchange fuel fifo (exchanges i) s in (acts, suc i, next))

  unfoldable pub session : ℕ → List (List ℕ) → List Act × Left
  unfolding say_exit body
  session i [] =
      let (acts, left) = say_exit fuel fifo (exchanges i) in
      (prompt ∷ notice read_error ∷ acts, left)
  session i (line ∷ lines) = elim (cut_line line) [
    | none ↦ (prompt ∷ [], faults)
    | some s ↦
        let (acts, i', next) = body i s in
        let (later, left) = session i' lines in
        elim next [
          | stop end ↦ (acts, end)
          | go ↦ if same_text s (codes "exit") then (acts, at_free true) else (acts ++ later, left)
        ]
  ]
