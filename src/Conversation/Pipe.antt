-- ===== src/Conversation/Pipe.antt =====
-- connection.c: what the client hears of a message that the server sends, over the response pipe between
-- them.
use local_server_c.Base.{
  ℕ, suc, ◌+◌, ◌≤◌, ◌≡◌, refl, sym, ap, ap₂, ◌∙◌, Option, none, some, true, not, List, [], ◌∷◌,
  ◌++◌, if◌then◌else◌, length, take, take_all, length-append, ℤ, pos, arith,
}
use local_server_c.Base.Text.{length-c_str_le, c_str, strlen, NulFree-c_str, c_str-NulFree}
use local_server_c.Request
use local_server_c.Request.RoundTrip.{Sends}
use local_server_c.Response
use local_server_c.Response.{
  memory_error, proc_error, wait_result, exit_status, Message, Limit, moved, response_size,
  send_child, send_response, listen_response, heard,
}
use local_server_c.Response.RoundTrip.{IsSound, send_response-listen_response}
use local_server_c.Client.Requests.{Answered}

c_str-c_str : (s : List ℕ) → c_str (c_str s) ≡ c_str s
c_str-c_str s = c_str-NulFree (c_str s) (NulFree-c_str s)

response_size-c_str :
    (msg : List ℕ) (max : Limit) → response_size (c_str msg) max ≡ response_size msg max
unfolding response_size strlen
response_size-c_str msg none = simp (c_str-c_str msg)
response_size-c_str msg (some m) = simp (c_str-c_str msg)

-- `send_response` reads its message up to the first NUL.
send_response-c_str :
    (fuel : ℕ) (s : Response.SendEnv) (msg : List ℕ) (max : Limit)
    → send_response fuel s (c_str msg) max ≡ send_response fuel s msg max
unfolding send_response
send_response-c_str fuel s msg max =
    ap₂
      (λ size t.
        if not s.allocated
        then some (memory_error, none)
        else if not s.forked
        then some (proc_error, none)
        else elim (send_child fuel s (record { size = size; msg = take size (t ++ 0 ∷ []) }) max) [
          | none ↦ none
          | some (code, pipe) ↦ some (wait_result (exit_status code), pipe)
        ])
      (response_size-c_str msg max) (c_str-c_str msg)

-- The pipe of a response: every call works and moves at least a byte.
pub record Works (s : Response.SendEnv) (l : Response.ListenEnv) : Type 0 where
  pub sound : IsSound s l
  pub written : ℕ → ℕ
  pub read : ℕ → ℕ
  pub writes : (i : ℕ) → s.writes i ≡ moved (suc (written i))
  pub reads : (i : ℕ) → l.reads i ≡ some (suc (read i))
  pub ready : (i : ℕ) → l.selects i ≡ some true

-- A message is within the limit, and the fuel enough for its bytes.
abbrev pub Carried : Limit → ℕ → ℕ → List ℕ → Type 0
Carried max fuel fuel' text =
    (response_size text max ≡ strlen text + 1)
    × (length text + 2 ≤ fuel)
    × (length text + 2 ≤ fuel')

-- The result of a call of `send_response`, and what it leaves in the pipe.
abbrev pub result : Option (ℤ × Option Message) → ℤ
result none = pos 0
result (some (r, pipe)) = r

abbrev pub left : Option (ℤ × Option Message) → Option Message
left none = none
left (some (r, pipe)) = pipe

module _ (s : Response.SendEnv) (l : Response.ListenEnv) (w : Works s l) (max : Limit)
    (fuel fuel' : ℕ) (text : List ℕ) (c : Carried max fuel fuel' text) where
  -- A text is heard up to its first NUL, with a NUL after it.
  delivered :
      (res : Message) × (send_response fuel s text max ≡ some (pos 1, some res))
      × (listen_response fuel' l (some res) ≡ heard (pos 1) (c_str text ++ 0 ∷ []))
  unfolding strlen
  delivered =
      let (fits, enough, enough') = c in
      let short = length-c_str_le text in
      let (res, sent, got) =
        send_response-listen_response s l w.written w.read w.sound w.writes w.reads w.ready
          (c_str text) max (NulFree-c_str text) fuel fuel' (omega (arith, short))
          (omega (arith, short)) in
      let size = response_size-c_str text max in
      let same : strlen text ≡ length (c_str text) = refl in
      let len = length-append (c_str text) (0 ∷ []) in
      let whole =
        take_all (response_size (c_str text) max) (c_str text ++ 0 ∷ [])
          (omega (arith, size, fits, same, len)) in
      (res, sym (send_response-c_str fuel s text max) ∙ sent, got ∙ ap (heard (pos 1)) whole)

  pub delivered-result : result (send_response fuel s text max) ≡ pos 1
  delivered-result = let (res, sent, got) = delivered in ap result sent

  pub delivered-Answered :
      (ask : Request.SendEnv)
      → Sends ask
      → Answered fuel'
          (record { send = ask; listen = l; response = left (send_response fuel s text max) })
          (c_str text ++ 0 ∷ [])
  delivered-Answered ask works =
      let (res, sent, got) = delivered in
      record { sends = works; hears = ap (λ x. listen_response fuel' l (left x)) sent ∙ got }
