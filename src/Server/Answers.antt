-- ===== src/Server/Answers.antt =====
-- What the thread of a client sends to it.
use local_server_c.Base.{
  ℕ, zero, suc, ◌<◌, ◌≡◌, ap, ◌∙◌, Option, some, Bool, true, false, List, [], ◌∷◌, ◌++◌, ltb,
  length, take, drop, min, length-drop, take-append-drop, append-nil, append_assoc, map, pos, ltb_ℤ,
  eqb_ℤ, arith,
}
use local_server_c.Request.{listen_request}
use local_server_c.Server.Session.{
  pipe_buf, notice, response, goodbye, removes, waits, in_parent, Round, collected, collect,
  wait_returns, go, next_request, answer_client, parent_round, round, is_exit, session,
}

-- The buffer after the last `listen_request` of a round.
abbrev pub next_buffer : Round → List ℕ → List ℕ
next_buffer r buffer = (listen_request r.listen r.requests buffer).1

-- Every call of a round works: the parent reads at least a byte at a time, and the response is
-- received.
pub record Works (capacity : ℕ) (r : Round) (buffer : List ℕ) : Type 0 where
  pub sizes : ℕ → ℕ
  pub made : r.tube_made ≡ true
  pub parent : r.forked ≡ in_parent
  pub write_end : r.write_closed ≡ true
  pub read_end : r.read_closed ≡ true
  pub ends : wait_returns capacity r ≡ true
  pub grows : (i : ℕ) → r.reallocs i ≡ true
  pub moves : (i : ℕ) → r.reads i ≡ some (suc (sizes i))
  pub received : (n : ℕ) × (r.sent (r.output ++ 0 ∷ []) ≡ pos (suc n))
  pub heard : ltb_ℤ (listen_request r.listen r.requests buffer).0 (pos 0) ≡ false

module _ (reallocs : ℕ → Bool) (reads : ℕ → Option ℕ) (sizes : ℕ → ℕ)
    (grows : (i : ℕ) → reallocs i ≡ true) (moves : (i : ℕ) → reads i ≡ some (suc (sizes i))) where
  collect-all :
      (n i : ℕ) (got rest : List ℕ)
      → length rest < n
      → collect reallocs reads n i got rest ≡ collected (got ++ rest) false
  unfolding collect
  collect-all zero i got rest f = absurd (omega arith)
  collect-all (suc n) i got [] f =
      let nothing : min (min (suc (sizes i)) pipe_buf) 0 ≡ 0 = omega arith in
      simp (grows i, moves i, nothing, append-nil got, collect)
  collect-all (suc n) i got (c ∷ rest) f =
      let j = min (min (sizes i) 4095) (length rest) in
      let chunk : min (min (suc (sizes i)) pipe_buf) (suc (length rest)) ≡ suc j = omega arith in
      let left = length-drop j rest in
      simp (grows i, moves i, chunk, collect)
        (collect-all n (suc i) (got ++ c ∷ take j rest) (drop j rest) (omega arith)
          ∙ ap (λ l. collected l false)
              (append_assoc got (c ∷ take j rest) (drop j rest)
                ∙ ap (λ l. got ++ c ∷ l) (take-append-drop j rest)))

module _ (fuel capacity : ℕ) where
  round-answers :
      (r : Round) (buffer : List ℕ)
      → Works capacity r buffer
      → length r.output < fuel
      → round fuel capacity r buffer
        ≡ (response (r.output ++ 0 ∷ []) ∷ [], go (next_buffer r buffer))
  unfolding round parent_round answer_client next_request
  round-answers r buffer w f =
      let whole = collect-all r.reallocs r.reads w.sizes w.grows w.moves fuel 0 [] r.output f in
      let (n, sent) = w.received in
      let works : ltb_ℤ (r.sent (r.output ++ 0 ∷ [])) (pos 0) ≡ false = simp sent (ground arith) in
      let in_time : eqb_ℤ (r.sent (r.output ++ 0 ∷ [])) (pos 0) ≡ false =
        simp sent (ground arith) in
      simp (
        w.made, w.parent, w.write_end, w.ends, whole, w.read_end, works, in_time, w.heard, round,
        parent_round,
      )

  -- The requests of a client: at every round a command other than `exit`, and `exit` at the end.
  abbrev pub Serves : List Round → List ℕ → Type 0
  Serves [] buffer = is_exit buffer ≡ true
  Serves (r ∷ rs) buffer =
      (is_exit buffer ≡ false)
      × Works capacity r buffer
      × (length r.output < fuel)
      × Serves rs (next_buffer r buffer)

  -- When every call works, a client that sends commands and then `exit` is answered, in order and
  -- once, with the whole output of each command, then with the goodbye, and is removed.
  pub session-answers :
      (rs : List Round) (buffer : List ℕ)
      → Serves rs buffer
      → session fuel capacity rs buffer
        ≡ (map (λ r. response (r.output ++ 0 ∷ [])) rs ++ notice goodbye ∷ [], removes)
  unfolding session
  session-answers [] buffer h = simp h
  session-answers (r ∷ rs) buffer (other, w, f, later) =
      let one = round-answers r buffer w f in
      let IH = session-answers rs (next_buffer r buffer) later in simp (other, one, IH, session)

  -- A command that writes more than the tube holds in the forked child itself is never answered: the
  -- parent waits for the child's end before it reads, and the thread stays there.
  pub session-stuck :
      (r : Round) (rs : List Round) (buffer : List ℕ)
      → is_exit buffer ≡ false
      → r.tube_made ≡ true
      → r.forked ≡ in_parent
      → r.write_closed ≡ true
      → r.child_writes ≡ true
      → capacity < length r.output
      → session fuel capacity (r ∷ rs) buffer ≡ ([], waits)
  unfolding session round parent_round wait_returns
  session-stuck r rs buffer other made parent closed own big =
      let over : ltb capacity (length r.output) ≡ true = ground arith in
      simp (other, made, parent, closed, own, over, session, round, parent_round)
