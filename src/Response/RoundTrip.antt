-- ===== src/Response/RoundTrip.antt =====
-- A message that is sent is the message that is heard.
use local_server_c.Base.{
  ℕ, zero, suc, ◌+◌, ◌-◌, ◌≤◌, ◌<◌, ◌≡◌, refl, ap, ◌∙◌, none, some, true, false, List, [], ◌∷◌,
  ◌++◌, ◌==◌, length, take, drop, min, pos, ltb, arith, append-nil, append_assoc, take-append-drop,
  length-drop, length-take, length-append, Bool-cases, inl, inr,
}
use mathlib.Core.Path.{subst}
use local_server_c.Base.Text.{NulFree, fit, c_str, strlen, c_str-NulFree}
use local_server_c.Response.{
  Message, SendEnv, send_response, send_child, heard, listen_response, give_buffer, response_size,
  wait_result, exit_status, Limit, may_write, Write, moved, write_loop, ListenEnv, read_loop,
}

-- The limit lets the rest be written.
abbrev pub Within : Limit → ℕ → Type 0
Within max total = (m : ℕ) → max ≡ some m → total ≤ m

write_split : (out rest : List ℕ) → (j : ℕ) → (out ++ take j rest) ++ drop j rest ≡ out ++ rest
write_split out rest j =
    append_assoc out (take j rest) (drop j rest) ∙ ap (λ l. out ++ l) (take-append-drop j rest)

writable : (max : Limit) → (total k : ℕ) → Within max (total + suc k) → may_write max total ≡ true
writable none total k w = refl
writable (some m) total k w = let room = w m refl in ground arith

module _ (writes : ℕ → Write) (max : Limit) (sizes : ℕ → ℕ)
    (works : (i : ℕ) → writes i ≡ moved (suc (sizes i))) where
  write_loop-all :
      (n i total : ℕ)
      → (rest out : List ℕ) → length rest < n
      → Within max (total + length rest)
      → write_loop writes max n i total rest out ≡ some (pos 0, out ++ rest)
  unfolding write_loop
  write_loop-all zero i total rest out f w = absurd (omega arith)
  write_loop-all (suc n) i total [] out f w = elim (Bool-cases (may_write max total)) [
    | inl e ↦
        let nothing : min (suc (sizes i)) 0 ≡ 0 = omega arith in
        simp (e, works i, nothing, append-nil out, write_loop)
    | inr e ↦ simp (e, append-nil out, write_loop)
  ]
  write_loop-all (suc n) i total (c ∷ rest) out f w =
      let j = min (sizes i) (length rest) in
      let some_bytes : min (suc (sizes i)) (suc (length rest)) ≡ suc j = omega arith in
      let left = length-drop j rest in
      let sum : total + suc (length rest) ≡ total + suc j + length (drop j rest) = omega arith in
      let room = subst (Within max) sum w in
      simp (writable max total (length rest) w, works i, some_bytes, write_loop)
        (write_loop-all n (suc i) (total + suc j) (drop j rest) (out ++ c ∷ take j rest)
            (omega arith) room
          ∙ ap (λ l. some (pos 0, l)) (write_split out (c ∷ rest) (suc j)))

module _ (env : ListenEnv) (sizes : ℕ → ℕ) (works : (i : ℕ) → env.reads i ≡ some (suc (sizes i)))
    (ready : (i : ℕ) → env.selects i ≡ some true) where
  read_loop-all :
      (size n i total : ℕ)
      → (rest got : List ℕ) → length rest < n
      → total + length rest ≡ size
      → read_loop env size n i total rest got ≡ some (pos 1, got ++ rest)
  unfolding read_loop
  read_loop-all size zero i total rest got f e = absurd (omega arith)
  read_loop-all size (suc n) i total [] got f e =
      let full : ltb total size ≡ false = ground arith in simp (full, append-nil got, read_loop)
  read_loop-all size (suc n) i total (c ∷ rest) got f e =
      let more : ltb total size ≡ true = ground arith in
      let j = min (sizes i) (length rest) in
      let some_bytes : min (suc (sizes i)) (min (suc (length rest)) (size - total)) ≡ suc j =
        omega arith in
      let left = length-drop j rest in
      simp (more, ready i, works i, some_bytes, read_loop)
        (read_loop-all size n (suc i) (total + suc j) (drop j rest) (got ++ c ∷ take j rest)
            (omega arith) (omega arith)
          ∙ ap (λ l. some (pos 1, l)) (write_split got (c ∷ rest) (suc j)))

  -- When every `select` is ready and no `read` fails, at the end of the pipe before `size` bytes the
  -- loop of `listen_response` never ends: `read` gives 0 bytes, which is not taken for the end.
  pub read_loop-short :
      (size n i total : ℕ)
      → (got : List ℕ) → total < size
      → read_loop env size n i total [] got ≡ none
  unfolding read_loop
  read_loop-short size zero i total got less = refl
  read_loop-short size (suc n) i total got less =
      let more : ltb total size ≡ true = ground arith in
      let nothing : min (suc (sizes i)) (min 0 (size - total)) ≡ 0 = omega arith in
      let same : total + 0 ≡ total = omega arith in
      simp (more, ready i, works i, nothing, same, append-nil got, read_loop)
        (read_loop-short size n (suc i) total got less)

fit_taken :
    (n : ℕ)
    → (s : List ℕ) → NulFree s
    → n ≤ length s + 1
    → fit n (c_str (take n (s ++ 0 ∷ []))) ≡ take n (s ++ 0 ∷ [])
unfolding fit c_str
fit_taken zero s h b = refl
fit_taken (suc zero) [] h b = refl
fit_taken (suc (suc n)) [] h b = absurd (omega arith)
fit_taken (suc n) (c ∷ s) (nz, h) b =
    let other : (c == 0) ≡ false = ground arith in
    simp other (ap (λ l. c ∷ l) (fit_taken n s h (omega arith)))

size_bound : (s : List ℕ) → (max : Limit) → NulFree s → response_size s max ≤ length s + 1
unfolding response_size strlen
size_bound s none h = rw (c_str-NulFree s h) (omega arith)
size_bound s (some m) h =
    let same : length (c_str s) ≡ length s = ap length (c_str-NulFree s h) in ground arith

size-Within : (s : List ℕ) → (max : Limit) → Within max (response_size s max)
unfolding response_size
size-Within s none m e = cc
size-Within s (some m) m' e = ground arith

-- The calls of a run without failure: every `write` and `read` moves at least a byte.
abbrev pub IsSound : SendEnv → ListenEnv → Type 0
IsSound s l =
    ((s.allocated ≡ true)
      × (s.forked ≡ true)
      × (s.mask_filled ≡ true)
      × (s.action_set ≡ true)
      × (s.alarm_rings ≡ false)
      × (s.opened ≡ true)
      × (s.header_written ≡ true)
      × (s.closed ≡ true))
    × ((l.opened ≡ true)
        × (l.first_select ≡ some true)
        × (l.header_read ≡ true)
        × (l.allocated ≡ true)
        × (l.buffer_allocated ≡ true)
        × (l.closed ≡ true))

-- When no call fails, no time limit is reached and every `write` and `read` moves at least a byte, a
-- message that `send_response` sends (with result 1) is heard by `listen_response` (with result 1)
-- when each loop has a round for each byte and two more: the buffer holds the bytes of the string and
-- its NUL, up to the limit (so no NUL, when the limit is at most the length).
pub send_response-listen_response :
    (s : SendEnv)
    → (l : ListenEnv) → (ws rs : ℕ → ℕ) → IsSound s l
    → ((i : ℕ) → s.writes i ≡ moved (suc (ws i)))
    → ((i : ℕ) → l.reads i ≡ some (suc (rs i)))
    → ((i : ℕ) → l.selects i ≡ some true)
    → (msg : List ℕ) → (max : Limit) → NulFree msg
    → (fuel fuel' : ℕ) → length msg + 2 ≤ fuel
    → length msg + 2 ≤ fuel'
    → (res : Message) × (send_response fuel s msg max ≡ some (pos 1, some res))
      × (listen_response fuel' l (some res)
          ≡ heard (pos 1) (take (response_size msg max) (msg ++ 0 ∷ [])))
unfolding send_response send_child listen_response give_buffer wait_result exit_status
send_response-listen_response s l ws rs ((s1, s2, s3, s4, s5, s6, s7, s8), (l1, l2, l3, l4, l5, l6))
      writes reads ready msg max h fuel fuel' enough enough' =
    let size = response_size msg max in
    let bytes = take size (msg ++ 0 ∷ []) in
    let bound = size_bound msg max h in
    let len : length bytes ≡ size =
      omega (arith, length-take size (msg ++ 0 ∷ []), length-append msg (0 ∷ [])) in
    let sum : response_size msg max ≡ 0 + length bytes = omega (arith, len) in
    let sum' : 0 + length bytes ≡ size = omega (arith, len) in
    let sent =
      write_loop-all s.writes max ws writes fuel 0 0 bytes [] (omega arith)
        (subst (Within max) sum (size-Within msg max)) in
    let got = read_loop-all l rs reads ready size fuel' 0 0 bytes [] (omega arith) sum' in
    (
      record { size = size; msg = bytes },
      simp (s1, s2, s3, s4, s5, s6, s7, s8, c_str-NulFree msg h, sent, send_child),
      simp (l1, l2, l3, l4, l5, l6, got, fit_taken size msg h bound, give_buffer, listen_response),
    )
