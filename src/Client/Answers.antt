-- ===== src/Client/Answers.antt =====
-- client.c: what a session of the client prints of the responses.
use local_server_c.Base.{
  ℕ, zero, suc, ◌≡◌, ◌≢◌, refl, ap, ◌∙◌, false, List, [], ◌∷◌, ◌++◌, inl, inr, Bool-cases, length,
  All,
}
use local_server_c.Base.Text.{c_str, strlen}
use local_server_c.Request.{Fifo}
use local_server_c.Client.{
  Exchange, Act, prompt, notice, unknown_command, request, answer, go, body, session,
}
use local_server_c.Client.Requests.{
  Answered, cut, is_exit, known, commands_of, body-known, body-quiet, exit-known, session-go,
  session-exit, session-end,
}

-- The responses that the acts of a session print, as `printf` reads them.
abbrev pub shown : List Act → List (List ℕ)
shown [] = []
shown (prompt ∷ acts) = shown acts
shown (notice n ∷ acts) = shown acts
shown (unknown_command s ∷ acts) = shown acts
shown (request pipe ∷ acts) = shown acts
shown (answer got ∷ acts) = c_str got ∷ shown acts

-- `n` values of a function from `i` on.
abbrev pub values_from : (ℕ → List ℕ) → ℕ → ℕ → List (List ℕ)
values_from f i zero = []
values_from f i (suc n) = f i ∷ values_from f (suc i) n

shown-append : (as' bs : List Act) → shown (as' ++ bs) ≡ shown as' ++ shown bs
shown-append [] bs = refl
shown-append (prompt ∷ acts) bs = shown-append acts bs
shown-append (notice n ∷ acts) bs = shown-append acts bs
shown-append (unknown_command s ∷ acts) bs = shown-append acts bs
shown-append (request pipe ∷ acts) bs = shown-append acts bs
shown-append (answer got ∷ acts) bs = ap (◌∷◌ (c_str got)) (shown-append acts bs)

module _ (fuel : ℕ) (fifo : Fifo) (exchanges : ℕ → Exchange) (answers : ℕ → List ℕ)
    (answered : (i : ℕ) → Answered fuel (exchanges i) (answers i)) where
  -- A line that is not a command prints no response.
  body-silent :
      (i : ℕ) (s : List ℕ)
      → known s ≡ false
      → (acts : List Act) × (body fuel fifo exchanges i s ≡ (acts, i, go)) × (shown acts ≡ [])
  body-silent i s h = elim (body-quiet fuel fifo exchanges i s h) [
    | inl e ↦ (prompt ∷ [], e, refl)
    | inr e ↦ (prompt ∷ unknown_command s ∷ [], e, refl)
  ]

  -- When every exchange works, the responses that a session prints are those of its exchanges, one for
  -- each command before `exit` and one for `exit`.
  pub session-shown :
      (lines : List (List ℕ))
      → All (λ line. strlen line ≢ 0) lines
      → (i : ℕ)
      → shown (session fuel fifo exchanges i lines).0
        ≡ values_from (λ j. c_str (answers j)) i (suc (length (commands_of lines)))
  session-shown [] some_byte i =
      simp (session-end fuel fifo exchanges i (answers i) (answered i)) refl
  session-shown (line ∷ lines) (first, rest) i = elim (Bool-cases (is_exit (cut line))) [
    | inl last ↦
        let e = session-exit fuel fifo exchanges i (suc i) line lines _ first last (
          body-known fuel fifo exchanges i (cut line) (answers i) (exit-known (cut line) last)
            (answered i)) in
        simp (e, last) refl
    | inr other ↦ elim (Bool-cases (known (cut line))) [
      | inl k ↦
          let b = body-known fuel fifo exchanges i (cut line) (answers i) k (answered i) in
          let e = session-go fuel fifo exchanges i (suc i) line lines _ first other b in
          simp (e, other, k) (ap (◌∷◌ (c_str (answers i))) (session-shown lines rest (suc i)))
      | inr u ↦
          let (acts, b, nothing) = body-silent i (cut line) u in
          let e = session-go fuel fifo exchanges i i line lines _ first other b in
          simp (e, other, u)
            (shown-append acts (session fuel fifo exchanges i lines).0
              ∙ ap (λ l. l ++ shown (session fuel fifo exchanges i lines).0) nothing
              ∙ session-shown lines rest i)
    ]
  ]
