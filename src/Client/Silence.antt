-- ===== src/Client/Silence.antt =====
-- client.c: what the loop does when the server does not answer.
use local_server_c.Base.{
  ℕ, zero, suc, ◌+◌, ◌<◌, ◌≡◌, ◌≢◌, refl, ap, ◌∙◌, some, true, false, List, [], ◌∷◌, ◌++◌, inl, inr,
  Bool-cases, take, length, All, ℤ, pos, ltb_ℤ, eqb_ℤ, arith,
}
use mathlib.Core.Path.{subst}
use local_server_c.Base.Text.{strlen}
use local_server_c.Request.{Fifo, request_bytes}
use local_server_c.Request.RoundTrip.{Sends, sent_whole}
use local_server_c.Response.{heard, listen_response}
use local_server_c.Client.{
  Exchange, prompt, Notice, not_received, no_answer, notice, request, at_free, stop, hear, exchange,
  body, session,
}
use local_server_c.Client.Requests.{
  Answered, requests, requests-append, cut, is_exit, known, commands_of, in_pipe, known-nonempty,
  not-true, cut_line-cut, body-unknown, body-known, session-go,
}

-- The request of an exchange is sent, and no response is received.
pub record Unanswered (fuel : ℕ) (x : Exchange) : Type 0 where
  pub sends : Sends x.send
  pub result : ℤ
  pub got : List ℕ
  pub hears : listen_response fuel x.listen x.response ≡ heard result got
  pub bad : ltb_ℤ (pos 0) result ≡ false

not-positive : (r : ℤ) → ltb_ℤ (pos 0) r ≡ false → ltb_ℤ r (pos 0) ≡ false → eqb_ℤ r (pos 0) ≡ true
not-positive r h k = ground arith

commands_of-known :
    (line : List ℕ) (lines : List (List ℕ))
    → is_exit (cut line) ≡ false
    → known (cut line) ≡ true
    → commands_of (line ∷ lines) ≡ cut line ∷ commands_of lines
commands_of-known line lines other k = simp (other, k)

commands_of-unknown :
    (line : List ℕ) (lines : List (List ℕ))
    → is_exit (cut line) ≡ false
    → known (cut line) ≡ false
    → commands_of (line ∷ lines) ≡ commands_of lines
commands_of-unknown line lines other u = simp (other, u)

module _ (fuel : ℕ) (fifo : Fifo) (exchanges : ℕ → Exchange) where
  exchange-Unanswered :
      (x : Exchange) (s : List ℕ)
      → Unanswered fuel x
      → (n : Notice) × (exchange fuel fifo x s
          ≡ (prompt ∷ request (some (request_bytes s)) ∷ notice n ∷ [], stop (at_free true)))
  unfolding exchange hear
  exchange-Unanswered x s w = elim (Bool-cases (ltb_ℤ w.result (pos 0))) [
    | inl e ↦ (not_received, simp (sent_whole x.send w.sends fifo s, w.hears, e, exchange, hear))
    | inr e ↦ (
      no_answer,
      simp (
        sent_whole x.send w.sends fifo s,
        w.hears,
        e,
        not-positive w.result w.bad e,
        exchange,
        hear,
      ),
    )
  ]

  session-Unanswered :
      (i : ℕ) (line : List ℕ) (lines : List (List ℕ))
      → strlen line ≢ 0
      → known (cut line) ≡ true
      → Unanswered fuel (exchanges i)
      → (n : Notice) × (session fuel fifo exchanges i (line ∷ lines)
          ≡ (prompt ∷ request (some (request_bytes (cut line))) ∷ notice n ∷ [], at_free true))
  unfolding session body
  session-Unanswered i line lines some_byte k w =
      let (n, e) = exchange-Unanswered (exchanges i) (cut line) w in
      (
        n,
        simp (
          cut_line-cut line some_byte,
          known-nonempty (cut line) k,
          not-true k,
          e,
          session,
          body,
        ),
      )

  module _ (k : ℕ) (answers : ℕ → List ℕ)
      (answered : (i : ℕ) → i < k → Answered fuel (exchanges i) (answers i))
      (silent : Unanswered fuel (exchanges k)) where
    silent_now :
        (line : List ℕ) (lines : List (List ℕ)) (i : ℕ)
        → strlen line ≢ 0
        → known (cut line) ≡ true
        → k ≡ i
        → let (acts, left) = session fuel fifo exchanges i (line ∷ lines) in
          (requests acts ≡ in_pipe (cut line ∷ [])) × (left ≡ at_free true)
    silent_now line lines i first c at =
        let w = subst (λ j. Unanswered fuel (exchanges j)) at silent in
        let (n, e) = session-Unanswered i line lines first c w in simp e (refl, refl)

    -- A line that is not a command changes nothing of what follows.
    silent_later :
        (line : List ℕ) (lines : List (List ℕ))
        → strlen line ≢ 0
        → (i d : ℕ) → is_exit (cut line) ≡ false
        → known (cut line) ≡ false
        → d < length (commands_of (line ∷ lines))
        → (d < length (commands_of lines)
            → (let (acts, left) = session fuel fifo exchanges i lines in
                (requests acts ≡ in_pipe (take (suc d) (commands_of lines)))
                × (left ≡ at_free true)))
        → let (acts, left) = session fuel fifo exchanges i (line ∷ lines) in
          (requests acts ≡ in_pipe (take (suc d) (commands_of (line ∷ lines))))
          × (left ≡ at_free true)
    silent_later line lines first i d other u more later =
        let same = commands_of-unknown line lines other u in
        let (acts, b, nothing) = body-unknown fuel fifo exchanges i (cut line) u in
        let e = session-go fuel fifo exchanges i i line lines _ first other b in
        let IH = later (subst (λ cs. d < length cs) same more) in
        rw same (
          simp e (
            requests-append acts (session fuel fifo exchanges i lines).0
                ∙ ap (λ l. l ++ requests (session fuel fifo exchanges i lines).0) nothing
                ∙ IH.0,
            IH.1,
          ))

    silent_from :
        (lines : List (List ℕ))
        → All (λ line. strlen line ≢ 0) lines
        → (i d : ℕ) → k ≡ i + d
        → d < length (commands_of lines)
        → let (acts, left) = session fuel fifo exchanges i lines in
          (requests acts ≡ in_pipe (take (suc d) (commands_of lines))) × (left ≡ at_free true)
    silent_from [] some_byte i d at more = absurd (omega arith)
    silent_from (line ∷ lines) (first, rest) i zero at more =
        elim (Bool-cases (is_exit (cut line))) [
          | inl last ↦ absurd (ground arith)
          | inr other ↦ elim (Bool-cases (known (cut line))) [
            | inl c ↦
                rw (commands_of-known line lines other c)
                  (silent_now line lines i first c (omega arith))
            | inr u ↦ silent_later line lines first i 0 other u more (silent_from lines rest i 0 at)
          ]
        ]
    silent_from (line ∷ lines) (first, rest) i (suc d) at more =
        elim (Bool-cases (is_exit (cut line))) [
          | inl last ↦ absurd (ground arith)
          | inr other ↦ elim (Bool-cases (known (cut line))) [
            | inl c ↦
                let b =
                  body-known fuel fifo exchanges i (cut line) (answers i) c
                    (answered i (omega arith)) in
                let e = session-go fuel fifo exchanges i (suc i) line lines _ first other b in
                let more' =
                  subst (λ cs. suc d < length cs) (commands_of-known line lines other c) more in
                let IH = silent_from lines rest (suc i) d (omega arith) (omega arith) in
                rw (commands_of-known line lines other c)
                  (simp e (ap (◌∷◌ (some (request_bytes (cut line)))) IH.0, IH.1))
            | inr u ↦
                silent_later line lines first i (suc d) other u more
                  (silent_from lines rest i (suc d) at)
          ]
        ]

    -- When the server answers `k` exchanges and then takes a request without answering it, and more
    -- than `k` commands are typed before `exit`, the client has sent the first `k + 1` of them, and
    -- leaves its loop as with success.
    pub session-silent :
        (lines : List (List ℕ))
        → All (λ line. strlen line ≢ 0) lines
        → k < length (commands_of lines)
        → let (acts, left) = session fuel fifo exchanges 0 lines in
          (requests acts ≡ in_pipe (take (suc k) (commands_of lines))) × (left ≡ at_free true)
    session-silent lines some_byte more = silent_from lines some_byte 0 k (omega arith) more
