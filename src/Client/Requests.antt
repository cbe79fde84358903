-- ===== src/Client/Requests.antt =====
-- client.c: which requests a session of the client leaves in its pipe.
use local_server_c.Base.{
  ℕ, suc, ◌≡◌, ◌≢◌, refl, sym, ap, ◌∙◌, Option, some, Bool, true, false, not, List, [], ◌∷◌, ◌++◌,
  ◌-◌, ◌==◌, ◌⊎◌, inl, inr, Bool-cases, if◌then◌else◌, map, take, All, pos, eqb_ℤ, arith,
}
use mathlib.Core.Path.{subst}
use local_server_c.Base.Text.{codes, c_str, strlen, same_text, eq_of_same_text}
use local_server_c.Request.{Fifo, request_bytes}
use local_server_c.Request.RoundTrip.{Sends, sent_whole}
use local_server_c.Response.{heard, listen_response}
use local_server_c.Commands.{is_command_available}
use local_server_c.Client.{
  cut_line, Exchange, Act, prompt, notice, unknown_command, request, answer, read_error, at_free,
  end_exchange, say_exit, go, hear, exchange, body, session,
}

-- What the acts of a session leave in the request pipe, in order.
abbrev pub requests : List Act → List (Option (List ℕ))
requests [] = []
requests (prompt ∷ acts) = requests acts
requests (notice n ∷ acts) = requests acts
requests (unknown_command s ∷ acts) = requests acts
requests (answer got ∷ acts) = requests acts
requests (request pipe ∷ acts) = pipe ∷ requests acts

-- A line without its last byte.
abbrev pub cut : List ℕ → List ℕ
cut line = take (strlen line - 1) (c_str line)

abbrev pub is_exit : List ℕ → Bool
is_exit s = same_text s (codes "exit")

-- Is the first word of the line a command?
abbrev pub known : List ℕ → Bool
known s = not (eqb_ℤ (is_command_available (some s)) (pos 0))

abbrev pub before_exit : List (List ℕ) → List (List ℕ)
before_exit [] = []
before_exit (s ∷ ss) = if is_exit s then [] else s ∷ before_exit ss

abbrev pub has_exit : List (List ℕ) → Bool
has_exit [] = false
has_exit (s ∷ ss) = if is_exit s then true else has_exit ss

abbrev pub known_only : List (List ℕ) → List (List ℕ)
known_only [] = []
known_only (s ∷ ss) = if known s then s ∷ known_only ss else known_only ss

-- The commands of a session before `exit`.
abbrev pub commands_of : List (List ℕ) → List (List ℕ)
commands_of lines = known_only (before_exit (map cut lines))

abbrev pub in_pipe : List (List ℕ) → List (Option (List ℕ))
in_pipe = map (λ s. some (request_bytes s))

-- Every call of an exchange works, and the response that comes is `got`.
pub record Answered (fuel : ℕ) (x : Exchange) (got : List ℕ) : Type 0 where
  pub sends : Sends x.send
  pub hears : listen_response fuel x.listen x.response ≡ heard (pos 1) got

pub requests-append : (as' bs : List Act) → requests (as' ++ bs) ≡ requests as' ++ requests bs
requests-append [] bs = refl
requests-append (prompt ∷ acts) bs = requests-append acts bs
requests-append (notice n ∷ acts) bs = requests-append acts bs
requests-append (unknown_command s ∷ acts) bs = requests-append acts bs
requests-append (answer got ∷ acts) bs = requests-append acts bs
requests-append (request pipe ∷ acts) bs = ap (◌∷◌ pipe) (requests-append acts bs)

none-known : known [] ≡ false
unfolding is_command_available c_str
none-known = refl

exit-found : known (codes "exit") ≡ true
unfolding is_command_available same_text c_str
exit-found = refl

pub cut_line-cut : (line : List ℕ) → strlen line ≢ 0 → cut_line line ≡ some (cut line)
unfolding cut_line
cut_line-cut line h = let e : (strlen line == 0) ≡ false = ground arith in simp (e, cut_line)

not-false : {b : Bool} → not b ≡ false → b ≡ true
not-false {b = true} h = refl
not-false {b = false} h = absurd (cc)

pub not-true : {b : Bool} → not b ≡ true → b ≡ false
not-true {b = true} h = absurd (cc)
not-true {b = false} h = refl

empty-unknown : (s : List ℕ) → same_text s [] ≡ true → known s ≡ false
empty-unknown s h = subst (λ t. known t ≡ false) (sym (eq_of_same_text s [] h)) none-known

pub exit-known : (s : List ℕ) → is_exit s ≡ true → known s ≡ true
exit-known s h = subst (λ t. known t ≡ true) (sym (eq_of_same_text s (codes "exit") h)) exit-found

pub known-nonempty : (s : List ℕ) → known s ≡ true → same_text s [] ≡ false
unfolding same_text
known-nonempty [] h = cc (none-known)
known-nonempty (c ∷ s) h = refl

module _ (fuel : ℕ) (fifo : Fifo) (x : Exchange) (got : List ℕ) (w : Answered fuel x got) where
  exchange-answered :
      (s : List ℕ)
      → exchange fuel fifo x s ≡ (prompt ∷ request (some (request_bytes s)) ∷ answer got ∷ [], go)
  unfolding exchange hear
  exchange-answered s = simp (sent_whole x.send w.sends fifo s, w.hears, exchange, hear)

  say_exit-answered :
      say_exit fuel fifo x
      ≡ (request (some (request_bytes (codes "exit"))) ∷ answer got ∷ [], at_free false)
  unfolding say_exit end_exchange
  say_exit-answered =
      simp (sent_whole x.send w.sends fifo (codes "exit"), w.hears, say_exit, end_exchange)

module _ (fuel : ℕ) (fifo : Fifo) (exchanges : ℕ → Exchange) where
  -- A line that is not a command gives a prompt, and a message where it is not empty.
  pub body-quiet :
      (i : ℕ) (s : List ℕ)
      → known s ≡ false
      → (body fuel fifo exchanges i s ≡ (prompt ∷ [], i, go))
        ⊎ (body fuel fifo exchanges i s ≡ (prompt ∷ unknown_command s ∷ [], i, go))
  unfolding body
  body-quiet i s h = elim (Bool-cases (same_text s [])) [
    | inl e ↦ inl (simp (e, body))
    | inr e ↦ inr (simp (e, not-false h, body))
  ]

  -- It leaves nothing in the pipe.
  pub body-unknown :
      (i : ℕ) (s : List ℕ)
      → known s ≡ false
      → (acts : List Act) × (body fuel fifo exchanges i s ≡ (acts, i, go)) × (requests acts ≡ [])
  body-unknown i s h = elim (body-quiet i s h) [
    | inl e ↦ (prompt ∷ [], e, refl)
    | inr e ↦ (prompt ∷ unknown_command s ∷ [], e, refl)
  ]

  pub body-known :
      (i : ℕ) (s got : List ℕ)
      → known s ≡ true
      → Answered fuel (exchanges i) got
      → body fuel fifo exchanges i s
        ≡ (prompt ∷ request (some (request_bytes s)) ∷ answer got ∷ [], suc i, go)
  unfolding body
  body-known i s got h w =
      simp (known-nonempty s h, not-true h, exchange-answered fuel fifo (exchanges i) got w s, body)

  pub session-end :
      (i : ℕ) (got : List ℕ)
      → Answered fuel (exchanges i) got
      → session fuel fifo exchanges i [] ≡ (
        prompt
            ∷ notice read_error
            ∷ request (some (request_bytes (codes "exit")))
            ∷ answer got
            ∷ [],
        at_free false,
      )
  unfolding session
  session-end i got w = simp (say_exit-answered fuel fifo (exchanges i) got w, session)

  pub session-go :
      (i i' : ℕ) (line : List ℕ) (lines : List (List ℕ)) (acts : List Act)
      → strlen line ≢ 0
      → is_exit (cut line) ≡ false
      → body fuel fifo exchanges i (cut line) ≡ (acts, i', go)
      → let (later, left) = session fuel fifo exchanges i' lines in
        session fuel fifo exchanges i (line ∷ lines) ≡ (acts ++ later, left)
  unfolding session
  session-go i i' line lines acts some_byte other b =
      simp (cut_line-cut line some_byte, b, other, session)

  pub session-exit :
      (i i' : ℕ) (line : List ℕ) (lines : List (List ℕ)) (acts : List Act)
      → strlen line ≢ 0
      → is_exit (cut line) ≡ true
      → body fuel fifo exchanges i (cut line) ≡ (acts, i', go)
      → session fuel fifo exchanges i (line ∷ lines) ≡ (acts, at_free true)
  unfolding session
  session-exit i i' line lines acts some_byte last b =
      simp (cut_line-cut line some_byte, b, last, session)

  module _ (answers : ℕ → List ℕ)
      (answered : (i : ℕ) → Answered fuel (exchanges i) (answers i)) where
    -- When every exchange works and `fgets` never stores a NUL first, the requests of a session are
    -- the commands that are typed before `exit`, in order, then `exit` once, typed or not; lines whose
    -- first word is no command are left out. The session is a success when `exit` was typed.
    pub session-requests :
        (lines : List (List ℕ))
        → All (λ line. strlen line ≢ 0) lines
        → (i : ℕ)
        → let (acts, left) = session fuel fifo exchanges i lines in
          (requests acts ≡ in_pipe (commands_of lines ++ codes "exit" ∷ []))
          × (left ≡ at_free (has_exit (map cut lines)))
    session-requests [] some_byte i = simp (session-end i (answers i) (answered i)) (refl, refl)
    session-requests (line ∷ lines) (first, rest) i = elim (Bool-cases (is_exit (cut line))) [
      | inl last ↦
          let e =
            session-exit i (suc i) line lines _ first last
              (body-known i (cut line) (answers i) (exit-known (cut line) last) (answered i)) in
          simp (e, last)
            (
              ap (λ s. some (request_bytes s) ∷ [])
                  (eq_of_same_text (cut line) (codes "exit") last),
              refl,
            )
      | inr other ↦ elim (Bool-cases (known (cut line))) [
        | inl k ↦
            let b = body-known i (cut line) (answers i) k (answered i) in
            let e = session-go i (suc i) line lines _ first other b in
            let IH = session-requests lines rest (suc i) in
            simp (e, other, k) (ap (◌∷◌ (some (request_bytes (cut line)))) IH.0, IH.1)
        | inr u ↦
            let (acts, b, nothing) = body-unknown i (cut line) u in
            let e = session-go i i line lines _ first other b in
            let IH = session-requests lines rest i in
            simp (e, other, u)
              (
                requests-append acts (session fuel fifo exchanges i lines).0
                    ∙ ap (λ l. l ++ requests (session fuel fifo exchanges i lines).0) nothing
                    ∙ IH.0,
                IH.1,
              )
      ]
    ]
