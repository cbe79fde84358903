-- ===== src/Response/Status.antt =====
-- What the parent of send_response makes of the code with which its child ends.
use local_server_c.Base.{
  ◌⊎◌, Option-cases, ℕ, zero, suc, ◌+◌, ◌≡◌, refl, sym, ap, ◌∙◌, Option, none, some, Bool, true,
  false, not, ◌&&◌, List, [], ◌∷◌, ◌++◌, length, take, drop, min, ℤ, pos, if◌then◌else◌, eqb_ℤ,
  Bool-cases, inl, inr,
}
use mathlib.Core.Path.{subst}
use local_server_c.Base.Text.{c_str}
use local_server_c.Response.{
  Message, SendEnv, send_response, send_child, response_size, pipe_error, sig_error, exit_sig,
  wait_result, exit_status, Limit, may_write, Write, write_fails, alarm, moved, write_loop,
}

-- The codes with which the child can end.
abbrev pub IsCode : ℤ → Type 0
IsCode code = (code ≡ pos 0) ⊎ ((code ≡ pos 1) ⊎ ((code ≡ pipe_error) ⊎ (code ≡ sig_error)))

-- A run that gives a code gives one of these.
abbrev Ends : {A : Type 0} → Option (ℤ × A) → Type 0
Ends none = Unit
Ends (some (code, a)) = IsCode code

Write-cases : (w : Write) → (w ≡ write_fails) ⊎ ((w ≡ alarm) ⊎ ((k : ℕ) × (w ≡ moved k)))
Write-cases write_fails = inl refl
Write-cases alarm = inr (inl refl)
Write-cases (moved k) = inr (inr (k, refl))

suc_cases : (n : ℕ) → (n ≡ 0) ⊎ ((j : ℕ) × (n ≡ suc j))
suc_cases zero = inl refl
suc_cases (suc j) = inr (j, refl)

write_loop-Ends :
    (writes : ℕ → Write) (max : Limit) (n i total : ℕ) (rest out : List ℕ)
    → Ends (write_loop writes max n i total rest out)
unfolding write_loop exit_sig
write_loop-Ends writes max zero i total rest out = tt
write_loop-Ends writes max (suc n) i total rest out = elim (Bool-cases (may_write max total)) [
  | inr shut ↦ simp (shut, write_loop) (inl refl)
  | inl room ↦ elim (Write-cases (writes i)) [
    | inl fails ↦ simp (room, fails, write_loop) (inr (inr (inl refl)))
    | inr others ↦ elim others [
      | inl rings ↦ simp (room, rings, write_loop) (inr (inl refl))
      | inr (k, moves) ↦ elim (suc_cases (min k (length rest))) [
        | inl nothing ↦ simp (room, moves, nothing, write_loop) (inl refl)
        | inr (j, bytes) ↦
            simp (room, moves, bytes, write_loop)
              (write_loop-Ends writes max n (suc i) (total + suc j) (drop (suc j) rest)
                (out ++ take (suc j) rest))
      ]
    ]
  ]
]

IsCode-if : (b : Bool) {x y : ℤ} → IsCode x → IsCode y → IsCode (if b then x else y)
IsCode-if true h k = h
IsCode-if false h k = k

send_child-Ends :
    (fuel : ℕ) (env : SendEnv) (res : Message) (max : Limit) → Ends (send_child fuel env res max)
unfolding send_child exit_sig
send_child-Ends fuel env res max =
    let signal : IsCode sig_error = inr (inr (inr refl)) in
    let pipe : IsCode pipe_error = inr (inr (inl refl)) in
    elim (Bool-cases env.mask_filled) [
      | inr e ↦ simp (e, send_child) signal
      | inl e1 ↦ elim (Bool-cases env.action_set) [
        | inr e ↦ simp (e1, e, send_child) signal
        | inl e2 ↦ elim (Bool-cases env.alarm_rings) [
          | inl e ↦ simp (e1, e2, e, send_child) (inr (inl refl))
          | inr e3 ↦ elim (Bool-cases env.opened) [
            | inr e ↦ simp (e1, e2, e3, e, send_child) pipe
            | inl e4 ↦ elim (Bool-cases env.header_written) [
              | inr e ↦ simp (e1, e2, e3, e4, e, send_child) pipe
              | inl e5 ↦ elim (Option-cases (write_loop env.writes max fuel 0 0 res.msg [])) [
                | inl n ↦ simp (e1, e2, e3, e4, e5, n, send_child) tt
                | inr ((code, out), n) ↦
                    simp (e1, e2, e3, e4, e5, n, send_child)
                      (IsCode-if (eqb_ℤ code (pos 0) && not env.closed) pipe
                        (subst Ends n (write_loop-Ends env.writes max fuel 0 0 res.msg [])))
              ]
            ]
          ]
        ]
      ]
    ]

-- What the parent returns for a child that ended with a code.
abbrev pub told : ℤ → ℤ
told code = if eqb_ℤ code (pos 0) then pos 1 else pos 0

IsCode-told : (code : ℤ) → IsCode code → wait_result (exit_status code) ≡ told code
unfolding wait_result exit_status
IsCode-told code is = elim is [
  | inl e ↦ rw e refl
  | inr a ↦ elim a [ inl e ↦ rw e refl | inr b ↦ elim b [ inl e ↦ rw e refl | inr e ↦ rw e refl ] ]
]

-- The message that `send_response` builds.
abbrev pub built : List ℕ → Limit → Message
built msg max = record {
  size = response_size msg max;
  msg = take (response_size msg max) (c_str msg ++ 0 ∷ []);
}

-- Once its child runs and ends, `send_response` returns 1 exactly when the child ended with code 0, and 0,
-- the result of a time limit, for every other code: the child's code is 0, 1 (a time limit), PIPE_ERROR
-- or SIG_ERROR, and the two errors come back as 0 as well.
pub send_response-wait_result :
    (fuel : ℕ)
    → (s : SendEnv) → (msg : List ℕ) → (max : Limit) → (r : ℤ) → (pipe : Option Message)
    → s.allocated ≡ true
    → s.forked ≡ true
    → send_response fuel s msg max ≡ some (r, pipe)
    → (code : ℤ) × (send_child fuel s (built msg max) max ≡ some (code, pipe))
      × IsCode code
      × (r ≡ (if eqb_ℤ code (pos 0) then pos 1 else pos 0))
unfolding send_response
send_response-wait_result fuel s msg max r pipe a f e =
    elim (Option-cases (send_child fuel s (built msg max) max)) [
      | inl n ↦ absurd (let e' : none ≡ some (r, pipe) = simp (a, f, n, send_response) at e in cc)
      | inr ((code, left), n) ↦
          let e' : some (wait_result (exit_status code), left) ≡ some (r, pipe) =
            simp (a, f, n, send_response) at e in
          let is : IsCode code = subst Ends n (send_child-Ends fuel s (built msg max) max) in
          let same : wait_result (exit_status code) ≡ r = cc in
          let left_same : left ≡ pipe = cc in
          (code, n ∙ ap (λ x. some (code, x)) left_same, is, sym same ∙ IsCode-told code is)
    ]
