-- ===== src/Commands/Pids.antt =====
-- Which process the command info shows.
use local_server_c.Base.{
  take-append_exact, ℕ, zero, suc, ◌+◌, ◌*◌, ◌/◌, ◌%◌, ◌^◌, ◌≤◌, ◌<◌, ◌≡◌, refl, sym, ap, ◌∙◌,
  Option, none, some, ℤ, true, false, List, [], ◌∷◌, ◌++◌, ◌==◌, ltb, inl, inr, Bool-cases,
  if◌then◌else◌, take, drop, length, length-append, take_all, pos, arith,
}
use local_server_c.Base.Text.{c_str-stored, codes, c_str, strlen, NulFree, c_str-append_nul}
use local_server_c.Commands.Info.{
  digits, decimal, snprintf, pid_text, Out, header, command, status, InfoEnv, next_line,
  status_loop, proc_path, info_status, info_pid, exec_info,
}

pub digits-small : (k n : ℕ) → n < 10 → digits (suc k) n ≡ (48 + n) ∷ []
unfolding digits
digits-small k n h =
    let e : (n / 10 == 0) ≡ true = ground arith in
    let f : n % 10 ≡ n = omega arith in simp (e, f, digits) refl

pub digits-step : (k n : ℕ) → 10 ≤ n → digits (suc k) n ≡ digits k (n / 10) ++ (48 + n % 10) ∷ []
unfolding digits
digits-step k n h = let e : (n / 10 == 0) ≡ false = ground arith in simp (e, digits) refl

pub pow_ten : (k : ℕ) → 10 ^ suc k ≡ 10 * 10 ^ k
pow_ten k = omega arith

pub div_lt : (n p : ℕ) → n < 10 * p → n / 10 < p
div_lt n p h = omega arith

le_div : (n p : ℕ) → 10 * p ≤ n → p ≤ n / 10
le_div n p h = omega arith

-- More fuel changes nothing.
digits-enough : (k n : ℕ) → n < 10 ^ suc k → digits (suc (suc k)) n ≡ digits (suc k) n
digits-enough zero n h = digits-small 1 n (omega arith) ∙ sym (digits-small 0 n (omega arith))
digits-enough (suc k) n h = elim (Bool-cases (ltb n 10)) [
  | inl small ↦
      digits-small (suc (suc k)) n (ground arith) ∙ sym (digits-small (suc k) n (ground arith))
  | inr large ↦
      let IH = digits-enough k (n / 10) (div_lt n (10 ^ suc k) (omega (arith, pow_ten (suc k)))) in
      digits-step (suc (suc k)) n (ground arith)
      ∙ ap (λ l. l ++ (48 + n % 10) ∷ []) IH
      ∙ sym (digits-step (suc k) n (ground arith))
]

pow_pos : (k : ℕ) → 1 ≤ 10 ^ k
pow_pos zero = omega arith
pow_pos (suc k) = omega (arith, pow_ten k, pow_pos k)

-- A number of `k + 1` digits.
length-digits : (k n : ℕ) → 10 ^ k ≤ n → n < 10 ^ suc k → length (digits (suc k) n) ≡ suc k
length-digits zero n low high = ap length (digits-small 0 n (omega arith))
length-digits (suc k) n low high =
    let IH =
      length-digits k (n / 10) (le_div n (10 ^ k) (omega (arith, pow_ten k)))
        (div_lt n (10 ^ suc k) (omega (arith, pow_ten (suc k)))) in
    let e = digits-step (suc k) n (omega (arith, pow_ten k, pow_pos k)) in
    ap length e ∙ length-append (digits (suc k) (n / 10)) ((48 + n % 10) ∷ []) ∙ omega (arith, IH)

digits-NulFree : (k n : ℕ) → NulFree (digits k n)
unfolding digits
digits-NulFree zero n = tt
digits-NulFree (suc k) n = elim (Bool-cases (n / 10 == 0)) [
  | inl e ↦ simp e ((λ z. omega arith), tt)
  | inr e ↦ simp e (snoc (digits k (n / 10)) (digits-NulFree k (n / 10)))
]
  where
    snoc : (l : List ℕ) → NulFree l → NulFree (l ++ (48 + n % 10) ∷ [])
    snoc [] h = ((λ z. omega arith), tt)
    snoc (c ∷ l) h = (h.0, snoc l h.1)

length-digits_le : (k n : ℕ) → length (digits k n) ≤ k
unfolding digits
length-digits_le zero n = omega arith
length-digits_le (suc k) n = elim (Bool-cases (n / 10 == 0)) [
  | inl e ↦ simp e (omega arith)
  | inr e ↦ simp e (
      omega (
        arith,
        length-digits_le k (n / 10),
        length-append (digits k (n / 10)) ((48 + n % 10) ∷ []),
      ))
]

decimal-six : (n : ℕ) → n < 1000000 → decimal n ≡ digits 6 n
decimal-six n h =
    digits-enough 8 n (omega arith)
    ∙ digits-enough 7 n (omega arith)
    ∙ digits-enough 6 n (omega arith)
    ∙ digits-enough 5 n (omega arith)

-- The process whose number is the first six digits of a number of at most seven.
abbrev pub shown_pid : ℕ → ℕ
shown_pid client = if ltb client 1000000 then client else client / 10

six_digits : (client : ℕ) → client < 10000000 → take 6 (decimal client) ≡ decimal (shown_pid client)
six_digits client h = elim (Bool-cases (ltb client 1000000)) [
  | inl small ↦
      let few : length (decimal client) ≤ 6 =
        rw (decimal-six client (ground arith)) (length-digits_le 6 client) in
      simp small (take_all 6 (decimal client) few)
  | inr large ↦
      let front = client / 10 in
      let bound : front < 1000000 = omega arith in
      let least : 100000 ≤ front = ground arith in
      let size : length (digits 6 front) ≡ 6 = length-digits 5 front least bound in
      let nine : digits 9 front ≡ digits 6 front =
        digits-enough 7 front (omega arith)
        ∙ digits-enough 6 front (omega arith)
        ∙ digits-enough 5 front (omega arith) in
      simp large (
        ap (take 6)
          (digits-step 9 client (ground arith) ∙ ap (λ l. l ++ (48 + client % 10) ∷ []) nine)
        ∙ take-append_exact 6 (digits 6 front) ((48 + client % 10) ∷ []) size
        ∙ sym (decimal-six front bound))
]

own_pid :
    (memory : List ℕ) (client : ℕ) (name : List ℕ)
    → client < 10000000
    → (rest : List ℕ) × (pid_text memory client (name ∷ [])
        ≡ decimal (shown_pid client) ++ 0 ∷ rest)
unfolding pid_text snprintf
own_pid memory client name h = (
  drop (length (take 6 (decimal client)) + 1) memory,
  ap (λ l. l ++ 0 ∷ drop (length (take 6 (decimal client)) + 1) memory) (six_digits client h),
)

-- `exec_info` on what the array `pid` holds.
abbrev info_text : InfoEnv → List ℕ → List ℕ → Option (List Out × ℤ)
info_text env line_memory t =
    if ltb (length (c_str t)) (length t) then some (info_pid env line_memory (c_str t)) else none

info_text-stored :
    (env : InfoEnv) (line_memory p rest : List ℕ)
    → NulFree p
    → info_text env line_memory (p ++ 0 ∷ rest) ≡ some (info_pid env line_memory p)
info_text-stored env line_memory p rest free =
    let room : ltb (length p) (length (p ++ 0 ∷ rest)) ≡ true =
      ground (arith, length-append p (0 ∷ rest)) in
    simp (c_str-append_nul p rest free, room) refl

exec_info-text :
    (env : InfoEnv) (pid_memory line_memory : List ℕ) (client : ℕ) (args : List (List ℕ))
    → (p rest : List ℕ) → NulFree p
    → pid_text pid_memory client args ≡ p ++ 0 ∷ rest
    → exec_info env pid_memory line_memory client args ≡ some (info_pid env line_memory p)
unfolding exec_info strlen
exec_info-text env pid_memory line_memory client args p rest free e =
    ap (info_text env line_memory) e ∙ info_text-stored env line_memory p rest free

info_pid-lines :
    (env : InfoEnv) (line_memory pid c l₀ l₁ l₂ l₃ l₄ l₅ l₆ : List ℕ) (cs ls : List (List ℕ))
    → env.first_allocated ≡ true
    → env.second_allocated ≡ true
    → env.file (proc_path pid (codes "/cmdline")) ≡ some (c ∷ cs)
    → env.file (proc_path pid (codes "/status")) ≡ some (l₀ ∷ l₁ ∷ l₂ ∷ l₃ ∷ l₄ ∷ l₅ ∷ l₆ ∷ ls)
    → info_pid env line_memory pid ≡ (
      header pid
          ∷ command pid (c_str c)
          ∷ status pid (c_str l₂)
          ∷ status pid (c_str l₃)
          ∷ status pid (c_str l₆)
          ∷ [],
      pos 1,
    )
unfolding info_pid info_status next_line status_loop
info_pid-lines env line_memory pid c l₀ l₁ l₂ l₃ l₄ l₅ l₆ cs ls m1 m2 cmdline stat =
    simp (m1, m2, cmdline, stat, c_str-stored, info_pid, info_status)

-- When the memory is there and both files of the process can be opened and read, the command info
-- without an argument prints the command and the third, fourth and seventh line of the status, and
-- returns 1: of the client's process when its number has six digits at most, and of the process whose
-- number is the first six digits when it has seven.
pub exec_info-own :
    (env : InfoEnv) (pid_memory line_memory name : List ℕ) (client : ℕ)
    → client < 10000000
    → env.first_allocated ≡ true
    → env.second_allocated ≡ true
    → (c : List ℕ) (cs : List (List ℕ))
    → env.file (proc_path (decimal (shown_pid client)) (codes "/cmdline")) ≡ some (c ∷ cs)
    → (l₀ l₁ l₂ l₃ l₄ l₅ l₆ : List ℕ) (ls : List (List ℕ))
    → env.file (proc_path (decimal (shown_pid client)) (codes "/status"))
      ≡ some (l₀ ∷ l₁ ∷ l₂ ∷ l₃ ∷ l₄ ∷ l₅ ∷ l₆ ∷ ls)
    → let pid = decimal (shown_pid client) in
      exec_info env pid_memory line_memory client (name ∷ [])
      ≡ some (
        header pid
            ∷ command pid (c_str c)
            ∷ status pid (c_str l₂)
            ∷ status pid (c_str l₃)
            ∷ status pid (c_str l₆)
            ∷ [],
        pos 1,
      )
exec_info-own env pid_memory line_memory name client h m1 m2 c cs cmdline l₀ l₁ l₂ l₃ l₄ l₅ l₆ ls
      stat =
    let pid = decimal (shown_pid client) in
    let (rest, text) = own_pid pid_memory client name h in
    exec_info-text env pid_memory line_memory client (name ∷ []) pid rest
      (digits-NulFree 10 (shown_pid client)) text
    ∙ ap some (info_pid-lines env line_memory pid c l₀ l₁ l₂ l₃ l₄ l₅ l₆ cs ls m1 m2 cmdline stat)
