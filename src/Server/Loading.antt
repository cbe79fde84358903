-- ===== src/Server/Loading.antt =====
-- server.c: what the variables of the server hold after the calls of `get`.
use local_server_c.Base.{
  ◌%◌, ◌-◌, if◌then◌else◌, negsuc, Option, ℕ, ◌^◌, ◌<◌, ◌≡◌, sym, ap, ◌∙◌, none, some, Bool, true,
  false, List, [], ◌++◌, ltb, length, drop, drop-append, append-nil, ℤ, pos, arith,
}
use local_server_c.Base.Text.{codes}
use local_server_c.Response.{Limit}
use local_server_c.Yml.{int_bytes}
use local_server_c.Yml.Parser.{Parser, returned, get}
use local_server_c.Yml.Numbers.{int_word}
use local_server_c.Server.Settings.{
  int_value, response_limit, loaded, overrun, load, word_of, as_size,
}

drop_all : (bytes : List ℕ) (n : ℕ) → length bytes ≡ n → drop n bytes ≡ []
drop_all bytes n h = ap (drop n) (sym (append-nil bytes)) ∙ drop-append bytes [] n 0 (omega arith)

module _ (p : Parser) (key variable : List ℕ) (four : length variable ≡ 4) where
  -- A number fills the variable.
  pub load-number :
      (w : ℕ)
      → get (some p) key false ≡ returned (pos 1) (int_bytes w)
      → load p key variable ≡ loaded (int_bytes w)
  unfolding load
  load-number w e =
      let fits : ltb (length variable) 4 ≡ false = ground arith in
      simp (e, fits, load) (ap (λ rest. loaded (int_bytes w ++ rest)) (drop_all variable 4 four))

  pub load-overrun :
      (bytes : List ℕ)
      → get (some p) key false ≡ returned (pos 1) bytes
      → 4 < length bytes
      → load p key variable ≡ overrun
  unfolding load
  load-overrun bytes e long =
      let past : ltb (length variable) (length bytes) ≡ true = ground arith in simp (e, past, load)

  pub load-nothing :
      get (some p) key false ≡ returned (pos 0) [] → load p key variable ≡ loaded variable
  unfolding load
  load-nothing e = let fits : ltb (length variable) 0 ≡ false = ground arith in simp (e, fits, load)

pub word_of-int_bytes : (w : ℕ) → w < 2 ^ 32 → word_of (int_bytes w) ≡ w
unfolding word_of
word_of-int_bytes w h = omega arith

pub int_word-lt : (negative : Bool) (n : ℕ) → int_word negative n < 2 ^ 32
int_word-lt false n = omega arith
int_word-lt true n = omega arith

pub as_size-small : (n : ℕ) → n < 2 ^ 31 → as_size n ≡ n
unfolding as_size
as_size-small n h = ground arith

-- The limit that a number stands for.
abbrev pub limit_of : Bool → ℕ → Limit
limit_of negative n = if negative then none else some n

limit_from : ℤ → Option Limit
limit_from (pos n) = some (some n)
limit_from (negsuc n) = some none

int_value-limit :
    (negative : Bool) (n : ℕ)
    → 0 < n
    → n < 2 ^ 31
    → limit_from (int_value (int_word negative n)) ≡ some (limit_of negative n)
unfolding int_value limit_from
int_value-limit false n some_bytes small =
    let same : n % 2 ^ 32 ≡ n = omega arith in
    let low : ltb n (2 ^ 31) ≡ true = ground arith in simp (same, low)
int_value-limit true n some_bytes small =
    let same : (2 ^ 32 - n % 2 ^ 32) % 2 ^ 32 ≡ 2 ^ 32 - n = omega arith in
    let high : ltb (2 ^ 32 - n) (2 ^ 31) ≡ false = ground arith in simp (same, high)

pub response_limit-loaded :
    (p : Parser) (negative : Bool) (n : ℕ)
    → load p (codes "response_limit") (int_bytes (2 ^ 32 - 1))
      ≡ loaded (int_bytes (int_word negative n))
    → 0 < n
    → n < 2 ^ 31
    → response_limit p ≡ some (limit_of negative n)
unfolding response_limit limit_from
response_limit-loaded p negative n e some_bytes small =
    let w = int_word negative n in
    let read : word_of (int_bytes w) ≡ w = word_of-int_bytes w (int_word-lt negative n) in
    simp (e, response_limit)
      (ap (λ x. limit_from (int_value x)) read ∙ int_value-limit negative n some_bytes small)
