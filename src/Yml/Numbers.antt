-- ===== src/Yml/Numbers.antt =====
-- libs/yml_parser/yml_parser.c: the number that is stored for its decimal digits.
use local_server_c.Base.{
  ℕ, zero, suc, ◌+◌, ◌-◌, ◌*◌, ◌/◌, ◌%◌, ◌^◌, ◌<◌, ◌≡◌, refl, sym, ap, ◌∙◌, Bool, true, false, List,
  [], ◌∷◌, ◌++◌, ◌==◌, ltb, if◌then◌else◌, inl, inr, Bool-cases, arith,
}
use mathlib.Core.Path.{subst}
use local_server_c.Base.Text.{c_str-NulFree, NulFree}
use local_server_c.Commands.Info.{digits, decimal}
use local_server_c.Commands.Pids.{digits-small, digits-step, div_lt, pow_ten}
use local_server_c.Yml.{
  is_space, is_digit, digits_value, signed_value, atoi, int_type, int_bytes, convert,
}
use local_server_c.Yml.Lines.{Consists, digit_not_space}

Consists-snoc :
    (p : ℕ → Bool) (xs : List ℕ) (d : ℕ) → Consists p xs → p d ≡ true → Consists p (xs ++ d ∷ [])
Consists-snoc p [] d h k = (k, tt)
Consists-snoc p (x ∷ xs) d h k = (h.0, Consists-snoc p xs d h.1 k)

digits_value-cons :
    (acc d : ℕ) (s : List ℕ)
    → is_digit d ≡ true
    → digits_value acc (d ∷ s) ≡ digits_value (acc * 10 + (d - b'0')) s
unfolding digits_value
digits_value-cons acc d s h = simp (h, digits_value)

digits_value-snoc :
    (acc : ℕ) (xs : List ℕ) (d : ℕ)
    → Consists is_digit xs
    → is_digit d ≡ true
    → digits_value acc (xs ++ d ∷ []) ≡ digits_value acc xs * 10 + (d - b'0')
unfolding digits_value
digits_value-snoc acc [] d h k = digits_value-cons acc d [] k
digits_value-snoc acc (x ∷ xs) d h k =
    digits_value-cons acc x (xs ++ d ∷ []) h.0
    ∙ digits_value-snoc (acc * 10 + (x - b'0')) xs d h.1 k
    ∙ ap (λ v. v * 10 + (d - b'0')) (sym (digits_value-cons acc x xs h.0))

digit_of : (n : ℕ) → n < 10 → is_digit (48 + n) ≡ true
unfolding is_digit
digit_of n h = ground arith

digits-Consists : (k n : ℕ) → n < 10 ^ suc k → Consists is_digit (digits (suc k) n)
digits-Consists zero n h = rw (digits-small 0 n (omega arith)) (digit_of n (omega arith), tt)
digits-Consists (suc k) n h = elim (Bool-cases (ltb n 10)) [
  | inl small ↦ rw (digits-small (suc k) n (ground arith)) (digit_of n (ground arith), tt)
  | inr large ↦
      let front =
        digits-Consists k (n / 10) (div_lt n (10 ^ suc k) (omega (arith, pow_ten (suc k)))) in
      rw (digits-step (suc k) n (ground arith)) (
        Consists-snoc is_digit (digits (suc k) (n / 10)) (48 + n % 10) front
          (digit_of (n % 10) (omega arith)))
]

-- The digits of a number are read as the number.
pub digits_value-digits : (k n : ℕ) → n < 10 ^ suc k → digits_value 0 (digits (suc k) n) ≡ n
unfolding digits_value
digits_value-digits zero n h =
    rw (digits-small 0 n (omega arith))
      (simp (digit_of n (omega arith), digits_value) (omega arith))
digits_value-digits (suc k) n h = elim (Bool-cases (ltb n 10)) [
  | inl small ↦
      rw (digits-small (suc k) n (ground arith))
        (simp (digit_of n (ground arith), digits_value) (omega arith))
  | inr large ↦
      let less = div_lt n (10 ^ suc k) (omega (arith, pow_ten (suc k))) in
      let front = digits_value-digits k (n / 10) less in
      rw (digits-step (suc k) n (ground arith)) (
        digits_value-snoc 0 (digits (suc k) (n / 10)) (48 + n % 10)
          (digits-Consists k (n / 10) less) (digit_of (n % 10) (omega arith))
        ∙ omega (arith, front))
]

digits-nonempty : (k n : ℕ) → (c : ℕ) × (s : List ℕ) × (digits (suc k) n ≡ c ∷ s)
unfolding digits
digits-nonempty k n = snoc (if n / 10 == 0 then [] else digits k (n / 10)) (48 + n % 10)
  where
    snoc : (xs : List ℕ) (d : ℕ) → (c : ℕ) × (s : List ℕ) × (xs ++ d ∷ [] ≡ c ∷ s)
    snoc [] d = (d, [], refl)
    snoc (x ∷ xs) d = (x, xs ++ d ∷ [], refl)

-- The decimal digits of a number.
pub decimal-digits :
    (n : ℕ)
    → n < 10 ^ 10
    → (c : ℕ) × (s : List ℕ) × (decimal n ≡ c ∷ s)
      × Consists is_digit (c ∷ s)
      × (digits_value 0 (c ∷ s) ≡ n)
decimal-digits n h =
    let (c, s, e) = digits-nonempty 9 n in
    (
      c,
      s,
      e,
      subst (Consists is_digit) e (digits-Consists 9 n h),
      ap (digits_value 0) (sym e) ∙ digits_value-digits 9 n h,
    )

pub digits-NulFree : (s : List ℕ) → Consists is_digit s → NulFree s
unfolding is_digit
digits-NulFree [] h = tt
digits-NulFree (c ∷ s) h = ((λ e. let k = h.0 in ground arith), digits-NulFree s h.1)

-- A 32-bit `int` as its bits.
abbrev pub int_word : Bool → ℕ → ℕ
int_word negative n = if negative then (2 ^ 32 - n % 2 ^ 32) % 2 ^ 32 else n % 2 ^ 32

signed_value-digits :
    (c : ℕ) (s : List ℕ)
    → is_digit c ≡ true
    → signed_value (c ∷ s) ≡ digits_value 0 (c ∷ s) % 2 ^ 32
unfolding signed_value is_digit
signed_value-digits c s h = ground arith

atoi-digits :
    (c : ℕ) (s : List ℕ) → is_digit c ≡ true → atoi (c ∷ s) ≡ digits_value 0 (c ∷ s) % 2 ^ 32
unfolding atoi
atoi-digits c s h = simp (digit_not_space c h, atoi) (signed_value-digits c s h)

atoi-minus : (s : List ℕ) → atoi (b'-' ∷ s) ≡ (2 ^ 32 - digits_value 0 s % 2 ^ 32) % 2 ^ 32
unfolding atoi signed_value is_space
atoi-minus s = refl

-- The bytes that are stored for a number.
pub convert-decimal :
    (n : ℕ)
    → n < 10 ^ 10
    → (convert int_type (decimal n) ≡ int_bytes (int_word false n))
      × (convert int_type (b'-' ∷ decimal n) ≡ int_bytes (int_word true n))
unfolding convert
convert-decimal n h =
    let (c, s, e, ds, value) = decimal-digits n h in
    let whole = c_str-NulFree (c ∷ s) (digits-NulFree (c ∷ s) ds) in
    let whole' = c_str-NulFree (b'-' ∷ c ∷ s) (omega arith, digits-NulFree (c ∷ s) ds) in
    rw e (
      ap (λ t. int_bytes (atoi t)) whole
          ∙ ap int_bytes (atoi-digits c s ds.0 ∙ ap (λ v. v % 2 ^ 32) value),
      ap (λ t. int_bytes (atoi t)) whole'
          ∙ ap int_bytes (atoi-minus (c ∷ s) ∙ ap (λ v. (2 ^ 32 - v % 2 ^ 32) % 2 ^ 32) value),
    )
