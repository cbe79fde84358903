-- ===== src/Base/Text.antt =====
-- C strings and the functions of <string.h> that the program calls. A string argument is the list
-- of its bytes: it ends at its first NUL, or at the end of the list (where C has the terminator).
use Prim.Native.Nat.{ℕ, zero, suc, ◌+◌, ◌≤◌}
use Prim.Native.Char.{code}
use Prim.Native.String.{String}
use mathlib.Core.Path.{◌≡◌, refl, ap, ◌∙◌}
use mathlib.Core.Logic.{◌≢◌}
use mathlib.Core.Bool.{Bool, true, false, ◌&&◌}
use mathlib.Core.List.{List, [], ◌∷◌, ◌++◌, append_assoc}
use native.Mathlib.Omega.{arith}
use local_server_c.Base.Tests.{◌==◌, if◌then◌else◌}
use local_server_c.Base.Lists.{length, take, drop, replicate, take_all, All}

-- The bytes of an ASCII literal.
abbrev pub codes : String → List ℕ
codes String.[] = []
codes (String.◌∷◌ c s) = code c ∷ codes s

-- What a C function sees of a buffer: the bytes before the first NUL.
unfoldable pub c_str : List ℕ → List ℕ
c_str [] = []
c_str (c ∷ s) = if c == 0 then [] else c ∷ c_str s

unfoldable pub strlen : List ℕ → ℕ
strlen s = length (c_str s)

-- The `n` bytes that `strncpy` writes: the string, cut or padded with NULs.
unfoldable pub fit : ℕ → List ℕ → List ℕ
fit zero s = []
fit (suc n) [] = 0 ∷ fit n []
fit (suc n) (c ∷ s) = c ∷ fit n s

-- `strncpy(dst, src, n)` with `n` at most the size of `dst`.
unfoldable pub strncpy : List ℕ → List ℕ → ℕ → List ℕ
strncpy dst src n = fit n (c_str src) ++ drop n dst

-- `strcmp(a, b) == 0` on the bytes of two strings.
unfoldable pub same_text : List ℕ → List ℕ → Bool
same_text [] [] = true
same_text [] (b ∷ bs) = false
same_text (a ∷ as') [] = false
same_text (a ∷ as') (b ∷ bs) = a == b && same_text as' bs

abbrev pub NulFree : List ℕ → Type 0
NulFree = All (λ c. c ≢ 0)

pub same_text_refl : (s : List ℕ) → same_text s s ≡ true
unfolding same_text
same_text_refl [] = refl
same_text_refl (c ∷ s) = ground (arith, same_text_refl s)

pub eq_of_same_text : (s t : List ℕ) → same_text s t ≡ true → s ≡ t
unfolding same_text
eq_of_same_text [] [] h = refl
eq_of_same_text [] (b ∷ t) h = cc
eq_of_same_text (a ∷ s) [] h = cc
eq_of_same_text (a ∷ s) (b ∷ t) h = ground (arith, eq_of_same_text s t)

pub c_str-NulFree : (s : List ℕ) → NulFree s → c_str s ≡ s
unfolding c_str
c_str-NulFree [] h = refl
c_str-NulFree (c ∷ s) h = ground (arith, c_str-NulFree s h.1, h.0)

pub NulFree-c_str : (s : List ℕ) → NulFree (c_str s)
unfolding c_str
NulFree-c_str [] = tt
NulFree-c_str (c ∷ s) = ground (arith, NulFree-c_str s)

pub strlen-NulFree : (s : List ℕ) → strlen s ≡ length s → NulFree s
unfolding strlen c_str
strlen-NulFree [] h = tt
strlen-NulFree (c ∷ s) h = ((λ e. ground arith), strlen-NulFree s (ground arith))

pub c_str-append_nul : (s r : List ℕ) → NulFree s → c_str (s ++ 0 ∷ r) ≡ s
unfolding c_str
c_str-append_nul [] r h = refl
c_str-append_nul (c ∷ s) r h = ground (arith, c_str-append_nul s r h.1, h.0)

pub length-fit : (n : ℕ) (s : List ℕ) → length (fit n s) ≡ n
unfolding fit
length-fit zero s = refl
length-fit (suc n) [] = ap suc (length-fit n [])
length-fit (suc n) (c ∷ s) = ap suc (length-fit n s)

pub NulFree-take : (n : ℕ) (s : List ℕ) → NulFree s → NulFree (take n s)
NulFree-take zero s h = tt
NulFree-take (suc n) [] h = tt
NulFree-take (suc n) (c ∷ s) h = (h.0, NulFree-take n s h.1)

-- A copy of `n` bytes that is followed by a NUL reads as the string's first `n` bytes.
pub c_str-fit : (n : ℕ) (s r : List ℕ) → NulFree s → c_str (fit n s ++ 0 ∷ r) ≡ take n s
unfolding fit c_str
c_str-fit zero s r h = refl
c_str-fit (suc n) [] r h = refl
c_str-fit (suc n) (c ∷ s) r h = ground (arith, c_str-fit n s r h.1, h.0)

fit-suc : (n : ℕ) (s : List ℕ) → length s ≤ n → fit (suc n) s ≡ fit n s ++ 0 ∷ []
unfolding fit
fit-suc zero [] h = refl
fit-suc zero (c ∷ s) h = absurd (omega arith)
fit-suc (suc n) [] h = ap (λ l. 0 ∷ l) (fit-suc n [] (omega arith))
fit-suc (suc n) (c ∷ s) h = ap (λ l. c ∷ l) (fit-suc n s (omega arith))

-- A copy that has room for the NUL.
pub copied :
    (n : ℕ) (t rest : List ℕ) → NulFree t → length t ≤ n → c_str (fit (suc n) t ++ rest) ≡ t
copied n t rest nf len =
    rw (fit-suc n t len)
      (ap c_str (append_assoc (fit n t) (0 ∷ []) rest) ∙ c_str-fit n t rest nf ∙ take_all n t len)

-- A copy that is longer than the string is padded.
pub fit-pad : (n k : ℕ) (s : List ℕ) → length s + k ≡ n → fit n s ≡ s ++ replicate k 0
unfolding fit
fit-pad zero zero [] h = refl
fit-pad zero (suc k) [] h = absurd (omega arith)
fit-pad zero k (c ∷ s) h = absurd (omega arith)
fit-pad (suc n) zero [] h = absurd (omega arith)
fit-pad (suc n) (suc k) [] h = ap (◌∷◌ 0) (fit-pad n k [] (omega arith))
fit-pad (suc n) k (c ∷ s) h = ap (◌∷◌ c) (fit-pad n k s (omega arith))

-- A string that is stored with its NUL is read up to its own first NUL.
pub c_str-stored : (l r : List ℕ) → c_str (l ++ 0 ∷ r) ≡ c_str l
unfolding c_str
c_str-stored [] r = refl
c_str-stored (c ∷ l) r = ground (arith, c_str-stored l r)

pub length-c_str_le : (s : List ℕ) → length (c_str s) ≤ length s
unfolding c_str
length-c_str_le [] = omega arith
length-c_str_le (c ∷ s) = ground (arith, length-c_str_le s)

pub ne_of_same_text : (s t : List ℕ) → same_text s t ≡ false → s ≢ t
ne_of_same_text s t h e = let same = same_text_refl s in let again = ap (same_text s) e in cc
