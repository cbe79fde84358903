-- ===== src/Commands/Words.antt =====
-- How a command line is cut into words, and what exec_cmd makes of it.
use local_server_c.Base.{
  ℕ, zero, suc, ◌+◌, ◌≤◌, ◌<◌, ◌≡◌, ◌≢◌, refl, sym, ap, ◌∙◌, none, some, false, List, [], ◌∷◌, ◌++◌,
  ◌==◌, if◌then◌else◌, length, get_elem?, All, pos, arith, Bool-cases, inl, inr, ◌⊎◌,
}
use mathlib.Core.Path.{subst}
use local_server_c.Base.Text.{c_str, strlen, same_text, eq_of_same_text}
use local_server_c.Commands.{
  skip_spaces, word, after_word, strtok_r, tokens, search_command, commands, is_command_available,
}

-- The bytes of a text that are not spaces.
unfoldable pub squeeze : List ℕ → List ℕ
squeeze [] = []
squeeze (c ∷ s) = if c == b' ' then squeeze s else c ∷ squeeze s

unfoldable pub flat : List (List ℕ) → List ℕ
flat [] = []
flat (t ∷ ts) = t ++ flat ts

-- A word: at least one byte, none a space.
abbrev pub IsWord : List ℕ → Type 0
IsWord t = (t ≢ []) × (squeeze t ≡ t)

skip_squeeze : (s : List ℕ) → squeeze (skip_spaces s) ≡ squeeze s
unfolding squeeze skip_spaces
skip_squeeze [] = refl
skip_squeeze (c ∷ s) = elim (Bool-cases (c == b' ')) [
  | inl e ↦ simp e (skip_squeeze s)
  | inr e ↦ simp e
]

skip_length : (s : List ℕ) → length (skip_spaces s) ≤ length s
unfolding skip_spaces
skip_length [] = omega arith
skip_length (c ∷ s) = ground (arith, skip_length s)

skip_first : (s t : List ℕ) → (c : ℕ) → skip_spaces s ≡ c ∷ t → (c == b' ') ≡ false
unfolding skip_spaces
skip_first [] t c h = cc
skip_first (x ∷ s) t c h = elim (Bool-cases (x == b' ')) [
  | inl e ↦ skip_first s t c (simp e at h)
  | inr e ↦ let h' : x ∷ s ≡ c ∷ t = simp e at h in cc
]

word-squeeze : (s : List ℕ) → squeeze s ≡ word s ++ squeeze (after_word s)
unfolding squeeze word after_word
word-squeeze [] = refl
word-squeeze (c ∷ s) = elim (Bool-cases (c == b' ')) [
  | inl e ↦ simp e
  | inr e ↦ simp e (ap (λ l. c ∷ l) (word-squeeze s))
]

word_clean : (s : List ℕ) → squeeze (word s) ≡ word s
unfolding squeeze word
word_clean [] = refl
word_clean (c ∷ s) = elim (Bool-cases (c == b' ')) [
  | inl e ↦ simp e
  | inr e ↦ simp e (ap (λ l. c ∷ l) (word_clean s))
]

after_length : (s : List ℕ) → length (after_word s) ≤ length s
unfolding after_word
after_length [] = omega arith
after_length (c ∷ s) = ground (arith, after_length s)

List-cases : (s : List ℕ) → (s ≡ []) ⊎ ((c : ℕ) × (t : List ℕ) × (s ≡ c ∷ t))
List-cases [] = inl refl
List-cases (c ∷ t) = inr (c, t, refl)

squeeze_nil : squeeze [] ≡ []
unfolding squeeze
squeeze_nil = refl

word_full : (c : ℕ) → (t : List ℕ) → (c == b' ') ≡ false → word (c ∷ t) ≢ []
unfolding word
word_full c t h = ground arith

after_shorter :
    (c : ℕ) → (t : List ℕ) → (c == b' ') ≡ false → length (after_word (c ∷ t)) ≤ length t
unfolding after_word
after_shorter c t h = simp h (after_length t)

-- What one call of `strtok_r` gives: a word, less text, and no byte lost but spaces.
strtok_r-cases :
    (s : List ℕ)
    → ((strtok_r s ≡ none) × (squeeze s ≡ []))
      ⊎ ((t : List ℕ) × (rest : List ℕ) × (strtok_r s ≡ some (t, rest))
          × IsWord t
          × (squeeze s ≡ t ++ squeeze rest)
          × (length rest < length s))
unfolding strtok_r
strtok_r-cases s = elim (List-cases (skip_spaces s)) [
  | inl end ↦ inl (simp (end, strtok_r), sym (skip_squeeze s) ∙ rw end (squeeze_nil))
  | inr (c, t, e) ↦
      let no_space = skip_first s t c e in
      let shorter : suc (length t) ≤ length s = rw e at (skip_length s) in
      let after = after_shorter c t no_space in
      inr (
        word (c ∷ t),
        after_word (c ∷ t),
        simp (e, strtok_r),
        (word_full c t no_space, word_clean (c ∷ t)),
        sym (skip_squeeze s) ∙ rw e (word-squeeze (c ∷ t)),
        omega arith,
      )
]

-- The loop of `exec_cmd` that cuts the command line ends within a round for each byte and one more;
-- the tokens are words, in order they are the command line without its spaces, and they are at most
-- as many as its bytes, so that the array of strlen(cmd) + 1 pointers holds them and the final NULL.
pub tokens-words :
    (n : ℕ)
    → (s : List ℕ) → length s < n
    → (ts : List (List ℕ)) × (tokens n s ≡ some ts)
      × All IsWord ts
      × (flat ts ≡ squeeze s)
      × (length ts ≤ length s)
unfolding tokens flat
tokens-words zero s h = absurd (omega arith)
tokens-words (suc n) s h = elim (strtok_r-cases s) [
  | inl (end, none_left) ↦ ([], simp (end, tokens), tt, sym none_left, omega arith)
  | inr (t, rest, e, w, split, less) ↦
      let (ts, e', ws, f, l) = tokens-words n rest (omega arith) in
      (t ∷ ts, simp (e, e', tokens), (w, ws), ap (λ l. t ++ l) f ∙ sym split, omega arith)
]

suc_not_zero : (i : ℕ) → suc i ≢ 0
suc_not_zero i h = omega arith

search_command-finds :
    (prefix : List ℕ)
    → (i : ℕ) → (names : List (List ℕ)) → search_command prefix i names ≢ 0
    → (k : ℕ) × (search_command prefix i names ≡ i + k) × (get_elem? names k ≡ some prefix)
unfolding search_command
search_command-finds prefix i [] h = absurd (h refl)
search_command-finds prefix i (name ∷ names) h = elim (Bool-cases (same_text prefix name)) [
  | inl e ↦ (0, simp e (omega arith), ap some (sym (eq_of_same_text prefix name e)))
  | inr e ↦
      let (k, found, at) = search_command-finds prefix (suc i) names (simp e at h) in
      (suc k, simp e (found ∙ omega arith), at)
]

available_none :
    (cmd : List ℕ) → strtok_r (c_str cmd) ≡ none → is_command_available (some cmd) ≡ pos 0
unfolding is_command_available
available_none cmd e = simp (e, is_command_available)

available_some :
    (cmd t rest : List ℕ)
    → strtok_r (c_str cmd) ≡ some (t, rest)
    → is_command_available (some cmd) ≡ pos (search_command t 1 commands)
unfolding is_command_available
available_some cmd t rest e = simp (e, is_command_available)

pos_inj : (a b : ℕ) → pos a ≡ pos b → a ≡ b
pos_inj a b h = cc

named : (t : List ℕ) → (i : ℕ) → search_command t 1 commands ≡ suc i → get_elem? commands i ≡ some t
named t i h =
    let (k, at, name) = search_command-finds t 1 commands (λ z. suc_not_zero i (sym h ∙ z)) in
    let e : i ≡ k = omega (arith, sym h ∙ at) in
    subst (λ j. get_elem? commands j ≡ some t) (sym e) name

-- When a command line is available, `is_command_available` returns the index in COMMANDS of its first
-- token.
pub is_command_available-first :
    (cmd : List ℕ)
    → (i : ℕ) → is_command_available (some cmd) ≡ pos (suc i)
    → (t : List ℕ) × (ts : List (List ℕ)) × (tokens (suc (strlen cmd)) (c_str cmd) ≡ some (t ∷ ts))
      × (get_elem? commands i ≡ some t)
unfolding tokens strlen
is_command_available-first cmd i h = elim (strtok_r-cases (c_str cmd)) [
  | inl (end, none_left) ↦
      absurd (suc_not_zero i (pos_inj (suc i) 0 (sym h ∙ available_none cmd end)))
  | inr (t, rest, e, w, split, less) ↦
      let (ts, e', ws, f, l) = tokens-words (length (c_str cmd)) rest less in
      (
        t,
        ts,
        simp (e, e', tokens),
        named t i
            (pos_inj (search_command t 1 commands) (suc i) (sym (available_some cmd t rest e) ∙ h)),
      )
]
