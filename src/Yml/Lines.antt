-- ===== src/Yml/Lines.antt =====
-- libs/yml_parser/yml_parser.c: what the two expressions find in lines `key: value`.
use local_server_c.Base.{
  ℕ, suc, ◌+◌, ◌≡◌, refl, ap, ◌∙◌, Option, none, some, Bool, true, false, ◌&&◌, List, [], ◌∷◌, ◌++◌,
  ◌==◌, length, append_assoc, All, inl, inr, Bool-cases, arith,
}
use local_server_c.Yml.{Kind, Match, is_space, is_digit}
use local_server_c.Yml.Expressions.{
  is_key, is_text, span, value_of, after_colon, after_key, match_here, shift_all, first_match,
}

-- A text does not begin with a byte of the class.
abbrev pub Leaves : (ℕ → Bool) → List ℕ → Type 0
Leaves p [] = Unit
Leaves p (c ∷ s) = p c ≡ false

abbrev pub Consists : (ℕ → Bool) → List ℕ → Type 0
Consists p = All (λ c. p c ≡ true)

-- A test for it.
abbrev pub every : (ℕ → Bool) → List ℕ → Bool
every p [] = true
every p (c ∷ s) = p c && every p s

pub Consists-every : (p : ℕ → Bool) (s : List ℕ) → every p s ≡ true → Consists p s
Consists-every p [] h = tt
Consists-every p (c ∷ s) h = ground (arith, Consists-every p s)

pub span_all : (p : ℕ → Bool) (w r : List ℕ) → Consists p w → Leaves p r → span p (w ++ r) ≡ (w, r)
unfolding span
span_all p [] [] h l = refl
span_all p [] (c ∷ r) h l = simp (l, span)
span_all p (c ∷ w) r h l = simp (h.0, span) (ap (λ x. (c ∷ x.0, x.1)) (span_all p w r h.1 l))

-- A part of a text that is followed by a byte of another class is cut somewhere.
span_some :
    (p q : ℕ → Bool) (w r : List ℕ)
    → Consists q w
    → Leaves p r
    → (k : List ℕ) × (v : List ℕ) × (span p (w ++ r) ≡ (k, v ++ r)) × Consists q v
unfolding span
span_some p q [] [] h l = ([], [], refl, tt)
span_some p q [] (c ∷ r) h l = ([], [], simp (l, span), tt)
span_some p q (c ∷ w) r h l = elim (Bool-cases (p c)) [
  | inl e ↦
      let (k, v, cut, rest) = span_some p q w r h.1 l in
      (c ∷ k, v, simp (e, span) (ap (λ x. (c ∷ x.0, x.1)) cut), rest)
  | inr e ↦ ([], c ∷ w, simp (e, span), h)
]

text_not_colon : (c : ℕ) → is_text c ≡ true → (c == b':') ≡ false
unfolding is_text is_key is_digit
text_not_colon c h = ground arith

digit_key : (c : ℕ) → is_digit c ≡ true → is_key c ≡ true
unfolding is_key is_digit
digit_key c h = ground arith

key_text : (c : ℕ) → is_key c ≡ true → is_text c ≡ true
unfolding is_text
key_text c h = ground arith

key_not_space : (c : ℕ) → is_key c ≡ true → is_space c ≡ false
unfolding is_key is_digit is_space
key_not_space c h = ground arith

pub digit_not_space : (c : ℕ) → is_digit c ≡ true → is_space c ≡ false
unfolding is_digit is_space
digit_not_space c h = ground arith

-- What may follow a line: nothing, or the key of the next line.
abbrev pub Fresh : List ℕ → Type 0
Fresh [] = Unit
Fresh (c ∷ s) = is_key c ≡ true

Fresh-Leaves : (r : List ℕ) → Fresh r → Leaves is_space r
Fresh-Leaves [] h = tt
Fresh-Leaves (c ∷ r) h = key_not_space c h

-- No colon follows: no match.
after_key-stop :
    (kind : Kind) (n : ℕ) (spaces s : List ℕ)
    → Leaves (λ c. c == b':') s
    → after_key kind n (spaces, s) ≡ none
unfolding after_key
after_key-stop kind n spaces [] h = refl
after_key-stop kind n spaces (c ∷ s) h = simp (h, after_key)

-- No match of the kind begins in `w`, where `r` follows it.
abbrev pub Silent : Kind → List ℕ → List ℕ → Type 0
Silent kind [] r = Unit
Silent kind (c ∷ w) r = (match_here kind (c ∷ w ++ r) ≡ none) × Silent kind w r

pub Silent-append :
    (kind : Kind) (a b r : List ℕ)
    → Silent kind a (b ++ r)
    → Silent kind b r
    → Silent kind (a ++ b) r
Silent-append kind [] b r h k = k
Silent-append kind (c ∷ a) b r h k =
    (ap (λ s. match_here kind (c ∷ s)) (append_assoc a b r) ∙ h.0, Silent-append kind a b r h.1 k)

shift_all-suc : (n : ℕ) (m : Option Match) → shift_all 1 (shift_all n m) ≡ shift_all (suc n) m
shift_all-suc n none = refl
shift_all-suc n (some m) = let e : (x : ℕ) → 1 + (n + x) ≡ suc n + x = λ x. omega arith in simp e

shift_all-zero : (m : Option Match) → m ≡ shift_all 0 m
shift_all-zero none = refl
shift_all-zero (some m) = let e : (x : ℕ) → 0 + x ≡ x = λ x. omega arith in simp e

first_match-later :
    (kind : Kind) (c : ℕ) (s : List ℕ)
    → match_here kind (c ∷ s) ≡ none
    → first_match kind (c ∷ s) ≡ shift_all 1 (first_match kind s)
unfolding first_match
first_match-later kind c s h = simp (h, first_match)

pub first_match-Silent :
    (kind : Kind) (w r : List ℕ)
    → Silent kind w r
    → first_match kind (w ++ r) ≡ shift_all (length w) (first_match kind r)
first_match-Silent kind [] r h = shift_all-zero (first_match kind r)
first_match-Silent kind (c ∷ w) r h =
    first_match-later kind c (w ++ r) h.0
    ∙ ap (shift_all 1) (first_match-Silent kind w r h.1)
    ∙ shift_all-suc (length w) (first_match kind r)

pub first_match-here :
    (kind : Kind) (c : ℕ) (s : List ℕ) (m : Match)
    → match_here kind (c ∷ s) ≡ some m
    → first_match kind (c ∷ s) ≡ some m
unfolding first_match
first_match-here kind c s m h = simp (h, first_match)

pub span_none : (p : ℕ → Bool) (c : ℕ) (s : List ℕ) → p c ≡ false → span p (c ∷ s) ≡ ([], c ∷ s)
unfolding span
span_none p c s h = simp (h, span)

span_colon : (s : List ℕ) → span is_space (b':' ∷ s) ≡ ([], b':' ∷ s)
unfolding is_space
span_colon s = span_none is_space b':' s refl

span_blank : (v : List ℕ) → Leaves is_space v → span is_space (b' ' ∷ v) ≡ (b' ' ∷ [], v)
unfolding is_space
span_blank v h = span_all is_space (b' ' ∷ []) v (refl, tt) h

-- A key and its colon, then a value.
pub match_here-key :
    (kind : Kind) (c : ℕ) (k v : List ℕ)
    → Consists is_key (c ∷ k)
    → Leaves is_space v
    → match_here kind (c ∷ k ++ b':' ∷ b' ' ∷ v)
      ≡ after_colon kind (suc (length k)) (suc (length k) + 0 + 1) (b' ' ∷ [], v)
unfolding match_here after_key is_key is_digit
match_here-key kind c k v h l =
    let n = suc (length k) in
    simp (span_all is_key (c ∷ k) (b':' ∷ b' ' ∷ v) h refl, match_here)
      (ap (after_key kind n) (span_colon (b' ' ∷ v))
        ∙ ap (after_colon kind n (n + 0 + 1)) (span_blank v l))

-- In the key of a line of the other kind.
pub Silent-key :
    (kind : Kind) (k v : List ℕ)
    → Consists is_key k
    → Leaves is_space v
    → value_of kind v ≡ none
    → Silent kind k (b':' ∷ b' ' ∷ v)
unfolding after_colon
Silent-key kind [] v h l none_there = tt
Silent-key kind (c ∷ k) v h l none_there = (
  match_here-key kind c k v h l ∙ simp (none_there, after_colon),
  Silent-key kind k v h.1 l none_there,
)

pub match_here-other :
    (kind : Kind) (c : ℕ) (s : List ℕ) → is_key c ≡ false → match_here kind (c ∷ s) ≡ none
unfolding match_here
match_here-other kind c s h = simp (span_none is_key c s h, match_here)

-- In a number.
pub Silent-digits :
    (kind : Kind) (ds r : List ℕ) → Consists is_digit ds → Fresh r → Silent kind ds (10 ∷ r)
unfolding match_here is_key is_digit is_space
Silent-digits kind [] r h fresh = tt
Silent-digits kind (d ∷ ds) r h fresh =
    let keys : Consists is_key (d ∷ ds) = all_keys (d ∷ ds) h in
    let cut = span_all is_space (10 ∷ []) r (refl, tt) (Fresh-Leaves r fresh) in
    (
      simp (span_all is_key (d ∷ ds) (10 ∷ r) keys refl, match_here)
          (ap (after_key kind (suc (length ds))) cut
            ∙ after_key-stop kind (suc (length ds)) (10 ∷ []) r (no_colon r fresh)),
      Silent-digits kind ds r h.1 fresh,
    )
  where
    all_keys : (ds : List ℕ) → Consists is_digit ds → Consists is_key ds
    all_keys [] h = tt
    all_keys (d ∷ ds) h = (digit_key d h.0, all_keys ds h.1)

    no_colon : (r : List ℕ) → Fresh r → Leaves (λ c. c == b':') r
    no_colon [] h = tt
    no_colon (c ∷ r) h = text_not_colon c (key_text c h)

-- In a string.
pub Silent-text : (kind : Kind) (t r : List ℕ) → Consists is_text t → Silent kind t (b'"' ∷ r)
unfolding match_here is_key is_digit is_space is_text
Silent-text kind [] r h = tt
Silent-text kind (c ∷ t) r h =
    let (k, v, key, rest) = span_some is_key is_text (c ∷ t) (b'"' ∷ r) h refl in
    let (sp, u, spaces, rest') = span_some is_space is_text v (b'"' ∷ r) rest refl in
    (
      silent_here k v key (
          ap (after_key kind (length k)) spaces
          ∙ after_key-stop kind (length k) sp (u ++ b'"' ∷ r) (no_colon u rest')),
      Silent-text kind t r h.1,
    )
  where
    no_colon : (u : List ℕ) → Consists is_text u → Leaves (λ c. c == b':') (u ++ b'"' ∷ r)
    no_colon [] h = refl
    no_colon (c ∷ u) h = text_not_colon c h.0

    silent_here :
        (k v : List ℕ)
        → span is_key ((c ∷ t) ++ b'"' ∷ r) ≡ (k, v ++ b'"' ∷ r)
        → after_key kind (length k) (span is_space (v ++ b'"' ∷ r)) ≡ none
        → match_here kind ((c ∷ t) ++ b'"' ∷ r) ≡ none
    silent_here [] v e h = simp (e, match_here)
    silent_here (d ∷ k) v e h = simp (e, match_here) h
