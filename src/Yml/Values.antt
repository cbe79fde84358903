-- ===== src/Yml/Values.antt =====
-- libs/yml_parser/yml_parser.c: what the groups of the expressions are in one line of a configuration.
use local_server_c.Base.{
  ℕ, ◌^◌, ◌<◌, ◌≡◌, ◌≢◌, refl, sym, ap, ◌∙◌, Option, none, some, Bool, true, false, List, [], ◌∷◌,
  ◌++◌, ◌==◌, if◌then◌else◌, length, append_assoc, append-nil, arith,
}
use mathlib.Core.Path.{subst}
use local_server_c.Base.Text.{NulFree, c_str-NulFree}
use local_server_c.Commands.Info.{decimal}
use local_server_c.Yml.{Kind, int_type, string_type, convert, int_bytes, is_space, is_digit}
use local_server_c.Yml.Expressions.{
  is_key, is_text, span, Value, unsigned, signed, quoted, value_of,
}
use local_server_c.Yml.Lines.{
  Leaves, Consists, Fresh, span_all, digit_not_space, Silent, Silent-append, Silent-key,
  Silent-digits, Silent-text, match_here-other,
}
use local_server_c.Yml.Numbers.{decimal-digits, convert-decimal, int_word}

-- A line of a configuration: a key with a number (is it negative?) or a string.
pub data Line : Type 0 where
  number : List ℕ → Bool → ℕ → Line
  string : List ℕ → List ℕ → Line

abbrev pub key_of : Line → List ℕ
key_of (number key negative n) = key
key_of (string key text) = key

abbrev pub kind_of : Line → Kind
kind_of (number key negative n) = int_type
kind_of (string key text) = string_type

-- The value without and with its quotes.
abbrev pub bare : Line → List ℕ
bare (number key negative n) = if negative then b'-' ∷ decimal n else decimal n
bare (string key text) = text

abbrev pub quotes : Line → List ℕ
quotes (number key negative n) = []
quotes (string key text) = b'"' ∷ []

abbrev pub written : Line → List ℕ
written l = quotes l ++ bare l ++ quotes l

-- The bytes of the line, with its newline.
abbrev pub bytes_of : Line → List ℕ
bytes_of l = key_of l ++ b':' ∷ b' ' ∷ (written l ++ 10 ∷ [])

-- What is stored for the value: the bytes of an `int`, or the string and its NUL.
abbrev pub stored_for : Line → List ℕ
stored_for (number key negative n) = int_bytes (int_word negative n)
stored_for (string key text) = text ++ 0 ∷ []

abbrev pub IsName : (ℕ → Bool) → List ℕ → Type 0
IsName p s = (s ≢ []) × Consists p s

-- Keys and strings are made of the bytes of the expressions; a number has ten digits at most.
abbrev pub IsLine : Line → Type 0
IsLine (number key negative n) = IsName is_key key × (n < 10 ^ 10)
IsLine (string key text) = IsName is_key key × IsName is_text text

pub key_of-IsName : (l : Line) → IsLine l → IsName is_key (key_of l)
key_of-IsName (number key negative n) h = h.0
key_of-IsName (string key text) h = h.0

digit_not_minus : (c : ℕ) → is_digit c ≡ true → (c == b'-') ≡ false
unfolding is_digit
digit_not_minus c h = ground arith

unsigned-digits :
    (c : ℕ) (s r : List ℕ)
    → Consists is_digit (c ∷ s)
    → unsigned ((c ∷ s) ++ 10 ∷ r) ≡ some (c ∷ s, 10 ∷ r)
unfolding unsigned is_digit
unsigned-digits c s r h = simp (span_all is_digit (c ∷ s) (10 ∷ r) h refl, unsigned)

signed-plain :
    (c : ℕ) (t : List ℕ) (x : List ℕ × List ℕ)
    → is_digit c ≡ true
    → unsigned (c ∷ t) ≡ some x
    → signed (c ∷ t) ≡ some x
unfolding signed
signed-plain c t x d e = let other = digit_not_minus c d in simp (other, e, signed)

signed-minus : (t a r : List ℕ) → unsigned t ≡ some (a, r) → signed (b'-' ∷ t) ≡ some (b'-' ∷ a, r)
unfolding signed
signed-minus t a r e =
    ap
      (λ (x : Option (List ℕ × List ℕ)). elim x as (λ y. Option (List ℕ × List ℕ)) [
        | none ↦ none
        | some (text, rest) ↦ some (b'-' ∷ text, rest)
      ])
      e

quoted-text : (t r : List ℕ) → IsName is_text t → quoted (t ++ b'"' ∷ r) ≡ some (t, r)
unfolding quoted is_text is_key is_digit
quoted-text [] r (some_byte, h) = absurd (some_byte refl)
quoted-text (c ∷ t) r (some_byte, h) = simp (span_all is_text (c ∷ t) (b'"' ∷ r) h refl, quoted)

-- The group of the value in a line, with what follows the line.
abbrev pub group : Line → List ℕ → Value
group l r = record { before = length (quotes l); text = bare l; rest = 10 ∷ r }

signed-number :
    (key : List ℕ) (negative : Bool) (n : ℕ) (r : List ℕ)
    → n < 10 ^ 10
    → let text = bare (number key negative n) in signed (text ++ 10 ∷ r) ≡ some (text, 10 ∷ r)
signed-number key false n r small =
    let (c, s, e, ds, value) = decimal-digits n small in
    rw e (signed-plain c (s ++ 10 ∷ r) (c ∷ s, 10 ∷ r) ds.0 (unsigned-digits c s r ds))
signed-number key true n r small =
    let (c, s, e, ds, value) = decimal-digits n small in
    rw e (signed-minus ((c ∷ s) ++ 10 ∷ r) (c ∷ s) (10 ∷ r) (unsigned-digits c s r ds))

value_of-signed :
    (s text r : List ℕ)
    → signed s ≡ some (text, r)
    → value_of int_type s ≡ some (record { before = 0; text = text; rest = r })
unfolding value_of
value_of-signed s text r e = simp (e, value_of)

value_of-quoted :
    (s text r : List ℕ)
    → quoted s ≡ some (text, r)
    → value_of string_type (b'"' ∷ s) ≡ some (record { before = 1; text = text; rest = r })
unfolding value_of
value_of-quoted s text r e =
    ap
      (λ (x : Option (List ℕ × List ℕ)). elim x as (λ y. Option Value) [
        | none ↦ none
        | some (text, rest) ↦ some (record { before = 1; text = text; rest = rest })
      ])
      e

pub value_of-group :
    (l : Line) (r : List ℕ)
    → IsLine l
    → value_of (kind_of l) (written l ++ 10 ∷ r) ≡ some (group l r)
unfolding value_of
value_of-group (number key negative n) r (name, small) =
    let text = bare (number key negative n) in
    ap (λ t. value_of int_type (t ++ 10 ∷ r)) (append-nil text)
    ∙ value_of-signed (text ++ 10 ∷ r) text (10 ∷ r) (signed-number key negative n r small)
value_of-group (string key text) r (name, letters) =
    ap (λ t. value_of string_type (b'"' ∷ t)) (append_assoc text (b'"' ∷ []) (10 ∷ r))
    ∙ value_of-quoted (text ++ b'"' ∷ 10 ∷ r) text (10 ∷ r) (quoted-text text (10 ∷ r) letters)

pub text-NulFree : (t : List ℕ) → Consists is_text t → NulFree t
unfolding is_text is_key is_digit
text-NulFree [] h = tt
text-NulFree (c ∷ t) h = ((λ e. let k = h.0 in ground arith), text-NulFree t h.1)

-- What is stored for the group.
pub convert-stored : (l : Line) → IsLine l → convert (kind_of l) (bare l) ≡ stored_for l
unfolding convert
convert-stored (number key false n) (name, small) = (convert-decimal n small).0
convert-stored (number key true n) (name, small) = (convert-decimal n small).1
convert-stored (string key text) h =
    ap (λ t. t ++ 0 ∷ []) (c_str-NulFree text (text-NulFree text h.1.1))

-- The value begins with no white space, and it is none of the other kind.
abbrev pub other : Kind → Kind
other int_type = string_type
other string_type = int_type

pub written-Leaves : (l : Line) (r : List ℕ) → IsLine l → Leaves is_space (written l ++ r)
unfolding is_space
written-Leaves (number key false n) r (name, small) =
    let (c, s, e, ds, value) = decimal-digits n small in rw e (digit_not_space c ds.0)
written-Leaves (number key true n) r (name, small) = refl
written-Leaves (string key text) r h = refl

digit_not_quote : (c : ℕ) → is_digit c ≡ true → (c == b'"') ≡ false
unfolding is_digit
digit_not_quote c h = ground arith

value_of-other_digit :
    (c : ℕ) (s : List ℕ) → is_digit c ≡ true → value_of string_type (c ∷ s) ≡ none
unfolding value_of
value_of-other_digit c s h = simp (digit_not_quote c h, value_of)

value_of-other :
    (l : Line) (r : List ℕ) → IsLine l → value_of (other (kind_of l)) (written l ++ r) ≡ none
unfolding value_of signed unsigned span is_digit
value_of-other (number key false n) r (name, small) =
    let (c, s, e, ds, value) = decimal-digits n small in
    rw e (value_of-other_digit c ((s ++ []) ++ r) ds.0)
value_of-other (number key true n) r (name, small) = refl
value_of-other (string key text) r h = refl

no_key : (kind : Kind) (c : ℕ) (r : List ℕ) → is_key c ≡ false → Silent kind (c ∷ []) r
no_key kind c r h = (match_here-other kind c r h, tt)

written-Silent :
    (kind : Kind) (l : Line) (r : List ℕ) → IsLine l → Fresh r → Silent kind (written l) (10 ∷ r)
unfolding is_key is_digit
written-Silent kind (number key false n) r (name, small) fresh =
    let (c, s, e, ds, value) = decimal-digits n small in
    rw (append-nil (decimal n), e) (Silent-digits kind (c ∷ s) r ds fresh)
written-Silent kind (number key true n) r (name, small) fresh =
    let (c, s, e, ds, value) = decimal-digits n small in
    rw (append-nil (decimal n), e)
      (match_here-other kind b'-' ((c ∷ s) ++ 10 ∷ r) refl, Silent-digits kind (c ∷ s) r ds fresh)
written-Silent kind (string key text) r (name, letters) fresh = (
  match_here-other kind b'"' ((text ++ b'"' ∷ []) ++ 10 ∷ r) refl,
  Silent-append kind text (b'"' ∷ []) (10 ∷ r) (Silent-text kind text (10 ∷ r) letters.1)
      (no_key kind b'"' (10 ∷ r) refl),
)

-- In a line there is no match of the other kind.
pub bytes_of-Silent :
    (l : Line) (r : List ℕ) → IsLine l → Fresh r → Silent (other (kind_of l)) (bytes_of l) r
unfolding is_key is_digit
bytes_of-Silent l r h fresh =
    let kind = other (kind_of l) in
    let value = written l ++ 10 ∷ [] in
    let same = append_assoc (written l) (10 ∷ []) r in
    Silent-append kind (key_of l) (b':' ∷ b' ' ∷ value) r
      (Silent-key kind (key_of l) (value ++ r) (key_of-IsName l h).1
        (subst (Leaves is_space) (sym same) (written-Leaves l (10 ∷ r) h))
        (ap (value_of kind) same ∙ value_of-other l (10 ∷ r) h))
      (
        match_here-other kind b':' (b' ' ∷ value ++ r) refl,
        (
          match_here-other kind b' ' (value ++ r) refl,
          Silent-append kind (written l) (10 ∷ []) r (written-Silent kind l r h fresh)
              (no_key kind 10 r refl),
        ),
      )
