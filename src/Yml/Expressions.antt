-- ===== src/Yml/Expressions.antt =====
-- libs/yml_parser/yml_parser.c: the two regular expressions, YML_INT_REGEX and YML_STRING_REGEX, compiled
-- with REG_EXTENDED and REG_ICASE, as a search in a text. In both of them no byte can end one part and
-- begin the next, so that the first match from the left takes as many bytes for each part as there are.
use local_server_c.Base.{
  ℕ, suc, ◌+◌, Option, none, some, Bool, true, false, ◌&&◌, ◌||◌, List, [], ◌∷◌, ◌==◌, leb, length,
}
use local_server_c.Yml.{Kind, int_type, string_type, Match, is_space, is_digit}

-- `[a-z0-9_]`, in either case.
unfoldable pub is_key : ℕ → Bool
is_key c = (leb b'a' c && leb c b'z') || ((leb b'A' c && leb c b'Z') || (is_digit c || c == b'_'))

-- `[a-z0-9_ ]`.
unfoldable pub is_text : ℕ → Bool
is_text c = is_key c || c == b' '

-- The longest beginning of bytes of a class, and what follows it.
unfoldable pub span : (ℕ → Bool) → List ℕ → List ℕ × List ℕ
span p [] = ([], [])
span p (c ∷ s) = elim (p c) [
  | true ↦ let (taken, rest) = span p s in (c ∷ taken, rest)
  | false ↦ ([], c ∷ s)
]

-- How many bytes `(\r?\n)*` takes.
unfoldable pub newlines : List ℕ → ℕ
newlines [] = 0
newlines (c ∷ []) = elim (c == 10) [ true ↦ 1 | false ↦ 0 ]
newlines (c ∷ d ∷ s) = elim (c == 10) [
  | true ↦ suc (newlines (d ∷ s))
  | false ↦ elim (c == 13 && d == 10) [ true ↦ 2 + newlines s | false ↦ 0 ]
]

-- A value: how many quotes are before it (and after it), itself, and what follows them.
pub record Value : Type 0 where
  pub before : ℕ
  pub text : List ℕ
  pub rest : List ℕ

-- `[0-9]+`, with or without the `-` before it.
unfoldable pub unsigned : List ℕ → Option (List ℕ × List ℕ)
unsigned s =
    let (text, rest) = span is_digit s in elim text [ [] ↦ none | c ∷ t ↦ some (c ∷ t, rest) ]

unfoldable pub signed : List ℕ → Option (List ℕ × List ℕ)
signed [] = none
signed (c ∷ s) = elim (c == b'-') [
  | true ↦ elim (unsigned s) [ none ↦ none | some (text, rest) ↦ some (c ∷ text, rest) ]
  | false ↦ unsigned (c ∷ s)
]

-- `"([a-z0-9_ ]+)"` after its first quote.
unfoldable pub quoted : List ℕ → Option (List ℕ × List ℕ)
quoted s =
    let (text, rest) = span is_text s in
    elim text [
      | [] ↦ none
      | c ∷ t ↦ elim rest [
        | [] ↦ none
        | d ∷ after ↦ elim (d == b'"') [ true ↦ some (c ∷ t, after) | false ↦ none ]
      ]
    ]

-- The group of the value in each expression, with its quotes.
unfoldable pub value_of : Kind → List ℕ → Option Value
value_of int_type s = elim (signed s) [
  | none ↦ none
  | some (text, rest) ↦ some (record { before = 0; text = text; rest = rest })
]
value_of string_type [] = none
value_of string_type (c ∷ s) = elim (c == b'"') [
  | false ↦ none
  | true ↦ elim (quoted s) [
    | none ↦ none
    | some (text, rest) ↦ some (record { before = 1; text = text; rest = rest })
  ]
]

-- The match for a key of `n` bytes and a value, with its quotes from `at` on.
abbrev pub groups : ℕ → ℕ → Value → Match
groups n at v =
    let start = at + v.before in
    let end = start + length v.text in
    record {
      match_eo = end + v.before + newlines v.rest;
      key_so = 0;
      key_eo = n;
      value_so = start;
      value_eo = end;
    }

-- The rest of an expression, `\s*:\s*`, the value and the newlines, after a key of `n` bytes: after the
-- second spaces, ...
unfoldable pub after_colon : Kind → ℕ → ℕ → List ℕ × List ℕ → Option Match
after_colon kind n at (spaces, s) = elim (value_of kind s) [
  | none ↦ none
  | some v ↦ some (groups n (at + length spaces) v)
]

-- ... and after the first.
unfoldable pub after_key : Kind → ℕ → List ℕ × List ℕ → Option Match
after_key kind n (spaces, []) = none
after_key kind n (spaces, c ∷ s) = elim (c == b':') [
  | false ↦ none
  | true ↦ after_colon kind n (n + length spaces + 1) (span is_space s)
]

-- The match of an expression at the start of a text.
unfoldable pub match_here : Kind → List ℕ → Option Match
match_here kind s =
    let (key, rest) = span is_key s in
    elim key [ [] ↦ none | c ∷ k ↦ after_key kind (length (c ∷ k)) (span is_space rest) ]

-- A match in what follows `n` bytes.
abbrev pub shift : ℕ → Match → Match
shift n m = record {
  match_eo = n + m.match_eo;
  key_so = n + m.key_so;
  key_eo = n + m.key_eo;
  value_so = n + m.value_so;
  value_eo = n + m.value_eo;
}

abbrev pub shift_all : ℕ → Option Match → Option Match
shift_all n none = none
shift_all n (some m) = some (shift n m)

-- The first match in a text.
unfoldable pub first_match : Kind → List ℕ → Option Match
first_match kind [] = none
first_match kind (c ∷ s) =
    let later = first_match kind s in
    elim (match_here kind (c ∷ s)) [ some m ↦ some m | none ↦ shift_all 1 later ]
