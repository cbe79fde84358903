-- ===== src/Yml/RoundTrip.antt =====
-- libs/yml_parser/yml_parser.c: a configuration that is written line by line is read back by `get`.
use local_server_c.Base.{
  ℕ, ◌*◌, ◌/◌, ◌≤◌, ◌≡◌, ◌≢◌, refl, sym, ap, ap₂, ◌∙◌, Option, none, some, true, false, List, [],
  ◌∷◌, ◌++◌, length, All, append-nil, length-append, pos, inl, inr, Bool-cases, arith,
}
use local_server_c.Base.Text.{NulFree, c_str-append_nul, same_text, same_text_refl, eq_of_same_text}
use local_server_c.Yml.{Kind, int_type, string_type, Regex}
use local_server_c.Yml.HashMap.{Elem}
use local_server_c.Yml.Parser.{Parser, returned, initialised, init_yml_parser, exec_parser, get}
use local_server_c.Yml.Expressions.{first_match}
use local_server_c.Yml.Numbers.{decimal-digits, digits-NulFree}
use local_server_c.Yml.Values.{
  Line, number, string, key_of, kind_of, bare, quotes, written, bytes_of, stored_for, IsLine,
  key_of-IsName, other, text-NulFree,
}
use local_server_c.Yml.Matches.{render, entry, of_kind, key-NulFree, elements-render}
use local_server_c.Yml.Reading.{all_well, elements_of, lookup, answer_of, get-configuration}

NulFree-append : (a b : List ℕ) → NulFree a → NulFree b → NulFree (a ++ b)
NulFree-append [] b h k = k
NulFree-append (c ∷ a) b h k = (h.0, NulFree-append a b h.1 k)

bare-NulFree : (l : Line) → IsLine l → NulFree (bare l)
bare-NulFree (number key false n) (name, small) =
    let (c, s, e, ds, value) = decimal-digits n small in rw e (digits-NulFree (c ∷ s) ds)
bare-NulFree (number key true n) (name, small) =
    let (c, s, e, ds, value) = decimal-digits n small in
    rw e (omega arith, digits-NulFree (c ∷ s) ds)
bare-NulFree (string key text) (name, letters) = text-NulFree text letters.1

quotes-NulFree : (l : Line) → NulFree (quotes l)
quotes-NulFree (number key negative n) = tt
quotes-NulFree (string key text) = (omega arith, tt)

bytes_of-NulFree : (l : Line) → IsLine l → NulFree (bytes_of l)
bytes_of-NulFree l h =
    let q = quotes-NulFree l in
    let value =
      NulFree-append (quotes l ++ bare l) (quotes l)
        (NulFree-append (quotes l) (bare l) q (bare-NulFree l h)) q in
    NulFree-append (key_of l) (b':' ∷ b' ' ∷ (written l ++ 10 ∷ []))
      (key-NulFree (key_of l) (key_of-IsName l h).1)
      (omega arith, (omega arith, NulFree-append (written l) (10 ∷ []) value (omega arith, tt)))

render-NulFree : (ls : List Line) → All IsLine ls → NulFree (render ls)
render-NulFree [] h = tt
render-NulFree (l ∷ ls) h =
    NulFree-append (bytes_of l) (render ls) (bytes_of-NulFree l h.0) (render-NulFree ls h.1)

-- A line has three bytes at least.
length-render_le : (ls : List Line) → 3 * length ls ≤ length (render ls)
length-render_le [] = omega arith
length-render_le (l ∷ ls) =
    let rest = length-render_le ls in
    let whole = length-append (bytes_of l) (render ls) in
    let line = length-append (key_of l) (b':' ∷ b' ' ∷ (written l ++ 10 ∷ [])) in
    let value = length-append (written l) (10 ∷ []) in omega (arith, rest, whole, line, value)

-- The expressions in a whole file: the limit of a third of its length is no limit.
elements_of-render :
    (regex : Regex) (finds : (kind : Kind) (s : List ℕ) → regex.exec kind s ≡ first_match kind s)
    (kind : Kind) (ls : List Line)
    → All IsLine ls
    → elements_of regex kind (render ls ++ 0 ∷ []) ≡ of_kind kind ls
unfolding elements_of
elements_of-render regex finds kind ls h =
    let text = c_str-append_nul (render ls) [] (render-NulFree ls h) in
    let size = length-render_le ls in
    rw text (elements-render regex finds kind ls (length (render ls) / 3) h (omega (arith, size)))

-- No line has the key.
abbrev pub Absent : List ℕ → List Line → Type 0
Absent key = All (λ l. key_of l ≢ key)

lookup-here : (e : Elem) (es : List Elem) → lookup e.key (e ∷ es) ≡ some e.value
unfolding lookup
lookup-here e es = simp (same_text_refl e.key, lookup)

lookup-past :
    (key : List ℕ) (e : Elem) (es : List Elem) → e.key ≢ key → lookup key (e ∷ es) ≡ lookup key es
unfolding lookup
lookup-past key e es h = elim (Bool-cases (same_text e.key key)) [
  | inl same ↦ absurd (h (eq_of_same_text e.key key same))
  | inr differs ↦ simp (differs, lookup)
]

module _ (key : List ℕ) (es : List Elem) where
  lookup-step :
      (kind : Kind) (l : Line) (ls : List Line)
      → key_of l ≢ key
      → lookup key (of_kind kind (l ∷ ls) ++ es) ≡ lookup key (of_kind kind ls ++ es)
  lookup-step int_type (number k negative n) ls h =
      lookup-past key (entry (number k negative n)) (of_kind int_type ls ++ es) h
  lookup-step int_type (string k text) ls h = refl
  lookup-step string_type (number k negative n) ls h = refl
  lookup-step string_type (string k text) ls h =
      lookup-past key (entry (string k text)) (of_kind string_type ls ++ es) h

  lookup-Absent :
      (kind : Kind) (ls : List Line)
      → Absent key ls
      → lookup key (of_kind kind ls ++ es) ≡ lookup key es
  lookup-Absent kind [] h = refl
  lookup-Absent kind (l ∷ ls) h = lookup-step kind l ls h.0 ∙ lookup-Absent kind ls h.1

first_kind :
    (l : Line) (after : List Line) (es : List Elem)
    → lookup (key_of l) (of_kind (kind_of l) (l ∷ after) ++ es) ≡ some (stored_for l)
first_kind (number k negative n) after es =
    lookup-here (entry (number k negative n)) (of_kind int_type after ++ es)
first_kind (string k text) after es =
    lookup-here (entry (string k text)) (of_kind string_type after ++ es)

first_other :
    (l : Line) (after : List Line) (es : List Elem)
    → Absent (key_of l) after
    → lookup (key_of l) (of_kind (other (kind_of l)) (l ∷ after) ++ es) ≡ lookup (key_of l) es
first_other (number k negative n) after es h = lookup-Absent k es string_type after h
first_other (string k text) after es h = lookup-Absent k es int_type after h

module _ (l : Line) (after : List Line) (absent : Absent (key_of l) after) (es : List Elem) where
  -- The value of the key among the lines of its kind, ...
  lookup-kind :
      (before : List Line)
      → Absent (key_of l) before
      → lookup (key_of l) (of_kind (kind_of l) (before ++ l ∷ after) ++ es) ≡ some (stored_for l)
  lookup-kind (b ∷ before) h =
      lookup-step (key_of l) es (kind_of l) b (before ++ l ∷ after) h.0 ∙ lookup-kind before h.1
  lookup-kind [] h = first_kind l after es

  -- ... and those of the other kind.
  lookup-other :
      (before : List Line)
      → Absent (key_of l) before
      → lookup (key_of l) (of_kind (other (kind_of l)) (before ++ l ∷ after) ++ es)
        ≡ lookup (key_of l) es
  lookup-other (b ∷ before) h =
      lookup-step (key_of l) es (other (kind_of l)) b (before ++ l ∷ after) h.0
      ∙ lookup-other before h.1
  lookup-other [] h = first_other l after es absent

lookup-written :
    (before : List Line) (l : Line) (after : List Line)
    → Absent (key_of l) before
    → Absent (key_of l) after
    → let ls = before ++ l ∷ after in
      lookup (key_of l) (of_kind int_type ls ++ of_kind string_type ls) ≡ some (stored_for l)
lookup-written before (number key negative n) after h k =
    let l = number key negative n in
    lookup-kind l after k (of_kind string_type (before ++ l ∷ after)) before h
lookup-written before (string key text) after h k =
    let l = string key text in
    let ls = before ++ l ∷ after in
    lookup-other l after k (of_kind string_type ls) before h
    ∙ ap (lookup key) (sym (append-nil (of_kind string_type ls)))
    ∙ lookup-kind l after k [] before h

-- The lines have the line `l`, and no other with its key.
pub record Has (ls : List Line) (l : Line) : Type 0 where
  pub before : List Line
  pub after : List Line
  pub split : ls ≡ before ++ l ∷ after
  pub first : Absent (key_of l) before
  pub last : Absent (key_of l) after

-- What `get` answers in a configuration of these lines.
abbrev pub value_in : List Line → List ℕ → Option (List ℕ)
value_in ls key = lookup key (of_kind int_type ls ++ of_kind string_type ls)

pub value_in-Has :
    (ls : List Line) (l : Line) → Has ls l → value_in ls (key_of l) ≡ some (stored_for l)
value_in-Has ls l has =
    ap (λ x. value_in x (key_of l)) has.split
    ∙ lookup-written has.before l has.after has.first has.last

pub value_in-Absent : (ls : List Line) (key : List ℕ) → Absent key ls → value_in ls key ≡ none
unfolding lookup
value_in-Absent ls key h =
    lookup-Absent key (of_kind string_type ls) int_type ls h
    ∙ ap (lookup key) (sym (append-nil (of_kind string_type ls)))
    ∙ lookup-Absent key [] string_type ls h

module _ (regex : Regex)
    (finds : (kind : Kind) (s : List ℕ) → regex.exec kind s ≡ first_match kind s)
    (ci : regex.compiles int_type ≡ true) (cs : regex.compiles string_type ≡ true) where
  pub written-parser :
      (ls : List Line)
      → All IsLine ls
      → (p : Parser) × (p' : Parser) × (init_yml_parser false (all_well (render ls))
          ≡ initialised p)
        × (exec_parser regex false false p ≡ returned (pos 1) p')
        × ((key : List ℕ) → get (some p') key false ≡ answer_of (value_in ls key))
  written-parser ls lines =
      let (p, p', made, run, answers) = get-configuration regex ci cs (render ls) in
      let ints = elements_of-render regex finds int_type ls lines in
      let strings = elements_of-render regex finds string_type ls lines in
      let same = λ (key : List ℕ). ap (λ es. answer_of (lookup key es)) (ap₂ (◌++◌) ints strings) in
      (p, p', made, run, λ key. answers key ∙ same key)

  -- When `regexec` finds the first match of the expressions, both compile, no call fails and the memory
  -- of the new map is NULL, a configuration that is written line by line (`key: number` or
  -- `key: "string"`, in the bytes that the expressions allow, a number of ten digits at most) is read
  -- with success, and `get` answers, for a key that one line has, the value of that line: the number as
  -- an `int` (so modulo 2 ^ 32), the string with its NUL.
  pub get-written :
      (ls : List Line) (l : Line)
      → All IsLine ls
      → Has ls l
      → (p : Parser) × (p' : Parser) × (init_yml_parser false (all_well (render ls))
          ≡ initialised p)
        × (exec_parser regex false false p ≡ returned (pos 1) p')
        × (get (some p') (key_of l) false ≡ returned (pos 1) (stored_for l))
  get-written ls l lines has =
      let (p, p', made, run, answers) = written-parser ls lines in
      (p, p', made, run, answers (key_of l) ∙ ap answer_of (value_in-Has ls l has))
