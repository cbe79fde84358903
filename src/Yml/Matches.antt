-- ===== src/Yml/Matches.antt =====
-- libs/yml_parser/yml_parser.c: what the two expressions find in a configuration that is written line by
-- line.
use local_server_c.Base.{
  ℕ, zero, suc, ◌+◌, ◌-◌, ◌≤◌, ◌≡◌, refl, sym, ap, ap₂, ◌∙◌, some, true, false, List, [], ◌∷◌, ◌++◌,
  ◌==◌, length, take, drop, take-append_exact, drop-append, All, append_assoc, length-append, inl,
  inr, Option-cases, arith,
}
use local_server_c.Base.Text.{NulFree, c_str, c_str-NulFree}
use local_server_c.Yml.{
  Kind, int_type, string_type, Match, Regex, slice, convert, is_space, is_digit,
}
use local_server_c.Yml.HashMap.{Elem}
use local_server_c.Yml.Expressions.{
  is_key, newlines, Value, groups, value_of, after_colon, shift, shift_all, first_match,
}
use local_server_c.Yml.Lines.{
  Leaves, Consists, Fresh, first_match-here, first_match-Silent, match_here-key,
}
use local_server_c.Yml.Values.{
  Line, number, string, key_of, kind_of, bare, quotes, written, bytes_of, stored_for, IsName,
  IsLine, key_of-IsName, group, value_of-group, convert-stored, other, written-Leaves,
  bytes_of-Silent,
}
use local_server_c.Yml.Reading.{element, elements, elements_end, elements_one}

-- The bytes of a configuration.
abbrev pub render : List Line → List ℕ
render [] = []
render (l ∷ ls) = bytes_of l ++ render ls

abbrev pub entry : Line → Elem
entry l = record { key = key_of l; value = stored_for l }

-- What the lines of a kind stand for.
abbrev pub of_kind : Kind → List Line → List Elem
of_kind kind [] = []
of_kind int_type (number key negative n ∷ ls) = entry (number key negative n) ∷ of_kind int_type ls
of_kind int_type (string key text ∷ ls) = of_kind int_type ls
of_kind string_type (number key negative n ∷ ls) = of_kind string_type ls
of_kind string_type (string key text ∷ ls) = entry (string key text) ∷ of_kind string_type ls

slice_middle :
    (a b c : List ℕ) (i j : ℕ)
    → length a ≡ i
    → j ≡ length a + length b
    → slice (a ++ (b ++ c)) i j ≡ b
slice_middle a b c i j e f =
    ap (take (j - i)) (drop-append a (b ++ c) i 0 (omega arith))
    ∙ take-append_exact (j - i) b c (omega arith)

key_not_newline : (c : ℕ) → is_key c ≡ true → ((c == 10) ≡ false) × ((c == 13) ≡ false)
unfolding is_key is_digit
key_not_newline c h = ground arith

newlines_key : (c : ℕ) (r : List ℕ) → is_key c ≡ true → newlines (c ∷ r) ≡ 0
unfolding newlines
newlines_key c [] h = let (lf, cr) = key_not_newline c h in simp (lf, newlines)
newlines_key c (d ∷ r) h = let (lf, cr) = key_not_newline c h in simp (lf, cr, newlines)

newlines_one : (r : List ℕ) → Fresh r → newlines (10 ∷ r) ≡ 1
unfolding newlines
newlines_one [] h = refl
newlines_one (c ∷ r) h = ap suc (newlines_key c r h)

pub key-NulFree : (s : List ℕ) → Consists is_key s → NulFree s
unfolding is_key is_digit
key-NulFree [] h = tt
key-NulFree (c ∷ s) h = ((λ e. let k = h.0 in ground arith), key-NulFree s h.1)

-- The match of a line of the kind.
first_match-line :
    (kind : Kind) (key v : List ℕ) (w : Value)
    → IsName is_key key
    → Leaves is_space v
    → value_of kind v ≡ some w
    → first_match kind (key ++ b':' ∷ b' ' ∷ v)
      ≡ some (groups (length key) (length key + 0 + 1 + 1) w)
unfolding after_colon
first_match-line kind [] v w (some_byte, h) l e = absurd (some_byte refl)
first_match-line kind (c ∷ k) v w (some_byte, h) l e =
    first_match-here kind c (k ++ b':' ∷ b' ' ∷ v) _
      (match_here-key kind c k v h l ∙ simp (e, after_colon))

bytes_of-append :
    (l : Line) (r : List ℕ) → bytes_of l ++ r ≡ key_of l ++ b':' ∷ b' ' ∷ (written l ++ 10 ∷ r)
bytes_of-append l r =
    append_assoc (key_of l) (b':' ∷ b' ' ∷ (written l ++ 10 ∷ [])) r
    ∙ ap (λ t. key_of l ++ b':' ∷ b' ' ∷ t) (append_assoc (written l) (10 ∷ []) r)

match_of : (l : Line) (r : List ℕ) → Match
match_of l r = groups (length (key_of l)) (length (key_of l) + 0 + 1 + 1) (group l r)

module _ (l : Line) (r : List ℕ) (h : IsLine l) (fresh : Fresh r) where
  first_match-bytes_of : first_match (kind_of l) (bytes_of l ++ r) ≡ some (match_of l r)
  unfolding match_of
  first_match-bytes_of =
      ap (first_match (kind_of l)) (bytes_of-append l r)
      ∙ first_match-line (kind_of l) (key_of l) (written l ++ 10 ∷ r) (group l r)
          (key_of-IsName l h) (written-Leaves l (10 ∷ r) h) (value_of-group l r h)

  -- The parts of the line.
  parts : bytes_of l ++ r ≡ (key_of l ++ b':' ∷ b' ' ∷ quotes l) ++ (bare l ++ (quotes l ++ 10 ∷ r))
  parts =
      bytes_of-append l r
      ∙ ap (λ t. key_of l ++ b':' ∷ b' ' ∷ t)
          (append_assoc (quotes l ++ bare l) (quotes l) (10 ∷ r)
            ∙ append_assoc (quotes l) (bare l) (quotes l ++ 10 ∷ r))
      ∙ sym (append_assoc (key_of l) (b':' ∷ b' ' ∷ quotes l) (bare l ++ (quotes l ++ 10 ∷ r)))

  element-entry : element (kind_of l) (bytes_of l ++ r) (match_of l r) ≡ entry l
  unfolding match_of
  element-entry =
      let name = key_of-IsName l h in
      let start : length (key_of l ++ b':' ∷ b' ' ∷ quotes l) ≡ (match_of l r).value_so =
        omega (arith, length-append (key_of l) (b':' ∷ b' ' ∷ quotes l)) in
      let end : (match_of l r).value_eo
          ≡ length (key_of l ++ b':' ∷ b' ' ∷ quotes l) + length (bare l) =
        omega (arith, start) in
      let key : slice (bytes_of l ++ r) 0 (length (key_of l)) ≡ key_of l =
        ap (λ t. slice t 0 (length (key_of l))) (bytes_of-append l r)
        ∙ slice_middle [] (key_of l) (b':' ∷ b' ' ∷ (written l ++ 10 ∷ r)) 0 (length (key_of l))
            refl (omega arith) in
      let value =
        ap (λ t. slice t (match_of l r).value_so (match_of l r).value_eo) parts
        ∙ slice_middle (key_of l ++ b':' ∷ b' ' ∷ quotes l) (bare l) (quotes l ++ 10 ∷ r)
            (match_of l r).value_so (match_of l r).value_eo start end in
      ap₂ (λ k v. record { key = k; value = v })
        (ap c_str key ∙ c_str-NulFree (key_of l) (key-NulFree (key_of l) name.1))
        (ap (convert (kind_of l)) value ∙ convert-stored l h)

  rest_of : drop (match_of l r).match_eo (bytes_of l ++ r) ≡ r
  unfolding match_of
  rest_of =
      let one = newlines_one r fresh in
      let whole = length-append (key_of l) (b':' ∷ b' ' ∷ (written l ++ 10 ∷ [])) in
      let ended = length-append (written l) (10 ∷ []) in
      let closed = length-append (quotes l ++ bare l) (quotes l) in
      let opened = length-append (quotes l) (bare l) in
      drop-append (bytes_of l) r (match_of l r).match_eo 0
        (omega (arith, one, whole, ended, closed, opened))

Fresh-render : (ls : List Line) → All IsLine ls → Fresh (render ls)
Fresh-render [] h = tt
Fresh-render (l ∷ ls) h =
    front (key_of l) (key_of-IsName l h.0) (b':' ∷ b' ' ∷ (written l ++ 10 ∷ []))
  where
    front : (key : List ℕ) → IsName is_key key → (t : List ℕ) → Fresh ((key ++ t) ++ render ls)
    front [] (some_byte, h) t = absurd (some_byte refl)
    front (c ∷ k) (some_byte, h) t = h.0

slice-append : (a r : List ℕ) (i j : ℕ) → slice (a ++ r) (length a + i) (length a + j) ≡ slice r i j
slice-append a r i j = ap₂ take (omega arith) (drop-append a r (length a + i) i refl)

module _ (regex : Regex)
    (finds : (kind : Kind) (s : List ℕ) → regex.exec kind s ≡ first_match kind s) where
  -- A line of the kind is the next element.
  elements-here :
      (l : Line) (r : List ℕ) (n : ℕ)
      → IsLine l
      → Fresh r
      → elements regex (kind_of l) (suc n) (bytes_of l ++ r)
        ≡ entry l ∷ elements regex (kind_of l) n r
  elements-here l r n h fresh =
      elements_one regex (kind_of l) n (bytes_of l ++ r) (match_of l r)
        (finds (kind_of l) (bytes_of l ++ r) ∙ first_match-bytes_of l r h fresh)
      ∙ ap₂ (◌∷◌) (element-entry l r h fresh)
          (ap (elements regex (kind_of l) n) (rest_of l r h fresh))

  -- A line of the other kind is passed over.
  elements-past :
      (kind : Kind) (a r : List ℕ) (n : ℕ)
      → first_match kind (a ++ r) ≡ shift_all (length a) (first_match kind r)
      → elements regex kind n (a ++ r) ≡ elements regex kind n r
  unfolding elements
  elements-past kind a r zero e = refl
  elements-past kind a r (suc n) e = elim (Option-cases (first_match kind r)) [
    | inl end ↦
        elements_end regex kind n (a ++ r) (finds kind (a ++ r) ∙ e ∙ ap (shift_all (length a)) end)
        ∙ sym (elements_end regex kind n r (finds kind r ∙ end))
    | inr (m, one) ↦
        elements_one regex kind n (a ++ r) (shift (length a) m)
          (finds kind (a ++ r) ∙ e ∙ ap (shift_all (length a)) one)
        ∙ ap₂ (◌∷◌)
            (ap₂ (λ k v. record { key = c_str k; value = convert kind v })
              (slice-append a r m.key_so m.key_eo) (slice-append a r m.value_so m.value_eo))
            (ap (elements regex kind n) (drop-append a r (length a + m.match_eo) m.match_eo refl))
        ∙ sym (elements_one regex kind n r m (finds kind r ∙ one))
  ]

  elements-skip :
      (l : Line) (ls : List Line) (n : ℕ)
      → All IsLine (l ∷ ls)
      → elements regex (other (kind_of l)) n (bytes_of l ++ render ls)
        ≡ elements regex (other (kind_of l)) n (render ls)
  elements-skip l ls n h =
      let kind = other (kind_of l) in
      elements-past kind (bytes_of l) (render ls) n (
        first_match-Silent kind (bytes_of l) (render ls)
          (bytes_of-Silent l (render ls) h.0 (Fresh-render ls h.1)))

  pub elements-render :
      (kind : Kind) (ls : List Line) (n : ℕ)
      → All IsLine ls
      → length ls ≤ n
      → elements regex kind n (render ls) ≡ of_kind kind ls
  unfolding elements first_match
  elements-render kind [] zero h enough = refl
  elements-render kind [] (suc n) h enough = elements_end regex kind n [] (finds kind [])
  elements-render kind (l ∷ ls) zero h enough = absurd (omega arith)
  elements-render int_type (number key negative k ∷ ls) (suc n) h enough =
      let l = number key negative k in
      elements-here l (render ls) n h.0 (Fresh-render ls h.1)
      ∙ ap (◌∷◌ (entry l)) (elements-render int_type ls n h.1 (omega arith))
  elements-render string_type (string key text ∷ ls) (suc n) h enough =
      let l = string key text in
      elements-here l (render ls) n h.0 (Fresh-render ls h.1)
      ∙ ap (◌∷◌ (entry l)) (elements-render string_type ls n h.1 (omega arith))
  elements-render int_type (string key text ∷ ls) (suc n) h enough =
      elements-skip (string key text) ls (suc n) h
      ∙ elements-render int_type ls (suc n) h.1 (omega arith)
  elements-render string_type (number key negative k ∷ ls) (suc n) h enough =
      elements-skip (number key negative k) ls (suc n) h
      ∙ elements-render string_type ls (suc n) h.1 (omega arith)
