-- ===== src/Commands/Rights.antt =====
-- What strmode writes.
use local_server_c.Base.{
  ℕ, ◌≡◌, Option, none, some, List, [], ◌∷◌, ◌==◌, if◌then◌else◌, ◌||◌, pos, arith,
}
use local_server_c.Base.Text.{codes}
use local_server_c.Commands.Mode.{
  strmode, put_type, put_rights, file_formats, file_format, has_right, mode_char,
}

-- The first character of a mode, by the format of the file.
abbrev pub type_char : ℕ → Option ℕ
type_char f =
    if f == 8
    then some b'-'
    else if f == 4
    then some b'd'
    else if f == 2
    then some b'c'
    else if f == 6
    then some b'b'
    else if f == 1
    then some b'p'
    else if f == 10
    then some b'l'
    else if f == 12
    then some b's'
    else none

-- The character of a right; those of a symbolic link are all set.
abbrev pub right : ℕ → ℕ → ℕ → ℕ
right mode t i = if has_right mode i || t == b'l' then mode_char i else b'-'

put_type_known :
    (mode t x : ℕ)
    → (xs : List ℕ) → type_char (file_format mode) ≡ some t
    → put_type mode 11 0 file_formats (codes "-dcbpls") (x ∷ xs) ≡ t ∷ xs
unfolding put_type
put_type_known mode t x xs h = ground arith

-- In a buffer of 11 bytes, for a file of a known type, `strmode` returns 0 and writes the type, the
-- first eight rights and the final NUL; the byte of the ninth right is what the buffer held.
pub strmode_ninth_right :
    (mode t x₀ x₁ x₂ x₃ x₄ x₅ x₆ x₇ x₈ x₉ x₁₀ : ℕ)
    → type_char (file_format mode) ≡ some t
    → strmode mode (x₀ ∷ x₁ ∷ x₂ ∷ x₃ ∷ x₄ ∷ x₅ ∷ x₆ ∷ x₇ ∷ x₈ ∷ x₉ ∷ x₁₀ ∷ []) 11 ≡ (
      pos 0,
      t
          ∷ right mode t 1
          ∷ right mode t 2
          ∷ right mode t 3
          ∷ right mode t 4
          ∷ right mode t 5
          ∷ right mode t 6
          ∷ right mode t 7
          ∷ right mode t 8
          ∷ x₉
          ∷ 0
          ∷ [],
    )
unfolding strmode put_rights
strmode_ninth_right mode t x₀ x₁ x₂ x₃ x₄ x₅ x₆ x₇ x₈ x₉ x₁₀ h =
    simp (put_type_known mode t x₀ (x₁ ∷ x₂ ∷ x₃ ∷ x₄ ∷ x₅ ∷ x₆ ∷ x₇ ∷ x₈ ∷ x₉ ∷ x₁₀ ∷ []) h)
