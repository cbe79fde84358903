-- ===== src/Commands/Mode.antt =====
-- libs/commands/commands.c: strmode and get_color, of the command lsl.
use local_server_c.Base.{
  ℕ, zero, suc, ◌+◌, ◌-◌, ◌/◌, ◌%◌, ◌^◌, Bool, List, [], ◌∷◌, ◌==◌, ltb, ◌||◌, if◌then◌else◌,
  get_or, set, ℤ, pos, negsuc,
}
use local_server_c.Base.Text.{codes, strncpy}

-- MODE_STR_LENGTH and COLOR_SIZE.
abbrev pub mode_str_length : ℕ
mode_str_length = 10

abbrev pub color_size : ℕ
color_size = 9

-- `filetype` of `strmode`: the values of `mode & S_IFMT` for which S_ISREG, S_ISDIR, S_ISCHR, S_ISBLK,
-- S_ISFIFO, S_ISLNK and S_ISSOCK hold, in units of 4096.
abbrev pub file_formats : List ℕ
file_formats = 8 ∷ 4 ∷ 2 ∷ 6 ∷ 1 ∷ 10 ∷ 12 ∷ []

abbrev pub file_format : ℕ → ℕ
file_format mode = mode / 4096 % 16

-- The first loop of `strmode` from index `i` on the formats that are left.
unfoldable pub put_type : ℕ → ℕ → ℕ → List ℕ → List ℕ → List ℕ → List ℕ
put_type mode n i [] chars buffer = buffer
put_type mode n i (f ∷ fs) [] buffer = buffer
put_type mode n i (f ∷ fs) (c ∷ cs) buffer =
    if ltb i (n - 1)
    then if file_format mode == f then set buffer 0 c else put_type mode n (suc i) fs cs buffer
    else buffer

-- `mode & mode_masks[i - 1]` is not 0 (S_IRUSR is bit 8, S_IXOTH is bit 0).
abbrev pub has_right : ℕ → ℕ → Bool
has_right mode i = mode / 2 ^ (9 - i) % 2 == 1

abbrev pub mode_char : ℕ → ℕ
mode_char i = get_or (codes "rwx") ((i - 1) % 3) 0

-- The second loop of `strmode`: `k` rounds from index `i`.
unfoldable pub put_rights : ℕ → ℕ → ℕ → ℕ → List ℕ → List ℕ
put_rights mode n zero i buffer = buffer
put_rights mode n (suc k) i buffer =
    if ltb i n
    then put_rights mode n k (suc i)
        (set buffer i (if has_right mode i || get_or buffer 0 0 == b'l' then mode_char i else b'-'))
    else buffer

-- `strmode`: the indices of the second loop go from 1 to 8.
unfoldable pub strmode : ℕ → List ℕ → ℕ → ℤ × List ℕ
unfolding put_type put_rights
strmode mode buffer zero = (negsuc 0, buffer)
strmode mode buffer (suc m) =
    let typed = put_type mode (suc m) 0 file_formats (codes "-dcbpls") buffer in
    let rights = put_rights mode (suc m) 8 1 typed in
    (if ltb (suc m) (mode_str_length + 1) then pos 1 else pos 0, set rights m 0)

-- A color code: escape, "[1;", two digits, "m".
abbrev pub color_code : ℕ → ℕ → List ℕ
color_code a b = 27 ∷ b'[' ∷ b'1' ∷ b';' ∷ a ∷ b ∷ b'm' ∷ []

-- `get_color`.
unfoldable pub get_color : List ℕ → ℕ → ℕ → List ℕ
get_color buffer n t =
    if ltb n (color_size + 1)
    then buffer
    else if t == b'd'
    then strncpy buffer (color_code b'3' b'4') (color_size + 1)
    else if t == b'l'
    then strncpy buffer (color_code b'3' b'6') (color_size + 1)
    else if t == b'b' || (t == b'c' || t == b'p')
    then strncpy buffer (color_code b'3' b'3') (color_size + 1)
    else if t == b's'
    then strncpy buffer (color_code b'4' b'5') (color_size + 1)
    else set buffer 0 0
