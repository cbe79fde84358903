-- ===== src/Commands/Directories.antt =====
-- What the command lsl lists.
use local_server_c.Base.{
  drop-append, ℕ, suc, ◌+◌, ◌-◌, ◌≤◌, ◌≡◌, ◌≢◌, refl, sym, ap, ◌∙◌, some, true, false, List, [],
  ◌∷◌, ◌++◌, ◌==◌, ltb, inl, inr, Bool-cases, if◌then◌else◌, take, drop, replicate, length, get_or,
  get_or-append, get_or-drop, length-append, length-replicate, append_assoc, arith,
}
use local_server_c.Base.Text.{
  codes, c_str, strlen, fit, strncpy, NulFree, c_str-NulFree, c_str-append_nul, fit-pad, copied,
}
use local_server_c.Commands.{exec_error}
use local_server_c.Commands.Listing.{
  path_max, ListEnv, path_too_long, returned, strcat, dir_path, path, too_long, list_directory,
  exec_lsl,
}

take-append : {A : Type 0} (xs ys : List A) → take (length xs) (xs ++ ys) ≡ xs
take-append [] ys = refl
take-append (x ∷ xs) ys = ap (◌∷◌ x) (take-append xs ys)

-- A `/` after a string that is followed by two NULs at least.
strcat-slash :
    (d rest : List ℕ)
    → NulFree d
    → strcat (d ++ 0 ∷ 0 ∷ rest) (codes "/") ≡ some (d ++ b'/' ∷ 0 ∷ rest)
unfolding strcat strlen
strcat-slash d rest free =
    let whole = d ++ 0 ∷ 0 ∷ rest in
    let n : length (c_str whole) ≡ length d = ap length (c_str-append_nul d (0 ∷ rest) free) in
    let room : ltb (length d + 1) (length whole) ≡ true =
      ground (arith, length-append d (0 ∷ 0 ∷ rest)) in
    simp
      (
        n,
        room,
        take-append d (0 ∷ 0 ∷ rest),
        drop-append d (0 ∷ 0 ∷ rest) (length d + 1 + 1) 2 (omega arith),
        strcat,
      )
      (ap some (append_assoc d (b'/' ∷ []) (0 ∷ rest)))

module _ (d memory : List ℕ) (free : NulFree d) (short : length d + 2 ≤ path_max) where
  abbrev padding : ℕ
  padding = path_max - length d - 2

  -- The array after `strncpy`.
  copied_dir :
      strncpy memory d path_max ≡ d ++ 0 ∷ 0 ∷ (replicate padding 0 ++ drop path_max memory)
  unfolding strncpy
  copied_dir =
      ap (λ s. fit path_max s ++ drop path_max memory) (c_str-NulFree d free)
      ∙ ap (λ l. l ++ drop path_max memory) (fit-pad path_max (suc (suc padding)) d (omega arith))
      ∙ append_assoc d (0 ∷ 0 ∷ replicate padding 0) (drop path_max memory)

  appended :
      strcat (strncpy memory d path_max) (codes "/")
      ≡ some (d ++ b'/' ∷ 0 ∷ (replicate padding 0 ++ drop path_max memory))
  appended =
      ap (λ l. strcat l (codes "/")) copied_dir
      ∙ strcat-slash d (replicate padding 0 ++ drop path_max memory) free

  last_byte :
      get_or (d ++ b'/' ∷ 0 ∷ (replicate padding 0 ++ drop path_max memory)) path_max 0
      ≡ get_or memory path_max 0
  last_byte =
      let front = d ++ b'/' ∷ 0 ∷ replicate padding 0 in
      let size : length front ≡ path_max = omega (
        arith,
        length-append d (b'/' ∷ 0 ∷ replicate padding 0),
        length-replicate {A = ℕ} padding 0,
      ) in
      ap (λ l. get_or l path_max 0)
        (sym (append_assoc d (b'/' ∷ 0 ∷ replicate padding 0) (drop path_max memory)))
      ∙ get_or-append front (drop path_max memory) path_max 0 size
      ∙ get_or-drop path_max memory 0

  -- The path without a `/` at its end, and what the byte after the array's first 4096 makes of it.
  dir_path-plain :
      (name : List ℕ) (args : List (List ℕ))
      → length d ≢ 0
      → get_or d (length d - 1) 0 ≢ b'/'
      → dir_path memory (name ∷ d ∷ args) ≡ (
          if get_or memory path_max 0 == 0
          then path (d ++ b'/' ∷ 0 ∷ (replicate padding 0 ++ drop path_max memory))
          else too_long)
  unfolding dir_path
  dir_path-plain name args some_byte plain =
      let e : (length d == 0) ≡ false = ground arith in
      let f : (get_or d (length d - 1) 0 == b'/') ≡ false = ground arith in
      simp (e, f, appended, last_byte, dir_path)

  pub dir_path-slash :
      (name : List ℕ) (args : List (List ℕ))
      → dir_path memory (name ∷ (d ++ b'/' ∷ []) ∷ args)
        ≡ path (strncpy memory (d ++ b'/' ∷ []) (path_max + 1))
  unfolding dir_path
  dir_path-slash name args =
      let e : (length (d ++ b'/' ∷ []) == 0) ≡ false =
        ground (arith, length-append d (b'/' ∷ [])) in
      let f : get_or (d ++ b'/' ∷ []) (length (d ++ b'/' ∷ []) - 1) 0 ≡ b'/' =
        get_or-append d (b'/' ∷ []) (length (d ++ b'/' ∷ []) - 1) 0
          (omega (arith, length-append d (b'/' ∷ []))) in
      simp (e, f, dir_path)

pub NulFree-slash : (d : List ℕ) → NulFree d → NulFree (d ++ b'/' ∷ [])
NulFree-slash [] h = ((λ e. omega arith), tt)
NulFree-slash (c ∷ d) h = (h.0, NulFree-slash d h.1)

pub slash_path :
    (d memory : List ℕ)
    → NulFree d
    → length d + 2 ≤ path_max
    → c_str (strncpy memory (d ++ b'/' ∷ []) (path_max + 1)) ≡ d ++ b'/' ∷ []
unfolding strncpy
slash_path d memory free short =
    let whole = d ++ b'/' ∷ [] in
    let nf = NulFree-slash d free in
    ap (λ s. c_str (fit (path_max + 1) s ++ drop (path_max + 1) memory)) (c_str-NulFree whole nf)
    ∙ copied path_max whole (drop (path_max + 1) memory) nf
        (omega (arith, length-append d (b'/' ∷ [])))

-- `exec_lsl` from what `dir_path` holds on.
pub exec_lsl-path :
    (env : ListEnv) (memory bytes name dir : List ℕ) (args : List (List ℕ))
    → dir_path memory (name ∷ dir ∷ args) ≡ path bytes
    → exec_lsl env memory (name ∷ dir ∷ args) ≡ list_directory env true (c_str bytes)
unfolding exec_lsl
exec_lsl-path env memory bytes name dir args e =
    let more : ltb 1 (suc (suc (length args))) ≡ true = ground arith in simp (e, more, exec_lsl)

exec_lsl-too_long :
    (env : ListEnv) (memory : List ℕ) (args : List (List ℕ))
    → dir_path memory args ≡ too_long
    → exec_lsl env memory args ≡ (path_too_long ∷ [], returned exec_error)
unfolding exec_lsl
exec_lsl-too_long env memory args e = simp (e, exec_lsl)

-- For a directory of fewer than 4095 bytes that does not end with `/`, lsl does the same as with `/` at
-- its end, when the last byte of the array of its path, which nothing has set, is NUL; for any other
-- value of that byte it prints an error and returns EXEC_ERROR without opening the directory.
pub exec_lsl-slash :
    (env : ListEnv) (memory name d : List ℕ) (args : List (List ℕ))
    → NulFree d
    → length d + 2 ≤ path_max
    → length d ≢ 0
    → get_or d (length d - 1) 0 ≢ b'/'
    → exec_lsl env memory (name ∷ d ∷ args) ≡ (
        if get_or memory path_max 0 == 0
        then exec_lsl env memory (name ∷ (d ++ b'/' ∷ []) ∷ args)
        else (path_too_long ∷ [], returned exec_error))
exec_lsl-slash env memory name d args free short some_byte plain =
    let whole = d ++ b'/' ∷ [] in
    let rest = replicate (path_max - length d - 2) 0 ++ drop path_max memory in
    let one = dir_path-plain d memory free short name args some_byte plain in
    let same : c_str (d ++ b'/' ∷ 0 ∷ rest) ≡ whole =
      ap c_str (sym (append_assoc d (b'/' ∷ []) (0 ∷ rest)))
      ∙ c_str-append_nul whole rest (NulFree-slash d free) in
    let with_slash =
      exec_lsl-path env memory (strncpy memory whole (path_max + 1)) name whole args
        (dir_path-slash d memory free short name args)
      ∙ ap (list_directory env true) (slash_path d memory free short) in
    elim (Bool-cases (get_or memory path_max 0 == 0)) [
      | inl e ↦ simp e (
          exec_lsl-path env memory (d ++ b'/' ∷ 0 ∷ rest) name d args (one ∙ simp e)
          ∙ ap (list_directory env true) same
          ∙ sym with_slash)
      | inr e ↦ simp e (exec_lsl-too_long env memory (name ∷ d ∷ args) (one ∙ simp e))
    ]
