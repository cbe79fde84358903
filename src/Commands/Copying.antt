-- ===== src/Commands/Copying.antt =====
-- What ccp copies.
use local_server_c.Base.{
  Option-cases, get_or, get_elem?-eq-get_or, ℕ, zero, suc, ◌-◌, ◌≤◌, ◌<◌, ◌≡◌, refl, sym, ap, ◌∙◌,
  Option, none, some, Bool, true, false, List, [], ◌∷◌, ◌++◌, ◌==◌, length, get_elem?, take, drop,
  pos, arith, append-nil, append_assoc, Bool-cases, inl, inr,
}
use mathlib.Core.Path.{subst}
use local_server_c.Commands.{exec_error}
use local_server_c.Commands.Copy.{
  Dest, write_byte, goes_on, ccp, Opt, Options, default_options, read_options, Files, Answers,
  write_file, open_src, open_dest, copied, copy_files, exec_ccp,
}

-- A destination that is written from its start.
abbrev pub written : List ℕ → Dest
written bytes = record { bytes = bytes; offset = length bytes; append = false }

-- The bytes that are copied of `rest` after `k` bytes.
unfoldable pub limit : Option ℕ → ℕ → List ℕ → List ℕ
limit none k rest = rest
limit (some m) k rest = take (m - k) rest

-- The limit has not been passed.
abbrev Within : Option ℕ → ℕ → Type 0
Within max k = (m : ℕ) → max ≡ some m → k ≤ m

take_length : (xs ys : List ℕ) → take (length xs) (xs ++ ys) ≡ xs
take_length [] ys = refl
take_length (x ∷ xs) ys = ap (λ l. x ∷ l) (take_length xs ys)

drop_beyond : (xs : List ℕ) → drop (suc (length xs)) xs ≡ []
drop_beyond [] = refl
drop_beyond (x ∷ xs) = drop_beyond xs

length_end : (xs : List ℕ) → (b : ℕ) → length (xs ++ b ∷ []) ≡ suc (length xs)
length_end [] b = refl
length_end (x ∷ xs) b = ap suc (length_end xs b)

write_byte-written :
    (b : ℕ) → (bytes : List ℕ) → write_byte b (written bytes) ≡ written (bytes ++ b ∷ [])
unfolding write_byte
write_byte-written b bytes =
    rw
      (
        length_end bytes b,
        drop_beyond bytes,
        subst (λ l. take (length bytes) l ≡ bytes) (append-nil bytes) (take_length bytes []),
      )
      refl

drop_next :
    (at : ℕ)
    → (src rest : List ℕ) → (b : ℕ) → drop at src ≡ b ∷ rest
    → (get_elem? src at ≡ some b) × (drop (suc at) src ≡ rest)
drop_next zero [] rest b h = cc
drop_next zero (x ∷ src) rest b h = (cc, cc)
drop_next (suc at) [] rest b h = cc
drop_next (suc at) (x ∷ src) rest b h = drop_next at src rest b h

drop_end : (at : ℕ) → (src : List ℕ) → drop at src ≡ [] → get_elem? src at ≡ none
drop_end zero [] h = refl
drop_end zero (x ∷ src) h = cc
drop_end (suc at) [] h = refl
drop_end (suc at) (x ∷ src) h = drop_end at src h

take_empty : (n : ℕ) → take {A = ℕ} n [] ≡ []
take_empty zero = refl
take_empty (suc n) = refl

limit_empty : (max : Option ℕ) → (k : ℕ) → limit max k [] ≡ []
unfolding limit
limit_empty none k = refl
limit_empty (some m) k = take_empty (m - k)

limit_stop :
    (max : Option ℕ) → (k : ℕ) → (rest : List ℕ) → goes_on max k ≡ false → limit max k rest ≡ []
unfolding limit
limit_stop none k rest h = cc
limit_stop (some m) k rest h = let e : m - k ≡ 0 = ground arith in rw e refl

limit_step :
    (max : Option ℕ)
    → (k b : ℕ) → (rest : List ℕ) → goes_on max k ≡ true
    → Within max k
    → (limit max k (b ∷ rest) ≡ b ∷ limit max (suc k) rest) × Within max (suc k)
unfolding limit
limit_step none k b rest h w = (refl, (λ m e. cc))
limit_step (some m) k b rest h w =
    let below = w m refl in
    let e : m - k ≡ suc (m - suc k) = ground arith in (rw e refl, (λ m' e'. ground arith))

module _ (rf wf : ℕ → Bool) (reads : (i : ℕ) → rf i ≡ false) (writes : (i : ℕ) → wf i ≡ false) where
  ccp_rest :
      (src : List ℕ)
      → (max : Option ℕ) → (rest : List ℕ) → (n i at : ℕ) → (bytes : List ℕ) → length rest < n
      → drop at src ≡ rest
      → Within max (length bytes)
      → ccp rf wf false src max n i at (written bytes)
        ≡ some (pos 0, written (bytes ++ limit max (length bytes) rest))
  unfolding ccp
  ccp_rest src max rest zero i at bytes fuel h w = absurd (omega arith)
  ccp_rest src max [] (suc n) i at bytes fuel h w = elim (Bool-cases (goes_on max (length bytes))) [
    | inl go ↦
        simp (go, reads i, drop_end at src h, limit_empty max (length bytes), append-nil bytes, ccp)
    | inr stop ↦ simp (stop, limit_empty max (length bytes), append-nil bytes, ccp)
  ]
  ccp_rest src max (b ∷ rest) (suc n) i at bytes fuel h w =
      elim (Bool-cases (goes_on max (length bytes))) [
        | inl go ↦
            let (one, next) = drop_next at src rest b h in
            let (step, w') = limit_step max (length bytes) b rest go w in
            let IH =
              ccp_rest src max rest n (suc i) (suc at) (bytes ++ b ∷ []) (omega arith) next
                (subst (Within max) (sym (length_end bytes b)) w') in
            simp (go, reads i, one, writes i, write_byte-written b bytes, step, ccp)
              (IH
                ∙ ap (λ l. some (pos 0, written l))
                    (append_assoc bytes (b ∷ []) (limit max (length (bytes ++ b ∷ [])) rest)
                      ∙ ap (λ k. bytes ++ b ∷ limit max k rest) (length_end bytes b)))
        | inr stop ↦
            simp (stop, limit_stop max (length bytes) (b ∷ rest) stop, append-nil bytes, ccp)
      ]

length_drop_le : (n : ℕ) → (xs : List ℕ) → length (drop n xs) ≤ length xs
length_drop_le zero xs = omega arith
length_drop_le (suc n) [] = omega arith
length_drop_le (suc n) (x ∷ xs) = omega (arith, length_drop_le n xs)

open_dest-fresh :
    (a : Answers)
    → (fs : Files) → (dp : List ℕ) → a.dest_refused ≡ false
    → open_dest a fs false dp ≡ some (written [])
unfolding open_dest
open_dest-fresh a fs dp h = elim (Option-cases (fs dp)) [
  | inl e ↦ simp (h, e)
  | inr (bytes, e) ↦ simp (h, e)
]

-- When no call fails, ccp without -v and -a between two files, the source there, returns 1 within one
-- round for each byte of the source and one more: the destination holds the bytes of the source from
-- the offset of -b, as many as the value of -e if it is given (the value is a count, not an offset of
-- the source), and the other files are as they were.
pub exec_ccp-copies :
    (a : Answers)
    → (fs : Files) → (argc : ℕ) → (opts : List Opt) → (o : Options) → (sp dp src : List ℕ)
    → (argc == 1) ≡ false
    → read_options opts default_options ≡ some o
    → o.src_file ≡ some sp
    → o.dest_file ≡ some dp
    → o.excl ≡ false
    → o.append ≡ false
    → fs sp ≡ some src
    → a.same_path dp sp ≡ false
    → a.src_refused ≡ false
    → a.seek_refused ≡ false
    → a.dest_refused ≡ false
    → ((i : ℕ) → a.read_fails i ≡ false)
    → ((i : ℕ) → a.write_fails i ≡ false)
    → exec_ccp (suc (length src)) a fs argc opts
      ≡ copied (pos 1) (write_file a fs dp (limit o.evalue 0 (drop o.bvalue src)))
unfolding exec_ccp copy_files open_src
exec_ccp-copies a fs argc opts o sp dp src args ro so dopt ex ap' there other r1 r2 r3 rf wf =
    let od =
      subst (λ b. open_dest a fs b dp ≡ some (written [])) (sym ap') (open_dest-fresh a fs dp r3) in
    let bound = length_drop_le o.bvalue src in
    let flag = sym other in
    let run =
      ccp_rest a.read_fails a.write_fails rf wf src o.evalue (drop o.bvalue src) (suc (length src))
        0 o.bvalue [] (omega arith) refl (λ m e. omega arith) in
    let run' =
      subst
        (λ b.
          ccp a.read_fails a.write_fails b src o.evalue (suc (length src)) 0 o.bvalue (written [])
          ≡ some (pos 0, written (limit o.evalue 0 (drop o.bvalue src))))
        flag run in
    simp (args, ro, so, dopt, ex, ap', there, r1, r2, od, run', exec_ccp, copy_files, open_src)

-- With -v (O_EXCL), ccp from a source that is there copies nothing and returns EXEC_ERROR, whatever
-- the rest.
pub exec_ccp-exclusive :
    (fuel : ℕ)
    → (a : Answers) → (fs : Files) → (argc : ℕ) → (opts : List Opt) → (o : Options)
    → (sp dp src : List ℕ) → read_options opts default_options ≡ some o
    → o.src_file ≡ some sp
    → o.dest_file ≡ some dp
    → o.excl ≡ true
    → fs sp ≡ some src
    → exec_ccp fuel a fs argc opts ≡ copied exec_error fs
unfolding exec_ccp copy_files open_src
exec_ccp-exclusive fuel a fs argc opts o sp dp src ro so dopt ex there =
    elim (Bool-cases (argc == 1)) [
      | inl one ↦ simp one
      | inr more ↦ elim (Bool-cases a.src_refused) [
        | inl r ↦ simp (more, ro, so, dopt, r, exec_ccp, copy_files, open_src)
        | inr r ↦ simp (more, ro, so, dopt, ex, there, r, exec_ccp, copy_files, open_src)
      ]
    ]

write_byte-append : (b : ℕ) → (d : Dest) → d.append ≡ true → (write_byte b d).append ≡ true
unfolding write_byte
write_byte-append b d h = simp h

write_byte-longer :
    (b : ℕ) → (d : Dest) → d.append ≡ true → length (write_byte b d).bytes ≡ suc (length d.bytes)
unfolding write_byte
write_byte-longer b d h = simp h (length_end d.bytes b)

-- A file that is copied to itself with -a and no -e, when it has a byte from the offset on and no call
-- fails, grows for ever: no number of rounds ends the loop.
pub ccp-self_append :
    (rf wf : ℕ → Bool)
    → ((i : ℕ) → rf i ≡ false)
    → ((i : ℕ) → wf i ≡ false)
    → (src : List ℕ) → (n i at : ℕ) → (d : Dest) → d.append ≡ true
    → at < length d.bytes
    → ccp rf wf true src none n i at d ≡ none
unfolding ccp
ccp-self_append rf wf reads writes src zero i at d ap' h = refl
ccp-self_append rf wf reads writes src (suc n) i at d ap' h =
    let b = get_or d.bytes at 0 in
    let one = get_elem?-eq-get_or d.bytes at 0 h in
    simp (reads i, one, writes i, ccp)
      (ccp-self_append rf wf reads writes src n (suc i) (suc at) (write_byte b d)
        (write_byte-append b d ap') (rw (write_byte-longer b d ap') (omega arith)))
