-- ===== src/Base/Window.antt =====
-- The elements of a circular buffer from a position on, where positions count up without end and
-- stand for the index `position % cap`.
use Prim.Native.Nat.{ℕ, zero, suc, ◌+◌, ◌-◌, ◌%◌, ◌<◌}
use mathlib.Core.Path.{◌≡◌, refl, sym, ap, ap₂, ◌∙◌}
use mathlib.Core.Logic.{◌≢◌}
use mathlib.Core.List.{List, [], ◌∷◌, ◌++◌}
use native.Mathlib.Omega.{arith}
use native.Mathlib.Nat.{mod-add-mod, mod-eq_of_lt, mod-eq-sub-mod}
use native.Mathlib.Decide.{dec_lt}
use local_server_c.Base.Lists.{length, get_or, set, get_or-set_self, get_or-set_ne}

-- Positions less than a round apart have different indices.
pub mod-ne : (cap a b : ℕ) → a < b → b < a + cap → a % cap ≢ b % cap
mod-ne cap a b lt near e =
    shifted (a % cap) (b - a) (omega arith) (omega arith) (omega arith)
      (mod-add-mod a cap (b - a) ∙ ap (λ k. k % cap) (omega arith) ∙ sym e)
  where
    shifted : (r k : ℕ) → r < cap → 0 < k → k < cap → (r + k) % cap ≢ r
    shifted r k in_range pos small = elim (dec_lt (r + k) cap) [
      | yes p ↦ omega (arith, mod-eq_of_lt p)
      | no p ↦ omega (
        arith,
        mod-eq-sub-mod {n = r + k} {m = cap} (omega arith),
        mod-eq_of_lt {n = r + k - cap} {m = cap} (omega arith),
      )
    ]

module _ {ℓ} {A : Type ℓ} (d : A) (cap : ℕ) where
  abbrev pub window : List A → ℕ → ℕ → List A
  window buf t zero = []
  window buf t (suc n) = get_or buf (t % cap) d ∷ window buf (t + 1) n

  pub window-congr :
      (buf : List A) (t u n : ℕ) → t % cap ≡ u % cap → window buf t n ≡ window buf u n
  window-congr buf t u zero e = refl
  window-congr buf t u (suc n) e = ap₂ ◌∷◌ (ap (λ k. get_or buf k d) e) (
      window-congr buf (t + 1) (u + 1) n
        (sym (mod-add-mod t cap 1) ∙ ap (λ k. (k + 1) % cap) e ∙ mod-add-mod u cap 1))

  window-set_at :
      (buf : List A) (t n e : ℕ) (v : A)
      → cap ≡ length buf
      → n < cap
      → e ≡ t + n
      → window (set buf (e % cap) v) t (suc n) ≡ window buf t n ++ v ∷ []
  window-set_at buf t zero e v sized room at =
      ap (λ x. x ∷ [])
        (ap (λ k. get_or (set buf (e % cap) v) (k % cap) d) (omega arith)
          ∙ get_or-set_self buf (e % cap) v d (omega arith))
  window-set_at buf t (suc n) e v sized room at =
      ap₂ ◌∷◌ (get_or-set_ne buf v d (λ q. mod-ne cap t e (omega arith) (omega arith) (sym q)))
        (window-set_at buf (t + 1) n e v sized (omega arith) (omega arith))

  -- A write just past the window extends it by the written element.
  pub window-snoc :
      (buf : List A) (t n : ℕ) (v : A)
      → cap ≡ length buf
      → n < cap
      → window (set buf ((t + n) % cap) v) t (suc n) ≡ window buf t n ++ v ∷ []
  window-snoc buf t n v sized room = window-set_at buf t n (t + n) v sized room refl
