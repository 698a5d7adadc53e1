-- ===== src/Common/SpscQueue/Window.antt =====
-- The slots of a ring from the oldest on, and what a write just past them does.
use smart_quant.Prelude.{
  ℕ, zero, suc, ◌+◌, ◌-◌, ◌%◌, ◌<◌, ◌≤◌, ◌≡◌, ◌≢◌, refl, ap, ap₂, ◌∙◌, sym, List, [], ◌∷◌, ◌++◌,
  arith, length, get_or, set, get_or-set_self, get_or-set_ne,
}
use native.Mathlib.Nat.{mod-add-mod, mod-eq_of_lt, mod-eq-sub-mod, add-zero, add-mod_right}
use native.Mathlib.Decide.{dec_lt}

module _ {A : Type 0} where
  -- The `n` items from slot `t` on, going round at `slots`.
  unfoldable pub window : List A → ℕ → A → ℕ → ℕ → List A
  window buf slots blank t zero = []
  window buf slots blank t (suc n) = get_or buf t blank ∷ window buf slots blank ((t + 1) % slots) n

  pub length-window :
      (buf : List A) (slots : ℕ) (blank : A) (t n : ℕ) → length (window buf slots blank t n) ≡ n
  unfolding window
  length-window buf slots blank t zero = refl
  length-window buf slots blank t (suc n) =
      ap suc (length-window buf slots blank ((t + 1) % slots) n)

-- Going on from slot `t` by fewer than `slots` steps does not come back to it.
pub mod_ne_start : (slots t j : ℕ) → t < slots → 0 < j → j < slots → (t + j) % slots ≢ t
mod_ne_start slots t j ht hj hc = elim (dec_lt (t + j) slots) [
  | yes low ↦ omega (arith, mod-eq_of_lt low)
  | no high ↦ omega (
    arith,
    mod-eq-sub-mod {n = t + j} {m = slots} (omega arith),
    mod-eq_of_lt {n = t + j - slots} {m = slots} (omega arith),
  )
]

-- All the way round is back at the start.
pub mod_full_round : (slots t : ℕ) → t < slots → (t + slots) % slots ≡ t
mod_full_round slots t h = add-mod_right t slots ∙ mod-eq_of_lt h

pub shift : (slots t n : ℕ) → ((t + 1) % slots + n) % slots ≡ (t + suc n) % slots
shift slots t n = mod-add-mod (t + 1) slots n ∙ ap (λ i. i % slots) (omega arith)

module _ {A : Type 0} where
  -- A write just past a window extends it.
  pub window-set :
      (buf : List A) (slots : ℕ) (blank x : A) (t n i : ℕ)
      → slots ≤ length buf
      → t < slots
      → n < slots
      → i ≡ (t + n) % slots
      → window (set buf i x) slots blank t (suc n) ≡ window buf slots blank t n ++ x ∷ []
  unfolding window
  window-set buf slots blank x t zero i fits ht hn e =
      let here : i ≡ t = e ∙ rw add-zero (mod-eq_of_lt ht) in
      ap (λ y. y ∷ []) (rw here (get_or-set_self buf t x blank (omega arith)))
  window-set buf slots blank x t (suc n) i fits ht hn e =
      ap₂ ◌∷◌
        (get_or-set_ne buf i t x blank (rw e (mod_ne_start slots t (suc n) ht (omega arith) hn)))
        (window-set buf slots blank x ((t + 1) % slots) n i fits (omega arith) (omega arith)
          (e ∙ sym (shift slots t n)))

  -- A write past a window leaves it alone.
  pub window-set_outside :
      (buf : List A) (slots : ℕ) (blank x : A) (t m n i : ℕ)
      → t < slots
      → m ≤ n
      → n < slots
      → i ≡ (t + n) % slots
      → window (set buf i x) slots blank t m ≡ window buf slots blank t m
  unfolding window
  window-set_outside buf slots blank x t zero n i ht hm hn e = refl
  window-set_outside buf slots blank x t (suc m) zero i ht hm hn e = absurd (omega arith)
  window-set_outside buf slots blank x t (suc m) (suc n) i ht hm hn e =
      ap₂ ◌∷◌
        (get_or-set_ne buf i t x blank (rw e (mod_ne_start slots t (suc n) ht (omega arith) hn)))
        (window-set_outside buf slots blank x ((t + 1) % slots) m n i (omega arith) (omega arith)
          (omega arith) (e ∙ sym (shift slots t n)))

  -- A longer window ends with the slot after the shorter one.
  pub window-suc :
      (buf : List A) (slots : ℕ) (blank : A) (t n : ℕ)
      → t < slots
      → window buf slots blank t (suc n)
        ≡ window buf slots blank t n ++ get_or buf ((t + n) % slots) blank ∷ []
  unfolding window
  window-suc buf slots blank t zero ht =
      let here : (t + 0) % slots ≡ t = rw add-zero (mod-eq_of_lt ht) in
      ap (λ i. get_or buf i blank ∷ []) (sym here)
  window-suc buf slots blank t (suc n) ht = ap (◌∷◌ (get_or buf t blank)) (
      window-suc buf slots blank ((t + 1) % slots) n (omega arith)
      ∙ ap (λ i. window buf slots blank ((t + 1) % slots) n ++ get_or buf i blank ∷ [])
          (shift slots t n))
