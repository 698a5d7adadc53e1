-- ===== src/Alpha/Buckets/Slots.antt =====
-- Which slots of the ring of src/alpha/delta_factor.cpp and src/alpha/cancel_factor.cpp hold which
-- bucket.
use smart_quant.Prelude.{
  ℕ, suc, ◌+◌, ◌-◌, ◌%◌, ◌<◌, ◌≡◌, ◌≢◌, sym, ap, ◌∙◌, ltb, if◌then◌else◌, arith, min,
}
use native.Mathlib.Nat.{mod-lt, mod-eq_of_lt, mod_self, mod-eq-sub-mod}
use native.Mathlib.Decide.{dec_lt}

-- A slot before `h` is another one.
pub other_slot : (slots h i : ℕ) → h < slots → i + 1 < slots → h ≢ (h + slots - suc i) % slots
other_slot slots h i hh hi e = elim (dec_lt h (i + 1)) [
  | yes under ↦ omega (arith, e, mod-eq_of_lt {n = h + slots - suc i} {m = slots} (omega arith))
  | no over ↦ omega (
    arith,
    e,
    mod-eq-sub-mod {n = h + slots - suc i} {m = slots} (omega arith),
    mod-eq_of_lt {n = h + slots - suc i - slots} {m = slots} (omega arith),
  )
]

-- The slot `i + 1` before the slot after `h` is the slot `i` before `h`, and another one than the
-- slot after `h`.
pub before_next :
    (slots h i : ℕ)
    → h < slots
    → i + 1 < slots
    → let next = (h + 1) % slots in
      ((next + slots - suc i) % slots ≡ (h + slots - i) % slots) × (next ≢ (h + slots - i) % slots)
before_next slots h i hh hi =
    (same, (λ e. other_slot slots ((h + 1) % slots) i next_in hi (e ∙ sym same)))
  where
    next_in : (h + 1) % slots < slots
    next_in = mod-lt (h + 1) (omega arith)

    same : ((h + 1) % slots + slots - suc i) % slots ≡ (h + slots - i) % slots
    same = elim (dec_lt (h + 1) slots) [
      | yes low ↦
          let next : (h + 1) % slots ≡ h + 1 = mod-eq_of_lt low in
          rw next (ap (λ j. j % slots) (omega arith))
      | no high ↦
          let full : h + 1 ≡ slots = omega arith in
          let next : (h + 1) % slots ≡ 0 = ap (λ j. j % slots) full ∙ mod_self slots in
          rw next (
            ap (λ j. j % slots) (omega arith)
            ∙ sym (mod-eq-sub-mod {n = h + slots - i} {m = slots} (omega arith)))
    ]

pub counted_next :
    (slots c n : ℕ) → c ≡ min n slots → (if ltb c slots then c + 1 else c) ≡ min (suc n) slots
counted_next slots c n e = ground arith

pub older_valid :
    (slots c n i : ℕ)
    → c ≡ min n slots
    → suc i < (if ltb c slots then c + 1 else c)
    → (i + 1 < slots) × (i < c)
older_valid slots c n i e h = (ground arith, ground arith)
