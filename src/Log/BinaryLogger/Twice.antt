-- ===== src/Log/BinaryLogger/Twice.antt =====
-- The two writes that src/log/binary_logger.cpp makes for a record are one, also where the first ends
-- at the end of the ring.
use smart_quant.Prelude.{
  ℕ, ◌+◌, ◌-◌, ◌%◌, ◌≤◌, ◌<◌, ◌≡◌, refl, sym, ap, ◌∙◌, true, false, leb, List, [], ◌∷◌, ◌++◌,
  length, arith, inl, inr, ◌⊎◌,
}
use native.Mathlib.Nat.{mod-eq_of_lt, mod-lt, mod_self, mod-eq-sub-mod}
use native.Mathlib.Decide.{dec_lt}
use smart_quant.Log.BinaryLogger.{copy_to, ring_write}
use smart_quant.Log.BinaryLogger.Ring.{put, put-append, ring_write-put, copy_to-put}

-- A write that starts at the end of the ring is one from its start.
pub ring_write_end :
    (buf : List ℕ) (slots : ℕ) (src : List ℕ)
    → length src ≤ slots
    → (ring_write buf slots slots src).0 ≡ put buf slots 0 src
unfolding ring_write copy_to put
ring_write_end buf slots [] h = rw none_left refl
  where
    none_left : leb 0 (slots - slots) ≡ true
    none_left = ground arith
ring_write_end buf slots (c ∷ cs) h =
    let some_left : leb (length (c ∷ cs)) (slots - slots) ≡ false = ground arith in
    let nowhere : slots - slots ≡ 0 = omega arith in
    rw some_left (rw nowhere (copy_to-put (c ∷ cs) buf slots 0 (omega arith)))

-- Where a write ends: at the slot after it, or at the end of the ring for its start.
pub ring_write-off :
    (buf : List ℕ) (slots off : ℕ) (src : List ℕ)
    → off < slots
    → length src ≤ slots
    → ((ring_write buf slots off src).1 ≡ (off + length src) % slots)
      ⊎ (((ring_write buf slots off src).1 ≡ slots) × ((off + length src) % slots ≡ 0))
unfolding ring_write
ring_write-off buf slots off src h fits = elim (dec_lt (off + length src) slots) [
  | yes low ↦
      let t : leb (length src) (slots - off) ≡ true = ground arith in
      rw t (inl (sym (mod-eq_of_lt low)))
  | no high ↦ elim (dec_lt slots (off + length src)) [
    | yes over ↦
        let f : leb (length src) (slots - off) ≡ false = ground arith in
        rw f (
          inl (
            sym (
              mod-eq-sub-mod {n = off + length src} {m = slots} (omega arith)
              ∙ mod-eq_of_lt (omega arith)
              ∙ omega arith)))
    | no exact ↦
        let e : off + length src ≡ slots = omega arith in
        let t : leb (length src) (slots - off) ≡ true = ground arith in
        rw t (inr (e, rw e (mod_self slots)))
  ]
]

-- Two writes one after the other are the write of both.
pub ring_write_twice :
    (buf : List ℕ) (slots off : ℕ) (xs ys : List ℕ)
    → off < slots
    → length xs + length ys ≤ slots
    → let (buf', off') = ring_write buf slots off xs in
      (ring_write buf' slots off' ys).0 ≡ put buf slots off (xs ++ ys)
ring_write_twice buf slots off xs ys h fits =
    elim (ring_write-off buf slots off xs h (omega arith)) [
      | inl e ↦ rw e (
          ring_write-put _ slots ((off + length xs) % slots) ys (mod-lt _ (omega arith))
            (omega arith)
          ∙ ap (λ b. put b slots ((off + length xs) % slots) ys)
              (ring_write-put buf slots off xs h (omega arith))
          ∙ sym (put-append xs ys buf slots off h))
      | inr (e, round) ↦ rw e (
          ring_write_end _ slots ys (omega arith)
          ∙ ap (λ b. put b slots 0 ys) (ring_write-put buf slots off xs h (omega arith))
          ∙ ap (λ i. put (put buf slots off xs) slots i ys) (sym round)
          ∙ sym (put-append xs ys buf slots off h))
    ]
