-- ===== src/Common/SpscQueue/Indices.antt =====
-- Which slots of include/smartquant/common/spsc_queue.hpp are in use.
use smart_quant.Prelude.{
  ℕ, suc, ◌+◌, ◌-◌, ◌*◌, ◌%◌, ◌^◌, ◌<◌, ◌≤◌, ◌≡◌, ap, ◌∙◌, sym, arith, length, ◌↔◌,
}
use smart_quant.Prelude.Word.{add_64, sub_64}
use smart_quant.Prelude.Bits.{bit_and-mask, pow-pos, word-multiple}
use native.Mathlib.Decide.{dec_lt}
use native.Mathlib.Nat.{
  pow-le-pow_right, mul-add-mod_self_right, mod-eq-sub-mod, mod-eq_of_lt, mod-add-mod, mod-lt,
}
use smart_quant.Common.SpscQueue.{SpscQueue, next_index}
use smart_quant.Common.SpscQueue.Window.{mod_ne_start, mod_full_round}

-- Both indices are slots, and the head stands `n` slots past the tail.
pub record Holds {A : Type 0} (k : ℕ) (q : SpscQueue A) (n : ℕ) : Type 0 where
  pub slots : length q.buf ≡ 2 ^ k
  pub tail_in : q.tail < 2 ^ k
  pub few : n < 2 ^ k
  pub apart : q.head ≡ (q.tail + n) % 2 ^ k

-- Masking the next index is going round.
pub next_index_lem : (k i : ℕ) → k < 64 → i < 2 ^ k → next_index k i ≡ (i + 1) % 2 ^ k
next_index_lem k i hk hi =
    bit_and-mask k (add_64 i 1)
    ∙ ap (λ x. x % 2 ^ k)
        (omega (arith, pow-le-pow_right {n = 2} (omega arith) {i = k} {j = 63} (omega arith)))

-- The slot after the head, counted from the tail.
pub after_head : (slots t n : ℕ) → ((t + n) % slots + 1) % slots ≡ (t + suc n) % slots
after_head slots t n = mod-add-mod (t + n) slots 1 ∙ ap (λ i. i % slots) (omega arith)

-- The distance from the tail to the head, as `size` computes it.
pub masked_distance :
    (k head tail n : ℕ)
    → k < 64
    → tail < 2 ^ k
    → n < 2 ^ k
    → head ≡ (tail + n) % 2 ^ k
    → sub_64 head tail % 2 ^ k ≡ n
masked_distance k head tail n hk ht hn e = elim (dec_lt (tail + n) (2 ^ k)) [
  | yes low ↦
      let forward : sub_64 head tail ≡ n = omega (arith, e ∙ mod-eq_of_lt low, small) in
      rw forward (mod-eq_of_lt hn)
  | no high ↦
      let below : head + 2 ^ k ≡ tail + n = omega (
        arith,
        e,
        mod-eq-sub-mod {n = tail + n} {m = 2 ^ k} (omega arith),
        mod-eq_of_lt {n = tail + n - 2 ^ k} {m = 2 ^ k} (omega arith),
      ) in
      let (q, whole) = word-multiple k hk in
      let wrapped : sub_64 head tail ≡ q * 2 ^ k + n = omega (arith, small, whole) in
      rw wrapped (mul-add-mod_self_right q (2 ^ k) n ∙ mod-eq_of_lt hn)
]
  where
    small : 2 ^ k ≤ 2 ^ 63
    small = pow-le-pow_right {n = 2} (omega arith) {i = k} {j = 63} (omega arith)

module _ {A : Type 0} where
  pub next_of_head :
      (k : ℕ) (q : SpscQueue A) (n : ℕ)
      → k < 64
      → Holds k q n
      → next_index k q.head ≡ (q.tail + suc n) % 2 ^ k
  next_of_head k q n hk h =
      next_index_lem k q.head hk (rw h.apart (mod-lt (q.tail + n) (pow-pos k)))
      ∙ ap (λ i. (i + 1) % 2 ^ k) h.apart
      ∙ after_head (2 ^ k) q.tail n

  -- The slot after the head is the tail exactly if all but one are taken.
  pub full_iff :
      (k : ℕ) (q : SpscQueue A) (n : ℕ)
      → k < 64
      → Holds k q n
      → (next_index k q.head ≡ q.tail) ↔ (n + 1 ≡ 2 ^ k)
  full_iff k q n hk h = (full, back)
    where
      full : next_index k q.head ≡ q.tail → n + 1 ≡ 2 ^ k
      full e = elim (dec_lt (suc n) (2 ^ k)) [
        | yes room ↦ absurd (
            mod_ne_start (2 ^ k) q.tail (suc n) h.tail_in (omega arith) room
              (sym (next_of_head k q n hk h) ∙ e))
        | no stuck ↦ let few = h.few in omega arith
      ]

      back : n + 1 ≡ 2 ^ k → next_index k q.head ≡ q.tail
      back e =
          let e' : suc n ≡ 2 ^ k = omega arith in
          next_of_head k q n hk h
          ∙ ap (λ m. (q.tail + m) % 2 ^ k) e'
          ∙ mod_full_round (2 ^ k) q.tail h.tail_in
