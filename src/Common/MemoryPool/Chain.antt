-- ===== src/Common/MemoryPool/Chain.antt =====
-- The free list of include/smartquant/common/memory_pool.hpp as the chain of its slots.
use smart_quant.Prelude.{
  ℕ, zero, suc, ◌+◌, ◌-◌, ◌≤◌, ◌<◌, ◌≡◌, refl, sym, subst, ◌∙◌, ◌==◌, if◌then◌else◌, none, some,
  List, [], ◌∷◌, length, get_or, set, arith, get_or-set_self, get_or-set_ne, length-set,
}
use native.Mathlib.Decide.{dec_lt}
use smart_quant.Prelude.Count.{count, count-cons, range}
use smart_quant.Common.MemoryPool.{Ptr, Slot, linked, link_up, init}

module _ {A : Type 0} where
  -- From `p` on, the pointers lead through the slots of the list to the null pointer.
  abbrev pub Chain : List (Slot A) → Ptr → List ℕ → Type 0
  Chain slots p [] = p ≡ none
  Chain slots p (i ∷ is) =
      (p ≡ some i)
      × (i < length slots)
      × ((q : Ptr) × (get_or slots i (linked none) ≡ linked q) × Chain slots q is)

  -- A chain survives a write to a slot that it does not lead through.
  pub Chain-set :
      (is : List ℕ) (slots : List (Slot A)) (p : Ptr) (i : ℕ) (s : Slot A)
      → Chain slots p is
      → count i is ≡ 0
      → Chain (set slots i s) p is
  Chain-set [] slots p i s c h = c
  Chain-set (j ∷ is) slots p i s (e, within, (q, at, c)) h =
      let counted : (if j == i then 1 else 0) + count i is ≡ 0 = sym (count-cons i j is) ∙ h in
      (
        e,
        omega (arith, length-set slots i s),
        (
          q,
          get_or-set_ne slots i j s (linked none) (λ same. ground arith) ∙ at,
          Chain-set is slots q i s c (omega arith),
        ),
      )

  pub length-link_up : (k i : ℕ) (slots : List (Slot A)) → length (link_up k i slots) ≡ length slots
  unfolding link_up
  length-link_up zero i slots = refl
  length-link_up (suc k) i slots =
      length-link_up k (i + 1) (set slots i (linked (some (i + 1)))) ∙ length-set slots i _

  get_or-link_up_before :
      (k i j : ℕ) (slots : List (Slot A))
      → j < i
      → get_or (link_up k i slots) j (linked none) ≡ get_or slots j (linked none)
  unfolding link_up
  get_or-link_up_before zero i j slots h = refl
  get_or-link_up_before (suc k) i j slots h =
      get_or-link_up_before k (i + 1) j (set slots i (linked (some (i + 1)))) (omega arith)
      ∙ get_or-set_ne slots i j (linked (some (i + 1))) (linked none) (λ e. omega arith)

  -- A slot after the loop of the constructor.
  get_or-link_up :
      (k i j : ℕ) (slots : List (Slot A))
      → i + k ≤ length slots
      → i ≤ j
      → j < i + k
      → get_or (link_up k i slots) j (linked none) ≡ linked (some (j + 1))
  unfolding link_up
  get_or-link_up zero i j slots fits low high = absurd (omega arith)
  get_or-link_up (suc k) i j slots fits low high = elim (dec_lt i j) [
    | yes later ↦
        get_or-link_up k (i + 1) j (set slots i (linked (some (i + 1))))
          (omega (arith, length-set slots i (linked (some (i + 1))))) (omega arith) (omega arith)
    | no now ↦
        let e : j ≡ i = omega arith in
        rw e (
          get_or-link_up_before k (i + 1) i (set slots i (linked (some (i + 1)))) (omega arith)
          ∙ get_or-set_self slots i (linked (some (i + 1))) (linked none) (omega arith))
  ]

  -- The chain through `k + 1` slots from `i` on, each of which points to the next.
  Chain-range :
      (k i : ℕ) (slots : List (Slot A))
      → i + k < length slots
      → ((j : ℕ) → j < i + k → get_or slots j (linked none) ≡ linked (some (j + 1)))
      → get_or slots (i + k) (linked none) ≡ linked none
      → Chain slots (some i) (range i (suc k))
  unfolding range
  Chain-range zero i slots fits links end = (
    refl,
    omega arith,
    (none, subst (λ j. get_or slots j (linked none) ≡ linked none) (omega arith) end, refl),
  )
  Chain-range (suc k) i slots fits links end = (
    refl,
    omega arith,
    (
      some (i + 1),
      links i (omega arith),
      Chain-range k (i + 1) slots (omega arith) (λ j h. links j (omega arith))
          (subst (λ j. get_or slots j (linked none) ≡ linked none) (omega arith) end),
    ),
  )

  -- The constructor chains all the slots, in order.
  pub init-Chain :
      (n : ℕ) (slots : List (Slot A))
      → 0 < n
      → length slots ≡ n
      → Chain (init n slots).slots (some 0) (range 0 n)
  unfolding init
  init-Chain zero slots p e = absurd (omega arith)
  init-Chain (suc k) slots p e =
      let linked_up = link_up k 0 slots in
      let same : length linked_up ≡ suc k = length-link_up k 0 slots ∙ e in
      let less : suc k - 1 ≡ k = omega arith in
      rw less (
        Chain-range k 0 (set linked_up k (linked none))
          (omega (arith, length-set linked_up k (linked none)))
          (λ j h.
            get_or-set_ne linked_up k j (linked none) (linked none) (λ e. omega arith)
            ∙ get_or-link_up k 0 j slots (omega arith) (omega arith) h)
          (subst (λ j. get_or (set linked_up k (linked none)) j (linked none) ≡ linked none)
            (omega arith) (get_or-set_self linked_up k (linked none) (linked none) (omega arith))))
