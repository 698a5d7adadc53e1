-- ===== src/Common/SpscQueue/Refine.antt =====
-- The ring of include/smartquant/common/spsc_queue.hpp against a first-in first-out list of at most
-- `2 ^ k - 1` items.
use smart_quant.Prelude.{
  ℕ, zero, suc, ◌+◌, ◌%◌, ◌^◌, ◌<◌, ◌≤◌, ◌≡◌, refl, ap, ◌∙◌, sym, Bool, true, false, ◌==◌,
  if◌then◌else◌, Option, none, some, List, [], ◌∷◌, ◌++◌, arith, length, get_or, set, length-set,
  length-replicate, ltb, lt→ltb, ==_iff, ==_of_eq, ==_of_ne, Bool-cases, length-append, head-cancel,
  tail-cancel, ap₂, inl, inr, ◌↔◌,
}
use smart_quant.Prelude.Word.{sub_64}
use smart_quant.Prelude.Bits.{bit_and-mask, pow-pos}
use native.Mathlib.Decide.{dec_lt}
use native.Mathlib.Nat.{mod-eq_of_lt, add-zero, mod-lt}
use smart_quant.Common.SpscQueue.{
  SpscQueue, QueueCall, pushes, pops, next_index, init, push, pop, empty, size, run, capacity,
}
use smart_quant.Common.SpscQueue.Window.{window, window-set, mod_ne_start, shift}
use smart_quant.Common.SpscQueue.Indices.{
  Holds, next_index_lem, masked_distance, next_of_head, full_iff,
}

module _ {A : Type 0} where
  -- The ring holds the items `xs`, oldest first.
  pub record Represents (k : ℕ) (blank : A) (q : SpscQueue A) (xs : List A) : Type 0 where
    pub holds : Holds k q (length xs)
    pub items : window q.buf (2 ^ k) blank q.tail (length xs) ≡ xs

  -- The queue that the ring stands for.
  unfoldable pub push_spec : ℕ → List A → A → List A × Bool
  push_spec k xs x = if ltb (length xs + 1) (2 ^ k) then (xs ++ x ∷ [], true) else (xs, false)

  unfoldable pub pop_spec : List A → List A × Option A
  pop_spec [] = ([], none)
  pop_spec (x ∷ xs) = (xs, some x)

  push-Represents :
      (k : ℕ) (blank : A) (q : SpscQueue A) (xs : List A) (x : A)
      → k < 64
      → Represents k blank q xs
      → length xs + 1 < 2 ^ k
      → Represents k blank
          (record q { buf = set q.buf q.head x; head = next_index k q.head })
          (xs ++ x ∷ [])
  push-Represents k blank q xs x hk r room = record {
    holds = rw longer (record {
      slots = length-set q.buf q.head x ∙ r.holds.slots;
      tail_in = r.holds.tail_in;
      few = omega arith;
      apart = next_of_head k q (length xs) hk r.holds;
    });
    items = rw longer (
        window-set q.buf (2 ^ k) blank x q.tail (length xs) q.head (omega (arith, r.holds.slots))
          r.holds.tail_in r.holds.few r.holds.apart
        ∙ ap (λ ys. ys ++ x ∷ []) r.items);
  }
    where
      longer : length (xs ++ x ∷ []) ≡ suc (length xs)
      longer = omega (arith, length-append xs (x ∷ []))

  pub push_room :
      (k : ℕ) (q : SpscQueue A) (n : ℕ)
      → k < 64
      → Holds k q n
      → (next_index k q.head == q.tail) ≡ false
      → n + 1 < 2 ^ k
  push_room k q n hk h f = elim (dec_lt (n + 1) (2 ^ k)) [
    | yes room ↦ room
    | no stuck ↦
        let few = h.few in
        let t = (==_iff _ _).1 ((full_iff k q n hk h).1 (omega arith)) in absurd (cc)
  ]

  -- Two indices are equal exactly on the empty ring.
  pub empty_iff : (k : ℕ) (q : SpscQueue A) (n : ℕ) → Holds k q n → (q.tail ≡ q.head) ↔ (n ≡ 0)
  empty_iff k q zero h = (λ _. refl, λ _. sym (h.apart ∙ rw add-zero (mod-eq_of_lt h.tail_in)))
  empty_iff k q (suc n) h = (
    λ e.
        absurd
          (mod_ne_start (2 ^ k) q.tail (suc n) h.tail_in (omega arith) h.few (sym (e ∙ h.apart))),
    λ e. absurd (omega arith),
  )

  -- `push` returns what the bounded queue returns, and leaves the ring holding its items.
  pub push_refines :
      (k : ℕ) (blank : A) (q : SpscQueue A) (xs : List A) (x : A)
      → k < 64
      → Represents k blank q xs
      → let (q', done) = push k q x in
        let (ys, done') = push_spec k xs x in (done ≡ done') × Represents k blank q' ys
  unfolding push push_spec
  push_refines k blank q xs x hk r = elim (Bool-cases (next_index k q.head == q.tail)) [
    | inl t ↦
        let all : length xs + 1 ≡ 2 ^ k = (full_iff k q _ hk r.holds).0 ((==_iff _ _).0 t) in
        let f : ltb (length xs + 1) (2 ^ k) ≡ false = ground arith in rw t (rw f (refl, r))
    | inr f ↦
        let room : length xs + 1 < 2 ^ k = push_room k q _ hk r.holds f in
        let t : ltb (length xs + 1) (2 ^ k) ≡ true = lt→ltb _ _ room in
        rw f (rw t (refl, push-Represents k blank q xs x hk r room))
  ]

  pub pop-Represents :
      (k : ℕ) (blank : A) (q : SpscQueue A) (x : A) (xs : List A)
      → k < 64
      → Represents k blank q (x ∷ xs)
      → (get_or q.buf q.tail blank ≡ x)
        × Represents k blank (record q { tail = next_index k q.tail }) xs
  unfolding window
  pop-Represents k blank q x xs hk r = (
    head-cancel r.items,
    record {
      holds = record {
        slots = r.holds.slots;
        tail_in = rw on (mod-lt (q.tail + 1) (pow-pos k));
        few = omega (arith, r.holds.few);
        apart = rw on (r.holds.apart ∙ sym (shift (2 ^ k) q.tail (length xs)));
      };
      items = rw on (tail-cancel r.items);
    },
  )
    where
      on : next_index k q.tail ≡ (q.tail + 1) % 2 ^ k
      on = next_index_lem k q.tail hk r.holds.tail_in

  -- `pop` returns the oldest item, and leaves the ring holding the others.
  pub pop_refines :
      (k : ℕ) (blank : A) (q : SpscQueue A) (xs : List A)
      → k < 64
      → Represents k blank q xs
      → let (q', out) = pop k blank q in
        let (ys, out') = pop_spec xs in (out ≡ out') × Represents k blank q' ys
  unfolding pop pop_spec
  pop_refines k blank q [] hk r =
      rw (==_of_eq q.tail q.head ((empty_iff k q 0 r.holds).1 refl)) (refl, r)
  pop_refines k blank q (x ∷ xs) hk r =
      let (front, rest) = pop-Represents k blank q x xs hk r in
      rw (==_of_ne q.tail q.head (λ e. absurd (omega (arith, (empty_iff k q _ r.holds).0 e))))
        (ap some front, rest)

  -- The replies of the bounded queue to a list of calls.
  unfoldable pub run_spec : ℕ → List A → List (QueueCall A) → List (Bool × Option A)
  unfolding push_spec pop_spec
  run_spec k xs [] = []
  run_spec k xs (pushes x ∷ cs) =
      let (ys, done) = push_spec k xs x in (done, none) ∷ run_spec k ys cs
  run_spec k xs (pops ∷ cs) = let (ys, out) = pop_spec xs in (false, out) ∷ run_spec k ys cs

  -- No sequence of calls tells a ring of `2 ^ k` slots from the first-in first-out queue of at most
  -- `2 ^ k - 1` items that it holds: every push accepts or refuses, and every pop returns, as that
  -- queue would.
  pub ring_refines :
      (k : ℕ) (blank : A) (q : SpscQueue A) (xs : List A) (cs : List (QueueCall A))
      → k < 64
      → Represents k blank q xs
      → run k blank q cs ≡ run_spec k xs cs
  unfolding run run_spec
  ring_refines k blank q xs [] hk r = refl
  ring_refines k blank q xs (pushes x ∷ cs) hk r =
      let (same, r') = push_refines k blank q xs x hk r in
      ap₂ ◌∷◌ (ap (λ b. (b, none)) same)
        (ring_refines k blank (push k q x).0 (push_spec k xs x).0 cs hk r')
  ring_refines k blank q xs (pops ∷ cs) hk r =
      let (same, r') = pop_refines k blank q xs hk r in
      ap₂ ◌∷◌ (ap (λ o. (false, o)) same)
        (ring_refines k blank (pop k blank q).0 (pop_spec xs).0 cs hk r')

  pub init-Represents : (k : ℕ) (blank : A) → Represents k blank (init k blank) []
  unfolding window
  init-Represents k blank = record {
    holds = record {
      slots = length-replicate (2 ^ k) blank;
      tail_in = pow-pos k;
      few = pow-pos k;
      apart = sym (mod-eq_of_lt (pow-pos k));
    };
    items = refl;
  }

  -- `size` is the number of items and `empty` tells whether it is 0, also where the head stands below
  -- the tail and the difference of the indices wraps.
  pub size-length :
      (k : ℕ) (blank : A) (q : SpscQueue A) (xs : List A)
      → k < 64
      → Represents k blank q xs
      → (size k q ≡ length xs) × (empty q ≡ (length xs == 0)) × (size k q ≤ capacity k)
  unfolding size empty capacity
  size-length k blank q xs hk r = (counted, none_left, omega (arith, counted, r.holds.few))
    where
      counted : size k q ≡ length xs
      counted =
          bit_and-mask k (sub_64 q.head q.tail)
          ∙ masked_distance k q.head q.tail (length xs) hk r.holds.tail_in r.holds.few r.holds.apart

      none_left : (q.head == q.tail) ≡ (length xs == 0)
      none_left = ground (arith, empty_iff k q (length xs) r.holds)
