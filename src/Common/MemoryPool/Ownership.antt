-- ===== src/Common/MemoryPool/Ownership.antt =====
-- What include/smartquant/common/memory_pool.hpp promises to a client that frees only what it holds.
use smart_quant.Prelude.{
  ℕ, ◌+◌, ◌≤◌, ◌<◌, ◌≡◌, ◌≢◌, refl, true, ltb, if◌then◌else◌, none, some, List, [], ◌∷◌, length,
  get_or, arith, inl, inr, ◌⊎◌, ◌↔◌, get_or-set_self, get_or-set_ne,
}
use native.Mathlib.Decide.{ℕ_discrete}
use smart_quant.Prelude.Word.{IsWord}
use smart_quant.Prelude.Count.{count, count-cons, range}
use smart_quant.Common.MemoryPool.{
  Ptr, Slot, linked, stored, free, alloc, alloc_raw, construct, empty,
}
use smart_quant.Common.MemoryPool.Clients.{
  Client, Holds, Uses, IsOwned, start, start-Owned, Uses-IsOwned, alloc_raw-none, popped-Owned,
  held-apart,
}

module _ {A : Type 0} (as_next : A → Ptr) (zeroed : A) where
  Uses_start-IsOwned :
      (n : ℕ) (slots : List (Slot A)) {c : Client A}
      → 0 < n
      → IsWord n
      → length slots ≡ n
      → Uses as_next zeroed (start n slots) c
      → IsOwned n c
  Uses_start-IsOwned n slots p w e u =
      Uses-IsOwned as_next zeroed u w (range 0 n, start-Owned n slots p e)

  owned_alloc :
      {n : ℕ} {c : Client A}
      → IsWord n
      → IsOwned n c
      → let (pool, p) = alloc zeroed as_next c.pool in
        ((p ≡ none) × (pool ≡ c.pool) × (length c.held ≡ n))
        ⊎ ((i : ℕ) × (p ≡ some i)
            × (i < n)
            × (count i c.held ≡ 0)
            × (get_or pool.slots i (linked none) ≡ stored zeroed)
            × (length c.held < n))
  unfolding alloc construct
  owned_alloc {n} {c} w ([], o) =
      let whole = o.whole in
      rw (alloc_raw-none as_next c.pool o.chained) (inl (refl, refl, omega arith))
  owned_alloc {n} {c} w (i ∷ fs, o) =
      let (q, call, p) = popped-Owned as_next o w in
      let (head, within, linked_on) = o.chained in
      let sized = o.sized in
      let whole = o.whole in
      let shared = o.shared i in
      let twice = count-cons i i fs in
      rw call (
        inr (
          i,
          refl,
          omega arith,
          ground arith,
          get_or-set_self c.pool.slots i (stored zeroed) (linked none) within,
          omega arith,
        ))

  -- A pool of `n > 0` slots, of fewer than 2^64, and a client that after any history of calls frees
  -- only what it holds: `alloc` either hands out a slot of the pool that the client does not hold,
  -- with a zeroed object in it, while it holds fewer than `n` slots; or it gives the null pointer and
  -- leaves the pool as it is, and then the client holds all `n`.
  pub alloc_fresh :
      (n : ℕ) (slots : List (Slot A)) (c : Client A)
      → 0 < n
      → IsWord n
      → length slots ≡ n
      → Uses as_next zeroed (start n slots) c
      → let (pool, p) = alloc zeroed as_next c.pool in
        ((p ≡ none) × (pool ≡ c.pool) × (length c.held ≡ n))
        ⊎ ((i : ℕ) × (p ≡ some i)
            × (i < n)
            × (count i c.held ≡ 0)
            × (get_or pool.slots i (linked none) ≡ stored zeroed)
            × (length c.held < n))
  alloc_fresh n slots c p w e u = owned_alloc w (Uses_start-IsOwned n slots p w e u)

  -- After any such history the counter of free slots and the slots held make up the `n` slots, so
  -- `empty` holds exactly when the client holds `n` slots; and no slot is held twice, nor one outside
  -- the pool.
  pub free_count-held :
      (n : ℕ) (slots : List (Slot A)) (c : Client A)
      → 0 < n
      → IsWord n
      → length slots ≡ n
      → Uses as_next zeroed (start n slots) c
      → (c.pool.free_count + length c.held ≡ n)
        × ((empty c.pool ≡ true) ↔ (length c.held ≡ n))
        × ((j : ℕ) → count j c.held ≤ (if ltb j n then 1 else 0))
  unfolding empty
  free_count-held n slots c p w e u =
      let (fs, o) = Uses_start-IsOwned n slots p w e u in
      let counted = o.counted in
      let whole = o.whole in
      let total : c.pool.free_count + length c.held ≡ n = omega arith in
      (total, ground arith, λ j. omega (arith, o.shared j))

  owned_untouched :
      {n : ℕ} {c : Client A} (j : ℕ)
      → IsWord n
      → Holds c j
      → IsOwned n c
      → let old = get_or c.pool.slots j (linked none) in
        (get_or (alloc zeroed as_next c.pool).0.slots j (linked none) ≡ old)
        × (get_or (alloc_raw as_next c.pool).0.slots j (linked none) ≡ old)
  unfolding alloc construct
  owned_untouched {n} {c} j w h ([], o) = rw (alloc_raw-none as_next c.pool o.chained) (refl, refl)
  owned_untouched {n} {c} j w h (i ∷ fs, o) =
      let (q, call, p) = popped-Owned as_next o w in
      let (within, apart) = held-apart o j h in
      let counted = count-cons j i fs in
      let ne : i ≢ j = λ same. ground arith in
      rw call (get_or-set_ne c.pool.slots i j (stored zeroed) (linked none) ne, refl)

  -- A pool of `n > 0` slots, of fewer than 2^64, and a client that after any history of calls frees
  -- only what it holds: what is in a slot that the client holds is what it was, after a call of `alloc`
  -- or `alloc_raw`, and after the client frees any slot that it holds but this one.
  pub held_untouched :
      (n : ℕ) (slots : List (Slot A)) (c : Client A) (j i : ℕ)
      → 0 < n
      → IsWord n
      → length slots ≡ n
      → Uses as_next zeroed (start n slots) c
      → Holds c j
      → Holds c i
      → let old = get_or c.pool.slots j (linked none) in
        (get_or (alloc zeroed as_next c.pool).0.slots j (linked none) ≡ old)
        × (get_or (alloc_raw as_next c.pool).0.slots j (linked none) ≡ old)
        × ((i ≡ j) ⊎ (get_or (free c.pool (some i)).slots j (linked none) ≡ old))
  unfolding free
  held_untouched n slots c j i p w e u hj hi =
      let (in_alloc, in_raw) = owned_untouched j w hj (Uses_start-IsOwned n slots p w e u) in
      (
        in_alloc,
        in_raw,
        elim (ℕ_discrete i j) [
          | yes same ↦ inl same
          | no ne ↦ inr (get_or-set_ne c.pool.slots i j (linked c.pool.free_head) (linked none) ne)
        ],
      )
