-- ===== src/Common/MemoryPool/Clients.antt =====
-- Clients of include/smartquant/common/memory_pool.hpp that free only what they hold: what the pool
-- hands out to them, over any history.
use smart_quant.Prelude.{
  ℕ, ◌+◌, ◌-◌, ◌≤◌, ◌<◌, ◌≡◌, refl, sym, ap, ◌∙◌, subst, ltb, if◌then◌else◌, none, some, List, [],
  ◌∷◌, length, get_or, set, arith, get_or-set_self, length-set,
}
use smart_quant.Prelude.Word.{IsWord, sub_64}
use smart_quant.Prelude.Count.{
  count, count-cons, count-remove, count-range, length-range, length-remove, range, remove,
}
use smart_quant.Common.MemoryPool.{
  MemoryPool, Ptr, Slot, linked, stored, init, free, alloc, alloc_raw, construct, next_of,
  take_head,
}
use smart_quant.Common.MemoryPool.Chain.{Chain, Chain-set, init-Chain, length-link_up}

-- The pool, and the slots that the client got and has not freed.
pub record Client (A : Type 0) : Type 0 where
  pub pool : MemoryPool A
  pub held : List ℕ

abbrev pub Holds : {A : Type 0} → Client A → ℕ → Type 0
Holds c i = 1 ≤ count i c.held

module _ {A : Type 0} where
  abbrev pub got : MemoryPool A × Ptr → List ℕ → Client A
  got (p, none) held = record { pool = p; held = held }
  got (p, some i) held = record { pool = p; held = i ∷ held }

  abbrev pub freed : Client A → ℕ → Client A
  freed c i = record { pool = free c.pool (some i); held = remove i c.held }

  abbrev pub written : Client A → ℕ → A → Client A
  written c i a = record {
    pool = record c.pool { slots = set c.pool.slots i (stored a) };
    held = c.held;
  }

  abbrev pub start : ℕ → List (Slot A) → Client A
  start n slots = record { pool = init n slots; held = [] }

  -- The free list and the client share the `n` slots out between them.
  pub record Owned (n : ℕ) (free_slots : List ℕ) (c : Client A) : Type 0 where
    pub sized : length c.pool.slots ≡ n
    pub chained : Chain c.pool.slots c.pool.free_head free_slots
    pub counted : c.pool.free_count ≡ length free_slots
    pub shared : (j : ℕ) → count j free_slots + count j c.held ≡ (if ltb j n then 1 else 0)
    pub whole : length free_slots + length c.held ≡ n

  -- A history leaves some free list.
  abbrev pub IsOwned : ℕ → Client A → Type 0
  IsOwned n c = (free_slots : List ℕ) × Owned n free_slots c

module _ {A : Type 0} (as_next : A → Ptr) (zeroed : A) where
  -- One call, or one write to an object that is held.
  pub data Use : Client A → Client A → Type 0 where
    allocs : (c : Client A) → Use c (got (alloc zeroed as_next c.pool) c.held)
    allocs_raw : (c : Client A) → Use c (got (alloc_raw as_next c.pool) c.held)
    frees : (c : Client A) (i : ℕ) → Holds c i → Use c (freed c i)
    frees_null : (c : Client A) → Use c (record c { pool = free c.pool none })
    writes : (c : Client A) (i : ℕ) (a : A) → Holds c i → Use c (written c i a)

  pub data Uses (c : Client A) : Client A → Type 0 where
    here : Uses c c
    next : {d e : Client A} → Uses c d → Use d e → Uses c e

module _ {A : Type 0} where
  length_held-le : {n : ℕ} {fs : List ℕ} {c : Client A} → Owned n fs c → length fs ≤ n
  length_held-le o = let whole = o.whole in omega arith

  pub start-Owned :
      (n : ℕ) (slots : List (Slot A))
      → 0 < n
      → length slots ≡ n
      → Owned n (range 0 n) (start n slots)
  unfolding init count
  start-Owned n slots p e = record {
    sized = length-set _ (n - 1) (linked none) ∙ length-link_up (n - 1) 0 slots ∙ e;
    chained = init-Chain n slots p e;
    counted = sym (length-range 0 n);
    shared = λ j. ground (arith, count-range j 0 n);
    whole = omega (arith, length-range 0 n);
  }

  -- A slot that is held is a slot of the pool, and not free.
  pub held-apart :
      {n : ℕ} {fs : List ℕ} {c : Client A}
      → Owned n fs c
      → (i : ℕ) → Holds c i
      → (i < n) × (count i fs ≡ 0)
  held-apart o i h = let shared = o.shared i in ground arith

  freed-Owned :
      {n : ℕ} {fs : List ℕ} {c : Client A}
      → Owned n fs c
      → IsWord n
      → (i : ℕ) → Holds c i
      → Owned n (i ∷ fs) (freed c i)
  unfolding free
  freed-Owned {n} {fs} {c} o w i h =
      let (within, apart) = held-apart o i h in
      let sized = o.sized in
      let counted = o.counted in
      let whole = o.whole in
      let fewer = length-remove i c.held h in
      record {
        sized = length-set c.pool.slots i _ ∙ sized;
        chained = (
          refl,
          omega (arith, length-set c.pool.slots i (linked c.pool.free_head)),
          (
            c.pool.free_head,
            get_or-set_self c.pool.slots i (linked c.pool.free_head) (linked none) (omega arith),
            Chain-set fs c.pool.slots c.pool.free_head i (linked c.pool.free_head) o.chained apart,
          ),
        );
        counted = omega arith;
        shared = λ j. omega (arith, count-cons j i fs, count-remove j i c.held h, o.shared j);
        whole = omega arith;
      }

  written-Owned :
      {n : ℕ} {fs : List ℕ} {c : Client A}
      → Owned n fs c
      → (i : ℕ) (a : A) → Holds c i
      → Owned n fs (written c i a)
  written-Owned {n} {fs} {c} o i a h = record {
    sized = length-set c.pool.slots i (stored a) ∙ o.sized;
    chained =
        Chain-set fs c.pool.slots c.pool.free_head i (stored a) o.chained (held-apart o i h).1;
    counted = o.counted;
    shared = o.shared;
    whole = o.whole;
  }

module _ {A : Type 0} (as_next : A → Ptr) where
  -- With no free slot a call gives the null pointer.
  pub alloc_raw-none : (p : MemoryPool A) → p.free_head ≡ none → alloc_raw as_next p ≡ (p, none)
  unfolding alloc_raw
  alloc_raw-none p e = ap (take_head as_next p) e

  alloc_raw-some :
      (p : MemoryPool A) (i : ℕ) (q : Ptr)
      → p.free_head ≡ some i
      → get_or p.slots i (linked none) ≡ linked q
      → alloc_raw as_next p
        ≡ (record p { free_head = q; free_count = sub_64 p.free_count 1 }, some i)
  unfolding alloc_raw
  alloc_raw-some p i q e at =
      ap (take_head as_next p) e
      ∙ ap
          (λ s. (
            record p { free_head = next_of as_next s; free_count = sub_64 p.free_count 1 },
            some i,
          ))
          at

  -- The slot that a call hands out is the head of the free list.
  pub popped-Owned :
      {n i : ℕ} {fs : List ℕ} {c : Client A}
      → Owned n (i ∷ fs) c
      → IsWord n
      → (q : Ptr) × (alloc_raw as_next c.pool
          ≡ (record c.pool { free_head = q; free_count = sub_64 c.pool.free_count 1 }, some i))
        × Owned n fs (got (alloc_raw as_next c.pool) c.held)
  popped-Owned {n} {i} {fs} {c} o w =
      let (head, within, (q, at, rest)) = o.chained in
      let call = alloc_raw-some c.pool i q head at in
      let counted = o.counted in
      let whole = o.whole in
      (
        q,
        call,
        rw call record {
          sized = o.sized;
          chained = rest;
          counted = omega arith;
          shared = λ j. omega (arith, count-cons j i fs, count-cons j i c.held, o.shared j);
          whole = omega arith;
        },
      )

  got_raw-IsOwned :
      {n : ℕ} {c : Client A}
      → IsOwned n c
      → IsWord n
      → IsOwned n (got (alloc_raw as_next c.pool) c.held)
  got_raw-IsOwned {n} {c} ([], o) w = rw (alloc_raw-none c.pool o.chained) ([], o)
  got_raw-IsOwned (i ∷ fs, o) w = (fs, (popped-Owned o w).2)

module _ {A : Type 0} (as_next : A → Ptr) (zeroed : A) where
  pub got-IsOwned :
      {n : ℕ} {c : Client A}
      → IsOwned n c
      → IsWord n
      → IsOwned n (got (alloc zeroed as_next c.pool) c.held)
  unfolding alloc construct
  got-IsOwned {n} {c} ([], o) w = rw (alloc_raw-none as_next c.pool o.chained) ([], o)
  got-IsOwned {n} {c} (i ∷ fs, o) w =
      let (q, call, p) = popped-Owned as_next o w in
      let p' = subst (λ r. Owned n fs (got r c.held)) call p in
      rw call (fs, written-Owned p' i zeroed (rw (count-cons i i c.held) (ground arith)))

  Use-IsOwned :
      {n : ℕ} {c d : Client A} → Use as_next zeroed c d → IsWord n → IsOwned n c → IsOwned n d
  unfolding free
  Use-IsOwned (allocs c) w o = got-IsOwned o w
  Use-IsOwned (allocs_raw c) w o = got_raw-IsOwned as_next o w
  Use-IsOwned (frees c i h) w (fs, o) = (i ∷ fs, freed-Owned o w i h)
  Use-IsOwned (frees_null c) w o = o
  Use-IsOwned (writes c i a h) w (fs, o) = (fs, written-Owned o i a h)

  pub Uses-IsOwned :
      {n : ℕ} {c d : Client A} → Uses as_next zeroed c d → IsWord n → IsOwned n c → IsOwned n d
  Uses-IsOwned here w o = o
  Uses-IsOwned (next u s) w o = Use-IsOwned s w (Uses-IsOwned u w o)
