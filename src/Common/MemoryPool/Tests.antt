-- ===== src/Common/MemoryPool/Tests.antt =====
-- A pool of three slots, and a client that takes two, writes one and gives the other back.
use smart_quant.Prelude.{ℕ, ◌<◌, ◌≡◌, refl, none, some, List, [], ◌∷◌, length, get_or, arith, ◌⊎◌}
use smart_quant.Prelude.Count.{count}
use smart_quant.Common.MemoryPool.{Ptr, Slot, linked, stored, init, free, alloc, alloc_raw}
use smart_quant.Common.MemoryPool.Clients.{Client, Uses, here, next, allocs, writes, start}
use smart_quant.Common.MemoryPool.Ownership.{alloc_fresh, held_untouched}

-- An object is a number, and its bytes are read as an address.
abbrev as_next : ℕ → Ptr
as_next a = some a

-- What the memory holds before the constructor.
abbrev memory : List (Slot ℕ)
memory = stored 7 ∷ stored 8 ∷ stored 9 ∷ []

-- Slots 0 and 1 are held.
abbrev two_held : Client ℕ
two_held = record {
  pool = record {
    slots = stored 0 ∷ stored 0 ∷ linked none ∷ [];
    free_head = some 2;
    free_count = 1;
  };
  held = 1 ∷ 0 ∷ [];
}

takes_two : Uses as_next 0 (start 3 memory) two_held
unfolding init alloc
takes_two = next (next here (allocs _)) (allocs _)

writes_one : Uses as_next 0 (start 3 memory) (record two_held {
  pool = record two_held.pool { slots = stored 0 ∷ stored 5 ∷ linked none ∷ [] };
})
unfolding count
writes_one = next takes_two (writes two_held 1 5 (omega arith))

-- The slot that is freed is the first to be handed out again.
last_in_first_out : (alloc 0 as_next (free two_held.pool (some 1))).1 ≡ some 1
unfolding alloc free
last_in_first_out = refl

alloc_fresh_example :
    let (pool, p) = alloc 0 as_next two_held.pool in
    ((p ≡ none) × (pool ≡ two_held.pool) × (length two_held.held ≡ 3))
    ⊎ ((i : ℕ) × (p ≡ some i)
        × (i < 3)
        × (count i two_held.held ≡ 0)
        × (get_or pool.slots i (linked none) ≡ stored 0)
        × (length two_held.held < 3))
alloc_fresh_example =
    alloc_fresh as_next 0 3 memory two_held (omega arith) (omega arith) refl takes_two

held_untouched_example :
    let other : ℕ = 1 in
    let old = get_or two_held.pool.slots 0 (linked none) in
    (get_or (alloc 0 as_next two_held.pool).0.slots 0 (linked none) ≡ old)
    × (get_or (alloc_raw as_next two_held.pool).0.slots 0 (linked none) ≡ old)
    × ((other ≡ 0) ⊎ (get_or (free two_held.pool (some 1)).slots 0 (linked none) ≡ old))
unfolding count
held_untouched_example =
    held_untouched as_next 0 3 memory two_held 0 1 (omega arith) (omega arith) refl takes_two
      (omega arith) (omega arith)
