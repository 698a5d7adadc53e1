-- ===== src/Common/MemoryPool.antt =====
-- include/smartquant/common/memory_pool.hpp: a slab of slots of one type. A pointer into the slab is
-- the index of its slot, and the null pointer is `none`.
pub mod Chain
pub mod Clients
pub mod Ownership
mod Tests
use smart_quant.Prelude.{ℕ, zero, suc, ◌+◌, ◌-◌, Bool, ◌==◌, Option, none, some, List, get_or, set}
use smart_quant.Prelude.Word.{add_64, sub_64}

abbrev pub Ptr : Type 0
Ptr = Option ℕ

-- The union: the pointer that was written last, or an object.
pub data Slot (A : Type 0) : Type 0 where
  linked : Ptr → Slot A
  stored : A → Slot A

pub record MemoryPool (A : Type 0) : Type 0 where
  pub slots : List (Slot A)
  pub free_head : Ptr
  pub free_count : ℕ

module _ {A : Type 0} where
  -- The loop of the constructor, from slot `i` on, for the given number of rounds.
  unfoldable pub link_up : ℕ → ℕ → List (Slot A) → List (Slot A)
  link_up zero i slots = slots
  link_up (suc k) i slots = link_up k (i + 1) (set slots i (linked (some (i + 1))))

  -- The constructor, on the memory of `n` slots, whatever it holds.
  unfoldable pub init : ℕ → List (Slot A) → MemoryPool A
  unfolding link_up
  init n slots = record {
    slots = set (link_up (n - 1) 0 slots) (n - 1) (linked none);
    free_head = some 0;
    free_count = n;
  }

  -- The destructor of the object leaves no trace here.
  unfoldable pub free : MemoryPool A → Ptr → MemoryPool A
  free p none = p
  free p (some i) = record {
    slots = set p.slots i (linked p.free_head);
    free_head = some i;
    free_count = add_64 p.free_count 1;
  }

  unfoldable pub empty : MemoryPool A → Bool
  empty p = p.free_count == 0

-- `as_next` is the pointer that the bytes of an object would be read as.
module _ {A : Type 0} (as_next : A → Ptr) where
  unfoldable pub next_of : Slot A → Ptr
  next_of (linked q) = q
  next_of (stored a) = as_next a

  -- `alloc_raw`, by what the head of the free list is.
  unfoldable pub take_head : MemoryPool A → Ptr → MemoryPool A × Ptr
  unfolding next_of
  take_head p none = (p, none)
  take_head p (some i) = (
    record p {
      free_head = next_of (get_or p.slots i (linked none));
      free_count = sub_64 p.free_count 1;
    },
    some i,
  )

  unfoldable pub alloc_raw : MemoryPool A → MemoryPool A × Ptr
  unfolding take_head
  alloc_raw p = take_head p p.free_head

-- `zeroed` is `T{}`.
module _ {A : Type 0} (zeroed : A) where
  -- The placement new at the end of `alloc`.
  unfoldable pub construct : MemoryPool A × Ptr → MemoryPool A × Ptr
  construct (p, none) = (p, none)
  construct (p, some i) = (record p { slots = set p.slots i (stored zeroed) }, some i)

  unfoldable pub alloc : (A → Ptr) → MemoryPool A → MemoryPool A × Ptr
  unfolding alloc_raw construct
  alloc as_next p = construct (alloc_raw as_next p)
