-- ===== src/Common/SpscQueue.antt =====
-- include/smartquant/common/spsc_queue.hpp: the ring between two threads, one call after another.
-- `Capacity` is `2 ^ k`, as its assertion says; the interleavings of the threads are in `Threads`.
pub mod Window
pub mod Indices
pub mod Refine
pub mod Threads
mod Tests
use Prim.Native.Nat.{bit_and}
use smart_quant.Prelude.{
  ℕ, ◌+◌, ◌-◌, ◌^◌, Bool, true, false, ◌==◌, if◌then◌else◌, Option, none, some, List, [], ◌∷◌,
  get_or, set, replicate,
}
use smart_quant.Prelude.Word.{add_64, sub_64}

pub record SpscQueue (A : Type 0) : Type 0 where
  pub head : ℕ
  pub tail : ℕ
  pub buf : List A

-- `kMask`
abbrev pub mask : ℕ → ℕ
mask k = 2 ^ k - 1

-- `(i + 1) & kMask`
abbrev pub next_index : ℕ → ℕ → ℕ
next_index k i = bit_and (add_64 i 1) (mask k)

unfoldable pub capacity : ℕ → ℕ
capacity k = mask k

module _ {A : Type 0} where
  -- The array holds default values at first.
  abbrev pub init : ℕ → A → SpscQueue A
  init k blank = record { head = 0; tail = 0; buf = replicate (2 ^ k) blank }

  unfoldable pub push : ℕ → SpscQueue A → A → SpscQueue A × Bool
  push k q item =
      let next = next_index k q.head in
      if next == q.tail
      then (q, false)
      else (record q { buf = set q.buf q.head item; head = next }, true)

  -- `blank` is what a read outside the array would give.
  unfoldable pub pop : ℕ → A → SpscQueue A → SpscQueue A × Option A
  pop k blank q =
      if q.tail == q.head
      then (q, none)
      else (record q { tail = next_index k q.tail }, some (get_or q.buf q.tail blank))

  unfoldable pub empty : SpscQueue A → Bool
  empty q = q.head == q.tail

  unfoldable pub size : ℕ → SpscQueue A → ℕ
  size k q = bit_and (sub_64 q.head q.tail) (mask k)

-- A call of one of the two threads.
pub data QueueCall (A : Type 0) : Type 0 where
  pushes : A → QueueCall A
  pops : QueueCall A

module _ {A : Type 0} where
  -- What each call returns, and the queue that is left.
  unfoldable pub run : ℕ → A → SpscQueue A → List (QueueCall A) → List (Bool × Option A)
  unfolding push pop
  run k blank q [] = []
  run k blank q (pushes x ∷ cs) = let (q', done) = push k q x in (done, none) ∷ run k blank q' cs
  run k blank q (pops ∷ cs) = let (q', out) = pop k blank q in (false, out) ∷ run k blank q' cs
