-- ===== src/Common/SpscQueue/Threads/WaitFree.antt =====
-- Neither thread of include/smartquant/common/spsc_queue.hpp waits for the other: a call returns after
-- a bounded number of its own accesses, however the other thread's are interleaved.
use smart_quant.Prelude.{ℕ, ◌+◌, ◌≤◌, ◌≡◌, refl, ◌⊎◌, inl, inr, arith}
use native.Mathlib.Decide.{ℕ_discrete}
use smart_quant.Common.SpscQueue.{next_index}
use smart_quant.Common.SpscQueue.Threads.{
  Producer, Consumer, Threads, Step, load_head, see_full, see_room, write_slot, store_head,
  load_tail, see_empty, see_item, read_slot, store_tail,
}

-- The accesses that a call has left at most.
abbrev push_left : {A : Type 0} → Producer A → ℕ
push_left Producer.ready = 0
push_left (Producer.loaded _ _) = 3
push_left (Producer.checked _ _) = 2
push_left (Producer.written _ _) = 1

abbrev pop_left : {A : Type 0} → Consumer A → ℕ
pop_left Consumer.ready = 0
pop_left (Consumer.loaded _) = 3
pop_left (Consumer.checked _) = 2
pop_left (Consumer.taken _ _) = 1

module _ {A : Type 0} where
  push_left_bound : (p : Producer A) → push_left p ≤ 3
  push_left_bound p = ground arith

  pop_left_bound : (c : Consumer A) → pop_left c ≤ 3
  pop_left_bound c = ground arith

  push_ready : (p : Producer A) → (p ≡ Producer.ready) ⊎ (1 ≤ push_left p)
  push_ready p = ground arith

  pop_ready : (c : Consumer A) → (c ≡ Consumer.ready) ⊎ (1 ≤ pop_left c)
  pop_ready c = ground arith

module _ {A : Type 0} {k : ℕ} {blank : A} where
  -- 1 for an access of the producer, 0 for one of the consumer.
  abbrev pub by_push : {s t : Threads A} → Step k blank s t → ℕ
  by_push (load_head _ _ _) = 1
  by_push (see_full _ _ _ _ _) = 1
  by_push (see_room _ _ _ _ _) = 1
  by_push (write_slot _ _ _ _) = 1
  by_push (store_head _ _ _ _) = 1
  by_push (load_tail _ _) = 0
  by_push (see_empty _ _ _ _) = 0
  by_push (see_item _ _ _ _) = 0
  by_push (read_slot _ _ _) = 0
  by_push (store_tail _ _ _ _) = 0

  abbrev pub by_pop : {s t : Threads A} → Step k blank s t → ℕ
  by_pop (load_head _ _ _) = 0
  by_pop (see_full _ _ _ _ _) = 0
  by_pop (see_room _ _ _ _ _) = 0
  by_pop (write_slot _ _ _ _) = 0
  by_pop (store_head _ _ _ _) = 0
  by_pop (load_tail _ _) = 1
  by_pop (see_empty _ _ _ _) = 1
  by_pop (see_item _ _ _ _) = 1
  by_pop (read_slot _ _ _) = 1
  by_pop (store_tail _ _ _ _) = 1

  -- An access of a call under way brings it nearer to its end; the other thread's leave it.
  push_progress :
      {s t : Threads A} (st : Step k blank s t)
      → ((t.producer ≡ Producer.ready) ⊎ (push_left t.producer + by_push st ≤ push_left s.producer))
        ⊎ (s.producer ≡ Producer.ready)
  push_progress (load_head s item e) = inr e
  push_progress (see_full s item h e full) = inl (inl refl)
  push_progress (see_room s item h e room) = inl (inr (ground arith))
  push_progress (write_slot s item h e) = inl (inr (ground arith))
  push_progress (store_head s item h e) = inl (inl refl)
  push_progress (load_tail s e) = inl (inr (omega arith))
  push_progress (see_empty s t e none) = inl (inr (omega arith))
  push_progress (see_item s t e some) = inl (inr (omega arith))
  push_progress (read_slot s t e) = inl (inr (omega arith))
  push_progress (store_tail s item t e) = inl (inr (omega arith))

  pop_progress :
      {s t : Threads A} (st : Step k blank s t)
      → ((t.consumer ≡ Consumer.ready) ⊎ (pop_left t.consumer + by_pop st ≤ pop_left s.consumer))
        ⊎ (s.consumer ≡ Consumer.ready)
  pop_progress (load_head s item e) = inl (inr (omega arith))
  pop_progress (see_full s item h e full) = inl (inr (omega arith))
  pop_progress (see_room s item h e room) = inl (inr (omega arith))
  pop_progress (write_slot s item h e) = inl (inr (omega arith))
  pop_progress (store_head s item h e) = inl (inr (omega arith))
  pop_progress (load_tail s e) = inr e
  pop_progress (see_empty s t e none) = inl (inl refl)
  pop_progress (see_item s t e some) = inl (inr (ground arith))
  pop_progress (read_slot s t e) = inl (inr (ground arith))
  pop_progress (store_tail s item t e) = inl (inl refl)

module _ {A : Type 0} (k : ℕ) (blank : A) where
  -- Each thread has a next access, wherever it stands.
  push_enabled :
      (s : Threads A) (item : A) (p : Producer A)
      → s.producer ≡ p
      → (t : Threads A) × (st : Step k blank s t) × (by_push st ≡ 1)
  push_enabled s item Producer.ready e = (_, load_head s item e, refl)
  push_enabled s item (Producer.loaded x h) e = elim (ℕ_discrete (next_index k h) s.q.tail) [
    | yes full ↦ (_, see_full s x h e full, refl)
    | no room ↦ (_, see_room s x h e room, refl)
  ]
  push_enabled s item (Producer.checked x h) e = (_, write_slot s x h e, refl)
  push_enabled s item (Producer.written x h) e = (_, store_head s x h e, refl)

  pop_enabled :
      (s : Threads A) (c : Consumer A)
      → s.consumer ≡ c
      → (t : Threads A) × (st : Step k blank s t) × (by_pop st ≡ 1)
  pop_enabled s Consumer.ready e = (_, load_tail s e, refl)
  pop_enabled s (Consumer.loaded t) e = elim (ℕ_discrete t s.q.head) [
    | yes none ↦ (_, see_empty s t e none, refl)
    | no some ↦ (_, see_item s t e some, refl)
  ]
  pop_enabled s (Consumer.checked t) e = (_, read_slot s t e, refl)
  pop_enabled s (Consumer.taken x t) e = (_, store_tail s x t e, refl)

  -- A sequence of accesses of both threads.
  pub data Interleaving (s : Threads A) : Threads A → Type 0 where
    here : Interleaving s s
    then_step : {t u : Threads A} → Interleaving s t → Step k blank t u → Interleaving s u

module _ {A : Type 0} {k : ℕ} {blank : A} where
  abbrev pub push_accesses : {s t : Threads A} → Interleaving k blank s t → ℕ
  push_accesses here = 0
  push_accesses (then_step p st) = by_push st + push_accesses p

  abbrev pub pop_accesses : {s t : Threads A} → Interleaving k blank s t → ℕ
  pop_accesses here = 0
  pop_accesses (then_step p st) = by_pop st + pop_accesses p

  -- The call under way, if there is one, has returned somewhere on the path.
  abbrev pub PushReturned : {s t : Threads A} → Interleaving k blank s t → Type 0
  PushReturned {s} here = s.producer ≡ Producer.ready
  PushReturned (then_step {t} {u} p st) = PushReturned p ⊎ (u.producer ≡ Producer.ready)

  abbrev pub PopReturned : {s t : Threads A} → Interleaving k blank s t → Type 0
  PopReturned {s} here = s.consumer ≡ Consumer.ready
  PopReturned (then_step {t} {u} p st) = PopReturned p ⊎ (u.consumer ≡ Consumer.ready)

  -- A path that ends between two calls has seen the call under way return.
  returned_of_ready :
      {s t : Threads A} (p : Interleaving k blank s t)
      → t.producer ≡ Producer.ready
      → PushReturned p
  returned_of_ready here e = e
  returned_of_ready (then_step p st) e = inr e

  popped_of_ready :
      {s t : Threads A} (p : Interleaving k blank s t) → t.consumer ≡ Consumer.ready → PopReturned p
  popped_of_ready here e = e
  popped_of_ready (then_step p st) e = inr e

  pushes_left :
      {s t : Threads A} (p : Interleaving k blank s t)
      → PushReturned p ⊎ (push_left t.producer + push_accesses p ≤ 3)
  pushes_left {s} here = inr (omega (arith, push_left_bound s.producer))
  pushes_left (then_step p st) = elim (pushes_left p) [
    | inl r ↦ inl (inl r)
    | inr left ↦ elim (push_progress st) [
      | inl (inl e) ↦ inl (inr e)
      | inl (inr less) ↦ inr (omega arith)
      | inr e ↦ inl (inl (returned_of_ready p e))
    ]
  ]

  pops_left :
      {s t : Threads A} (p : Interleaving k blank s t)
      → PopReturned p ⊎ (pop_left t.consumer + pop_accesses p ≤ 3)
  pops_left {s} here = inr (omega (arith, pop_left_bound s.consumer))
  pops_left (then_step p st) = elim (pops_left p) [
    | inl r ↦ inl (inl r)
    | inr left ↦ elim (pop_progress st) [
      | inl (inl e) ↦ inl (inr e)
      | inl (inr less) ↦ inr (omega arith)
      | inr e ↦ inl (inl (popped_of_ready p e))
    ]
  ]

  push_within :
      {s t : Threads A} (p : Interleaving k blank s t) → PushReturned p ⊎ (push_accesses p ≤ 2)
  push_within {s} {t} p = elim (pushes_left p) [
    | inl r ↦ inl r
    | inr left ↦ elim (push_ready t.producer) [
      | inl e ↦ inl (returned_of_ready p e)
      | inr more ↦ inr (omega arith)
    ]
  ]

  pop_within :
      {s t : Threads A} (p : Interleaving k blank s t) → PopReturned p ⊎ (pop_accesses p ≤ 2)
  pop_within {s} {t} p = elim (pops_left p) [
    | inl r ↦ inl r
    | inr left ↦ elim (pop_ready t.consumer) [
      | inl e ↦ inl (popped_of_ready p e)
      | inr more ↦ inr (omega arith)
    ]
  ]

-- From any state `s`, each thread can make its next access, whatever the other one did. And after any
-- interleaving of their accesses from `s` on: a push that was under way has returned if the producer
-- made three of these accesses or more, and a pop if the consumer did.
pub Interleaving-wait_free :
    {A : Type 0} (k : ℕ) (blank : A) (s t : Threads A) (item : A) (p : Interleaving k blank s t)
    → ((u : Threads A) × (st : Step k blank s u) × (by_push st ≡ 1))
      × ((u : Threads A) × (st : Step k blank s u) × (by_pop st ≡ 1))
      × (PushReturned p ⊎ (push_accesses p ≤ 2))
      × (PopReturned p ⊎ (pop_accesses p ≤ 2))
Interleaving-wait_free k blank s t item p = (
  push_enabled k blank s item s.producer refl,
  pop_enabled k blank s s.consumer refl,
  push_within p,
  pop_within p,
)
