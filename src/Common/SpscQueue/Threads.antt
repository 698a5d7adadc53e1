-- ===== src/Common/SpscQueue/Threads.antt =====
-- The two threads of include/smartquant/common/spsc_queue.hpp, interleaved at every access of the
-- shared indices and slots. An acquire load sees what was stored before the release store that it
-- reads, so each access is one step on one memory.
pub mod Safety
pub mod WaitFree
use smart_quant.Prelude.{ℕ, ◌≡◌, ◌≢◌, List, [], ◌∷◌, ◌++◌, get_or, set}
use smart_quant.Common.SpscQueue.{SpscQueue, next_index, init}

-- Where `push` stands: the head is loaded; the tail was seen to leave room; the slot is written.
pub data Producer (A : Type 0) : Type 0 where
  ready : Producer A
  loaded checked written : A → ℕ → Producer A

-- Where `pop` stands: the tail is loaded; the head was seen elsewhere; the item is read.
pub data Consumer (A : Type 0) : Type 0 where
  ready : Consumer A
  loaded checked : ℕ → Consumer A
  taken : A → ℕ → Consumer A

-- `sent` and `received` record what the two threads have pushed and popped.
pub record Threads (A : Type 0) : Type 0 where
  pub q : SpscQueue A
  pub producer : Producer A
  pub consumer : Consumer A
  pub sent : List A
  pub received : List A

module _ {A : Type 0} (k : ℕ) (blank : A) where
  abbrev pub begin : Threads A
  begin = record {
    q = init k blank;
    producer = Producer.ready;
    consumer = Consumer.ready;
    sent = [];
    received = [];
  }

  pub data Step : Threads A → Threads A → Type 0 where
    load_head :
        (s : Threads A) (item : A)
        → s.producer ≡ Producer.ready
        → Step s (record s { producer = Producer.loaded item s.q.head })
    see_full :
        (s : Threads A) (item : A) (h : ℕ)
        → s.producer ≡ Producer.loaded item h
        → next_index k h ≡ s.q.tail
        → Step s (record s { producer = Producer.ready })
    see_room :
        (s : Threads A) (item : A) (h : ℕ)
        → s.producer ≡ Producer.loaded item h
        → next_index k h ≢ s.q.tail
        → Step s (record s { producer = Producer.checked item h })
    write_slot :
        (s : Threads A) (item : A) (h : ℕ)
        → s.producer ≡ Producer.checked item h
        → Step s (record s {
          q = record s.q { buf = set s.q.buf h item };
          producer = Producer.written item h;
        })
    store_head :
        (s : Threads A) (item : A) (h : ℕ)
        → s.producer ≡ Producer.written item h
        → Step s (record s {
          q = record s.q { head = next_index k h };
          producer = Producer.ready;
          sent = s.sent ++ item ∷ [];
        })
    load_tail :
        (s : Threads A)
        → s.consumer ≡ Consumer.ready
        → Step s (record s { consumer = Consumer.loaded s.q.tail })
    see_empty :
        (s : Threads A) (t : ℕ)
        → s.consumer ≡ Consumer.loaded t
        → t ≡ s.q.head
        → Step s (record s { consumer = Consumer.ready })
    see_item :
        (s : Threads A) (t : ℕ)
        → s.consumer ≡ Consumer.loaded t
        → t ≢ s.q.head
        → Step s (record s { consumer = Consumer.checked t })
    read_slot :
        (s : Threads A) (t : ℕ)
        → s.consumer ≡ Consumer.checked t
        → Step s (record s { consumer = Consumer.taken (get_or s.q.buf t blank) t })
    store_tail :
        (s : Threads A) (item : A) (t : ℕ)
        → s.consumer ≡ Consumer.taken item t
        → Step s (record s {
          q = record s.q { tail = next_index k t };
          consumer = Consumer.ready;
          received = s.received ++ item ∷ [];
        })

  pub data Reach : Threads A → Type 0 where
    start : Reach begin
    later : {s t : Threads A} → Reach s → Step s t → Reach t
