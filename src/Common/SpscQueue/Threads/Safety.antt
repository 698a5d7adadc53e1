-- ===== src/Common/SpscQueue/Threads/Safety.antt =====
-- What every interleaving of include/smartquant/common/spsc_queue.hpp keeps: order, no loss, no
-- duplicate, and no slot that both threads touch.
use smart_quant.Prelude.{
  ℕ, suc, ◌+◌, ◌^◌, ◌<◌, ◌≤◌, ◌≡◌, ◌≢◌, refl, ap, ◌∙◌, sym, subst, List, [], ◌∷◌, ◌++◌, arith,
  length, length-append, length-set, get_or, set, get_or-set_self,
}
use mathlib.Core.List.{append_assoc, append-nil}
use native.Mathlib.Nat.{mod-lt}
use native.Mathlib.Decide.{dec_lt}
use smart_quant.Prelude.Bits.{pow-pos}
use smart_quant.Common.SpscQueue.{SpscQueue, next_index}
use smart_quant.Common.SpscQueue.Window.{window, window-set_outside, window-suc, mod_ne_start}
use smart_quant.Common.SpscQueue.Refine.{Represents, init-Represents, empty_iff, pop-Represents}
use smart_quant.Common.SpscQueue.Indices.{next_of_head, full_iff}
use smart_quant.Common.SpscQueue.Threads.{
  Producer, Consumer, Threads, begin, Step, load_head, see_full, see_room, write_slot, store_head,
  load_tail, see_empty, see_item, read_slot, store_tail, Reach, start, later,
}

module _ {A : Type 0} (k : ℕ) (blank : A) (few : k < 64) where
  -- What the producer knows of the ring, which holds `n` items.
  abbrev ProducerKnows : SpscQueue A → ℕ → Producer A → Type 0
  ProducerKnows q n Producer.ready = Unit {0}
  ProducerKnows q n (Producer.loaded item h) = h ≡ q.head
  ProducerKnows q n (Producer.checked item h) = (h ≡ q.head) × (n + 1 < 2 ^ k)
  ProducerKnows q n (Producer.written item h) =
      (h ≡ q.head) × (n + 1 < 2 ^ k) × (get_or q.buf h blank ≡ item)

  -- What the consumer knows of the ring, whose tail is `t` and whose items are `xs`.
  abbrev ConsumerKnows : ℕ → List A → Consumer A → Type 0
  ConsumerKnows t xs Consumer.ready = Unit {0}
  ConsumerKnows t xs (Consumer.loaded i) = i ≡ t
  ConsumerKnows t xs (Consumer.checked i) = (i ≡ t) × (0 < length xs)
  ConsumerKnows t xs (Consumer.taken item i) = (i ≡ t) × (ys : List A) × (xs ≡ item ∷ ys)

  -- The ring holds exactly what is sent and not yet received.
  record Inv (s : Threads A) (xs : List A) : Type 0 where
    ring : Represents k blank s.q xs
    order : s.sent ≡ s.received ++ xs
    producing : ProducerKnows s.q (length xs) s.producer
    consuming : ConsumerKnows s.q.tail xs s.consumer

  begin-Inv : Inv (begin k blank) []
  begin-Inv = record {
    ring = init-Represents k blank;
    order = refl;
    producing = tt;
    consuming = tt;
  }

  -- Writing the free slot at the head leaves the items alone.
  write-Represents :
      (q : SpscQueue A) (xs : List A) (item : A)
      → Represents k blank q xs
      → Represents k blank (record q { buf = set q.buf q.head item }) xs
  write-Represents q xs item r = record {
    holds = record {
      slots = length-set q.buf q.head item ∙ r.holds.slots;
      tail_in = r.holds.tail_in;
      few = r.holds.few;
      apart = r.holds.apart;
    };
    items =
        window-set_outside q.buf (2 ^ k) blank item q.tail (length xs) (length xs) q.head
          r.holds.tail_in (omega arith) r.holds.few r.holds.apart
        ∙ r.items;
  }

  -- Moving the head past a written slot adds its item.
  publish-Represents :
      (q : SpscQueue A) (xs : List A) (item : A)
      → Represents k blank q xs
      → length xs + 1 < 2 ^ k
      → get_or q.buf q.head blank ≡ item
      → Represents k blank (record q { head = next_index k q.head }) (xs ++ item ∷ [])
  publish-Represents q xs item r room e = record {
    holds = rw longer (record {
      slots = r.holds.slots;
      tail_in = r.holds.tail_in;
      few = omega arith;
      apart = next_of_head k q (length xs) few r.holds;
    });
    items = rw longer (
        window-suc q.buf (2 ^ k) blank q.tail (length xs) r.holds.tail_in
        ∙ ap (λ i. window q.buf (2 ^ k) blank q.tail (length xs) ++ get_or q.buf i blank ∷ [])
            (sym r.holds.apart)
        ∙ ap (λ x. window q.buf (2 ^ k) blank q.tail (length xs) ++ x ∷ []) e
        ∙ ap (λ ys. ys ++ item ∷ []) r.items);
  }
    where
      longer : length (xs ++ item ∷ []) ≡ suc (length xs)
      longer = omega (arith, length-append xs (item ∷ []))

  head_in :
      (q : SpscQueue A) (xs : List A) (h : ℕ)
      → Represents k blank q xs
      → h ≡ q.head
      → h < length q.buf
  head_in q xs h r at =
      omega (arith, at, r.holds.apart, r.holds.slots, mod-lt (q.tail + length xs) (pow-pos k))

  room_left :
      (q : SpscQueue A) (xs : List A)
      → Represents k blank q xs
      → next_index k q.head ≢ q.tail
      → length xs + 1 < 2 ^ k
  room_left q xs r apart = elim (dec_lt (length xs + 1) (2 ^ k)) [
    | yes room ↦ room
    | no stuck ↦
        let short = r.holds.few in
        absurd (apart ((full_iff k q (length xs) few r.holds).1 (omega arith)))
  ]

  item_left :
      (q : SpscQueue A) (xs : List A) → Represents k blank q xs → q.tail ≢ q.head → 0 < length xs
  item_left q [] r apart = absurd (apart ((empty_iff k q 0 r.holds).1 refl))
  item_left q (x ∷ xs) r apart = omega arith

  oldest :
      (q : SpscQueue A) (xs : List A) (t : ℕ)
      → Represents k blank q xs
      → t ≡ q.tail
      → 0 < length xs
      → (ys : List A) × (xs ≡ get_or q.buf t blank ∷ ys)
  oldest q [] t r at left = absurd (omega arith)
  oldest q (x ∷ xs) t r at left = (
    xs,
    ap (λ y. y ∷ xs)
        (sym (ap (λ i. get_or q.buf i blank) at ∙ (pop-Represents k blank q x xs few r).0)),
  )

  nothing : (xs : List A) → length xs ≡ 0 → xs ≡ []
  nothing [] e = refl
  nothing (x ∷ xs) e = absurd (omega arith)

  consumer_after_push :
      (c : Consumer A) (t : ℕ) (xs : List A) (item : A)
      → ConsumerKnows t xs c
      → ConsumerKnows t (xs ++ item ∷ []) c
  consumer_after_push Consumer.ready t xs item h = tt
  consumer_after_push (Consumer.loaded i) t xs item h = h
  consumer_after_push (Consumer.checked i) t xs item h =
      (h.0, omega (arith, length-append xs (item ∷ [])))
  consumer_after_push (Consumer.taken x i) t xs item (e, ys, q) =
      (e, ys ++ item ∷ [], ap (λ zs. zs ++ item ∷ []) q)

  producer_after_pop :
      (p : Producer A) (q : SpscQueue A) (t n : ℕ)
      → ProducerKnows q (suc n) p
      → ProducerKnows (record q { tail = t }) n p
  producer_after_pop Producer.ready q t n h = tt
  producer_after_pop (Producer.loaded item i) q t n h = h
  producer_after_pop (Producer.checked item i) q t n h = (h.0, omega arith)
  producer_after_pop (Producer.written item i) q t n h = (h.0, omega arith, h.2)

  Step-Inv :
      {s t : Threads A} (xs : List A) → Step k blank s t → Inv s xs → (ys : List A) × Inv t ys
  Step-Inv xs (load_head s item e) v =
      (xs, record { ring = v.ring; order = v.order; producing = refl; consuming = v.consuming })
  Step-Inv xs (see_full s item h e f) v =
      (xs, record { ring = v.ring; order = v.order; producing = tt; consuming = v.consuming })
  Step-Inv xs (see_room s item h e f) v =
      let at : h ≡ s.q.head = subst (ProducerKnows s.q (length xs)) e v.producing in
      let apart : next_index k s.q.head ≢ s.q.tail = subst (λ i. next_index k i ≢ s.q.tail) at f in
      (
        xs,
        record {
          ring = v.ring;
          order = v.order;
          producing = (at, room_left s.q xs v.ring apart);
          consuming = v.consuming;
        },
      )
  Step-Inv xs (write_slot s item h e) v =
      let (at, room) = subst (ProducerKnows s.q (length xs)) e v.producing in
      (
        xs,
        record {
          ring =
              subst (λ i. Represents k blank (record s.q { buf = set s.q.buf i item }) xs) (sym at)
                (write-Represents s.q xs item v.ring);
          order = v.order;
          producing = (at, room, get_or-set_self s.q.buf h item blank (head_in s.q xs h v.ring at));
          consuming = v.consuming;
        },
      )
  Step-Inv xs (store_head s item h e) v =
      let (at, room, slot) = subst (ProducerKnows s.q (length xs)) e v.producing in
      (
        xs ++ item ∷ [],
        record {
          ring =
              subst
                (λ i. Represents k blank (record s.q { head = next_index k i }) (xs ++ item ∷ []))
                (sym at)
                (publish-Represents s.q xs item v.ring room
                  (subst (λ i. get_or s.q.buf i blank ≡ item) at slot));
          order = ap (λ ys. ys ++ item ∷ []) v.order ∙ append_assoc s.received xs (item ∷ []);
          producing = tt;
          consuming = consumer_after_push s.consumer s.q.tail xs item v.consuming;
        },
      )
  Step-Inv xs (load_tail s e) v =
      (xs, record { ring = v.ring; order = v.order; producing = v.producing; consuming = refl })
  Step-Inv xs (see_empty s t e f) v =
      (xs, record { ring = v.ring; order = v.order; producing = v.producing; consuming = tt })
  Step-Inv xs (see_item s t e f) v =
      let at : t ≡ s.q.tail = subst (ConsumerKnows s.q.tail xs) e v.consuming in
      (
        xs,
        record {
          ring = v.ring;
          order = v.order;
          producing = v.producing;
          consuming = (at, item_left s.q xs v.ring (λ same. f (at ∙ same)));
        },
      )
  Step-Inv xs (read_slot s t e) v =
      let (at, some_left) = subst (ConsumerKnows s.q.tail xs) e v.consuming in
      let (ys, front) = oldest s.q xs t v.ring at some_left in
      (
        xs,
        record {
          ring = v.ring;
          order = v.order;
          producing = v.producing;
          consuming = (at, ys, front);
        },
      )
  Step-Inv xs (store_tail s item t e) v =
      let (at, ys, front) = subst (ConsumerKnows s.q.tail xs) e v.consuming in
      let r : Represents k blank s.q (item ∷ ys) = subst (Represents k blank s.q) front v.ring in
      (
        ys,
        record {
          ring =
              subst (λ i. Represents k blank (record s.q { tail = next_index k i }) ys) (sym at)
                (pop-Represents k blank s.q item ys few r).1;
          order =
              v.order
              ∙ ap (λ zs. s.received ++ zs) front
              ∙ sym (append_assoc s.received (item ∷ []) ys);
          producing =
              producer_after_pop s.producer s.q (next_index k t) (length ys)
                (subst (λ n. ProducerKnows s.q n s.producer) (ap length front) v.producing);
          consuming = tt;
        },
      )

  Reach-Inv : {s : Threads A} → Reach k blank s → (xs : List A) × Inv s xs
  Reach-Inv start = ([], begin-Inv)
  Reach-Inv (later r step) = let (xs, v) = Reach-Inv r in Step-Inv xs step v

  -- Under every interleaving of the two threads, what has been received is, in order and without a
  -- loss or a duplicate, the beginning of what has been sent, and at most `2 ^ k - 1` items are
  -- sent and not yet received.
  pub Reach-fifo :
      {s : Threads A}
      → Reach k blank s
      → (xs : List A) × (s.sent ≡ s.received ++ xs) × (length xs + 1 ≤ 2 ^ k)
  Reach-fifo r = let (xs, v) = Reach-Inv r in (xs, v.order, omega (arith, v.ring.holds.few))

  -- Under every interleaving, a producer about to write a slot and a consumer about to read one are
  -- at different slots: the buffer is never written and read at the same place.
  pub Reach-apart :
      {s : Threads A} (item : A) (h t : ℕ)
      → Reach k blank s
      → s.producer ≡ Producer.checked item h
      → s.consumer ≡ Consumer.checked t
      → h ≢ t
  Reach-apart {s} item h t r ep ec same =
      let (xs, v) = Reach-Inv r in
      let (at_head, room) = subst (ProducerKnows s.q (length xs)) ep v.producing in
      let (at_tail, left) = subst (ConsumerKnows s.q.tail xs) ec v.consuming in
      mod_ne_start (2 ^ k) s.q.tail (length xs) v.ring.holds.tail_in left v.ring.holds.few
        (sym v.ring.holds.apart ∙ sym at_head ∙ same ∙ at_tail)

  -- Under every interleaving, a consumer between two calls that finds both indices equal has
  -- received everything that was sent.
  pub Reach-drained : {s : Threads A} → Reach k blank s → s.q.tail ≡ s.q.head → s.received ≡ s.sent
  Reach-drained {s} r e =
      let (xs, v) = Reach-Inv r in
      let none_left : length xs ≡ 0 = (empty_iff k s.q (length xs) v.ring.holds).0 e in
      sym (v.order ∙ ap (λ ys. s.received ++ ys) (nothing xs none_left) ∙ append-nil s.received)
