-- ===== src/Engine/Pipeline/Delivered.antt =====
-- Which events reach the trading thread of src/apps/engine/main.cpp.
use smart_quant.Prelude.{
  ◌+◌, ◌≤◌, ◌^◌, ◌≡◌, refl, sym, ap, ◌∙◌, subst, some, List, [], ◌∷◌, ◌++◌, length, arith, map, inl,
  inr, ◌⊎◌, length-append, ltb, false,
}
use mathlib.Core.List.{append_assoc, append-nil, Sublist, nil-sublist}
use mathlib.Core.List.Sublist
use native.Mathlib.Decide.{dec_lt}
use smart_quant.Prelude.Double.{Double}
use smart_quant.Types.{LobEvent}
use smart_quant.Common.SpscQueue.{SpscQueue, push, pop}
use smart_quant.Common.SpscQueue.Refine.{Represents, push_refines, push_spec, pop_refines, pop_spec}
use smart_quant.Md.Gateway.{
  Feed, blank_event, queue_bits, handle_event, on_incremental_refresh, on_snapshot,
}
use smart_quant.Md.OrderBook.{clear}
use smart_quant.Md.Gateway.Replay.{
  Made, handle_all, Queued, Made-on_incremental_refresh, Made-on_snapshot, handle_event-Queued,
}
use smart_quant.Engine.Pipeline.{
  Pipeline, Round, Input, refresh, snapshot, round, handle_popped, pop_from, pipeline_step,
  pipeline_run,
}

-- With the events taken so far, what waits in the queue is some of the events logged, in order; and
-- it is all of them unless a queue's worth of events has been logged.
abbrev pub Flows : List LobEvent → Feed → Type 0
Flows taken g =
    (xs : List LobEvent) × Queued g xs
    × Sublist (taken ++ xs) g.logged
    × ((taken ++ xs ≡ g.logged) ⊎ (2 ^ queue_bits ≤ length g.logged))

logged_more :
    (g : Feed) (ev : LobEvent) {ys : List LobEvent}
    → Sublist ys (g.logged ++ ev ∷ [])
    → Sublist ys (handle_event g ev).logged
unfolding handle_event
logged_more g ev h = h

-- An event that finds the queue full is not in it.
handle_event-Queued_full :
    (g : Feed) (ev : LobEvent) (xs : List LobEvent)
    → Queued g xs
    → 2 ^ queue_bits ≤ length xs + 1
    → Queued (handle_event g ev) xs
unfolding handle_event push_spec
handle_event-Queued_full g ev xs (q, e, r) full =
    let (same, r') = push_refines queue_bits blank_event q xs ev (omega arith) r in
    let f : ltb (length xs + 1) (2 ^ queue_bits) ≡ false = ground arith in
    ((push queue_bits q ev).0, rw e refl, rw f at r')

logged_longer : (g : Feed) (ev : LobEvent) → length (handle_event g ev).logged ≡ length g.logged + 1
unfolding handle_event
logged_longer g ev = length-append g.logged (ev ∷ [])

logged_end : (g : Feed) (ev : LobEvent) → (handle_event g ev).logged ≡ g.logged ++ ev ∷ []
unfolding handle_event
logged_end g ev = refl

-- The event enters the queue.
entered-whole :
    (taken xs : List LobEvent) (g : Feed) (ev : LobEvent)
    → (taken ++ xs ≡ g.logged) ⊎ (2 ^ queue_bits ≤ length g.logged)
    → (taken ++ (xs ++ ev ∷ []) ≡ (handle_event g ev).logged)
      ⊎ (2 ^ queue_bits ≤ length (handle_event g ev).logged)
entered-whole taken xs g ev (inl all) =
    inl
      (sym (append_assoc taken xs (ev ∷ [])) ∙ ap (λ ys. ys ++ ev ∷ []) all ∙ sym (logged_end g ev))
entered-whole taken xs g ev (inr long) = inr (omega (arith, logged_longer g ev))

-- The event is lost.
lost-whole :
    (taken xs : List LobEvent) (g : Feed) (ev : LobEvent)
    → 2 ^ queue_bits ≤ length xs + 1
    → (taken ++ xs ≡ g.logged) ⊎ (2 ^ queue_bits ≤ length g.logged)
    → 2 ^ queue_bits ≤ length (handle_event g ev).logged
lost-whole taken xs g ev full (inl all) =
    omega (arith, logged_longer g ev, length-append taken xs, ap length all)
lost-whole taken xs g ev full (inr long) = omega (arith, logged_longer g ev)

handle_event-Flows :
    (taken : List LobEvent) (g : Feed) (ev : LobEvent)
    → Flows taken g
    → Flows taken (handle_event g ev)
handle_event-Flows taken g ev (xs, queued, some_of, whole) =
    elim (dec_lt (length xs + 1) (2 ^ queue_bits)) [
      | yes room ↦ (
        xs ++ ev ∷ [],
        handle_event-Queued g ev xs queued room,
        subst (λ ys. Sublist ys (handle_event g ev).logged) (append_assoc taken xs (ev ∷ []))
            (logged_more g ev (Sublist.append some_of (Sublist.refl (ev ∷ [])))),
        entered-whole taken xs g ev whole,
      )
      | no full ↦ (
        xs,
        handle_event-Queued_full g ev xs queued (omega arith),
        subst (λ ys. Sublist ys (handle_event g ev).logged) (append-nil (taken ++ xs))
            (logged_more g ev (Sublist.append some_of (nil-sublist (ev ∷ [])))),
        inr (lost-whole taken xs g ev (omega arith) whole),
      )
    ]

handle_all-Flows :
    (evs : List LobEvent) (taken : List LobEvent) (g : Feed)
    → Flows taken g
    → Flows taken (handle_all g evs)
handle_all-Flows [] taken g h = h
handle_all-Flows (ev ∷ evs) taken g h =
    handle_all-Flows evs taken (handle_event g ev) (handle_event-Flows taken g ev h)

Made-Flows : (taken : List LobEvent) (g g' : Feed) → Made g g' → Flows taken g → Flows taken g'
Made-Flows taken g g' (evs, e) h = rw e (handle_all-Flows evs taken g h)

module _ {F : Type 0} ⦃d : Double F⦄ where
  -- A round takes the event at the front of the queue.
  pop_from-Flows :
      (p : Pipeline F) (t : Round) (q : SpscQueue LobEvent) (xs : List LobEvent)
      → Represents queue_bits blank_event q xs
      → Sublist (p.taken ++ xs) p.feed.logged
      → (p.taken ++ xs ≡ p.feed.logged) ⊎ (2 ^ queue_bits ≤ length p.feed.logged)
      → let p' = pop_from p t (some q) in Flows p'.taken p'.feed
  unfolding pop_from handle_popped pop_spec
  pop_from-Flows p t q [] r some_of whole =
      let (same, r') = pop_refines queue_bits blank_event q [] (omega arith) r in
      rw same ([], ((pop queue_bits blank_event q).0, refl, r'), some_of, whole)
  pop_from-Flows p t q (x ∷ xs) r some_of whole =
      let (same, r') = pop_refines queue_bits blank_event q (x ∷ xs) (omega arith) r in
      let moved = append_assoc p.taken (x ∷ []) xs in
      rw same (xs, ((pop queue_bits blank_event q).0, refl, r'), rw moved some_of, rw moved whole)

  -- Clearing the book leaves the log and the queue alone.
  pipeline_step-Flows :
      (p : Pipeline F) (i : Input F)
      → Flows p.taken p.feed
      → let p' = pipeline_step p i in Flows p'.taken p'.feed
  unfolding pipeline_step
  pipeline_step-Flows p (refresh msg ts_ns) h =
      Made-Flows p.taken p.feed (on_incremental_refresh p.feed msg ts_ns)
        (Made-on_incremental_refresh p.feed msg ts_ns) h
  pipeline_step-Flows p (snapshot msg ts_ns) h =
      Made-Flows p.taken (record p.feed { book = clear p.feed.book }) (on_snapshot p.feed msg ts_ns)
        (Made-on_snapshot p.feed msg ts_ns) h
  pipeline_step-Flows p (round t) (xs, (q, e, r), some_of, whole) =
      rw e (pop_from-Flows p t q xs r some_of whole)

  -- Whatever messages come and rounds run, in any order: the events that the trading thread has taken
  -- and behind them those that wait in the queue are some of the logged events, in the order of the
  -- log and none more often than logged, even when the queue overflows; and they are all of the logged
  -- events until 2 ^ 14 have been logged. The same has to hold at the start.
  pub pipeline_run-Flows :
      (p : Pipeline F) (is : List (Input F))
      → Flows p.taken p.feed
      → let p' = pipeline_run p is in Flows p'.taken p'.feed
  unfolding pipeline_run
  pipeline_run-Flows p [] h = h
  pipeline_run-Flows p (i ∷ is) h =
      pipeline_run-Flows (pipeline_step p i) is (pipeline_step-Flows p i h)

  -- A round with an event waiting hands it to the trader and takes it off the queue.
  round-Queued :
      (p : Pipeline F) (t : Round) (x : LobEvent) (xs : List LobEvent)
      → Queued p.feed (x ∷ xs)
      → let p' = pipeline_step p (round t) in
        Queued p'.feed xs × (p'.taken ≡ p.taken ++ x ∷ []) × (p'.feed.logged ≡ p.feed.logged)
  unfolding pipeline_step pop_from handle_popped pop_spec
  round-Queued p t x xs (q, e, r) =
      let (same, r') = pop_refines queue_bits blank_event q (x ∷ xs) (omega arith) r in
      rw e (rw same (((pop queue_bits blank_event q).0, refl, r'), refl, refl))

  -- As many rounds as events wait, with no message between them, hand all of these to the trader, in
  -- order, and leave the queue empty.
  pub rounds-deliver :
      (p : Pipeline F) (xs : List LobEvent) (ts : List Round)
      → Queued p.feed xs
      → length ts ≡ length xs
      → let p' = pipeline_run p (map round ts) in
        Queued p'.feed [] × (p'.taken ≡ p.taken ++ xs) × (p'.feed.logged ≡ p.feed.logged)
  unfolding pipeline_run
  rounds-deliver p [] [] h same = (h, sym (append-nil p.taken), refl)
  rounds-deliver p [] (t ∷ ts) h same = absurd (omega (arith, same))
  rounds-deliver p (x ∷ xs) [] h same = absurd (omega (arith, same))
  rounds-deliver p (x ∷ xs) (t ∷ ts) h same =
      let (rest, took, logs) = round-Queued p t x xs h in
      let (end, all, logs') = rounds-deliver (pipeline_step p (round t)) xs ts rest (omega arith) in
      (end, all ∙ ap (λ ys. ys ++ xs) took ∙ append_assoc p.taken (x ∷ []) xs, logs' ∙ logs)
