-- ===== src/Md/Gateway/Replay.antt =====
-- The log and the queue of src/md/fix_md_gateway.cpp against its book.
use smart_quant.Prelude.{
  ℕ, ◌+◌, ◌<◌, ◌^◌, ◌≡◌, refl, sym, ap, ◌∙◌, subst, Option, none, some, List, [], ◌∷◌, ◌++◌, arith,
  length, length-append, lt→ltb, ◌⊎◌, inl, inr, ◌≤◌,
}
use mathlib.Core.List.{append_assoc, append-nil}
use native.Mathlib.Decide.{dec_lt}
use smart_quant.Prelude.Double.{Double}
use smart_quant.Prelude.Eq.{nat_eq}
use smart_quant.Types.{LobEvent}
use smart_quant.Common.SpscQueue.{SpscQueue, push}
use smart_quant.Common.SpscQueue.Refine.{Represents, push_refines, push_spec}
use smart_quant.Md.OrderBook.{OrderBook, run, update, clear}
use smart_quant.Md.Gateway.{
  Feed, MdEntry, Parsed, skipped, missing, event, blank_event, queue_bits, parse_refresh,
  handle_event, on_parsed, refresh_groups, on_incremental_refresh, parse_snapshot, snapshot_groups,
  on_snapshot,
}

-- Events handled one after another.
abbrev pub handle_all : Feed → List LobEvent → Feed
handle_all g [] = g
handle_all g (ev ∷ evs) = handle_all (handle_event g ev) evs

-- The events that a message made, and that it did nothing else.
abbrev pub Made : Feed → Feed → Type 0
Made g g' = (evs : List LobEvent) × (g' ≡ handle_all g evs)

-- A round of a loop does what its events do, if the other rounds do.
Made-on_parsed :
    (p : Parsed) (g : Feed) (rest : Feed → Feed)
    → ((g' : Feed) → Made g' (rest g'))
    → Made g (on_parsed p g rest)
Made-on_parsed skipped g rest h = h g
Made-on_parsed missing g rest h = ([], refl)
Made-on_parsed (event ev) g rest h = let (evs, e) = h (handle_event g ev) in (ev ∷ evs, e)

module _ {F : Type 0} ⦃d : Double F⦄ where
  Made-refresh_groups :
      (ts_ns : ℕ) (es : List (MdEntry F)) (g : Feed) → Made g (refresh_groups ts_ns g es)
  unfolding refresh_groups
  Made-refresh_groups ts_ns [] g = ([], refl)
  Made-refresh_groups ts_ns (e ∷ es) g =
      Made-on_parsed (parse_refresh g.book ts_ns e) g _ (Made-refresh_groups ts_ns es)

pub handle_all-logged :
    (evs : List LobEvent) (g : Feed) → (handle_all g evs).logged ≡ g.logged ++ evs
unfolding handle_event
handle_all-logged [] g = sym (append-nil g.logged)
handle_all-logged (ev ∷ evs) g =
    handle_all-logged evs (handle_event g ev) ∙ append_assoc g.logged (ev ∷ []) evs

pub handle_all-book : (evs : List LobEvent) (g : Feed) → (handle_all g evs).book ≡ run g.book evs
unfolding handle_event run
handle_all-book [] g = refl
handle_all-book (ev ∷ evs) g = handle_all-book evs (handle_event g ev)

pub run-append : (xs ys : List LobEvent) (b : OrderBook) → run b (xs ++ ys) ≡ run (run b xs) ys
unfolding run
run-append [] ys b = refl
run-append (x ∷ xs) ys b = run-append xs ys (update b x).book

-- Replaying the log from the book `b` gives the book.
abbrev pub InStep : OrderBook → Feed → Type 0
InStep b g = g.book ≡ run b g.logged

-- The queue holds the items.
abbrev pub Queued : Feed → List LobEvent → Type 0
Queued g xs = (q : SpscQueue LobEvent) × (g.queue ≡ some q) × Represents queue_bits blank_event q xs

pub handle_event-Queued :
    (g : Feed) (ev : LobEvent) (xs : List LobEvent)
    → Queued g xs
    → length xs + 1 < 2 ^ queue_bits
    → Queued (handle_event g ev) (xs ++ ev ∷ [])
unfolding handle_event push_spec
handle_event-Queued g ev xs (q, e, r) room =
    let (same, r') = push_refines queue_bits blank_event q xs ev (omega arith) r in
    let t = lt→ltb (length xs + 1) (2 ^ queue_bits) room in
    ((push queue_bits q ev).0, rw e refl, rw t at r')

pub handle_all-Queued :
    (evs : List LobEvent) (g : Feed) (xs : List LobEvent)
    → Queued g xs
    → length xs + length evs < 2 ^ queue_bits
    → Queued (handle_all g evs) (xs ++ evs)
handle_all-Queued [] g xs h room = subst (Queued g) (sym (append-nil xs)) h
handle_all-Queued (ev ∷ evs) g xs h room =
    subst (Queued (handle_all g (ev ∷ evs))) (append_assoc xs (ev ∷ []) evs) (
      handle_all-Queued evs (handle_event g ev) (xs ++ ev ∷ [])
        (handle_event-Queued g ev xs h (omega arith)) (omega (arith, length-append xs (ev ∷ []))))

queued_or_full :
    (evs : List LobEvent) (g : Feed) (xs : List LobEvent)
    → Queued g xs
    → Queued (handle_all g evs) (xs ++ evs) ⊎ (2 ^ queue_bits ≤ length xs + length evs)
queued_or_full evs g xs q = elim (dec_lt (length xs + length evs) (2 ^ queue_bits)) [
  | yes room ↦ inl (handle_all-Queued evs g xs q room)
  | no full ↦ inr (omega arith)
]

module _ {F : Type 0} ⦃d : Double F⦄ where
  Made-snapshot_groups :
      (ts_ns : ℕ) (es : List (MdEntry F)) (g : Feed) → Made g (snapshot_groups ts_ns g es)
  unfolding snapshot_groups
  Made-snapshot_groups ts_ns [] g = ([], refl)
  Made-snapshot_groups ts_ns (e ∷ es) g =
      Made-on_parsed (parse_snapshot ts_ns e) g _ (Made-snapshot_groups ts_ns es)

  -- A snapshot makes its events on the cleared book.
  pub Made-on_snapshot :
      (g : Feed) (msg : Option (List (MdEntry F))) (ts_ns : ℕ)
      → Made (record g { book = clear g.book }) (on_snapshot g msg ts_ns)
  unfolding on_snapshot
  Made-on_snapshot g none ts_ns = ([], refl)
  Made-on_snapshot g (some es) ts_ns =
      Made-snapshot_groups ts_ns es (record g { book = clear g.book })

  pub Made-on_incremental_refresh :
      (g : Feed) (msg : Option (List (MdEntry F))) (ts_ns : ℕ)
      → Made g (on_incremental_refresh g msg ts_ns)
  unfolding on_incremental_refresh
  Made-on_incremental_refresh g none ts_ns = ([], refl)
  Made-on_incremental_refresh g (some es) ts_ns = Made-refresh_groups ts_ns es g

  -- If replaying the log gives the book, it still does after an incremental refresh, whatever groups
  -- are skipped and wherever a missing field ends the message; and the trading thread gets the same
  -- events in the same order, as long as they fit in the queue.
  pub refresh-InStep :
      (b : OrderBook) (g : Feed) (xs : List LobEvent) (msg : Option (List (MdEntry F))) (ts_ns : ℕ)
      → InStep b g
      → Queued g xs
      → let g' = on_incremental_refresh g msg ts_ns in
        InStep b g'
        × ((evs : List LobEvent) × (g'.logged ≡ g.logged ++ evs)
            × (Queued g' (xs ++ evs) ⊎ (2 ^ queue_bits ≤ length xs + length evs)))
  refresh-InStep b g xs msg ts_ns h q =
      let (evs, e) = Made-on_incremental_refresh g msg ts_ns in
      rw e (
        handle_all-book evs g
            ∙ ap (λ c. run c evs) h
            ∙ sym (run-append g.logged evs b)
            ∙ ap (run b) (sym (handle_all-logged evs g)),
        (evs, handle_all-logged evs g, queued_or_full evs g xs q),
      )
