-- ===== src/Md/OrderBook/Consistent.antt =====
-- The representation invariant of src/md/order_book.cpp: both maps of levels agree with the live
-- orders. Every update keeps it, but a New under an id that is live.
pub mod Steps
use smart_quant.Prelude.{
  ℕ, ◌≡◌, refl, sym, ◌∙◌, Bool, true, false, if◌then◌else◌, Option, none, some, List, [], ◌∷◌,
  arith, inl, inr, Bool-cases, Option-cases, subst,
}
use smart_quant.Prelude.Int.{ℤ, pos, ◌<ℤ◌, ◌≤ℤ◌, leb_ℤ, ltb_ℤ}
use smart_quant.Prelude.Eq.{nat_eq}
use smart_quant.Prelude.Map.Hash
use smart_quant.Types.{Price, Qty, LobEvent, MdUpdateAction, new, change, delete, bid, offer, trade}
use smart_quant.Md.OrderBook.{
  EntryInfo, OrderBook, place, withdraw, apply, apply_new, apply_change, apply_delete, update, run,
  entry_of, clear, lookup_entry,
}
use smart_quant.Md.OrderBook.Live.{IsFresh, AllFresh, entries-update}
use smart_quant.Prelude.Map.Sorted
use smart_quant.Md.OrderBook.Resting.{resting}
use Steps.{Agrees, withdraw-Agrees, place-Agrees, entries-withdraw}

-- The levels agree with the orders that the book holds.
abbrev pub IsConsistent : OrderBook → Type 0
IsConsistent b = Agrees b b.entries

apply_new-IsConsistent :
    (b : OrderBook) (ev : LobEvent)
    → IsConsistent b
    → (pos 0 <ℤ ev.qty → Hash.find ev.entry_id b.entries ≡ none)
    → IsConsistent (apply_new b ev).0
unfolding apply_new
apply_new-IsConsistent b ev h fresh = elim (Bool-cases (leb_ℤ ev.qty (pos 0))) [
  | inl t ↦ rw t h
  | inr f ↦
      let q : pos 0 <ℤ ev.qty = ground arith in
      rw f (place-Agrees b ev (subst (Agrees b) (sym (Hash.erase_missing _ _ (fresh q))) h) q)
]

apply_change-IsConsistent :
    (b : OrderBook) (ev : LobEvent) → IsConsistent b → IsConsistent (apply_change b ev).0
unfolding apply_change
apply_change-IsConsistent b ev h = elim (Bool-cases (ltb_ℤ (pos 0) ev.qty)) [
  | inl t ↦ rw t (place-Agrees rest ev (rw kept removed) (ground arith))
  | inr f ↦ rw f (
      rw kept (record {
        bids = removed.bids;
        asks = removed.asks;
        distinct = removed.distinct;
        qtys = removed.qtys;
      }))
]
  where
    rest : OrderBook
    rest = withdraw b (Hash.find ev.entry_id b.entries)

    kept : rest.entries ≡ b.entries
    kept = entries-withdraw b (Hash.find ev.entry_id b.entries)

    removed : Agrees rest (Hash.erase ev.entry_id b.entries)
    removed = withdraw-Agrees b b.entries ev.entry_id _ h refl

apply_delete-IsConsistent :
    (b : OrderBook) (ev : LobEvent) → IsConsistent b → IsConsistent (apply_delete b ev).0
unfolding apply_delete
apply_delete-IsConsistent b ev h = elim (Option-cases (Hash.find ev.entry_id b.entries)) [
  | inl q ↦ rw (q, apply_delete) h
  | inr (e, q) ↦
      let removed : Agrees (withdraw b (some e)) (Hash.erase ev.entry_id b.entries) =
        withdraw-Agrees b b.entries ev.entry_id (some e) h q in
      rw (q, apply_delete)
        (rw (entries-withdraw b (some e)) (record {
          bids = removed.bids;
          asks = removed.asks;
          distinct = removed.distinct;
          qtys = removed.qtys;
        }))
]

apply-IsConsistent :
    (b : OrderBook) (ev : LobEvent) (a : MdUpdateAction)
    → IsConsistent b
    → (a ≡ new → pos 0 <ℤ ev.qty → Hash.find ev.entry_id b.entries ≡ none)
    → IsConsistent (apply b (record ev { action = a })).0
unfolding apply
apply-IsConsistent b ev new h fresh =
    apply_new-IsConsistent b (record ev { action = new }) h (fresh refl)
apply-IsConsistent b ev change h fresh =
    apply_change-IsConsistent b (record ev { action = change }) h
apply-IsConsistent b ev delete h fresh =
    apply_delete-IsConsistent b (record ev { action = delete }) h

-- In a book whose levels agree with its live orders, applying an event keeps them in agreement on
-- every branch, if a New event with a quantity comes under an id that is not live.
pub update-IsConsistent :
    (b : OrderBook) (ev : LobEvent)
    → IsConsistent b
    → IsFresh b.entries ev
    → IsConsistent (update b ev).book
unfolding update
update-IsConsistent b ev h fresh = apply-IsConsistent b ev ev.action h fresh

pub clear-IsConsistent : (b : OrderBook) → IsConsistent (clear b)
unfolding clear resting Sorted.find
clear-IsConsistent b = record {
  bids = record { sorted = tt; filled = tt; total = λ p. refl };
  asks = record { sorted = tt; filled = tt; total = λ p. refl };
  distinct = tt;
  qtys = tt;
}

pub run-IsConsistent :
    (b : OrderBook) (evs : List LobEvent)
    → IsConsistent b
    → AllFresh b.entries evs
    → IsConsistent (run b evs)
unfolding run
run-IsConsistent b [] h fresh = h
run-IsConsistent b (ev ∷ evs) h (f, fs) =
    run-IsConsistent (update b ev).book evs (update-IsConsistent b ev h f)
      (rw (entries-update b ev) fs)
