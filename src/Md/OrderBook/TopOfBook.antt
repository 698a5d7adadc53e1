-- ===== src/Md/OrderBook/TopOfBook.antt =====
-- What a client of src/md/order_book.cpp sees, against the table of live orders.
use smart_quant.Prelude.{ℕ, ◌≡◌, refl, ◌∙◌, ap, Bool, not, ◌||◌, List, subst}
use smart_quant.Prelude.Int.{◌==ℤ◌}
use smart_quant.Prelude.Eq.{nat_eq}
use smart_quant.Prelude.Map.Hash
use smart_quant.Types.{Price, LobEvent, bid, offer}
use smart_quant.Md.OrderBook.{
  Entries, OrderBook, or_zero, best_bid, best_ask, bid_qty_at, ask_qty_at, update, run,
  lookup_entry,
}
use smart_quant.Md.OrderBook.Resting.{resting}
use smart_quant.Md.OrderBook.Best.{
  above, below, above-IsOrder, below-IsOrder, best_price, IsBest-unique, best_price-IsBest,
}
use smart_quant.Md.OrderBook.Levels.{last_key?-IsBest, first_key?-IsBest}
use smart_quant.Md.OrderBook.Live.{IsFresh, AllFresh, live_step, live, entries-update, entries-run}
use smart_quant.Md.OrderBook.Consistent.{IsConsistent, update-IsConsistent, run-IsConsistent}

-- The top of the book, by a scan of the live orders: 0 where there is none.
unfoldable pub top_bid : Entries → Price
top_bid es = or_zero (best_price above bid es)

unfoldable pub top_ask : Entries → Price
top_ask es = or_zero (best_price below offer es)

best_bid-top : (b : OrderBook) → IsConsistent b → best_bid b ≡ top_bid b.entries
unfolding best_bid top_bid
best_bid-top b h = ap or_zero (
    IsBest-unique above bid b.entries _ _ above-IsOrder (last_key?-IsBest _ h.bids refl)
      (best_price-IsBest above bid b.entries above-IsOrder h.qtys))

best_ask-top : (b : OrderBook) → IsConsistent b → best_ask b ≡ top_ask b.entries
unfolding best_ask top_ask
best_ask-top b h = ap or_zero (
    IsBest-unique below offer b.entries _ _ below-IsOrder (first_key?-IsBest _ h.asks refl)
      (best_price-IsBest below offer b.entries below-IsOrder h.qtys))

-- What all queries of a book say, by the live orders alone.
pub record Shows (b : OrderBook) (es : Entries) : Type 0 where
  pub bid_price : best_bid b ≡ top_bid es
  pub ask_price : best_ask b ≡ top_ask es
  pub bid_qty : (p : Price) → bid_qty_at b p ≡ resting bid p es
  pub ask_qty : (p : Price) → ask_qty_at b p ≡ resting offer p es
  pub orders : (id : ℕ) → lookup_entry b id ≡ Hash.find id es

pub IsConsistent-Shows : (b : OrderBook) → IsConsistent b → Shows b b.entries
unfolding bid_qty_at ask_qty_at lookup_entry
IsConsistent-Shows b h = record {
  bid_price = best_bid-top b h;
  ask_price = best_ask-top b h;
  bid_qty = h.bids.total;
  ask_qty = h.asks.total;
  orders = λ id. refl;
}

-- After any stream of events in which no New comes under a live id, started in a consistent book,
-- the best prices, the quantity at every price of both sides and every lookup are those of the
-- table of live orders, which is kept without any levels.
pub run_refines :
    (b : OrderBook) (evs : List LobEvent)
    → IsConsistent b
    → AllFresh b.entries evs
    → Shows (run b evs) (live b.entries evs)
run_refines b evs h fresh =
    subst (Shows (run b evs)) (entries-run b evs)
      (IsConsistent-Shows (run b evs) (run-IsConsistent b evs h fresh))

abbrev pub moved : Price → Price → Bool
moved p q = not (q ==ℤ p)

-- From a consistent book, `update` returns true exactly when the best bid or the best ask among the
-- live orders moves, for an event that is no New under a live id.
pub l1_changed-top :
    (b : OrderBook) (ev : LobEvent)
    → IsConsistent b
    → IsFresh b.entries ev
    → let es = live_step b.entries ev in
      (update b ev).l1_changed
      ≡ (moved (top_bid b.entries) (top_bid es) || moved (top_ask b.entries) (top_ask es))
unfolding update
l1_changed-top b ev h fresh =
    λ i. moved (best_bid-top b h i) (bid_after i) || moved (best_ask-top b h i) (ask_after i)
  where
    after : IsConsistent (update b ev).book
    after = update-IsConsistent b ev h fresh

    bid_after : best_bid (update b ev).book ≡ top_bid (live_step b.entries ev)
    bid_after = best_bid-top _ after ∙ ap top_bid (entries-update b ev)

    ask_after : best_ask (update b ev).book ≡ top_ask (live_step b.entries ev)
    ask_after = best_ask-top _ after ∙ ap top_ask (entries-update b ev)
