-- ===== src/Md/OrderBook/Tests.antt =====
-- Runs of src/md/order_book.cpp, and its theorems at concrete books.
use smart_quant.Prelude.{ℕ, ◌≡◌, refl, ap, true, false, ◌||◌, none, some, List, [], ◌∷◌, arith}
use smart_quant.Md.OrderBook.Quantity.{Always, AlwaysFits, InRange}
use smart_quant.Prelude.Int.{pos, ◌+ℤ◌, ◌-ℤ◌, neg, pos_part}
use smart_quant.Prelude.Eq.{nat_eq}
use smart_quant.Prelude.Map.Hash
use smart_quant.Prelude.Map.Sorted
use smart_quant.Types.{
  Price, LobEvent, MdUpdateAction, MdEntryType, new, change, delete, bid, offer,
}
use smart_quant.Md.OrderBook.{
  EntryInfo, OrderBook, empty_book, set_cancel_callback, best_bid, best_ask, bid_qty_at, ask_qty_at,
  spread, empty, bid_depth, ask_depth, lookup_entry, clear, level_add, update, run,
}
use smart_quant.Md.OrderBook.Resting.{resting}
use smart_quant.Md.OrderBook.Live.{AllFresh, live, live_step}
use smart_quant.Md.OrderBook.Consistent.{
  IsConsistent, update-IsConsistent, run-IsConsistent, clear-IsConsistent,
}
use smart_quant.Md.OrderBook.TopOfBook.{Shows, run_refines, l1_changed-top, top_bid, top_ask, moved}
use smart_quant.Md.OrderBook.Lifecycle.{delete_of, new_of, new-delete_undo, new_on_live_id}
use smart_quant.Md.OrderBook.Quantity.{qty_at-IsInt64}

abbrev event : ℕ → MdUpdateAction → MdEntryType → ℕ → ℕ → LobEvent
event id action side price qty = record {
  timestamp_ns = 1000;
  entry_id = id;
  price = pos price;
  qty = pos qty;
  action = action;
  side = side;
}

-- Two bids at one price, a lower bid, an offer.
abbrev opening : List LobEvent
opening =
    event 1 new bid 200_050 10
    ∷ event 2 new bid 200_050 5
    ∷ event 3 new bid 200_000 7
    ∷ event 4 new offer 200_060 4
    ∷ []

start : OrderBook
start = clear (set_cancel_callback empty_book)

start-IsConsistent : IsConsistent start
unfolding start
start-IsConsistent = clear-IsConsistent (set_cancel_callback empty_book)

open_book : OrderBook
unfolding start
open_book = run start opening

opening-AllFresh : AllFresh start.entries opening
unfolding start clear live_step Hash.find Hash.erase Hash.insert
opening-AllFresh = (λ _ _. refl, ((λ _ _. refl), ((λ _ _. refl), ((λ _ _. refl), tt))))

open_book-IsConsistent : IsConsistent open_book
unfolding open_book
open_book-IsConsistent = run-IsConsistent start opening start-IsConsistent opening-AllFresh

open_book_tops :
    (best_bid open_book ≡ pos 200_050)
    × (best_ask open_book ≡ pos 200_060)
    × (spread open_book ≡ pos 10)
    × (bid_qty_at open_book (pos 200_050) ≡ pos 15)
    × (ask_qty_at open_book (pos 200_050) ≡ pos 0)
    × (bid_depth open_book ≡ 2)
    × (ask_depth open_book ≡ 1)
    × (empty open_book ≡ false)
unfolding open_book run update clear level_add best_bid best_ask spread bid_qty_at ask_qty_at
    bid_depth ask_depth empty Sorted.find Sorted.insert Sorted.erase Sorted.first_key?
    Sorted.last_key? Hash.find Hash.erase Hash.insert ◌+ℤ◌ ◌-ℤ◌
open_book_tops = (refl, refl, refl, refl, refl, refl, refl, refl)

opening_fits : AlwaysFits start.entries opening
unfolding start clear live live_step Hash.find Hash.erase Hash.insert ◌+ℤ◌
opening_fits = (omega arith, (omega arith, (omega arith, (omega arith, omega arith))))

-- The best bid is raised: order 2 moves up.
abbrev raise : LobEvent
raise = event 2 change bid 200_055 8

update-IsConsistent_example : IsConsistent (update open_book raise).book
update-IsConsistent_example = update-IsConsistent open_book raise open_book-IsConsistent (λ e. cc)

run_refines_example : Shows (run start opening) (live start.entries opening)
run_refines_example = run_refines start opening start-IsConsistent opening-AllFresh

l1_changed-top_example : (update open_book raise).l1_changed ≡ (
    moved (top_bid open_book.entries) (top_bid (live_step open_book.entries raise))
    || moved (top_ask open_book.entries) (top_ask (live_step open_book.entries raise)))
l1_changed-top_example = l1_changed-top open_book raise open_book-IsConsistent (λ e. cc)

raise_reports : (update open_book raise).l1_changed ≡ true
unfolding open_book run update start clear level_add best_bid best_ask Sorted.find Sorted.insert
    Sorted.erase Sorted.first_key? Sorted.last_key? Hash.find Hash.erase Hash.insert ◌+ℤ◌ neg
raise_reports = refl

abbrev first_bid : EntryInfo
first_bid = record { side = bid; price = pos 200_050; qty = pos 10 }

first_is_live : lookup_entry open_book 1 ≡ some first_bid
unfolding lookup_entry open_book run update start clear Hash.find Hash.erase Hash.insert
first_is_live = refl

abbrev cancel : LobEvent
cancel = event 1 delete bid 0 0

abbrev passing : LobEvent
passing = event 9 new offer 200_055 3

none_is_nine : lookup_entry open_book 9 ≡ none
unfolding lookup_entry open_book run update start clear Hash.find Hash.erase Hash.insert
none_is_nine = refl

new-delete_undo_example :
    let b = run open_book (new_of passing ∷ delete_of passing ∷ []) in
    (best_bid b ≡ best_bid open_book)
    × (best_ask b ≡ best_ask open_book)
    × ((p : Price) → bid_qty_at b p ≡ bid_qty_at open_book p)
    × ((p : Price) → ask_qty_at b p ≡ ask_qty_at open_book p)
new-delete_undo_example =
    new-delete_undo open_book passing passing open_book-IsConsistent none_is_nine refl

qty_at-IsInt64_example : Always (InRange (pos 200_050)) start opening
qty_at-IsInt64_example =
    qty_at-IsInt64 start opening (pos 200_050) start-IsConsistent opening-AllFresh opening_fits

-- Order 1 is announced again, at another price.
abbrev again : LobEvent
again = event 1 new bid 200_040 10

new_on_live_id_example :
    let b = (update open_book (new_of again)).book in
    bid_qty_at b (pos 200_050) ≡ resting bid (pos 200_050) b.entries +ℤ pos 10
new_on_live_id_example =
    new_on_live_id open_book again first_bid open_book-IsConsistent first_is_live refl (omega arith)
      (λ e. absurd (omega (arith, ap pos_part e)))
