-- ===== src/Md/OrderBook.antt =====
-- include/smartquant/md/order_book.hpp and src/md/order_book.cpp: the book of one instrument.
-- A callback is a consumer outside the class: the model keeps whether one is set, and `update`
-- returns the calls that it makes.
pub mod Resting
pub mod Levels
pub mod Consistent
pub mod Live
pub mod Best
pub mod TopOfBook
pub mod Quantity
pub mod Lifecycle
mod Tests
use smart_quant.Prelude.{
  ℕ, suc, ◌≡◌, Bool, true, false, not, ◌&&◌, ◌||◌, if◌then◌else◌, Option, none, some, List, [], ◌∷◌,
  length,
}
use smart_quant.Prelude.Int.{ℤ, pos, ◌+ℤ◌, ◌-ℤ◌, neg, ltb_ℤ, leb_ℤ, ◌==ℤ◌}
use smart_quant.Prelude.Eq.{nat_eq}
use smart_quant.Prelude.Map.Sorted
use smart_quant.Prelude.Map.Hash
use smart_quant.Types.{Price, Qty, MdEntryType, LobEvent, new, change, delete, bid, offer, trade}

-- What the book remembers about each live order.
pub record EntryInfo : Type 0 where
  pub side : MdEntryType
  pub price : Price
  pub qty : Qty

-- `std::map<Price, Qty>`, in ascending order of price.
abbrev pub Levels : Type 0
Levels = List (Price × Qty)

-- `std::unordered_map<uint64_t, EntryInfo>`
abbrev pub Entries : Type 0
Entries = List (ℕ × EntryInfo)

pub record OrderBook : Type 0 where
  pub bids : Levels
  pub asks : Levels
  pub entries : Entries
  pub on_trade : Bool
  pub on_cancel : Bool

pub data Call : Type 0 where
  trade_call cancel_call : LobEvent → Call

abbrev pub empty_book : OrderBook
empty_book = record { bids = []; asks = []; entries = []; on_trade = false; on_cancel = false }

pub set_trade_callback : OrderBook → OrderBook
set_trade_callback b = record b { on_trade = true }

pub set_cancel_callback : OrderBook → OrderBook
set_cancel_callback b = record b { on_cancel = true }

abbrev pub or_zero : Option ℤ → ℤ
or_zero none = pos 0
or_zero (some x) = x

unfoldable pub best_bid : OrderBook → Price
best_bid b = or_zero (Sorted.last_key? b.bids)

unfoldable pub best_ask : OrderBook → Price
best_ask b = or_zero (Sorted.first_key? b.asks)

unfoldable pub spread : OrderBook → Price
spread b =
    let best_b = best_bid b in
    let best_a = best_ask b in
    if ltb_ℤ (pos 0) best_b && ltb_ℤ (pos 0) best_a then best_a -ℤ best_b else pos 0

abbrev pub qty_at : Price → Levels → Qty
qty_at p levels = or_zero (Sorted.find p levels)

unfoldable pub bid_qty_at : OrderBook → Price → Qty
bid_qty_at b p = qty_at p b.bids

unfoldable pub ask_qty_at : OrderBook → Price → Qty
ask_qty_at b p = qty_at p b.asks

abbrev pub is_nil {ℓ} : {A : Type ℓ} → List A → Bool
is_nil [] = true
is_nil (_ ∷ _) = false

unfoldable pub empty : OrderBook → Bool
empty b = is_nil b.bids && is_nil b.asks

unfoldable pub bid_depth : OrderBook → ℕ
bid_depth b = length b.bids

unfoldable pub ask_depth : OrderBook → ℕ
ask_depth b = length b.asks

-- The out parameters are written only if the entry is found.
unfoldable pub lookup_entry : OrderBook → ℕ → Option EntryInfo
lookup_entry b id = Hash.find id b.entries

unfoldable pub clear : OrderBook → OrderBook
clear b = record b { bids = []; asks = []; entries = [] }

-- The lambda `level_add` of `update`; `book[px]` reads 0 for a level that is not there.
unfoldable pub level_add : Levels → Price → Qty → Levels
level_add book px delta =
    let slot = qty_at px book +ℤ delta in
    if leb_ℤ slot (pos 0) then Sorted.erase px book else Sorted.insert px slot book

-- `level_add` on the map of a side; a trade has none.
unfoldable pub side_add : OrderBook → MdEntryType → Price → Qty → OrderBook
side_add b bid px delta = record b { bids = level_add b.bids px delta }
side_add b offer px delta = record b { asks = level_add b.asks px delta }
side_add b trade px delta = b

abbrev pub entry_of : LobEvent → EntryInfo
entry_of ev = record { side = ev.side; price = ev.price; qty = ev.qty }

-- Enter the event's order under its id, and its quantity on its level.
unfoldable pub place : OrderBook → LobEvent → OrderBook
unfolding side_add
place b ev =
    side_add (record b { entries = Hash.insert ev.entry_id (entry_of ev) b.entries }) ev.side
      ev.price ev.qty

abbrev pub calls_on_trade : MdEntryType → OrderBook → LobEvent → List Call
calls_on_trade trade b ev = if b.on_trade then trade_call ev ∷ [] else []
calls_on_trade _ b ev = []

unfoldable pub apply_new : OrderBook → LobEvent → OrderBook × List Call
unfolding place
apply_new b ev = if leb_ℤ ev.qty (pos 0) then (b, []) else (place b ev, calls_on_trade ev.side b ev)

-- Take the quantity of an entry off its level.
unfoldable pub withdraw : OrderBook → Option EntryInfo → OrderBook
unfolding side_add
withdraw b none = b
withdraw b (some old) = side_add b old.side old.price (neg old.qty)

unfoldable pub apply_change : OrderBook → LobEvent → OrderBook × List Call
unfolding withdraw place
apply_change b ev =
    let b' = withdraw b (Hash.find ev.entry_id b.entries) in
    if ltb_ℤ (pos 0) ev.qty
    then (place b' ev, [])
    else (record b' { entries = Hash.erase ev.entry_id b'.entries }, [])

abbrev pub cancel_event : LobEvent → EntryInfo → LobEvent
cancel_event ev old = record ev { side = old.side; price = old.price; qty = old.qty }

unfoldable pub apply_delete : OrderBook → LobEvent → OrderBook × List Call
unfolding withdraw
apply_delete b ev = elim (Hash.find ev.entry_id b.entries) [
  | none ↦ (b, [])
  | some old ↦
      let b' = withdraw b (some old) in
      (
        record b' { entries = Hash.erase ev.entry_id b'.entries },
        if b.on_cancel then cancel_call (cancel_event ev old) ∷ [] else [],
      )
]

-- The switch of `update`.
unfoldable pub apply : OrderBook → LobEvent → OrderBook × List Call
unfolding apply_new apply_change apply_delete
apply b ev = elim ev.action [
  | new ↦ apply_new b ev
  | change ↦ apply_change b ev
  | delete ↦ apply_delete b ev
]

pub record Updated : Type 0 where
  pub book : OrderBook
  pub l1_changed : Bool
  pub calls : List Call

unfoldable pub update : OrderBook → LobEvent → Updated
unfolding apply
update b ev =
    let (b', calls) = apply b ev in
    record {
      book = b';
      l1_changed = not (best_bid b' ==ℤ best_bid b) || not (best_ask b' ==ℤ best_ask b);
      calls = calls;
    }

-- A stream of events, in order.
unfoldable pub run : OrderBook → List LobEvent → OrderBook
run b [] = b
run b (ev ∷ evs) = run (update b ev).book evs
