-- ===== src/Md/OrderBook/Quantity.antt =====
-- The quantities that the levels of src/md/order_book.cpp show.
use smart_quant.Prelude.{◌&&◌, List, [], ◌∷◌, arith, inl, inr, sym, Bool-cases, subst, ◌^◌, All}
use smart_quant.Prelude.Int.{ℤ, pos, ◌+ℤ◌, ◌<ℤ◌, ◌≤ℤ◌, ◌==ℤ◌, int_laws, IsInt64, one_part}
use smart_quant.Prelude.Eq.{nat_eq}
use smart_quant.Types.{Price, LobEvent, MdEntryType, bid, offer}
use smart_quant.Md.OrderBook.{Entries, OrderBook, bid_qty_at, ask_qty_at, update}
use smart_quant.Md.OrderBook.Resting.{resting, HasQty, same_side, resting-nonneg}
use smart_quant.Md.OrderBook.Live.{AllFresh, live_step, entries-update}
use smart_quant.Md.OrderBook.Consistent.{IsConsistent, update-IsConsistent}
use smart_quant.Md.OrderBook.TopOfBook.{IsConsistent-Shows}

abbrev pub total_qty : Entries → ℤ
total_qty [] = pos 0
total_qty ((k, e) ∷ m) = e.qty +ℤ total_qty m

-- The quantities shown at a price are `int64_t`, and not negative.
abbrev pub InRange : Price → OrderBook → Type 0
InRange p b =
    IsInt64 (bid_qty_at b p)
    × IsInt64 (ask_qty_at b p)
    × (pos 0 ≤ℤ bid_qty_at b p)
    × (pos 0 ≤ℤ ask_qty_at b p)

-- A property of the book at the start and after each event.
abbrev pub Always : (OrderBook → Type 0) → OrderBook → List LobEvent → Type 0
Always P b [] = P b
Always P b (ev ∷ evs) = P b × Always P (update b ev).book evs

-- All live orders together fit at the start and after each event.
abbrev pub AlwaysFits : Entries → List LobEvent → Type 0
AlwaysFits es [] = total_qty es <ℤ pos (2 ^ 63)
AlwaysFits es (ev ∷ evs) = (total_qty es <ℤ pos (2 ^ 63)) × AlwaysFits (live_step es ev) evs

pub resting-le-total :
    (s : MdEntryType) (p : Price) (m : Entries) → All HasQty m → resting s p m ≤ℤ total_qty m
unfolding resting
resting-le-total s p [] h = omega arith
resting-le-total s p ((k, e) ∷ m) (h, hs) =
    elim (Bool-cases (same_side e.side s && (e.price ==ℤ p))) [
      | inl t ↦ rw t (omega (int_laws, resting-le-total s p m hs))
      | inr f ↦ rw f (omega (int_laws, resting-le-total s p m hs))
    ]

pub level-IsInt64 :
    (s : MdEntryType) (p : Price) (m : Entries)
    → All HasQty m
    → total_qty m <ℤ pos (2 ^ 63)
    → IsInt64 (resting s p m)
level-IsInt64 s p m h fits = omega (
  int_laws,
  resting-le-total s p m h,
  resting-nonneg s p m h,
  one_part (resting s p m),
  one_part (total_qty m),
)

now-IsInt64 :
    (b : OrderBook) (p : Price) → IsConsistent b → total_qty b.entries <ℤ pos (2 ^ 63) → InRange p b
now-IsInt64 b p h fits =
    let shown = IsConsistent-Shows b h in
    (
      rw (shown.bid_qty p) (level-IsInt64 bid p b.entries h.qtys fits),
      rw (shown.ask_qty p) (level-IsInt64 offer p b.entries h.qtys fits),
      rw (shown.bid_qty p) (resting-nonneg bid p b.entries h.qtys),
      rw (shown.ask_qty p) (resting-nonneg offer p b.entries h.qtys),
    )

-- From a consistent book and over a stream of events with fresh New ids, if the quantities of all live
-- orders together are below 2^63 at the start and after each event, then at the start and after each
-- event the quantity of every price of both sides is an `int64_t`, and not negative.
pub qty_at-IsInt64 :
    (b : OrderBook) (evs : List LobEvent) (p : Price)
    → IsConsistent b
    → AllFresh b.entries evs
    → AlwaysFits b.entries evs
    → Always (InRange p) b evs
qty_at-IsInt64 b [] p h fresh fits = now-IsInt64 b p h fits
qty_at-IsInt64 b (ev ∷ evs) p h (fresh, all_fresh) (now, later) = (
  now-IsInt64 b p h now,
  qty_at-IsInt64 (update b ev).book evs p (update-IsConsistent b ev h fresh)
      (subst (λ es. AllFresh es evs) (sym (entries-update b ev)) all_fresh)
      (subst (λ es. AlwaysFits es evs) (sym (entries-update b ev)) later),
)
