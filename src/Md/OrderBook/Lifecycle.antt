-- ===== src/Md/OrderBook/Lifecycle.antt =====
-- Single orders in src/md/order_book.cpp: cancels, orders that come and go, and a New under an id
-- that is live.
use smart_quant.Prelude.{
  ◌≡◌, ◌≢◌, refl, sym, ◌∙◌, false, if◌then◌else◌, none, some, [], ◌∷◌, arith, inl, inr, Bool-cases,
  subst,
}
use smart_quant.Prelude.Int.{
  pos, ◌+ℤ◌, ◌<ℤ◌, leb_ℤ, ltb_ℤ, ◌==ℤ◌, ==ℤ_refl, ==ℤ_iff, int_laws, eq_of_parts,
}
use smart_quant.Prelude.Eq.{nat_eq}
use smart_quant.Prelude.Map.Hash
use smart_quant.Types.{Price, Qty, LobEvent, MdEntryType, new, delete, bid, offer, trade}
use smart_quant.Md.OrderBook.{
  EntryInfo, Entries, OrderBook, best_bid, best_ask, bid_qty_at, ask_qty_at, update, run, entry_of,
  lookup_entry, qty_at, apply, apply_delete, apply_new, place, cancel_event, cancel_call, side_add,
}
use smart_quant.Md.OrderBook.Resting.{resting, contribution, same_side, resting-erase}
use smart_quant.Md.OrderBook.Live.{live_step, live, entries-update, entries-place}
use smart_quant.Md.OrderBook.Consistent.{IsConsistent}
use smart_quant.Md.OrderBook.TopOfBook.{Shows, IsConsistent-Shows, run_refines}
use smart_quant.Md.OrderBook.Levels.{qty_at-level_add}

abbrev pub delete_of : LobEvent → LobEvent
delete_of ev = record ev { action = delete }

delete_missing :
    (b : OrderBook) (ev : LobEvent)
    → lookup_entry b ev.entry_id ≡ none
    → update b (delete_of ev) ≡ record { book = b; l1_changed = false; calls = [] }
unfolding update apply lookup_entry
delete_missing b ev q = rw (q, apply_delete) (rw (==ℤ_refl, ==ℤ_refl) refl)

lookup-delete :
    (b : OrderBook) (ev : LobEvent) → lookup_entry (update b (delete_of ev)).book ev.entry_id ≡ none
unfolding lookup_entry live_step
lookup-delete b ev =
    rw (entries-update b (delete_of ev)) (Hash.find-erase_self ev.entry_id b.entries)

calls-delete :
    (b : OrderBook) (ev : LobEvent) (old : EntryInfo)
    → lookup_entry b ev.entry_id ≡ some old
    → (update b (delete_of ev)).calls
      ≡ (if b.on_cancel then cancel_call (cancel_event (delete_of ev) old) ∷ [] else [])
unfolding update apply lookup_entry
calls-delete b ev old q = rw (q, apply_delete) refl

-- A Delete takes effect once. When an order was live under the id, the first Delete makes one call
-- of a cancel callback that is set, with the side, price and quantity that the book remembers; a
-- second Delete of that id, whatever else it carries, changes nothing, reports no change and calls
-- nothing.
pub delete_twice :
    (b : OrderBook) (ev ev' : LobEvent) (old : EntryInfo)
    → lookup_entry b ev.entry_id ≡ some old
    → ev'.entry_id ≡ ev.entry_id
    → let b' = (update b (delete_of ev)).book in
      ((update b (delete_of ev)).calls
        ≡ (if b.on_cancel then cancel_call (cancel_event (delete_of ev) old) ∷ [] else []))
      × (update b' (delete_of ev') ≡ record { book = b'; l1_changed = false; calls = [] })
delete_twice b ev ev' old q same =
    (calls-delete b ev old q, delete_missing _ ev' (rw same (lookup-delete b ev)))

abbrev pub new_of : LobEvent → LobEvent
new_of ev = record ev { action = new }

live-new-delete :
    (es : Entries) (ev ev' : LobEvent)
    → Hash.find ev.entry_id es ≡ none
    → ev'.entry_id ≡ ev.entry_id
    → live es (new_of ev ∷ delete_of ev' ∷ []) ≡ es
unfolding live live_step
live-new-delete es ev ev' q same = elim (Bool-cases (ltb_ℤ (pos 0) ev.qty)) [
  | inl t ↦ rw t (rw same (Hash.erase-insert ev.entry_id (entry_of ev) es q))
  | inr f ↦ rw f (rw same (Hash.erase_missing ev.entry_id es q))
]

-- An order that is entered and cancelled leaves no trace: from a consistent book, a New under an id
-- that is not live followed by a Delete of that id gives back the best prices and the quantities at
-- every price, whatever the two events carry.
pub new-delete_undo :
    (b : OrderBook) (ev ev' : LobEvent)
    → IsConsistent b
    → lookup_entry b ev.entry_id ≡ none
    → ev'.entry_id ≡ ev.entry_id
    → let b' = run b (new_of ev ∷ delete_of ev' ∷ []) in
      (best_bid b' ≡ best_bid b)
      × (best_ask b' ≡ best_ask b)
      × ((p : Price) → bid_qty_at b' p ≡ bid_qty_at b p)
      × ((p : Price) → ask_qty_at b' p ≡ ask_qty_at b p)
unfolding lookup_entry
new-delete_undo b ev ev' h q same = (
  later.bid_price ∙ sym now.bid_price,
  later.ask_price ∙ sym now.ask_price,
  λ p. later.bid_qty p ∙ sym (now.bid_qty p),
  λ p. later.ask_qty p ∙ sym (now.ask_qty p),
)
  where
    now : Shows b b.entries
    now = IsConsistent-Shows b h

    later : Shows (run b (new_of ev ∷ delete_of ev' ∷ [])) b.entries
    later =
        subst (Shows (run b (new_of ev ∷ delete_of ev' ∷ [])))
          (live-new-delete b.entries ev ev' q same)
          (run_refines b (new_of ev ∷ delete_of ev' ∷ []) h (λ _ _. q, ((λ e. cc), tt)))

bid_qty-side_add :
    (b : OrderBook) (sd : MdEntryType) (px p : Price) (d : Qty)
    → (px ==ℤ p) ≡ false
    → qty_at p (side_add b sd px d).bids ≡ qty_at p b.bids
unfolding side_add
bid_qty-side_add b bid px p d h = qty_at-level_add b.bids px p d ∙ rw h refl
bid_qty-side_add b offer px p d h = refl
bid_qty-side_add b trade px p d h = refl

contribution_other :
    (s : MdEntryType) (p : Price) (e : EntryInfo)
    → (e.price ==ℤ p) ≡ false
    → contribution s p e ≡ pos 0
contribution_other s p e h =
    rw h (elim (Bool-cases (same_side e.side s)) [ inl t ↦ rw t refl | inr f ↦ rw f refl ])

new-place :
    (b : OrderBook) (ev : LobEvent)
    → pos 0 <ℤ ev.qty
    → (update b (new_of ev)).book ≡ place b (new_of ev)
unfolding update apply apply_new
new-place b ev h = let f : leb_ℤ ev.qty (pos 0) ≡ false = ground arith in rw f refl

-- What rests at a price of the old order after its id is taken over at another price.
resting-take_over :
    (ev : LobEvent) (old : EntryInfo) (es : Entries)
    → Hash.IsMap es
    → Hash.find ev.entry_id es ≡ some old
    → old.side ≡ bid
    → (ev.price ==ℤ old.price) ≡ false
    → resting bid old.price es
      ≡ resting bid old.price (Hash.insert ev.entry_id (entry_of ev) es) +ℤ old.qty
unfolding resting Hash.insert
resting-take_over ev old es m q side other =
    resting-erase bid old.price ev.entry_id es old m q
    ∙ rw (own, none_of_ev) (eq_of_parts _ _ (omega int_laws))
  where
    own : contribution bid old.price old ≡ old.qty
    own = rw side (rw ==ℤ_refl refl)

    none_of_ev : contribution bid old.price (entry_of ev) ≡ pos 0
    none_of_ev = contribution_other bid old.price (entry_of ev) other

-- A New under an id that is live leaves the old order's quantity behind: on a consistent book, if
-- the id's order is a bid at another price than the event's, the bid level of that order shows its
-- quantity on top of all that rests there.
pub new_on_live_id :
    (b : OrderBook) (ev : LobEvent) (old : EntryInfo)
    → IsConsistent b
    → lookup_entry b ev.entry_id ≡ some old
    → old.side ≡ bid
    → pos 0 <ℤ ev.qty
    → old.price ≢ ev.price
    → let b' = (update b (new_of ev)).book in
      bid_qty_at b' old.price ≡ resting bid old.price b'.entries +ℤ old.qty
unfolding lookup_entry bid_qty_at place
new_on_live_id b ev old h q side positive other = rw (new-place b ev positive) (
    bid_qty-side_add _ ev.side ev.price old.price ev.qty apart
    ∙ h.bids.total old.price
    ∙ rw (entries-place b (new_of ev)) (resting-take_over ev old b.entries h.distinct q side apart))
  where
    apart : (ev.price ==ℤ old.price) ≡ false
    apart = ground (arith, ==ℤ_iff ev.price old.price)
