-- ===== src/Md/OrderBook/Live.antt =====
-- The specification of src/md/order_book.cpp: the table of live orders alone, with no levels.
use smart_quant.Prelude.{
  ◌≡◌, refl, sym, ◌∙◌, ap, true, false, if◌then◌else◌, none, some, List, [], ◌∷◌, arith, inl, inr,
  Bool-cases, Option-cases,
}
use smart_quant.Prelude.Int.{pos, ◌<ℤ◌, leb_ℤ, ltb_ℤ}
use smart_quant.Prelude.Eq.{nat_eq}
use smart_quant.Prelude.Map.Hash
use smart_quant.Types.{LobEvent, MdUpdateAction, new, change, delete}
use smart_quant.Md.OrderBook.{
  Entries, OrderBook, place, withdraw, apply_new, apply_change, apply_delete, apply, update, run,
  entry_of,
}
use smart_quant.Md.OrderBook.Consistent.Steps.{entries-side_add, entries-withdraw}

-- What an event does to the table.
live_action : MdUpdateAction → LobEvent → Entries → Entries
live_action new ev es =
    if ltb_ℤ (pos 0) ev.qty then Hash.insert ev.entry_id (entry_of ev) es else es
live_action change ev es =
    if ltb_ℤ (pos 0) ev.qty
    then Hash.insert ev.entry_id (entry_of ev) es
    else Hash.erase ev.entry_id es
live_action delete ev es = Hash.erase ev.entry_id es

unfoldable pub live_step : Entries → LobEvent → Entries
unfolding live_action
live_step es ev = live_action ev.action ev es

unfoldable pub live : Entries → List LobEvent → Entries
live es [] = es
live es (ev ∷ evs) = live (live_step es ev) evs

-- A New event with a quantity comes under an id that is not live.
abbrev pub IsFresh : Entries → LobEvent → Type 0
IsFresh es ev = ev.action ≡ new → pos 0 <ℤ ev.qty → Hash.find ev.entry_id es ≡ none

-- Each event of a stream is fresh when its turn comes.
abbrev pub AllFresh : Entries → List LobEvent → Type 0
AllFresh es [] = Unit {0}
AllFresh es (ev ∷ evs) = IsFresh es ev × AllFresh (live_step es ev) evs

pub entries-place :
    (b : OrderBook) (ev : LobEvent)
    → (place b ev).entries ≡ Hash.insert ev.entry_id (entry_of ev) b.entries
unfolding place
entries-place b ev = entries-side_add _ ev.side ev.price ev.qty

entries-apply :
    (b : OrderBook) (ev : LobEvent) (a : MdUpdateAction)
    → (apply b (record ev { action = a })).0.entries ≡ live_action a ev b.entries
unfolding apply apply_new apply_change live_action
entries-apply b ev new = elim (Bool-cases (leb_ℤ ev.qty (pos 0))) [
  | inl t ↦ let g : ltb_ℤ (pos 0) ev.qty ≡ false = ground arith in rw t (rw g refl)
  | inr f ↦
      let g : ltb_ℤ (pos 0) ev.qty ≡ true = ground arith in
      rw f (rw g (entries-place b (record ev { action = new })))
]
entries-apply b ev change = elim (Bool-cases (ltb_ℤ (pos 0) ev.qty)) [
  | inl t ↦ rw t (
      entries-place (withdraw b (Hash.find ev.entry_id b.entries)) (record ev { action = change })
      ∙ ap (Hash.insert ev.entry_id (entry_of ev)) (entries-withdraw b _))
  | inr f ↦ rw f (ap (Hash.erase ev.entry_id) (entries-withdraw b _))
]
entries-apply b ev delete = elim (Option-cases (Hash.find ev.entry_id b.entries)) [
  | inl q ↦ rw (q, apply_delete) (sym (Hash.erase_missing ev.entry_id b.entries q))
  | inr (e, q) ↦ rw (q, apply_delete) (ap (Hash.erase ev.entry_id) (entries-withdraw b (some e)))
]

-- The live orders of a book follow the table, whatever the book's levels hold.
pub entries-update :
    (b : OrderBook) (ev : LobEvent) → (update b ev).book.entries ≡ live_step b.entries ev
unfolding update live_step
entries-update b ev = entries-apply b ev ev.action

pub entries-run : (b : OrderBook) (evs : List LobEvent) → (run b evs).entries ≡ live b.entries evs
unfolding run live
entries-run b [] = refl
entries-run b (ev ∷ evs) =
    entries-run (update b ev).book evs ∙ ap (λ es. live es evs) (entries-update b ev)
