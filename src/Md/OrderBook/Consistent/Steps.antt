-- ===== src/Md/OrderBook/Consistent/Steps.antt =====
-- The two moves that the handlers of src/md/order_book.cpp are made of, taking an order off its
-- level and putting one on, against the live orders.
use smart_quant.Prelude.{
  ℕ, ◌≡◌, refl, sym, ◌∙◌, if◌then◌else◌, Option, none, some, ◌∷◌, inl, inr, Bool-cases, All, ◌&&◌,
  subst,
}
use smart_quant.Prelude.Int.{pos, ◌+ℤ◌, neg, ◌==ℤ◌, ◌<ℤ◌, int_laws, eq_of_parts}
use smart_quant.Prelude.Eq.{nat_eq}
use smart_quant.Prelude.Map.Hash
use smart_quant.Types.{Price, Qty, MdEntryType, LobEvent, bid, offer, trade}
use smart_quant.Md.OrderBook.{
  EntryInfo, Entries, Levels, OrderBook, side_add, place, withdraw, entry_of,
}
use smart_quant.Md.OrderBook.Resting.{same_side, contribution, resting, HasQty, resting-erase}
use smart_quant.Md.OrderBook.Levels.{Matches, level_add-Matches}

-- Both sides of a book show what rests of the orders `es`, whose ids are distinct.
pub record Agrees (b : OrderBook) (es : Entries) : Type 0 where
  pub bids : Matches bid b.bids es
  pub asks : Matches offer b.asks es
  pub distinct : Hash.IsMap es
  pub qtys : All HasQty es

-- The orders `es'` differ from `es` by `d` on side `sd` at price `px`.
abbrev Differ : MdEntryType → Price → Qty → Entries → Entries → Type 0
Differ sd px d es es' =
    (s : MdEntryType) (p : Price)
    → resting s p es'
      ≡ (if same_side sd s && (px ==ℤ p) then resting s p es +ℤ d else resting s p es)

Matches-same :
    {s : MdEntryType} {m : Levels} {es : Entries} (es' : Entries)
    → ((p : Price) → resting s p es' ≡ resting s p es)
    → Matches s m es
    → Matches s m es'
Matches-same es' same h = record {
  sorted = h.sorted;
  filled = h.filled;
  total = λ p. h.total p ∙ sym (same p);
}

side_add-Agrees :
    (b : OrderBook) (es es' : Entries) (sd : MdEntryType) (px : Price) (d : Qty)
    → Agrees b es
    → Hash.IsMap es'
    → All HasQty es'
    → Differ sd px d es es'
    → Agrees (side_add b sd px d) es'
unfolding side_add
side_add-Agrees b es es' bid px d h m q diff = record {
  bids = level_add-Matches bid b.bids es es' px d h.bids q (diff bid);
  asks = Matches-same es' (diff offer) h.asks;
  distinct = m;
  qtys = q;
}
side_add-Agrees b es es' offer px d h m q diff = record {
  bids = Matches-same es' (diff bid) h.bids;
  asks = level_add-Matches offer b.asks es es' px d h.asks q (diff offer);
  distinct = m;
  qtys = q;
}
side_add-Agrees b es es' trade px d h m q diff = record {
  bids = Matches-same es' (diff bid) h.bids;
  asks = Matches-same es' (diff offer) h.asks;
  distinct = m;
  qtys = q;
}

Differ-cons : (k : ℕ) (e : EntryInfo) (es : Entries) → Differ e.side e.price e.qty es ((k, e) ∷ es)
unfolding resting
Differ-cons k e es s p = elim (Bool-cases (same_side e.side s && (e.price ==ℤ p))) [
  | inl t ↦ rw t (eq_of_parts _ _ (omega int_laws))
  | inr f ↦ rw f (eq_of_parts _ _ (omega int_laws))
]

Differ-erase :
    (k : ℕ) (e : EntryInfo) (es : Entries)
    → Hash.IsMap es
    → Hash.find k es ≡ some e
    → Differ e.side e.price (neg e.qty) es (Hash.erase k es)
Differ-erase k e es m q s p = elim (Bool-cases (same_side e.side s && (e.price ==ℤ p))) [
  | inl t ↦ rw t (rw (whole, t) (eq_of_parts _ _ (omega int_laws)))
  | inr f ↦ rw f (rw (whole, f) (eq_of_parts _ _ (omega int_laws)))
]
  where
    whole : resting s p es ≡ contribution s p e +ℤ resting s p (Hash.erase k es)
    whole = resting-erase s p k es e m q

-- Withdrawing what is found under an id leaves the levels of the other orders.
pub withdraw-Agrees :
    (b : OrderBook) (es : Entries) (k : ℕ) (o : Option EntryInfo)
    → Agrees b es
    → Hash.find k es ≡ o
    → Agrees (withdraw b o) (Hash.erase k es)
unfolding withdraw
withdraw-Agrees b es k none h q = subst (Agrees b) (sym (Hash.erase_missing k es q)) h
withdraw-Agrees b es k (some e) h q =
    side_add-Agrees b es (Hash.erase k es) e.side e.price (neg e.qty) h
      (Hash.erase-IsMap k es h.distinct) (Hash.All-erase HasQty k es h.qtys)
      (Differ-erase k e es h.distinct q)

pub entries-side_add :
    (b : OrderBook) (sd : MdEntryType) (px : Price) (d : Qty)
    → (side_add b sd px d).entries ≡ b.entries
unfolding side_add
entries-side_add b bid px d = refl
entries-side_add b offer px d = refl
entries-side_add b trade px d = refl

pub entries-withdraw : (b : OrderBook) (o : Option EntryInfo) → (withdraw b o).entries ≡ b.entries
unfolding withdraw
entries-withdraw b none = refl
entries-withdraw b (some e) = entries-side_add b e.side e.price (neg e.qty)

-- Placing an order adds it to the levels of the others.
pub place-Agrees :
    (b : OrderBook) (ev : LobEvent)
    → Agrees b (Hash.erase ev.entry_id b.entries)
    → pos 0 <ℤ ev.qty
    → Agrees (place b ev) (place b ev).entries
unfolding place Hash.insert
place-Agrees b ev h q = rw (entries-side_add entered ev.side ev.price ev.qty) (
    side_add-Agrees entered others ((ev.entry_id, entry_of ev) ∷ others) ev.side ev.price ev.qty
      (record { bids = h.bids; asks = h.asks; distinct = h.distinct; qtys = h.qtys })
      (Hash.find-erase_self ev.entry_id b.entries, h.distinct) (q, h.qtys)
      (Differ-cons ev.entry_id (entry_of ev) others))
  where
    others : Entries
    others = Hash.erase ev.entry_id b.entries

    entered : OrderBook
    entered = record b { entries = Hash.insert ev.entry_id (entry_of ev) b.entries }
