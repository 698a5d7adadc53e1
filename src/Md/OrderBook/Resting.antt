-- ===== src/Md/OrderBook/Resting.antt =====
-- The abstract view of src/md/order_book.cpp: the live orders, and how much of them rests on a side
-- at a price.
use smart_quant.Prelude.{
  ℕ, ◌≡◌, refl, ap, Bool, true, false, ◌&&◌, if◌then◌else◌, none, some, [], ◌∷◌, arith, subst,
  some-cancel, ◌==◌, ==_iff, inl, inr, Bool-cases, All,
}
use smart_quant.Prelude.Int.{
  pos, ◌+ℤ◌, ◌==ℤ◌, ◌≤ℤ◌, ◌<ℤ◌, int_laws, eq_of_parts, pos_part, neg_part,
}
use smart_quant.Prelude.Eq.{nat_eq}
use smart_quant.Prelude.Map.Hash
use smart_quant.Types.{Price, Qty, MdEntryType, bid, offer, trade}
use smart_quant.Md.OrderBook.{EntryInfo, Entries}

abbrev pub same_side : MdEntryType → MdEntryType → Bool
same_side bid bid = true
same_side offer offer = true
same_side trade trade = true
same_side _ _ = false

-- What one order adds to side `s` at price `p`.
abbrev pub contribution : MdEntryType → Price → EntryInfo → Qty
contribution s p e = if same_side e.side s && (e.price ==ℤ p) then e.qty else pos 0

-- What all live orders together put on side `s` at price `p`.
unfoldable pub resting : MdEntryType → Price → Entries → Qty
resting s p [] = pos 0
resting s p ((k, e) ∷ m) = contribution s p e +ℤ resting s p m

abbrev pub HasQty : ℕ × EntryInfo → Type 0
HasQty x = pos 0 <ℤ x.1.qty

pub contribution-nonneg :
    (s : MdEntryType) (p : Price) (e : EntryInfo) → pos 0 <ℤ e.qty → pos 0 ≤ℤ contribution s p e
contribution-nonneg s p e h = elim (Bool-cases (same_side e.side s && (e.price ==ℤ p))) [
  | inl t ↦ rw t (omega arith)
  | inr f ↦ rw f (omega arith)
]

pub resting-nonneg :
    (s : MdEntryType) (p : Price) (m : Entries) → All HasQty m → pos 0 ≤ℤ resting s p m
unfolding resting
resting-nonneg s p [] h = omega arith
resting-nonneg s p ((k, e) ∷ m) (h, hs) =
    omega (int_laws, contribution-nonneg s p e h, resting-nonneg s p m hs)

-- An order that is found accounts for its part of the sum.
pub resting-erase :
    (s : MdEntryType) (p : Price) (k : ℕ) (m : Entries) (e : EntryInfo)
    → Hash.IsMap m
    → Hash.find k m ≡ some e
    → resting s p m ≡ contribution s p e +ℤ resting s p (Hash.erase k m)
unfolding resting Hash.find Hash.erase
resting-erase s p k [] e h q = absurd (cc)
resting-erase s p k ((j, x) ∷ m) e (hj, hm) q = elim (Bool-cases (j == k)) [
  | inl t ↦
      let same : x ≡ e = some-cancel (rw t at q) in
      let gone : Hash.erase k m ≡ m =
        Hash.erase_missing k m (subst (λ i. Hash.find i m ≡ none) ((==_iff j k).0 t) hj) in
      rw t (rw (gone, same) refl)
  | inr f ↦
      let rec = resting-erase s p k m e hm (rw f at q) in
      rw f (eq_of_parts _ _ (omega (int_laws, ap pos_part rec, ap neg_part rec)))
]
