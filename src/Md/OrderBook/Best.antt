-- ===== src/Md/OrderBook/Best.antt =====
-- The reference for the top of the book of src/md/order_book.cpp: a scan of the live orders for the
-- best price of a side, with no levels kept.
use smart_quant.Prelude.{
  ℕ, ◌≡◌, refl, ◌∙◌, ap, Bool, true, false, if◌then◌else◌, Option, none, some, [], ◌∷◌, arith, inl,
  inr, Bool-cases, All, ◌&&◌, ◌⊎◌,
}
use smart_quant.Prelude.Int.{
  pos, ◌+ℤ◌, ◌==ℤ◌, ==ℤ_refl, ==ℤ_iff, ◌<ℤ◌, ltb_ℤ, int_laws, eq_of_parts,
}
use smart_quant.Types.{Price, MdEntryType}
use smart_quant.Md.OrderBook.{EntryInfo, Entries}
use smart_quant.Md.OrderBook.Resting.{
  same_side, resting, HasQty, resting-nonneg, contribution-nonneg,
}

-- The order of prices on a side, best first.
abbrev pub above : Price → Price → Bool
above p q = ltb_ℤ q p

abbrev pub below : Price → Price → Bool
below p q = ltb_ℤ p q

-- An order of prices is total, and a better price than one not beaten is not beaten.
pub record IsOrder (better : Price → Price → Bool) : Type 0 where
  pub antisym : (p q : Price) → better p q ≡ false → better q p ≡ false → p ≡ q
  pub improve : (p q r : Price) → better p r ≡ false → better q r ≡ true → better p q ≡ false
  pub irrefl : (p : Price) → better p p ≡ false

pub above-IsOrder : IsOrder above
above-IsOrder = record {
  antisym = λ p q h k. ground (arith, eq_of_parts p q);
  improve = λ p q r h k. ground arith;
  irrefl = λ p. ground arith;
}

pub below-IsOrder : IsOrder below
below-IsOrder = record {
  antisym = λ p q h k. ground (arith, eq_of_parts p q);
  improve = λ p q r h k. ground arith;
  irrefl = λ p. ground arith;
}

-- What rests at a price comes from the first order or from the others.
resting-cons :
    (s : MdEntryType) (p : Price) (k : ℕ) (e : EntryInfo) (m : Entries)
    → pos 0 <ℤ resting s p ((k, e) ∷ m)
    → ((same_side e.side s ≡ true) × (e.price ≡ p)) ⊎ (pos 0 <ℤ resting s p m)
unfolding resting
resting-cons s p k e m h = elim (Bool-cases (same_side e.side s && (e.price ==ℤ p))) [
  | inl t ↦ inl (ground (arith, ==ℤ_iff e.price p))
  | inr f ↦ let h' : pos 0 <ℤ pos 0 +ℤ resting s p m = rw f at h in inr (omega int_laws)
]

-- Another order leaves at least what rests.
resting-cons_ge :
    (s : MdEntryType) (p : Price) (k : ℕ) (e : EntryInfo) (m : Entries)
    → pos 0 <ℤ e.qty
    → pos 0 <ℤ resting s p m
    → pos 0 <ℤ resting s p ((k, e) ∷ m)
unfolding resting
resting-cons_ge s p k e m h r = omega (int_laws, contribution-nonneg s p e h)

resting-cons_self :
    (s : MdEntryType) (k : ℕ) (e : EntryInfo) (m : Entries)
    → same_side e.side s ≡ true
    → pos 0 <ℤ e.qty
    → All HasQty m
    → pos 0 <ℤ resting s e.price ((k, e) ∷ m)
unfolding resting
resting-cons_self s k e m t h hs =
    rw (t, ==ℤ_refl e.price) (omega (int_laws, resting-nonneg s e.price m hs))

resting-cons_other :
    (s : MdEntryType) (p : Price) (k : ℕ) (e : EntryInfo) (m : Entries)
    → same_side e.side s ≡ false
    → resting s p ((k, e) ∷ m) ≡ resting s p m
unfolding resting
resting-cons_other s p k e m f = rw f (eq_of_parts _ _ (omega int_laws))

module _ (better : Price → Price → Bool) where
  abbrev pub pick : Bool → Price → Option Price → Option Price
  pick false p o = o
  pick true p none = some p
  pick true p (some q) = if better p q then some p else some q

  -- The best price among the orders of side `s`.
  unfoldable pub best_price : MdEntryType → Entries → Option Price
  best_price s [] = none
  best_price s ((k, e) ∷ m) = pick (same_side e.side s) e.price (best_price s m)

  -- Something rests at the price, and nothing rests at a better one.
  abbrev pub IsBest : MdEntryType → Entries → Option Price → Type 0
  IsBest s es none = (p : Price) → resting s p es ≡ pos 0
  IsBest s es (some j) =
      (pos 0 <ℤ resting s j es) × ((p : Price) → pos 0 <ℤ resting s p es → better p j ≡ false)

  pub IsBest-unique :
      (s : MdEntryType) (es : Entries) (o o' : Option Price)
      → IsOrder better
      → IsBest s es o
      → IsBest s es o'
      → o ≡ o'
  IsBest-unique s es none none ord h h' = refl
  IsBest-unique s es none (some j) ord h (r, _) =
      let q : pos 0 <ℤ pos 0 = rw (h j) at r in absurd (omega arith)
  IsBest-unique s es (some j) none ord (r, _) h' =
      let q : pos 0 <ℤ pos 0 = rw (h' j) at r in absurd (omega arith)
  IsBest-unique s es (some j) (some i) ord (r, h) (r', h') =
      ap some (ord.antisym j i (h' j r) (h i r'))

  IsBest-same :
      (s : MdEntryType) (es es' : Entries) (o : Option Price)
      → ((p : Price) → resting s p es' ≡ resting s p es)
      → IsBest s es o
      → IsBest s es' o
  IsBest-same s es es' none same h = λ p. same p ∙ h p
  IsBest-same s es es' (some j) same (r, h) = (rw (same j) r, λ p q. h p (rw (same p) at q))

  IsBest-cons :
      (s : MdEntryType) (k : ℕ) (e : EntryInfo) (m : Entries) (o : Option Price)
      → IsOrder better
      → same_side e.side s ≡ true
      → pos 0 <ℤ e.qty
      → All HasQty m
      → IsBest s m o
      → IsBest s ((k, e) ∷ m) (pick true e.price o)
  IsBest-cons s k e m none ord t h hs best = (
    resting-cons_self s k e m t h hs,
    λ p r. elim (resting-cons s p k e m r) [
      | inl (_, q) ↦ rw q (ord.irrefl p)
      | inr r' ↦ let z : pos 0 <ℤ pos 0 = rw (best p) at r' in absurd (omega arith)
    ],
  )
  IsBest-cons s k e m (some j) ord t h hs (r, best) = elim (Bool-cases (better e.price j)) [
    | inl b ↦ rw b (
      resting-cons_self s k e m t h hs,
      λ p r'. elim (resting-cons s p k e m r') [
        | inl (_, q) ↦ rw q (ord.irrefl p)
        | inr r'' ↦ ord.improve p e.price j (best p r'') b
      ],
    )
    | inr b ↦ rw b (
      resting-cons_ge s j k e m h r,
      λ p r'. elim (resting-cons s p k e m r') [ inl (_, q) ↦ rw (← q) b | inr r'' ↦ best p r'' ],
    )
  ]

  -- The scan finds the best price.
  pub best_price-IsBest :
      (s : MdEntryType) (es : Entries)
      → IsOrder better
      → All HasQty es
      → IsBest s es (best_price s es)
  unfolding best_price resting
  best_price-IsBest s [] ord hs = λ p. refl
  best_price-IsBest s ((k, e) ∷ m) ord (h, hs) = elim (Bool-cases (same_side e.side s)) [
    | inl t ↦ rw t (IsBest-cons s k e m _ ord t h hs (best_price-IsBest s m ord hs))
    | inr f ↦ rw f (
        IsBest-same s m ((k, e) ∷ m) _ (λ p. resting-cons_other s p k e m f)
          (best_price-IsBest s m ord hs))
  ]
