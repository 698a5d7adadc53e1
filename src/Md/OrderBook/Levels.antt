-- ===== src/Md/OrderBook/Levels.antt =====
-- The price levels of src/md/order_book.cpp against the live orders: `level_add` keeps one side's
-- map in step with them.
use smart_quant.Prelude.{
  ◌≡◌, refl, sym, ◌∙◌, ap, if◌then◌else◌, Option, none, some, [], ◌∷◌, arith, inl, inr, Bool-cases,
  Option-cases, some-cancel, All,
}
use smart_quant.Prelude.Int.{ℤ, pos, ◌+ℤ◌, ◌==ℤ◌, ==ℤ_iff, ◌≤ℤ◌, ◌<ℤ◌, leb_ℤ, eq_of_parts}
use smart_quant.Prelude.Eq.{nat_eq}
use smart_quant.Prelude.Map.Sorted
use smart_quant.Types.{Price, Qty, MdEntryType}
use smart_quant.Md.OrderBook.{Entries, Levels, level_add, qty_at}
use smart_quant.Md.OrderBook.Best.{above, below, IsBest}
use smart_quant.Md.OrderBook.Resting.{resting, HasQty, resting-nonneg}

abbrev pub IsLevel : Price × Qty → Type 0
IsLevel l = pos 0 <ℤ l.1

-- One side's levels are in order, hold no empty level, and show what rests at every price.
pub record Matches (s : MdEntryType) (m : Levels) (es : Entries) : Type 0 where
  pub sorted : Sorted.IsSorted m
  pub filled : All IsLevel m
  pub total : (p : Price) → qty_at p m ≡ resting s p es

insert-filled :
    (k v : ℤ) (m : Levels) → pos 0 <ℤ v → All IsLevel m → All IsLevel (Sorted.insert k v m)
unfolding Sorted.insert
insert-filled k v [] h hs = (h, tt)
insert-filled k v ((j, w) ∷ m) h hs = ground (arith, insert-filled k v m)

erase-filled : (k : ℤ) (m : Levels) → All IsLevel m → All IsLevel (Sorted.erase k m)
unfolding Sorted.erase
erase-filled k [] hs = tt
erase-filled k ((j, w) ∷ m) hs = ground (arith, erase-filled k m)

abbrev pub clamp : ℤ → ℤ
clamp x = if leb_ℤ x (pos 0) then pos 0 else x

pub qty_at-level_add :
    (m : Levels) (px p : Price) (d : Qty)
    → qty_at p (level_add m px d) ≡ (if px ==ℤ p then clamp (qty_at px m +ℤ d) else qty_at p m)
unfolding level_add
qty_at-level_add m px p d = elim (Bool-cases (leb_ℤ (qty_at px m +ℤ d) (pos 0))) [
  | inl t ↦ rw t (rw Sorted.find-erase (ground arith))
  | inr f ↦ rw f (rw Sorted.find-insert (ground arith))
]

level_add-IsSorted :
    (m : Levels) (px : Price) (d : Qty) → Sorted.IsSorted m → Sorted.IsSorted (level_add m px d)
unfolding level_add
level_add-IsSorted m px d h = elim (Bool-cases (leb_ℤ (qty_at px m +ℤ d) (pos 0))) [
  | inl t ↦ rw t (Sorted.erase-IsSorted px m h)
  | inr f ↦ rw f (Sorted.insert-IsSorted px _ m h)
]

level_add-filled :
    (m : Levels) (px : Price) (d : Qty) → All IsLevel m → All IsLevel (level_add m px d)
unfolding level_add
level_add-filled m px d h = elim (Bool-cases (leb_ℤ (qty_at px m +ℤ d) (pos 0))) [
  | inl t ↦ rw t (erase-filled px m h)
  | inr f ↦ rw f (insert-filled px _ m (ground arith) h)
]

clamp_of_nonneg : (x y : ℤ) → x ≡ y → pos 0 ≤ℤ y → clamp x ≡ y
clamp_of_nonneg x y e h = rw e (ground (arith, eq_of_parts (pos 0) y))

-- A change of one level that the orders make too.
pub level_add-Matches :
    (s : MdEntryType) (m : Levels) (es es' : Entries) (px : Price) (d : Qty)
    → Matches s m es
    → All HasQty es'
    → ((p : Price) → resting s p es' ≡ (if px ==ℤ p then resting s p es +ℤ d else resting s p es))
    → Matches s (level_add m px d) es'
level_add-Matches s m es es' px d h hs same = record {
  sorted = level_add-IsSorted m px d h.sorted;
  filled = level_add-filled m px d h.filled;
  total = λ p. qty_at-level_add m px p d ∙ at_price p;
}
  where
    at_price :
        (p : Price) → (if px ==ℤ p then clamp (qty_at px m +ℤ d) else qty_at p m) ≡ resting s p es'
    at_price p = elim (Bool-cases (px ==ℤ p)) [
      | inl t ↦
          let moved : qty_at px m +ℤ d ≡ resting s p es' =
            ap (λ x. x +ℤ d) (h.total px)
            ∙ ap (λ i. resting s i es +ℤ d) ((==ℤ_iff px p).0 t)
            ∙ sym (rw t at (same p)) in
          rw t
            (clamp_of_nonneg (qty_at px m +ℤ d) (resting s p es') moved (resting-nonneg s p es' hs))
      | inr f ↦ rw f (h.total p ∙ sym (rw f at (same p)))
    ]

find-filled :
    (p : Price) (m : Levels) {v : Qty} → All IsLevel m → Sorted.find p m ≡ some v → pos 0 <ℤ v
unfolding Sorted.find
find-filled p [] h q = absurd (cc)
find-filled p ((j, w) ∷ m) {v} h q = ground (arith, find-filled p m {v = v})

find_of_qty :
    (p : Price) (m : Levels) → pos 0 <ℤ qty_at p m → (v : Qty) × (Sorted.find p m ≡ some v)
find_of_qty p m h = elim (Option-cases (Sorted.find p m)) [
  | inl q ↦ let z : pos 0 <ℤ pos 0 = rw q at h in absurd (omega arith)
  | inr f ↦ f
]

last_key?-nil : (m : Levels) → Sorted.last_key? m ≡ none → m ≡ []
unfolding Sorted.last_key?
last_key?-nil [] h = refl
last_key?-nil (x ∷ []) h = absurd (cc)
last_key?-nil (_ ∷ x ∷ m) h = let q = last_key?-nil (x ∷ m) h in absurd (cc)

first_key?-nil : (m : Levels) → Sorted.first_key? m ≡ none → m ≡ []
unfolding Sorted.first_key?
first_key?-nil [] h = refl
first_key?-nil (x ∷ m) h = absurd (cc)

nil-resting :
    {s : MdEntryType} {m : Levels} {es : Entries}
    → Matches s m es
    → m ≡ []
    → (p : Price) → resting s p es ≡ pos 0
unfolding Sorted.find
nil-resting h q p = sym (h.total p) ∙ ap (qty_at p) q

key-resting :
    {s : MdEntryType} {m : Levels} {es : Entries} (j : Price) (v : Qty)
    → Matches s m es
    → Sorted.find j m ≡ some v
    → pos 0 <ℤ resting s j es
key-resting {m = m} j v h q = rw (← h.total j, q) (find-filled j m h.filled q)

resting-find :
    {s : MdEntryType} {m : Levels} {es : Entries} (p : Price)
    → Matches s m es
    → pos 0 <ℤ resting s p es
    → (v : Qty) × (Sorted.find p m ≡ some v)
resting-find {m = m} p h r = find_of_qty p m (rw h.total r)

-- The last key of a side's levels is its highest price with something resting.
pub last_key?-IsBest :
    {s : MdEntryType} {m : Levels} {es : Entries} (o : Option Price)
    → Matches s m es
    → Sorted.last_key? m ≡ o
    → IsBest above s es o
last_key?-IsBest {m = m} none h q = nil-resting h (last_key?-nil m q)
last_key?-IsBest {m = m} (some j) h q =
    let (v, f) = Sorted.last_key?-find m q in
    (
      key-resting j v h f,
      λ p r.
          let (w, g) = resting-find p h r in
          let (i, q', le) = Sorted.last_key?-max m p h.sorted g in
          let same : i ≡ j = some-cancel (sym q' ∙ q) in rw (← same) (ground arith),
    )

-- The first key is the lowest one.
pub first_key?-IsBest :
    {s : MdEntryType} {m : Levels} {es : Entries} (o : Option Price)
    → Matches s m es
    → Sorted.first_key? m ≡ o
    → IsBest below s es o
first_key?-IsBest {m = m} none h q = nil-resting h (first_key?-nil m q)
first_key?-IsBest {m = m} (some j) h q =
    let (v, f) = Sorted.first_key?-find m q in
    (
      key-resting j v h f,
      λ p r.
          let (w, g) = resting-find p h r in
          let (i, q', le) = Sorted.first_key?-min m p h.sorted g in
          let same : i ≡ j = some-cancel (sym q' ∙ q) in rw (← same) (ground arith),
    )
