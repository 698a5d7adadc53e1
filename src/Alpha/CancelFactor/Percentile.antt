-- ===== src/Alpha/CancelFactor/Percentile.antt =====
-- What the dynamic threshold of src/alpha/cancel_factor.cpp says of the scores.
use smart_quant.Prelude.{
  ℕ, zero, suc, ◌<◌, ◌≤◌, ◌≡◌, refl, sym, ap, ◌∙◌, true, false, ◌⊎◌, inl, inr, if◌then◌else◌, arith,
  List, [], ◌∷◌, length, get_or, Bool-cases, All,
}
use smart_quant.Prelude.Int.{pos, pos_part}
use smart_quant.Prelude.Double.{Double}
use smart_quant.Alpha.CancelFactor.{insert_sorted, sort, quantile}

-- The place, from the lowest, of the 95th percentile of `n + 1` scores.
abbrev pub rank : (F : Type 0) → ⦃d : Double F⦄ → ℕ → ℕ
rank F ⦃d⦄ n = pos_part (d.to_int (d.mul (d.literal 95 100) (d.of_int (pos n))))

-- The laws of IEEE comparison for numbers, which a NaN breaks, and that rounding does not take the
-- place out of the list.
pub record ScoreLaws (F : Type 0) ⦃d : Double F⦄ : Type 0 where
  pub irrefl : (x : F) → d.lt x x ≡ false
  pub trans : (x y z : F) → d.lt x y ≡ true → d.lt y z ≡ true → d.lt x z ≡ true
  pub cotrans : (x y z : F) → d.lt x z ≡ true → (d.lt x y ≡ true) ⊎ (d.lt y z ≡ true)
  pub rank_in : (n : ℕ) → rank F n ≤ n

module _ {F : Type 0} ⦃d : Double F⦄ where
  abbrev pub count_below : F → List F → ℕ
  count_below z [] = 0
  count_below z (x ∷ xs) = let rest = count_below z xs in if d.lt x z then suc rest else rest

  abbrev Sorted : List F → Type 0
  Sorted [] = Unit {0}
  Sorted (x ∷ xs) = All (λ w. d.lt w x ≡ false) xs × Sorted xs

  All-insert : (P : F → Type 0) (x : F) (xs : List F) → P x → All P xs → All P (insert_sorted x xs)
  All-insert P x [] p ps = (p, ps)
  All-insert P x (y ∷ ys) p (q, qs) = elim (Bool-cases (d.lt y x)) [
    | inl t ↦ rw t (q, All-insert P x ys p qs)
    | inr f ↦ rw f (p, (q, qs))
  ]

  not_above :
      (o : ScoreLaws F) (x y : F) (ys : List F)
      → d.lt y x ≡ false
      → All (λ w. d.lt w y ≡ false) ys
      → All (λ w. d.lt w x ≡ false) ys
  not_above o x y [] f ps = tt
  not_above o x y (w ∷ ws) f (p, ps) = (
    elim (Bool-cases (d.lt w x)) [
      | inl t ↦ elim (o.cotrans w y x t) [ inl a ↦ absurd (cc) | inr b ↦ absurd (cc) ]
      | inr g ↦ g
    ],
    not_above o x y ws f ps,
  )

  Sorted-insert : (o : ScoreLaws F) (x : F) (xs : List F) → Sorted xs → Sorted (insert_sorted x xs)
  Sorted-insert o x [] s = (tt, tt)
  Sorted-insert o x (y ∷ ys) (ps, s) = elim (Bool-cases (d.lt y x)) [
    | inl t ↦
        let later : d.lt x y ≡ false = (elim (Bool-cases (d.lt x y)) [
          | inl u ↦ let loop = o.trans x y x u t in let still = o.irrefl x in absurd (cc)
          | inr f ↦ f
        ]) in
        rw t (All-insert (λ w. d.lt w y ≡ false) x ys later ps, Sorted-insert o x ys s)
    | inr f ↦ rw f ((f, not_above o x y ys f ps), (ps, s))
  ]

  Sorted-sort : (o : ScoreLaws F) (xs : List F) → Sorted (sort xs)
  Sorted-sort o [] = tt
  Sorted-sort o (x ∷ xs) = Sorted-insert o x (sort xs) (Sorted-sort o xs)

  length-insert : (x : F) (xs : List F) → length (insert_sorted x xs) ≡ suc (length xs)
  length-insert x [] = refl
  length-insert x (y ∷ ys) = elim (Bool-cases (d.lt y x)) [
    | inl t ↦ rw t (ap suc (length-insert x ys))
    | inr f ↦ rw f refl
  ]

  length-sort : (xs : List F) → length (sort xs) ≡ length xs
  length-sort [] = refl
  length-sort (x ∷ xs) = length-insert x (sort xs) ∙ ap suc (length-sort xs)

  count_below-insert :
      (z x : F) (xs : List F) → count_below z (insert_sorted x xs) ≡ count_below z (x ∷ xs)
  count_below-insert z x [] = refl
  count_below-insert z x (y ∷ ys) = elim (Bool-cases (d.lt y x)) [
    | inl t ↦ let same = count_below-insert z x ys in rw t (ground arith)
    | inr f ↦ rw f refl
  ]

  count_below-sort : (z : F) (xs : List F) → count_below z (sort xs) ≡ count_below z xs
  count_below-sort z [] = refl
  count_below-sort z (x ∷ xs) =
      count_below-insert z x (sort xs)
      ∙ ap (λ n. if d.lt x z then suc n else n) (count_below-sort z xs)

  All-get_or :
      (P : F → Type 0) (xs : List F) (i : ℕ) (y : F) → All P xs → i < length xs → P (get_or xs i y)
  All-get_or P [] i y ps h = absurd (omega arith)
  All-get_or P (x ∷ xs) zero y (p, ps) h = p
  All-get_or P (x ∷ xs) (suc i) y (p, ps) h = All-get_or P xs i y ps (omega arith)

  -- What is above an element of a sorted list is above the elements before it.
  above_get_or :
      (o : ScoreLaws F) (z y : F) (xs : List F) (i : ℕ)
      → Sorted xs
      → i < length xs
      → d.lt (get_or xs i y) z ≡ true
      → i < count_below z xs
  above_get_or o z y [] i s h t = absurd (omega arith)
  above_get_or o z y (x ∷ xs) zero s h t = rw t (omega arith)
  above_get_or o z y (x ∷ xs) (suc i) (ps, s) h t =
      let rest = above_get_or o z y xs i s (omega arith) t in
      let low = All-get_or (λ w. d.lt w x ≡ false) xs i y ps (omega arith) in
      elim (o.cotrans (get_or xs i y) x z t) [ inl a ↦ absurd (cc) | inr b ↦ rw b (omega arith) ]

  -- Without scores the threshold is 2.0; otherwise what is above it is above more than `rank` of them.
  pub above_quantile :
      (o : ScoreLaws F) (z : F) (xs : List F)
      → d.lt (quantile xs) z ≡ true
      → ((xs ≡ []) × (d.lt (d.literal 2 1) z ≡ true))
        ⊎ ((n : ℕ) × (length xs ≡ suc n) × (rank F n < count_below z xs))
  above_quantile o z [] t = inl (refl, t)
  above_quantile o z (x ∷ xs) t =
      let n = length xs in
      inr (
        n,
        refl,
        rw (sym (count_below-sort z (x ∷ xs))) (
            above_get_or o z (d.literal 0 1) (sort (x ∷ xs)) (rank F n) (Sorted-sort o (x ∷ xs))
              (omega (arith, length-sort (x ∷ xs), o.rank_in n)) t),
      )
