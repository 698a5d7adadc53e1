-- ===== src/Alpha/Buckets/Sums.antt =====
-- Which buckets the sums of src/alpha/delta_factor.cpp and src/alpha/cancel_factor.cpp run over.
use smart_quant.Prelude.{
  ℕ, zero, suc, ◌+◌, ◌≤◌, ◌<◌, ◌≡◌, refl, ap, ◌∙◌, ltb, if◌then◌else◌, arith, List, [], ◌∷◌, length,
  get_or, min,
}
use smart_quant.Prelude.Double.{Double}
use smart_quant.Alpha.Buckets.{Bucket, Buckets, bucket_at, bucket_before, recent}
use smart_quant.Alpha.Buckets.Ring.{Shows}

module _ {F : Type 0} ⦃d : Double F⦄ where
  -- The first `n` buckets up to the first that starts before `cutoff`.
  abbrev pub within : ℕ → ℕ → List (Bucket F) → List (Bucket F)
  within cutoff zero xs = []
  within cutoff (suc n) [] = []
  within cutoff (suc n) (x ∷ xs) =
      let rest = within cutoff n xs in if ltb x.ts_ns cutoff then [] else x ∷ rest

  recent-suffix :
      (slots cutoff : ℕ) (b : Buckets F) (n i : ℕ) (ys : List (Bucket F))
      → ((j : ℕ) → j < n → bucket_before slots b (i + j) ≡ get_or ys j (bucket_at 0))
      → n ≤ length ys
      → recent slots cutoff b n i ≡ within cutoff n ys
  unfolding recent
  recent-suffix slots cutoff b zero i ys h le = refl
  recent-suffix slots cutoff b (suc n) i [] h le = absurd (omega arith)
  recent-suffix slots cutoff b (suc n) i (y ∷ ys) h le =
      let front : bucket_before slots b i ≡ y =
        (let same : i + 0 ≡ i = omega arith in rw same at (h 0 (omega arith))) in
      let rest =
        recent-suffix slots cutoff b n (i + 1) ys
          (λ j lt. ap (bucket_before slots b) (omega arith) ∙ h (suc j) (omega arith))
          (omega arith) in
      rw front (rw rest refl)

  within-min :
      (cutoff n : ℕ) (xs : List (Bucket F))
      → within cutoff (min (length xs) n) xs ≡ within cutoff n xs
  within-min cutoff zero [] = refl
  within-min cutoff zero (x ∷ xs) =
      let none_left : min (suc (length xs)) 0 ≡ 0 = omega arith in rw none_left refl
  within-min cutoff (suc n) [] =
      let none_left : min 0 (suc n) ≡ 0 = omega arith in rw none_left refl
  within-min cutoff (suc n) (x ∷ xs) =
      let next : min (suc (length xs)) (suc n) ≡ suc (min (length xs) n) = omega arith in
      rw next (rw (within-min cutoff n xs) refl)

  -- The sums of the ring run over the newest buckets of all.
  pub recent-within :
      (slots cutoff : ℕ) (b : Buckets F) (xs : List (Bucket F))
      → Shows slots b xs
      → recent slots cutoff b b.count 0 ≡ within cutoff slots xs
  recent-within slots cutoff b xs s =
      recent-suffix slots cutoff b b.count 0 xs
        (λ j lt. ap (bucket_before slots b) (omega arith) ∙ s.shown j lt) (omega (arith, s.counted))
      ∙ ap (λ n. within cutoff n xs) s.counted
      ∙ within-min cutoff slots xs
