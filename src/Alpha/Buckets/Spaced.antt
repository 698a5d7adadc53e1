-- ===== src/Alpha/Buckets/Spaced.antt =====
-- That the ring of src/alpha/delta_factor.cpp and src/alpha/cancel_factor.cpp is long enough for a
-- window: its buckets start a step apart.
use smart_quant.Prelude.{
  ℕ, zero, suc, ◌+◌, ◌-◌, ◌*◌, ◌/◌, ◌%◌, ◌^◌, ◌<◌, ◌≤◌, ◌≡◌, refl, ap, ◌∙◌, true, ltb,
  if◌then◌else◌, arith, List, [], ◌∷◌, min, Bool-cases, inl, inr, lt→ltb,
}
use native.Mathlib.Nat.{suc-mul, mul-le-mul_right}
use smart_quant.Prelude.Word.{add_64, sub_64, sub_64_of_le}
use smart_quant.Prelude.Double.{Double}
use smart_quant.Alpha.Buckets.{Bucket, bucket_at, cutoff_of}
use smart_quant.Alpha.Buckets.Ring.{newer, timeline}
use smart_quant.Alpha.Buckets.Sums.{within}
use smart_quant.Alpha.Buckets.Time.{steps_taken}

module _ {F : Type 0} ⦃d : Double F⦄ where
  -- All buckets up to the first that starts before `cutoff`.
  abbrev pub since : ℕ → List (Bucket F) → List (Bucket F)
  since cutoff [] = []
  since cutoff (x ∷ xs) = let rest = since cutoff xs in if ltb x.ts_ns cutoff then [] else x ∷ rest

  abbrev pub start_of : List (Bucket F) → ℕ
  start_of [] = 0
  start_of (x ∷ _) = x.ts_ns

  -- The next older bucket starts a step before or earlier.
  abbrev Apart : ℕ → Bucket F → List (Bucket F) → Type 0
  Apart step x [] = Unit {0}
  Apart step x (y ∷ ys) = y.ts_ns + step ≤ x.ts_ns

  abbrev pub Spaced : ℕ → List (Bucket F) → Type 0
  Spaced step [] = Unit {0}
  Spaced step (x ∷ xs) = Apart step x xs × Spaced step xs

  -- The buckets are apart, and the current one ends before the clock wraps around.
  abbrev pub InTime : ℕ → List (Bucket F) → Type 0
  InTime step xs = Spaced step xs × (start_of xs + step < 2 ^ 64)

  within-none : (cutoff n : ℕ) → within {F = F} cutoff n [] ≡ []
  within-none cutoff zero = refl
  within-none cutoff (suc n) = refl

  within-since :
      (step cutoff n : ℕ) (x : Bucket F) (xs : List (Bucket F))
      → Spaced step (x ∷ xs)
      → x.ts_ns < cutoff + n * step
      → within cutoff n (x ∷ xs) ≡ since cutoff (x ∷ xs)
  within-since step cutoff zero x xs s h =
      let none_left : ltb x.ts_ns cutoff ≡ true = lt→ltb _ _ (omega arith) in rw none_left refl
  within-since step cutoff (suc n) x [] s h =
      ap (λ ys. if ltb x.ts_ns cutoff then [] else x ∷ ys) (within-none cutoff n)
  within-since step cutoff (suc n) x (y ∷ ys) (apart, s) h =
      ap (λ zs. if ltb x.ts_ns cutoff then [] else x ∷ zs)
        (within-since step cutoff n y ys s (omega (arith, suc-mul n step)))

  -- The first `n` buckets of the window are all of it, if it is shorter than `n` steps.
  pub within-whole :
      (step window_ns n : ℕ) (xs : List (Bucket F))
      → Spaced step xs
      → 0 < n
      → window_ns < n * step
      → let cutoff = cutoff_of window_ns (start_of xs) in within cutoff n xs ≡ since cutoff xs
  within-whole step window_ns n [] s p long = within-none (cutoff_of window_ns 0) n
  within-whole step window_ns n (x ∷ xs) s p long =
      within-since step (cutoff_of window_ns x.ts_ns) n x xs s (ground arith)

  -- A bucket may be rewritten in place.
  pub rewritten-InTime :
      (step : ℕ) (x y : Bucket F) (xs : List (Bucket F))
      → y.ts_ns ≡ x.ts_ns
      → InTime step (x ∷ xs)
      → InTime step (y ∷ xs)
  rewritten-InTime step x y [] e (s, ends) = ((tt, tt), omega arith)
  rewritten-InTime step x y (z ∷ zs) e ((apart, s), ends) = ((omega arith, s), omega arith)

  newer-Spaced :
      (step start n i : ℕ) (x : Bucket F) (xs : List (Bucket F))
      → Spaced step (x ∷ xs)
      → x.ts_ns ≡ start + i * step
      → start + (i + n) * step < 2 ^ 64
      → let ys = newer step start n i (x ∷ xs) in
        Spaced step ys × (start_of ys ≡ start + (i + n) * step)
  newer-Spaced step start zero i x xs s e fits = (s, e ∙ ap (λ j. start + j * step) (omega arith))
  newer-Spaced step start (suc n) i x xs s e fits =
      let below : (i + 1) * step ≤ (i + suc n) * step = mul-le-mul_right step (omega arith) in
      let next : add_64 start ((i + 1) * step % 2 ^ 64) ≡ start + (i + 1) * step =
        omega (arith, below, fits) in
      let (spaced, last) =
        newer-Spaced step start n (i + 1) (bucket_at (add_64 start ((i + 1) * step % 2 ^ 64)))
          (x ∷ xs) (omega (arith, next, e, suc-mul i step), s) next (omega (arith, fits)) in
      (spaced, last ∙ ap (λ j. start + j * step) (omega arith))

  later-InTime :
      (step most now_ns : ℕ) (x : Bucket F) (xs : List (Bucket F))
      → 0 < step
      → now_ns + step < 2 ^ 64
      → Spaced step (x ∷ xs)
      → x.ts_ns + step ≤ now_ns
      → InTime step (newer step x.ts_ns (min (sub_64 now_ns x.ts_ns / step) most) 0 (x ∷ xs))
  later-InTime step most now_ns x xs p fits s over =
      let reached = (steps_taken x.ts_ns step most now_ns p (omega arith)).0 in
      rw (sub_64_of_le now_ns x.ts_ns (omega arith) (omega arith)) (
        let n = min ((now_ns - x.ts_ns) / step) most in
        let all : 0 + n ≡ n = omega arith in
        let (spaced, last) =
          newer-Spaced step x.ts_ns n 0 x xs s (omega arith) (rw all (omega (arith, reached))) in
        (spaced, omega (arith, last, reached)))

  pub timeline-InTime :
      (step most now_ns : ℕ) (xs : List (Bucket F))
      → 0 < step
      → now_ns + step < 2 ^ 64
      → InTime step xs
      → InTime step (timeline step most now_ns xs)
  timeline-InTime step most now_ns [] p fits k = ((tt, tt), fits)
  timeline-InTime step most now_ns (x ∷ xs) p fits (s, ends) =
      elim (Bool-cases (ltb now_ns (add_64 x.ts_ns step))) [
        | inl t ↦ rw t (s, ends)
        | inr f ↦ rw f (later-InTime step most now_ns x xs p fits s (ground arith))
      ]
