-- ===== src/Alpha/DeltaFactor/Window.antt =====
-- That the ring of src/alpha/delta_factor.cpp is long enough for its window.
use smart_quant.Prelude.{
  ℕ, ◌+◌, ◌*◌, ◌/◌, ◌^◌, ◌<◌, ◌≡◌, refl, sym, ap, arith, List, [], ◌∷◌, min, Bool-cases, inl, inr,
  All, ◌&&◌, ◌||◌,
}
use smart_quant.Prelude.Int.{pos, ltb_ℤ, leb_ℤ}
use smart_quant.Prelude.Word.{add_64, sub_64}
use smart_quant.Prelude.Double.{Double}
use smart_quant.Alpha.Buckets.{Bucket, cutoff_of, sum_by}
use smart_quant.Alpha.Buckets.Spaced.{
  since, start_of, Spaced, InTime, within-whole, rewritten-InTime, timeline-InTime,
}
use smart_quant.Alpha.DeltaFactor.{max_buckets, zero_delta, is_trade, with_windows, value}
use smart_quant.Alpha.DeltaFactor.Imbalance.{
  Tick, Settings, with_trade, counted_in, buckets_after, all_buckets, imbalance, tick, ticks,
  value_lem, with_windows-Tracks,
}

-- The event comes before the clock wraps around in its bucket.
abbrev pub Early : Settings → Tick → Type 0
Early c t = t.ev.timestamp_ns + c.bucket_ns < 2 ^ 64

-- What the constructor fixes.
abbrev pub settings : ℕ → ℕ → Settings
settings window_ns bucket_ns = record {
  window_ns = window_ns;
  bucket_ns = bucket_ns;
  num_buckets = min (add_64 (sub_64 (add_64 window_ns bucket_ns) 1 / bucket_ns) 1) max_buckets;
}

module _ {F : Type 0} ⦃d : Double F⦄ where
  -- The buys less the sells of the window, with no limit on the number of buckets.
  abbrev pub whole_imbalance : Settings → List (Bucket F) → F
  whole_imbalance c xs =
      let ys = since (cutoff_of c.window_ns (start_of xs)) xs in
      d.sub (sum_by (λ x. x.first_sum) zero_delta ys) (sum_by (λ x. x.second_sum) zero_delta ys)

  -- The window of a ring that is long enough for it.
  imbalance-Spaced :
      (c : Settings) (xs : List (Bucket F))
      → Spaced c.bucket_ns xs
      → c.window_ns < max_buckets * c.bucket_ns
      → imbalance c xs ≡ whole_imbalance c xs
  imbalance-Spaced c xs s long =
      ap
        (λ ys.
          d.sub (sum_by (λ y. y.first_sum) zero_delta ys)
            (sum_by (λ y. y.second_sum) zero_delta ys))
        (within-whole c.bucket_ns c.window_ns max_buckets xs s (omega arith) long)

  with_trade_start : (t : Tick) (x : Bucket F) → (with_trade t x).ts_ns ≡ x.ts_ns
  with_trade_start t x = elim (Bool-cases (leb_ℤ t.mid (pos 0) || leb_ℤ t.mid t.ev.price)) [
    | inl b ↦ rw b refl
    | inr f ↦ rw f refl
  ]

  counted_in-InTime :
      (step : ℕ) (t : Tick) (xs : List (Bucket F)) → InTime step xs → InTime step (counted_in t xs)
  counted_in-InTime step t [] k = k
  counted_in-InTime step t (x ∷ xs) (s, ends) =
      elim (Bool-cases (is_trade t.ev.side && ltb_ℤ (pos 0) t.ev.qty)) [
        | inl t' ↦
            rw t' (rewritten-InTime step x (with_trade t x) xs (with_trade_start t x) (s, ends))
        | inr f ↦ rw f (s, ends)
      ]

  buckets_after-InTime :
      (c : Settings) (xs : List (Bucket F)) (t : Tick)
      → 0 < c.bucket_ns
      → Early c t
      → InTime c.bucket_ns xs
      → InTime c.bucket_ns (buckets_after c xs t)
  buckets_after-InTime c xs t p now k =
      counted_in-InTime c.bucket_ns t _
        (timeline-InTime c.bucket_ns c.num_buckets t.ev.timestamp_ns xs p now k)

  all_buckets-InTime :
      (c : Settings) (xs : List (Bucket F)) (ts : List Tick)
      → 0 < c.bucket_ns
      → All (Early c) ts
      → InTime c.bucket_ns xs
      → InTime c.bucket_ns (all_buckets c xs ts)
  all_buckets-InTime c xs [] p early k = k
  all_buckets-InTime c xs (t ∷ ts) p (now, early) k =
      all_buckets-InTime c (buckets_after c xs t) ts p early (buckets_after-InTime c xs t p now k)

  -- After three events or more from the constructor on, the value is the second difference of the net
  -- imbalance: with N1, N2 and N3 the buys less the sells of the window after each of the last three
  -- events, it is N3 - 2 * N2 + N1. The windows are those of a list of all buckets, which an event
  -- extends by as many buckets as the code adds, but in which nothing is overwritten and of which any
  -- number count: a window shorter than 64 buckets never loses one to the ring, even if the times of
  -- the events go back, as long as the clock does not wrap around.
  pub value_second_difference :
      (window_ns bucket_ns : ℕ) (ts : List Tick) (t1 t2 t3 : Tick)
      → window_ns < max_buckets * bucket_ns
      → bucket_ns < 2 ^ 64
      → let c = settings window_ns bucket_ns in
        All (Early c) ts
        → Early c t1
        → Early c t2
        → Early c t3
        → let xs1 = buckets_after {F = F} c (all_buckets c [] ts) t1 in
          let xs2 = buckets_after c xs1 t2 in
          let xs3 = buckets_after c xs2 t3 in
          let s =
            tick (tick (tick (ticks (with_windows {F = F} window_ns bucket_ns) ts) t1) t2) t3 in
          (s.net_delta ≡ whole_imbalance c xs3)
          × (value s
              ≡ d.add
                  (d.sub (whole_imbalance c xs3) (d.mul (d.literal 2 1) (whole_imbalance c xs2)))
                  (whole_imbalance c xs1))
  unfolding with_windows
  value_second_difference window_ns bucket_ns ts t1 t2 t3 long small early e1 e2 e3 =
      let c = settings window_ns bucket_ns in
      let p : 0 < bucket_ns = omega arith in
      let xs1 = buckets_after {F = F} c (all_buckets c [] ts) t1 in
      let xs2 = buckets_after c xs1 t2 in
      let xs3 = buckets_after c xs2 t3 in
      let k1 =
        buckets_after-InTime c (all_buckets c [] ts) t1 p e1
          (all_buckets-InTime c [] ts p early (tt, omega arith)) in
      let k2 = buckets_after-InTime c xs1 t2 p e2 k1 in
      let k3 = buckets_after-InTime c xs2 t3 p e3 k2 in
      rw (sym (imbalance-Spaced c xs1 k1.0 long)) (
        rw (sym (imbalance-Spaced c xs2 k2.0 long)) (
          rw (sym (imbalance-Spaced c xs3 k3.0 long)) (
            value_lem c (with_windows window_ns bucket_ns) [] ts t1 t2 t3
              (with_windows-Tracks window_ns bucket_ns))))
