-- ===== src/Alpha/DeltaFactor/Imbalance.antt =====
-- What include/smartquant/alpha/delta_factor.hpp promises of the class in
-- src/alpha/delta_factor.cpp: the second difference of the net imbalance over a sliding window.
use smart_quant.Prelude.{
  ℕ, ◌≡◌, refl, sym, ap, ◌∙◌, ◌&&◌, ◌||◌, if◌then◌else◌, arith, List, [], ◌∷◌, Bool-cases, inl, inr,
  subst, ap₂,
}
use smart_quant.Prelude.Int.{pos, ltb_ℤ, leb_ℤ}
use smart_quant.Prelude.Double.{Double}
use smart_quant.Types.{Price, LobEvent}
use smart_quant.Alpha.Buckets.{Bucket, Buckets, current, cutoff_of, sum_by}
use smart_quant.Alpha.Buckets.Ring.{
  Shows, timeline, timeline-∷, advance-Shows, current-Shows, set_current-Shows, no_buckets-Shows,
}
use smart_quant.Alpha.Buckets.Sums.{within, recent-within}
use smart_quant.Alpha.Buckets.Spaced.{start_of}
use smart_quant.Alpha.DeltaFactor.{
  DeltaFactor, max_buckets, is_trade, zero_delta, window, set_midprice, advance_time, count_trade,
  recompute, on_event, value, with_windows,
}

-- An event, with the midprice that is set before it.
pub record Tick : Type 0 where
  pub mid : Price
  pub ev : LobEvent

-- What the constructor fixes.
pub record Settings : Type 0 where
  pub window_ns : ℕ
  pub bucket_ns : ℕ
  pub num_buckets : ℕ

module _ {F : Type 0} ⦃d : Double F⦄ where
  abbrev pub tick : DeltaFactor F → Tick → DeltaFactor F
  tick s t = on_event (set_midprice s t.mid) t.ev

  abbrev pub ticks : DeltaFactor F → List Tick → DeltaFactor F
  ticks s [] = s
  ticks s (t ∷ ts) = ticks (tick s t) ts

  -- The bucket with a trade: at the midprice or above it is a buy, below it a sell.
  abbrev pub with_trade : Tick → Bucket F → Bucket F
  with_trade t x =
      if leb_ℤ t.mid (pos 0) || leb_ℤ t.mid t.ev.price
      then record x { first_sum = d.add x.first_sum (d.of_int t.ev.qty) }
      else record x { second_sum = d.add x.second_sum (d.of_int t.ev.qty) }

  abbrev pub counted_in : Tick → List (Bucket F) → List (Bucket F)
  counted_in t [] = []
  counted_in t (x ∷ xs) =
      if is_trade t.ev.side && ltb_ℤ (pos 0) t.ev.qty then with_trade t x ∷ xs else x ∷ xs

  -- All the buckets after an event, without a limit on how many are kept.
  abbrev pub buckets_after : Settings → List (Bucket F) → Tick → List (Bucket F)
  buckets_after c xs t = counted_in t (timeline c.bucket_ns c.num_buckets t.ev.timestamp_ns xs)

  abbrev pub all_buckets : Settings → List (Bucket F) → List Tick → List (Bucket F)
  all_buckets c xs [] = xs
  all_buckets c xs (t ∷ ts) = all_buckets c (buckets_after c xs t) ts

  -- The buys less the sells of the buckets in the window.
  abbrev pub imbalance : Settings → List (Bucket F) → F
  imbalance c xs =
      let ys = within (cutoff_of c.window_ns (start_of xs)) max_buckets xs in
      d.sub (sum_by (λ x. x.first_sum) zero_delta ys) (sum_by (λ x. x.second_sum) zero_delta ys)

  pub record Tracks (c : Settings) (s : DeltaFactor F) (xs : List (Bucket F)) : Type 0 where
    pub shows : Shows max_buckets s.ring xs
    pub windows : s.window_ns ≡ c.window_ns
    pub steps : s.bucket_ns ≡ c.bucket_ns
    pub most : s.num_buckets ≡ c.num_buckets

  count_trade-Tracks :
      (c : Settings) (s : DeltaFactor F) (t : Tick) (xs : List (Bucket F))
      → ((y : Bucket F) × (ys : List (Bucket F)) × (xs ≡ y ∷ ys))
      → s.midprice ≡ t.mid
      → Tracks c s xs
      → let s' = count_trade s t.ev in
        Tracks c s' (counted_in t xs)
        × (s'.net_delta ≡ s.net_delta)
        × (s'.prev_delta ≡ s.prev_delta)
  unfolding count_trade
  count_trade-Tracks c s t xs (y, ys, e) mid k =
      let shows = subst (Shows max_buckets s.ring) e k.shows in
      elim (Bool-cases (is_trade t.ev.side && ltb_ℤ (pos 0) t.ev.qty)) [
        | inl t' ↦ rw e (
            rw t' (
              record {
                shows =
                    rw (current-Shows max_buckets s.ring y ys shows)
                      (rw mid (set_current-Shows max_buckets s.ring y (with_trade t y) ys shows));
                windows = k.windows;
                steps = k.steps;
                most = k.most;
              },
              refl,
              refl,
            ))
        | inr f ↦ rw e (rw f (rw e at k, refl, refl))
      ]

  advance-Tracks :
      (c : Settings) (s : DeltaFactor F) (xs : List (Bucket F)) (now_ns : ℕ)
      → Tracks c s xs
      → Tracks c (advance_time s now_ns) (timeline c.bucket_ns c.num_buckets now_ns xs)
  unfolding advance_time
  advance-Tracks c s xs now_ns k = record {
    shows = rw (sym k.steps) (
        rw (sym k.most)
          (advance-Shows max_buckets s.bucket_ns s.num_buckets now_ns s.ring xs k.shows));
    windows = k.windows;
    steps = k.steps;
    most = k.most;
  }

  counted_in-∷ :
      (t : Tick) (xs : List (Bucket F))
      → ((y : Bucket F) × (ys : List (Bucket F)) × (xs ≡ y ∷ ys))
      → (y : Bucket F) × (ys : List (Bucket F)) × (counted_in t xs ≡ y ∷ ys)
  counted_in-∷ t xs (y, ys, e) = elim (Bool-cases (is_trade t.ev.side && ltb_ℤ (pos 0) t.ev.qty)) [
    | inl t' ↦ (with_trade t y, ys, rw e (rw t' refl))
    | inr f ↦ (y, ys, rw e (rw f refl))
  ]

  start_lem :
      (b : Buckets F) (xs : List (Bucket F))
      → Shows max_buckets b xs
      → ((y : Bucket F) × (ys : List (Bucket F)) × (xs ≡ y ∷ ys))
      → start_of xs ≡ (current b).ts_ns
  start_lem b xs shows (y, ys, e) =
      ap start_of e
      ∙ sym (
          ap (λ x. x.ts_ns)
            (current-Shows max_buckets b y ys (subst (Shows max_buckets b) e shows)))

  recompute_lem :
      (c : Settings) (s : DeltaFactor F) (xs : List (Bucket F))
      → Tracks c s xs
      → start_of xs ≡ (current s.ring).ts_ns
      → let s' = recompute s in
        Tracks c s' xs
        × (s'.net_delta ≡ imbalance c xs)
        × (s'.prev_delta ≡ s.net_delta)
        × (value s'
            ≡ d.add (d.sub (imbalance c xs) (d.mul (d.literal 2 1) s.net_delta)) s.prev_delta)
  unfolding recompute value
  recompute_lem c s xs k starts =
      let same : window s ≡ within (cutoff_of c.window_ns (start_of xs)) max_buckets xs =
        (recent-within max_buckets _ s.ring xs k.shows
          ∙ ap (λ n. within n max_buckets xs) (rw k.windows (rw starts refl))) in
      rw same (
        record { shows = k.shows; windows = k.windows; steps = k.steps; most = k.most },
        refl,
        refl,
        refl,
      )

  tick_lem :
      (c : Settings) (s : DeltaFactor F) (xs : List (Bucket F)) (t : Tick)
      → Tracks c s xs
      → let s' = tick s t in
        let xs' = buckets_after c xs t in
        Tracks c s' xs'
        × (s'.net_delta ≡ imbalance c xs')
        × (s'.prev_delta ≡ s.net_delta)
        × (value s'
            ≡ d.add (d.sub (imbalance c xs') (d.mul (d.literal 2 1) s.net_delta)) s.prev_delta)
  unfolding on_event set_midprice
  tick_lem c s xs t k =
      let line = timeline c.bucket_ns c.num_buckets t.ev.timestamp_ns xs in
      let some_left = timeline-∷ c.bucket_ns c.num_buckets t.ev.timestamp_ns xs in
      let (y, ys, e) = some_left in
      let now = advance_time (set_midprice s t.mid) t.ev.timestamp_ns in
      let k' =
        advance-Tracks c (set_midprice s t.mid) xs t.ev.timestamp_ns
          record { shows = k.shows; windows = k.windows; steps = k.steps; most = k.most } in
      let (counted, net, prev) = count_trade-Tracks c now t line some_left refl k' in
      let s' = count_trade now t.ev in
      let starts =
        start_lem s'.ring (buckets_after c xs t) counted.shows (counted_in-∷ t line some_left) in
      let (kept, new, old, moved) = recompute_lem c s' (buckets_after c xs t) counted starts in
      (
        kept,
        new,
        old ∙ net,
        moved
            ∙ ap₂
                (λ n p.
                  d.add (d.sub (imbalance c (buckets_after c xs t)) (d.mul (d.literal 2 1) n)) p)
                net prev,
      )

  pub ticks-Tracks :
      (c : Settings) (s : DeltaFactor F) (xs : List (Bucket F)) (ts : List Tick)
      → Tracks c s xs
      → Tracks c (ticks s ts) (all_buckets c xs ts)
  ticks-Tracks c s xs [] k = k
  ticks-Tracks c s xs (t ∷ ts) k =
      ticks-Tracks c (tick s t) (buckets_after c xs t) ts (tick_lem c s xs t k).0

  -- The net imbalance and the value after the last of three events.
  pub value_lem :
      (c : Settings) (s : DeltaFactor F) (xs : List (Bucket F)) (ts : List Tick) (t1 t2 t3 : Tick)
      → Tracks c s xs
      → let xs1 = buckets_after c (all_buckets c xs ts) t1 in
        let xs2 = buckets_after c xs1 t2 in
        let xs3 = buckets_after c xs2 t3 in
        let s3 = tick (tick (tick (ticks s ts) t1) t2) t3 in
        (s3.net_delta ≡ imbalance c xs3)
        × (value s3
            ≡ d.add
                (d.sub (imbalance c xs3) (d.mul (d.literal 2 1) (imbalance c xs2)))
                (imbalance c xs1))
  value_lem c s xs ts t1 t2 t3 k =
      let xs1 = buckets_after c (all_buckets c xs ts) t1 in
      let xs3 = buckets_after c (buckets_after c xs1 t2) t3 in
      let (k1, n1, _, _) = tick_lem c (ticks s ts) _ t1 (ticks-Tracks c s xs ts k) in
      let (k2, n2, p2, _) = tick_lem c (tick (ticks s ts) t1) _ t2 k1 in
      let (_, n3, _, v3) = tick_lem c (tick (tick (ticks s ts) t1) t2) _ t3 k2 in
      (
        n3,
        v3 ∙ ap₂ (λ n p. d.add (d.sub (imbalance c xs3) (d.mul (d.literal 2 1) n)) p) n2 (p2 ∙ n1),
      )

  -- A factor that the constructor has just made.
  pub with_windows-Tracks :
      (window_ns bucket_ns : ℕ)
      → let s = with_windows {F = F} window_ns bucket_ns in
        Tracks
          record { window_ns = window_ns; bucket_ns = bucket_ns; num_buckets = s.num_buckets }
          s
          []
  unfolding with_windows
  with_windows-Tracks window_ns bucket_ns = record {
    shows = no_buckets-Shows max_buckets (omega arith);
    windows = refl;
    steps = refl;
    most = refl;
  }
