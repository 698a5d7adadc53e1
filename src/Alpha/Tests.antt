-- ===== src/Alpha/Tests.antt =====
-- Runs of src/alpha, and its theorems at concrete states.
use smart_quant.Prelude.{
  ℕ, ◌+◌, ◌*◌, ◌<◌, ◌≤◌, ◌↔◌, ◌≡◌, refl, true, false, ◌||◌, some, [], ◌∷◌, arith,
}
use smart_quant.Prelude.Int.{pos, ◌+ℤ◌, ◌-ℤ◌, neg}
use smart_quant.Prelude.Fixed.{Fixed, fixed_double}
use smart_quant.Types.{LobEvent, Direction, bid, trade, new, delete}
use smart_quant.Md.OrderBook.{empty_book, best_bid}
use smart_quant.Alpha.Buckets.{Bucket, Buckets, bucket_at, current, advance, no_buckets}
use smart_quant.Alpha.DeltaFactor
use smart_quant.Alpha.DeltaFactor.{DeltaFactor, value}
use smart_quant.Alpha.DeltaFactor.Imbalance.{Tick, tick, ticks, buckets_after, all_buckets}
use smart_quant.Alpha.DeltaFactor.Window.{settings, whole_imbalance, value_second_difference}
use smart_quant.Alpha.SignalEngine
use smart_quant.Alpha.SignalEngine.{SignalEngine, feed_factors, blank_signal}
use smart_quant.Alpha.SignalEngine.Signals.{Signals, buys, sells, on_event-Signal}
use smart_quant.Alpha.CancelFactor.Percentile.{ScoreLaws}
use smart_quant.Prelude.{◌⊎◌, inl, inr, Bool-cases, ◌/◌, ap, ◌∙◌, leb}
use smart_quant.Prelude.Fixed.{times, product, div_ℕ}
use smart_quant.Prelude.Map.Sorted
use smart_quant.Prelude.Int.{ltb_ℤ, pos_part, sub_ℕ}
use smart_quant.Alpha.CancelFactor.Percentile.{rank}
use smart_quant.Alpha.Buckets.Time.{InRing, advance-InRing}
use smart_quant.Alpha.CancelFactor.{CancelFactor}
use smart_quant.Alpha.CancelFactor.Counts
use smart_quant.Alpha.CancelFactor.Counts.{events}
use smart_quant.Alpha.CancelFactor.ZScore.{score, on_event-score}

abbrev empty_bucket : Bucket Fixed
empty_bucket = bucket_at 0

abbrev started : Buckets Fixed
started = record {
  buckets = bucket_at 1_000 ∷ empty_bucket ∷ empty_bucket ∷ empty_bucket ∷ [];
  head = 0;
  count = 1;
}

-- Two steps on; and after a gap of nine steps of which three are taken.
advance_values :
    ((current (advance 4 10 3 1_025 started)).ts_ns ≡ 1_020)
    × ((current (advance 4 10 3 1_095 started)).ts_ns ≡ 1_030)
unfolding advance
advance_values = (refl, refl)

advance-InRing_example :
    let b' = advance 4 10 3 1_095 started in
    InRing 4 b'
    × ((current b').ts_ns ≤ 1_095)
    × ((1_095 < (current b').ts_ns + 10) ↔ (1_095 < 1_000 + 3 * 10 + 10))
advance-InRing_example =
    advance-InRing 4 10 3 1_095 started
      (record { slotted = refl; head_in = omega arith; count_in = omega arith }) (omega arith)
      (omega arith) (omega arith) (omega arith)

abbrev cancel_at : ℕ → LobEvent
cancel_at ts_ns = record {
  timestamp_ns = ts_ns;
  entry_id = 7;
  price = pos 200_000;
  qty = pos 5;
  action = delete;
  side = bid;
}

abbrev quiet : CancelFactor Fixed
quiet = smart_quant.Alpha.CancelFactor.init

abbrev fresh_delta : DeltaFactor Fixed
fresh_delta = record {
  window_ns = 100_000_000;
  bucket_ns = 10_000_000;
  num_buckets = 11;
  ring = no_buckets 64;
  midprice = pos 0;
  net_delta = pos 0;
  prev_delta = pos 0;
  prev_prev_delta = pos 0;
  acceleration = pos 0;
}

fresh_delta_value : DeltaFactor.init 100_000_000 10_000_000 ≡ some fresh_delta
unfolding DeltaFactor.init
fresh_delta_value = refl

abbrev trade_at : ℕ → ℕ → LobEvent
trade_at ts_ns qty = record {
  timestamp_ns = ts_ns;
  entry_id = 0;
  price = pos 200_000;
  qty = pos qty;
  action = new;
  side = trade;
}

-- Bought 5, then 3 in the next bucket: the volumes 5 and 8 give 8 - 2 * 5 + 0.
delta_values :
    (value (DeltaFactor.on_event fresh_delta (trade_at 1_000 5)) ≡ pos 500)
    × (value (
          DeltaFactor.on_event
            (DeltaFactor.on_event fresh_delta (trade_at 1_000 5))
            (trade_at 10_001_000 3))
        ≡ neg (pos 200))
unfolding value DeltaFactor.on_event ◌+ℤ◌ ◌-ℤ◌ neg
delta_values = (refl, refl)

abbrev engine : SignalEngine Fixed
engine = record {
  delta = fresh_delta;
  cancel = quiet;
  thresh_delta = pos 5_000;
  min_cancel_z = pos 150;
  last_signal = blank_signal;
}

-- Two scores are remembered, and the score of the asks is above both.
abbrev alarmed : SignalEngine Fixed
alarmed = record engine {
  thresh_delta = pos 100;
  cancel = record quiet {
    z_ask = pos 300;
    recent_z_bid = pos 100 ∷ pos 50 ∷ [];
    recent_z_ask = pos 120 ∷ pos 210 ∷ [];
    recent_ts = 500 ∷ 600 ∷ [];
  };
}

alarmed_fires : (SignalEngine.on_event alarmed (trade_at 1_000 5) empty_book).1 ≡ true
unfolding SignalEngine.on_event ◌+ℤ◌ ◌-ℤ◌ neg best_bid Sorted.last_key?
alarmed_fires = refl

sub_ℕ-zero : (a b : ℕ) → b ≡ 0 → sub_ℕ a b ≡ pos a
sub_ℕ-zero a b e = let t : leb b a ≡ true = ground arith in rw t (ap pos (omega arith))

times_pos : (n : ℕ) → times 100 (pos n) ≡ pos (100 * n)
times_pos n = sub_ℕ-zero _ _ (omega arith)

product_pos : (m n : ℕ) → product (pos m) (pos n) ≡ pos (m * n)
product_pos m n = sub_ℕ-zero _ _ (ground arith) ∙ ap pos (ground arith)

div_pos : (n : ℕ) → div_ℕ (pos n) 100 ≡ pos (n / 100)
div_pos n = sub_ℕ-zero _ _ refl

rank_lem : (n : ℕ) → rank Fixed n ≤ n
rank_lem n =
    let e : rank Fixed n ≡ 95 * (100 * n) / 100 / 100 =
      ap (λ a. pos_part (div_ℕ (div_ℕ (product (pos 95) a) 100) 100)) (times_pos n)
      ∙ ap (λ a. pos_part (div_ℕ (div_ℕ a 100) 100)) (product_pos 95 (100 * n))
      ∙ ap (λ a. pos_part (div_ℕ a 100)) (div_pos (95 * (100 * n)))
      ∙ ap pos_part (div_pos (95 * (100 * n) / 100)) in
    omega (arith, e)

fixed_laws : ScoreLaws Fixed
fixed_laws = record {
  irrefl = λ x. ground arith;
  trans = λ x y z t u. ground arith;
  cotrans = λ x y z t. elim (Bool-cases (ltb_ℤ x y)) [ inl u ↦ inl u | inr f ↦ inr (ground arith) ];
  rank_in = rank_lem;
}

on_event-Signal_example :
    let ev = trade_at 1_000 5 in
    let fed = feed_factors alarmed ev empty_book in
    let (s', fired) = SignalEngine.on_event alarmed ev empty_book in
    let sig = s'.last_signal in
    (fired ≡ (buys fed || sells fed))
    × (((fired ≡ false) × (sig ≡ alarmed.last_signal))
        ⊎ ((fired ≡ true)
            × Signals sig ev sig.direction fed empty_book
            × (sig.trigger_time_ns ≡ ev.timestamp_ns)
            × (sig.delta_val ≡ value fed.delta)
            × ((buys fed ≡ false) ⊎ (sig.direction ≡ Direction.buy))))
on_event-Signal_example = on_event-Signal fixed_laws alarmed (trade_at 1_000 5) empty_book

abbrev second_bucket : Tick
second_bucket = record { mid = pos 200_000; ev = trade_at 10_001_000 3 }

-- A trade, one in the next bucket, one two seconds later, and one that is dated back.
value_second_difference_example :
    let first : Tick = record { mid = pos 0; ev = trade_at 1_000 5 } in
    let late : Tick = record second_bucket { ev = trade_at 2_000_001_000 2 } in
    let c = settings 100_000_000 10_000_000 in
    let xs1 = buckets_after {F = Fixed} c (all_buckets c [] (first ∷ [])) second_bucket in
    let xs2 = buckets_after c xs1 late in
    let xs3 = buckets_after c xs2 second_bucket in
    let s =
      tick
        (tick
          (tick
            (ticks (DeltaFactor.with_windows {F = Fixed} 100_000_000 10_000_000) (first ∷ []))
            second_bucket)
          late)
        second_bucket in
    (s.net_delta ≡ whole_imbalance c xs3)
    × (value s
        ≡ fixed_double.add
            (fixed_double.sub
              (whole_imbalance c xs3)
              (fixed_double.mul (fixed_double.literal 2 1) (whole_imbalance c xs2)))
            (whole_imbalance c xs1))
value_second_difference_example =
    value_second_difference 100_000_000 10_000_000
      (record { mid = pos 0; ev = trade_at 1_000 5 } ∷ []) second_bucket
      (record second_bucket { ev = trade_at 2_000_001_000 2 }) second_bucket (omega arith)
      (omega arith) (omega arith, tt) (omega arith) (omega arith) (omega arith)

-- A bid is cancelled in each of three buckets, twice in the last.
on_event-score_example :
    let evs = cancel_at 1_000 ∷ cancel_at 10_001_000 ∷ cancel_at 20_001_000 ∷ [] in
    let s = events {F = Fixed} smart_quant.Alpha.CancelFactor.init evs in
    let s' = smart_quant.Alpha.CancelFactor.on_event s (cancel_at 20_001_500) in
    let xs = Counts.buckets_after {F = Fixed} (Counts.all_buckets [] evs) (cancel_at 20_001_500) in
    (s'.z_bid ≡ score (λ x. x.first_sum) s.z_bid xs)
    × (s'.z_ask ≡ score (λ x. x.second_sum) s.z_ask xs)
on_event-score_example =
    on_event-score (cancel_at 1_000 ∷ cancel_at 10_001_000 ∷ cancel_at 20_001_000 ∷ [])
      (cancel_at 20_001_500) (omega arith, (omega arith, (omega arith, tt))) (omega arith)
