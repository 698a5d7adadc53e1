-- ===== src/Alpha/DeltaFactor.antt =====
-- include/smartquant/alpha/delta_factor.hpp and src/alpha/delta_factor.cpp.
pub mod Imbalance
pub mod Window
use smart_quant.Prelude.{
  ℕ, ◌/◌, ◌==◌, Bool, true, false, ◌&&◌, ◌||◌, if◌then◌else◌, Option, none, some, set, min, List,
}
use smart_quant.Prelude.Int.{pos, ltb_ℤ, leb_ℤ}
use smart_quant.Prelude.Word.{add_64, sub_64}
use smart_quant.Prelude.Double.{Double}
use smart_quant.Types.{Price, LobEvent, MdEntryType, trade}
use smart_quant.Alpha.Buckets.{
  Bucket, Buckets, no_buckets, current, advance, recent, cutoff_of, sum_by,
}

-- `kMaxBuckets`
abbrev pub max_buckets : ℕ
max_buckets = 64

-- The first sum of a bucket is its buy volume, the second its sell volume.
pub record DeltaFactor (F : Type 0) : Type 0 where
  pub window_ns : ℕ
  pub bucket_ns : ℕ
  pub num_buckets : ℕ
  pub ring : Buckets F
  pub midprice : Price
  pub net_delta : F
  pub prev_delta : F
  pub prev_prev_delta : F
  pub acceleration : F

-- `kDefaultWindowNs` and `kDefaultBucketNs`
abbrev pub default_window_ns : ℕ
default_window_ns = 100_000_000

abbrev pub default_bucket_ns : ℕ
default_bucket_ns = 10_000_000

abbrev pub is_trade : MdEntryType → Bool
is_trade trade = true
is_trade _ = false

module _ {F : Type 0} ⦃d : Double F⦄ where
  abbrev pub zero_delta : F
  zero_delta = d.literal 0 1

  -- The members once the constructor has checked its arguments.
  unfoldable pub with_windows : ℕ → ℕ → DeltaFactor F
  with_windows window_ns bucket_ns = record {
    window_ns = window_ns;
    bucket_ns = bucket_ns;
    num_buckets = min (add_64 (sub_64 (add_64 window_ns bucket_ns) 1 / bucket_ns) 1) max_buckets;
    ring = no_buckets max_buckets;
    midprice = pos 0;
    net_delta = zero_delta;
    prev_delta = zero_delta;
    prev_prev_delta = zero_delta;
    acceleration = zero_delta;
  }

  -- The constructor, which throws if the bucket is empty.
  unfoldable pub init : ℕ → ℕ → Option (DeltaFactor F)
  unfolding with_windows
  init window_ns bucket_ns =
      if bucket_ns == 0 then none else some (with_windows window_ns bucket_ns)

  -- The midprice is kept.
  unfoldable pub reset : DeltaFactor F → DeltaFactor F
  reset s = record s {
    ring = no_buckets max_buckets;
    net_delta = zero_delta;
    prev_delta = zero_delta;
    prev_prev_delta = zero_delta;
    acceleration = zero_delta;
  }

  unfoldable pub set_midprice : DeltaFactor F → Price → DeltaFactor F
  set_midprice s mid = record s { midprice = mid }

  unfoldable pub advance_time : DeltaFactor F → ℕ → DeltaFactor F
  unfolding advance
  advance_time s now_ns = record s {
    ring = advance max_buckets s.bucket_ns s.num_buckets now_ns s.ring;
  }

  abbrev pub set_current : Buckets F → Bucket F → Buckets F
  set_current b x = record b { buckets = set b.buckets b.head x }

  -- A trade goes to the buys or the sells of the current bucket.
  unfoldable pub count_trade : DeltaFactor F → LobEvent → DeltaFactor F
  count_trade s ev =
      let x = current s.ring in
      let bought = record x { first_sum = d.add x.first_sum (d.of_int ev.qty) } in
      let sold = record x { second_sum = d.add x.second_sum (d.of_int ev.qty) } in
      if is_trade ev.side && ltb_ℤ (pos 0) ev.qty
      then record s {
        ring =
            set_current s.ring
              (if leb_ℤ s.midprice (pos 0) || leb_ℤ s.midprice ev.price then bought else sold);
      }
      else s

  abbrev pub window : DeltaFactor F → List (Bucket F)
  window s = recent max_buckets (cutoff_of s.window_ns (current s.ring).ts_ns) s.ring s.ring.count 0

  unfoldable pub recompute : DeltaFactor F → DeltaFactor F
  unfolding recent
  recompute s =
      let net =
        d.sub (sum_by (λ x. x.first_sum) zero_delta (window s))
          (sum_by (λ x. x.second_sum) zero_delta (window s)) in
      record s {
        prev_prev_delta = s.prev_delta;
        prev_delta = s.net_delta;
        net_delta = net;
        acceleration = d.add (d.sub net (d.mul (d.literal 2 1) s.net_delta)) s.prev_delta;
      }

  unfoldable pub on_event : DeltaFactor F → LobEvent → DeltaFactor F
  unfolding advance_time count_trade recompute
  on_event s ev = recompute (count_trade (advance_time s ev.timestamp_ns) ev)

  unfoldable pub value : DeltaFactor F → F
  value s = s.acceleration
