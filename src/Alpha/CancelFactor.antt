-- ===== src/Alpha/CancelFactor.antt =====
-- include/smartquant/alpha/cancel_factor.hpp and src/alpha/cancel_factor.cpp.
pub mod Deques
pub mod Standard
pub mod Counts
pub mod ZScore
pub mod Percentile
use smart_quant.Prelude.{
  ℕ, ◌+◌, ◌-◌, Bool, true, false, ltb, if◌then◌else◌, List, [], ◌∷◌, ◌++◌, length, get_or, set,
}
use smart_quant.Prelude.Int.{ℤ, pos, pos_part}
use smart_quant.Prelude.Double.{Double}
use smart_quant.Types.{
  LobEvent, MdUpdateAction, MdEntryType, new, change, delete, bid, offer, trade,
}
use smart_quant.Alpha.Buckets.{
  Bucket, Buckets, no_buckets, current, advance, recent, cutoff_of, sum_by,
}

-- `kMaxBuckets`, `kBucketNs`, `kWindowNs` and `kQuantileNs`
abbrev pub max_buckets : ℕ
max_buckets = 200

abbrev pub bucket_ns : ℕ
bucket_ns = 10_000_000

abbrev pub window_ns : ℕ
window_ns = 1_000_000_000

abbrev pub quantile_ns : ℕ
quantile_ns = 30_000_000_000

-- The first sum of a bucket counts its bid cancellations, the second its ask cancellations.
pub record CancelFactor (F : Type 0) : Type 0 where
  pub ring : Buckets F
  pub z_bid : F
  pub z_ask : F
  pub recent_z_bid : List F
  pub recent_z_ask : List F
  pub recent_ts : List ℕ

-- The three deques.
pub record Scores (F : Type 0) : Type 0 where
  pub z_bids : List F
  pub z_asks : List F
  pub times : List ℕ

abbrev pub tail_of {ℓ} : {A : Type ℓ} → List A → List A
tail_of [] = []
tail_of (_ ∷ xs) = xs

-- The loop that pops the front of the deques; the times say when it ends.
unfoldable pub expire : {F : Type 0} → ℕ → List ℕ → List F → List F → Scores F
expire cutoff [] bids asks = record { z_bids = bids; z_asks = asks; times = [] }
expire cutoff (t ∷ ts) bids asks =
    let rest = expire cutoff ts (tail_of bids) (tail_of asks) in
    if ltb t cutoff then rest else record { z_bids = bids; z_asks = asks; times = t ∷ ts }

module _ {F : Type 0} ⦃d : Double F⦄ where
  abbrev pub init : CancelFactor F
  init = record {
    ring = no_buckets max_buckets;
    z_bid = d.literal 0 1;
    z_ask = d.literal 0 1;
    recent_z_bid = [];
    recent_z_ask = [];
    recent_ts = [];
  }

  unfoldable pub reset : CancelFactor F → CancelFactor F
  reset s = init

  unfoldable pub advance_time : CancelFactor F → ℕ → CancelFactor F
  unfolding advance
  advance_time s now_ns = record s {
    ring = advance max_buckets bucket_ns max_buckets now_ns s.ring;
  }

  abbrev pub count_side : MdEntryType → Bucket F → Bucket F
  count_side bid x = record x { first_sum = d.add x.first_sum (d.literal 1 1) }
  count_side offer x = record x { second_sum = d.add x.second_sum (d.literal 1 1) }
  count_side trade x = x

  -- A Delete is counted in the current bucket.
  abbrev pub count_action : MdUpdateAction → CancelFactor F → MdEntryType → CancelFactor F
  count_action delete s side = record s {
    ring = record s.ring {
      buckets = set s.ring.buckets s.ring.head (count_side side (current s.ring));
    };
  }
  count_action _ s side = s

  abbrev pub window : CancelFactor F → List (Bucket F)
  window s = recent max_buckets (cutoff_of window_ns (current s.ring).ts_ns) s.ring s.ring.count 0

  -- The score of the current bucket's count against the window.
  abbrev pub z_score : (Bucket F → F) → F → Bucket F → List (Bucket F) → F
  z_score f n now xs =
      let mu = d.div (sum_by f (d.literal 0 1) xs) n in
      let var =
        d.sub (d.div (sum_by (λ x. d.mul (f x) (f x)) (d.literal 0 1) xs) n) (d.mul mu mu) in
      let sigma = if d.lt (d.literal 0 1) var then d.sqrt var else d.literal 1 1 in
      d.div (d.sub (f now) mu) sigma

  -- `recompute_zscores` once there are two buckets in the window.
  unfoldable pub record_scores : CancelFactor F → CancelFactor F
  unfolding recent expire
  record_scores s =
      let now = current s.ring in
      let xs = window s in
      let n = d.of_int (pos (length xs)) in
      let z_b = z_score (λ x. x.first_sum) n now xs in
      let z_a = z_score (λ x. x.second_sum) n now xs in
      let kept =
        expire (cutoff_of quantile_ns now.ts_ns) (s.recent_ts ++ now.ts_ns ∷ [])
          (s.recent_z_bid ++ z_b ∷ []) (s.recent_z_ask ++ z_a ∷ []) in
      record s {
        z_bid = z_b;
        z_ask = z_a;
        recent_z_bid = kept.z_bids;
        recent_z_ask = kept.z_asks;
        recent_ts = kept.times;
      }

  unfoldable pub recompute_zscores : CancelFactor F → CancelFactor F
  unfolding record_scores recent
  recompute_zscores s =
      if ltb s.ring.count 2 then s else (if ltb (length (window s)) 2 then s else record_scores s)

  unfoldable pub on_event : CancelFactor F → LobEvent → CancelFactor F
  unfolding advance_time recompute_zscores
  on_event s ev =
      recompute_zscores (count_action ev.action (advance_time s ev.timestamp_ns) ev.side)

  abbrev pub max_of : F → F → F
  max_of x y = if d.lt x y then y else x

  abbrev pub max_each : List F → List F → List F
  max_each [] ys = []
  max_each (x ∷ xs) [] = []
  max_each (x ∷ xs) (y ∷ ys) = max_of x y ∷ max_each xs ys

  -- `std::sort`
  abbrev pub insert_sorted : F → List F → List F
  insert_sorted x [] = x ∷ []
  insert_sorted x (y ∷ ys) =
      let rest = insert_sorted x ys in if d.lt y x then y ∷ rest else x ∷ y ∷ ys

  abbrev pub sort : List F → List F
  sort [] = []
  sort (x ∷ xs) = insert_sorted x (sort xs)

  abbrev pub quantile : List F → F
  quantile [] = d.literal 2 1
  quantile (x ∷ xs) =
      get_or (sort (x ∷ xs))
        (pos_part (d.to_int (d.mul (d.literal 95 100) (d.of_int (pos (length xs))))))
        (d.literal 0 1)

  -- The 95th percentile, or 2.0 if there are no scores.
  unfoldable pub dynamic_threshold : CancelFactor F → F
  dynamic_threshold s = quantile (max_each s.recent_z_bid s.recent_z_ask)
