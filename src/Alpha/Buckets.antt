-- ===== src/Alpha/Buckets.antt =====
-- The ring of time buckets that src/alpha/delta_factor.cpp and src/alpha/cancel_factor.cpp keep in
-- the same way: a bucket has a start and two sums, of buys and sells or of bid and ask cancellations.
mod Slots
pub mod Ring
pub mod Sums
pub mod Spaced
pub mod Time
use smart_quant.Prelude.{
  ℕ, zero, suc, ◌+◌, ◌-◌, ◌*◌, ◌/◌, ◌%◌, ◌^◌, ◌≡◌, Bool, true, false, ltb, leb, ◌==◌, if◌then◌else◌,
  List, [], ◌∷◌, get_or, set, replicate, min,
}
use smart_quant.Prelude.Word.{add_64, sub_64}
use smart_quant.Prelude.Double.{Double}

pub record Bucket (F : Type 0) : Type 0 where
  pub ts_ns : ℕ
  pub first_sum : F
  pub second_sum : F

-- `head` is the index of the most recent bucket, `count` the number of valid ones.
pub record Buckets (F : Type 0) : Type 0 where
  pub buckets : List (Bucket F)
  pub head : ℕ
  pub count : ℕ

-- The start of a window that ends with the current bucket.
abbrev pub cutoff_of : ℕ → ℕ → ℕ
cutoff_of window_ns now_ns = if leb window_ns now_ns then now_ns - window_ns else 0

module _ {F : Type 0} ⦃d : Double F⦄ where
  abbrev pub bucket_at : ℕ → Bucket F
  bucket_at ts_ns = record { ts_ns = ts_ns; first_sum = d.literal 0 1; second_sum = d.literal 0 1 }

  abbrev pub no_buckets : ℕ → Buckets F
  no_buckets slots = record { buckets = replicate slots (bucket_at 0); head = 0; count = 0 }

  abbrev pub current : Buckets F → Bucket F
  current b = get_or b.buckets b.head (bucket_at 0)

  -- One round of the loop: the bucket `k` steps after `start`, in a ring of `slots`.
  unfoldable pub add_bucket : ℕ → ℕ → ℕ → ℕ → Buckets F → Buckets F
  add_bucket slots step start k b =
      let head = (b.head + 1) % slots in
      record {
        buckets = set b.buckets head (bucket_at (add_64 start (k * step % 2 ^ 64)));
        head = head;
        count = if ltb b.count slots then b.count + 1 else b.count;
      }

  -- The loop, from `i` on.
  unfoldable pub add_buckets : ℕ → ℕ → ℕ → ℕ → ℕ → Buckets F → Buckets F
  unfolding add_bucket
  add_buckets slots step start zero i b = b
  add_buckets slots step start (suc n) i b =
      add_buckets slots step start n (i + 1) (add_bucket slots step start (i + 1) b)

  -- `advance_time`, which adds at most `most` buckets.
  unfoldable pub advance : ℕ → ℕ → ℕ → ℕ → Buckets F → Buckets F
  unfolding add_buckets
  advance slots step most now_ns b =
      let start = (current b).ts_ns in
      let later = add_buckets slots step start (min (sub_64 now_ns start / step) most) 0 b in
      if b.count == 0
      then record { buckets = set b.buckets 0 (bucket_at now_ns); head = 0; count = 1 }
      else (if ltb now_ns (add_64 start step) then b else later)

  -- The bucket `i` before the current one.
  abbrev pub bucket_before : ℕ → Buckets F → ℕ → Bucket F
  bucket_before slots b i = get_or b.buckets ((b.head + slots - i) % slots) (bucket_at 0)

  -- The buckets from the current one back that a sum runs over: at most `n` from `i` on, up to the
  -- first that starts before `cutoff`.
  unfoldable pub recent : ℕ → ℕ → Buckets F → ℕ → ℕ → List (Bucket F)
  recent slots cutoff b zero i = []
  recent slots cutoff b (suc n) i =
      let rest = recent slots cutoff b n (i + 1) in
      let bucket = bucket_before slots b i in if ltb bucket.ts_ns cutoff then [] else bucket ∷ rest

  -- The loop that adds up one field of the buckets.
  abbrev pub sum_by : (Bucket F → F) → F → List (Bucket F) → F
  sum_by f acc [] = acc
  sum_by f acc (x ∷ xs) = sum_by f (d.add acc (f x)) xs
