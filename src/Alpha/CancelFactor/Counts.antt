-- ===== src/Alpha/CancelFactor/Counts.antt =====
-- The buckets of src/alpha/cancel_factor.cpp, with the cancellations that each counts.
use smart_quant.Prelude.{
  ◌+◌, ◌^◌, ◌<◌, ◌≡◌, refl, true, false, if◌then◌else◌, arith, List, [], ◌∷◌, subst, All,
}
use smart_quant.Md.OrderBook.Resting.{same_side}
use smart_quant.Prelude.{Bool, ◌&&◌}
use smart_quant.Prelude.Double.{Double}
use smart_quant.Types.{
  LobEvent, MdUpdateAction, MdEntryType, new, change, delete, bid, offer, trade,
}
use smart_quant.Alpha.Buckets.{Bucket, bucket_at}
use smart_quant.Alpha.Buckets.Ring.{Shows, timeline, current-Shows, set_current-Shows}
use smart_quant.Alpha.Buckets.Spaced.{InTime, rewritten-InTime, timeline-InTime}
use smart_quant.Alpha.CancelFactor.{
  CancelFactor, max_buckets, bucket_ns, count_side, count_action, on_event,
}

abbrev pub is_delete : MdUpdateAction → Bool
is_delete delete = true
is_delete _ = false

-- The event comes before the clock wraps around in its bucket.
abbrev pub Early : LobEvent → Type 0
Early ev = ev.timestamp_ns + bucket_ns < 2 ^ 64

-- The event deletes an entry of the side, on whatever level of the book.
abbrev pub cancels : MdEntryType → LobEvent → Bool
cancels side ev = is_delete ev.action && same_side ev.side side

module _ {F : Type 0} ⦃d : Double F⦄ where
  abbrev pub events : CancelFactor F → List LobEvent → CancelFactor F
  events s [] = s
  events s (ev ∷ evs) = events (on_event s ev) evs

  -- The bucket with a cancellation of a bid or of an offer; other events leave it.
  abbrev pub with_cancel : LobEvent → Bucket F → Bucket F
  with_cancel ev x = record x {
    first_sum = if cancels bid ev then d.add x.first_sum (d.literal 1 1) else x.first_sum;
    second_sum = if cancels offer ev then d.add x.second_sum (d.literal 1 1) else x.second_sum;
  }

  abbrev pub counted_in : LobEvent → List (Bucket F) → List (Bucket F)
  counted_in ev [] = []
  counted_in ev (x ∷ xs) = with_cancel ev x ∷ xs

  -- All the buckets after an event, without a limit on how many are kept.
  abbrev pub buckets_after : List (Bucket F) → LobEvent → List (Bucket F)
  buckets_after xs ev = counted_in ev (timeline bucket_ns max_buckets ev.timestamp_ns xs)

  abbrev pub all_buckets : List (Bucket F) → List LobEvent → List (Bucket F)
  all_buckets xs [] = xs
  all_buckets xs (ev ∷ evs) = all_buckets (buckets_after xs ev) evs

  abbrev pub newest : List (Bucket F) → Bucket F
  newest [] = bucket_at 0
  newest (x ∷ _) = x

  pub buckets_after-InTime :
      (xs : List (Bucket F)) (ev : LobEvent)
      → Early ev
      → InTime bucket_ns xs
      → InTime bucket_ns (buckets_after xs ev)
  buckets_after-InTime xs ev early k =
      counted (timeline bucket_ns max_buckets ev.timestamp_ns xs)
        (timeline-InTime bucket_ns max_buckets ev.timestamp_ns xs (omega arith) early k)
    where
      counted : (ys : List (Bucket F)) → InTime bucket_ns ys → InTime bucket_ns (counted_in ev ys)
      counted [] k = k
      counted (y ∷ ys) k = rewritten-InTime bucket_ns y (with_cancel ev y) ys refl k

  pub all_buckets-InTime :
      (xs : List (Bucket F)) (evs : List LobEvent)
      → All Early evs
      → InTime bucket_ns xs
      → InTime bucket_ns (all_buckets xs evs)
  all_buckets-InTime xs [] early k = k
  all_buckets-InTime xs (ev ∷ evs) (now, early) k =
      all_buckets-InTime (buckets_after xs ev) evs early (buckets_after-InTime xs ev now k)

  -- The bucket as the code writes it.
  rewritten : MdUpdateAction → MdEntryType → Bucket F → Bucket F
  rewritten delete side x = count_side side x
  rewritten _ side x = x

  rewritten-with_cancel :
      (action : MdUpdateAction) (side : MdEntryType) (ev : LobEvent) (x : Bucket F)
      → rewritten action side x ≡ with_cancel (record ev { action = action; side = side }) x
  unfolding rewritten
  rewritten-with_cancel new side ev x = refl
  rewritten-with_cancel change side ev x = refl
  rewritten-with_cancel delete bid ev x = refl
  rewritten-with_cancel delete offer ev x = refl
  rewritten-with_cancel delete trade ev x = refl

  count_action-rewritten :
      (action : MdUpdateAction) (side : MdEntryType) (s : CancelFactor F) (y : Bucket F)
      (ys : List (Bucket F))
      → Shows max_buckets s.ring (y ∷ ys)
      → Shows max_buckets (count_action action s side).ring (rewritten action side y ∷ ys)
  unfolding rewritten
  count_action-rewritten new side s y ys shows = shows
  count_action-rewritten change side s y ys shows = shows
  count_action-rewritten delete side s y ys shows =
      rw (current-Shows max_buckets s.ring y ys shows)
        (set_current-Shows max_buckets s.ring y (count_side side y) ys shows)

  pub count_action-Shows :
      (ev : LobEvent) (s : CancelFactor F) (y : Bucket F) (ys : List (Bucket F))
      → Shows max_buckets s.ring (y ∷ ys)
      → Shows max_buckets (count_action ev.action s ev.side).ring (with_cancel ev y ∷ ys)
  count_action-Shows ev s y ys shows =
      subst (λ x. Shows max_buckets (count_action ev.action s ev.side).ring (x ∷ ys))
        (rewritten-with_cancel ev.action ev.side ev y)
        (count_action-rewritten ev.action ev.side s y ys shows)
