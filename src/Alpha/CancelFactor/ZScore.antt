-- ===== src/Alpha/CancelFactor/ZScore.antt =====
-- What include/smartquant/alpha/cancel_factor.hpp promises of the class in
-- src/alpha/cancel_factor.cpp: the scores of the cancellations of the current bucket against those of
-- the window.
use smart_quant.Prelude.{
  ℕ, zero, suc, ◌+◌, ◌≤◌, ◌≡◌, refl, sym, ap, ◌∙◌, true, ltb, if◌then◌else◌, arith, List, [], ◌∷◌,
  length, Bool-cases, inl, inr, subst, All,
}
use smart_quant.Prelude.{ap₂, map}
use smart_quant.Prelude.Int.{pos}
use smart_quant.Prelude.Double.{Double}
use smart_quant.Types.{LobEvent, MdUpdateAction, MdEntryType, new, change, delete}
use smart_quant.Alpha.Buckets.{Bucket, Buckets, bucket_before, current, cutoff_of, recent}
use smart_quant.Alpha.Buckets.Ring.{
  Shows, advance-Shows, current-Shows, no_buckets-Shows, timeline-∷,
}
use smart_quant.Alpha.Buckets.Sums.{within, recent-within}
use smart_quant.Alpha.Buckets.Spaced.{since, start_of, InTime, within-whole}
use smart_quant.Alpha.CancelFactor.{
  CancelFactor, max_buckets, bucket_ns, window_ns, count_action, advance_time, window, z_score,
  record_scores, recompute_zscores, on_event, init,
}
use smart_quant.Alpha.CancelFactor.Standard.{standard, z_score-standard, length-map}
use smart_quant.Alpha.CancelFactor.Counts.{
  Early, events, with_cancel, counted_in, buckets_after, all_buckets, newest, buckets_after-InTime,
  all_buckets-InTime, count_action-Shows,
}

module _ {F : Type 0} ⦃d : Double F⦄ where
  -- The buckets of the last second.
  abbrev pub last_second : List (Bucket F) → List (Bucket F)
  last_second xs = since (cutoff_of window_ns (start_of xs)) xs

  -- The score of the current bucket's count against those of the last second, or the old one if that
  -- has one bucket only.
  abbrev pub score : (Bucket F → F) → F → List (Bucket F) → F
  score count old xs =
      let counts = map count (last_second xs) in
      if ltb (length counts) 2 then old else standard (count (newest xs)) counts

  -- The score as the code computes it.
  abbrev computed : (Bucket F → F) → F → List (Bucket F) → F
  computed f old xs =
      let ys = last_second xs in
      if ltb (length ys) 2 then old else z_score f (d.of_int (pos (length ys))) (newest xs) ys

  computed-score :
      (f : Bucket F → F) (old : F) (xs : List (Bucket F)) → computed f old xs ≡ score f old xs
  computed-score f old xs =
      ap₂ (λ n z. if ltb n 2 then old else z) (sym (length-map f (last_second xs)))
        (z_score-standard f (newest xs) (last_second xs))

  length-recent :
      (slots cutoff : ℕ) (b : Buckets F) (n i : ℕ) → length (recent slots cutoff b n i) ≤ n
  unfolding recent
  length-recent slots cutoff b zero i = omega arith
  length-recent slots cutoff b (suc n) i =
      elim (Bool-cases (ltb (bucket_before slots b i).ts_ns cutoff)) [
        | inl t ↦ rw t (omega arith)
        | inr f ↦ let le = length-recent slots cutoff b n (i + 1) in rw f (omega arith)
      ]

  -- One test for the number of buckets is enough.
  recompute_once :
      (s : CancelFactor F)
      → recompute_zscores s ≡ (if ltb (length (window s)) 2 then s else record_scores s)
  unfolding recompute_zscores
  recompute_once s = elim (Bool-cases (ltb s.ring.count 2)) [
    | inl t ↦
        let few : ltb (length (window s)) 2 ≡ true =
          (let le =
              length-recent max_buckets (cutoff_of window_ns (current s.ring).ts_ns) s.ring
                s.ring.count 0 in
            ground arith) in
        rw t (rw few refl)
    | inr f ↦ rw f refl
  ]

  window_lem :
      (s : CancelFactor F) (xs : List (Bucket F))
      → Shows max_buckets s.ring xs
      → InTime bucket_ns xs
      → current s.ring ≡ newest xs
      → start_of xs ≡ (newest xs).ts_ns
      → window s ≡ last_second xs
  window_lem s xs shows k now start =
      recent-within max_buckets (cutoff_of window_ns (current s.ring).ts_ns) s.ring xs shows
      ∙ ap (λ t. within (cutoff_of window_ns t) max_buckets xs) (ap (λ x. x.ts_ns) now ∙ sym start)
      ∙ within-whole bucket_ns window_ns max_buckets xs k.0 (omega arith) (omega arith)

  recompute_lem :
      (s : CancelFactor F) (xs : List (Bucket F))
      → Shows max_buckets s.ring xs
      → window s ≡ last_second xs
      → current s.ring ≡ newest xs
      → let s' = recompute_zscores s in
        Shows max_buckets s'.ring xs
        × (s'.z_bid ≡ computed (λ x. x.first_sum) s.z_bid xs)
        × (s'.z_ask ≡ computed (λ x. x.second_sum) s.z_ask xs)
  unfolding record_scores
  recompute_lem s xs shows seen now =
      rw (recompute_once s) (elim (Bool-cases (ltb (length (last_second xs)) 2)) [
        | inl t ↦ rw seen (rw t (shows, refl, refl))
        | inr f ↦ rw seen (rw f (rw now (shows, refl, refl)))
      ])

  count_action-z_bid :
      (action : MdUpdateAction) (s : CancelFactor F) (side : MdEntryType)
      → ((count_action action s side).z_bid ≡ s.z_bid)
        × ((count_action action s side).z_ask ≡ s.z_ask)
  count_action-z_bid new s side = (refl, refl)
  count_action-z_bid change s side = (refl, refl)
  count_action-z_bid delete s side = (refl, refl)

  -- After one event.
  event_lem :
      (s : CancelFactor F) (xs : List (Bucket F)) (ev : LobEvent)
      → Shows max_buckets s.ring xs
      → InTime bucket_ns xs
      → Early ev
      → let s' = on_event s ev in
        let xs' = buckets_after xs ev in
        Shows max_buckets s'.ring xs'
        × (s'.z_bid ≡ computed (λ x. x.first_sum) s.z_bid xs')
        × (s'.z_ask ≡ computed (λ x. x.second_sum) s.z_ask xs')
  unfolding on_event advance_time
  event_lem s xs ev shows k early =
      let (y, ys, e) = timeline-∷ bucket_ns max_buckets ev.timestamp_ns xs in
      let now = advance_time s ev.timestamp_ns in
      let s' = count_action ev.action now ev.side in
      let z = with_cancel ev y in
      let listed : buckets_after xs ev ≡ z ∷ ys = ap (counted_in ev) e in
      let ahead = advance-Shows max_buckets bucket_ns max_buckets ev.timestamp_ns s.ring xs shows in
      let shows' : Shows max_buckets s'.ring (z ∷ ys) =
        count_action-Shows ev now y ys (subst (Shows max_buckets now.ring) e ahead) in
      let xs' = buckets_after xs ev in
      let front = current-Shows max_buckets s'.ring z ys shows' ∙ sym (ap newest listed) in
      let start = ap start_of listed ∙ sym (ap (λ zs. (newest zs).ts_ns) listed) in
      let shown = subst (Shows max_buckets s'.ring) (sym listed) shows' in
      let seen = window_lem s' xs' shown (buckets_after-InTime xs ev early k) front start in
      let (bid_kept, ask_kept) = count_action-z_bid ev.action now ev.side in
      let (after, bids, asks) = recompute_lem s' xs' shown seen front in
      (
        after,
        bids ∙ ap (λ n. computed (λ x. x.first_sum) n xs') bid_kept,
        asks ∙ ap (λ n. computed (λ x. x.second_sum) n xs') ask_kept,
      )

  events-Shows :
      (s : CancelFactor F) (xs : List (Bucket F)) (evs : List LobEvent)
      → Shows max_buckets s.ring xs
      → InTime bucket_ns xs
      → All Early evs
      → Shows max_buckets (events s evs).ring (all_buckets xs evs)
  events-Shows s xs [] shows k early = shows
  events-Shows s xs (ev ∷ evs) shows k (now, early) =
      events-Shows (on_event s ev) (buckets_after xs ev) evs (event_lem s xs ev shows k now).0
        (buckets_after-InTime xs ev now k) early

  -- After any events from the start on, each side's score is the number of deviations that the
  -- cancellations of that side in the current bucket are above the mean of those in the buckets of the
  -- second before it, and it stays what it was while there is one such bucket only. A cancellation is
  -- the deletion of an entry of the side on any level of the book. The buckets are those of a list of
  -- all of them, which an event extends by as many buckets as the code adds, but in which nothing is
  -- overwritten: the ring never loses one of that second, as long as the clock does not wrap around.
  pub on_event-score :
      (evs : List LobEvent) (ev : LobEvent)
      → All Early evs
      → Early ev
      → let s = events {F = F} init evs in
        let s' = on_event s ev in
        let xs = buckets_after {F = F} (all_buckets [] evs) ev in
        (s'.z_bid ≡ score (λ x. x.first_sum) s.z_bid xs)
        × (s'.z_ask ≡ score (λ x. x.second_sum) s.z_ask xs)
  on_event-score evs ev early now =
      let xs = buckets_after {F = F} (all_buckets [] evs) ev in
      let start : InTime {F = F} bucket_ns [] = (tt, omega arith) in
      let shows =
        events-Shows init [] evs (no_buckets-Shows max_buckets (omega arith)) start early in
      let (_, bids, asks) =
        event_lem (events init evs) (all_buckets [] evs) ev shows
          (all_buckets-InTime [] evs early start) now in
      (
        bids ∙ computed-score (λ x. x.first_sum) (events init evs).z_bid xs,
        asks ∙ computed-score (λ x. x.second_sum) (events init evs).z_ask xs,
      )
