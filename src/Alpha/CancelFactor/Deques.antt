-- ===== src/Alpha/CancelFactor/Deques.antt =====
-- The deques of src/alpha/cancel_factor.cpp stay in step.
use smart_quant.Prelude.{
  ℕ, suc, ◌≤◌, ◌≡◌, ltb, List, [], ◌∷◌, ◌++◌, length, length-append, arith, Bool-cases, inl, inr,
}
use smart_quant.Prelude.Double.{Double}
use smart_quant.Types.{LobEvent, MdUpdateAction, MdEntryType, new, change, delete}
use smart_quant.Alpha.Buckets.{current, cutoff_of}
use smart_quant.Alpha.CancelFactor.{
  CancelFactor, tail_of, expire, advance_time, count_action, window, record_scores,
  recompute_zscores, on_event, quantile_ns,
}

-- One score of each side for each time.
pub record Aligned {F : Type 0} (s : CancelFactor F) : Type 0 where
  pub bids : length s.recent_z_bid ≡ length s.recent_ts
  pub asks : length s.recent_z_ask ≡ length s.recent_ts

-- The oldest time is not before the cutoff.
abbrev pub Unexpired : ℕ → List ℕ → Type 0
Unexpired cutoff [] = Unit {0}
Unexpired cutoff (t ∷ ts) = cutoff ≤ t

length-tail_of : {A : Type 0} (xs : List A) (n : ℕ) → length xs ≡ suc n → length (tail_of xs) ≡ n
length-tail_of [] n e = absurd (omega arith)
length-tail_of (x ∷ xs) n e = omega arith

expire-Unexpired :
    {F : Type 0} (cutoff : ℕ) (ts : List ℕ) (bids asks : List F)
    → length bids ≡ length ts
    → length asks ≡ length ts
    → let kept = expire cutoff ts bids asks in
      (length kept.z_bids ≡ length kept.times)
      × (length kept.z_asks ≡ length kept.times)
      × Unexpired cutoff kept.times
unfolding expire
expire-Unexpired cutoff [] bids asks eb ea = (eb, ea, tt)
expire-Unexpired cutoff (t ∷ ts) bids asks eb ea = elim (Bool-cases (ltb t cutoff)) [
  | inl old ↦ rw old (
      expire-Unexpired cutoff ts (tail_of bids) (tail_of asks) (length-tail_of bids _ eb)
        (length-tail_of asks _ ea))
  | inr kept ↦ rw kept (eb, ea, ground arith)
]

module _ {F : Type 0} ⦃d : Double F⦄ where
  record_scores-Aligned :
      (s : CancelFactor F)
      → Aligned s
      → Aligned (record_scores s)
        × Unexpired (cutoff_of quantile_ns (current s.ring).ts_ns) (record_scores s).recent_ts
  unfolding record_scores
  record_scores-Aligned s a =
      let now = (current s.ring).ts_ns in
      let (b, k, u) =
        expire-Unexpired (cutoff_of quantile_ns now) (s.recent_ts ++ now ∷ [])
          (s.recent_z_bid ++ (record_scores s).z_bid ∷ [])
          (s.recent_z_ask ++ (record_scores s).z_ask ∷ [])
          (omega (
            arith,
            length-append s.recent_z_bid ((record_scores s).z_bid ∷ []),
            length-append s.recent_ts (now ∷ []),
            a.bids,
          ))
          (omega (
            arith,
            length-append s.recent_z_ask ((record_scores s).z_ask ∷ []),
            length-append s.recent_ts (now ∷ []),
            a.asks,
          )) in
      (record { bids = b; asks = k }, u)

  recompute_zscores-Aligned : (s : CancelFactor F) → Aligned s → Aligned (recompute_zscores s)
  unfolding recompute_zscores
  recompute_zscores-Aligned s a = elim (Bool-cases (ltb s.ring.count 2)) [
    | inl t ↦ rw t a
    | inr f ↦ rw f (elim (Bool-cases (ltb (length (window s)) 2)) [
      | inl t ↦ rw t a
      | inr g ↦ rw g (record_scores-Aligned s a).0
    ])
  ]

  count_action-Aligned :
      (a : MdUpdateAction) (s : CancelFactor F) (side : MdEntryType)
      → Aligned s
      → Aligned (count_action a s side)
  count_action-Aligned new s side h = h
  count_action-Aligned change s side h = h
  count_action-Aligned delete s side h = record { bids = h.bids; asks = h.asks }

  -- Every event.
  abbrev pub on_events : CancelFactor F → List LobEvent → CancelFactor F
  on_events s [] = s
  on_events s (ev ∷ evs) = on_events (on_event s ev) evs

  on_event-Aligned : (s : CancelFactor F) (ev : LobEvent) → Aligned s → Aligned (on_event s ev)
  unfolding on_event advance_time
  on_event-Aligned s ev h =
      recompute_zscores-Aligned (count_action ev.action (advance_time s ev.timestamp_ns) ev.side) (
        count_action-Aligned ev.action (advance_time s ev.timestamp_ns) ev.side
          (record { bids = h.bids; asks = h.asks }))

  -- After any events the three deques have the same length, so popping them together and reading
  -- both scores at an index of one never goes past an end.
  pub on_events-Aligned :
      (s : CancelFactor F) (evs : List LobEvent) → Aligned s → Aligned (on_events s evs)
  on_events-Aligned s [] h = h
  on_events-Aligned s (ev ∷ evs) h = on_events-Aligned (on_event s ev) evs (on_event-Aligned s ev h)
