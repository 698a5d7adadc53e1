-- ===== src/Alpha/SignalEngine/Signals.antt =====
-- When src/alpha/signal_engine.cpp signals, and what.
use smart_quant.Prelude.{
  ℕ, suc, ◌<◌, ◌≡◌, refl, Bool, true, false, ◌&&◌, ◌⊎◌, Bool-cases, ◌||◌, arith, if◌then◌else◌, inl,
  inr, List, [], length,
}
use smart_quant.Prelude.Double.{Double}
use smart_quant.Types.{LobEvent, Signal, Direction}
use smart_quant.Md.OrderBook.{OrderBook, best_bid, best_ask}
use smart_quant.Alpha.DeltaFactor.{value}
use smart_quant.Alpha.CancelFactor.{max_of, max_each, dynamic_threshold}
use smart_quant.Alpha.CancelFactor.Percentile.{ScoreLaws, rank, count_below, above_quantile}
use smart_quant.Alpha.SignalEngine.{
  SignalEngine, feed_factors, thresh_cancel, direction_of, emit, on_event,
}

and_false : (b : Bool) → false ≡ (b && false)
and_false true = refl
and_false false = refl

and_both : (a b : Bool) → (a && b) ≡ true → (a ≡ true) × (b ≡ true)
and_both a b h = (ground arith, ground arith)

module _ {F : Type 0} ⦃d : Double F⦄ where
  -- The larger score of each time of the last 30 seconds.
  abbrev pub scores : SignalEngine F → List F
  scores s = max_each s.cancel.recent_z_bid s.cancel.recent_z_ask

  -- The score is abnormal: above the least score, and above the 95th percentile of the scores, or
  -- above 2.0 if there are none.
  abbrev pub Abnormal : SignalEngine F → F → Type 0
  Abnormal s z =
      (d.lt s.min_cancel_z z ≡ true)
      × (((scores s ≡ []) × (d.lt (d.literal 2 1) z ≡ true))
          ⊎ ((n : ℕ) × (length (scores s) ≡ suc n) × (rank F n < count_below z (scores s))))

  -- The last signal is the one of the event.
  abbrev pub Signals : Signal F → LobEvent → Direction → SignalEngine F → OrderBook → Type 0
  Signals sig ev Direction.buy fed book =
      (d.lt fed.thresh_delta (value fed.delta) ≡ true)
      × Abnormal fed fed.cancel.z_ask
      × (sig.l1_price ≡ best_ask book)
      × (sig.cancel_z ≡ fed.cancel.z_ask)
  Signals sig ev Direction.sell fed book =
      (d.lt (value fed.delta) (d.neg fed.thresh_delta) ≡ true)
      × Abnormal fed fed.cancel.z_bid
      × (sig.l1_price ≡ best_bid book)
      × (sig.cancel_z ≡ fed.cancel.z_bid)
  Signals sig ev Direction.none fed book = ⊥

  -- The larger of two thresholds is passed exactly if both are.
  lt-max_of : (o : ScoreLaws F) (x y z : F) → d.lt (max_of x y) z ≡ (d.lt x z && d.lt y z)
  lt-max_of o x y z = elim (Bool-cases (d.lt x y)) [
    | inl t ↦ elim (Bool-cases (d.lt y z)) [
      | inl u ↦ let both = o.trans x y z t u in rw (t, u, both) refl
      | inr g ↦ rw (t, g) (and_false (d.lt x z))
    ]
    | inr f ↦ elim (Bool-cases (d.lt x z)) [
      | inl u ↦ elim (o.cotrans x y z u) [ inl a ↦ absurd (cc) | inr b ↦ rw (f, u, b) refl ]
      | inr g ↦ rw (f, g) refl
    ]
  ]

  -- Above the least score and above the dynamic threshold.
  abbrev pub passes : SignalEngine F → F → Bool
  passes s z = d.lt s.min_cancel_z z && d.lt (dynamic_threshold s.cancel) z

  -- Strong buying while the asks collapse, and strong selling while the bids do.
  abbrev pub buys : SignalEngine F → Bool
  buys s = d.lt s.thresh_delta (value s.delta) && passes s s.cancel.z_ask

  abbrev pub sells : SignalEngine F → Bool
  sells s = d.lt (value s.delta) (d.neg s.thresh_delta) && passes s s.cancel.z_bid

  lt-thresh_cancel :
      (o : ScoreLaws F) (s : SignalEngine F) (z : F) → d.lt (thresh_cancel s) z ≡ passes s z
  unfolding thresh_cancel
  lt-thresh_cancel o s z = lt-max_of o s.min_cancel_z (dynamic_threshold s.cancel) z

  passes-Abnormal :
      (o : ScoreLaws F) (s : SignalEngine F) (z : F) → passes s z ≡ true → Abnormal s z
  unfolding dynamic_threshold
  passes-Abnormal o s z h =
      let (least, most) =
        and_both (d.lt s.min_cancel_z z) (d.lt (dynamic_threshold s.cancel) z) h in
      (least, above_quantile o z (scores s) most)

  direction_of_lem :
      (o : ScoreLaws F) (s : SignalEngine F)
      → direction_of s
        ≡ (if buys s then Direction.buy else (if sells s then Direction.sell else Direction.none))
  unfolding direction_of
  direction_of_lem o s =
      rw (lt-thresh_cancel o s s.cancel.z_ask) (rw (lt-thresh_cancel o s s.cancel.z_bid) refl)

  fed-last_signal :
      (s : SignalEngine F) (ev : LobEvent) (book : OrderBook)
      → (feed_factors s ev book).last_signal ≡ s.last_signal
  unfolding feed_factors
  fed-last_signal s ev book = refl

  -- With the laws of comparison, an event makes a signal exactly if, once both factors have taken it,
  -- there is strong buying and the score of the asks is above both thresholds, or strong selling and
  -- the score of the bids is. The signal then is a buy at the best ask or a sell at the best bid, a
  -- buy if both hold, with the time of the event; and its score is above the least score, and of the
  -- `n + 1` scores remembered, the larger of the two sides each, it is above more than 95 % of `n`
  -- rounded down, or above 2.0 if none is remembered. Without a signal the last one stays.
  pub on_event-Signal :
      (o : ScoreLaws F) (s : SignalEngine F) (ev : LobEvent) (book : OrderBook)
      → let fed = feed_factors s ev book in
        let (s', fired) = on_event s ev book in
        let sig = s'.last_signal in
        (fired ≡ (buys fed || sells fed))
        × (((fired ≡ false) × (sig ≡ s.last_signal))
            ⊎ ((fired ≡ true)
                × Signals sig ev sig.direction fed book
                × (sig.trigger_time_ns ≡ ev.timestamp_ns)
                × (sig.delta_val ≡ value fed.delta)
                × ((buys fed ≡ false) ⊎ (sig.direction ≡ Direction.buy))))
  unfolding on_event emit
  on_event-Signal o s ev book =
      let fed = feed_factors s ev book in
      rw (direction_of_lem o fed) (elim (Bool-cases (buys fed)) [
        | inl b ↦
            let (strong, high) = and_both _ (passes fed fed.cancel.z_ask) b in
            rw b (
              refl,
              inr (
                refl,
                (strong, passes-Abnormal o fed fed.cancel.z_ask high, refl, refl),
                refl,
                refl,
                inr refl,
              ),
            )
        | inr n ↦ rw n (elim (Bool-cases (sells fed)) [
          | inl b ↦
              let (strong, high) = and_both _ (passes fed fed.cancel.z_bid) b in
              rw b (
                refl,
                inr (
                  refl,
                  (strong, passes-Abnormal o fed fed.cancel.z_bid high, refl, refl),
                  refl,
                  refl,
                  inl refl,
                ),
              )
          | inr m ↦ rw m (refl, inl (refl, fed-last_signal s ev book))
        ])
      ])
