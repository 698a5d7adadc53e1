-- ===== src/Oms/Unique.antt =====
-- No ClOrdID of src/oms/order_manager.cpp goes out twice.
use smart_quant.Prelude.{
  ℕ, ◌+◌, ◌≤◌, ◌<◌, ◌^◌, ◌≡◌, ◌≢◌, refl, subst, ◌∙◌, ◌⊎◌, inl, inr, Option, none, some, List, [],
  ◌∷◌, All, arith, length, Bool-cases,
}
use smart_quant.Prelude.Double.{Double}
use smart_quant.Prelude.Map.Hash
use smart_quant.Prelude.Text.{Text, text_eq}
use smart_quant.Types.{Order}
use smart_quant.Oms.{
  OrderManager, Delivery, delivered, session_not_found, clordid_of, on_logon, on_logout,
  next_clordid, enter_order, roll_back, send_order, send_ioc, cancel_order, cancel_found,
}
use smart_quant.Oms.Execution.{
  ExecType, AppMessage, execution_report, order_cancel_reject, other_message, on_report, on_fields,
  report_fill, report_end, on_fill_report, on_open_report, on_execution_report, on_cancel_reject,
  from_app,
}
use smart_quant.Oms.Ids.{clordid_of-injective}
use smart_quant.Oms.Open.{
  WellFormed, send_ioc-WellFormed, cancel_order-WellFormed, from_app-WellFormed,
}
use smart_quant.Oms.Run.{
  OmsInput, logon, logout, send, cancel, app, oms_step, oms_run, ids_of, ids_sent,
}

abbrev pub AllDistinct : List Text → Type 0
AllDistinct [] = Unit {0}
AllDistinct (id ∷ ids) = All (λ j. id ≢ j) ids × AllDistinct ids

-- An id made from a number that is not below `n`.
abbrev From : ℕ → Text → Type 0
From n id = (s : ℕ) × (n ≤ s) × (s < 2 ^ 64) × (id ≡ clordid_of s)

From-mono : (n k : ℕ) (ids : List Text) → n ≤ k → All (From k) ids → All (From n) ids
From-mono n k [] h f = tt
From-mono n k (id ∷ ids) h ((s, le, w, e), f) = ((s, omega arith, w, e), From-mono n k ids h f)

later_ids_differ :
    (n : ℕ) (ids : List Text)
    → n < 2 ^ 64
    → All (From (n + 1)) ids
    → All (λ j. clordid_of n ≢ j) ids
later_ids_differ n [] h f = tt
later_ids_differ n (id ∷ ids) h ((s, le, w, e), f) =
    ((λ same. omega (arith, clordid_of-injective n s h w (same ∙ e))), later_ids_differ n ids h f)

-- A call sends nothing, or a message with the next id, which is then used up.
abbrev UsesNext : ℕ → List Text → ℕ → Type 0
UsesNext n ids k = ((ids ≡ []) × (n ≤ k) × (k ≤ n + 1)) ⊎ ((ids ≡ clordid_of n ∷ []) × (k ≡ n + 1))

module _ {F : Type 0} ⦃d : Double F⦄ where
  seq-on_fill_report :
      (m : OrderManager F) (id : Text) (o : Order) (et : ExecType) (px : Option F) (now_ns : ℕ)
      → (on_fill_report m id o et px now_ns).oms.order_seq ≡ m.order_seq
  unfolding on_fill_report report_fill
  seq-on_fill_report m id o et none now_ns = refl
  seq-on_fill_report m id o ExecType.fill (some px) now_ns = refl
  seq-on_fill_report m id o ExecType.partial_fill (some px) now_ns = refl
  seq-on_fill_report m id o ExecType.rejected (some px) now_ns = refl
  seq-on_fill_report m id o ExecType.expired (some px) now_ns = refl
  seq-on_fill_report m id o ExecType.canceled (some px) now_ns = refl
  seq-on_fill_report m id o ExecType.other (some px) now_ns = refl

  seq-on_report :
      (m : OrderManager F) (id : Text) (found : Option Order) (et : ExecType)
      (px unset_px : Option F) (now_ns : ℕ)
      → (on_report m id found et px unset_px now_ns).oms.order_seq ≡ m.order_seq
  unfolding on_report on_open_report report_end
  seq-on_report m id none et px unset_px now_ns = refl
  seq-on_report m id (some o) ExecType.fill px unset_px now_ns =
      seq-on_fill_report m id o ExecType.fill _ now_ns
  seq-on_report m id (some o) ExecType.partial_fill px unset_px now_ns =
      seq-on_fill_report m id o ExecType.partial_fill _ now_ns
  seq-on_report m id (some o) ExecType.rejected px unset_px now_ns = refl
  seq-on_report m id (some o) ExecType.expired px unset_px now_ns = refl
  seq-on_report m id (some o) ExecType.canceled px unset_px now_ns = refl
  seq-on_report m id (some o) ExecType.other px unset_px now_ns = refl

  seq-on_fields :
      (m : OrderManager F) (id : Option Text) (et : Option ExecType) (px unset_px : Option F)
      (now_ns : ℕ)
      → (on_fields m id et px unset_px now_ns).oms.order_seq ≡ m.order_seq
  unfolding on_fields
  seq-on_fields m none et px unset_px now_ns = refl
  seq-on_fields m (some id) none px unset_px now_ns = refl
  seq-on_fields m (some id) (some et) px unset_px now_ns =
      seq-on_report m id _ et px unset_px now_ns

  seq-from_app :
      (m : OrderManager F) (msg : AppMessage F) (unset_px : Option F) (now_ns : ℕ)
      → (from_app m msg unset_px now_ns).oms.order_seq ≡ m.order_seq
  unfolding from_app on_execution_report on_cancel_reject
  seq-from_app m (execution_report msg) unset_px now_ns = seq-on_fields m _ _ _ unset_px now_ns
  seq-from_app m (order_cancel_reject none) unset_px now_ns = refl
  seq-from_app m (order_cancel_reject (some id)) unset_px now_ns = refl
  seq-from_app m other_message unset_px now_ns = refl

  cancel_found-UsesNext :
      (m : OrderManager F) (id : Text) (found : Option Order) (outcome : Delivery)
      → m.order_seq + 1 < 2 ^ 64
      → let (m', out) = cancel_found m id found outcome in
        UsesNext m.order_seq (ids_of out) m'.order_seq
  unfolding cancel_found next_clordid
  cancel_found-UsesNext m id none outcome h = inl (refl, omega arith, omega arith)
  cancel_found-UsesNext m id (some o) delivered h = inr (refl, omega arith)
  cancel_found-UsesNext m id (some o) session_not_found h = inl (refl, omega arith, omega arith)

  oms_step-UsesNext :
      (m : OrderManager F) (c : OmsInput F)
      → m.order_seq + 1 < 2 ^ 64
      → let (m', out) = oms_step m c in UsesNext m.order_seq (ids_of out) m'.order_seq
  unfolding oms_step on_logon on_logout send_ioc send_order enter_order roll_back next_clordid
      cancel_order
  oms_step-UsesNext m (logon sid) h = inl (refl, omega arith, omega arith)
  oms_step-UsesNext m logout h = inl (refl, omega arith, omega arith)
  oms_step-UsesNext m (send side qty l1 ts_ns delivered) h = elim (Bool-cases m.logged_on) [
    | inl t ↦ rw t (inr (refl, omega arith))
    | inr f ↦ rw f (inl (refl, omega arith, omega arith))
  ]
  oms_step-UsesNext m (send side qty l1 ts_ns session_not_found) h = elim (Bool-cases m.logged_on) [
    | inl t ↦ rw t (inl (refl, omega arith, omega arith))
    | inr f ↦ rw f (inl (refl, omega arith, omega arith))
  ]
  oms_step-UsesNext m (cancel id outcome) h =
      cancel_found-UsesNext m id (Hash.find id m.open_orders) outcome h
  oms_step-UsesNext m (app msg unset_px now_ns) h =
      let same = seq-from_app m msg unset_px now_ns in inl (refl, omega arith, omega arith)

  ids_unique :
      (m : OrderManager F) (cs : List (OmsInput F))
      → m.order_seq + length cs < 2 ^ 64
      → AllDistinct (ids_sent m cs) × All (From m.order_seq) (ids_sent m cs)
  unfolding ids_sent
  ids_unique m [] h = (tt, tt)
  ids_unique m (c ∷ cs) h = elim (oms_step-UsesNext m c (omega arith)) [
    | inl (none_sent, le, ge) ↦
        let (distinct, from) = ids_unique (oms_step m c).0 cs (omega arith) in
        rw none_sent (distinct, From-mono _ _ _ le from)
    | inr (one_sent, used) ↦
        let (distinct, from) = ids_unique (oms_step m c).0 cs (omega arith) in
        let from' = subst (λ k. All (From k) (ids_sent (oms_step m c).0 cs)) used from in
        rw one_sent (
          (later_ids_differ m.order_seq _ (omega arith) from', distinct),
          (
            (m.order_seq, omega arith, omega arith, refl),
            From-mono m.order_seq _ _ (omega arith) from',
          ),
        )
  ]

  -- Unless the 64-bit counter would wrap, the messages that go out have different ClOrdIDs, whatever
  -- orders, cancellations, reports and failures come in between.
  pub ids_sent-AllDistinct :
      (m : OrderManager F) (cs : List (OmsInput F))
      → m.order_seq + length cs < 2 ^ 64
      → AllDistinct (ids_sent m cs)
  ids_sent-AllDistinct m cs h = (ids_unique m cs h).0

  oms_step-WellFormed :
      (m : OrderManager F) (c : OmsInput F)
      → WellFormed m
      → m.order_seq + 1 < 2 ^ 64
      → WellFormed (oms_step m c).0
  unfolding oms_step on_logon on_logout
  oms_step-WellFormed m (logon sid) w h = w
  oms_step-WellFormed m logout w h = w
  oms_step-WellFormed m (send side qty l1 ts_ns outcome) w h =
      send_ioc-WellFormed m side qty l1 ts_ns outcome w h
  oms_step-WellFormed m (cancel id outcome) w h = cancel_order-WellFormed m id outcome w h
  oms_step-WellFormed m (app msg unset_px now_ns) w h = from_app-WellFormed m msg unset_px now_ns w

  -- Unless the counter would wrap, every sequence of calls leaves each open order under the ClOrdID
  -- that it was sent with, under no other, with that id whole in its array, and the next id is no
  -- open order's.
  pub oms_run-WellFormed :
      (m : OrderManager F) (cs : List (OmsInput F))
      → WellFormed m
      → m.order_seq + length cs < 2 ^ 64
      → WellFormed (oms_run m cs)
  unfolding oms_run
  oms_run-WellFormed m [] w h = w
  oms_run-WellFormed m (c ∷ cs) w h =
      oms_run-WellFormed (oms_step m c).0 cs (oms_step-WellFormed m c w (omega arith))
        (bound (oms_step-UsesNext m c (omega arith)))
    where
      bound :
          UsesNext m.order_seq (ids_of (oms_step m c).1) (oms_step m c).0.order_seq
          → (oms_step m c).0.order_seq + length cs < 2 ^ 64
      bound (inl (e, le, ge)) = omega arith
      bound (inr (e, used)) = omega arith
