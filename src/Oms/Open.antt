-- ===== src/Oms/Open.antt =====
-- The open orders of src/oms/order_manager.cpp: each stands under the ClOrdID it was sent with.
use smart_quant.Prelude.{
  ℕ, ◌+◌, ◌≤◌, ◌<◌, ◌^◌, ◌≡◌, refl, Option, none, some, List, [], ◌∷◌, All, arith, Option-cases,
  Bool-cases, inl, inr,
}
use smart_quant.Prelude.Word.{add_64}
use smart_quant.Prelude.Double.{Double}
use smart_quant.Prelude.Map.Hash
use smart_quant.Prelude.Text.{Text, text_eq}
use smart_quant.Types.{Price, Qty, Side, Order}
use smart_quant.Oms.{
  OrderManager, Delivery, delivered, session_not_found, clordid_of, next_clordid, sent_order,
  enter_order, roll_back, send_order, send_ioc, cancel_order, cancel_found,
}
use smart_quant.Oms.Execution.{
  ExecType, AppMessage, execution_report, order_cancel_reject, other_message, on_report, on_fields,
  report_fill, report_end, or_else, filled_order, on_fill_report, on_open_report,
  on_execution_report, on_cancel_reject, from_app,
}
use smart_quant.Oms.Ids.{clordid_of-injective, clordid_of_whole}

-- An order that was sent with a number below `n`.
abbrev pub Issued : ℕ → Text × Order → Type 0
Issued n (id, o) = (s : ℕ) × (s < n) × (id ≡ clordid_of s) × (o.clordid ≡ id)

-- Open orders that were sent with numbers below `n`.
pub record Table (n : ℕ) (orders : List (Text × Order)) : Type 0 where
  pub one_each : Hash.IsMap orders
  pub issued : All (Issued n) orders
  pub in_range : n < 2 ^ 64

abbrev pub WellFormed : {F : Type 0} → OrderManager F → Type 0
WellFormed m = Table m.order_seq m.open_orders

Issued-mono : (n k : ℕ) (xs : List (Text × Order)) → n ≤ k → All (Issued n) xs → All (Issued k) xs
Issued-mono n k [] h is = tt
Issued-mono n k (x ∷ xs) h ((s, lt, e, own), is) =
    ((s, omega arith, e, own), Issued-mono n k xs h is)

Table-next :
    (n : ℕ) (xs : List (Text × Order)) → Table n xs → n + 1 < 2 ^ 64 → Table (add_64 n 1) xs
Table-next n xs t h = record {
  one_each = t.one_each;
  issued = Issued-mono n (add_64 n 1) xs (omega arith) t.issued;
  in_range = omega arith;
}

Table-insert :
    (n : ℕ) (xs : List (Text × Order)) (id : Text) (o : Order)
    → Table n xs
    → Issued n (id, o)
    → Table n (Hash.insert id o xs)
unfolding Hash.insert
Table-insert n xs id o t i = record {
  one_each = Hash.insert-IsMap id o xs t.one_each;
  issued = (i, Hash.All-erase (Issued n) id xs t.issued);
  in_range = t.in_range;
}

Table-erase :
    (n : ℕ) (xs : List (Text × Order)) (id : Text) → Table n xs → Table n (Hash.erase id xs)
Table-erase n xs id t = record {
  one_each = Hash.erase-IsMap id xs t.one_each;
  issued = Hash.All-erase (Issued n) id xs t.issued;
  in_range = t.in_range;
}

-- The next ClOrdID is no open order's.
pub clordid_of_fresh :
    (n : ℕ) (xs : List (Text × Order)) → Table n xs → Hash.find (clordid_of n) xs ≡ none
clordid_of_fresh n xs t = elim (Option-cases (Hash.find (clordid_of n) xs)) [
  | inl e ↦ e
  | inr (o, e) ↦
      let (s, lt, same, own) = Hash.All-find (Issued n) (clordid_of n) xs t.issued e in
      let in_range = t.in_range in
      absurd (omega (arith, clordid_of-injective n s in_range (omega arith) same))
]

-- An open order is under its own id.
pub own_clordid :
    (n : ℕ) (xs : List (Text × Order)) (id : Text) (o : Order)
    → Table n xs
    → Hash.find id xs ≡ some o
    → o.clordid ≡ id
own_clordid n xs id o t e =
    let (s, lt, same, own) = Hash.All-find (Issued n) id xs t.issued e in own

-- The order that a send enters is under its own id.
sent_order-Issued :
    (n k : ℕ) (side : Side) (qty : Qty) (l1 : Price) (ts_ns : ℕ)
    → n < k
    → Issued k (clordid_of n, sent_order (clordid_of n) side qty l1 ts_ns)
unfolding sent_order
sent_order-Issued n k side qty l1 ts_ns h = (n, h, refl, clordid_of_whole n)

entered-Table :
    (n : ℕ) (xs : List (Text × Order)) (side : Side) (qty : Qty) (l1 : Price) (ts_ns : ℕ)
    → Table n xs
    → n + 1 < 2 ^ 64
    → Table
        (add_64 n 1)
        (Hash.insert (clordid_of n) (sent_order (clordid_of n) side qty l1 ts_ns) xs)
entered-Table n xs side qty l1 ts_ns t h =
    Table-insert _ _ _ _ (Table-next _ _ t h)
      (sent_order-Issued n _ side qty l1 ts_ns (omega arith))

module _ {F : Type 0} ⦃d : Double F⦄ where
  pub send_ioc-WellFormed :
      (m : OrderManager F) (side : Side) (qty : Qty) (l1 : Price) (ts_ns : ℕ) (outcome : Delivery)
      → WellFormed m
      → m.order_seq + 1 < 2 ^ 64
      → WellFormed (send_ioc m side qty l1 ts_ns outcome).oms
  unfolding send_ioc send_order enter_order next_clordid roll_back
  send_ioc-WellFormed m side qty l1 ts_ns delivered w h = elim (Bool-cases m.logged_on) [
    | inl t ↦ rw t (entered-Table _ _ side qty l1 ts_ns w h)
    | inr f ↦ rw f w
  ]
  send_ioc-WellFormed m side qty l1 ts_ns session_not_found w h = elim (Bool-cases m.logged_on) [
    | inl t ↦
        rw t (Table-erase _ _ (clordid_of m.order_seq) (entered-Table _ _ side qty l1 ts_ns w h))
    | inr f ↦ rw f w
  ]

  cancel_found-WellFormed :
      (m : OrderManager F) (id : Text) (found : Option Order) (outcome : Delivery)
      → WellFormed m
      → m.order_seq + 1 < 2 ^ 64
      → WellFormed (cancel_found m id found outcome).0
  unfolding cancel_found next_clordid
  cancel_found-WellFormed m id none outcome w h = w
  cancel_found-WellFormed m id (some o) delivered w h = Table-next _ _ w h
  cancel_found-WellFormed m id (some o) session_not_found w h = Table-next _ _ w h

  pub cancel_order-WellFormed :
      (m : OrderManager F) (id : Text) (outcome : Delivery)
      → WellFormed m
      → m.order_seq + 1 < 2 ^ 64
      → WellFormed (cancel_order m id outcome).0
  unfolding cancel_order
  cancel_order-WellFormed m id outcome w h =
      cancel_found-WellFormed m id (Hash.find id m.open_orders) outcome w h

  on_fill_report-WellFormed :
      (m : OrderManager F) (id : Text) (o : Order) (et : ExecType) (px : Option F) (now_ns : ℕ)
      → WellFormed m
      → Issued m.order_seq (id, o)
      → WellFormed (on_fill_report m id o et px now_ns).oms
  unfolding on_fill_report report_fill filled_order
  on_fill_report-WellFormed m id o et none now_ns w i = w
  on_fill_report-WellFormed m id o ExecType.fill (some px) now_ns w i =
      Table-erase _ _ id (Table-insert _ _ id _ w i)
  on_fill_report-WellFormed m id o ExecType.partial_fill (some px) now_ns w i =
      Table-insert _ _ id _ w i
  on_fill_report-WellFormed m id o ExecType.rejected (some px) now_ns w i =
      Table-insert _ _ id _ w i
  on_fill_report-WellFormed m id o ExecType.expired (some px) now_ns w i = Table-insert _ _ id _ w i
  on_fill_report-WellFormed m id o ExecType.canceled (some px) now_ns w i =
      Table-insert _ _ id _ w i
  on_fill_report-WellFormed m id o ExecType.other (some px) now_ns w i = Table-insert _ _ id _ w i

  on_open_report-WellFormed :
      (m : OrderManager F) (id : Text) (o : Order) (et : ExecType) (px unset_px : Option F)
      (now_ns : ℕ)
      → WellFormed m
      → Issued m.order_seq (id, o)
      → WellFormed (on_open_report m id o et px unset_px now_ns).oms
  unfolding on_open_report report_end
  on_open_report-WellFormed m id o ExecType.fill px unset_px now_ns w i =
      on_fill_report-WellFormed m id o ExecType.fill (or_else px unset_px) now_ns w i
  on_open_report-WellFormed m id o ExecType.partial_fill px unset_px now_ns w i =
      on_fill_report-WellFormed m id o ExecType.partial_fill (or_else px unset_px) now_ns w i
  on_open_report-WellFormed m id o ExecType.rejected px unset_px now_ns w i =
      Table-erase _ _ id (Table-insert _ _ id _ w i)
  on_open_report-WellFormed m id o ExecType.expired px unset_px now_ns w i =
      Table-erase _ _ id (Table-insert _ _ id _ w i)
  on_open_report-WellFormed m id o ExecType.canceled px unset_px now_ns w i = w
  on_open_report-WellFormed m id o ExecType.other px unset_px now_ns w i = w

  on_report-WellFormed :
      (m : OrderManager F) (id : Text) (et : ExecType) (px unset_px : Option F) (now_ns : ℕ)
      → WellFormed m
      → WellFormed (on_report m id (Hash.find id m.open_orders) et px unset_px now_ns).oms
  unfolding on_report
  on_report-WellFormed m id et px unset_px now_ns w =
      elim (Option-cases (Hash.find id m.open_orders)) [
        | inl e ↦ rw e w
        | inr (o, e) ↦ rw e (
            on_open_report-WellFormed m id o et px unset_px now_ns w
              (Hash.All-find (Issued m.order_seq) id m.open_orders w.issued e))
      ]

  on_fields-WellFormed :
      (m : OrderManager F) (id : Option Text) (et : Option ExecType) (px unset_px : Option F)
      (now_ns : ℕ)
      → WellFormed m
      → WellFormed (on_fields m id et px unset_px now_ns).oms
  unfolding on_fields
  on_fields-WellFormed m none et px unset_px now_ns w = w
  on_fields-WellFormed m (some id) none px unset_px now_ns w = w
  on_fields-WellFormed m (some id) (some et) px unset_px now_ns w =
      on_report-WellFormed m id et px unset_px now_ns w

  pub from_app-WellFormed :
      (m : OrderManager F) (msg : AppMessage F) (unset_px : Option F) (now_ns : ℕ)
      → WellFormed m
      → WellFormed (from_app m msg unset_px now_ns).oms
  unfolding from_app on_cancel_reject on_execution_report
  from_app-WellFormed m (execution_report msg) unset_px now_ns w =
      on_fields-WellFormed m msg.clordid msg.exec_type msg.last_px unset_px now_ns w
  from_app-WellFormed m (order_cancel_reject none) unset_px now_ns w = w
  from_app-WellFormed m (order_cancel_reject (some id)) unset_px now_ns w = w
  from_app-WellFormed m other_message unset_px now_ns w = w
