-- ===== src/Engine/Timeout.antt =====
-- What a position timeout of src/apps/engine/main.cpp leaves open.
use smart_quant.Prelude.{
  ℕ, ◌+◌, ◌<◌, ◌≤◌, ◌^◌, ◌≡◌, ◌≢◌, refl, sym, ap, ◌∙◌, subst, true, Option, none, some, arith,
}
use smart_quant.Prelude.Word.{IsWord}
use smart_quant.Prelude.Double.{Double}
use smart_quant.Prelude.Map.Hash
use smart_quant.Prelude.Text.{Text, text_eq}
use smart_quant.Types.{Price, Qty, Side, Order}
use smart_quant.Md.OrderBook.{OrderBook}
use smart_quant.Risk.{on_order_sent}
use smart_quant.Risk.Gate.{timer_fires}
use smart_quant.Oms.{
  OrderManager, Delivery, delivered, session_not_found, sent_order, cancel_order, cancel_found,
  next_clordid, send_ioc, send_order, enter_order,
}
use smart_quant.Oms.Open.{WellFormed, own_clordid, cancel_order-WellFormed, send_ioc-WellFormed}
use smart_quant.Oms.Send.{send_ioc_delivered}
use smart_quant.Engine.{opposite, closing_price, force_close, check_timeout}

opposite-opposite : (s : Side) → opposite (opposite s) ≡ s
opposite-opposite Side.buy = refl
opposite-opposite Side.sell = refl

module _ {F : Type 0} ⦃d : Double F⦄ where
  orders-cancel_found :
      (m : OrderManager F) (id : Text) (found : Option Order) (outcome : Delivery)
      → let m' = (cancel_found m id found outcome).0 in
        (m'.open_orders ≡ m.open_orders)
        × (m'.logged_on ≡ m.logged_on)
        × (m'.risk_mgr ≡ m.risk_mgr)
        × (m'.order_seq ≤ m.order_seq + 1)
  unfolding cancel_found next_clordid
  orders-cancel_found m id none outcome = (refl, refl, refl, omega arith)
  orders-cancel_found m id (some o) delivered = (refl, refl, refl, omega arith)
  orders-cancel_found m id (some o) session_not_found = (refl, refl, refl, omega arith)

  -- The order that stays and the one that joins it and has the position.
  abbrev pub BothOpen : OrderManager F → Text → Order → Side → Type 0
  BothOpen m id old side =
      let new = m.risk_mgr.open_order in
      (Hash.find id m.open_orders ≡ some old)
      × (new.clordid ≢ id)
      × (Hash.find new.clordid m.open_orders ≡ some new)
      × (new.side ≡ side)
      × (m.risk_mgr.has_position ≡ true)

  send_beside :
      (m : OrderManager F) (id : Text) (old : Order) (side : Side) (qty : Qty) (l1 : Price)
      (now_ns : ℕ)
      → WellFormed m
      → m.order_seq + 1 < 2 ^ 64
      → m.logged_on ≡ true
      → Hash.find id m.open_orders ≡ some old
      → BothOpen (send_ioc m side qty l1 now_ns delivered).oms id old side
  unfolding sent_order on_order_sent
  send_beside m id old side qty l1 now_ns w h up found =
      let s = send_ioc m side qty l1 now_ns delivered in
      let (fresh, entered, others, sent, risk) = send_ioc_delivered m side qty l1 now_ns w up in
      let apart : s.clordid ≢ id = λ e.
        let gone : Hash.find id m.open_orders ≡ none =
          subst (λ j. Hash.find j m.open_orders ≡ none) e fresh in
        absurd (cc) in
      let own =
        own_clordid _ _ s.clordid (sent_order s.clordid side qty l1 now_ns)
          (send_ioc-WellFormed m side qty l1 now_ns delivered w h) entered in
      rw risk (
        others id apart ∙ found,
        (λ e. apart (sym own ∙ e)),
        ap (λ j. Hash.find j s.oms.open_orders) own ∙ entered,
        refl,
        refl,
      )

  -- What a timeout that fires leaves for the next one.
  record Ready (m m' : OrderManager F) (now_ns : ℕ) : Type 0 where
    pub formed : WellFormed m'
    pub up : m'.logged_on ≡ true
    pub opened : m'.risk_mgr.position_open_ns ≡ now_ns
    pub same_cfg : m'.risk_mgr.cfg ≡ m.risk_mgr.cfg
    pub few : m'.order_seq ≤ m.order_seq + 1

  logged_send :
      (m : OrderManager F) (side : Side) (qty : Qty) (l1 : Price) (now_ns : ℕ)
      → m.logged_on ≡ true
      → (send_ioc m side qty l1 now_ns delivered).oms.logged_on ≡ true
  unfolding send_ioc send_order enter_order next_clordid
  logged_send m side qty l1 now_ns up = ground arith

  send-Ready :
      (m : OrderManager F) (side : Side) (qty : Qty) (l1 : Price) (now_ns : ℕ)
      → WellFormed m
      → m.order_seq + 1 < 2 ^ 64
      → m.logged_on ≡ true
      → Ready m (send_ioc m side qty l1 now_ns delivered).oms now_ns
  unfolding on_order_sent send_ioc send_order enter_order next_clordid
  send-Ready m side qty l1 now_ns w h up =
      let (fresh, entered, others, sent, risk) = send_ioc_delivered m side qty l1 now_ns w up in
      record {
        formed = send_ioc-WellFormed m side qty l1 now_ns delivered w h;
        up = logged_send m side qty l1 now_ns up;
        opened = ap (λ r. r.position_open_ns) risk;
        same_cfg = ap (λ r. r.cfg) risk;
        few = rw up (omega arith);
      }

  fires :
      (m : OrderManager F) (book : OrderBook) (now_ns : ℕ) (cancelled : Delivery)
      → WellFormed m
      → m.order_seq + 2 < 2 ^ 64
      → m.logged_on ≡ true
      → m.risk_mgr.has_position ≡ true
      → m.risk_mgr.position_open_ns + m.risk_mgr.cfg.position_timeout_ns ≤ now_ns
      → IsWord now_ns
      → let m' = check_timeout m book now_ns cancelled delivered in
        ((id : Text) (old : Order)
          → Hash.find id m.open_orders ≡ some old
          → BothOpen m' id old (opposite m.risk_mgr.open_order.side))
        × WellFormed m'
        × (m'.logged_on ≡ true)
        × (m'.risk_mgr.position_open_ns ≡ now_ns)
        × (m'.risk_mgr.cfg ≡ m.risk_mgr.cfg)
        × (m'.order_seq ≤ m.order_seq + 2)
  unfolding check_timeout force_close cancel_order
  fires m book now_ns cancelled w h up held late word =
      let o = m.risk_mgr.open_order in
      let m1 = (cancel_order m o.clordid cancelled).0 in
      let price = closing_price book o.side in
      let (same, still_up, same_risk, few) =
        orders-cancel_found m o.clordid (Hash.find o.clordid m.open_orders) cancelled in
      let w1 = cancel_order-WellFormed m o.clordid cancelled w (omega arith) in
      let ready =
        send-Ready m1 (opposite o.side) o.qty price now_ns w1 (omega (arith, few))
          (still_up ∙ up) in
      rw (timer_fires m.risk_mgr now_ns held late word) (
        λ id old found.
            send_beside m1 id old (opposite o.side) o.qty price now_ns w1 (omega (arith, few))
              (still_up ∙ up) (ap (Hash.find id) same ∙ found),
        ready.formed,
        ready.up,
        ready.opened,
        ready.same_cfg ∙ ap (λ r. r.cfg) same_risk,
        omega (arith, ready.few, few),
      )

  -- When an order has been outstanding for the timeout, the session is logged on and the closing
  -- orders get through, the order is still open afterwards, whatever became of its cancellation,
  -- and a second order on the other side is open beside it and has the position. If neither is
  -- answered, the next timeout closes the second order in turn: with an order on the first side,
  -- and all three are open.
  pub timeout_two_orders :
      (m : OrderManager F) (book book' : OrderBook) (old : Order) (now_ns later_ns : ℕ)
      (cancelled cancelled' : Delivery)
      → WellFormed m
      → m.order_seq + 4 < 2 ^ 64
      → m.logged_on ≡ true
      → m.risk_mgr.has_position ≡ true
      → m.risk_mgr.position_open_ns + m.risk_mgr.cfg.position_timeout_ns ≤ now_ns
      → now_ns + m.risk_mgr.cfg.position_timeout_ns ≤ later_ns
      → IsWord later_ns
      → Hash.find m.risk_mgr.open_order.clordid m.open_orders ≡ some old
      → let first = m.risk_mgr.open_order in
        let m1 = check_timeout m book now_ns cancelled delivered in
        let second = m1.risk_mgr.open_order in
        let m2 = check_timeout m1 book' later_ns cancelled' delivered in
        BothOpen m1 first.clordid old (opposite first.side)
        × BothOpen m2 second.clordid second first.side
        × BothOpen m2 first.clordid old first.side
  timeout_two_orders m book book' old now_ns later_ns cancelled cancelled' w h up held late later
        word found =
      let first = m.risk_mgr.open_order in
      let m1 = check_timeout m book now_ns cancelled delivered in
      let second = m1.risk_mgr.open_order in
      let (opens, w1, up1, since, cfg, few) =
        fires m book now_ns cancelled w (omega arith) up held late (omega arith) in
      let both = opens first.clordid old found in
      let (still, apart, entered, side, taken) = both in
      let timeout = ap (λ c. c.position_timeout_ns) cfg in
      let (opens', _, _, _, _, _) =
        fires m1 book' later_ns cancelled' w1 (omega (arith, few)) up1 taken
          (omega (arith, since, timeout, later)) word in
      let back : opposite second.side ≡ first.side =
        (ap opposite side ∙ opposite-opposite first.side) in
      (
        both,
        rw back at opens' second.clordid second entered,
        rw back at opens' first.clordid old still,
      )
