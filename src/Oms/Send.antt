-- ===== src/Oms/Send.antt =====
-- What a send does to the open orders of src/oms/order_manager.cpp, and that without partial fills
-- the trading thread never has two of them.
use smart_quant.Prelude.{ℕ, ◌≡◌, ◌≢◌, refl, ◌⊎◌, true, false, none, some, [], Bool-cases, inl, inr}
use smart_quant.Prelude.Double.{Double}
use smart_quant.Prelude.Map.Hash
use smart_quant.Prelude.Text.{Text, text_eq}
use smart_quant.Types.{Price, Qty, Side}
use smart_quant.Risk.{on_order_sent}
use smart_quant.Oms.{
  OrderManager, Delivery, delivered, session_not_found, new_order_single, clordid_of, next_clordid,
  sent_order, enter_order, roll_back, send_order, send_ioc,
}
use smart_quant.Oms.Open.{WellFormed, clordid_of_fresh}

module _ {F : Type 0} ⦃d : Double F⦄ where
  -- A send that fails, because the session is not logged on or is not found, returns no id and sends
  -- nothing, and the open orders are what they were.
  pub send_ioc_failed :
      (m : OrderManager F) (side : Side) (qty : Qty) (l1 : Price) (ts_ns : ℕ) (outcome : Delivery)
      → WellFormed m
      → (m.logged_on ≡ false) ⊎ (outcome ≡ session_not_found)
      → let s = send_ioc m side qty l1 ts_ns outcome in
        (s.clordid ≡ []) × (s.message ≡ none) × (s.oms.open_orders ≡ m.open_orders)
  unfolding send_ioc send_order enter_order roll_back next_clordid
  send_ioc_failed m side qty l1 ts_ns outcome w (inl f) = rw f (refl, refl, refl)
  send_ioc_failed m side qty l1 ts_ns outcome w (inr lost) =
      rw lost (elim (Bool-cases m.logged_on) [
        | inl t ↦ rw t (
          refl,
          refl,
          Hash.erase-insert (clordid_of m.order_seq) _ m.open_orders (clordid_of_fresh _ _ w),
        )
        | inr f ↦ rw f (refl, refl, refl)
      ])

  -- A send that gets through enters one new order, under an id that no open order has, puts the id,
  -- the side and the quantity in the message, and takes the position.
  pub send_ioc_delivered :
      (m : OrderManager F) (side : Side) (qty : Qty) (l1 : Price) (ts_ns : ℕ)
      → WellFormed m
      → m.logged_on ≡ true
      → let s = send_ioc m side qty l1 ts_ns delivered in
        let o = sent_order s.clordid side qty l1 ts_ns in
        (Hash.find s.clordid m.open_orders ≡ none)
        × (Hash.find s.clordid s.oms.open_orders ≡ some o)
        × ((j : Text) → s.clordid ≢ j → Hash.find j s.oms.open_orders ≡ Hash.find j m.open_orders)
        × (s.message ≡ some (new_order_single s.clordid side (d.of_int qty)))
        × (s.oms.risk_mgr ≡ on_order_sent m.risk_mgr o ts_ns)
  unfolding send_ioc send_order enter_order next_clordid
  send_ioc_delivered m side qty l1 ts_ns w up =
      let id = clordid_of m.order_seq in
      let o = sent_order id side qty l1 ts_ns in
      rw up (
        clordid_of_fresh _ _ w,
        Hash.find-insert_self id o m.open_orders,
        (λ j ne. Hash.find-insert_ne id j o m.open_orders ne),
        refl,
        refl,
      )
