-- ===== src/Oms/Tests.antt =====
-- Runs of src/oms/order_manager.cpp, and its theorems at concrete states.
use smart_quant.Prelude.{◌≡◌, refl, true, false, none, some, List, [], ◌∷◌, arith, inr}
use smart_quant.Prelude.{Option, ◌⊎◌}
use smart_quant.Risk.{on_timer}
use smart_quant.Oms.Execution.{Ending}
use smart_quant.Oms.Reports.{Ends, Closed}
use smart_quant.Prelude.Int.{pos}
use smart_quant.Prelude.Word.{add_64}
use smart_quant.Prelude.Fixed.{Fixed, fixed_double}
use smart_quant.Prelude.Map.Hash
use smart_quant.Prelude.Text.{Text, text_eq, to_string, decimal, strncpy}
use smart_quant.Types.{Side, OrderStatus, Order, Signal, Direction}
use smart_quant.Risk.{default_config, check_signal, on_order_sent}
use smart_quant.Oms.{
  OrderManager, delivered, session_not_found, init, clordid_of, sent_order, send_ioc,
}
use smart_quant.Oms.Execution.{ExecType, execution_report, filled_order, on_execution_report}
use smart_quant.Oms.Open.{WellFormed}
use smart_quant.Oms.Run.{OmsInput, logout, send, cancel, app, oms_run, ids_sent}
use smart_quant.Oms.Unique.{AllDistinct, ids_sent-AllDistinct, oms_run-WellFormed}
use smart_quant.Oms.Reports.{report, final_report, partial_fill_frees_slot, canceled_report}
use smart_quant.Oms.Send.{send_ioc_failed}
use smart_quant.Oms.Single.{
  TradingInput, signal, message, AtMostOne, trading_run, trading_run-AtMostOne,
}

abbrev up : OrderManager Fixed
up = record (init (smart_quant.Risk.init default_config)) { logged_on = true }

up-WellFormed : WellFormed up
up-WellFormed = record { one_each = tt; issued = tt; in_range = omega arith }

-- "SQ_1" and "SQ_2"
abbrev first_id : Text
first_id = 83 ∷ 81 ∷ 95 ∷ 49 ∷ []

abbrev second_id : Text
second_id = 83 ∷ 81 ∷ 95 ∷ 50 ∷ []

id_values : (clordid_of 1 ≡ first_id) × (clordid_of 120 ≡ 83 ∷ 81 ∷ 95 ∷ 49 ∷ 50 ∷ 48 ∷ [])
unfolding clordid_of to_string
id_values = (refl, refl)

abbrev calls : List (OmsInput Fixed)
calls =
    send Side.buy (pos 1) (pos 200_000) 100 delivered
    ∷ cancel first_id delivered
    ∷ app (execution_report (report first_id ExecType.fill (some (pos 200_100)))) none 150
    ∷ cancel first_id delivered
    ∷ send Side.sell (pos 1) (pos 200_000) 200 session_not_found
    ∷ logout
    ∷ send Side.sell (pos 1) (pos 200_000) 300 delivered
    ∷ []

-- The second cancellation finds nothing, and the failed sends send nothing.
ids_sent_value : ids_sent up calls ≡ first_id ∷ second_id ∷ []
unfolding ids_sent clordid_of to_string decimal strncpy Hash.find Hash.insert Hash.erase sent_order
ids_sent_value = refl

ids_sent-AllDistinct_example : AllDistinct (ids_sent up calls)
ids_sent-AllDistinct_example = ids_sent-AllDistinct up calls (omega arith)

oms_run-WellFormed_example : WellFormed (oms_run up calls)
oms_run-WellFormed_example = oms_run-WellFormed up calls up-WellFormed (omega arith)

abbrev one_order : Order
unfolding sent_order
one_order = sent_order first_id Side.buy (pos 1) (pos 200_000) 100

abbrev one_open : OrderManager Fixed
one_open = record up { order_seq = 2; open_orders = (first_id, one_order) ∷ [] }

found : Hash.find first_id one_open.open_orders ≡ some one_order
unfolding Hash.find
found = refl

-- An expiry without a price.
abbrev no_price : Option Fixed
no_price = none

final_report_example :
    let h = on_execution_report one_open (report first_id ExecType.expired no_price) no_price 150 in
    (Ends ExecType.expired no_price
      × Closed one_open h.oms first_id (report first_id ExecType.fill (some (pos 5))) no_price 160)
    ⊎ ((ExecType.expired ≡ ExecType.fill)
        × (no_price ≡ none)
        × (h.oms ≡ one_open)
        × (h.calls ≡ [])
        × (h.ending ≡ Ending.escaped))
final_report_example =
    final_report one_open first_id one_order ExecType.expired no_price no_price 150 ExecType.fill
      (some (pos 5)) 160 found tt

partial_fill_frees_slot_example :
    let part =
      (on_execution_report one_open
        (report first_id ExecType.partial_fill (some (pos 200_000)))
        none
        150).oms in
    let whole =
      (on_execution_report part
        (report first_id ExecType.fill (some (pos 200_100)))
        none
        160).oms in
    (Hash.find first_id part.open_orders
      ≡ some (filled_order one_order (pos 200_000) 150 OrderStatus.pending))
    × (part.risk_mgr.has_position ≡ false)
    × (whole.risk_mgr.total_trades ≡ add_64 (add_64 0 1) 1)
partial_fill_frees_slot_example =
    partial_fill_frees_slot one_open first_id one_order (pos 200_000) (pos 200_100) none 150 160
      found

send_ioc_failed_example :
    let s = send_ioc up Side.buy (pos 1) (pos 200_000) 100 session_not_found in
    (s.clordid ≡ []) × (s.message ≡ none) × (s.oms.open_orders ≡ [])
send_ioc_failed_example =
    send_ioc_failed up Side.buy (pos 1) (pos 200_000) 100 session_not_found up-WellFormed (inr refl)

abbrev rising : Signal Fixed
rising = record {
  trigger_time_ns = 0;
  l1_price = pos 200_000;
  delta_val = pos 0;
  cancel_z = pos 0;
  direction = Direction.buy;
}

abbrev trading : List (TradingInput Fixed)
trading =
    signal rising Side.buy (pos 1) (pos 200_000) 100 delivered
    ∷ signal rising Side.buy (pos 1) (pos 200_000) 110 delivered
    ∷ message (execution_report (report first_id ExecType.fill (some (pos 200_100)))) none 150
    ∷ []

trading_run-AtMostOne_example : AtMostOne (trading_run up trading)
trading_run-AtMostOne_example =
    trading_run-AtMostOne up trading (tt, (tt, ((λ e. absurd (cc)), tt)))
      (record { few = omega arith; freed = λ _. refl })

-- Bought at 100, cancelled at 150, and looked at long after.
canceled_report_example :
    let s = send_ioc up Side.buy (pos 1) (pos 200_000) 100 delivered in
    let o = sent_order s.clordid Side.buy (pos 1) (pos 200_000) 100 in
    let h = on_execution_report s.oms (report s.clordid ExecType.canceled none) none 150 in
    (h.oms ≡ s.oms)
    × (h.calls ≡ [])
    × (h.ending ≡ Ending.returned)
    × (Hash.find s.clordid h.oms.open_orders ≡ some o)
    × (check_signal h.oms.risk_mgr rising 9_000 ≡ false)
    × (on_timer h.oms.risk_mgr 9_000_000_000 ≡ some o)
canceled_report_example =
    canceled_report up Side.buy (pos 1) (pos 200_000) 100 none none 150 rising 9_000 9_000_000_000
      up-WellFormed refl (omega arith) (omega arith)
