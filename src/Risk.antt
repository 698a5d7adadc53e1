-- ===== src/Risk.antt =====
-- include/smartquant/risk/risk_manager.hpp and src/risk/risk_manager.cpp: the guard of every signal
-- and every fill. Log lines are left out; the callback of `on_timer` is called by the client.
pub mod Gate
pub mod Fuse
pub mod Cooldown
mod Tests
use smart_quant.Prelude.{
  ℕ, ◌+◌, ◌≡◌, Bool, true, false, not, ◌&&◌, ◌||◌, ltb, leb, ◌==◌, if◌then◌else◌, Option, none,
  some, List, [], ◌∷◌,
}
use smart_quant.Prelude.Int.{ℤ, pos, ◌-ℤ◌, ◌==ℤ◌, leb_ℤ}
use smart_quant.Prelude.Word.{add_64, sub_64}
use smart_quant.Prelude.Double.{Double}
use smart_quant.Types.{Order, Signal, Side, OrderStatus, price_scale}

pub record Config (F : Type 0) : Type 0 where
  pub max_daily_loss_usd : F
  pub tick_size_usd : F
  pub cooldown_consec_slips : ℤ
  pub cooldown_slip_ticks : F
  pub single_slip_abort_ticks : F
  pub cooldown_duration_ns : ℕ
  pub position_timeout_ns : ℕ

-- `Order{}`
abbrev pub blank_order : Order
blank_order = record {
  clordid = [];
  sent_ts_ns = 0;
  fill_ts_ns = 0;
  signal_l1 = pos 0;
  fill_price = pos 0;
  qty = pos 0;
  side = Side.buy;
  status = OrderStatus.pending;
}

pub record RiskManager (F : Type 0) : Type 0 where
  pub cfg : Config F
  pub has_position : Bool
  pub open_order : Order
  pub position_open_ns : ℕ
  pub daily_pnl : F
  pub fused : Bool
  pub consec_slip_count : ℕ
  pub cooldown_start_ns : ℕ
  pub total_trades : ℕ

module _ {F : Type 0} ⦃d : Double F⦄ where
  -- The defaults of `Config`.
  abbrev pub default_config : Config F
  default_config = record {
    max_daily_loss_usd = d.literal 50 1;
    tick_size_usd = d.literal 1 1;
    cooldown_consec_slips = pos 3;
    cooldown_slip_ticks = d.literal 2 1;
    single_slip_abort_ticks = d.literal 5 1;
    cooldown_duration_ns = 60_000_000_000;
    position_timeout_ns = 5_000_000_000;
  }

  abbrev pub init : Config F → RiskManager F
  init cfg = record {
    cfg = cfg;
    has_position = false;
    open_order = blank_order;
    position_open_ns = 0;
    daily_pnl = d.literal 0 1;
    fused = false;
    consec_slip_count = 0;
    cooldown_start_ns = 0;
    total_trades = 0;
  }

module _ {F : Type 0} where
  unfoldable pub in_cooldown : RiskManager F → ℕ → Bool
  in_cooldown r now_ns =
      if r.cooldown_start_ns == 0
      then false
      else ltb (sub_64 now_ns r.cooldown_start_ns) r.cfg.cooldown_duration_ns

  unfoldable pub check_signal : RiskManager F → Signal F → ℕ → Bool
  unfolding in_cooldown
  check_signal r sig now_ns =
      if r.fused
      then false
      else (if r.has_position then false else (if in_cooldown r now_ns then false else true))

  unfoldable pub on_order_sent : RiskManager F → Order → ℕ → RiskManager F
  on_order_sent r order now_ns = record r {
    has_position = true;
    open_order = order;
    position_open_ns = now_ns;
  }

  unfoldable pub on_reject : RiskManager F → Order → RiskManager F
  on_reject r order = record r { has_position = false }

  -- The order that the callback `force_close` is called with, if it is called.
  unfoldable pub on_timer : RiskManager F → ℕ → Option Order
  on_timer r now_ns =
      if not r.has_position
      then none
      else (if leb r.cfg.position_timeout_ns (sub_64 now_ns r.position_open_ns)
          then some r.open_order
          else none)

module _ {F : Type 0} ⦃d : Double F⦄ where
  unfoldable pub slippage_ticks : Order → F
  slippage_ticks o =
      if o.fill_price ==ℤ pos 0 || o.signal_l1 ==ℤ pos 0
      then d.literal 0 1
      else d.div (d.abs (d.of_int (o.fill_price -ℤ o.signal_l1))) (d.of_int price_scale)

  -- The cost of the order's slippage, a negative profit.
  unfoldable pub slip_cost : Config F → Order → F
  slip_cost cfg o = d.mul (d.neg (slippage_ticks o)) cfg.tick_size_usd

  -- The first statements of `on_fill`, up to the tests of the slippage.
  unfoldable pub book_fill : RiskManager F → Order → RiskManager F
  unfolding slip_cost
  book_fill r order = record r {
    has_position = false;
    total_trades = add_64 r.total_trades 1;
    daily_pnl = d.add r.daily_pnl (slip_cost r.cfg order);
  }

  -- The counter of consecutive slippages.
  unfoldable pub count_slip : RiskManager F → F → ℕ → RiskManager F
  count_slip r slip now_ns =
      if d.lt r.cfg.cooldown_slip_ticks slip
      then (if leb_ℤ r.cfg.cooldown_consec_slips (pos (r.consec_slip_count + 1))
          then record r { cooldown_start_ns = now_ns; consec_slip_count = 0 }
          else record r { consec_slip_count = r.consec_slip_count + 1 })
      else record r { consec_slip_count = 0 }

  -- The daily loss fuse.
  unfoldable pub check_fuse : RiskManager F → RiskManager F
  check_fuse r =
      if d.lt r.daily_pnl (d.neg r.cfg.max_daily_loss_usd) then record r { fused = true } else r

  unfoldable pub on_fill : RiskManager F → Order → ℕ → RiskManager F
  unfolding book_fill count_slip check_fuse
  on_fill r order now_ns =
      let slip : F = slippage_ticks order in
      let booked = book_fill r order in
      if d.lt r.cfg.single_slip_abort_ticks slip
      then record booked { cooldown_start_ns = now_ns; consec_slip_count = 0 }
      else check_fuse (count_slip booked slip now_ns)

  unfoldable pub reset_daily : RiskManager F → RiskManager F
  reset_daily r = record r {
    daily_pnl = d.literal 0 1;
    fused = false;
    consec_slip_count = 0;
    cooldown_start_ns = 0;
    has_position = false;
    total_trades = 0;
  }

-- A call of the manager by its clients.
pub data RiskCall : Type 0 where
  order_sent filled : Order → ℕ → RiskCall
  rejected : Order → RiskCall
  timer : ℕ → RiskCall
  daily_reset : RiskCall

module _ {F : Type 0} ⦃d : Double F⦄ where
  unfoldable pub risk_step : RiskManager F → RiskCall → RiskManager F
  unfolding on_order_sent on_fill on_reject reset_daily
  risk_step r (order_sent o now_ns) = on_order_sent r o now_ns
  risk_step r (filled o now_ns) = on_fill r o now_ns
  risk_step r (rejected o) = on_reject r o
  risk_step r (timer now_ns) = r
  risk_step r daily_reset = reset_daily r

  unfoldable pub risk_run : RiskManager F → List RiskCall → RiskManager F
  unfolding risk_step
  risk_run r [] = r
  risk_run r (c ∷ cs) = risk_run (risk_step r c) cs
