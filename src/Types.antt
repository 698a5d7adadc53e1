-- ===== src/Types.antt =====
-- include/smartquant/common/types.hpp: prices, events, signals and orders.
use smart_quant.Prelude.{ℕ, List}
use smart_quant.Prelude.Int.{ℤ, pos}
use smart_quant.Prelude.Double.{Double}

-- Prices are integer ticks; both types are `int64_t`.
abbrev pub Price : Type 0
Price = ℤ

abbrev pub Qty : Type 0
Qty = ℤ

-- `kPriceScale`
abbrev pub price_scale : ℤ
price_scale = pos 100

module _ {F : Type 0} ⦃d : Double F⦄ where
  pub to_price : F → Price
  to_price x = d.to_int (d.add (d.mul x (d.of_int price_scale)) (d.literal 1 2))

  pub from_price : Price → F
  from_price p = d.div (d.of_int p) (d.of_int price_scale)

pub data MdUpdateAction : Type 0 where
  new change delete : MdUpdateAction

pub data MdEntryType : Type 0 where
  bid offer trade : MdEntryType

pub record LobEvent : Type 0 where
  pub timestamp_ns : ℕ
  pub entry_id : ℕ
  pub price : Price
  pub qty : Qty
  pub action : MdUpdateAction
  pub side : MdEntryType

pub data Direction : Type 0 where
  none buy sell : Direction

pub record Signal (F : Type 0) : Type 0 where
  pub trigger_time_ns : ℕ
  pub l1_price : Price
  pub delta_val : F
  pub cancel_z : F
  pub direction : Direction

pub data OrderStatus : Type 0 where
  pending sent filled rejected cancelled : OrderStatus

pub data Side : Type 0 where
  buy sell : Side

-- `clordid` holds the characters of the array up to its terminating zero.
pub record Order : Type 0 where
  pub clordid : List ℕ
  pub sent_ts_ns : ℕ
  pub fill_ts_ns : ℕ
  pub signal_l1 : Price
  pub fill_price : Price
  pub qty : Qty
  pub side : Side
  pub status : OrderStatus
