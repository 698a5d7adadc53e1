-- ===== src/Engine/Pipeline.antt =====
-- The market data gateway and the trading thread of src/apps/engine/main.cpp with the queue between
-- them: messages and rounds of the loop in any order.
pub mod Delivered
mod Tests
use smart_quant.Prelude.{ℕ, ◌+◌, ◌-◌, ◌<◌, ◌^◌, Option, none, some, List, [], ◌∷◌, ◌++◌, length}
use smart_quant.Prelude.Double.{Double}
use smart_quant.Types.{LobEvent}
use smart_quant.Common.SpscQueue.{SpscQueue, pop, size}
use smart_quant.Md.Gateway.{
  Feed, MdEntry, blank_event, queue_bits, on_incremental_refresh, on_snapshot,
}
use smart_quant.Oms.{Delivery}
use smart_quant.Engine.{Trader, alpha_step}

pub record Pipeline (F : Type 0) : Type 0 where
  pub feed : Feed
  pub trader : Trader F
  -- the events that the trading thread has taken
  pub taken : List LobEvent

-- What the clock reads in a round of the loop, and what the sends of the round meet with.
pub record Round : Type 0 where
  pub now_ns : ℕ
  pub cancelled : Delivery
  pub closed : Delivery
  pub outcome : Delivery

-- A message, with its time; or a round.
pub data Input (F : Type 0) : Type 0 where
  refresh snapshot : Option (List (MdEntry F)) → ℕ → Input F
  round : Round → Input F

module _ {F : Type 0} ⦃d : Double F⦄ where
  -- What a round does with an event; without one the loop goes on at once.
  unfoldable pub handle_popped : Pipeline F → Round → Option LobEvent → Pipeline F
  unfolding alpha_step
  handle_popped p r none = p
  handle_popped p r (some ev) = record p {
    trader = alpha_step p.trader ev p.feed.book r.now_ns r.cancelled r.closed r.outcome;
    taken = p.taken ++ ev ∷ [];
  }

  unfoldable pub pop_from : Pipeline F → Round → Option (SpscQueue LobEvent) → Pipeline F
  unfolding pop handle_popped
  pop_from p r none = p
  pop_from p r (some q) =
      let (q', popped) = pop queue_bits blank_event q in
      handle_popped (record p { feed = record p.feed { queue = some q' } }) r popped

  unfoldable pub pipeline_step : Pipeline F → Input F → Pipeline F
  unfolding on_incremental_refresh on_snapshot pop_from
  pipeline_step p (refresh msg ts_ns) = record p { feed = on_incremental_refresh p.feed msg ts_ns }
  pipeline_step p (snapshot msg ts_ns) = record p { feed = on_snapshot p.feed msg ts_ns }
  pipeline_step p (round r) = pop_from p r p.feed.queue

  unfoldable pub pipeline_run : Pipeline F → List (Input F) → Pipeline F
  unfolding pipeline_step
  pipeline_run p [] = p
  pipeline_run p (i ∷ is) = pipeline_run (pipeline_step p i) is
