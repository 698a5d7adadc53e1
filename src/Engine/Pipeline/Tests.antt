-- ===== src/Engine/Pipeline/Tests.antt =====
-- The theorems on the gateway and the trading thread of src/apps/engine/main.cpp at concrete states.
use smart_quant.Prelude.{◌≡◌, refl, some, List, [], ◌∷◌, ◌++◌, map, inl, arith}
use mathlib.Core.List.{nil-sublist}
use smart_quant.Prelude.Int.{pos}
use smart_quant.Prelude.Fixed.{Fixed, fixed_double}
use smart_quant.Types.{LobEvent}
use smart_quant.Common.SpscQueue.{SpscQueue, init}
use smart_quant.Common.SpscQueue.Refine.{Represents, init-Represents}
use smart_quant.Md.OrderBook.{empty_book}
use smart_quant.Md.Gateway.{Feed, MdEntry, blank_event, queue_bits, handle_event}
use smart_quant.Md.Gateway.Replay.{Queued, handle_event-Queued}
use smart_quant.Risk.{default_config}
use smart_quant.Oms.{delivered}
use smart_quant.Alpha.SignalEngine
use smart_quant.Engine.Pipeline.{Pipeline, Round, Input, refresh, snapshot, round, pipeline_run}
use smart_quant.Engine.Pipeline.Delivered.{Flows, pipeline_run-Flows, rounds-deliver}

empty_queue : SpscQueue LobEvent
empty_queue = init queue_bits blank_event

empty_queue-Represents : Represents queue_bits blank_event empty_queue []
unfolding empty_queue
empty_queue-Represents = init-Represents queue_bits blank_event

abbrev quiet : Feed
quiet = record { logged = []; queue = some empty_queue; book = empty_book }

abbrev no_events : List LobEvent
no_events = []

-- New bid 7: 5 at 2000.00.
abbrev bid_7 : MdEntry Fixed
bid_7 = record {
  action = some 48;
  entry_id = some (55 ∷ []);
  entry_type = some 48;
  px = some (pos 200_000);
  size = some (pos 500);
}

abbrev first_round : Round
first_round = record {
  now_ns = 2_000;
  cancelled = delivered;
  closed = delivered;
  outcome = delivered;
}

abbrev start : Pipeline Fixed
start = record {
  feed = quiet;
  trader = record {
    oms = smart_quant.Oms.init (smart_quant.Risk.init default_config);
    engine = SignalEngine.init (pos 5_000) (pos 150);
  };
  taken = no_events;
}

-- A message with one event, a round, a snapshot of two entries, and a round.
abbrev inputs : List (Input Fixed)
inputs =
    refresh (some (bid_7 ∷ [])) 9
    ∷ round first_round
    ∷ snapshot (some (bid_7 ∷ bid_7 ∷ [])) 10
    ∷ round first_round
    ∷ []

pipeline_run-Flows_example :
    Flows (pipeline_run start inputs).taken (pipeline_run start inputs).feed
pipeline_run-Flows_example =
    pipeline_run-Flows start inputs
      (no_events, (empty_queue, refl, empty_queue-Represents), nil-sublist no_events, inl refl)

abbrev event_7 : LobEvent
event_7 = record blank_event { entry_id = 7; price = pos 200_000; qty = pos 5 }

abbrev one_waits : Pipeline Fixed
one_waits = record start { feed = handle_event quiet event_7 }

waiting : Queued (handle_event quiet event_7) (event_7 ∷ [])
waiting =
    handle_event-Queued quiet event_7 no_events (empty_queue, refl, empty_queue-Represents)
      (omega arith)

rounds-deliver_example :
    let p' = pipeline_run one_waits (map round (first_round ∷ [])) in
    Queued p'.feed []
    × (p'.taken ≡ one_waits.taken ++ event_7 ∷ [])
    × (p'.feed.logged ≡ one_waits.feed.logged)
rounds-deliver_example = rounds-deliver one_waits (event_7 ∷ []) (first_round ∷ []) waiting refl
