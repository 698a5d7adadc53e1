-- ===== src/Md/Gateway/Tests.antt =====
-- Runs of src/md/fix_md_gateway.cpp, and its theorems at concrete messages.
use smart_quant.Prelude.{
  ◌+◌, ◌<◌, ◌≤◌, ◌^◌, ◌≡◌, refl, false, Option, none, some, List, [], ◌∷◌, ◌++◌, arith, length, ◌⊎◌,
}
use smart_quant.Prelude.Int.{pos, ◌+ℤ◌, neg}
use smart_quant.Prelude.Fixed.{Fixed, fixed_double}
use smart_quant.Prelude.Map.Hash
use smart_quant.Types.{LobEvent, bid}
use smart_quant.Common.SpscQueue.{SpscQueue, init}
use smart_quant.Common.SpscQueue.Refine.{Represents, init-Represents}
use smart_quant.Oms.{delivered}
use smart_quant.Md.OrderBook.{EntryInfo, empty_book, lookup_entry, run, update}
use smart_quant.Md.Gateway.{
  Feed, MdEntry, blank_event, queue_bits, id_of_field, stoull, on_incremental_refresh, on_snapshot,
}
use smart_quant.Md.Gateway.Replay.{InStep, Queued, refresh-InStep}
use smart_quant.Md.Gateway.Snapshot.{snapshot_breaks_replay}
use smart_quant.Md.Gateway.Session.{Session, on_logon, on_logout}
use smart_quant.Md.Gateway.Session.Subscription.{next_logon, request_of}

-- " 42x", "-1", "" and "x"
stoull_values :
    (stoull (32 ∷ 52 ∷ 50 ∷ 120 ∷ []) ≡ some 42)
    × (stoull (45 ∷ 49 ∷ []) ≡ some 18446744073709551615)
    × (stoull [] ≡ none)
    × (stoull (120 ∷ []) ≡ none)
unfolding stoull
stoull_values = (refl, refl, refl, refl)

empty_queue : SpscQueue LobEvent
empty_queue = init queue_bits blank_event

empty_queue-Represents : Represents queue_bits blank_event empty_queue []
unfolding empty_queue
empty_queue-Represents = init-Represents queue_bits blank_event

abbrev feed : Feed
feed = record { logged = []; queue = some empty_queue; book = empty_book }

abbrev no_events : List LobEvent
no_events = []

-- New bid 7: 5 at 2000.00; a group without an action ends the message.
abbrev bid_7 : MdEntry Fixed
bid_7 = record {
  action = some 48;
  entry_id = some (55 ∷ []);
  entry_type = some 48;
  px = some (pos 200_000);
  size = some (pos 500);
}

abbrev nameless : MdEntry Fixed
nameless = record { action = none; entry_id = none; entry_type = none; px = none; size = none }

abbrev refresh : Option (List (MdEntry Fixed))
refresh = some (bid_7 ∷ nameless ∷ bid_7 ∷ [])

refresh-InStep_example :
    let g' = on_incremental_refresh feed refresh 9 in
    InStep empty_book g'
    × ((evs : List LobEvent) × (g'.logged ≡ feed.logged ++ evs)
        × (Queued g' (no_events ++ evs) ⊎ (2 ^ queue_bits ≤ length no_events + length evs)))
unfolding run
refresh-InStep_example =
    refresh-InStep empty_book feed no_events refresh 9 refl
      (empty_queue, refl, empty_queue-Represents)

abbrev event_7 : LobEvent
event_7 = record blank_event { entry_id = 7; price = pos 200_000; qty = pos 5 }

abbrev with_7 : Feed
with_7 = record { logged = event_7 ∷ []; queue = none; book = run empty_book (event_7 ∷ []) }

abbrev info_7 : EntryInfo
info_7 = record { side = bid; price = pos 200_000; qty = pos 5 }

-- Offer 8 alone.
abbrev offer_8 : MdEntry Fixed
offer_8 = record {
  action = none;
  entry_id = some (56 ∷ []);
  entry_type = some 49;
  px = some (pos 200_000);
  size = some (pos 500);
}

seven_is_live : lookup_entry with_7.book 7 ≡ some info_7
unfolding lookup_entry run update Hash.find Hash.insert Hash.erase ◌+ℤ◌ neg
seven_is_live = refl

snapshot_breaks_replay_example :
    let g' = on_snapshot with_7 (some (offer_8 ∷ [])) 9 in
    (lookup_entry g'.book 7 ≡ none) × (lookup_entry (run empty_book g'.logged) 7 ≡ some info_7)
unfolding id_of_field stoull
snapshot_breaks_replay_example =
    snapshot_breaks_replay empty_book with_7 (offer_8 ∷ []) 9 7 info_7 refl seven_is_live
      ((λ e. omega arith), tt)

abbrev session : Session
session = record {
  target_sub_id = [];
  sender_sub_id = [];
  symbol_id = 49 ∷ [];
  symbol_name = 88 ∷ [];
  session_id = [];
  subscribed = false;
  logon_time = 0;
  auth_failed = false;
}

next_logon_example :
    let down = on_logout (on_logon session [] 100 delivered).0 2_000_000_000 in
    (100 + 3_000_000_000 ≤ 2_000_000_000
      → (on_logon down [] 4_000_000_000 delivered).1 ≡ some (request_of session))
    × (2_000_000_000 < 100 + 3_000_000_000
        → ((on_logon down [] 4_000_000_000 delivered).1 ≡ none)
          × ((on_logon down [] 4_000_000_000 delivered).0.auth_failed ≡ false))
next_logon_example = next_logon session [] 100 2_000_000_000 4_000_000_000 (omega arith) refl
