-- ===== src/Md/Gateway.antt =====
-- include/smartquant/md/fix_md_gateway.hpp and src/md/fix_md_gateway.cpp: market data messages
-- into events for the log, the book and the queue. A message is the fields that it has; QuickFIX
-- reads them. What the logger is handed is a list of events, since its file is not in the repository.
pub mod Replay
pub mod Snapshot
pub mod Session
pub mod Dispatch
mod Tests
use smart_quant.Prelude.{
  ℕ, ◌+◌, ◌-◌, ◌*◌, ◌%◌, ◌^◌, ◌≡◌, Bool, true, false, ◌&&◌, ◌||◌, ltb, leb, ◌==◌, if◌then◌else◌,
  Option, none, some, List, [], ◌∷◌, ◌++◌,
}
use smart_quant.Prelude.Int.{ℤ, pos}
use smart_quant.Prelude.Double.{Double}
use smart_quant.Prelude.Text.{Text}
use smart_quant.Types.{
  MdUpdateAction, MdEntryType, LobEvent, Price, Qty, to_price, new, change, delete, bid, offer,
  trade,
}
use smart_quant.Common.SpscQueue.{SpscQueue, push}
use smart_quant.Md.OrderBook.{OrderBook, EntryInfo, empty_book, lookup_entry, clear, update}

-- The exponent of `kMdQueueCapacity`.
abbrev pub queue_bits : ℕ
queue_bits = 14

-- The part of the gateway that market data passes through. There is no queue in the pure logger.
pub record Feed : Type 0 where
  pub logged : List LobEvent
  pub queue : Option (SpscQueue LobEvent)
  pub book : OrderBook

-- `LOBEvent{}`
abbrev pub blank_event : LobEvent
blank_event = record {
  timestamp_ns = 0;
  entry_id = 0;
  price = pos 0;
  qty = pos 0;
  action = new;
  side = bid;
}

abbrev pub is_space : ℕ → Bool
is_space c = c == 32 || (leb 9 c && leb c 13)

abbrev pub skip_spaces : Text → Text
skip_spaces [] = []
skip_spaces (c ∷ s) = let rest = skip_spaces s in if is_space c then rest else c ∷ s

-- The digits at the front, and how many there are.
abbrev pub read_digits : ℕ → ℕ → Text → ℕ × ℕ
read_digits v n [] = (v, n)
read_digits v n (c ∷ s) =
    let rest = read_digits (v * 10 + (c - 48)) (n + 1) s in
    if leb 48 c && leb c 57 then rest else (v, n)

abbrev pub stoull_digits : Bool → Text → Option ℕ
stoull_digits negative s =
    let (v, n) = read_digits 0 0 s in
    if n == 0 || leb (2 ^ 64) v
    then none
    else (if negative then some ((2 ^ 64 - v) % 2 ^ 64) else some v)

abbrev pub stoull_signed : Text → Option ℕ
stoull_signed [] = none
stoull_signed (c ∷ s) =
    if c == 45
    then stoull_digits true s
    else (if c == 43 then stoull_digits false s else stoull_digits false (c ∷ s))

-- `std::stoull`, which throws if there is no number or it is out of range.
unfoldable pub stoull : Text → Option ℕ
stoull s = stoull_signed (skip_spaces s)

-- A repeating group; a field that is not set is `none`, and characters are their codes.
pub record MdEntry (F : Type 0) : Type 0 where
  pub action : Option ℕ
  pub entry_id : Option Text
  pub entry_type : Option ℕ
  pub px : Option F
  pub size : Option F

-- What the code makes of a group: nothing, an exception for a missing field, or an event.
pub data Parsed : Type 0 where
  skipped missing : Parsed
  event : LobEvent → Parsed

-- Fields 0, 1 and 2 of MDUpdateAction.
abbrev pub action_of : ℕ → Option MdUpdateAction
action_of c =
    if c == 48
    then some new
    else (if c == 49 then some change else (if c == 50 then some delete else none))

-- Fields 0, 1 and 2 of MDEntryType.
abbrev pub side_of : ℕ → Option MdEntryType
side_of c =
    if c == 48
    then some bid
    else (if c == 49 then some offer else (if c == 50 then some trade else none))

-- A snapshot leaves trades out.
abbrev pub snapshot_side_of : ℕ → Option MdEntryType
snapshot_side_of c = if c == 48 then some bid else (if c == 49 then some offer else none)

abbrev pub or_default : {A : Type 0} → A → Option A → A
or_default d none = d
or_default d (some x) = x

-- The id that is set, if it is a number; an exception of `stoull` is swallowed.
unfoldable pub id_of_field : Option Text → ℕ
unfolding stoull
id_of_field none = 0
id_of_field (some s) = or_default 0 (stoull s)

-- `lookup_entry` writes its out parameters only if the order is found.
abbrev pub resolved : LobEvent → Option EntryInfo → LobEvent
resolved ev none = ev
resolved ev (some info) = record ev { side = info.side; price = info.price; qty = info.qty }

module _ {F : Type 0} ⦃d : Double F⦄ where
  abbrev pub with_numbers : LobEvent → MdEntry F → LobEvent
  with_numbers ev e = record ev {
    price = or_default ev.price (elim e.px [ none ↦ none | some x ↦ some (to_price x) ]);
    qty = or_default ev.qty (elim e.size [ none ↦ none | some x ↦ some (d.to_int x) ]);
  }

  abbrev pub parse_sided : LobEvent → MdEntry F → Option MdEntryType → Parsed
  parse_sided ev e none = skipped
  parse_sided ev e (some side) = event (with_numbers (record ev { side = side }) e)

  -- A group that must have a type.
  abbrev pub parse_typed : (ℕ → Option MdEntryType) → LobEvent → MdEntry F → Option ℕ → Parsed
  parse_typed sides ev e none = missing
  parse_typed sides ev e (some c) = parse_sided ev e (sides c)

  abbrev pub parse_action : OrderBook → ℕ → MdEntry F → Option MdUpdateAction → Parsed
  parse_action book ts_ns e none = skipped
  parse_action book ts_ns e (some delete) =
      let ev = record blank_event {
        timestamp_ns = ts_ns;
        entry_id = id_of_field e.entry_id;
        action = delete;
      } in
      event (resolved ev (lookup_entry book ev.entry_id))
  parse_action book ts_ns e (some action) =
      parse_typed side_of
        (record blank_event {
          timestamp_ns = ts_ns;
          entry_id = id_of_field e.entry_id;
          action = action;
        })
        e e.entry_type

  -- A group of an incremental refresh; the book resolves what a Delete leaves out.
  unfoldable pub parse_refresh : OrderBook → ℕ → MdEntry F → Parsed
  unfolding id_of_field
  parse_refresh book ts_ns e = elim e.action [
    | none ↦ missing
    | some c ↦ parse_action book ts_ns e (action_of c)
  ]

  -- A group of a snapshot.
  unfoldable pub parse_snapshot : ℕ → MdEntry F → Parsed
  unfolding id_of_field
  parse_snapshot ts_ns e =
      parse_typed snapshot_side_of
        (record blank_event { timestamp_ns = ts_ns; entry_id = id_of_field e.entry_id }) e
        e.entry_type

-- The event goes to the log, the book and the queue; if the queue is full it is dropped there.
unfoldable pub handle_event : Feed → LobEvent → Feed
unfolding update push
handle_event g ev = record g {
  logged = g.logged ++ ev ∷ [];
  book = (update g.book ev).book;
  queue = elim g.queue [ none ↦ none | some q ↦ some (push queue_bits q ev).0 ];
}

-- One round of the loop, then the others; a missing field ends the message.
abbrev pub on_parsed : Parsed → Feed → (Feed → Feed) → Feed
on_parsed skipped g rest = rest g
on_parsed missing g rest = g
on_parsed (event ev) g rest = rest (handle_event g ev)

module _ {F : Type 0} ⦃d : Double F⦄ where
  unfoldable pub refresh_groups : ℕ → Feed → List (MdEntry F) → Feed
  unfolding parse_refresh
  refresh_groups ts_ns g [] = g
  refresh_groups ts_ns g (e ∷ es) =
      on_parsed (parse_refresh g.book ts_ns e) g (λ g'. refresh_groups ts_ns g' es)

  unfoldable pub snapshot_groups : ℕ → Feed → List (MdEntry F) → Feed
  unfolding parse_snapshot
  snapshot_groups ts_ns g [] = g
  snapshot_groups ts_ns g (e ∷ es) =
      on_parsed (parse_snapshot ts_ns e) g (λ g'. snapshot_groups ts_ns g' es)

  -- `none` for a message without NoMDEntries.
  unfoldable pub on_incremental_refresh : Feed → Option (List (MdEntry F)) → ℕ → Feed
  unfolding refresh_groups
  on_incremental_refresh g none ts_ns = g
  on_incremental_refresh g (some es) ts_ns = refresh_groups ts_ns g es

  unfoldable pub on_snapshot : Feed → Option (List (MdEntry F)) → ℕ → Feed
  unfolding snapshot_groups clear
  on_snapshot g none ts_ns = record g { book = clear g.book }
  on_snapshot g (some es) ts_ns = snapshot_groups ts_ns (record g { book = clear g.book }) es
