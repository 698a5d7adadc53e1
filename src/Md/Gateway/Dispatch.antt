-- ===== src/Md/Gateway/Dispatch.antt =====
-- src/md/fix_md_gateway.cpp: the gateway as a whole, how it starts and how it takes a message.
use smart_quant.Prelude.{ℕ, false, Option, none, some, List, [], ◌∷◌}
use smart_quant.Prelude.Double.{Double}
use smart_quant.Prelude.Text.{Text}
use smart_quant.Types.{LobEvent}
use smart_quant.Common.SpscQueue.{SpscQueue}
use smart_quant.Md.OrderBook.{empty_book}
use smart_quant.Md.Gateway.{Feed, MdEntry, on_incremental_refresh, on_snapshot}
use smart_quant.Md.Gateway.Session.{
  Session, text_target_sub_id, text_sender_sub_id, on_md_reject, or_text,
}
use smart_quant.Fix.{Dictionary}

pub record Gateway : Type 0 where
  pub feed : Feed
  pub session : Session

-- "SymbolID"
abbrev pub text_symbol_id : Text
text_symbol_id = 83 ∷ 121 ∷ 109 ∷ 98 ∷ 111 ∷ 108 ∷ 73 ∷ 68 ∷ []

-- "SymbolName"
abbrev pub text_symbol_name : Text
text_symbol_name = 83 ∷ 121 ∷ 109 ∷ 98 ∷ 111 ∷ 108 ∷ 78 ∷ 97 ∷ 109 ∷ 101 ∷ []

-- "XAUUSD"
abbrev pub default_symbol : Text
default_symbol = 88 ∷ 65 ∷ 85 ∷ 85 ∷ 83 ∷ 68 ∷ []

abbrev pub blank_session : Session
blank_session = record {
  target_sub_id = [];
  sender_sub_id = [];
  symbol_id = [];
  symbol_name = default_symbol;
  session_id = [];
  subscribed = false;
  logon_time = 0;
  auth_failed = false;
}

-- The constructor; `none` if there is no session block or reading it throws.
abbrev pub configured : Option Dictionary → Session
configured none = blank_session
configured (some dict) = record blank_session {
  target_sub_id = or_text (dict text_target_sub_id) [];
  sender_sub_id = or_text (dict text_sender_sub_id) [];
  symbol_id = or_text (dict text_symbol_id) [];
  symbol_name = or_text (dict text_symbol_name) default_symbol;
}

abbrev pub init : Option Dictionary → Option (SpscQueue LobEvent) → Gateway
init dict queue = record {
  feed = record { logged = []; queue = queue; book = empty_book };
  session = configured dict;
}

-- The message types "X", "W" and "Y".
pub data MdMessage (F : Type 0) : Type 0 where
  incremental_refresh snapshot : Option (List (MdEntry F)) → MdMessage F
  request_reject other_message : MdMessage F

module _ {F : Type 0} ⦃d : Double F⦄ where
  -- A missing field ends the message and is logged.
  unfoldable pub from_app : Gateway → MdMessage F → ℕ → Gateway
  unfolding on_incremental_refresh on_snapshot on_md_reject
  from_app g (incremental_refresh es) ts_ns = record g {
    feed = on_incremental_refresh g.feed es ts_ns;
  }
  from_app g (snapshot es) ts_ns = record g { feed = on_snapshot g.feed es ts_ns }
  from_app g request_reject ts_ns = record g { session = on_md_reject g.session }
  from_app g other_message ts_ns = g
