-- ===== src/Md/Gateway/Session.antt =====
-- The session of src/md/fix_md_gateway.cpp: logon, logout, rejections and the subscription. Times are
-- nanoseconds of the steady clock; whether a send finds its session is an argument.
pub mod Subscription
use smart_quant.Prelude.{
  ℕ, ◌+◌, ◌-◌, ◌/◌, ◌≡◌, Bool, true, false, not, ◌&&◌, ◌||◌, ltb, ◌==◌, if◌then◌else◌, Option, none,
  some, List, [], ◌∷◌, ◌++◌,
}
use smart_quant.Prelude.Text.{Text}
use smart_quant.Types.{MdEntryType, bid, offer, trade}
use smart_quant.Fix.{AdminFields, Dictionary, fill_logon, text_username, text_password}
use smart_quant.Oms.{Delivery, delivered, session_not_found}

pub record Session : Type 0 where
  pub target_sub_id : Text
  pub sender_sub_id : Text
  pub symbol_id : Text
  pub symbol_name : Text
  pub session_id : Text
  pub subscribed : Bool
  -- 0 before the first logon
  pub logon_time : ℕ
  pub auth_failed : Bool

-- "Invalid"
abbrev pub text_invalid : Text
text_invalid = 73 ∷ 110 ∷ 118 ∷ 97 ∷ 108 ∷ 105 ∷ 100 ∷ []

-- "credential"
abbrev pub text_credential : Text
text_credential = 99 ∷ 114 ∷ 101 ∷ 100 ∷ 101 ∷ 110 ∷ 116 ∷ 105 ∷ 97 ∷ 108 ∷ []

-- "Unauthori"
abbrev pub text_unauthori : Text
text_unauthori = 85 ∷ 110 ∷ 97 ∷ 117 ∷ 116 ∷ 104 ∷ 111 ∷ 114 ∷ 105 ∷ []

-- "password"
abbrev pub text_password_lower : Text
text_password_lower = 112 ∷ 97 ∷ 115 ∷ 115 ∷ 119 ∷ 111 ∷ 114 ∷ 100 ∷ []

-- "Login"
abbrev pub text_login : Text
text_login = 76 ∷ 111 ∷ 103 ∷ 105 ∷ 110 ∷ []

-- "TargetSubID"
abbrev pub text_target_sub_id : Text
text_target_sub_id = 84 ∷ 97 ∷ 114 ∷ 103 ∷ 101 ∷ 116 ∷ 83 ∷ 117 ∷ 98 ∷ 73 ∷ 68 ∷ []

-- "SenderSubID"
abbrev pub text_sender_sub_id : Text
text_sender_sub_id = 83 ∷ 101 ∷ 110 ∷ 100 ∷ 101 ∷ 114 ∷ 83 ∷ 117 ∷ 98 ∷ 73 ∷ 68 ∷ []

-- "_SUB_1"
abbrev pub text_sub_1 : Text
text_sub_1 = 95 ∷ 83 ∷ 85 ∷ 66 ∷ 95 ∷ 49 ∷ []

abbrev pub starts_with : Text → Text → Bool
starts_with [] s = true
starts_with (c ∷ cs) [] = false
starts_with (c ∷ cs) (x ∷ s) = x == c && starts_with cs s

-- `s.find(part) != npos`
abbrev pub contains : Text → Text → Bool
contains part [] = starts_with part []
contains part (x ∷ s) = starts_with part (x ∷ s) || contains part s

-- The MarketDataRequest: full book, snapshot and updates, of these types for this symbol.
pub record MarketDataRequest : Type 0 where
  pub md_req_id : Text
  pub entry_types : List MdEntryType
  pub symbol : Text

abbrev pub is_empty : Text → Bool
is_empty [] = true
is_empty (_ ∷ _) = false

abbrev pub stamp : Text → Option Text → Option Text
stamp id field = if is_empty id then field else some id

unfoldable pub stamp_sub_ids : Session → AdminFields → AdminFields
stamp_sub_ids s msg = record msg {
  target_sub_id = stamp s.target_sub_id msg.target_sub_id;
  sender_sub_id = stamp s.sender_sub_id msg.sender_sub_id;
}

abbrev pub or_text : Option Text → Text → Text
or_text none d = d
or_text (some x) d = x

unfoldable pub to_admin : Session → Bool → Option Dictionary → AdminFields → AdminFields
unfolding stamp_sub_ids
to_admin s is_logon dict msg =
    let stamped = stamp_sub_ids s msg in if is_logon then fill_logon dict stamped else stamped

unfoldable pub to_app : Session → AdminFields → AdminFields
unfolding stamp_sub_ids
to_app s msg = stamp_sub_ids s msg

-- The request, if one is sent. An exception of the send leaves the session unsubscribed.
unfoldable pub subscribe_market_data : Session → Delivery → Session × Option MarketDataRequest
subscribe_market_data s outcome =
    if s.subscribed || is_empty s.symbol_id then (s, none) else elim outcome [
      | delivered ↦ (
        record s { subscribed = true },
        some (record {
          md_req_id = s.symbol_name ++ text_sub_1;
          entry_types = bid ∷ offer ∷ trade ∷ [];
          symbol = s.symbol_id;
        }),
      )
      | session_not_found ↦ (s, none)
    ]

unfoldable pub on_logon : Session → Text → ℕ → Delivery → Session × Option MarketDataRequest
unfolding subscribe_market_data
on_logon s sid now_ns outcome =
    subscribe_market_data (record s { session_id = sid; auth_failed = false; logon_time = now_ns })
      outcome

-- The session was up for less than three seconds.
abbrev pub short_lived : Session → ℕ → Bool
short_lived s now_ns = not (s.logon_time == 0) && ltb ((now_ns - s.logon_time) / 1_000_000) 3000

unfoldable pub on_logout : Session → ℕ → Session
on_logout s now_ns =
    if short_lived s now_ns
    then record s { auth_failed = true }
    else record s { subscribed = false }

abbrev pub is_auth : Text → Bool
is_auth reason =
    contains text_invalid reason
    || (contains text_credential reason
        || (contains text_unauthori reason
            || (contains text_password_lower reason
                || (contains text_password reason
                    || (contains text_username reason || contains text_login reason)))))

abbrev pub is_subid : Text → Bool
is_subid reason = contains text_target_sub_id reason || contains text_sender_sub_id reason

abbrev pub note_reason : Session → Option Text → Session
note_reason s none = s
note_reason s (some reason) =
    if is_auth reason || is_subid reason then record s { auth_failed = true } else s

-- `text` is the reason that a Logout carries, if it does.
unfoldable pub from_admin : Session → Bool → Option Text → Session
from_admin s is_logout text = if is_logout then note_reason s text else s

-- What it logs is left out.
unfoldable pub on_md_reject : Session → Session
on_md_reject s = record s { subscribed = false }
