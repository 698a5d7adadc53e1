-- ===== src/Md/Gateway/Session/Subscription.antt =====
-- When src/md/fix_md_gateway.cpp asks for market data again.
use smart_quant.Prelude.{
  ℕ, ◌+◌, ◌≤◌, ◌<◌, ◌≡◌, refl, ap, true, false, none, some, [], ◌∷◌, ◌++◌, arith, inl, inr,
  Bool-cases,
}
use smart_quant.Prelude.Text.{Text}
use smart_quant.Types.{bid, offer, trade}
use smart_quant.Oms.{delivered}
use smart_quant.Md.Gateway.Session.{
  Session, MarketDataRequest, on_logon, on_logout, on_md_reject, subscribe_market_data, is_empty,
  text_sub_1, short_lived,
}

-- The request that a configured session sends.
abbrev pub request_of : Session → MarketDataRequest
request_of s = record {
  md_req_id = s.symbol_name ++ text_sub_1;
  entry_types = bid ∷ offer ∷ trade ∷ [];
  symbol = s.symbol_id;
}

abbrev logged_on : Session → Text → ℕ → Session
logged_on s sid now_ns = record s {
  session_id = sid;
  auth_failed = false;
  logon_time = now_ns;
  subscribed = true;
}

logon-subscribed :
    (s : Session) (sid : Text) (now_ns : ℕ)
    → is_empty s.symbol_id ≡ false
    → (on_logon s sid now_ns delivered).0 ≡ logged_on s sid now_ns
unfolding on_logon subscribe_market_data
logon-subscribed s sid now_ns named = elim (Bool-cases s.subscribed) [
  | inl t ↦ rw t refl
  | inr f ↦ rw (f, named) refl
]

logon-unsubscribed :
    (s : Session) (sid : Text) (now_ns : ℕ)
    → s.subscribed ≡ false
    → is_empty s.symbol_id ≡ false
    → (on_logon s sid now_ns delivered).1 ≡ some (request_of s)
unfolding on_logon subscribe_market_data
logon-unsubscribed s sid now_ns f named = rw (f, named) refl

logon-silent :
    (s : Session) (sid : Text) (now_ns : ℕ)
    → s.subscribed ≡ true
    → (on_logon s sid now_ns delivered).1 ≡ none
unfolding on_logon subscribe_market_data
logon-silent s sid now_ns t = rw t refl

logout-long :
    (s : Session) (sid : Text) (t0 t1 : ℕ)
    → t0 + 3_000_000_000 ≤ t1
    → on_logout (logged_on s sid t0) t1 ≡ record (logged_on s sid t0) { subscribed = false }
unfolding on_logout
logout-long s sid t0 t1 h = rw no refl
  where
    no : short_lived (logged_on s sid t0) t1 ≡ false
    no = ground arith

logout-short :
    (s : Session) (sid : Text) (t0 t1 : ℕ)
    → 0 < t0
    → t1 < t0 + 3_000_000_000
    → on_logout (logged_on s sid t0) t1 ≡ record (logged_on s sid t0) { auth_failed = true }
unfolding on_logout
logout-short s sid t0 t1 p h = rw yes refl
  where
    yes : short_lived (logged_on s sid t0) t1 ≡ true
    yes = ground arith

-- After a logon and a logout, the next logon asks for market data again if the session was up for
-- three seconds, and asks for nothing if it was not: then the old subscription is taken to be alive,
-- although the session it belonged to is gone.
pub next_logon :
    (s : Session) (sid : Text) (t0 t1 t2 : ℕ)
    → 0 < t0
    → is_empty s.symbol_id ≡ false
    → let down = on_logout (on_logon s sid t0 delivered).0 t1 in
      (t0 + 3_000_000_000 ≤ t1 → (on_logon down sid t2 delivered).1 ≡ some (request_of s))
      × (t1 < t0 + 3_000_000_000
          → ((on_logon down sid t2 delivered).1 ≡ none)
            × ((on_logon down sid t2 delivered).0.auth_failed ≡ false))
next_logon s sid t0 t1 t2 p named = rw (logon-subscribed s sid t0 named) (
  (λ h. rw (logout-long s sid t0 t1 h) (logon-unsubscribed _ sid t2 refl named)),
  (λ h. rw (logout-short s sid t0 t1 p h) (
    logon-silent (record (logged_on s sid t0) { auth_failed = true }) sid t2 refl,
    ap (λ r. r.auth_failed)
        (logon-subscribed (record (logged_on s sid t0) { auth_failed = true }) sid t2 named),
  )),
)

-- A rejected request is made again at the next logon.
pub md_reject_retries :
    (s : Session) (sid : Text) (now_ns : ℕ)
    → is_empty s.symbol_id ≡ false
    → ((on_logon (on_md_reject s) sid now_ns delivered).1 ≡ some (request_of s))
      × ((on_logon (on_md_reject s) sid now_ns delivered).0.subscribed ≡ true)
unfolding on_md_reject
md_reject_retries s sid now_ns named = (
  logon-unsubscribed (record s { subscribed = false }) sid now_ns refl named,
  ap (λ r. r.subscribed) (logon-subscribed (record s { subscribed = false }) sid now_ns named),
)
