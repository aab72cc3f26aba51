-- ===== src/Link/Session.antt =====
-- session.h and session.cpp: the state of the session with the pump.
use esphome_alpha_hwr.Base.{◌≡◌, refl, ap, Bool, true, false, ◌||◌, List, [], ◌∷◌, arith, drop}

pub data SessionState : Type 0 where
  idle service_discovery subscribing stabilizing ready : SessionState

unfoldable pub is_connected : SessionState → Bool
is_connected idle = false
is_connected _ = true

pub data SessionEvent : Type 0 where
  on_connected on_service_found on_subscribed on_ready on_disconnected : SessionEvent

-- `on_connected` and so on: the new state, and whether a warning of an unexpected state is logged.
unfoldable pub session_next : SessionEvent → SessionState → SessionState × Bool
session_next on_connected s = (service_discovery, false)
session_next on_service_found service_discovery = (subscribing, false)
session_next on_service_found _ = (subscribing, true)
session_next on_subscribed subscribing = (stabilizing, false)
session_next on_subscribed _ = (stabilizing, true)
session_next on_ready stabilizing = (ready, false)
session_next on_ready _ = (ready, true)
session_next on_disconnected s = (idle, false)

-- The session after the events, the newest first, and whether anything was logged.
abbrev pub session_after : List SessionEvent → SessionState × Bool
session_after [] = (idle, false)
session_after (e ∷ events) = (
  (session_next e (session_after events).0).0,
  (session_after events).1 || (session_next e (session_after events).0).1,
)

discovering :
    (events : List SessionEvent)
    → (session_after events).1 ≡ false
    → (session_after events).0 ≡ service_discovery
    → events ≡ on_connected ∷ drop 1 events
unfolding session_next
discovering [] q s = ground arith
discovering (on_connected ∷ events) q s = refl
discovering (on_service_found ∷ events) q s = ground arith
discovering (on_subscribed ∷ events) q s = ground arith
discovering (on_ready ∷ events) q s = ground arith
discovering (on_disconnected ∷ events) q s = ground arith

found :
    (events : List SessionEvent)
    → (session_after events).1 ≡ false
    → (session_after events).0 ≡ subscribing
    → events ≡ on_service_found ∷ on_connected ∷ drop 2 events
unfolding session_next
found [] q s = ground arith
found (on_connected ∷ events) q s = ground arith
found (on_service_found ∷ events) q s =
    ap (◌∷◌ on_service_found) (ground (arith, discovering events))
found (on_subscribed ∷ events) q s = ground arith
found (on_ready ∷ events) q s = ground arith
found (on_disconnected ∷ events) q s = ground arith

subscribed :
    (events : List SessionEvent)
    → (session_after events).1 ≡ false
    → (session_after events).0 ≡ stabilizing
    → events ≡ on_subscribed ∷ on_service_found ∷ on_connected ∷ drop 3 events
unfolding session_next
subscribed [] q s = ground arith
subscribed (on_connected ∷ events) q s = ground arith
subscribed (on_service_found ∷ events) q s = ground arith
subscribed (on_subscribed ∷ events) q s = ap (◌∷◌ on_subscribed) (ground (arith, found events))
subscribed (on_ready ∷ events) q s = ground arith
subscribed (on_disconnected ∷ events) q s = ground arith

-- A session that is ready with no warning logged has come there from its last connection by just the
-- four events, in order, with nothing between.
pub session_after-ready :
    (events : List SessionEvent)
    → (session_after events).1 ≡ false
    → (session_after events).0 ≡ ready
    → events ≡ on_ready ∷ on_subscribed ∷ on_service_found ∷ on_connected ∷ drop 4 events
unfolding session_next
session_after-ready [] q s = ground arith
session_after-ready (on_connected ∷ events) q s = ground arith
session_after-ready (on_service_found ∷ events) q s = ground arith
session_after-ready (on_subscribed ∷ events) q s = ground arith
session_after-ready (on_ready ∷ events) q s = ap (◌∷◌ on_ready) (ground (arith, subscribed events))
session_after-ready (on_disconnected ∷ events) q s = ground arith
