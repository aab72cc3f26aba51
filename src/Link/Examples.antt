-- ===== src/Link/Examples.antt =====
-- Runs of the link's policies.
use esphome_alpha_hwr.Base.{ℕ, ◌≡◌, refl, arith, false, List, [], ◌∷◌, u32}
use esphome_alpha_hwr.Link.Sampler.{fresh, over_count, threshold_ms}
use esphome_alpha_hwr.Link.Counters.{
  opened, inbound, recycled, Happening, observe_all, firings_in, over_count-firings,
}
use esphome_alpha_hwr.Link.Watchdog.{link_data_timeout_expired}
use esphome_alpha_hwr.Link.Stall.{disconnect_reason_is_link_loss}
use esphome_alpha_hwr.Link.Session.{
  SessionState, SessionEvent, on_connected, on_service_found, on_subscribed, on_ready, session_next,
  session_after,
}

abbrev a_day : List Happening
a_day = opened 100 ∷ inbound 9000 ∷ inbound 40000 ∷ recycled 130000 ∷ []

-- 31 s and 90 s were quiet for longer than the 30 s of the third threshold.
a_day_counted : firings_in (threshold_ms 2) [] a_day ≡ 2
unfolding link_data_timeout_expired
a_day_counted = refl

over_count-firings_example :
    over_count 2 (observe_all a_day fresh) ≡ u32 (firings_in (threshold_ms 2) [] a_day)
over_count-firings_example = over_count-firings 2 a_day (omega arith)

-- 0x13: the peer ended the link.
peer_ends : disconnect_reason_is_link_loss 0x13 ≡ false
unfolding disconnect_reason_is_link_loss
peer_ends = refl

abbrev two_cycles : List ℕ
two_cycles = 0x13 ∷ 0x13 ∷ []

abbrev own_address : List ℕ
own_address = 1 ∷ 2 ∷ 3 ∷ 4 ∷ 5 ∷ 6 ∷ []

abbrev came_up : List SessionEvent
came_up = on_ready ∷ on_subscribed ∷ on_service_found ∷ on_connected ∷ []

came_up_quietly :
    ((session_after came_up).1 ≡ false) × ((session_after came_up).0 ≡ SessionState.ready)
unfolding session_next
came_up_quietly = (refl, refl)
