-- ===== src/EventSubscriptionControl/Fields.antt =====
-- The two counts in the word of event_subscription_control.cpp.
use inc_mw_com.Base.{ℕ, ◌^◌, ◌<◌, ◌≡◌, arith}
use inc_mw_com.EventSubscriptionControl.{
  get_subscribers_from_state, get_subscribed_samples_from_state, create_state,
}

-- A word made from two counts within their types gives them back.
pub create_state_fields :
    (subscribers slots : ℕ)
    → subscribers < 2 ^ 8
    → slots < 2 ^ 16
    → (get_subscribers_from_state (create_state subscribers slots) ≡ subscribers)
      × (get_subscribed_samples_from_state (create_state subscribers slots) ≡ slots)
unfolding get_subscribers_from_state get_subscribed_samples_from_state create_state
create_state_fields subscribers slots hs hn = omega arith

-- A word whose upper byte is 0, as all states have it, is made from its counts.
pub create_state_of_fields :
    (s : ℕ)
    → s < 2 ^ 24
    → create_state (get_subscribers_from_state s) (get_subscribed_samples_from_state s) ≡ s
unfolding get_subscribers_from_state get_subscribed_samples_from_state create_state
create_state_of_fields s h = omega arith
