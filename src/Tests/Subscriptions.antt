-- ===== src/Tests/Subscriptions.antt =====
-- Subscribing (event_subscription_control.cpp) on concrete words.
use inc_mw_com.Base.{
  ℕ, ◌+◌, ◌*◌, ◌^◌, ◌≤◌, ◌<◌, ◌≡◌, refl, ◌⊎◌, true, false, some, [], ◌∷◌, arith, alone,
  compare_exchange,
}
use inc_mw_com.EventSubscriptionControl.{
  success, max_subscribers_overflow, slot_overflow, update_retry_failure, Limits,
  EventSubscriptionControl, event_subscription_control, get_subscribers_from_state,
  get_subscribed_samples_from_state, create_state, exchange_state, subscribe_round, subscribe_loop,
  subscribe, unsubscribe,
}
use inc_mw_com.EventSubscriptionControl.Bounds.{
  added, HasRoom, AfterSubscribe, subscribe_lem, IsWithin, added-IsWithin,
}
use inc_mw_com.EventSubscriptionControl.Alone.{Holds, subscribe_undisturbed, unsubscribe-subscribe}
use inc_mw_com.Tests.{meddling}

-- Two of three subscribers, with 5 of 10 slots.
abbrev limits : Limits
limits = record { max_subscribable_slots = 10; max_subscribers = 3; enforce_max_samples = true }

abbrev state : ℕ
state = 2 * 2 ^ 16 + 5

abbrev subscriptions : EventSubscriptionControl
subscriptions = record {
  current_subscription_state = record { words = state ∷ []; now = 2 };
  limits = limits;
}

state-HasRoom : HasRoom limits 4 state
unfolding get_subscribers_from_state get_subscribed_samples_from_state
state-HasRoom = record { one_more = omega arith; enough = λ e. omega arith }

-- The first exchange fails idly, the second succeeds.
succeeds : (subscribe meddling 4 subscriptions).0 ≡ success
unfolding subscribe subscribe_loop subscribe_round exchange_state compare_exchange create_state
    get_subscribers_from_state get_subscribed_samples_from_state
succeeds = refl

subscribe_example :
    AfterSubscribe meddling limits 4 subscriptions.current_subscription_state
      (subscribe meddling 4 subscriptions).0
      (subscribe meddling 4 subscriptions).1.current_subscription_state
subscribe_example = subscribe_lem meddling 4 subscriptions

added-IsWithin_example :
    IsWithin limits (added 4 state)
    × (get_subscribers_from_state (added 4 state) ≡ get_subscribers_from_state state + 1)
    × ((limits.enforce_max_samples ≡ false)
        ⊎ (get_subscribed_samples_from_state (added 4 state)
            ≡ get_subscribed_samples_from_state state + 4))
added-IsWithin_example = added-IsWithin limits 4 state (omega arith) (omega arith) state-HasRoom

subscribe_undisturbed_example :
    (HasRoom limits 4 state
      × ((subscribe alone 4 subscriptions).0 ≡ success)
      × Holds (subscribe alone 4 subscriptions).1 (added 4 state))
    ⊎ ((3 ≤ get_subscribers_from_state state)
        × ((subscribe alone 4 subscriptions).0 ≡ max_subscribers_overflow)
        × Holds (subscribe alone 4 subscriptions).1 state)
    ⊎ ((get_subscribers_from_state state < 3)
        × (limits.enforce_max_samples ≡ true)
        × (10 < get_subscribed_samples_from_state state + 4)
        × ((subscribe alone 4 subscriptions).0 ≡ slot_overflow)
        × Holds (subscribe alone 4 subscriptions).1 state)
subscribe_undisturbed_example =
    subscribe_undisturbed subscriptions 4 state refl (omega arith) (omega arith)

state_fits : get_subscribed_samples_from_state state + 4 < 2 ^ 16
unfolding get_subscribed_samples_from_state
state_fits = omega arith

unsubscribe-subscribe_example :
    (c' : EventSubscriptionControl) × ((subscribe alone 4 subscriptions).0 ≡ success)
    × (unsubscribe alone 4 (subscribe alone 4 subscriptions).1 ≡ some c')
    × Holds c' state
unsubscribe-subscribe_example =
    unsubscribe-subscribe subscriptions 4 state refl (omega arith) (omega arith) state_fits
      state-HasRoom

-- Without any subscriber allowed no round is made, and the result is not max_subscribers_overflow.
none_allowed : (subscribe alone 1 (event_subscription_control 10 0 true)).0 ≡ update_retry_failure
unfolding subscribe subscribe_loop event_subscription_control
none_allowed = refl
