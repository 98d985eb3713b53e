-- ===== src/SubscriptionStateMachine.antt =====
-- mw/com/impl/bindings/lola/subscription_state_machine.{h,cpp} and the files of its three states: one
-- proxy's subscription to an event.
pub mod Data
pub mod Moves
pub mod NotSubscribed
pub mod SubscriptionPending
pub mod Subscribed
pub mod Steps
pub mod Transitions
pub mod Subscribing
pub mod Calls
