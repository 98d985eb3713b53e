-- ===== src/EventSubscriptionControl.antt =====
-- mw/com/impl/bindings/lola/event_subscription_control.{h,cpp}: subscribers and their slots, counted
-- in one atomic 32-bit word.
pub mod Fields
pub mod Bounds
pub mod Alone
use inc_mw_com.Base.{
  ℕ, zero, suc, ◌+◌, ◌-◌, ◌*◌, ◌/◌, ◌%◌, ◌^◌, ◌≤◌, ◌<◌, min, max, ◌≡◌, refl, sym, ap, subst, ◌∙◌,
  ◌≢◌, ◌↔◌, ◌⊎◌, inl, inr, Bool, true, false, not, ◌&&◌, ◌||◌, Option, none, some, List, [], ◌∷◌,
  ◌++◌, map, arith, ltb, leb, ◌==◌, if◌then◌else◌, ltb→lt, ltb→ge, leb→le, leb→gt, ==→eq, ==_self,
  Bool-cases, Option-cases, length, get_elem?, get_or, set, replicate, length-append, length-set,
  length-replicate, get_or-set_self, get_or-set_ne, set-set, set-get_or, get_elem?-set_self,
  get_elem?-set_ne, get_elem?-set, set_unchanged, get_elem?-append_length, length-map,
  get_elem?-map, get_elem?-replicate, ◌>>=◌, ◌>>◌, require, >>=-eq-some, some_eq, Interference,
  Words, alone, seen, load, store, fetch_modify, compare_exchange, Exchanged, compare_exchange_lem,
}

pub data SubscribeResult : Type 0 where
  success max_subscribers_overflow slot_overflow update_retry_failure : SubscribeResult

-- The const members.
pub record Limits : Type 0 where
  pub max_subscribable_slots : ℕ
  pub max_subscribers : ℕ
  pub enforce_max_samples : Bool

-- `current_subscription_state` is the one word of its array.
pub record EventSubscriptionControl : Type 0 where
  pub current_subscription_state : Words
  pub limits : Limits
  pub open limits use *

unfoldable pub event_subscription_control : ℕ → ℕ → Bool → EventSubscriptionControl
event_subscription_control max_slot_count max_subscribers enforce_max_samples = record {
  current_subscription_state = record { words = 0 ∷ []; now = 0 };
  limits = record {
    max_subscribable_slots = max_slot_count;
    max_subscribers = max_subscribers;
    enforce_max_samples = enforce_max_samples;
  };
}

-- state >> 16, as a uint8_t
unfoldable pub get_subscribers_from_state : ℕ → ℕ
get_subscribers_from_state state = state / 2 ^ 16 % 2 ^ 8

unfoldable pub get_subscribed_samples_from_state : ℕ → ℕ
get_subscribed_samples_from_state state = state % 2 ^ 16

unfoldable pub create_state : ℕ → ℕ → ℕ
create_state subscriber_count subscribed_slots =
    (subscriber_count * 2 ^ 16 + subscribed_slots) % 2 ^ 32

abbrev pub with_state : EventSubscriptionControl → Words → EventSubscriptionControl
with_state c w = record c { current_subscription_state = w }

-- A round of a retry loop returns, or the loop goes on with `next`.
abbrev pub after_round {ℓ κ} :
    {A : Type ℓ} {R : Type κ}
    → (A → EventSubscriptionControl → R)
    → (EventSubscriptionControl → R)
    → Option A × EventSubscriptionControl
    → R
after_round return next (some a, c) = return a c
after_round return next (none, c) = next c

module _ (env : Interference) where
  -- The exchange that ends a round: `none` is a retry.
  unfoldable pub exchange_state {ℓ} :
      {A : Type ℓ} → A → ℕ → ℕ → EventSubscriptionControl → Option A × EventSubscriptionControl
  exchange_state result current_state new_state c =
      let (done, w) =
        compare_exchange env true 0 current_state new_state c.current_subscription_state in
      (if done then some result else none, with_state c w)

  unfoldable pub subscribe_round :
      ℕ → EventSubscriptionControl → Option SubscribeResult × EventSubscriptionControl
  subscribe_round slot_count c =
      let (current_state, w) = load env 0 c.current_subscription_state in
      let current_subscribers = get_subscribers_from_state current_state in
      let current_subscribed_slots = get_subscribed_samples_from_state current_state in
      let new_state =
        create_state ((current_subscribers + 1) % 2 ^ 8)
          ((current_subscribed_slots + slot_count) % 2 ^ 16) in
      if leb c.max_subscribers current_subscribers
      then (some max_subscribers_overflow, with_state c w)
      else if c.enforce_max_samples
          && ltb c.max_subscribable_slots (current_subscribed_slots + slot_count)
      then (some slot_overflow, with_state c w)
      else exchange_state success current_state new_state (with_state c w)

  -- `n` rounds are left.
  unfoldable pub subscribe_loop :
      ℕ → ℕ → EventSubscriptionControl → SubscribeResult × EventSubscriptionControl
  subscribe_loop zero slot_count c = (update_retry_failure, c)
  subscribe_loop (suc n) slot_count c =
      after_round (λ r c. (r, c)) (subscribe_loop n slot_count) (subscribe_round slot_count c)

  unfoldable pub subscribe :
      ℕ → EventSubscriptionControl → SubscribeResult × EventSubscriptionControl
  subscribe slot_count c = subscribe_loop (2 * c.max_subscribers % 2 ^ 16) slot_count c

  -- Without a subscriber, or with fewer slots than are given back, the process ends.
  unfoldable pub unsubscribe_round :
      ℕ → EventSubscriptionControl → Option (Option (Unit {0}) × EventSubscriptionControl)
  unsubscribe_round slot_count c =
      let (current_state, w) = load env 0 c.current_subscription_state in
      let current_subscribers = get_subscribers_from_state current_state in
      let current_subscribed_slots = get_subscribed_samples_from_state current_state in
      let new_state =
        create_state (current_subscribers - 1) (current_subscribed_slots - slot_count) in
      if current_subscribers == 0 || ltb current_subscribed_slots slot_count
      then none
      else some (exchange_state tt current_state new_state (with_state c w))

  unfoldable pub unsubscribe_loop :
      ℕ → ℕ → EventSubscriptionControl → Option EventSubscriptionControl
  unsubscribe_loop zero slot_count c = none
  unsubscribe_loop (suc n) slot_count c = do
    r ← unsubscribe_round slot_count c
    after_round (λ _ c. some c) (unsubscribe_loop n slot_count) r

  unfoldable pub unsubscribe : ℕ → EventSubscriptionControl → Option EventSubscriptionControl
  unsubscribe slot_count c = unsubscribe_loop (3 * c.max_subscribers % 2 ^ 16) slot_count c
