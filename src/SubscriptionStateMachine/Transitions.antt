-- ===== src/SubscriptionStateMachine/Transitions.antt =====
-- What the state machine holds in each state, and what entering a state leaves
-- (subscription_*_states.cpp).
use inc_mw_com.Base.{
  ℕ, ◌^◌, ◌<◌, ◌≡◌, refl, sym, ap, subst, ◌∙◌, Bool, true, false, Option, none, some, List,
  >>=-eq-some, some_eq, Interference,
}
use inc_mw_com.TransactionLog.{
  TransactionLog, unsubscribe_transaction_begin, unsubscribe_transaction_commit,
}
use inc_mw_com.TransactionLogSet.{unregister}
use inc_mw_com.EventDataControl.State.{EventDataControl, log_step}
use inc_mw_com.EventSubscriptionControl.{unsubscribe}
use inc_mw_com.EventReceiveHandlers.{MessagingCall}
use inc_mw_com.SubscriptionStateMachine.Moves.{on_entry, transition_to_state}
use inc_mw_com.SubscriptionStateMachine.NotSubscribed.{offered_state}
use inc_mw_com.SubscriptionStateMachine.Data.{
  SubscriptionStateMachineState, not_subscribed_state, subscription_pending_state, subscribed_state,
  SubscriptionStateMachine, with_data, with_subscriptions, on_log, reset_guard,
}

-- A sample count, a slot collector and a registered log, both with the same index.
abbrev pub Holds : SubscriptionStateMachine → Type 0
Holds m =
    (n : ℕ) × (k : ℕ) × (index : ℕ) × (n < 2 ^ 16)
    × (m.max_sample_count ≡ some n)
    × (m.slot_collector ≡ some (record { max_slots = k; transaction_log_index = index }))
    × (m.transaction_log_registration_guard ≡ some index)

abbrev pub FitsState : SubscriptionStateMachineState → SubscriptionStateMachine → Type 0
FitsState not_subscribed_state m =
    (m.max_sample_count ≡ none)
    × (m.slot_collector ≡ none)
    × (m.transaction_log_registration_guard ≡ none)
FitsState subscription_pending_state m =
    (m.provider_service_instance_is_available ≡ false) × Holds m
FitsState subscribed_state m = (m.provider_service_instance_is_available ≡ true) × Holds m

abbrev pub IsSound : SubscriptionStateMachine → Type 0
IsSound m = FitsState m.current_state m

pub on_log_lem :
    (index : ℕ) (step : TransactionLog → Option TransactionLog) (m m' : SubscriptionStateMachine)
    → on_log index step m ≡ some m'
    → (c : EventDataControl) × (m' ≡ with_data m c)
unfolding on_log
on_log_lem index step m m' h =
    let (c, _, e) = >>=-eq-some (log_step index step m.event_control.data_control) _ h in
    (c, sym (some_eq e))

-- What is left after the guard is gone.
pub record Released (m m' : SubscriptionStateMachine) : Type 0 where
  pub state : m'.current_state ≡ m.current_state
  pub count : m'.max_sample_count ≡ m.max_sample_count
  pub collector : m'.slot_collector ≡ m.slot_collector
  pub guard : m'.transaction_log_registration_guard ≡ none

pub reset_guard-Released :
    (g : Option ℕ) (m m' : SubscriptionStateMachine)
    → m.transaction_log_registration_guard ≡ g
    → reset_guard g m ≡ some m'
    → Released m m'
unfolding reset_guard
reset_guard-Released none m m' e h =
    subst (Released m) (some_eq h)
      (record { state = refl; count = refl; collector = refl; guard = e })
reset_guard-Released (some index) m m' e h =
    let (logs, _, f) =
      >>=-eq-some (unregister index m.event_control.data_control.transaction_log_set) _ h in
    subst (Released m) (some_eq f)
      (record { state = refl; count = refl; collector = refl; guard = refl })

module _ (env : Interference) (number_of : List MessagingCall → ℕ) where
  -- Entering the not-subscribed state gives everything up.
  on_entry_lem :
      (m m' : SubscriptionStateMachine)
      → on_entry env number_of not_subscribed_state m ≡ some m'
      → (m'.current_state ≡ m.current_state) × FitsState not_subscribed_state m'
  unfolding on_entry
  on_entry_lem m m' h =
      let (index, _, f) = >>=-eq-some m.transaction_log_registration_guard _ h in
      let (m₁, l₁, f₁) = >>=-eq-some (on_log index unsubscribe_transaction_begin m) _ f in
      let (n, _, f₂) = >>=-eq-some m₁.max_sample_count _ f₁ in
      let (s, _, f₃) = >>=-eq-some (unsubscribe env n m₁.event_control.subscription_control) _ f₂ in
      let (m₂, l₂, f₄) =
        >>=-eq-some (on_log index unsubscribe_transaction_commit (with_subscriptions m₁ s)) _ f₃ in
      let (c₁, e₁) = on_log_lem index unsubscribe_transaction_begin m m₁ l₁ in
      let (c₂, e₂) =
        on_log_lem index unsubscribe_transaction_commit (with_subscriptions m₁ s) m₂ l₂ in
      let r = reset_guard-Released m₂.transaction_log_registration_guard _ m' refl f₄ in
      let same : m₂.current_state ≡ m.current_state =
        ap (λ (k : SubscriptionStateMachine). k.current_state) e₂
        ∙ ap (λ (k : SubscriptionStateMachine). k.current_state) e₁ in
      (r.state ∙ same, (r.count, r.collector, r.guard))

  pub leave_lem :
      (m m' : SubscriptionStateMachine)
      → transition_to_state env number_of not_subscribed_state m ≡ some m'
      → IsSound m'
  unfolding transition_to_state
  leave_lem m m' h =
      let (state, fits) = on_entry_lem (record m { current_state = not_subscribed_state }) m' h in
      subst (λ st. FitsState st m') (sym state) fits

  pub enter_lem :
      (b : Bool) (m m' : SubscriptionStateMachine)
      → m.provider_service_instance_is_available ≡ b
      → Holds m
      → transition_to_state env number_of (offered_state env number_of b) m ≡ some m'
      → IsSound m'
  unfolding transition_to_state on_entry
  enter_lem true m m' e holds h = subst IsSound (some_eq h) (e, holds)
  enter_lem false m m' e holds h = subst IsSound (some_eq h) (e, holds)
