-- ===== src/SubscriptionStateMachine/Subscribing.antt =====
-- The fields after NotSubscribedState::SubscribeEvent (subscription_not_subscribed_states.cpp).
use inc_mw_com.Base.{
  ℕ, ◌%◌, ◌^◌, ◌≡◌, refl, sym, ap, subst, ◌∙◌, Option, none, some, List, arith, ◌>>=◌, >>=-eq-some,
  some_eq, Interference,
}
use inc_mw_com.ComError.{max_sample_count_not_realizable, Result, value, error, ResultBlank}
use inc_mw_com.TransactionLog.{
  subscribe_transaction_begin, subscribe_transaction_commit, subscribe_transaction_abort,
}
use inc_mw_com.TransactionLogSet.{register_proxy_element}
use inc_mw_com.EventDataControl.State.{EventDataControl}
use inc_mw_com.EventSubscriptionControl.{
  SubscribeResult, success, max_subscribers_overflow, slot_overflow, update_retry_failure,
  EventSubscriptionControl, subscribe,
}
use inc_mw_com.EventReceiveHandlers.{MessagingCall}
use inc_mw_com.SubscriptionStateMachine.Moves.{transition_to_state}
use inc_mw_com.SubscriptionStateMachine.NotSubscribed.{
  register_waiting, offered_state, after_subscribe, after_create,
}
use inc_mw_com.SubscriptionStateMachine.Data.{
  SubscriptionStateMachineState, not_subscribed_state, subscription_pending_state, subscribed_state,
  SubscriptionStateMachine, with_data, with_subscriptions, on_log, create_guard, reset_guard,
}
use inc_mw_com.SubscriptionStateMachine.Steps.{subscribe_event}
use inc_mw_com.SubscriptionStateMachine.Transitions.{
  FitsState, IsSound, on_log_lem, reset_guard-Released, enter_lem,
}

module _ (env : Interference) (number_of : List MessagingCall → ℕ) where
  register_waiting_lem :
      (h : Option ℕ) (m : SubscriptionStateMachine)
      → (register_waiting env number_of h m).transaction_log_registration_guard
        ≡ m.transaction_log_registration_guard
  unfolding register_waiting
  register_waiting_lem none m = refl
  register_waiting_lem (some handler) m = refl

  refused :
      (index : ℕ) (m m' : SubscriptionStateMachine) (s : EventSubscriptionControl)
      (r : ResultBlank × SubscriptionStateMachine)
      → m.current_state ≡ not_subscribed_state
      → m.max_sample_count ≡ none
      → m.slot_collector ≡ none
      → on_log index subscribe_transaction_abort (with_subscriptions m s) ≡ some m'
      → (reset_guard m'.transaction_log_registration_guard m' >>= λ m.
          some (error max_sample_count_not_realizable, m))
        ≡ some r
      → IsSound r.1
  refused index m m' s r state count collector l h =
      let (m₁, l₁, f) = >>=-eq-some (reset_guard m'.transaction_log_registration_guard m') _ h in
      let (c, e) = on_log_lem index subscribe_transaction_abort (with_subscriptions m s) m' l in
      let rel = reset_guard-Released m'.transaction_log_registration_guard m' m₁ refl l₁ in
      let state₁ = rel.state ∙ ap (λ (k : SubscriptionStateMachine). k.current_state) e ∙ state in
      let fits : FitsState not_subscribed_state m₁ = (
        rel.count ∙ ap (λ (k : SubscriptionStateMachine). k.max_sample_count) e ∙ count,
        rel.collector ∙ ap (λ (k : SubscriptionStateMachine). k.slot_collector) e ∙ collector,
        rel.guard,
      ) in
      subst (λ (q : ResultBlank × SubscriptionStateMachine). IsSound q.1) (some_eq f)
        (subst (λ st. FitsState st m₁) (sym state₁) fits)

  after_subscribe_lem :
      (n index : ℕ) (m : SubscriptionStateMachine) (q : SubscribeResult × EventSubscriptionControl)
      (r : ResultBlank × SubscriptionStateMachine)
      → m.current_state ≡ not_subscribed_state
      → m.max_sample_count ≡ none
      → m.slot_collector ≡ none
      → m.transaction_log_registration_guard ≡ some index
      → after_subscribe env number_of n index m q ≡ some r
      → IsSound r.1
  after_subscribe_lem n index m (success, s) r state count collector guard h =
      let (m₁, l, f) =
        >>=-eq-some (on_log index subscribe_transaction_commit (with_subscriptions m s)) _ h in
      let (c, e) = on_log_lem index subscribe_transaction_commit (with_subscriptions m s) m₁ l in
      let m' : SubscriptionStateMachine =
        record (register_waiting env number_of m₁.event_receiver_handler m₁) {
          slot_collector = some (record { max_slots = n; transaction_log_index = index });
          max_sample_count = some (n % 2 ^ 16);
        } in
      let b = m'.provider_service_instance_is_available in
      let (m₂, t, g) =
        >>=-eq-some (transition_to_state env number_of (offered_state env number_of b) m') _ f in
      let kept =
        register_waiting_lem m₁.event_receiver_handler m₁
        ∙ ap (λ (k : SubscriptionStateMachine). k.transaction_log_registration_guard) e
        ∙ guard in
      subst (λ (q : ResultBlank × SubscriptionStateMachine). IsSound q.1) (some_eq g)
        (enter_lem env number_of b m' m₂ refl (n % 2 ^ 16, n, index, omega arith, refl, refl, kept)
          t)
  after_subscribe_lem n index m (max_subscribers_overflow, s) r state count collector guard h =
      absurd cc
  after_subscribe_lem n index m (slot_overflow, s) r state count collector guard h =
      let (m', l, f) =
        >>=-eq-some (on_log index subscribe_transaction_abort (with_subscriptions m s)) _ h in
      refused index m m' s r state count collector l f
  after_subscribe_lem n index m (update_retry_failure, s) r state count collector guard h =
      let (m', l, f) =
        >>=-eq-some (on_log index subscribe_transaction_abort (with_subscriptions m s)) _ h in
      refused index m m' s r state count collector l f

  pub subscribes-IsSound :
      (st : SubscriptionStateMachineState) (n : ℕ) (m : SubscriptionStateMachine)
      (r : ResultBlank × SubscriptionStateMachine)
      → m.current_state ≡ st
      → FitsState st m
      → subscribe_event env number_of st n m ≡ some r
      → IsSound r.1
  unfolding subscribe_event create_guard
  subscribes-IsSound not_subscribed_state n m r state (count, collector, guard) h =
      let c = m.event_control.data_control in
      let ((q, m₀), created, f) = >>=-eq-some (create_guard m) _ h in
      let (p, _, e) =
        >>=-eq-some (register_proxy_element m.transaction_log_id c.transaction_log_set) _ created in
      ends q m₀ (record c { transaction_log_set = p.1 })
        (sym (ap (λ (k : Result ℕ × SubscriptionStateMachine). k.1) (some_eq e))) f
    where
      ends :
          (q : Result ℕ) (m₀ : SubscriptionStateMachine) (c : EventDataControl)
          → m₀ ≡ with_data m c
          → after_create env number_of n (q, m₀) ≡ some r
          → IsSound r.1
      ends (error x) m₀ c e f =
          let fits : FitsState not_subscribed_state (with_data m c) = (count, collector, guard) in
          subst (λ (k : ResultBlank × SubscriptionStateMachine). IsSound k.1) (some_eq f)
            (subst IsSound (sym e) (subst (λ st. FitsState st (with_data m c)) (sym state) fits))
      ends (value index) m₀ c e f =
          let begun = record m₀ { transaction_log_registration_guard = some index } in
          let (m₁, l, g) = >>=-eq-some (on_log index (subscribe_transaction_begin n) begun) _ f in
          let (c₁, e₁) = on_log_lem index (subscribe_transaction_begin n) begun m₁ l in
          after_subscribe_lem n index m₁
            (subscribe env (n % 2 ^ 16) m₁.event_control.subscription_control) r
            (ap (λ (k : SubscriptionStateMachine). k.current_state) e₁
              ∙ ap (λ (k : SubscriptionStateMachine). k.current_state) e
              ∙ state)
            (ap (λ (k : SubscriptionStateMachine). k.max_sample_count) e₁
              ∙ ap (λ (k : SubscriptionStateMachine). k.max_sample_count) e
              ∙ count)
            (ap (λ (k : SubscriptionStateMachine). k.slot_collector) e₁
              ∙ ap (λ (k : SubscriptionStateMachine). k.slot_collector) e
              ∙ collector)
            (ap (λ (k : SubscriptionStateMachine). k.transaction_log_registration_guard) e₁) g
  subscribes-IsSound subscription_pending_state n m r state fits h =
      let (count, _, e) = >>=-eq-some m.max_sample_count _ h in
      subst (λ (k : ResultBlank × SubscriptionStateMachine). IsSound k.1) (some_eq e)
        (subst (λ st. FitsState st m) (sym state) fits)
  subscribes-IsSound subscribed_state n m r state fits h =
      let (count, _, e) = >>=-eq-some m.max_sample_count _ h in
      subst (λ (k : ResultBlank × SubscriptionStateMachine). IsSound k.1) (some_eq e)
        (subst (λ st. FitsState st m) (sym state) fits)
