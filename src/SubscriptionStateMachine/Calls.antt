-- ===== src/SubscriptionStateMachine/Calls.antt =====
-- Calls of the state machine one after another (subscription_*_states.cpp).
use inc_mw_com.ComError.{max_sample_count_not_realizable, value, error}
use inc_mw_com.Base.{
  ℕ, ◌%◌, ◌^◌, ◌≤◌, ◌<◌, ◌≡◌, refl, sym, ap, subst, ◌∙◌, ◌⊎◌, inl, inr, true, false, Option, none,
  some, List, [], ◌∷◌, arith, ◌==◌, Bool-cases, ◌>>=◌, >>=-eq-some, some_eq, Interference,
}
use inc_mw_com.EventReceiveHandlers.{MessagingCall, update_pid}
use inc_mw_com.SubscriptionStateMachine.Data.{
  SubscriptionStateMachineState, not_subscribed_state, subscription_pending_state, subscribed_state,
  EventControl, SubscriptionStateMachine, subscription_state_machine,
}
use inc_mw_com.SubscriptionStateMachine.Steps.{
  get_max_sample_count, get_slot_collector, get_transaction_log_index, subscribe_event,
  unsubscribe_event, stop_offer_event, re_offer_event, set_receive_handler, unset_receive_handler,
}
use inc_mw_com.SubscriptionStateMachine.Transitions.{FitsState, IsSound, leave_lem, enter_lem}
use inc_mw_com.SubscriptionStateMachine.Subscribing.{subscribes-IsSound}

-- One call of the state machine that may change it.
pub data Call : Type 0 where
  subscribes : ℕ → Call
  unsubscribes stops_offer : Call
  re_offers : ℕ → Call
  sets_handler : ℕ → Call
  unsets_handler : Call

module _ (env : Interference) (number_of : List MessagingCall → ℕ) where
  abbrev pub call : Call → SubscriptionStateMachine → Option SubscriptionStateMachine
  call (subscribes n) m = do r ← subscribe_event env number_of m.current_state n m; some r.1
  call unsubscribes m = unsubscribe_event env number_of m.current_state m
  call stops_offer m = stop_offer_event env number_of m.current_state m
  call (re_offers pid) m = re_offer_event env number_of m.current_state pid m
  call (sets_handler handler) m = some (set_receive_handler env number_of m.current_state handler m)
  call unsets_handler m = some (unset_receive_handler env number_of m.current_state m)

  unfoldable pub run : List Call → SubscriptionStateMachine → Option SubscriptionStateMachine
  run [] m = some m
  run (x ∷ xs) m = do m ← call x m; run xs m

  leaves-IsSound :
      (st : SubscriptionStateMachineState) (m m' : SubscriptionStateMachine)
      → m.current_state ≡ st
      → FitsState st m
      → unsubscribe_event env number_of st m ≡ some m'
      → IsSound m'
  unfolding unsubscribe_event
  leaves-IsSound not_subscribed_state m m' state fits h =
      subst IsSound (some_eq h) (subst (λ st. FitsState st m) (sym state) fits)
  leaves-IsSound subscription_pending_state m m' state fits h = leave_lem env number_of m m' h
  leaves-IsSound subscribed_state m m' state fits h = leave_lem env number_of m m' h

  stops-IsSound :
      (st : SubscriptionStateMachineState) (m m' : SubscriptionStateMachine)
      → m.current_state ≡ st
      → FitsState st m
      → stop_offer_event env number_of st m ≡ some m'
      → IsSound m'
  unfolding stop_offer_event
  stops-IsSound not_subscribed_state m m' state fits h =
      let stopped = record m { provider_service_instance_is_available = false } in
      subst IsSound (some_eq h) (subst (λ st. FitsState st stopped) (sym state) fits)
  stops-IsSound subscription_pending_state m m' state fits h = absurd cc
  stops-IsSound subscribed_state m m' state (_, holds) h =
      enter_lem env number_of false (record m { provider_service_instance_is_available = false }) m'
        refl holds h

  offers-IsSound :
      (st : SubscriptionStateMachineState) (pid : ℕ) (m m' : SubscriptionStateMachine)
      → m.current_state ≡ st
      → FitsState st m
      → re_offer_event env number_of st pid m ≡ some m'
      → IsSound m'
  unfolding re_offer_event
  offers-IsSound not_subscribed_state pid m m' state fits h =
      let offered = record m {
        handler_manager = update_pid pid m.handler_manager;
        provider_service_instance_is_available = true;
      } in
      subst IsSound (some_eq h) (subst (λ st. FitsState st offered) (sym state) fits)
  offers-IsSound subscription_pending_state pid m m' state (_, holds) h =
      enter_lem env number_of true _ m' refl holds h
  offers-IsSound subscribed_state pid m m' state fits h =
      subst IsSound (some_eq h) (subst (λ st. FitsState st m) (sym state) fits)

  sets-IsSound :
      (st : SubscriptionStateMachineState) (handler : ℕ) (m : SubscriptionStateMachine)
      → m.current_state ≡ st
      → FitsState st m
      → IsSound (set_receive_handler env number_of st handler m)
  unfolding set_receive_handler
  sets-IsSound not_subscribed_state handler m state fits = rw state fits
  sets-IsSound subscription_pending_state handler m state fits = rw state fits
  sets-IsSound subscribed_state handler m state fits = rw state fits

  unsets-IsSound :
      (st : SubscriptionStateMachineState) (m : SubscriptionStateMachine)
      → m.current_state ≡ st
      → FitsState st m
      → IsSound (unset_receive_handler env number_of st m)
  unfolding unset_receive_handler
  unsets-IsSound not_subscribed_state m state fits = rw state fits
  unsets-IsSound subscription_pending_state m state fits = rw state fits
  unsets-IsSound subscribed_state m state fits = rw state fits

  call-IsSound :
      (x : Call) (m m' : SubscriptionStateMachine) → IsSound m → call x m ≡ some m' → IsSound m'
  call-IsSound (subscribes n) m m' sound h =
      let (r, ran, e) = >>=-eq-some (subscribe_event env number_of m.current_state n m) _ h in
      subst IsSound (some_eq e)
        (subscribes-IsSound env number_of m.current_state n m r refl sound ran)
  call-IsSound unsubscribes m m' sound h = leaves-IsSound m.current_state m m' refl sound h
  call-IsSound stops_offer m m' sound h = stops-IsSound m.current_state m m' refl sound h
  call-IsSound (re_offers pid) m m' sound h = offers-IsSound m.current_state pid m m' refl sound h
  call-IsSound (sets_handler handler) m m' sound h =
      subst IsSound (some_eq h) (sets-IsSound m.current_state handler m refl sound)
  call-IsSound unsets_handler m m' sound h =
      subst IsSound (some_eq h) (unsets-IsSound m.current_state m refl sound)

  run_on :
      (xs : List Call) (m m' : SubscriptionStateMachine)
      → IsSound m
      → run xs m ≡ some m'
      → IsSound m'
  unfolding run
  run_on [] m m' sound h = subst IsSound (some_eq h) sound
  run_on (x ∷ xs) m m' sound h =
      let (m₁, one, rest) = >>=-eq-some (call x m) _ h in
      run_on xs m₁ m' (call-IsSound x m m₁ sound one) rest

  -- Whatever other processes do to the subscription state, a new state machine on which any calls were completed is sound: it has a sample count of 16 bits, a slot collector and a registered log with one index in the subscribed and the pending state, and none of them in the not-subscribed state; the provider is available if subscribed, and not if pending.
  pub run-IsSound :
      (xs : List Call) (pid id : ℕ) (control : EventControl) (m : SubscriptionStateMachine)
      → run xs (subscription_state_machine pid control id) ≡ some m
      → IsSound m
  unfolding subscription_state_machine
  run-IsSound xs pid id control m h =
      run_on xs (subscription_state_machine pid control id) m (refl, refl, refl) h

-- In a sound machine no assertion of GetTransactionLogIndex or GetSlotCollector fails, and they give what is held; GetMaxSampleCount does so too, except that it ends the process when subscribed with 0 samples.
pub getters_lem :
    (m : SubscriptionStateMachine)
    → IsSound m
    → (get_transaction_log_index m.current_state m ≡ some m.transaction_log_registration_guard)
      × (get_slot_collector m.current_state m ≡ some m.slot_collector)
      × ((get_max_sample_count m.current_state m ≡ some m.max_sample_count)
          ⊎ ((m.current_state ≡ subscribed_state)
              × (m.max_sample_count ≡ some 0)
              × (get_max_sample_count m.current_state m ≡ none)))
unfolding get_transaction_log_index get_slot_collector get_max_sample_count
getters_lem m sound = by_state m.current_state refl sound
  where
    by_state :
        (st : SubscriptionStateMachineState)
        → m.current_state ≡ st
        → FitsState st m
        → (get_transaction_log_index st m ≡ some m.transaction_log_registration_guard)
          × (get_slot_collector st m ≡ some m.slot_collector)
          × ((get_max_sample_count st m ≡ some m.max_sample_count)
              ⊎ ((m.current_state ≡ subscribed_state)
                  × (m.max_sample_count ≡ some 0)
                  × (get_max_sample_count st m ≡ none)))
    by_state not_subscribed_state state (count, collector, guard) =
        (rw guard refl, rw collector refl, inl (rw count refl))
    by_state subscription_pending_state state (_, (n, k, index, _, count, collector, guard)) =
        (rw guard refl, rw count refl, inl (rw count refl))
    by_state subscribed_state state (_, (n, k, index, _, count, collector, guard)) = (
      rw guard refl,
      rw count refl,
      elim (Bool-cases (n == 0)) [
        | inl zero_count ↦
            let none_asked : n ≡ 0 = ground arith in
            inr (state, rw count (ap some none_asked), simp (count, zero_count))
        | inr some_count ↦ inl (simp (count, some_count))
      ],
    )

module _ (env : Interference) (number_of : List MessagingCall → ℕ) where
  -- Subscribing once more with the count that a sound machine holds changes nothing; it succeeds, except in the pending state with a count of 256 or more, where the error is kMaxSampleCountNotRealizable.
  pub subscribe_event_again :
      (n : ℕ) (m : SubscriptionStateMachine)
      → IsSound m
      → m.max_sample_count ≡ some n
      → (subscribe_event env number_of m.current_state n m ≡ some (value tt, m))
        ⊎ ((m.current_state ≡ subscription_pending_state)
            × (2 ^ 8 ≤ n)
            × (subscribe_event env number_of m.current_state n m
                ≡ some (error max_sample_count_not_realizable, m)))
  unfolding subscribe_event
  subscribe_event_again n m sound held = by_state m.current_state refl sound
    where
      by_state :
          (st : SubscriptionStateMachineState)
          → m.current_state ≡ st
          → FitsState st m
          → (subscribe_event env number_of st n m ≡ some (value tt, m))
            ⊎ ((m.current_state ≡ subscription_pending_state)
                × (2 ^ 8 ≤ n)
                × (subscribe_event env number_of st n m
                    ≡ some (error max_sample_count_not_realizable, m)))
      by_state not_subscribed_state state (count, collector, guard) = absurd cc
      by_state subscription_pending_state state (_, holds) = elim (Bool-cases (n == n % 2 ^ 8)) [
        | inl same ↦ inl (simp (held, same))
        | inr other ↦ inr (state, ground (arith, other), simp (held, other))
      ]
      by_state subscribed_state state (_, (k, _, _, small, count, _, _)) =
          let fits : n < 2 ^ 16 = ground (arith, small, some_eq (sym held ∙ count)) in
          let same : (n == n % 2 ^ 16) ≡ true = ground (arith, fits) in inl (simp (held, same))
