-- ===== src/TransactionLog/Rollback.antt =====
-- Rolling back the log of a crashed proxy (transaction_log.cpp, RollbackProxyElementLog).
pub mod Loop
use mathlib.Core.List.{append_assoc, append-nil}
use inc_mw_com.Base.{
  ℕ, zero, suc, ◌+◌, ◌-◌, ◌*◌, ◌/◌, ◌%◌, ◌^◌, ◌≤◌, ◌<◌, min, max, ◌≡◌, refl, sym, ap, subst, ◌∙◌,
  ◌≢◌, ◌↔◌, ◌⊎◌, inl, inr, Bool, true, false, not, ◌&&◌, ◌||◌, Option, none, some, List, [], ◌∷◌,
  ◌++◌, map, arith, ltb, leb, ◌==◌, if◌then◌else◌, ltb→lt, ltb→ge, leb→le, leb→gt, ==→eq, ==_self,
  Bool-cases, Option-cases, length, get_elem?, get_or, set, replicate, length-append, length-set,
  length-replicate, get_or-set_self, get_or-set_ne, set-set, set-get_or, get_elem?-set_self,
  get_elem?-set_ne, get_elem?-set, set_unchanged, get_elem?-append_length, length-map,
  get_elem?-map, get_elem?-replicate, ◌>>=◌, ◌>>◌, require, >>=-eq-some, some_eq, Interference,
  Words, alone, seen, load, store, fetch_modify, compare_exchange, Exchanged, compare_exchange_lem,
}
use inc_mw_com.ComError.{
  ComErrc, service_not_available, max_samples_reached, binding_failure, grant_enforcement_error,
  peer_is_unreachable, field_value_is_not_valid, set_handler_not_set, unset_failure,
  sample_allocation_failure, illegal_use_of_allocate, service_not_offered, communication_link_error,
  no_clients, communication_stack_error, max_sample_count_not_realizable, max_subscribers_exceeded,
  wrong_method_call_processing_mode, erroneous_file_handle, could_not_execute,
  invalid_instance_identifier_string, invalid_binding_information, event_not_existing,
  not_subscribed, invalid_configuration, invalid_meta_model_shortname,
  service_instance_already_offered, could_not_restart_proxy, not_offered,
  instance_id_could_not_be_resolved, find_service_handler_failure, invalid_handle, Result, value,
  error, ResultBlank,
}
use inc_mw_com.TransactionLog.{
  TransactionLogSlot, TransactionLog, new_slot, transaction_log, has_transaction,
  does_log_contain_increment_or_decrement_transactions, contains_transactions, require_slot,
  subscribe_transaction_begin, subscribe_transaction_commit, subscribe_transaction_abort,
  unsubscribe_transaction_begin, unsubscribe_transaction_commit, put_slot,
  reference_transaction_begin, reference_transaction_commit, reference_transaction_abort,
  dereference_transaction_begin, dereference_transaction_commit, and_then, rollback_slot,
  rollback_loop, rollback_increment_transactions, rollback_subscription,
  rollback_subscribe_transactions, rollback_proxy_element_log,
  rollback_skeleton_tracing_element_log,
}
use inc_mw_com.TransactionLog.Rollback.Loop.{
  IsClean, AllClean, held_indices, cleared, for_each, get_elem?-append_at, with_slots, loop-clean,
}

-- No transaction is left in cleared slots.
cleared_lem :
    (slots : List TransactionLogSlot)
    → does_log_contain_increment_or_decrement_transactions (cleared slots) ≡ false
unfolding does_log_contain_increment_or_decrement_transactions
cleared_lem [] = refl
cleared_lem (slot ∷ slots) = cleared_lem slots

-- A log in which no transaction was cut short.
pub record IsCommitted (log : TransactionLog) (n : ℕ) : Type 0 where
  pub slots_clean : AllClean log.reference_count_slots
  pub subscribed :
      log.subscribe_transactions ≡ record { transaction_begin = true; transaction_end = true }
  pub counted : log.subscription_max_sample_count ≡ some n

abbrev emptied : List TransactionLogSlot → TransactionLog
emptied slots = record {
  reference_count_slots = cleared slots;
  subscribe_transactions = new_slot;
  subscription_max_sample_count = none;
}

module _ {S : Type 0} (dereference unsubscribe : ℕ → S → Option S) where
  increments_clean :
      (log : TransactionLog) (s s' : S)
      → AllClean log.reference_count_slots
      → for_each dereference (held_indices 0 log.reference_count_slots) s ≡ some s'
      → rollback_increment_transactions dereference log s
        ≡ some (value tt, with_slots log (cleared log.reference_count_slots), s')
  unfolding rollback_increment_transactions
  increments_clean log s s' cl f =
      rw (append-nil log.reference_count_slots, append-nil (cleared log.reference_count_slots)) at
        (loop-clean dereference log [] log.reference_count_slots [] 0 _ s s' refl refl cl f)

  committed_log : List TransactionLogSlot → ℕ → TransactionLog
  committed_log slots n = record {
    reference_count_slots = slots;
    subscribe_transactions = record { transaction_begin = true; transaction_end = true };
    subscription_max_sample_count = some n;
  }

  rollback_committed :
      (slots : List TransactionLogSlot) (n : ℕ) (s s₁ s₂ : S)
      → AllClean slots
      → for_each dereference (held_indices 0 slots) s ≡ some s₁
      → unsubscribe n s₁ ≡ some s₂
      → rollback_proxy_element_log dereference unsubscribe (committed_log slots n) s
        ≡ some (
          value tt,
          record {
            reference_count_slots = cleared slots;
            subscribe_transactions = new_slot;
            subscription_max_sample_count = none;
          },
          s₂,
        )
  unfolding rollback_proxy_element_log committed_log rollback_subscribe_transactions
  rollback_committed slots n s s₁ s₂ c f u =
      rw (increments_clean (committed_log slots n) s s₁ c f, u)

  -- If no transaction was cut short and the callbacks succeed, rolling back a subscribed proxy's log dereferences each slot that the log holds once, in order, then unsubscribes with the recorded sample count, and leaves a log without transactions.
  pub rollback_proxy_element_log_lem :
      (log : TransactionLog) (n : ℕ) (s s₁ s₂ : S)
      → IsCommitted log n
      → for_each dereference (held_indices 0 log.reference_count_slots) s ≡ some s₁
      → unsubscribe n s₁ ≡ some s₂
      → (log' : TransactionLog) × (rollback_proxy_element_log dereference unsubscribe log s
          ≡ some (value tt, log', s₂))
        × (contains_transactions log' ≡ false)
        × (log'.subscription_max_sample_count ≡ none)
        × (length log'.reference_count_slots ≡ length log.reference_count_slots)
  unfolding contains_transactions committed_log
  rollback_proxy_element_log_lem log n s s₁ s₂ c f u = (
    emptied log.reference_count_slots,
    subst
        (λ l.
          rollback_proxy_element_log dereference unsubscribe l s
          ≡ some (value tt, emptied log.reference_count_slots, s₂))
        (sym whole) (rollback_committed log.reference_count_slots n s s₁ s₂ c.slots_clean f u),
    cleared_lem log.reference_count_slots,
    refl,
    length-map log.reference_count_slots (λ _. new_slot),
  )
    where
      whole : log ≡ committed_log log.reference_count_slots n
      whole = λ i. record {
        reference_count_slots = log.reference_count_slots;
        subscribe_transactions = c.subscribed i;
        subscription_max_sample_count = c.counted i;
      }

-- The first slot with a transaction cut short: one flag is set, and before it all is clean.
pub record IsCutShort (log : TransactionLog) (clean : List TransactionLogSlot) : Type 0 where
  pub crashed : TransactionLogSlot
  pub rest : List TransactionLogSlot
  pub slots : log.reference_count_slots ≡ clean ++ crashed ∷ rest
  pub before : AllClean clean
  pub one_flag : crashed.transaction_begin ≢ crashed.transaction_end

module _ {S : Type 0} (dereference unsubscribe : ℕ → S → Option S) where
  stops_at :
      (b e : Bool) (log : TransactionLog) (s : S) (i : ℕ)
      → b ≢ e
      → rollback_slot dereference b e i log s ≡ some (error could_not_restart_proxy, log, s)
  unfolding rollback_slot
  stops_at true true log s i ne = absurd (ne refl)
  stops_at true false log s i ne = refl
  stops_at false true log s i ne = refl
  stops_at false false log s i ne = absurd (ne refl)

  cut_short_loop :
      (log : TransactionLog) (clean rest : List TransactionLogSlot) (slot : TransactionLogSlot)
      (s s₁ : S)
      → AllClean clean
      → slot.transaction_begin ≢ slot.transaction_end
      → for_each dereference (held_indices 0 clean) s ≡ some s₁
      → rollback_loop dereference
          (length (clean ++ slot ∷ rest))
          0
          (with_slots log (clean ++ slot ∷ rest))
          s
        ≡ some (error could_not_restart_proxy, with_slots log (cleared clean ++ slot ∷ rest), s₁)
  unfolding rollback_loop
  cut_short_loop log clean rest slot s s₁ cl ne f =
      loop-clean dereference log [] clean (slot ∷ rest) 0 (length clean) s s₁ refl (omega arith) cl
        f
      ∙ rw (
        get_elem?-append_at (cleared clean) slot rest (length clean) (length-map clean _),
        stops_at slot.transaction_begin slot.transaction_end
            (with_slots log (cleared clean ++ slot ∷ rest)) s₁ (length clean) ne,
      )

  -- Where the log of a subscribed proxy has a slot whose transaction was cut short, rolling back fails with kCouldNotRestartProxy after dereferencing the slots held before it (if these callbacks succeed), and neither unsubscribes nor touches the slots from there on.
  pub rollback_proxy_element_log_cut_short :
      (log : TransactionLog) (clean : List TransactionLogSlot) (c : IsCutShort log clean) (s s₁ : S)
      → has_transaction log.subscribe_transactions ≡ true
      → for_each dereference (held_indices 0 clean) s ≡ some s₁
      → rollback_proxy_element_log dereference unsubscribe log s
        ≡ some (
          error could_not_restart_proxy,
          with_slots log (cleared clean ++ c.crashed ∷ c.rest),
          s₁,
        )
  unfolding rollback_proxy_element_log rollback_increment_transactions
  rollback_proxy_element_log_cut_short log clean c s s₁ sub f =
      rw (sub, c.slots, cut_short_loop log clean c.rest c.crashed s s₁ c.before c.one_flag f)
