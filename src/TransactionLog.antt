-- ===== src/TransactionLog.antt =====
-- mw/com/impl/bindings/lola/transaction_log_slot.h and transaction_log.{h,cpp}: the record that a
-- proxy keeps in shared memory of what it has subscribed to and which slots it references.
pub mod Phases
pub mod Rollback
use inc_mw_com.Base.{
  ℕ, zero, suc, ◌+◌, ◌-◌, ◌*◌, ◌/◌, ◌%◌, ◌^◌, ◌≤◌, ◌<◌, min, max, ◌≡◌, refl, sym, ap, subst, ◌∙◌,
  ◌≢◌, ◌↔◌, ◌⊎◌, inl, inr, Bool, true, false, not, ◌&&◌, ◌||◌, Option, none, some, List, [], ◌∷◌,
  ◌++◌, map, arith, ltb, leb, ◌==◌, if◌then◌else◌, ltb→lt, ltb→ge, leb→le, leb→gt, ==→eq, ==_self,
  Bool-cases, Option-cases, length, get_elem?, get_or, set, replicate, length-append, length-set,
  length-replicate, get_or-set_self, get_or-set_ne, set-set, set-get_or, get_elem?-set_self,
  get_elem?-set_ne, get_elem?-set, set_unchanged, get_elem?-append_length, length-map,
  get_elem?-map, get_elem?-replicate, ◌>>=◌, ◌>>◌, require, >>=-eq-some, some_eq, Interference,
  Words, alone, seen, load, store, fetch_modify, compare_exchange, Exchanged, compare_exchange_lem,
}
use inc_mw_com.ComError.{
  ComErrc, service_not_available, max_samples_reached, binding_failure, grant_enforcement_error,
  peer_is_unreachable, field_value_is_not_valid, set_handler_not_set, unset_failure,
  sample_allocation_failure, illegal_use_of_allocate, service_not_offered, communication_link_error,
  no_clients, communication_stack_error, max_sample_count_not_realizable, max_subscribers_exceeded,
  wrong_method_call_processing_mode, erroneous_file_handle, could_not_execute,
  invalid_instance_identifier_string, invalid_binding_information, event_not_existing,
  not_subscribed, invalid_configuration, invalid_meta_model_shortname,
  service_instance_already_offered, could_not_restart_proxy, not_offered,
  instance_id_could_not_be_resolved, find_service_handler_failure, invalid_handle, error_code,
  Result, value, error, ResultBlank,
}

pub record TransactionLogSlot : Type 0 where
  pub transaction_begin : Bool
  pub transaction_end : Bool

pub record TransactionLog : Type 0 where
  pub reference_count_slots : List TransactionLogSlot
  pub subscribe_transactions : TransactionLogSlot
  pub subscription_max_sample_count : Option ℕ

abbrev pub new_slot : TransactionLogSlot
new_slot = record { transaction_begin = false; transaction_end = false }

unfoldable pub transaction_log : ℕ → TransactionLog
transaction_log number_of_slots = record {
  reference_count_slots = replicate number_of_slots new_slot;
  subscribe_transactions = new_slot;
  subscription_max_sample_count = none;
}

abbrev pub has_transaction : TransactionLogSlot → Bool
has_transaction slot = slot.transaction_begin || slot.transaction_end

unfoldable pub does_log_contain_increment_or_decrement_transactions : List TransactionLogSlot → Bool
does_log_contain_increment_or_decrement_transactions [] = false
does_log_contain_increment_or_decrement_transactions (slot ∷ slots) =
    if has_transaction slot
    then true
    else does_log_contain_increment_or_decrement_transactions slots

unfoldable pub contains_transactions : TransactionLog → Bool
unfolding does_log_contain_increment_or_decrement_transactions
contains_transactions log =
    has_transaction log.subscribe_transactions
    || does_log_contain_increment_or_decrement_transactions log.reference_count_slots

-- The two preconditions that open each of the transaction steps.
abbrev pub require_slot : Bool → Bool → TransactionLogSlot → Option (Unit {0})
require_slot true true slot = do require slot.transaction_begin; require slot.transaction_end
require_slot true false slot = do require slot.transaction_begin; require (not slot.transaction_end)
require_slot false true slot = do require (not slot.transaction_begin); require slot.transaction_end
require_slot false false slot = do
  require (not slot.transaction_begin)
  require (not slot.transaction_end)

-- The sample count is kept in 16 bits.
unfoldable pub subscribe_transaction_begin : ℕ → TransactionLog → Option TransactionLog
subscribe_transaction_begin max_sample_count log = do
  require_slot false false log.subscribe_transactions
  some (record log {
    subscribe_transactions = record log.subscribe_transactions { transaction_begin = true };
    subscription_max_sample_count = some (max_sample_count % 2 ^ 16);
  })

unfoldable pub subscribe_transaction_commit : TransactionLog → Option TransactionLog
subscribe_transaction_commit log = do
  require_slot true false log.subscribe_transactions
  some (record log {
    subscribe_transactions = record log.subscribe_transactions { transaction_end = true };
  })

unfoldable pub subscribe_transaction_abort : TransactionLog → Option TransactionLog
subscribe_transaction_abort log = do
  require_slot true false log.subscribe_transactions
  some (record log {
    subscribe_transactions = record log.subscribe_transactions { transaction_begin = false };
  })

unfoldable pub unsubscribe_transaction_begin : TransactionLog → Option TransactionLog
unsubscribe_transaction_begin log = do
  require_slot true true log.subscribe_transactions
  some (record log {
    subscribe_transactions = record log.subscribe_transactions { transaction_end = false };
  })

unfoldable pub unsubscribe_transaction_commit : TransactionLog → Option TransactionLog
unsubscribe_transaction_commit log = do
  require_slot true false log.subscribe_transactions
  some (record log {
    subscribe_transactions = record log.subscribe_transactions { transaction_begin = false };
    subscription_max_sample_count = none;
  })

-- reference_count_slots_.at(slot_index) = slot
abbrev pub put_slot : ℕ → TransactionLogSlot → TransactionLog → TransactionLog
put_slot i slot log = record log { reference_count_slots = set log.reference_count_slots i slot }

unfoldable pub reference_transaction_begin : ℕ → TransactionLog → Option TransactionLog
reference_transaction_begin i log = do
  slot ← get_elem? log.reference_count_slots i
  require_slot false false slot
  some (put_slot i (record slot { transaction_begin = true }) log)

unfoldable pub reference_transaction_commit : ℕ → TransactionLog → Option TransactionLog
reference_transaction_commit i log = do
  slot ← get_elem? log.reference_count_slots i
  require_slot true false slot
  some (put_slot i (record slot { transaction_end = true }) log)

unfoldable pub reference_transaction_abort : ℕ → TransactionLog → Option TransactionLog
reference_transaction_abort i log = do
  slot ← get_elem? log.reference_count_slots i
  require_slot true false slot
  some (put_slot i (record slot { transaction_begin = false }) log)

unfoldable pub dereference_transaction_begin : ℕ → TransactionLog → Option TransactionLog
dereference_transaction_begin i log = do
  slot ← get_elem? log.reference_count_slots i
  require_slot true true slot
  some (put_slot i (record slot { transaction_begin = false }) log)

unfoldable pub dereference_transaction_commit : ℕ → TransactionLog → Option TransactionLog
dereference_transaction_commit i log = do
  slot ← get_elem? log.reference_count_slots i
  require_slot false true slot
  some (put_slot i (record slot { transaction_end = false }) log)

-- Go on after a step that did not fail.
abbrev pub and_then :
    {S : Type 0}
    → (TransactionLog → S → Option (ResultBlank × TransactionLog × S))
    → ResultBlank × TransactionLog × S
    → Option (ResultBlank × TransactionLog × S)
and_then next (value _, log, s) = next log s
and_then next (error e, log, s) = some (error e, log, s)

-- What the callbacks of a rollback work on is a state of its own, `S`.
module _ {S : Type 0} (dereference_slot_callback : ℕ → S → Option S) where
  -- The body of the loop, by the slot's transaction_begin and transaction_end.
  unfoldable pub rollback_slot :
      Bool → Bool → ℕ → TransactionLog → S → Option (ResultBlank × TransactionLog × S)
  unfolding dereference_transaction_begin dereference_transaction_commit
  rollback_slot true true i log s = do
    log ← dereference_transaction_begin i log
    s ← dereference_slot_callback i s
    log ← dereference_transaction_commit i log
    some (value tt, log, s)
  rollback_slot true false i log s = some (error could_not_restart_proxy, log, s)
  rollback_slot false true i log s = some (error could_not_restart_proxy, log, s)
  rollback_slot false false i log s = some (value tt, log, s)

  -- The loop over the slots from index `i` on, `n` of them.
  unfoldable pub rollback_loop :
      ℕ → ℕ → TransactionLog → S → Option (ResultBlank × TransactionLog × S)
  unfolding rollback_slot
  rollback_loop zero i log s = some (value tt, log, s)
  rollback_loop (suc n) i log s = do
    slot ← get_elem? log.reference_count_slots i
    r ← rollback_slot slot.transaction_begin slot.transaction_end i log s
    and_then (rollback_loop n (i + 1)) r

  unfoldable pub rollback_increment_transactions :
      TransactionLog → S → Option (ResultBlank × TransactionLog × S)
  unfolding rollback_loop
  rollback_increment_transactions log s = rollback_loop (length log.reference_count_slots) 0 log s

module _ {S : Type 0} (unsubscribe_callback : ℕ → S → Option S) where
  -- By the subscription's transaction_begin and transaction_end.
  unfoldable pub rollback_subscription :
      Bool → Bool → TransactionLog → S → Option (ResultBlank × TransactionLog × S)
  unfolding unsubscribe_transaction_begin unsubscribe_transaction_commit
  rollback_subscription true true log s = do
    log ← unsubscribe_transaction_begin log
    max_sample_count ← log.subscription_max_sample_count
    s ← unsubscribe_callback max_sample_count s
    log ← unsubscribe_transaction_commit log
    some (value tt, log, s)
  rollback_subscription true false log s = some (error could_not_restart_proxy, log, s)
  rollback_subscription false true log s = some (error could_not_restart_proxy, log, s)
  rollback_subscription false false log s = some (value tt, log, s)

  unfoldable pub rollback_subscribe_transactions :
      TransactionLog → S → Option (ResultBlank × TransactionLog × S)
  unfolding rollback_subscription
  rollback_subscribe_transactions log s =
      rollback_subscription log.subscribe_transactions.transaction_begin
        log.subscribe_transactions.transaction_end log s

module _ {S : Type 0} (dereference_slot_callback unsubscribe_callback : ℕ → S → Option S) where
  -- Without a recorded subscription no slot may hold a transaction.
  unfoldable pub rollback_proxy_element_log :
      TransactionLog → S → Option (ResultBlank × TransactionLog × S)
  unfolding rollback_increment_transactions rollback_subscribe_transactions
      does_log_contain_increment_or_decrement_transactions
  rollback_proxy_element_log log s = do
    require (
        has_transaction log.subscribe_transactions
        || not (does_log_contain_increment_or_decrement_transactions log.reference_count_slots))
    r ← rollback_increment_transactions dereference_slot_callback log s
    and_then (rollback_subscribe_transactions unsubscribe_callback) r

unfoldable pub rollback_skeleton_tracing_element_log :
    {S : Type 0}
    → (ℕ → S → Option S)
    → TransactionLog
    → S
    → Option (ResultBlank × TransactionLog × S)
unfolding rollback_increment_transactions
rollback_skeleton_tracing_element_log dereference_slot_callback log s =
    rollback_increment_transactions dereference_slot_callback log s
