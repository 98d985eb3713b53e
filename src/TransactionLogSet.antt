-- ===== src/TransactionLogSet.antt =====
-- mw/com/impl/bindings/lola/transaction_log_set.{h,cpp}: the transaction logs of the proxies that
-- use one event, and of the skeleton's tracing. Each operation holds the mutex or is called by the
-- one owner of its log, so it runs as a whole.
pub mod Register
pub mod Recover
pub mod WellFormed
pub mod RollingBack
pub mod Calls
pub mod Access
use inc_mw_com.Base.{
  ℕ, zero, suc, ◌+◌, ◌-◌, ◌*◌, ◌/◌, ◌%◌, ◌^◌, ◌≤◌, ◌<◌, min, max, ◌≡◌, refl, sym, ap, subst, ◌∙◌,
  ◌≢◌, ◌↔◌, ◌⊎◌, inl, inr, Bool, true, false, not, ◌&&◌, ◌||◌, Option, none, some, List, [], ◌∷◌,
  ◌++◌, map, arith, ltb, leb, ◌==◌, if◌then◌else◌, ltb→lt, ltb→ge, leb→le, leb→gt, ==→eq, ==_self,
  Bool-cases, Option-cases, length, get_elem?, get_or, set, replicate, length-append, length-set,
  length-replicate, get_or-set_self, get_or-set_ne, set-set, set-get_or, get_elem?-set_self,
  get_elem?-set_ne, get_elem?-set, set_unchanged, get_elem?-append_length, length-map,
  get_elem?-map, get_elem?-replicate, ◌>>=◌, ◌>>◌, require, >>=-eq-some, some_eq, Interference,
  Words, alone, seen, load, store, fetch_modify, compare_exchange, Exchanged, compare_exchange_lem,
}
use inc_mw_com.ComError.{
  ComErrc, service_not_available, max_samples_reached, binding_failure, grant_enforcement_error,
  peer_is_unreachable, field_value_is_not_valid, set_handler_not_set, unset_failure,
  sample_allocation_failure, illegal_use_of_allocate, service_not_offered, communication_link_error,
  no_clients, communication_stack_error, max_sample_count_not_realizable, max_subscribers_exceeded,
  wrong_method_call_processing_mode, erroneous_file_handle, could_not_execute,
  invalid_instance_identifier_string, invalid_binding_information, event_not_existing,
  not_subscribed, invalid_configuration, invalid_meta_model_shortname,
  service_instance_already_offered, could_not_restart_proxy, not_offered,
  instance_id_could_not_be_resolved, find_service_handler_failure, invalid_handle, error_code,
  Result, value, error, ResultBlank,
}
use inc_mw_com.TransactionLog.{
  TransactionLogSlot, TransactionLog, new_slot, transaction_log, has_transaction,
  does_log_contain_increment_or_decrement_transactions, contains_transactions, require_slot,
  subscribe_transaction_begin, subscribe_transaction_commit, subscribe_transaction_abort,
  unsubscribe_transaction_begin, unsubscribe_transaction_commit, put_slot,
  reference_transaction_begin, reference_transaction_commit, reference_transaction_abort,
  dereference_transaction_begin, dereference_transaction_commit, and_then, rollback_slot,
  rollback_loop, rollback_increment_transactions, rollback_subscription,
  rollback_subscribe_transactions, rollback_proxy_element_log,
  rollback_skeleton_tracing_element_log,
}

pub record TransactionLogNode : Type 0 where
  pub is_active : Bool
  pub needs_rollback : Bool
  pub transaction_log_id : ℕ
  pub transaction_log : TransactionLog

pub record TransactionLogSet : Type 0 where
  pub proxy_transaction_logs : List TransactionLogNode
  pub skeleton_tracing_transaction_log : TransactionLogNode

-- kSkeletonIndexSentinel, the greatest uint8_t
abbrev pub skeleton_index_sentinel : ℕ
skeleton_index_sentinel = 255

unfoldable pub transaction_log_node : ℕ → TransactionLogNode
transaction_log_node number_of_slots = record {
  is_active = false;
  needs_rollback = false;
  transaction_log_id = 0;
  transaction_log = transaction_log number_of_slots;
}

unfoldable pub reset : TransactionLogNode → Option TransactionLogNode
reset node = do
  require (not (contains_transactions node.transaction_log))
  some (record node { is_active = false; needs_rollback = false })

unfoldable pub transaction_log_set : ℕ → ℕ → Option TransactionLogSet
unfolding transaction_log_node
transaction_log_set max_number_of_logs number_of_slots = do
  require (not (max_number_of_logs == skeleton_index_sentinel))
  some (record {
    proxy_transaction_logs = replicate max_number_of_logs (transaction_log_node number_of_slots);
    skeleton_tracing_transaction_log = transaction_log_node number_of_slots;
  })

abbrev pub to_be_rolled_back : ℕ → TransactionLogNode → Bool
to_be_rolled_back id node = node.is_active && node.transaction_log_id == id && node.needs_rollback

-- The loop counts from `i` on.
unfoldable pub find_transaction_log_indices_to_be_rolled_back :
    ℕ → List TransactionLogNode → ℕ → List ℕ
find_transaction_log_indices_to_be_rolled_back i [] id = []
find_transaction_log_indices_to_be_rolled_back i (node ∷ nodes) id =
    if to_be_rolled_back id node
    then i ∷ find_transaction_log_indices_to_be_rolled_back (i + 1) nodes id
    else find_transaction_log_indices_to_be_rolled_back (i + 1) nodes id

unfoldable pub find_next_available_slot_index : ℕ → List TransactionLogNode → Option ℕ
find_next_available_slot_index i [] = none
find_next_available_slot_index i (node ∷ nodes) =
    if node.is_active then find_next_available_slot_index (i + 1) nodes else some i

abbrev pub mark_node : ℕ → TransactionLogNode → TransactionLogNode
mark_node id node =
    if node.is_active && node.transaction_log_id == id
    then record node { needs_rollback = true }
    else node

unfoldable pub mark_transaction_logs_need_rollback : ℕ → TransactionLogSet → TransactionLogSet
mark_transaction_logs_need_rollback id set = record set {
  proxy_transaction_logs = map (mark_node id) set.proxy_transaction_logs;
}

-- proxy_transaction_logs_.at(i) = node
abbrev pub put_node : ℕ → TransactionLogNode → TransactionLogSet → TransactionLogSet
put_node i node logs = record logs {
  proxy_transaction_logs = set logs.proxy_transaction_logs i node;
}

module _ {S : Type 0} (dereference_slot_callback unsubscribe_callback : ℕ → S → Option S) where
  -- After one log: a success ends the search, a failure is remembered.
  abbrev pub after_rollback :
      ℕ
      → TransactionLogNode
      → TransactionLogSet
      → (ResultBlank → TransactionLogSet → S → Option (ResultBlank × TransactionLogSet × S))
      → ResultBlank × TransactionLog × S
      → Option (ResultBlank × TransactionLogSet × S)
  after_rollback i node logs next (value _, log, s) = do
    node ← reset (record node { transaction_log = log })
    some (value tt, put_node i node logs, s)
  after_rollback i node logs next (error e, log, s) =
      next (error e) (put_node i (record node { transaction_log = log }) logs) s

  unfoldable pub rollback_indices :
      List ℕ → ResultBlank → TransactionLogSet → S → Option (ResultBlank × TransactionLogSet × S)
  unfolding reset
  rollback_indices [] result logs s = some (result, logs, s)
  rollback_indices (i ∷ is) result logs s = do
    node ← get_elem? logs.proxy_transaction_logs i
    r ←
        rollback_proxy_element_log dereference_slot_callback unsubscribe_callback
          node.transaction_log s
    after_rollback i node logs (rollback_indices is) r

  unfoldable pub rollback_proxy_transactions :
      ℕ → TransactionLogSet → S → Option (ResultBlank × TransactionLogSet × S)
  unfolding rollback_indices find_transaction_log_indices_to_be_rolled_back
  rollback_proxy_transactions id logs s =
      rollback_indices
        (find_transaction_log_indices_to_be_rolled_back 0 logs.proxy_transaction_logs id) (value tt)
        logs s

module _ {S : Type 0} (dereference_slot_callback : ℕ → S → Option S) where
  abbrev pub after_tracing_rollback :
      TransactionLogSet
      → ResultBlank × TransactionLog × S
      → Option (ResultBlank × TransactionLogSet × S)
  after_tracing_rollback logs (value _, log, s) = do
    node ← reset (record logs.skeleton_tracing_transaction_log { transaction_log = log })
    some (value tt, record logs { skeleton_tracing_transaction_log = node }, s)
  after_tracing_rollback logs (error e, log, s) = some (
    error e,
    record logs {
      skeleton_tracing_transaction_log = record logs.skeleton_tracing_transaction_log {
        transaction_log = log;
      };
    },
    s,
  )

  unfoldable pub rollback_skeleton_tracing_transactions :
      TransactionLogSet → S → Option (ResultBlank × TransactionLogSet × S)
  unfolding rollback_skeleton_tracing_element_log reset
  rollback_skeleton_tracing_transactions logs s =
      if logs.skeleton_tracing_transaction_log.is_active
      then (do
        r ←
            rollback_skeleton_tracing_element_log dereference_slot_callback
              logs.skeleton_tracing_transaction_log.transaction_log s
        after_tracing_rollback logs r)
      else some (value tt, logs, s)

-- Marked active under the id before it is checked that no old transaction is left.
abbrev pub activate : ℕ → TransactionLogNode → TransactionLogNode
activate id node = record node { is_active = true; needs_rollback = false; transaction_log_id = id }

unfoldable pub register_proxy_element :
    ℕ → TransactionLogSet → Option (Result ℕ × TransactionLogSet)
unfolding find_next_available_slot_index contains_transactions
register_proxy_element id logs =
    elim (find_next_available_slot_index 0 logs.proxy_transaction_logs) [
      | none ↦ some (error max_subscribers_exceeded, logs)
      | some i ↦ do
        node ← get_elem? logs.proxy_transaction_logs i
        require (not (contains_transactions node.transaction_log))
        some (value i, put_node i (activate id node) logs)
    ]

unfoldable pub register_skeleton_tracing_element :
    TransactionLogSet → Option (ℕ × TransactionLogSet)
register_skeleton_tracing_element logs = do
  require (not logs.skeleton_tracing_transaction_log.is_active)
  some (
    skeleton_index_sentinel,
    record logs {
      skeleton_tracing_transaction_log = record logs.skeleton_tracing_transaction_log {
        is_active = true;
      };
    },
  )

abbrev pub is_skeleton_element_transaction_log_index : ℕ → Bool
is_skeleton_element_transaction_log_index i = i == skeleton_index_sentinel

unfoldable pub unregister : ℕ → TransactionLogSet → Option TransactionLogSet
unfolding reset
unregister i logs =
    if is_skeleton_element_transaction_log_index i
    then (do
      node ← reset logs.skeleton_tracing_transaction_log
      some (record logs { skeleton_tracing_transaction_log = node }))
    else (do
      node ← get_elem? logs.proxy_transaction_logs i
      node ← reset node
      some (put_node i node logs))

-- GetTransactionLog gives a reference, so it is read and written through: `step` is what the
-- caller does to the log.
unfoldable pub with_transaction_log :
    ℕ → (TransactionLog → Option TransactionLog) → TransactionLogSet → Option TransactionLogSet
with_transaction_log i step logs =
    if is_skeleton_element_transaction_log_index i
    then (do
      require logs.skeleton_tracing_transaction_log.is_active
      log ← step logs.skeleton_tracing_transaction_log.transaction_log
      some (record logs {
        skeleton_tracing_transaction_log = record logs.skeleton_tracing_transaction_log {
          transaction_log = log;
        };
      }))
    else (do
      node ← get_elem? logs.proxy_transaction_logs i
      require node.is_active
      log ← step node.transaction_log
      some (put_node i (record node { transaction_log = log }) logs))
