-- ===== src/Tests/Logs.antt =====
-- Transaction logs (transaction_log.cpp, transaction_log_set.cpp) on concrete data.
use inc_mw_com.Base.{
  ℕ, ◌+◌, ◌≡◌, refl, ◌≢◌, Bool, true, false, Option, none, some, List, [], ◌∷◌, length, ◌>>=◌,
}
use inc_mw_com.ComError.{could_not_restart_proxy, value, error}
use inc_mw_com.TransactionLog.{
  TransactionLogSlot, TransactionLog, new_slot, transaction_log,
  does_log_contain_increment_or_decrement_transactions, contains_transactions,
  subscribe_transaction_begin, subscribe_transaction_commit, subscribe_transaction_abort,
  unsubscribe_transaction_begin, unsubscribe_transaction_commit, reference_transaction_begin,
  reference_transaction_commit, reference_transaction_abort, dereference_transaction_begin,
  dereference_transaction_commit, rollback_slot, rollback_loop, rollback_increment_transactions,
  rollback_subscription, rollback_subscribe_transactions, rollback_proxy_element_log,
}
use inc_mw_com.TransactionLog.Phases.{
  Moves, transaction_phases, Subscription, subscribe_transactions_lem,
}
use inc_mw_com.TransactionLog.Rollback.{
  IsCommitted, rollback_proxy_element_log_lem, IsCutShort, rollback_proxy_element_log_cut_short,
}
use inc_mw_com.TransactionLog.Rollback.Loop.{with_slots}
use inc_mw_com.TransactionLogSet.{
  TransactionLogNode, TransactionLogSet, transaction_log_node, reset, transaction_log_set,
  find_transaction_log_indices_to_be_rolled_back, find_next_available_slot_index,
  mark_transaction_logs_need_rollback, put_node, rollback_indices, rollback_proxy_transactions,
  activate, register_proxy_element, register_skeleton_tracing_element, with_transaction_log,
}
use inc_mw_com.TransactionLogSet.WellFormed.{IsKept}
use inc_mw_com.TransactionLogSet.Calls.{
  Call, registers, registers_tracing, marks, uses, rolls_back, run, run-IsKept,
}
use inc_mw_com.Tests.{empty_log, node_of, idle_node, logs_of}

-- The callbacks write down their calls, the latest first.
abbrev dereference : ℕ → List ℕ → Option (List ℕ)
dereference i calls = some (i ∷ calls)

abbrev unsubscribe : ℕ → List ℕ → Option (List ℕ)
unsubscribe n calls = some ((100 + n) ∷ calls)

abbrev pub flagged : Bool → Bool → TransactionLogSlot
flagged b e = record { transaction_begin = b; transaction_end = e }

-- Subscribed with two samples; slots 0 and 2 are referenced.
abbrev pub committed : TransactionLog
committed = record {
  reference_count_slots = flagged true true ∷ new_slot ∷ flagged true true ∷ [];
  subscribe_transactions = flagged true true;
  subscription_max_sample_count = some 2;
}

pub committed-IsCommitted : IsCommitted committed 2
committed-IsCommitted = record {
  slots_clean = (refl, (refl, (refl, tt)));
  subscribed = refl;
  counted = refl;
}

rollback_proxy_element_log_example :
    (log' : TransactionLog) × (rollback_proxy_element_log dereference unsubscribe committed []
      ≡ some (value tt, log', 102 ∷ 2 ∷ 0 ∷ []))
    × (contains_transactions log' ≡ false)
    × (log'.subscription_max_sample_count ≡ none)
    × (length log'.reference_count_slots ≡ 3)
rollback_proxy_element_log_example =
    rollback_proxy_element_log_lem dereference unsubscribe committed 2 [] (2 ∷ 0 ∷ [])
      (102 ∷ 2 ∷ 0 ∷ []) committed-IsCommitted refl refl

-- The reference to slot 1 was begun only.
abbrev half_begun : TransactionLog
half_begun = record committed {
  reference_count_slots = flagged true true ∷ flagged true false ∷ flagged true true ∷ [];
}

begun_only : true ≢ false
begun_only e = absurd cc

abbrev half_begun-IsCutShort : IsCutShort half_begun (flagged true true ∷ [])
half_begun-IsCutShort = record {
  crashed = flagged true false;
  rest = flagged true true ∷ [];
  slots = refl;
  before = (refl, tt);
  one_flag = begun_only;
}

rollback_proxy_element_log_cut_short_example :
    rollback_proxy_element_log dereference unsubscribe half_begun []
    ≡ some (
      error could_not_restart_proxy,
      with_slots half_begun (new_slot ∷ flagged true false ∷ flagged true true ∷ []),
      0 ∷ [],
    )
rollback_proxy_element_log_cut_short_example =
    rollback_proxy_element_log_cut_short dereference unsubscribe half_begun (flagged true true ∷ [])
      half_begun-IsCutShort [] (0 ∷ []) refl refl

-- The log at index 0 is marked for rollback by the process 7.
abbrev marked_node : TransactionLogNode
marked_node = record (node_of committed) { needs_rollback = true }

abbrev marked : TransactionLogSet
marked = record (logs_of committed) { proxy_transaction_logs = marked_node ∷ idle_node ∷ [] }

-- Registering takes the second node.
registers_second :
    register_proxy_element 9 (logs_of empty_log)
    ≡ some (value 1, put_node 1 (activate 9 idle_node) (logs_of empty_log))
unfolding register_proxy_element find_next_available_slot_index contains_transactions
    does_log_contain_increment_or_decrement_transactions
registers_second = refl

-- A proxy registers, subscribes, references slot 1 and is rolled back; the tracing registers.
abbrev calls : List Call
calls =
    registers 9
    ∷ uses 0 (subscribe_transaction_begin 2)
    ∷ uses 0 subscribe_transaction_commit
    ∷ uses 0 (reference_transaction_begin 1)
    ∷ uses 0 (reference_transaction_commit 1)
    ∷ marks 9
    ∷ rolls_back 9
    ∷ registers_tracing
    ∷ []

abbrev new_set : TransactionLogSet
new_set = record {
  proxy_transaction_logs = idle_node ∷ idle_node ∷ [];
  skeleton_tracing_transaction_log = idle_node;
}

makes_set : transaction_log_set 2 3 ≡ some new_set
unfolding transaction_log_set transaction_log_node transaction_log
makes_set = refl

abbrev rolled_back : TransactionLogSet
rolled_back = record {
  proxy_transaction_logs = record idle_node { transaction_log_id = 9 } ∷ idle_node ∷ [];
  skeleton_tracing_transaction_log = record idle_node { is_active = true };
}

runs : run dereference unsubscribe calls new_set [] ≡ some (rolled_back, 102 ∷ 1 ∷ [])
unfolding register_proxy_element find_next_available_slot_index contains_transactions
    does_log_contain_increment_or_decrement_transactions with_transaction_log
    reference_transaction_begin reference_transaction_commit mark_transaction_logs_need_rollback
    rollback_proxy_transactions rollback_indices find_transaction_log_indices_to_be_rolled_back
    reset register_skeleton_tracing_element rollback_proxy_element_log rollback_loop rollback_slot
    rollback_increment_transactions rollback_subscription rollback_subscribe_transactions
    dereference_transaction_begin dereference_transaction_commit subscribe_transaction_begin
    subscribe_transaction_commit unsubscribe_transaction_begin unsubscribe_transaction_commit
runs = refl

run-IsKept_example : IsKept rolled_back
run-IsKept_example =
    run-IsKept dereference unsubscribe 2 3 new_set rolled_back calls [] (102 ∷ 1 ∷ []) makes_set
      runs

transaction_phases_example :
    Moves 1 empty_log (reference_transaction_begin 1 empty_log) false false true false
    × Moves 1 empty_log (reference_transaction_commit 1 empty_log) true false true true
    × Moves 1 empty_log (reference_transaction_abort 1 empty_log) true false false false
    × Moves 1 empty_log (dereference_transaction_begin 1 empty_log) true true false true
    × Moves 1 empty_log (dereference_transaction_commit 1 empty_log) false true false false
transaction_phases_example = transaction_phases 1 empty_log

subscribe_transactions_example :
    (begun : TransactionLog) × (done : TransactionLog) × (aborted : TransactionLog)
    × (subscribe_transaction_begin 2 empty_log ≡ some begun)
    × (subscribe_transaction_commit begun ≡ some done)
    × Subscription done true true (some 2)
    × (subscribe_transaction_abort begun ≡ some aborted)
    × Subscription aborted false false (some 2)
    × ((unsubscribe_transaction_begin done >>= unsubscribe_transaction_commit) ≡ some empty_log)
subscribe_transactions_example = subscribe_transactions_lem 2 empty_log (refl, refl)
