-- ===== src/TransactionLogSet/Calls.antt =====
-- Calls of a transaction log set one after another, and unregistered logs (transaction_log_set.cpp).
use inc_mw_com.Base.{
  ℕ, ◌≡◌, ap, subst, Option, some, List, [], ◌∷◌, get_elem?, ◌>>=◌, >>=-eq-some, some_eq,
}
use inc_mw_com.ComError.{value}
use inc_mw_com.TransactionLog.{TransactionLog}
use inc_mw_com.TransactionLogSet.{
  TransactionLogSet, transaction_log_set, find_transaction_log_indices_to_be_rolled_back,
  mark_transaction_logs_need_rollback, rollback_proxy_transactions,
  rollback_skeleton_tracing_transactions, register_proxy_element, register_skeleton_tracing_element,
  unregister, with_transaction_log,
}
use inc_mw_com.TransactionLogSet.WellFormed.{
  IsKept, register_proxy_element-IsKept, register_skeleton_tracing_element-IsKept,
  unregister-IsKept, with_transaction_log-IsKept, mark-IsKept, transaction_log_set-IsKept,
}
use inc_mw_com.TransactionLogSet.RollingBack.{
  find-AreActive, starts_at, rollback_indices-IsKept, rollback_tracing-IsKept,
}

-- One call of the set; `uses` is any step on the log at an index.
pub data Call : Type 0 where
  registers : ℕ → Call
  registers_tracing : Call
  unregisters : ℕ → Call
  marks : ℕ → Call
  uses : ℕ → (TransactionLog → Option TransactionLog) → Call
  rolls_back : ℕ → Call
  rolls_back_tracing : Call

same_set :
    {S : Type 0} {logs logs' : TransactionLogSet} {s s' : S}
    → ◌≡◌ {A = Option (TransactionLogSet × S)} (some (logs, s)) (some (logs', s'))
    → logs ≡ logs'
same_set {S = S} h = ap (λ (p : TransactionLogSet × S). p.0) (some_eq h)

module _ {S : Type 0} (dereference unsubscribe : ℕ → S → Option S) where
  -- A call, with what it makes of the set and of the state of the callbacks.
  abbrev pub call : Call → TransactionLogSet → S → Option (TransactionLogSet × S)
  call (registers id) logs s = do r ← register_proxy_element id logs; some (r.1, s)
  call registers_tracing logs s = do r ← register_skeleton_tracing_element logs; some (r.1, s)
  call (unregisters i) logs s = do logs ← unregister i logs; some (logs, s)
  call (marks id) logs s = some (mark_transaction_logs_need_rollback id logs, s)
  call (uses i step) logs s = do logs ← with_transaction_log i step logs; some (logs, s)
  call (rolls_back id) logs s = do
    r ← rollback_proxy_transactions dereference unsubscribe id logs s
    some (r.1, r.2)
  call rolls_back_tracing logs s = do
    r ← rollback_skeleton_tracing_transactions dereference logs s
    some (r.1, r.2)

  call-IsKept :
      (c : Call) (logs logs' : TransactionLogSet) (s s' : S)
      → IsKept logs
      → call c logs s ≡ some (logs', s')
      → IsKept logs'
  unfolding rollback_proxy_transactions
  call-IsKept (registers id) logs logs' s s' kept h =
      let ((r, l), e, f) = >>=-eq-some (register_proxy_element id logs) _ h in
      subst IsKept (same_set f) (register_proxy_element-IsKept id logs l r kept e)
  call-IsKept registers_tracing logs logs' s s' kept h =
      let ((i, l), e, f) = >>=-eq-some (register_skeleton_tracing_element logs) _ h in
      subst IsKept (same_set f) (register_skeleton_tracing_element-IsKept logs l i kept e)
  call-IsKept (unregisters i) logs logs' s s' kept h =
      let (l, e, f) = >>=-eq-some (unregister i logs) _ h in
      subst IsKept (same_set f) (unregister-IsKept i logs l kept e)
  call-IsKept (marks id) logs logs' s s' kept h =
      subst IsKept (same_set h) (mark-IsKept id logs kept)
  call-IsKept (uses i step) logs logs' s s' kept h =
      let (l, e, f) = >>=-eq-some (with_transaction_log i step logs) _ h in
      subst IsKept (same_set f) (with_transaction_log-IsKept i step logs l kept e)
  call-IsKept (rolls_back id) logs logs' s s' kept h =
      let nodes = logs.proxy_transaction_logs in
      let ((r, l, t), e, f) =
        >>=-eq-some (rollback_proxy_transactions dereference unsubscribe id logs s) _ h in
      subst IsKept (same_set f) (
        rollback_indices-IsKept dereference unsubscribe
          (find_transaction_log_indices_to_be_rolled_back 0 nodes id) (value tt) r logs l s t
          (find-AreActive nodes id 0 nodes (λ j. ap (get_elem? nodes) (starts_at j))) kept e)
  call-IsKept rolls_back_tracing logs logs' s s' kept h =
      let ((r, l, t), e, f) =
        >>=-eq-some (rollback_skeleton_tracing_transactions dereference logs s) _ h in
      subst IsKept (same_set f)
        (rollback_tracing-IsKept dereference unsubscribe r logs l s t kept e)

  -- Calls one after another, as long as none ends the process.
  abbrev pub run : List Call → TransactionLogSet → S → Option (TransactionLogSet × S)
  run [] logs s = some (logs, s)
  run (c ∷ cs) logs s = do r ← call c logs s; run cs r.0 r.1

  -- From a set that keeps it on.
  run_on-IsKept :
      (cs : List Call) (logs logs' : TransactionLogSet) (s s' : S)
      → IsKept logs
      → run cs logs s ≡ some (logs', s')
      → IsKept logs'
  run_on-IsKept [] logs logs' s s' kept h = subst IsKept (same_set h) kept
  run_on-IsKept (c ∷ cs) logs logs' s s' kept h =
      let ((l, t), e, f) = >>=-eq-some (call c logs s) _ h in
      run_on-IsKept cs l logs' t s' (call-IsKept c logs l s t kept e) f

  -- Whatever a new transaction log set goes through (registering and unregistering, of proxies and of the skeleton's tracing, marking for rollback, any steps on registered logs, and both rollbacks, successful or not, with any callbacks): as long as the process has not ended, a log that is not registered, that of the skeleton's tracing included, holds no transaction.
  pub run-IsKept :
      (n m : ℕ) (logs logs' : TransactionLogSet) (cs : List Call) (s s' : S)
      → transaction_log_set n m ≡ some logs
      → run cs logs s ≡ some (logs', s')
      → IsKept logs'
  run-IsKept n m logs logs' cs s s' new h =
      run_on-IsKept cs logs logs' s s' (transaction_log_set-IsKept n m logs new) h
