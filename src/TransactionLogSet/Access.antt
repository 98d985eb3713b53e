-- ===== src/TransactionLogSet/Access.antt =====
-- GetTransactionLog (transaction_log_set.cpp) as a lens: reading and writing one registered log.
use inc_mw_com.Base.{
  ℕ, ◌≡◌, refl, ap, ◌⊎◌, inl, inr, true, false, Option, none, some, List, if◌then◌else◌, get_elem?,
  set-set, get_elem?-set_self, set_unchanged,
}
use inc_mw_com.TransactionLog.{TransactionLog}
use inc_mw_com.TransactionLogSet.{
  TransactionLogNode, TransactionLogSet, put_node, is_skeleton_element_transaction_log_index,
  with_transaction_log,
}

-- The index is registered, and its log is `log`.
abbrev pub LogAt : TransactionLogSet → ℕ → TransactionLog → Type 0
LogAt logs i log =
    ((is_skeleton_element_transaction_log_index i ≡ true)
      × (logs.skeleton_tracing_transaction_log.is_active ≡ true)
      × (logs.skeleton_tracing_transaction_log.transaction_log ≡ log))
    ⊎ ((node : TransactionLogNode) × (is_skeleton_element_transaction_log_index i ≡ false)
        × (get_elem? logs.proxy_transaction_logs i ≡ some node)
        × (node.is_active ≡ true)
        × (node.transaction_log ≡ log))

put_at : ℕ → TransactionLog → Option TransactionLogNode → TransactionLogSet → TransactionLogSet
put_at i log none logs = logs
put_at i log (some node) logs = put_node i (record node { transaction_log = log }) logs

-- Write the log at an index.
pub put_log : ℕ → TransactionLog → TransactionLogSet → TransactionLogSet
unfolding put_at
put_log i log logs =
    if is_skeleton_element_transaction_log_index i
    then record logs {
      skeleton_tracing_transaction_log = record logs.skeleton_tracing_transaction_log {
        transaction_log = log;
      };
    }
    else put_at i log (get_elem? logs.proxy_transaction_logs i) logs

-- A step at a registered index is the step on its log, written back.
pub with_transaction_log_lem :
    (i : ℕ) (step : TransactionLog → Option TransactionLog) (logs : TransactionLogSet)
    → (log log' : TransactionLog) → LogAt logs i log
    → step log ≡ some log'
    → with_transaction_log i step logs ≡ some (put_log i log' logs)
unfolding with_transaction_log put_log
with_transaction_log_lem i step logs log log' (inl (skel, act, at)) s = simp (skel, act, at, s)
with_transaction_log_lem i step logs log log' (inr (node, proxy, here, act, at)) s =
    simp (proxy, here, act, at, s)

pub LogAt-put_log :
    (i : ℕ) (logs : TransactionLogSet) (log log' : TransactionLog)
    → LogAt logs i log
    → LogAt (put_log i log' logs) i log'
unfolding put_log
LogAt-put_log i logs log log' (inl (skel, act, at)) = inl (skel, simp skel act, simp skel)
LogAt-put_log i logs log log' (inr (node, proxy, here, act, at)) = inr (
  record node { transaction_log = log' },
  proxy,
  simp (proxy, here) (get_elem?-set_self logs.proxy_transaction_logs i _ node here),
  act,
  refl,
)

pub put_log-put_log :
    (i : ℕ) (logs : TransactionLogSet) (log log' log'' : TransactionLog)
    → LogAt logs i log
    → put_log i log'' (put_log i log' logs) ≡ put_log i log'' logs
unfolding put_log
put_log-put_log i logs log log' log'' (inl (skel, act, at)) = simp skel
put_log-put_log i logs log log' log'' (inr (node, proxy, here, act, at)) = simp (
  proxy,
  here,
  get_elem?-set_self logs.proxy_transaction_logs i (record node { transaction_log = log' }) node
      here,
  set-set,
)

pub put_log_self :
    (i : ℕ) (logs : TransactionLogSet) (log : TransactionLog)
    → LogAt logs i log
    → put_log i log logs ≡ logs
unfolding put_log
put_log_self i logs log (inl (skel, act, at)) = simp (skel, ← at)
put_log_self i logs log (inr (node, proxy, here, act, at)) =
    simp (proxy, here, ← at)
      (ap (λ (nodes : List TransactionLogNode). record logs { proxy_transaction_logs = nodes })
        (set_unchanged logs.proxy_transaction_logs i node here))
