-- ===== src/TransactionLogSet/Recover.antt =====
-- RollbackProxyTransactions (transaction_log_set.cpp), for a restarted process.
use inc_mw_com.Base.{
  ℕ, zero, suc, ◌+◌, ◌≡◌, refl, ap, true, false, Option, some, List, [], ◌∷◌, arith, get_elem?,
}
use inc_mw_com.ComError.{value}
use inc_mw_com.TransactionLog.{contains_transactions}
use inc_mw_com.TransactionLog.Rollback.{IsCommitted, rollback_proxy_element_log_lem}
use inc_mw_com.TransactionLog.Rollback.Loop.{held_indices, for_each}
use inc_mw_com.TransactionLogSet.{
  TransactionLogNode, TransactionLogSet, to_be_rolled_back,
  find_transaction_log_indices_to_be_rolled_back, put_node, rollback_proxy_transactions,
}

-- The lowest index whose node is to be rolled back for `id`.
abbrev pub FirstMarked : ℕ → List TransactionLogNode → ℕ → TransactionLogNode → Type 0
FirstMarked id [] i node = ⊥
FirstMarked id (x ∷ xs) zero node = (x ≡ node) × (to_be_rolled_back id node ≡ true)
FirstMarked id (x ∷ xs) (suc i) node = (to_be_rolled_back id x ≡ false) × FirstMarked id xs i node

abbrev pub NoneMarked : ℕ → List TransactionLogNode → Type 0
NoneMarked id [] = Unit {0}
NoneMarked id (x ∷ xs) = (to_be_rolled_back id x ≡ false) × NoneMarked id xs

find-FirstMarked :
    (id k : ℕ) (nodes : List TransactionLogNode) (i j : ℕ) (node : TransactionLogNode)
    → FirstMarked id nodes i node
    → k + i ≡ j
    → (get_elem? nodes i ≡ some node)
      × (rest : List ℕ) × (find_transaction_log_indices_to_be_rolled_back k nodes id ≡ j ∷ rest)
unfolding find_transaction_log_indices_to_be_rolled_back
find-FirstMarked id k [] i j node h e = elim h [ ]
find-FirstMarked id k (x ∷ xs) zero j node (same, marked) e =
    let first : k ≡ j = omega arith in
    let marked' : to_be_rolled_back id x ≡ true = rw same marked in
    (
      ap some same,
      find_transaction_log_indices_to_be_rolled_back (k + 1) xs id,
      simp (marked', first),
    )
find-FirstMarked id k (x ∷ xs) (suc i) j node (unmarked, h) e =
    let (at, rest, found) = find-FirstMarked id (k + 1) xs i j node h (omega arith) in
    (at, rest, simp unmarked found)

find-NoneMarked :
    (id k : ℕ) (nodes : List TransactionLogNode)
    → NoneMarked id nodes
    → find_transaction_log_indices_to_be_rolled_back k nodes id ≡ []
unfolding find_transaction_log_indices_to_be_rolled_back
find-NoneMarked id k [] h = refl
find-NoneMarked id k (x ∷ xs) (unmarked, h) = simp unmarked (find-NoneMarked id (k + 1) xs h)

module _ {S : Type 0} (dereference unsubscribe : ℕ → S → Option S) where
  pub rollback_proxy_transactions_lem :
      (id : ℕ) (logs : TransactionLogSet) (i n : ℕ) (node : TransactionLogNode) (s s₁ s₂ : S)
      → FirstMarked id logs.proxy_transaction_logs i node
      → IsCommitted node.transaction_log n
      → for_each dereference (held_indices 0 node.transaction_log.reference_count_slots) s ≡ some s₁
      → unsubscribe n s₁ ≡ some s₂
      → (node' : TransactionLogNode) × (rollback_proxy_transactions dereference unsubscribe id logs
            s
          ≡ some (value tt, put_node i node' logs, s₂))
        × (node'.is_active ≡ false)
        × (node'.needs_rollback ≡ false)
        × (contains_transactions node'.transaction_log ≡ false)
  unfolding rollback_proxy_transactions
  rollback_proxy_transactions_lem id logs i n node s s₁ s₂ first c f u =
      let (at, rest, found) = find-FirstMarked id 0 _ i i node first (omega arith) in
      let (log', done, empty, _, _) =
        rollback_proxy_element_log_lem dereference unsubscribe node.transaction_log n s s₁ s₂ c f
          u in
      (
        record node { is_active = false; needs_rollback = false; transaction_log = log' },
        simp (found, at, done, empty),
        refl,
        refl,
        empty,
      )

  -- Without a log marked for the id the call succeeds and changes nothing.
  pub rollback_proxy_transactions_idle :
      (id : ℕ) (logs : TransactionLogSet) (s : S)
      → NoneMarked id logs.proxy_transaction_logs
      → rollback_proxy_transactions dereference unsubscribe id logs s ≡ some (value tt, logs, s)
  unfolding rollback_proxy_transactions
  rollback_proxy_transactions_idle id logs s h =
      simp (find-NoneMarked id 0 logs.proxy_transaction_logs h)
