-- ===== src/TransactionLogSet/RollingBack.antt =====
-- Both rollbacks of a transaction log set, and unregistered logs (transaction_log_set.cpp).
use inc_mw_com.Base.{
  ℕ, suc, ◌+◌, ◌≡◌, refl, sym, ap, subst, ◌∙◌, inl, inr, Bool, true, false, Option, some, List, [],
  ◌∷◌, arith, if◌then◌else◌, Bool-cases, get_elem?, set, All, get_elem?-set, ◌>>=◌, >>=-eq-some,
  some_eq,
}
use inc_mw_com.ComError.{value, error, ResultBlank}
use inc_mw_com.TransactionLog.{
  TransactionLog, rollback_proxy_element_log, rollback_skeleton_tracing_element_log,
}
use inc_mw_com.TransactionLogSet.{
  TransactionLogNode, TransactionLogSet, reset, to_be_rolled_back,
  find_transaction_log_indices_to_be_rolled_back, put_node, after_rollback, rollback_indices,
  after_tracing_rollback, rollback_skeleton_tracing_transactions,
}
use inc_mw_com.TransactionLogSet.WellFormed.{
  IsKept, put_node-IsKept, put_tracing-IsKept, reset-IsSound, held-IsSound,
}

-- Every index is one of an active node.
abbrev pub AreActive : List TransactionLogNode → List ℕ → Type 0
AreActive nodes =
    All (λ i. (node : TransactionLogNode) → get_elem? nodes i ≡ some node → node.is_active ≡ true)

pub find-AreActive :
    (full : List TransactionLogNode) (id k : ℕ) (nodes : List TransactionLogNode)
    → ((j : ℕ) → get_elem? full (k + j) ≡ get_elem? nodes j)
    → AreActive full (find_transaction_log_indices_to_be_rolled_back k nodes id)
unfolding find_transaction_log_indices_to_be_rolled_back
find-AreActive full id k [] h = tt
find-AreActive full id k (x ∷ xs) h =
    let shift = λ (j : ℕ). (let e : k + 1 + j ≡ k + suc j = omega arith in e) in
    let rest = find-AreActive full id (k + 1) xs (λ j. ap (get_elem? full) (shift j) ∙ h (suc j)) in
    let here : k + 0 ≡ k = omega arith in
    let at : get_elem? full k ≡ some x = ap (get_elem? full) (sym here) ∙ h 0 in
    elim (Bool-cases (to_be_rolled_back id x)) [
      | inl e ↦ simp e (
        (λ node found.
            subst (λ (n : TransactionLogNode). n.is_active ≡ true) (some_eq (sym at ∙ found))
              (ground (arith, e))),
        rest,
      )
      | inr e ↦ simp e rest
    ]

set-AreActive :
    (nodes : List TransactionLogNode) (i : ℕ) (new : TransactionLogNode) (is : List ℕ)
    → new.is_active ≡ true
    → AreActive nodes is
    → AreActive (set nodes i new) is
set-AreActive nodes i new [] active h = tt
set-AreActive nodes i new (j ∷ is) active (here, rest) = (
  λ node at. elim (get_elem?-set nodes i j new node at) [
    | inl e ↦ subst (λ (n : TransactionLogNode). n.is_active ≡ true) (sym e) active
    | inr old ↦ here node old
  ],
  set-AreActive nodes i new is active rest,
)

pub starts_at : (j : ℕ) → 0 + j ≡ j
starts_at j = omega arith

module _ {S : Type 0} (dereference unsubscribe : ℕ → S → Option S) where
  pub rollback_indices-IsKept :
      (is : List ℕ) (r r' : ResultBlank) (logs logs' : TransactionLogSet) (s s' : S)
      → AreActive logs.proxy_transaction_logs is
      → IsKept logs
      → rollback_indices dereference unsubscribe is r logs s ≡ some (r', logs', s')
      → IsKept logs'
  unfolding rollback_indices
  rollback_indices-IsKept [] r r' logs logs' s s' active kept h =
      subst IsKept (ap (λ (q : ResultBlank × TransactionLogSet × S). q.1) (some_eq h)) kept
  rollback_indices-IsKept (i ∷ is) r r' logs logs' s s' (here, rest) kept h =
      let (node, at, f) = >>=-eq-some (get_elem? logs.proxy_transaction_logs i) _ h in
      let (q, _, g) =
        >>=-eq-some (rollback_proxy_element_log dereference unsubscribe node.transaction_log s) _
          f in
      after node (here node at) q g (λ r₁ l t. rollback_indices-IsKept is r₁ r' l logs' t s')
    where
      after :
          (node : TransactionLogNode)
          → node.is_active ≡ true
          → (q : ResultBlank × TransactionLog × S)
          → after_rollback dereference unsubscribe i node logs
              (rollback_indices dereference unsubscribe is)
              q
            ≡ some (r', logs', s')
          → ((r₁ : ResultBlank) (l : TransactionLogSet) (t : S)
              → AreActive l.proxy_transaction_logs is
              → IsKept l
              → rollback_indices dereference unsubscribe is r₁ l t ≡ some (r', logs', s')
              → IsKept logs')
          → IsKept logs'
      after node active (value u, log, s₁) g ih =
          let (node', run, e) = >>=-eq-some (reset (record node { transaction_log = log })) _ g in
          subst IsKept (ap (λ (q : ResultBlank × TransactionLogSet × S). q.1) (some_eq e)) (
            put_node-IsKept i node' logs
              (reset-IsSound (record node { transaction_log = log }) node' run) kept)
      after node active (error e, log, s₁) g ih =
          let new : TransactionLogNode = record node { transaction_log = log } in
          ih (error e) (put_node i new logs) s₁
            (set-AreActive logs.proxy_transaction_logs i new is active rest)
            (put_node-IsKept i new logs (held-IsSound node log active) kept) g

  pub rollback_tracing-IsKept :
      (r' : ResultBlank) (logs logs' : TransactionLogSet) (s s' : S)
      → IsKept logs
      → rollback_skeleton_tracing_transactions dereference logs s ≡ some (r', logs', s')
      → IsKept logs'
  unfolding rollback_skeleton_tracing_transactions
  rollback_tracing-IsKept r' logs logs' s s' kept h = by_activity node.is_active refl h
    where
      node : TransactionLogNode
      node = logs.skeleton_tracing_transaction_log

      after :
          node.is_active ≡ true
          → (q : ResultBlank × TransactionLog × S)
          → after_tracing_rollback dereference logs q ≡ some (r', logs', s')
          → IsKept logs'
      after active (value u, log, s₁) g =
          let (node', run, e) = >>=-eq-some (reset (record node { transaction_log = log })) _ g in
          subst IsKept (ap (λ (q : ResultBlank × TransactionLogSet × S). q.1) (some_eq e)) (
            put_tracing-IsKept node' logs
              (reset-IsSound (record node { transaction_log = log }) node' run) kept)
      after active (error e, log, s₁) g =
          subst IsKept (ap (λ (q : ResultBlank × TransactionLogSet × S). q.1) (some_eq g)) (
            put_tracing-IsKept (record node { transaction_log = log }) logs
              (held-IsSound node log active) kept)

      by_activity :
          (b : Bool)
          → node.is_active ≡ b
          → (if b
              then (do
                q ← rollback_skeleton_tracing_element_log dereference node.transaction_log s
                after_tracing_rollback dereference logs q)
              else some (value tt, logs, s))
            ≡ some (r', logs', s')
          → IsKept logs'
      by_activity true active h =
          let (q, _, g) =
            >>=-eq-some (rollback_skeleton_tracing_element_log dereference node.transaction_log s)
              (after_tracing_rollback dereference logs) h in
          after active q g
      by_activity false idle h =
          subst IsKept (ap (λ (q : ResultBlank × TransactionLogSet × S). q.1) (some_eq h)) kept
