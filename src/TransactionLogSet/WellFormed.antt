-- ===== src/TransactionLogSet/WellFormed.antt =====
-- Single operations of a transaction log set, and unregistered logs (transaction_log_set.cpp).
use inc_mw_com.Base.{
  ℕ, ◌≡◌, sym, ap, subst, ◌∙◌, inl, inr, true, false, not, Option, some, arith, ◌==◌, Bool-cases,
  get_elem?, get_elem?-set, get_elem?-map, get_elem?-replicate, require, >>=-eq-some, some_eq,
}
use inc_mw_com.ComError.{Result}
use inc_mw_com.TransactionLog.{TransactionLog, contains_transactions}
use inc_mw_com.TransactionLog.Phases.{new_log_empty}
use inc_mw_com.TransactionLogSet.{
  TransactionLogNode, TransactionLogSet, skeleton_index_sentinel, transaction_log_node, reset,
  transaction_log_set, mark_node, mark_transaction_logs_need_rollback, put_node, activate,
  register_proxy_element, register_skeleton_tracing_element,
  is_skeleton_element_transaction_log_index, unregister, with_transaction_log,
}
use inc_mw_com.TransactionLogSet.Register.{IsWellFormed, register_proxy_element_lem}

-- A node that may stand in a well-formed set.
abbrev pub IsSound : TransactionLogNode → Type 0
IsSound node = node.is_active ≡ false → contains_transactions node.transaction_log ≡ false

put_node-IsWellFormed :
    (i : ℕ) (new : TransactionLogNode) (logs : TransactionLogSet)
    → IsSound new
    → IsWellFormed logs
    → IsWellFormed (put_node i new logs)
put_node-IsWellFormed i new logs sound wf = record {
  free_empty = λ j node at idle. elim (get_elem?-set logs.proxy_transaction_logs i j new node at) [
    | inl e ↦ subst IsSound (sym e) sound idle
    | inr old ↦ wf.free_empty j node old idle
  ];
}

-- All logs, that of the skeleton's tracing too.
pub record IsKept (logs : TransactionLogSet) : Type 0 where
  pub proxies : IsWellFormed logs
  pub tracing : IsSound logs.skeleton_tracing_transaction_log

pub put_node-IsKept :
    (i : ℕ) (new : TransactionLogNode) (logs : TransactionLogSet)
    → IsSound new
    → IsKept logs
    → IsKept (put_node i new logs)
put_node-IsKept i new logs sound kept = record {
  proxies = put_node-IsWellFormed i new logs sound kept.proxies;
  tracing = kept.tracing;
}

pub put_tracing-IsKept :
    (node : TransactionLogNode) (logs : TransactionLogSet)
    → IsSound node
    → IsKept logs
    → IsKept (record logs { skeleton_tracing_transaction_log = node })
put_tracing-IsKept node logs sound kept = record {
  proxies = record { free_empty = kept.proxies.free_empty };
  tracing = sound;
}

reset_lem :
    (node node' : TransactionLogNode)
    → reset node ≡ some node'
    → (contains_transactions node.transaction_log ≡ false)
      × (node' ≡ record node { is_active = false; needs_rollback = false })
unfolding reset
reset_lem node node' h = elim (Bool-cases (contains_transactions node.transaction_log)) [
  | inl e ↦ absurd (ground arith)
  | inr e ↦ (e, ground arith)
]

pub reset-IsSound : (node node' : TransactionLogNode) → reset node ≡ some node' → IsSound node'
reset-IsSound node node' h idle =
    let (empty, e) = reset_lem node node' h in
    subst (λ (n : TransactionLogNode). contains_transactions n.transaction_log ≡ false) (sym e)
      empty

pub register_proxy_element-IsKept :
    (id : ℕ) (logs logs' : TransactionLogSet) (r : Result ℕ)
    → IsKept logs
    → register_proxy_element id logs ≡ some (r, logs')
    → IsKept logs'
register_proxy_element-IsKept id logs logs' r kept h =
    elim (register_proxy_element_lem id logs kept.proxies) [
      | inl (_, e) ↦
          let same = ap (λ (p : Result ℕ × TransactionLogSet). p.1) (some_eq (sym e ∙ h)) in
          subst IsKept same kept
      | inr (i, node, lowest, e) ↦
          let put = ap (λ (p : Result ℕ × TransactionLogSet). p.1) (some_eq (sym e ∙ h)) in
          subst IsKept put (put_node-IsKept i (activate id node) logs (λ idle. cc) kept)
    ]

pub register_skeleton_tracing_element-IsKept :
    (logs logs' : TransactionLogSet) (i : ℕ)
    → IsKept logs
    → register_skeleton_tracing_element logs ≡ some (i, logs')
    → IsKept logs'
unfolding register_skeleton_tracing_element
register_skeleton_tracing_element-IsKept logs logs' i kept h =
    let node = logs.skeleton_tracing_transaction_log in
    let (_, _, f) = >>=-eq-some (require (not node.is_active)) _ h in
    subst IsKept (ap (λ (p : ℕ × TransactionLogSet). p.1) (some_eq f))
      (put_tracing-IsKept (record node { is_active = true }) logs (λ idle. cc) kept)

pub unregister-IsKept :
    (i : ℕ) (logs logs' : TransactionLogSet)
    → IsKept logs
    → unregister i logs ≡ some logs'
    → IsKept logs'
unfolding unregister
unregister-IsKept i logs logs' kept h =
    elim (Bool-cases (is_skeleton_element_transaction_log_index i)) [
      | inl e ↦
          let (node, r, f) =
            >>=-eq-some (reset logs.skeleton_tracing_transaction_log) _ (rw e at h) in
          subst IsKept (some_eq f) (
            put_tracing-IsKept node logs
              (reset-IsSound logs.skeleton_tracing_transaction_log node r) kept)
      | inr e ↦
          let (node, at, f) = >>=-eq-some (get_elem? logs.proxy_transaction_logs i) _ (rw e at h) in
          let (node', r, g) = >>=-eq-some (reset node) _ f in
          subst IsKept (some_eq g) (put_node-IsKept i node' logs (reset-IsSound node node' r) kept)
    ]

-- A log that is in use may hold anything.
pub held-IsSound :
    (node : TransactionLogNode) (log : TransactionLog)
    → node.is_active ≡ true
    → IsSound (record node { transaction_log = log })
held-IsSound node log active idle = absurd (ground arith)

pub with_transaction_log-IsKept :
    (i : ℕ) (step : TransactionLog → Option TransactionLog) (logs logs' : TransactionLogSet)
    → IsKept logs
    → with_transaction_log i step logs ≡ some logs'
    → IsKept logs'
unfolding with_transaction_log
with_transaction_log-IsKept i step logs logs' kept h =
    elim (Bool-cases (is_skeleton_element_transaction_log_index i)) [
      | inl e ↦
          let old = logs.skeleton_tracing_transaction_log in
          let (_, active, f) = >>=-eq-some (require old.is_active) _ (rw e at h) in
          let (log, _, g) = >>=-eq-some (step old.transaction_log) _ f in
          subst IsKept (some_eq g) (
            put_tracing-IsKept (record old { transaction_log = log }) logs
              (held-IsSound old log (ground arith)) kept)
      | inr e ↦
          let (node, at, f) = >>=-eq-some (get_elem? logs.proxy_transaction_logs i) _ (rw e at h) in
          let (_, active, g) = >>=-eq-some (require node.is_active) _ f in
          let (log, _, k) = >>=-eq-some (step node.transaction_log) _ g in
          subst IsKept (some_eq k) (
            put_node-IsKept i (record node { transaction_log = log }) logs
              (held-IsSound node log (ground arith)) kept)
    ]

pub mark-IsKept :
    (id : ℕ) (logs : TransactionLogSet)
    → IsKept logs
    → IsKept (mark_transaction_logs_need_rollback id logs)
unfolding mark_transaction_logs_need_rollback
mark-IsKept id logs kept = record {
  proxies = record {
    free_empty = λ j node at idle.
        let (old, here, e) = get_elem?-map (mark_node id) logs.proxy_transaction_logs j node at in
        ground (arith, kept.proxies.free_empty j old here);
  };
  tracing = kept.tracing;
}

pub transaction_log_set-IsKept :
    (n m : ℕ) (logs : TransactionLogSet) → transaction_log_set n m ≡ some logs → IsKept logs
unfolding transaction_log_set transaction_log_node
transaction_log_set-IsKept n m logs h =
    let (_, _, e) = >>=-eq-some (require (not (n == skeleton_index_sentinel))) _ h in
    subst IsKept (some_eq e) (record {
      proxies = record {
        free_empty = λ i node at idle.
            subst (λ (k : TransactionLogNode). contains_transactions k.transaction_log ≡ false)
              (sym (get_elem?-replicate n i (transaction_log_node m) node at)) (new_log_empty m);
      };
      tracing = λ idle. new_log_empty m;
    })
