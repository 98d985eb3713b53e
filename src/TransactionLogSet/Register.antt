-- ===== src/TransactionLogSet/Register.antt =====
-- Registering logs (transaction_log_set.cpp).
use inc_mw_com.ComError.{max_subscribers_exceeded, value, error}
use inc_mw_com.Base.{
  ℕ, zero, suc, ◌+◌, ◌<◌, ◌≡◌, refl, ◌⊎◌, inl, inr, Bool, true, false, Option, none, some, List, [],
  ◌∷◌, arith, if◌then◌else◌, get_elem?,
}
use inc_mw_com.TransactionLog.{contains_transactions}
use inc_mw_com.TransactionLogSet.{
  TransactionLogNode, TransactionLogSet, find_next_available_slot_index, put_node, activate,
  register_proxy_element,
}

abbrev pub Node : TransactionLogSet → ℕ → TransactionLogNode → Type 0
Node logs i node = get_elem? logs.proxy_transaction_logs i ≡ some node

-- A log that nobody has registered holds no transaction.
pub record IsWellFormed (logs : TransactionLogSet) : Type 0 where
  pub free_empty :
      (i : ℕ) (node : TransactionLogNode)
      → Node logs i node
      → node.is_active ≡ false
      → contains_transactions node.transaction_log ≡ false

abbrev AllActive : List TransactionLogNode → Type 0
AllActive nodes =
    (j : ℕ) (node : TransactionLogNode) → get_elem? nodes j ≡ some node → node.is_active ≡ true

-- What the search for a free index finds.
abbrev FoundFree : List TransactionLogNode → ℕ → Option ℕ → Type 0
FoundFree nodes i none = AllActive nodes
FoundFree nodes i (some k) =
    (d : ℕ) × (node : TransactionLogNode) × (k ≡ i + d)
    × (get_elem? nodes d ≡ some node)
    × (node.is_active ≡ false)
    × ((j : ℕ) (other : TransactionLogNode)
        → j < d
        → get_elem? nodes j ≡ some other
        → other.is_active ≡ true)

found_later :
    (node : TransactionLogNode) (nodes : List TransactionLogNode) (i : ℕ) (r : Option ℕ)
    → node.is_active ≡ true
    → FoundFree nodes (i + 1) r
    → FoundFree (node ∷ nodes) i r
found_later node nodes i none act f = all
  where
    all : AllActive (node ∷ nodes)
    all zero other e = ground arith
    all (suc j) other e = f j other e
found_later node nodes i (some k) act (d, free, at, here, idle, before) =
    (suc d, free, omega arith, here, idle, all)
  where
    all :
        (j : ℕ) (other : TransactionLogNode)
        → j < suc d
        → get_elem? (node ∷ nodes) j ≡ some other
        → other.is_active ≡ true
    all zero other lt e = ground arith
    all (suc j) other lt e = before j other (omega arith) e

find_next_available_slot_index_lem :
    (i : ℕ) (nodes : List TransactionLogNode)
    → FoundFree nodes i (find_next_available_slot_index i nodes)
unfolding find_next_available_slot_index
find_next_available_slot_index_lem i [] = λ j node e. cc
find_next_available_slot_index_lem i (node ∷ nodes) =
    split node.is_active refl (find_next_available_slot_index_lem (i + 1) nodes)
  where
    split :
        (b : Bool)
        → node.is_active ≡ b
        → FoundFree nodes (i + 1) (find_next_available_slot_index (i + 1) nodes)
        → FoundFree
            (node ∷ nodes)
            i
            (if b then find_next_available_slot_index (i + 1) nodes else some i)
    split true act ih = found_later node nodes i _ act ih
    split false idle ih = (0, node, omega arith, refl, idle, λ j other lt e. absurd (omega arith))

-- The lowest free index of a set, if it has one.
abbrev pub LowestFree : TransactionLogSet → ℕ → TransactionLogNode → Type 0
LowestFree logs i node =
    Node logs i node
    × (node.is_active ≡ false)
    × ((j : ℕ) (other : TransactionLogNode) → j < i → Node logs j other → other.is_active ≡ true)

pub register_proxy_element_lem :
    (id : ℕ) (logs : TransactionLogSet)
    → IsWellFormed logs
    → (((j : ℕ) (node : TransactionLogNode) → Node logs j node → node.is_active ≡ true)
        × (register_proxy_element id logs ≡ some (error max_subscribers_exceeded, logs)))
      ⊎ ((i : ℕ) × (node : TransactionLogNode) × LowestFree logs i node
          × (register_proxy_element id logs
              ≡ some (
                value i,
                put_node i
                    (record node {
                      is_active = true;
                      needs_rollback = false;
                      transaction_log_id = id;
                    })
                    logs,
              )))
unfolding register_proxy_element
register_proxy_element_lem id logs wf =
    split (find_next_available_slot_index 0 logs.proxy_transaction_logs) refl
      (find_next_available_slot_index_lem 0 logs.proxy_transaction_logs)
  where
    split :
        (r : Option ℕ)
        → find_next_available_slot_index 0 logs.proxy_transaction_logs ≡ r
        → FoundFree logs.proxy_transaction_logs 0 r
        → (((j : ℕ) (node : TransactionLogNode) → Node logs j node → node.is_active ≡ true)
            × (register_proxy_element id logs ≡ some (error max_subscribers_exceeded, logs)))
          ⊎ ((i : ℕ) × (node : TransactionLogNode) × LowestFree logs i node
              × (register_proxy_element id logs
                  ≡ some (value i, put_node i (activate id node) logs)))
    split none e f = inl (f, rw (e, register_proxy_element))
    split (some k) e (d, node, k_d, here, idle, before) =
        let at : k ≡ d = omega arith in
        inr (
          d,
          node,
          (here, idle, before),
          rw (e, register_proxy_element, at, here, wf.free_empty d node here idle),
        )
