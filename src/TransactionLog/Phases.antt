-- ===== src/TransactionLog/Phases.antt =====
-- The life of one reference and of the subscription in a transaction log (transaction_log.cpp).
use inc_mw_com.Base.{
  ℕ, zero, suc, ◌%◌, ◌^◌, ◌≡◌, refl, ◌≢◌, ◌⊎◌, inl, inr, Bool, true, false, Option, none, some,
  arith, Option-cases, get_elem?, get_elem?-set_self, get_elem?-set_ne, ◌>>=◌,
}
use inc_mw_com.TransactionLog.{
  TransactionLog, transaction_log, contains_transactions, subscribe_transaction_begin,
  subscribe_transaction_commit, subscribe_transaction_abort, unsubscribe_transaction_begin,
  unsubscribe_transaction_commit, put_slot, reference_transaction_begin,
  reference_transaction_commit, reference_transaction_abort, dereference_transaction_begin,
  dereference_transaction_commit,
}

-- The slot `i` of the log reads `begin`, `end`.
abbrev pub Reads : TransactionLog → ℕ → Bool → Bool → Type 0
Reads log i b e =
    get_elem? log.reference_count_slots i
    ≡ some (record { transaction_begin = b; transaction_end = e })

-- A step on slot `i` leaves the subscription and every other slot as they were.
abbrev pub OnlySlot : ℕ → TransactionLog → TransactionLog → Type 0
OnlySlot i log log' =
    ((j : ℕ)
      → i ≢ j
      → get_elem? log'.reference_count_slots j ≡ get_elem? log.reference_count_slots j)
    × (log'.subscribe_transactions ≡ log.subscribe_transactions)
    × (log'.subscription_max_sample_count ≡ log.subscription_max_sample_count)

-- In the phase (b, e) of slot `i` the step succeeds and moves it to (b', e'); in any other it fails.
abbrev pub Moves : ℕ → TransactionLog → Option TransactionLog → Bool → Bool → Bool → Bool → Type 0
Moves i log r b e b' e' =
    (Reads log i b e
      × (log' : TransactionLog) × (r ≡ some log')
      × Reads log' i b' e'
      × OnlySlot i log log')
    ⊎ (¬ Reads log i b e × (r ≡ none))

put_slot_lem :
    (i : ℕ) (log : TransactionLog) (b e b' e' : Bool)
    → Reads log i b e
    → Reads (put_slot i (record { transaction_begin = b'; transaction_end = e' }) log) i b' e'
      × OnlySlot i log (put_slot i (record { transaction_begin = b'; transaction_end = e' }) log)
put_slot_lem i log b e b' e' h = (
  get_elem?-set_self log.reference_count_slots i _ _ h,
  ((λ j ne. get_elem?-set_ne log.reference_count_slots i j _ ne), refl, refl),
)

moves :
    (i : ℕ) (log : TransactionLog) (r : Option TransactionLog) (b e b' e' : Bool)
    → ((log' : TransactionLog) → r ≡ some log' → Reads log i b e)
    → (Reads log i b e
        → r ≡ some (put_slot i (record { transaction_begin = b'; transaction_end = e' }) log))
    → Moves i log r b e b' e'
moves i log r b e b' e' only does = elim (Option-cases r) [
  | inl fails ↦ inr (λ h. let runs = does h in absurd cc, fails)
  | inr (log', runs) ↦
      let h = only log' runs in
      let (p, q) = put_slot_lem i log b e b' e' h in inl (h, _, does h, p, q)
]

-- Each of the five transaction steps on a slot succeeds exactly in its own phase of that slot (begin, end), and then moves the slot to the next phase and touches neither another slot nor the subscription; in any other phase, or without such a slot, it ends the process.
pub transaction_phases :
    (i : ℕ) (log : TransactionLog)
    → Moves i log (reference_transaction_begin i log) false false true false
      × Moves i log (reference_transaction_commit i log) true false true true
      × Moves i log (reference_transaction_abort i log) true false false false
      × Moves i log (dereference_transaction_begin i log) true true false true
      × Moves i log (dereference_transaction_commit i log) false true false false
unfolding reference_transaction_begin reference_transaction_commit reference_transaction_abort
    dereference_transaction_begin dereference_transaction_commit
transaction_phases i log = (
  moves i log _ _ _ _ _ (λ log' h. ground arith) (λ h. rw h refl),
  moves i log _ _ _ _ _ (λ log' h. ground arith) (λ h. rw h refl),
  moves i log _ _ _ _ _ (λ log' h. ground arith) (λ h. rw h refl),
  moves i log _ _ _ _ _ (λ log' h. ground arith) (λ h. rw h refl),
  moves i log _ _ _ _ _ (λ log' h. ground arith) (λ h. rw h refl),
)

-- The subscription's steps, from one pair of flags and sample count to the next.
abbrev pub Subscription : TransactionLog → Bool → Bool → Option ℕ → Type 0
Subscription log b e count =
    (log.subscribe_transactions ≡ record { transaction_begin = b; transaction_end = e })
    × (log.subscription_max_sample_count ≡ count)

-- Subscribing a log without a subscription records the sample count modulo 2^16; aborting it gives up the begin flag alone; unsubscribing after a commit gives the log back unchanged.
pub subscribe_transactions_lem :
    (n : ℕ) (log : TransactionLog)
    → Subscription log false false none
    → (begun : TransactionLog) × (committed : TransactionLog) × (aborted : TransactionLog)
      × (subscribe_transaction_begin n log ≡ some begun)
      × (subscribe_transaction_commit begun ≡ some committed)
      × Subscription committed true true (some (n % 2 ^ 16))
      × (subscribe_transaction_abort begun ≡ some aborted)
      × Subscription aborted false false (some (n % 2 ^ 16))
      × ((unsubscribe_transaction_begin committed >>= unsubscribe_transaction_commit) ≡ some log)
unfolding subscribe_transaction_begin subscribe_transaction_commit subscribe_transaction_abort
    unsubscribe_transaction_begin unsubscribe_transaction_commit
subscribe_transactions_lem n log h = (
  record log {
    subscribe_transactions = record { transaction_begin = true; transaction_end = false };
    subscription_max_sample_count = some (n % 2 ^ 16);
  },
  record log {
    subscribe_transactions = record { transaction_begin = true; transaction_end = true };
    subscription_max_sample_count = some (n % 2 ^ 16);
  },
  record log {
    subscribe_transactions = record { transaction_begin = false; transaction_end = false };
    subscription_max_sample_count = some (n % 2 ^ 16);
  },
  ground arith,
  ground arith,
  (refl, refl),
  ground arith,
  (refl, refl),
  ground arith,
)

-- A new log holds no transaction.
pub new_log_empty : (m : ℕ) → contains_transactions (transaction_log m) ≡ false
unfolding contains_transactions transaction_log
new_log_empty zero = refl
new_log_empty (suc m) = new_log_empty m
