-- ===== src/TransactionLog/Rollback/Loop.antt =====
-- The loop of RollbackIncrementTransactions (transaction_log.cpp) over slots without a crash.
use mathlib.Core.List.{append_assoc}
use inc_mw_com.Base.{
  ℕ, zero, suc, ◌+◌, ◌≡◌, ap, Bool, true, false, ◌&&◌, Option, some, List, [], ◌∷◌, ◌++◌, map,
  arith, if◌then◌else◌, length, get_elem?, set, length-append, get_elem?-append_length, ◌>>=◌,
  >>=-eq-some,
}
use inc_mw_com.ComError.{value, ResultBlank}
use inc_mw_com.TransactionLog.{
  TransactionLogSlot, TransactionLog, new_slot, rollback_slot, rollback_loop,
}

-- Begin and end agree: the process did not crash between them.
abbrev pub IsClean : TransactionLogSlot → Type 0
IsClean slot = slot.transaction_begin ≡ slot.transaction_end

abbrev pub AllClean : List TransactionLogSlot → Type 0
AllClean [] = Unit {0}
AllClean (slot ∷ slots) = IsClean slot × AllClean slots

-- The slots whose reference is committed, numbered from `i` on.
abbrev pub held_indices : ℕ → List TransactionLogSlot → List ℕ
held_indices i [] = []
held_indices i (slot ∷ slots) =
    if slot.transaction_begin && slot.transaction_end
    then i ∷ held_indices (i + 1) slots
    else held_indices (i + 1) slots

abbrev pub cleared : List TransactionLogSlot → List TransactionLogSlot
cleared = map (λ _. new_slot)

module _ {S : Type 0} (callback : ℕ → S → Option S) where
  -- The callback once for each index, in order.
  abbrev pub for_each : List ℕ → S → Option S
  for_each [] s = some s
  for_each (i ∷ is) s = do s ← callback i s; for_each is s

pub get_elem?-append_at :
    (xs : List TransactionLogSlot) (y : TransactionLogSlot) (ys : List TransactionLogSlot) (i : ℕ)
    → length xs ≡ i
    → get_elem? (xs ++ y ∷ ys) i ≡ some y
get_elem?-append_at xs y ys i e = rw (← e) (get_elem?-append_length xs y ys)

set-append_at :
    (xs : List TransactionLogSlot) (y z : TransactionLogSlot) (ys : List TransactionLogSlot) (i : ℕ)
    → length xs ≡ i
    → set (xs ++ y ∷ ys) i z ≡ xs ++ z ∷ ys
set-append_at [] y z ys i e = rw (← e)
set-append_at (x ∷ xs) y z ys zero e = absurd (omega arith)
set-append_at (x ∷ xs) y z ys (suc i) e = ap (◌∷◌ x) (set-append_at xs y z ys i (omega arith))

abbrev pub with_slots : TransactionLog → List TransactionLogSlot → TransactionLog
with_slots log slots = record log { reference_count_slots = slots }

module _ {S : Type 0} (callback : ℕ → S → Option S) where
  -- One round at a committed slot: dereferenced, and cleared.
  held_round :
      (log : TransactionLog) (xs ys : List TransactionLogSlot) (i : ℕ) (s s' : S)
      → length xs ≡ i
      → callback i s ≡ some s'
      → rollback_slot callback true true i
          (with_slots log (xs ++ record { transaction_begin = true; transaction_end = true } ∷ ys))
          s
        ≡ some (value tt, with_slots log (xs ++ new_slot ∷ ys), s')
  unfolding rollback_slot
  held_round log xs ys i s s' e c = rw (
    get_elem?-append_at xs _ ys i e,
    set-append_at xs _ _ ys i e,
    c,
    get_elem?-append_at xs _ ys i e,
    set-append_at xs _ _ ys i e,
  )

  -- One round at a slot with the flags `b` and `e`, and then what the rest of the loop does.
  clean_step :
      (log : TransactionLog) (xs slots : List TransactionLogSlot) (i : ℕ) (s s' : S) (b e : Bool)
      → (result : Option (ResultBlank × TransactionLog × S)) → length xs ≡ i
      → b ≡ e
      → for_each callback
          (if b && e then i ∷ held_indices (i + 1) slots else held_indices (i + 1) slots)
          s
        ≡ some s'
      → (ys : List TransactionLogSlot)
      → ((s₁ : S)
          → for_each callback (held_indices (i + 1) slots) s₁ ≡ some s'
          → rollback_loop callback (length ys) (i + 1) (with_slots log (xs ++ new_slot ∷ ys)) s₁
            ≡ result)
      → rollback_loop callback
          (suc (length ys))
          i
          (with_slots log (xs ++ record { transaction_begin = b; transaction_end = e } ∷ ys))
          s
        ≡ result
  unfolding rollback_loop
  clean_step log xs slots i s s' true false result l c f ys rest = cc
  clean_step log xs slots i s s' false true result l c f ys rest = cc
  clean_step log xs slots i s s' true true result l c f ys rest =
      let (s₁, called, f₁) = >>=-eq-some (callback i s) _ f in
      rw (get_elem?-append_at xs _ ys i l, held_round log xs ys i s s₁ l called) (rest s₁ f₁)
  clean_step log xs slots i s s' false false result l c f ys rest =
      rw (get_elem?-append_at xs _ ys i l) (rest s f)

  -- The loop passes over a clean part of the log, dereferences what it holds, and clears it.
  pub loop-clean :
      (log : TransactionLog) (xs slots rest : List TransactionLogSlot) (i j : ℕ) (s s' : S)
      → length xs ≡ i
      → i + length slots ≡ j
      → AllClean slots
      → for_each callback (held_indices i slots) s ≡ some s'
      → rollback_loop callback (length (slots ++ rest)) i (with_slots log (xs ++ (slots ++ rest))) s
        ≡ rollback_loop callback (length rest) j (with_slots log (xs ++ (cleared slots ++ rest))) s'
  loop-clean log xs [] rest i j s s' e l cl f =
      let same : i ≡ j = omega arith in let last : s ≡ s' = cc in rw (same, last)
  loop-clean log xs (slot ∷ slots) rest i j s s' e l cl f =
      clean_step log xs slots i s s' slot.transaction_begin slot.transaction_end _ e cl.0 f
        (slots ++ rest)
        λ s₁ f₁.
          rw
            (
              append_assoc xs (new_slot ∷ []) (slots ++ rest),
              append_assoc xs (new_slot ∷ []) (cleared slots ++ rest),
            )
            at
            (loop-clean log (xs ++ new_slot ∷ []) slots rest (i + 1) j s₁ s'
              (omega (arith, length-append xs (new_slot ∷ []))) (omega arith) cl.1 f₁)
