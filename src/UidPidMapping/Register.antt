-- ===== src/UidPidMapping/Register.antt =====
-- RegisterPid (uid_pid_mapping.cpp) while no other process touches the table.
use inc_mw_com.Base.{
  ℕ, zero, suc, ◌+◌, ◌<◌, ◌≡◌, refl, sym, subst, ◌⊎◌, inl, inr, Bool, false, Option, none, some,
  arith, ==_self, length, set, get_or-set_self, set-set,
}
use inc_mw_com.UidPidMapping.{
  MappingEntryStatus, unused, used, updating, invalid, create_key, get_status_and_uid, Table,
  no_peers, UidPidMapping, max_retries, or_go_on, get_status_and_uid_atomic,
  set_status_and_uid_atomic, try_update_loop, try_update_pid_for_existing_uid, exchange_key,
  claim_entry, claim_loop, retry_loop, register_pid,
}
use inc_mw_com.UidPidMapping.Update.{
  entry, status_at, uid_at, owned_by, is_unused, First, Nowhere, First-later, Nowhere-later,
  registered, Updates, at_table, TryResult, try_update_loop-TryResult,
}

abbrev pub unused_at : Table → ℕ → Bool
unused_at t i = is_unused (status_at t i)

abbrev ClaimResult : ℕ → ℕ → Table → ℕ → Option ℕ × UidPidMapping → Type 0
ClaimResult uid pid t i r =
    ((k : ℕ) × (k < length t)
      × First (unused_at t) i k
      × (r.0 ≡ some pid)
      × (r.1.entries ≡ set t k (registered uid pid)))
    ⊎ (Nowhere (unused_at t) i (length t) × (r.0 ≡ none) × (r.1.entries ≡ t))

unused_key :
    (v : ℕ) → (get_status_and_uid v).0 ≡ unused → create_key unused (get_status_and_uid v).1 ≡ v
unfolding get_status_and_uid create_key
unused_key v h = ground arith

claim_step :
    (uid pid : ℕ) (t : Table) (i now : ℕ) (st : MappingEntryStatus)
    → i < length t
    → status_at t i ≡ st
    → (next : UidPidMapping → Option ℕ × UidPidMapping)
    → (is_unused st ≡ false → ClaimResult uid pid t i (next (at_table t now)))
    → ClaimResult uid pid t i
        (or_go_on next (claim_entry no_peers st (uid_at t i) i uid pid (at_table t now)))
unfolding claim_entry exchange_key set_status_and_uid_atomic
claim_step uid pid t i now unused lt es next rest =
    let key = unused_key (entry t i).key_uid_status es in
    simp (key, ==_self (entry t i).key_uid_status)
      (inl (
        i,
        lt,
        (omega arith, simp es, λ j i_le j_lt. absurd (omega arith)),
        refl,
        simp (get_or-set_self, lt, set-set),
      ))
claim_step uid pid t i now used lt es next rest = rest refl
claim_step uid pid t i now updating lt es next rest = rest refl
claim_step uid pid t i now invalid lt es next rest = rest refl

claim_loop-ClaimResult :
    (uid pid : ℕ) (t : Table) (n i now : ℕ)
    → i + n ≡ length t
    → ClaimResult uid pid t i (claim_loop no_peers n i uid pid (at_table t now))
unfolding claim_loop get_status_and_uid_atomic
claim_loop-ClaimResult uid pid t zero i now e =
    inr ((λ j i_le j_lt. absurd (omega arith)), refl, refl)
claim_loop-ClaimResult uid pid t (suc n) i now e =
    claim_step uid pid t i (suc now) (status_at t i) (omega arith) refl
      (claim_loop no_peers n (i + 1) uid pid)
      λ miss.
        later (claim_loop no_peers n (i + 1) uid pid (at_table t (suc now))) miss
          (claim_loop-ClaimResult uid pid t n (i + 1) (suc now) (omega arith))
  where
    later :
        (r : Option ℕ × UidPidMapping)
        → unused_at t i ≡ false
        → ClaimResult uid pid t (i + 1) r
        → ClaimResult uid pid t i r
    later r miss (inl (k, lt, first, a, b)) = inl (k, lt, First-later _ i k miss first, a, b)
    later r miss (inr (nowhere, none_found, kept)) =
        inr (Nowhere-later _ i (length t) miss nowhere, none_found, kept)

-- Without an unused entry every further round fails alike.
retry_none :
    (uid pid : ℕ) (t : Table) (n now : ℕ)
    → Nowhere (unused_at t) 0 (length t)
    → ((retry_loop no_peers n uid pid (at_table t now)).0 ≡ none)
      × ((retry_loop no_peers n uid pid (at_table t now)).1.entries ≡ t)
unfolding retry_loop
retry_none uid pid t zero now nowhere = (refl, refl)
retry_none uid pid t (suc n) now nowhere =
    round (claim_loop no_peers (length t) 0 uid pid (at_table t now))
      (claim_loop-ClaimResult uid pid t (length t) 0 now (omega arith))
      (λ later. retry_none uid pid t n later nowhere)
  where
    Fails : Option ℕ × UidPidMapping → Type 0
    Fails r = (r.0 ≡ none) × (r.1.entries ≡ t)

    round :
        (r : Option ℕ × UidPidMapping)
        → ClaimResult uid pid t 0 r
        → ((later : ℕ) → Fails (retry_loop no_peers n uid pid (at_table t later)))
        → Fails (or_go_on (retry_loop no_peers n uid pid) r)
    round r (inl (k, lt, (_, hit, _), _, _)) ih =
        absurd (ground (arith, nowhere k (omega arith) lt))
    round (some q, m) (inr (_, e, _)) ih = cc
    round (none, m) (inr (_, _, kept)) ih =
        subst (λ t'. Fails (retry_loop no_peers n uid pid (at_table t' m.now))) (sym kept)
          (ih m.now)

retry_loop-ClaimResult :
    (uid pid : ℕ) (t : Table) (n now : ℕ)
    → ClaimResult uid pid t 0 (retry_loop no_peers (suc n) uid pid (at_table t now))
unfolding retry_loop
retry_loop-ClaimResult uid pid t n now =
    round (claim_loop no_peers (length t) 0 uid pid (at_table t now))
      (claim_loop-ClaimResult uid pid t (length t) 0 now (omega arith))
  where
    round :
        (r : Option ℕ × UidPidMapping)
        → ClaimResult uid pid t 0 r
        → ClaimResult uid pid t 0 (or_go_on (retry_loop no_peers n uid pid) r)
    round (some q, m) c = c
    round (none, m) (inl (k, lt, first, e, _)) = cc
    round (none, m) (inr (nowhere, _, kept)) =
        let (e, same) = retry_none uid pid t n m.now nowhere in
        inr (
          nowhere,
          subst (λ t'. (retry_loop no_peers n uid pid (at_table t' m.now)).0 ≡ none) (sym kept) e,
          subst (λ t'. (retry_loop no_peers n uid pid (at_table t' m.now)).1.entries ≡ t) (sym kept)
              same,
        )

-- What RegisterPid returns and leaves in the table: the uid's first entry is updated if it has one; otherwise the first unused entry is taken, if there is one.
abbrev pub Registers : ℕ → ℕ → Table → Option ℕ → Table → Type 0
Registers uid pid t r t' =
    ((k : ℕ) × (k < length t) × First (owned_by uid t) 0 k × Updates uid pid t k r t')
    ⊎ (Nowhere (owned_by uid t) 0 (length t)
        × (((k : ℕ) × (k < length t)
              × First (unused_at t) 0 k
              × (r ≡ some pid)
              × (t' ≡ set t k (registered uid pid)))
            ⊎ (Nowhere (unused_at t) 0 (length t) × (r ≡ none) × (t' ≡ t))))

-- While no other process acts: an entry used by the uid keeps its key, gets the pid, and its former pid is returned; one left updating is taken over and marked used; without either the first unused entry becomes the uid's, used, with the pid; and in a full table nothing changes and there is no result.
pub register_pid_undisturbed :
    (uid pid : ℕ) (m : UidPidMapping)
    → Registers uid pid m.entries
        (register_pid no_peers uid pid m).0
        (register_pid no_peers uid pid m).1.entries
unfolding register_pid try_update_pid_for_existing_uid
register_pid_undisturbed uid pid m =
    ends (try_update_loop no_peers (length m.entries) 0 uid pid m)
      (try_update_loop-TryResult uid pid m.entries (length m.entries) 0 m.now (omega arith))
  where
    result : Option ℕ × UidPidMapping → Option ℕ × UidPidMapping
    result r = or_go_on (retry_loop no_peers max_retries uid pid) r

    ends :
        (r : Option ℕ × UidPidMapping)
        → TryResult uid pid m.entries 0 r
        → Registers uid pid m.entries (result r).0 (result r).1.entries
    ends (some q, m₁) (inl (k, lt, first, updates, _)) = inl (k, lt, first, updates)
    ends (none, m₁) (inl (k, lt, first, updates, ne)) = absurd (ne refl)
    ends (some q, m₁) (inr (_, e, _)) = cc
    ends (none, m₁) (inr (nowhere, _, kept)) = inr (
      nowhere,
      subst
          (λ t'.
            ClaimResult uid pid m.entries 0
              (retry_loop no_peers max_retries uid pid (at_table t' m₁.now)))
          (sym kept) (retry_loop-ClaimResult uid pid m.entries 49 m₁.now),
    )
