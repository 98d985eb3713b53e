-- ===== src/UidPidMapping/Update.antt =====
-- TryUpdatePidForExistingUid (uid_pid_mapping.cpp) while no other process touches the table.
use native.Mathlib.Decide.{dec_le}
use inc_mw_com.Base.{
  ℕ, zero, suc, ◌+◌, ◌≤◌, ◌<◌, ◌≡◌, refl, ◌≢◌, ◌⊎◌, inl, inr, Bool, true, false, Option, none, some,
  arith, ◌==◌, length, get_or, set, get_or-set_self, set-set,
}
use inc_mw_com.UidPidMapping.{
  MappingEntryStatus, unused, used, updating, invalid, UidPidMappingEntry, create_key,
  get_status_and_uid, Table, no_peers, UidPidMapping, empty_entry, or_go_on,
  get_status_and_uid_atomic, set_status_and_uid_atomic, update_entry, try_update_loop,
}

abbrev pub entry : Table → ℕ → UidPidMappingEntry
entry t i = get_or t i empty_entry

abbrev pub status_at : Table → ℕ → MappingEntryStatus
status_at t i = (get_status_and_uid (entry t i).key_uid_status).0

abbrev pub uid_at : Table → ℕ → ℕ
uid_at t i = (get_status_and_uid (entry t i).key_uid_status).1

abbrev pub is_owner : MappingEntryStatus → Bool → Bool
is_owner used b = b
is_owner updating b = b
is_owner _ b = false

-- The entry is in use, or about to be, for the uid.
abbrev pub owned_by : ℕ → Table → ℕ → Bool
owned_by uid t i = is_owner (status_at t i) (uid_at t i == uid)

abbrev pub is_unused : MappingEntryStatus → Bool
is_unused unused = true
is_unused _ = false

-- The first index from `i` on at which the test holds, or none.
abbrev pub First : (ℕ → Bool) → ℕ → ℕ → Type 0
First test i k = (i ≤ k) × (test k ≡ true) × ((j : ℕ) → i ≤ j → j < k → test j ≡ false)

abbrev pub Nowhere : (ℕ → Bool) → ℕ → ℕ → Type 0
Nowhere test i n = (j : ℕ) → i ≤ j → j < n → test j ≡ false

pub First-later :
    (test : ℕ → Bool) (i k : ℕ) → test i ≡ false → First test (i + 1) k → First test i k
First-later test i k miss (le, hit, before) = (
  omega arith,
  hit,
  λ j i_le j_lt. elim (dec_le (i + 1) j) [
    | yes later ↦ before j later j_lt
    | no here ↦ let same : j ≡ i = omega arith in rw same miss
  ],
)

pub Nowhere-later :
    (test : ℕ → Bool) (i n : ℕ) → test i ≡ false → Nowhere test (i + 1) n → Nowhere test i n
Nowhere-later test i n miss none_later = λ j i_le j_lt. elim (dec_le (i + 1) j) [
  | yes later ↦ none_later j later j_lt
  | no here ↦ let same : j ≡ i = omega arith in rw same miss
]

-- The entry that a registration leaves: used by the uid, with the pid.
abbrev pub registered : ℕ → ℕ → UidPidMappingEntry
registered uid pid = record { key_uid_status = create_key used uid; pid = pid }

-- What the entry `k` becomes, and what is returned, when it already belongs to the uid.
abbrev pub Updates : ℕ → ℕ → Table → ℕ → Option ℕ → Table → Type 0
Updates uid pid t k r t' =
    ((status_at t k ≡ used)
      × (r ≡ some (entry t k).pid)
      × (t' ≡ set t k (record (entry t k) { pid = pid })))
    ⊎ ((status_at t k ≡ updating) × (r ≡ some pid) × (t' ≡ set t k (registered uid pid)))

abbrev pub at_table : Table → ℕ → UidPidMapping
at_table t now = record { entries = t; now = now }

abbrev pub TryResult : ℕ → ℕ → Table → ℕ → Option ℕ × UidPidMapping → Type 0
TryResult uid pid t i r =
    ((k : ℕ) × (k < length t)
      × First (owned_by uid t) i k
      × Updates uid pid t k r.0 r.1.entries
      × (r.0 ≢ none))
    ⊎ (Nowhere (owned_by uid t) i (length t) × (r.0 ≡ none) × (r.1.entries ≡ t))

try_step :
    (uid pid : ℕ) (t : Table) (i now : ℕ) (st : MappingEntryStatus) (b : Bool)
    → i < length t
    → status_at t i ≡ st
    → (uid_at t i == uid) ≡ b
    → (next : UidPidMapping → Option ℕ × UidPidMapping)
    → (is_owner st b ≡ false → TryResult uid pid t i (next (at_table t now)))
    → TryResult uid pid t i (or_go_on next (update_entry no_peers st b i uid pid (at_table t now)))
unfolding update_entry set_status_and_uid_atomic
try_step uid pid t i now used true lt es eb next rest = inl (
  i,
  lt,
  (omega arith, simp (es, eb), λ j i_le j_lt. absurd (omega arith)),
  inl (es, refl, refl),
  λ e. cc,
)
try_step uid pid t i now updating true lt es eb next rest = inl (
  i,
  lt,
  (omega arith, simp (es, eb), λ j i_le j_lt. absurd (omega arith)),
  inr (
    es,
    refl,
    simp (get_or-set_self t i (record (entry t i) { pid = pid }) empty_entry lt, set-set),
  ),
  λ e. cc,
)
try_step uid pid t i now used false lt es eb next rest = rest refl
try_step uid pid t i now updating false lt es eb next rest = rest refl
try_step uid pid t i now unused b lt es eb next rest = rest refl
try_step uid pid t i now invalid b lt es eb next rest = rest refl

pub try_update_loop-TryResult :
    (uid pid : ℕ) (t : Table) (n i now : ℕ)
    → i + n ≡ length t
    → TryResult uid pid t i (try_update_loop no_peers n i uid pid (at_table t now))
unfolding try_update_loop get_status_and_uid_atomic
try_update_loop-TryResult uid pid t zero i now e =
    inr ((λ j i_le j_lt. absurd (omega arith)), refl, refl)
try_update_loop-TryResult uid pid t (suc n) i now e =
    try_step uid pid t i (suc now) (status_at t i) (uid_at t i == uid) (omega arith) refl refl
      (try_update_loop no_peers n (i + 1) uid pid)
      λ miss.
        later (try_update_loop no_peers n (i + 1) uid pid (at_table t (suc now))) miss
          (try_update_loop-TryResult uid pid t n (i + 1) (suc now) (omega arith))
  where
    later :
        (r : Option ℕ × UidPidMapping)
        → owned_by uid t i ≡ false
        → TryResult uid pid t (i + 1) r
        → TryResult uid pid t i r
    later r miss (inl (k, lt, first, a, b)) = inl (k, lt, First-later _ i k miss first, a, b)
    later r miss (inr (nowhere, none_found, kept)) =
        inr (Nowhere-later _ i (length t) miss nowhere, none_found, kept)
