-- ===== src/UidPidMapping.antt =====
-- mw/com/impl/bindings/lola/uid_pid_mapping.{h,cpp}: which process (pid) runs under which user (uid).
-- Other processes act on the table between the accesses of this one.
pub mod Key
pub mod Update
pub mod Register
use inc_mw_com.Base.{
  ℕ, zero, suc, ◌+◌, ◌-◌, ◌*◌, ◌/◌, ◌%◌, ◌^◌, ◌≤◌, ◌<◌, min, max, ◌≡◌, refl, sym, ap, subst, ◌∙◌,
  ◌≢◌, ◌↔◌, ◌⊎◌, inl, inr, Bool, true, false, not, ◌&&◌, ◌||◌, Option, none, some, List, [], ◌∷◌,
  ◌++◌, map, arith, ltb, leb, ◌==◌, if◌then◌else◌, ltb→lt, ltb→ge, leb→le, leb→gt, ==→eq, ==_self,
  Bool-cases, Option-cases, length, get_elem?, get_or, set, replicate, length-append, length-set,
  length-replicate, get_or-set_self, get_or-set_ne, set-set, set-get_or, get_elem?-set_self,
  get_elem?-set_ne, get_elem?-set, set_unchanged, get_elem?-append_length, length-map,
  get_elem?-map, get_elem?-replicate, ◌>>=◌, ◌>>◌, require, >>=-eq-some, some_eq, Interference,
  Words, alone, seen, load, store, fetch_modify, compare_exchange, Exchanged, compare_exchange_lem,
}

pub data MappingEntryStatus : Type 0 where
  unused used updating invalid : MappingEntryStatus

-- The enum's values, and the cast back; other numbers are never stored.
unfoldable pub status_code : MappingEntryStatus → ℕ
status_code unused = 0
status_code used = 1
status_code updating = 2
status_code invalid = 3

unfoldable pub status_of_code : ℕ → MappingEntryStatus
status_of_code n =
    if n == 0 then unused else if n == 1 then used else if n == 2 then updating else invalid

pub record UidPidMappingEntry : Type 0 where
  pub key_uid_status : ℕ
  pub pid : ℕ

unfoldable pub create_key : MappingEntryStatus → ℕ → ℕ
unfolding status_code
create_key status uid = status_code status * 2 ^ 32 + uid % 2 ^ 32

-- The cast to the 16-bit enum cuts nothing off a key that create_key has made.
unfoldable pub get_status_and_uid : ℕ → MappingEntryStatus × ℕ
unfolding status_of_code
get_status_and_uid status_uid = (status_of_code (status_uid / 2 ^ 32), status_uid % 2 ^ 32)

abbrev pub Table : Type 0
Table = List UidPidMappingEntry

-- What other processes do to the table before the n-th access, and when a weak exchange fails idly.
pub record Peers : Type 0 where
  pub act : ℕ → Table → Table
  pub spurious : ℕ → Bool
  pub act_length : (n : ℕ) (t : Table) → length (act n t) ≡ length t

abbrev pub no_peers : Peers
no_peers = record { act = λ n t. t; spurious = λ n. false; act_length = λ n t. refl }

pub record UidPidMapping : Type 0 where
  pub entries : Table
  pub now : ℕ

abbrev pub empty_entry : UidPidMappingEntry
empty_entry = record { key_uid_status = 0; pid = 0 }

unfoldable pub uid_pid_mapping : ℕ → UidPidMapping
uid_pid_mapping max_mappings = record { entries = replicate max_mappings empty_entry; now = 0 }

abbrev pub max_retries : ℕ
max_retries = 50

-- The first result ends the search.
abbrev pub or_go_on :
    (UidPidMapping → Option ℕ × UidPidMapping) → Option ℕ × UidPidMapping → Option ℕ × UidPidMapping
or_go_on next (some pid, m) = (some pid, m)
or_go_on next (none, m) = next m

module _ (peers : Peers) where
  abbrev pub seen_table : UidPidMapping → Table
  seen_table m = peers.act m.now m.entries

  abbrev pub entry_at : ℕ → UidPidMapping → UidPidMappingEntry
  entry_at i m = get_or (seen_table m) i empty_entry

  -- One access that writes the entry `i`.
  abbrev pub write : ℕ → (UidPidMappingEntry → UidPidMappingEntry) → UidPidMapping → UidPidMapping
  write i f m = record { entries = set (seen_table m) i (f (entry_at i m)); now = suc m.now }

  unfoldable pub get_status_and_uid_atomic :
      ℕ → UidPidMapping → (MappingEntryStatus × ℕ) × UidPidMapping
  get_status_and_uid_atomic i m = (
    get_status_and_uid (entry_at i m).key_uid_status,
    record { entries = seen_table m; now = suc m.now },
  )

  unfoldable pub set_status_and_uid_atomic :
      ℕ → MappingEntryStatus → ℕ → UidPidMapping → UidPidMapping
  set_status_and_uid_atomic i status uid m =
      write i (λ e. record e { key_uid_status = create_key status uid }) m

  -- pid_ is no atomic: it is written by the process that owns the entry.
  abbrev pub set_pid : ℕ → ℕ → UidPidMapping → UidPidMapping
  set_pid i pid m = write i (λ e. record e { pid = pid }) m

  -- What is done with the entry `i` of the given status and uid.
  unfoldable pub update_entry :
      MappingEntryStatus → Bool → ℕ → ℕ → ℕ → UidPidMapping → Option ℕ × UidPidMapping
  update_entry used true i uid pid m = (some (entry_at i m).pid, set_pid i pid m)
  update_entry updating true i uid pid m =
      (some pid, set_status_and_uid_atomic i used uid (set_pid i pid m))
  update_entry _ _ i uid pid m = (none, m)

  -- The entries from `i` on, `n` of them.
  unfoldable pub try_update_loop : ℕ → ℕ → ℕ → ℕ → UidPidMapping → Option ℕ × UidPidMapping
  try_update_loop zero i uid pid m = (none, m)
  try_update_loop (suc n) i uid pid m =
      let (status_uid, m₁) = get_status_and_uid_atomic i m in
      or_go_on (try_update_loop n (i + 1) uid pid)
        (update_entry status_uid.0 (status_uid.1 == uid) i uid pid m₁)

  unfoldable pub try_update_pid_for_existing_uid : ℕ → ℕ → UidPidMapping → Option ℕ × UidPidMapping
  try_update_pid_for_existing_uid uid pid m = try_update_loop (length m.entries) 0 uid pid m

  -- The weak compare-exchange of an unused entry's key.
  unfoldable pub exchange_key : ℕ → ℕ → ℕ → UidPidMapping → Bool × UidPidMapping
  exchange_key i current new m =
      if not (peers.spurious m.now) && (entry_at i m).key_uid_status == current
      then (true, write i (λ e. record e { key_uid_status = new }) m)
      else (false, record { entries = seen_table m; now = suc m.now })

  -- An entry that was claimed gets its pid, and is then marked used.
  abbrev pub claim : ℕ → ℕ → ℕ → Bool × UidPidMapping → Option ℕ × UidPidMapping
  claim i uid pid (true, m) = (some pid, set_status_and_uid_atomic i used uid (set_pid i pid m))
  claim i uid pid (false, m) = (none, m)

  unfoldable pub claim_entry :
      MappingEntryStatus → ℕ → ℕ → ℕ → ℕ → UidPidMapping → Option ℕ × UidPidMapping
  claim_entry unused entry_uid i uid pid m =
      claim i uid pid (exchange_key i (create_key unused entry_uid) (create_key updating uid) m)
  claim_entry _ entry_uid i uid pid m = (none, m)

  unfoldable pub claim_loop : ℕ → ℕ → ℕ → ℕ → UidPidMapping → Option ℕ × UidPidMapping
  claim_loop zero i uid pid m = (none, m)
  claim_loop (suc n) i uid pid m =
      let (status_uid, m₁) = get_status_and_uid_atomic i m in
      or_go_on (claim_loop n (i + 1) uid pid) (claim_entry status_uid.0 status_uid.1 i uid pid m₁)

  unfoldable pub retry_loop : ℕ → ℕ → ℕ → UidPidMapping → Option ℕ × UidPidMapping
  retry_loop zero uid pid m = (none, m)
  retry_loop (suc n) uid pid m =
      or_go_on (retry_loop n uid pid) (claim_loop (length m.entries) 0 uid pid m)

  unfoldable pub register_pid : ℕ → ℕ → UidPidMapping → Option ℕ × UidPidMapping
  register_pid uid pid m =
      or_go_on (retry_loop max_retries uid pid) (try_update_pid_for_existing_uid uid pid m)
