-- ===== src/SlotCollector/GivenBack.antt =====
-- Giving back the collected samples (slot_collector.cpp, slot_decrementer.cpp), while no other process
-- interferes.
use mathlib.Core.List.{reverse, reverse-cons}
use inc_mw_com.Base.{
  ℕ, zero, suc, ◌+◌, ◌-◌, ◌%◌, ◌^◌, ◌<◌, ◌≡◌, refl, sym, ap, subst, ◌∙◌, inl, inr, Option, none,
  some, List, [], ◌∷◌, ◌++◌, length, get_or, set, drop, get_or-set_self, set-set, set-get_or, ◌>>=◌,
  >>=-eq-some, some_eq, alone,
}
use inc_mw_com.EventSlotStatus.{timestamp_max, get_time_stamp}
use inc_mw_com.TransactionLog.{TransactionLog}
use inc_mw_com.TransactionLogSet.Access.{
  LogAt, put_log, LogAt-put_log, put_log-put_log, put_log_self,
}
use inc_mw_com.EventDataControl.State.{EventDataControl, with_words, slot_status}
use inc_mw_com.EventDataControl.Reference.Alone.{with_log, MayReference, holding, IsReferable}
use inc_mw_com.EventDataControl.Reference.GiveBack.{held_word_lem, dereference_undisturbed}
use inc_mw_com.EventDataControl.Reference.Latest.{
  MayTake, with_reference, reference_next_event_undisturbed,
}
use inc_mw_com.SlotCollector.{
  SlotCollector, collect_loop, collect_slots, get_new_samples_slot_indices, slot_decrementer,
  internal_delete,
}
use inc_mw_com.SlotCollector.Collecting.{after_one, next_MayTake, read_stamp}
use inc_mw_com.SlotCollector.Delivered.{highest, highest_loop-alone}

-- The decrementers of the samples are destroyed one after another.
abbrev pub give_back : ℕ → List ℕ → EventDataControl → Option EventDataControl
give_back index [] c = some c
give_back index (i ∷ is) c = do
  c ← internal_delete alone (slot_decrementer i index) c
  give_back index is c

bind_some : (m : Option EventDataControl) → (m >>= λ c. some c) ≡ m
bind_some none = refl
bind_some (some c) = refl

give_back-append :
    (index : ℕ) (is : List ℕ) (i : ℕ) (c c' : EventDataControl)
    → give_back index is c ≡ some c'
    → give_back index (is ++ i ∷ []) c ≡ internal_delete alone (slot_decrementer i index) c'
give_back-append index [] i c c' h =
    bind_some (internal_delete alone (slot_decrementer i index) c)
    ∙ ap (internal_delete alone (slot_decrementer i index)) (some_eq h)
give_back-append index (x ∷ is) i c c' h =
    let (c₁, first, rest) =
      >>=-eq-some (internal_delete alone (slot_decrementer x index) c) (give_back index is) h in
    simp (first, give_back-append index is i c₁ c' rest)

-- Slots and logs are the same; the counts of accesses and retries may differ.
pub record SameSlots (c d : EventDataControl) : Type 0 where
  pub same_words : d.state_slots.words ≡ c.state_slots.words
  pub same_logs : d.transaction_log_set ≡ c.transaction_log_set

give_back_one :
    (c d : EventDataControl) (index i later : ℕ) (log : TransactionLog)
    → MayReference c index i log
    → IsReferable (get_or c.state_slots.words i 0)
    → SameSlots (with_reference c index i log later) d
    → (d' : EventDataControl) × (internal_delete alone (slot_decrementer i index) d ≡ some d')
      × SameSlots c d'
unfolding internal_delete slot_decrementer
give_back_one c d index i later log may r same =
    let ws = c.state_slots.words in
    let v = get_or ws i 0 in
    let logs = c.transaction_log_set in
    let at = LogAt-put_log index logs log (holding i log) may.registered in
    let (end, run) =
      dereference_undisturbed d index i log
        (subst (λ l. LogAt l index (holding i log)) (sym same.same_logs) at) may.unrecorded in
    (
      with_words (with_log d index log) (record {
        words = set d.state_slots.words i ((get_or d.state_slots.words i 0 + 2 ^ 64 - 1) % 2 ^ 64);
        now = end;
      }),
      run,
      record {
        same_words = simp (
          same.same_words,
          get_or-set_self ws i (v + 1) 0 may.exists,
          held_word_lem v r,
          set-set,
          set-get_or,
        );
        same_logs =
            ap (λ l. put_log index log l) same.same_logs
            ∙ put_log-put_log index logs log (holding i log) log may.registered
            ∙ put_log_self index logs log may.registered;
      },
    )

-- What was collected can be given back, the oldest sample first.
collect_loop_given_back :
    (count room last index upper : ℕ) (c : EventDataControl) (log : TransactionLog)
    → last < 2 ^ 32
    → MayTake c last upper index log
    → (is : List ℕ) × (c' : EventDataControl) × (collect_loop alone last index count room upper c
        ≡ some (is, c'))
      × ((d : EventDataControl)
          → SameSlots c' d
          → (d' : EventDataControl) × (give_back index (reverse is) d ≡ some d') × SameSlots c d')
unfolding collect_loop slot_status
collect_loop_given_back zero room last index upper c log small may =
    ([], c, refl, λ d same. (d, refl, same))
collect_loop_given_back (suc count) zero last index upper c log small may =
    ([], c, refl, λ d same. (d, refl, same))
collect_loop_given_back (suc count) (suc room) last index upper c log small may =
    elim (reference_next_event_undisturbed last index upper c log small may) [
      | inl (nothing, later, run) ↦ (
        [],
        with_words c (record { words = c.state_slots.words; now = later }),
        simp run,
        λ d same. (d, refl, record { same_words = same.same_words; same_logs = same.same_logs }),
      )
      | inr (i, newest, later, run) ↦
          let stamp = read_stamp c last upper index i log later may newest in
          let (unrecorded, referable) = may.grantable i newest.0 newest.1 in
          let may_i : MayReference c index i log = record {
            registered = may.registered;
            unrecorded = unrecorded;
            exists = newest.0;
          } in
          let (is, c', rest, back) =
            collect_loop_given_back count room last index
              (get_time_stamp (get_or c.state_slots.words i 0)) (after_one c index i log later)
              (holding i log) small (next_MayTake c last upper index i log later may newest) in
          (
            i ∷ is,
            c',
            simp (run, stamp, rest),
            λ d same.
                let (d₁, run₁, same₁) = back d same in
                let (d₂, run₂, same₂) =
                  give_back_one c d₁ index i later log may_i referable
                    (record { same_words = same₁.same_words; same_logs = same₁.same_logs }) in
                (
                  d₂,
                  ap (λ js. give_back index js d) (reverse-cons i is)
                      ∙ give_back-append index (reverse is) i d d₁ run₁
                      ∙ run₂,
                  same₂,
                ),
          )
    ]

-- While no other process interferes, and if every slot in the range from last_ts up can be referenced: when the decrementers of the slots that GetNewSamplesSlotIndices hands out are destroyed in their order, the words of the slots and the transaction logs are what they were before the call.
pub give_back-get_new_samples_slot_indices :
    (max_count : ℕ) (s : SlotCollector) (c : EventDataControl) (log : TransactionLog)
    → s.last_ts < 2 ^ 32
    → MayTake c s.last_ts timestamp_max s.transaction_log_index log
    → (is : List ℕ) × (s' : SlotCollector) × (c' : EventDataControl) × (d : EventDataControl)
      × (get_new_samples_slot_indices alone max_count s c ≡ some (is, s', c'))
      × (give_back s.transaction_log_index is c' ≡ some d)
      × SameSlots c d
unfolding get_new_samples_slot_indices collect_slots
give_back-get_new_samples_slot_indices max_count s c log small may =
    let room = length s.collected_slots in
    let (is, c', run, back) =
      collect_loop_given_back max_count room s.last_ts s.transaction_log_index timestamp_max c log
        small may in
    let (later, read) =
      highest_loop-alone c'.state_slots.words (reverse is) s.last_ts c' (λ j. refl) in
    let c₂ = with_words c' (record { words = c'.state_slots.words; now = later }) in
    let (d, deleted, same) = back c₂ (record { same_words = refl; same_logs = refl }) in
    (
      reverse is,
      record s {
        last_ts = highest c'.state_slots.words (reverse is) s.last_ts;
        collected_slots = is ++ drop (length is) s.collected_slots;
      },
      c₂,
      d,
      simp (run, read),
      deleted,
      same,
    )
