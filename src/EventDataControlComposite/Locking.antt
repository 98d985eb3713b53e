-- ===== src/EventDataControlComposite/Locking.antt =====
-- AllocateNextMultiSlot (event_data_control_composite.cpp): the locking of a slot in both views.
use inc_mw_com.Base.{
  ℕ, zero, suc, ◌+◌, ◌≤◌, ◌<◌, ◌≡◌, refl, sym, subst, ◌∙◌, inl, inr, Bool, true, false, not, ◌&&◌,
  ◌||◌, Option, none, some, arith, ltb, if◌then◌else◌, Bool-cases, length, get_or, Interference,
  Words, seen, store, compare_exchange, look, Exchanged, compare_exchange_lem,
}
use inc_mw_com.EventSlotStatus.{timestamp_max, in_writing, get_time_stamp, is_invalid, is_used}
use inc_mw_com.EventDataControlComposite.{
  max_multi_allocate_count, Both, consider_multi, is_taken, next_free_loop,
  get_next_free_multi_slot, lock_b, lock_both, try_lock_slot, lock_found, or_retry, multi_loop,
  allocate_next_multi_slot,
}

abbrev Below : ℕ → Option ℕ → Type 0
Below b none = Unit {0}
Below b (some i) = i < b

consider_multi-Below :
    (i slot_qm slot_b b : ℕ) (oldest : ℕ × Option ℕ)
    → i < b
    → Below b oldest.1
    → Below b (consider_multi i slot_qm slot_b oldest).1
unfolding consider_multi
consider_multi-Below i slot_qm slot_b b (t, sel) lt h =
    elim (Bool-cases (
      (is_invalid slot_b || not (is_used slot_qm) && not (is_used slot_b))
      && ltb (get_time_stamp slot_b) t)) [ inl e ↦ simp e lt | inr e ↦ simp e h ]

not_taken :
    (a b t : ℕ) → (is_taken a t || is_taken b t) ≡ false → (is_used a ≡ false) × (is_used b ≡ false)
unfolding is_taken
not_taken a b t h = (ground arith, ground arith)

-- What `s` has become while nothing was locked for good: each write that put a slot, unused at that
-- access, in writing in the QM array was followed by the write of its former word.
pub data Undone (env_qm env_b : Interference) (s : Both) : Both → Type 0 where
  started : Undone env_qm env_b s s
  looked_qm :
      {t : Both}
      → Undone env_qm env_b s t
      → Undone env_qm env_b s (record t { qm = look env_qm t.qm })
  looked_b :
      {t : Both} → Undone env_qm env_b s t → Undone env_qm env_b s (record t { b = look env_b t.b })
  put_back :
      {t : Both} (i : ℕ)
      → Undone env_qm env_b s t
      → is_used (get_or (seen env_qm t.qm) i 0) ≡ false
      → Undone env_qm env_b s (record {
        qm = store env_qm i (get_or (seen env_qm t.qm) i 0) (store env_qm i in_writing t.qm);
        b = look env_b t.b;
      })

Undone-length :
    {env_qm env_b : Interference} {s t : Both}
    → Undone env_qm env_b s t
    → length t.b.words ≡ length s.b.words
Undone-length started = refl
Undone-length (looked_qm h) = Undone-length h
Undone-length {env_b = env_b} (looked_b {t = t} h) =
    env_b.others_length t.b.now t.b.words ∙ Undone-length h
Undone-length {env_b = env_b} (put_back {t = t} i h free) =
    env_b.others_length t.b.now t.b.words ∙ Undone-length h

module _ (env_qm env_b : Interference) where
  -- The slot was unused in both arrays at the accesses that put it in writing there.
  abbrev pub LocksBoth : Both → ℕ → Both → Type 0
  LocksBoth s i after =
      (t : Both) × Undone env_qm env_b s t
      × (i < length s.b.words)
      × (is_used (get_or (seen env_qm t.qm) i 0) ≡ false)
      × (is_used (get_or (seen env_b t.b) i 0) ≡ false)
      × (after.qm ≡ store env_qm i in_writing t.qm)
      × (after.b ≡ store env_b i in_writing t.b)

  abbrev pub BothLocked : Both → Option ℕ × Both → Type 0
  BothLocked s (none, after) = Undone env_qm env_b s after
  BothLocked s (some i, after) = LocksBoth s i after

  next_free_loop-Below :
      (s : Both) (size n i : ℕ) (oldest : ℕ × Option ℕ) (t : Both)
      → i + n ≤ size
      → Below size oldest.1
      → Undone env_qm env_b s t
      → Below size (next_free_loop env_qm env_b n i oldest t).0.1
        × Undone env_qm env_b s (next_free_loop env_qm env_b n i oldest t).1
  unfolding next_free_loop
  next_free_loop-Below s size zero i oldest t le h past = (h, past)
  next_free_loop-Below s size (suc n) i oldest t le h past =
      next_free_loop-Below s size n (i + 1)
        (consider_multi i (get_or (seen env_qm t.qm) i 0) (get_or (seen env_b t.b) i 0) oldest)
        (record { qm = look env_qm t.qm; b = look env_b t.b }) (omega arith)
        (consider_multi-Below i _ _ size oldest (omega arith) h) (looked_b (looked_qm past))

  abbrev outcome : ℕ → Bool × Both → Option ℕ × Both
  outcome i (done, s) = (if done then some i else none, s)

  -- After the exchange in the QM array.
  lock_b-BothLocked :
      (s t : Both) (i old_b : ℕ)
      → Undone env_qm env_b s t
      → i < length s.b.words
      → is_used (get_or (seen env_qm t.qm) i 0) ≡ false
      → is_used old_b ≡ false
      → BothLocked s (
          outcome i (
            lock_b env_qm env_b i
              (get_or (seen env_qm t.qm) i 0)
              old_b
              (record t { qm = store env_qm i in_writing t.qm })))
  unfolding lock_b
  lock_b-BothLocked s t i old_b past lt free_qm free_b =
      split (compare_exchange env_b false i old_b in_writing t.b)
        (compare_exchange_lem env_b false i old_b in_writing t.b)
    where
      put : Words
      put = store env_qm i in_writing t.qm

      split :
          (r : Bool × Words)
          → Exchanged env_b i old_b in_writing t.b r
          → BothLocked s (
              outcome i (
                if r.0 then (true, record { qm = put; b = r.1 }) else (
                  false,
                  record { qm = store env_qm i (get_or (seen env_qm t.qm) i 0) put; b = r.1 },
                )))
      split (true, w) (found, done) = (t, past, lt, free_qm, rw found free_b, refl, done)
      split (false, w) kept =
          subst
            (λ b.
              Undone env_qm env_b s
                (record { qm = store env_qm i (get_or (seen env_qm t.qm) i 0) put; b = b }))
            (sym kept) (put_back i past free_qm)

  lock_both-BothLocked :
      (s t : Both) (i old_qm old_b : ℕ)
      → Undone env_qm env_b s t
      → i < length s.b.words
      → is_used old_qm ≡ false
      → is_used old_b ≡ false
      → BothLocked s (outcome i (lock_both env_qm env_b i old_qm old_b t))
  unfolding lock_both
  lock_both-BothLocked s t i old_qm old_b past lt free_qm free_b =
      split (compare_exchange env_qm false i old_qm in_writing t.qm)
        (compare_exchange_lem env_qm false i old_qm in_writing t.qm)
    where
      split :
          (r : Bool × Words)
          → Exchanged env_qm i old_qm in_writing t.qm r
          → BothLocked s (
              outcome i (
                if r.0
                then lock_b env_qm env_b i old_qm old_b (record t { qm = r.1 })
                else (false, record t { qm = r.1 })))
      split (true, w) (found, put) =
          subst
            (λ v. BothLocked s (outcome i (lock_b env_qm env_b i v old_b (record t { qm = w }))))
            found
            (subst
              (λ q. BothLocked s (
                outcome i (
                  lock_b env_qm env_b i (get_or (seen env_qm t.qm) i 0) old_b
                    (record t { qm = q }))))
              (sym put) (lock_b-BothLocked s t i old_b past lt (rw found free_qm) free_b))
      split (false, w) kept =
          subst (λ q. Undone env_qm env_b s (record t { qm = q })) (sym kept) (looked_qm past)

  try_lock_slot-BothLocked :
      (s t : Both) (i time_stamp : ℕ)
      → Undone env_qm env_b s t
      → i < length s.b.words
      → BothLocked s (outcome i (try_lock_slot env_qm env_b i time_stamp t))
  unfolding try_lock_slot
  try_lock_slot-BothLocked s t i time_stamp past lt =
      let old_qm = get_or (seen env_qm t.qm) i 0 in
      let old_b = get_or (seen env_b t.b) i 0 in
      let t₁ : Both = record { qm = look env_qm t.qm; b = look env_b t.b } in
      let past₁ = looked_b (looked_qm past) in
      elim (Bool-cases (is_taken old_qm time_stamp || is_taken old_b time_stamp)) [
        | inl e ↦ simp e past₁
        | inr e ↦
            let (free_qm, free_b) = not_taken old_qm old_b time_stamp e in
            simp e (lock_both-BothLocked s t₁ i old_qm old_b past₁ lt free_qm free_b)
      ]

  lock_found-BothLocked :
      (s : Both) (r : (ℕ × Option ℕ) × Both)
      → Below (length s.b.words) r.0.1 × Undone env_qm env_b s r.1
      → BothLocked s (lock_found env_qm env_b r)
  unfolding lock_found
  lock_found-BothLocked s ((time_stamp, none), t) (b, past) = past
  lock_found-BothLocked s ((time_stamp, some i), t) (b, past) =
      try_lock_slot-BothLocked s t i time_stamp past b

  get_next_free_multi_slot-Below :
      (s t : Both)
      → Undone env_qm env_b s t
      → Below (length s.b.words) (get_next_free_multi_slot env_qm env_b t).0.1
        × Undone env_qm env_b s (get_next_free_multi_slot env_qm env_b t).1
  unfolding get_next_free_multi_slot
  get_next_free_multi_slot-Below s t past =
      next_free_loop-Below s (length s.b.words) (length t.b.words) 0 (timestamp_max, none) t
        (omega (arith, Undone-length past)) tt past

  multi_loop-BothLocked :
      (s : Both) (n : ℕ) (t : Both)
      → Undone env_qm env_b s t
      → BothLocked s (multi_loop env_qm env_b n t)
  unfolding multi_loop
  multi_loop-BothLocked s zero t past = past
  multi_loop-BothLocked s (suc n) t past =
      round (lock_found env_qm env_b (get_next_free_multi_slot env_qm env_b t))
        (lock_found-BothLocked s (get_next_free_multi_slot env_qm env_b t)
          (get_next_free_multi_slot-Below s t past))
        (multi_loop-BothLocked s n)
    where
      round :
          (r : Option ℕ × Both)
          → BothLocked s r
          → ((t₁ : Both) → Undone env_qm env_b s t₁ → BothLocked s (multi_loop env_qm env_b n t₁))
          → BothLocked s (or_retry env_qm env_b (multi_loop env_qm env_b n) r)
      round (some i, t₁) locked ih = locked
      round (none, t₁) past₁ ih = ih t₁ past₁

  -- Whatever other processes do to the two arrays meanwhile: when AllocateNextMultiSlot returns a slot, it was unused in the QM array and in the ASIL-B array as each was at the access that put it in writing there; all else that the call has written are slots of the QM array, unused at that access, that were put in writing and given their former word back by the next access to this array. When it returns none, this is all that it has written.
  pub allocate_next_multi_slot_lem :
      (s : Both) → BothLocked s (allocate_next_multi_slot env_qm env_b s)
  unfolding allocate_next_multi_slot
  allocate_next_multi_slot_lem s = multi_loop-BothLocked s max_multi_allocate_count s started
