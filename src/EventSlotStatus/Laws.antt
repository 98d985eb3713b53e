-- ===== src/EventSlotStatus/Laws.antt =====
-- The fields of a slot's control word (event_slot_status.cpp).
use inc_mw_com.Base.{ℕ, ◌+◌, ◌-◌, ◌^◌, ◌<◌, ◌≡◌, ◌↔◌, ◌≢◌, false, arith}
use inc_mw_com.EventSlotStatus.{
  in_writing, get_reference_count, get_time_stamp, event_slot_status, is_used,
}

-- A word built from a time stamp and a reference count of 32 bits each gives both back, and fits into 64 bits.
pub event_slot_status_fields :
    (time_stamp ref_count : ℕ)
    → time_stamp < 2 ^ 32
    → ref_count < 2 ^ 32
    → (get_time_stamp (event_slot_status time_stamp ref_count) ≡ time_stamp)
      × (get_reference_count (event_slot_status time_stamp ref_count) ≡ ref_count)
      × (event_slot_status time_stamp ref_count < 2 ^ 64)
unfolding get_time_stamp get_reference_count event_slot_status
event_slot_status_fields time_stamp ref_count ht hr = omega arith

-- Conversely every 64-bit word is the one built from its two fields.
pub event_slot_status_of_fields :
    (v : ℕ) → v < 2 ^ 64 → event_slot_status (get_time_stamp v) (get_reference_count v) ≡ v
unfolding get_time_stamp get_reference_count event_slot_status
event_slot_status_of_fields v h = omega arith

-- Adding one reference to a 64-bit word counts it and leaves the time stamp alone, exactly when the count is below its maximum.
pub reference_count_suc :
    (v : ℕ)
    → v < 2 ^ 64
    → ((get_reference_count (v + 1) ≡ get_reference_count v + 1)
        × (get_time_stamp (v + 1) ≡ get_time_stamp v))
      ↔ (get_reference_count v < 2 ^ 32 - 1)
unfolding get_time_stamp get_reference_count
reference_count_suc v h = ((λ p. omega arith), (λ p. omega arith))

-- An unused word has no reference, so it is not the word of a slot in writing.
pub not_used_fields : (v : ℕ) → is_used v ≡ false → (get_reference_count v ≡ 0) × (v ≢ in_writing)
unfolding is_used
not_used_fields v h = (ground arith, λ e. ground arith)
