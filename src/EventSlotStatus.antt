-- ===== src/EventSlotStatus.antt =====
-- mw/com/impl/bindings/lola/event_slot_status.{h,cpp}: the 64-bit control word of an event slot,
-- the time stamp in the upper and the reference count in the lower 32 bits.
pub mod Laws
use inc_mw_com.Base.{ℕ, ◌+◌, ◌-◌, ◌*◌, ◌/◌, ◌%◌, ◌^◌, Bool, not, ◌&&◌, ◌||◌, ltb, ◌==◌}

abbrev pub timestamp_max : ℕ
timestamp_max = 2 ^ 32 - 1

-- INVALID: the event was never written.
abbrev pub invalid : ℕ
invalid = 0

-- IN_WRITING: the greatest SubscriberCount, with time stamp 0.
abbrev pub in_writing : ℕ
in_writing = 2 ^ 32 - 1

-- data_ & 0x00000000FFFFFFFF
unfoldable pub get_reference_count : ℕ → ℕ
get_reference_count v = v % 2 ^ 32

-- data_ >> 32, as a uint32_t
unfoldable pub get_time_stamp : ℕ → ℕ
get_time_stamp v = v / 2 ^ 32 % 2 ^ 32

unfoldable pub is_invalid : ℕ → Bool
is_invalid v = v == invalid

unfoldable pub is_in_writing : ℕ → Bool
is_in_writing v = v == in_writing

-- The former content of the word is overwritten, reference count included.
unfoldable pub set_time_stamp : ℕ → ℕ → ℕ
set_time_stamp v time_stamp = time_stamp * 2 ^ 32 % 2 ^ 64

-- (data_ & 0xFFFFFFFF00000000) | ref_count, for a ref_count of 32 bits
unfoldable pub set_reference_count : ℕ → ℕ → ℕ
set_reference_count v ref_count = v / 2 ^ 32 * 2 ^ 32 + ref_count % 2 ^ 32

-- The constructor from a time stamp and a reference count.
unfoldable pub event_slot_status : ℕ → ℕ → ℕ
unfolding set_time_stamp set_reference_count
event_slot_status time_stamp ref_count = set_reference_count (set_time_stamp 0 time_stamp) ref_count

unfoldable pub is_time_stamp_between : ℕ → ℕ → ℕ → Bool
unfolding is_in_writing is_invalid get_time_stamp
is_time_stamp_between v min_timestamp max_timestamp =
    not (is_in_writing v)
    && not (is_invalid v)
    && ltb min_timestamp (get_time_stamp v)
    && ltb (get_time_stamp v) max_timestamp

unfoldable pub is_used : ℕ → Bool
unfolding is_in_writing get_reference_count
is_used v = not (get_reference_count v == 0) || is_in_writing v
