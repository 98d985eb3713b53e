-- ===== src/UidPidMapping/Key.antt =====
-- The packed status and uid of an entry (uid_pid_mapping.cpp).
use inc_mw_com.Base.{ℕ, ◌^◌, ◌<◌, ◌≡◌, arith}
use inc_mw_com.UidPidMapping.{
  MappingEntryStatus, unused, used, updating, invalid, create_key, get_status_and_uid,
}

-- A key made from a status and a 32-bit uid gives both back.
pub get_status_and_uid-create_key :
    (status : MappingEntryStatus) (uid : ℕ)
    → uid < 2 ^ 32
    → get_status_and_uid (create_key status uid) ≡ (status, uid)
unfolding get_status_and_uid create_key
get_status_and_uid-create_key unused uid h = ground arith
get_status_and_uid-create_key used uid h = ground arith
get_status_and_uid-create_key updating uid h = ground arith
get_status_and_uid-create_key invalid uid h = ground arith
