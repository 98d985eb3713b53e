-- ===== src/Tests/Processes.antt =====
-- The table of users and processes (uid_pid_mapping.cpp) on concrete entries.
use inc_mw_com.Base.{◌+◌, ◌^◌, ◌≡◌, refl, some, [], ◌∷◌}
use inc_mw_com.UidPidMapping.{
  status_of_code, get_status_and_uid, no_peers, UidPidMapping, empty_entry,
  get_status_and_uid_atomic, update_entry, try_update_loop, try_update_pid_for_existing_uid,
  register_pid,
}
use inc_mw_com.UidPidMapping.Register.{Registers, register_pid_undisturbed}

-- The user 1000 runs as process 11; the second entry is free.
abbrev mapping : UidPidMapping
mapping = record {
  entries = record { key_uid_status = 2 ^ 32 + 1000; pid = 11 } ∷ empty_entry ∷ [];
  now = 0;
}

register_pid_undisturbed_example :
    Registers 1000 12 mapping.entries
      (register_pid no_peers 1000 12 mapping).0
      (register_pid no_peers 1000 12 mapping).1.entries
register_pid_undisturbed_example = register_pid_undisturbed 1000 12 mapping

former_pid : (register_pid no_peers 1000 12 mapping).0 ≡ some 11
unfolding register_pid try_update_pid_for_existing_uid try_update_loop get_status_and_uid_atomic
    get_status_and_uid status_of_code update_entry
former_pid = refl
