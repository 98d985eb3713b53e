-- ===== src/Tests/Notifications.antt =====
-- Notifying and registering (notify_event_handler.cpp) on concrete tables.
use inc_mw_com.Base.{
  ℕ, ◌≤◌, ◌<◌, ◌≡◌, refl, ◌↔◌, true, false, not, ◌&&◌, ◌||◌, none, some, List, [], ◌∷◌, ◌++◌, map,
  arith, ◌==◌, if◌then◌else◌, length, take, All,
}
use inc_mw_com.ElementFqId.{
  event, field, ElementFqId, element_type_code, element_type_of_code, element_fq_id, same_element,
  hash_key, element_fq_id_to_short_msg_payload, short_msg_payload_to_element_fq_id,
}
use inc_mw_com.ElementFqId.Laws.{Fits, hash_key_lem}
use inc_mw_com.Messages.{
  register_event_notifier, unregister_event_notifier, notify_event_update, message_id,
  ElementFqIdMessage, deserialize_to_element_fq_id_message, element_message_to_short_message,
  OutdatedNodeIdMessage, outdated_message_to_short_message,
}
use inc_mw_com.NotifyEventHandler.{
  asil_qm, RegisteredNotificationHandler, EventNotificationControlData, Action, sent, called,
  sender_removed, NotifyEventHandler, no_control_data, notify_event_handler, control_data, act,
  or_else, found, ids_from, copy_loop, copy_node_identifiers, targets_loop, update_message,
  notify_event_remote, notify_event, upper_bound, Meanwhile, remaining_loop, notify_event_locally,
}
use inc_mw_com.NotifyEventHandler.Tables.{Ascending}
use inc_mw_com.NotifyEventHandler.Remote.{
  unchanged, notify_event_remote_undisturbed, notify_event_remote_lem,
}
use inc_mw_com.NotifyEventHandler.Local.{
  numbers, NumberedBelow, Calls, notify_event_locally_lem, quiet, notify_event_locally_undisturbed,
}
use inc_mw_com.NotifyEventHandler.Registrations.{
  add_handler, register_event_notification, unregister_event_notification,
}
use inc_mw_com.NotifyEventHandler.Incoming.{
  insert_id, handle_register_notification_msg, handle_outdated_node_id_msg, on_register,
  run_callback,
}
use inc_mw_com.NotifyEventHandler.Kept.{WellKept}
use inc_mw_com.NotifyEventHandler.Calls.{
  Call, notified, registered, received, step, run, run-WellKept,
}
use inc_mw_com.NotifyEventHandler.Subscribers.{
  interested, register_payload, handle_register_notification_msg_lem,
  handle_outdated_node_id_msg_lem,
}
use inc_mw_com.NotifyEventHandler.RoundTrip.{told, unregister-register}

abbrev speed : ElementFqId
speed = record { service_id = 1; element_id = 2; instance_id = 3; element_type = event }

abbrev height : ElementFqId
height = record { service_id = 1; element_id = 4; instance_id = 3; element_type = field }

hash_key_example : (same_element speed height ≡ true) ↔ (hash_key speed ≡ hash_key height)
hash_key_example =
    hash_key_lem speed height
      (record { service = omega arith; element = omega arith; instance_fits = omega arith })
      (record { service = omega arith; element = omega arith; instance_fits = omega arith })

abbrev message : ElementFqIdMessage
message = record { message_type = notify_event_update; element_fq_id = speed; sender_node_id = 10 }

-- Two handlers, the second one registered after one that is gone, and three processes.
abbrev first : RegisteredNotificationHandler
first = record { handler = 7; register_no = 0 }

abbrev second : RegisteredNotificationHandler
second = record { handler = 8; register_no = 2 }

abbrev filled : EventNotificationControlData
filled = record {
  event_update_handlers = (speed, first ∷ second ∷ []) ∷ [];
  event_update_interested_nodes = (speed, 10 ∷ 20 ∷ 30 ∷ []) ∷ [];
  event_update_remote_registrations = [];
  cur_registration_no = 3;
  thread_pool = some 2;
}

abbrev tables : NotifyEventHandler
tables = record {
  control_data_qm = filled;
  control_data_asil = no_control_data none;
  asil_b_capability = false;
  node_identifier = 99;
  actions = [];
}

abbrev told_speed : ℕ → Action
told_speed node = sent asil_qm node (update_message tables notify_event_update speed)

nodes-Ascending : Ascending 0 (found speed filled.event_update_interested_nodes)
unfolding same_element
nodes-Ascending = omega arith

handlers_numbered : NumberedBelow 3 (found speed filled.event_update_handlers)
unfolding same_element
handlers_numbered = omega arith

handlers-Ascending : Ascending 0 (numbers (found speed filled.event_update_handlers))
unfolding same_element
handlers-Ascending = omega arith

notify_event_remote_undisturbed_example :
    notify_event_remote unchanged asil_qm speed tables
    ≡ act tables (map told_speed (take 5100 (found speed filled.event_update_interested_nodes)))
notify_event_remote_undisturbed_example =
    notify_event_remote_undisturbed asil_qm speed tables nodes-Ascending

-- Nobody unregisters; all ids are below 50.
nodes_below_50 : All (λ node. node < 50) (found speed filled.event_update_interested_nodes)
unfolding same_element
nodes_below_50 = omega arith

notify_event_remote_example :
    (targets : List ℕ) × (notify_event_remote unchanged asil_qm speed tables
      ≡ act tables (map told_speed targets))
    × Ascending 0 targets
    × All (λ node. node < 50) targets
notify_event_remote_example =
    notify_event_remote_lem (λ node. node < 50) unchanged asil_qm speed tables
      (λ n. nodes-Ascending) (λ n. nodes_below_50)

-- After the second time, the first handler is gone, and the token asks to stop after the third.
abbrev busy : Meanwhile
busy = record {
  changed_handlers = λ n rs. if n == 0 then rs else second ∷ [];
  stop_requested = λ n. n == 2;
}

busy_numbered :
    (n : ℕ) → NumberedBelow 3 (busy.changed_handlers n (found speed filled.event_update_handlers))
unfolding same_element
busy_numbered n = ground arith

notify_event_locally_example :
    (rs : List RegisteredNotificationHandler) × Calls asil_qm speed tables
      (notify_event_locally busy 3 asil_qm speed tables)
      rs
    × Ascending 0 (numbers rs)
notify_event_locally_example =
    notify_event_locally_lem busy 3 asil_qm speed tables handlers_numbered busy_numbered

few_handlers : length (found speed filled.event_update_handlers) ≤ 2
unfolding same_element
few_handlers = omega arith

notify_event_locally_undisturbed_example :
    Calls asil_qm speed tables
      (notify_event_locally quiet 2 asil_qm speed tables)
      (found speed filled.event_update_handlers)
notify_event_locally_undisturbed_example =
    notify_event_locally_undisturbed 2 asil_qm speed tables handlers-Ascending few_handlers

both_called :
    notify_event_locally quiet 2 asil_qm speed tables
    ≡ some (2, act tables (called 7 ∷ called 8 ∷ []))
unfolding notify_event_locally remaining_loop upper_bound same_element
both_called = refl

abbrev fits_speed : Fits speed
fits_speed = record { service = omega arith; element = omega arith; instance_fits = omega arith }

handle_register_notification_msg_example :
    (h : NotifyEventHandler) × (handle_register_notification_msg
        (register_payload register_event_notifier speed 25)
        asil_qm
        25
        tables
      ≡ some h)
    × ((other : ElementFqId) (node : ℕ)
        → interested h asil_qm other node ≡ (
            if same_element speed other
            then 25 == node || interested tables asil_qm other node
            else interested tables asil_qm other node))
handle_register_notification_msg_example =
    handle_register_notification_msg_lem asil_qm speed 25 tables refl fits_speed

abbrev gone : OutdatedNodeIdMessage
gone = record { pid_to_unregister = 20; sender_node_id = 25 }

handle_outdated_node_id_msg_example :
    (h : NotifyEventHandler) × (handle_outdated_node_id_msg
        (outdated_message_to_short_message gone).payload
        asil_qm
        25
        tables
      ≡ some h)
    × (h.actions ≡ sender_removed asil_qm 20 ∷ [])
    × ((event_id : ElementFqId) (node : ℕ)
        → interested h asil_qm event_id node
          ≡ (not (20 == node) && interested tables asil_qm event_id node))
handle_outdated_node_id_msg_example =
    handle_outdated_node_id_msg_lem asil_qm gone 25 tables refl (omega arith) (omega arith, tt)

unregister-register_example :
    (reg_no : ℕ) × (h₁ h₂ : NotifyEventHandler) × (register_event_notification asil_qm speed 9 30
        tables
      ≡ some (reg_no, h₁))
    × (unregister_event_notification asil_qm speed reg_no 30 h₁ ≡ some h₂)
    × (h₁.actions ≡ told tables asil_qm speed 30 register_event_notifier ∷ [])
    × (h₂.actions ≡ h₁.actions ++ told tables asil_qm speed 30 unregister_event_notifier ∷ [])
    × (found speed (control_data h₂ asil_qm).event_update_handlers
        ≡ found speed filled.event_update_handlers)
    × ((control_data h₂ asil_qm).event_update_remote_registrations ≡ [])
unregister-register_example =
    unregister-register asil_qm speed 9 30 tables refl refl refl handlers_numbered

-- A handler is registered here, a process registers, and an update is announced.
abbrev calls : List Call
calls =
    registered asil_qm speed 7 99
    ∷ received on_register quiet 0 (register_payload register_event_notifier speed 25) asil_qm 25
    ∷ notified unchanged asil_qm speed
    ∷ []

abbrev fresh : NotifyEventHandler
fresh = notify_event_handler 4 false 99

abbrev after : NotifyEventHandler
after = or_else fresh (run calls fresh)

calls_go_through : run calls fresh ≡ some after
unfolding run step notify_event_handler register_event_notification add_handler run_callback
    handle_register_notification_msg deserialize_to_element_fq_id_message
    element_message_to_short_message message_id element_fq_id_to_short_msg_payload element_type_code
    short_msg_payload_to_element_fq_id element_fq_id element_type_of_code insert_id notify_event
    notify_event_remote targets_loop copy_node_identifiers ids_from copy_loop same_element
calls_go_through = refl

run-WellKept_example : WellKept 6 after
run-WellKept_example = run-WellKept calls 4 false 99 after (omega arith) calls_go_through
