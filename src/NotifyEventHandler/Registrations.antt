-- ===== src/NotifyEventHandler/Registrations.antt =====
-- Registering and unregistering of handlers (notify_event_handler.cpp), in this process and at the
-- process that offers the event.
use inc_mw_com.Base.{
  ℕ, ◌+◌, ◌-◌, ◌%◌, ◌^◌, Bool, true, false, not, ◌&&◌, Option, none, some, List, [], ◌∷◌, ◌++◌, ltb,
  ◌==◌, if◌then◌else◌, ◌>>=◌, ◌>>◌, require,
}
use inc_mw_com.Base.Maps
use inc_mw_com.ElementFqId.{ElementFqId, same_element}
use inc_mw_com.Messages.{
  register_event_notifier, unregister_event_notifier, OutdatedNodeIdMessage,
  outdated_message_to_short_message,
}
use inc_mw_com.NotifyEventHandler.{
  QualityType, RegisteredNotificationHandler, NodeCounter, sent, NotifyEventHandler, valid_level,
  control_data, with_control_data, act, found, update_message,
}

unfoldable pub send_register_event_notification_message :
    QualityType → ElementFqId → ℕ → NotifyEventHandler → NotifyEventHandler
send_register_event_notification_message level event_id target h =
    act h (sent level target (update_message h register_event_notifier event_id) ∷ [])

abbrev pub count_remote :
    NotifyEventHandler → QualityType → ElementFqId → NodeCounter → NotifyEventHandler
count_remote h level event_id c = with_control_data h level (record (control_data h level) {
  event_update_remote_registrations =
      Maps.put same_element event_id c (control_data h level).event_update_remote_registrations;
})

-- The counter has 16 bits.
abbrev pub count_up : ℕ → Option NodeCounter → NodeCounter
count_up target none = record { node_id = target; counter = 1 }
count_up target (some c) =
    if c.node_id == target
    then record c { counter = (c.counter + 1) % 2 ^ 16 }
    else record { node_id = target; counter = 1 }

unfoldable pub register_event_notification_remote :
    QualityType → ElementFqId → ℕ → NotifyEventHandler → NotifyEventHandler
unfolding send_register_event_notification_message
register_event_notification_remote level event_id target h =
    let registrations = (control_data h level).event_update_remote_registrations in
    let c = count_up target (Maps.find same_element event_id registrations) in
    let h' = count_remote h level event_id c in
    if c.counter == 1 then send_register_event_notification_message level event_id target h' else h'

abbrev pub with_handlers :
    NotifyEventHandler
    → QualityType
    → ElementFqId
    → List RegisteredNotificationHandler
    → NotifyEventHandler
with_handlers h level event_id handlers = with_control_data h level (record (control_data h level) {
  event_update_handlers =
      Maps.put same_element event_id handlers (control_data h level).event_update_handlers;
})

-- The handler is put behind the others, with the next number of 32 bits.
unfoldable pub add_handler : QualityType → ElementFqId → ℕ → NotifyEventHandler → NotifyEventHandler
add_handler level event_id callback h =
    let d = control_data h level in
    let new_handler : RegisteredNotificationHandler = record {
      handler = callback;
      register_no = d.cur_registration_no;
    } in
    with_control_data h level (record d {
      event_update_handlers =
          Maps.put same_element event_id
            (found event_id d.event_update_handlers ++ new_handler ∷ []) d.event_update_handlers;
      cur_registration_no = (d.cur_registration_no + 1) % 2 ^ 32;
    })

unfoldable pub register_event_notification :
    QualityType → ElementFqId → ℕ → ℕ → NotifyEventHandler → Option (ℕ × NotifyEventHandler)
unfolding add_handler register_event_notification_remote
register_event_notification level event_id callback target h = do
  require (valid_level h level)
  let h' = add_handler level event_id callback h
  some (
    (control_data h level).cur_registration_no,
    if target == h.node_identifier
        then h'
        else register_event_notification_remote level event_id target h',
  )

abbrev pub reregister_at :
    QualityType → ElementFqId → ℕ → NotifyEventHandler → Option NodeCounter → NotifyEventHandler
unfolding send_register_event_notification_message
reregister_at level event_id target h none = h
reregister_at level event_id target h (some c) =
    if c.node_id == target
    then count_remote h level event_id (record c { counter = (c.counter + 1) % 2 ^ 16 })
    else send_register_event_notification_message level event_id target
        (count_remote h level event_id (record { node_id = target; counter = 1 }))

unfoldable pub reregister_event_notification :
    QualityType → ElementFqId → ℕ → NotifyEventHandler → Option NotifyEventHandler
unfolding reregister_at
reregister_event_notification level event_id target h = do
  require (valid_level h level)
  let d = control_data h level
  some (elim (Maps.find same_element event_id d.event_update_handlers) [
    | none ↦ h
    | some handlers ↦
        if target == h.node_identifier
        then h
        else reregister_at level event_id target h
            (Maps.find same_element event_id d.event_update_remote_registrations)
  ])

-- What std::lower_bound finds and the vector erases: the first handler whose number is not below is
-- taken out if it has the number.
unfoldable pub erase_handler :
    ℕ → List RegisteredNotificationHandler → Bool × List RegisteredNotificationHandler
erase_handler reg_no [] = (false, [])
erase_handler reg_no (r ∷ handlers) =
    let (done, rest) = erase_handler reg_no handlers in
    if ltb r.register_no reg_no
    then (done, r ∷ rest)
    else if r.register_no == reg_no
    then (true, handlers)
    else (false, r ∷ handlers)

unfoldable pub search_in :
    QualityType
    → ElementFqId
    → ℕ
    → NotifyEventHandler
    → Option (List RegisteredNotificationHandler)
    → Bool × NotifyEventHandler
unfolding erase_handler
search_in level event_id reg_no h none = (false, h)
search_in level event_id reg_no h (some handlers) =
    let (done, rest) = erase_handler reg_no handlers in (done, with_handlers h level event_id rest)

unfoldable pub search_handler_for_notification :
    QualityType → ElementFqId → ℕ → NotifyEventHandler → Option (Bool × NotifyEventHandler)
unfolding search_in
search_handler_for_notification level event_id reg_no h = do
  require (valid_level h level)
  some (
      search_in level event_id reg_no h
        (Maps.find same_element event_id (control_data h level).event_update_handlers))

-- The last registration is taken out, and the process that offers the event is told.
abbrev pub count_down :
    QualityType → ElementFqId → ℕ → NotifyEventHandler → NodeCounter → NotifyEventHandler
count_down level event_id target h c =
    if c.counter == 1
    then act
        (with_control_data h level (record (control_data h level) {
          event_update_remote_registrations =
              Maps.erase same_element event_id
                (control_data h level).event_update_remote_registrations;
        }))
        (sent level target (update_message h unregister_event_notifier event_id) ∷ [])
    else count_remote h level event_id (record c { counter = c.counter - 1 })

abbrev pub unregister_at :
    QualityType
    → ElementFqId
    → ℕ
    → NotifyEventHandler
    → Option NodeCounter
    → Option NotifyEventHandler
unregister_at level event_id target h none = some h
unregister_at level event_id target h (some c) = do
  require (ltb 0 c.counter)
  some (if c.node_id == target then count_down level event_id target h c else h)

unfoldable pub unregister_event_notification_remote :
    QualityType → ElementFqId → ℕ → NotifyEventHandler → Option NotifyEventHandler
unregister_event_notification_remote level event_id target h =
    unregister_at level event_id target h
      (Maps.find same_element event_id (control_data h level).event_update_remote_registrations)

unfoldable pub unregister_event_notification :
    QualityType → ElementFqId → ℕ → ℕ → NotifyEventHandler → Option NotifyEventHandler
unfolding search_handler_for_notification unregister_event_notification_remote
unregister_event_notification level event_id reg_no target h = do
  (done, h') ← search_handler_for_notification level event_id reg_no h
  let rest = unregister_event_notification_remote level event_id target h' in
      if done && not (target == h.node_identifier) then rest else some h'

-- The message carries the target as its sender.
unfoldable pub notify_outdated_node_id :
    QualityType → ℕ → ℕ → NotifyEventHandler → Option NotifyEventHandler
notify_outdated_node_id level outdated target h = do
  require (valid_level h level)
  let m : OutdatedNodeIdMessage = record { pid_to_unregister = outdated; sender_node_id = target }
  some (act h (sent level target (outdated_message_to_short_message m) ∷ []))
