-- ===== src/NotifyEventHandler/RoundTrip.antt =====
-- Registering a handler and unregistering it again (notify_event_handler.cpp).
use inc_mw_com.Base.{
  ℕ, ◌+◌, ◌%◌, ◌^◌, ◌≡◌, refl, true, false, none, some, List, [], ◌∷◌, ◌++◌, arith, ltb, ◌==◌,
  ==_self,
}
use inc_mw_com.Base.Maps
use inc_mw_com.ElementFqId.{ElementFqId, same_element}
use inc_mw_com.ElementFqId.Laws.{same_element_self}
use inc_mw_com.Messages.{MessageType, register_event_notifier, unregister_event_notifier}
use inc_mw_com.NotifyEventHandler.{
  QualityType, invalid_quality, asil_qm, asil_b, RegisteredNotificationHandler, NodeCounter,
  EventNotificationControlData, Action, sent, NotifyEventHandler, valid_level, control_data, act,
  found, update_message,
}
use inc_mw_com.NotifyEventHandler.Local.{NumberedBelow}
use inc_mw_com.NotifyEventHandler.Registrations.{
  send_register_event_notification_message, register_event_notification_remote, add_handler,
  register_event_notification, erase_handler, search_in, search_handler_for_notification,
  unregister_event_notification_remote, unregister_event_notification,
}

erase_handler-append :
    (reg_no : ℕ) (rs : List RegisteredNotificationHandler) (r : RegisteredNotificationHandler)
    → NumberedBelow reg_no rs
    → r.register_no ≡ reg_no
    → erase_handler reg_no (rs ++ r ∷ []) ≡ (true, rs)
unfolding erase_handler
erase_handler-append reg_no [] r a e = ground arith
erase_handler-append reg_no (x ∷ rs) r (l, a) e =
    let passed : ltb x.register_no reg_no ≡ true = ground arith in
    simp (passed, erase_handler-append reg_no rs r a e)

-- The tables with the new handler and the count of one, and when both are gone again.
module _ (event_id : ElementFqId) (callback target : ℕ) (d : EventNotificationControlData) where
  abbrev rs : List RegisteredNotificationHandler
  rs = found event_id d.event_update_handlers

  abbrev new_handler : RegisteredNotificationHandler
  new_handler = record { handler = callback; register_no = d.cur_registration_no }

  abbrev counter : NodeCounter
  counter = record { node_id = target; counter = 1 }

  abbrev registered_data : EventNotificationControlData
  registered_data = record d {
    event_update_handlers =
        Maps.put same_element event_id (rs ++ new_handler ∷ []) d.event_update_handlers;
    event_update_remote_registrations =
        Maps.put same_element event_id counter d.event_update_remote_registrations;
    cur_registration_no = (d.cur_registration_no + 1) % 2 ^ 32;
  }

  abbrev unregistered_data : EventNotificationControlData
  unregistered_data = record registered_data {
    event_update_handlers = Maps.put same_element event_id rs registered_data.event_update_handlers;
    event_update_remote_registrations =
        Maps.erase same_element event_id registered_data.event_update_remote_registrations;
  }

  data_lem :
      Maps.find same_element event_id d.event_update_remote_registrations ≡ none
      → NumberedBelow d.cur_registration_no rs
      → (Maps.find same_element event_id registered_data.event_update_handlers
          ≡ some (rs ++ new_handler ∷ []))
        × (erase_handler d.cur_registration_no (rs ++ new_handler ∷ []) ≡ (true, rs))
        × (Maps.find same_element event_id registered_data.event_update_remote_registrations
            ≡ some counter)
        × (found event_id unregistered_data.event_update_handlers ≡ rs)
        × (unregistered_data.event_update_remote_registrations
            ≡ d.event_update_remote_registrations)
  data_lem absent below =
      let self = same_element_self event_id in
      (
        Maps.find-put_self same_element event_id (rs ++ new_handler ∷ []) d.event_update_handlers
            self,
        erase_handler-append d.cur_registration_no rs new_handler below refl,
        Maps.find-put_self same_element event_id counter d.event_update_remote_registrations self,
        simp (
            Maps.find-put_self same_element event_id rs registered_data.event_update_handlers self),
        Maps.erase-put same_element event_id counter d.event_update_remote_registrations self
            absent,
      )

-- What the process that offers the event is told by a message of a type.
abbrev pub told : NotifyEventHandler → QualityType → ElementFqId → ℕ → MessageType → Action
told h level event_id target t = sent level target (update_message h t event_id)

-- Registering the first handler for an event that another process offers tells that process, and unregistering it by the number returned tells it again, and leaves the handlers of the event and the registrations at other processes as they were before. The numbers of the handlers were given out before, as they are kept.
pub unregister-register :
    (level : QualityType) (event_id : ElementFqId) (callback target : ℕ) (h : NotifyEventHandler)
    → valid_level h level ≡ true
    → (target == h.node_identifier) ≡ false
    → Maps.find same_element event_id (control_data h level).event_update_remote_registrations
      ≡ none
    → NumberedBelow
        (control_data h level).cur_registration_no
        (found event_id (control_data h level).event_update_handlers)
    → (reg_no : ℕ) × (h₁ h₂ : NotifyEventHandler) × (register_event_notification level event_id
          callback target h
        ≡ some (reg_no, h₁))
      × (unregister_event_notification level event_id reg_no target h₁ ≡ some h₂)
      × (h₁.actions ≡ h.actions ++ told h level event_id target register_event_notifier ∷ [])
      × (h₂.actions ≡ h₁.actions ++ told h level event_id target unregister_event_notifier ∷ [])
      × (found event_id (control_data h₂ level).event_update_handlers
          ≡ found event_id (control_data h level).event_update_handlers)
      × ((control_data h₂ level).event_update_remote_registrations
          ≡ (control_data h level).event_update_remote_registrations)
unfolding register_event_notification register_event_notification_remote add_handler
    send_register_event_notification_message unregister_event_notification
    unregister_event_notification_remote search_handler_for_notification search_in
unregister-register invalid_quality event_id callback target h ok away absent below = absurd cc
unregister-register asil_qm event_id callback target h ok away absent below =
    let d = h.control_data_qm in
    let h₁ : NotifyEventHandler =
      act (record h { control_data_qm = registered_data event_id callback target d })
        (told h asil_qm event_id target register_event_notifier ∷ []) in
    let h₂ : NotifyEventHandler =
      act (record h₁ { control_data_qm = unregistered_data event_id callback target d })
        (told h asil_qm event_id target unregister_event_notifier ∷ []) in
    let (there, gone, counted, back, cleared) = data_lem event_id callback target d absent below in
    (
      d.cur_registration_no,
      h₁,
      h₂,
      simp (away, absent),
      simp (there, gone, away, counted, ==_self target),
      refl,
      refl,
      back,
      cleared,
    )
unregister-register asil_b event_id callback target h ok away absent below =
    let d = h.control_data_asil in
    let h₁ : NotifyEventHandler =
      act (record h { control_data_asil = registered_data event_id callback target d })
        (told h asil_b event_id target register_event_notifier ∷ []) in
    let h₂ : NotifyEventHandler =
      act (record h₁ { control_data_asil = unregistered_data event_id callback target d })
        (told h asil_b event_id target unregister_event_notifier ∷ []) in
    let (there, gone, counted, back, cleared) = data_lem event_id callback target d absent below in
    (
      d.cur_registration_no,
      h₁,
      h₂,
      simp (ok, away, absent),
      simp (ok, there, gone, away, counted, ==_self target),
      refl,
      refl,
      back,
      cleared,
    )
