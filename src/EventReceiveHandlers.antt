-- ===== src/EventReceiveHandlers.antt =====
-- mw/com/impl/bindings/lola/subscription_helpers.{h,cpp}: EventReceiveHandlerManager. What it asks
-- of the message passing is written down as a list of calls, the latest first; a handler is a number.
use inc_mw_com.Base.{ℕ, Option, none, some, List, [], ◌∷◌}

-- IMessagePassingService: {Register,Unregister,Reregister}EventNotification.
pub data MessagingCall : Type 0 where
  registers_event_notification : ℕ → ℕ → MessagingCall
  unregisters_event_notification : ℕ → ℕ → MessagingCall
  reregisters_event_notification : ℕ → MessagingCall

pub record EventReceiveHandlerManager : Type 0 where
  pub registration_number : Option ℕ
  pub event_source_pid : ℕ
  pub calls : List MessagingCall

unfoldable pub event_receive_handler_manager : ℕ → EventReceiveHandlerManager
event_receive_handler_manager event_source_pid = record {
  registration_number = none;
  event_source_pid = event_source_pid;
  calls = [];
}

unfoldable pub unregister_handler :
    Option ℕ → EventReceiveHandlerManager → EventReceiveHandlerManager
unregister_handler none h = h
unregister_handler (some number) h = record h {
  registration_number = none;
  calls = unregisters_event_notification number h.event_source_pid ∷ h.calls;
}

-- `number_of` is the registration number that the message passing gives out.
module _ (number_of : List MessagingCall → ℕ) where
  unfoldable pub register_handler : ℕ → EventReceiveHandlerManager → EventReceiveHandlerManager
  unfolding unregister_handler
  register_handler handler h =
      let h₁ = unregister_handler h.registration_number h in
      let calls = registers_event_notification handler h₁.event_source_pid ∷ h₁.calls in
      record h₁ { registration_number = some (number_of calls); calls = calls }

  unfoldable pub reregister_handler :
      Option ℕ → EventReceiveHandlerManager → EventReceiveHandlerManager
  unfolding register_handler
  reregister_handler (some handler) h = register_handler handler h
  reregister_handler none h = record h {
    calls = elim h.registration_number [
      | some number ↦ reregisters_event_notification h.event_source_pid ∷ h.calls
      | none ↦ h.calls
    ];
  }

abbrev pub update_pid : ℕ → EventReceiveHandlerManager → EventReceiveHandlerManager
update_pid new_event_source_pid h = record h { event_source_pid = new_event_source_pid }
