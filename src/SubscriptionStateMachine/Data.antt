-- ===== src/SubscriptionStateMachine/Data.antt =====
-- subscription_state_machine.{h,cpp}: the state, the getters by state, and the guard of
-- transaction_log_registration_guard.cpp.
use inc_mw_com.Base.{ℕ, Bool, true, Option, none, some, ◌>>=◌}
use inc_mw_com.ComError.{Result}
use inc_mw_com.TransactionLog.{TransactionLog}
use inc_mw_com.TransactionLogSet.{register_proxy_element, unregister}
use inc_mw_com.EventDataControl.State.{EventDataControl, log_step}
use inc_mw_com.EventSubscriptionControl.{EventSubscriptionControl}
use inc_mw_com.EventReceiveHandlers.{EventReceiveHandlerManager, event_receive_handler_manager}

pub data SubscriptionStateMachineState : Type 0 where
  not_subscribed_state subscription_pending_state subscribed_state : SubscriptionStateMachineState

-- What the slot collector is made with.
pub record SlotCollector : Type 0 where
  pub max_slots : ℕ
  pub transaction_log_index : ℕ

pub record EventControl : Type 0 where
  pub data_control : EventDataControl
  pub subscription_control : EventSubscriptionControl

-- The guard is the index that it unregisters when it is destroyed.
pub record SubscriptionStateMachine : Type 0 where
  pub current_state : SubscriptionStateMachineState
  pub max_sample_count : Option ℕ
  pub slot_collector : Option SlotCollector
  pub event_receiver_handler : Option ℕ
  pub handler_manager : EventReceiveHandlerManager
  pub event_control : EventControl
  pub provider_service_instance_is_available : Bool
  pub transaction_log_id : ℕ
  pub transaction_log_registration_guard : Option ℕ

unfoldable pub subscription_state_machine : ℕ → EventControl → ℕ → SubscriptionStateMachine
unfolding event_receive_handler_manager
subscription_state_machine event_source_pid event_control transaction_log_id = record {
  current_state = not_subscribed_state;
  max_sample_count = none;
  slot_collector = none;
  event_receiver_handler = none;
  handler_manager = event_receive_handler_manager event_source_pid;
  event_control = event_control;
  provider_service_instance_is_available = true;
  transaction_log_id = transaction_log_id;
  transaction_log_registration_guard = none;
}

abbrev pub with_data : SubscriptionStateMachine → EventDataControl → SubscriptionStateMachine
with_data m c = record m { event_control = record m.event_control { data_control = c } }

abbrev pub with_subscriptions :
    SubscriptionStateMachine → EventSubscriptionControl → SubscriptionStateMachine
with_subscriptions m s = record m {
  event_control = record m.event_control { subscription_control = s };
}

-- A step on the transaction log with the given index.
unfoldable pub on_log :
    ℕ
    → (TransactionLog → Option TransactionLog)
    → SubscriptionStateMachine
    → Option SubscriptionStateMachine
on_log index step m = do c ← log_step index step m.event_control.data_control; some (with_data m c)

-- TransactionLogRegistrationGuard::Create
unfoldable pub create_guard :
    SubscriptionStateMachine → Option (Result ℕ × SubscriptionStateMachine)
create_guard m = do
  let c = m.event_control.data_control
  r ← register_proxy_element m.transaction_log_id c.transaction_log_set
  some (r.0, with_data m (record c { transaction_log_set = r.1 }))

-- The guard's destructor, if there is a guard.
unfoldable pub reset_guard : Option ℕ → SubscriptionStateMachine → Option SubscriptionStateMachine
reset_guard none m = some m
reset_guard (some index) m = do
  let c = m.event_control.data_control
  logs ← unregister index c.transaction_log_set
  some (record (with_data m (record c { transaction_log_set = logs })) {
    transaction_log_registration_guard = none;
  })

abbrev pub clear : SubscriptionStateMachine → SubscriptionStateMachine
clear m = record m { max_sample_count = none; slot_collector = none }
