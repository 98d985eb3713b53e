-- ===== src/ComError.antt =====
-- mw/com/impl/com_error.h: the error codes, and bmw::Result.
use inc_mw_com.Base.{ℕ}

pub data ComErrc : Type 0 where
  service_not_available max_samples_reached binding_failure : ComErrc
  grant_enforcement_error peer_is_unreachable field_value_is_not_valid : ComErrc
  set_handler_not_set unset_failure sample_allocation_failure : ComErrc
  illegal_use_of_allocate service_not_offered communication_link_error : ComErrc
  no_clients communication_stack_error max_sample_count_not_realizable : ComErrc
  max_subscribers_exceeded wrong_method_call_processing_mode : ComErrc
  erroneous_file_handle could_not_execute invalid_instance_identifier_string : ComErrc
  invalid_binding_information event_not_existing not_subscribed : ComErrc
  invalid_configuration invalid_meta_model_shortname : ComErrc
  service_instance_already_offered could_not_restart_proxy not_offered : ComErrc
  instance_id_could_not_be_resolved find_service_handler_failure : ComErrc
  invalid_handle : ComErrc

-- The enum's values.
unfoldable pub error_code : ComErrc → ℕ
error_code service_not_available = 1
error_code max_samples_reached = 2
error_code binding_failure = 3
error_code grant_enforcement_error = 4
error_code peer_is_unreachable = 5
error_code field_value_is_not_valid = 6
error_code set_handler_not_set = 7
error_code unset_failure = 8
error_code sample_allocation_failure = 9
error_code illegal_use_of_allocate = 10
error_code service_not_offered = 11
error_code communication_link_error = 12
error_code no_clients = 13
error_code communication_stack_error = 14
error_code max_sample_count_not_realizable = 15
error_code max_subscribers_exceeded = 16
error_code wrong_method_call_processing_mode = 17
error_code erroneous_file_handle = 18
error_code could_not_execute = 19
error_code invalid_instance_identifier_string = 20
error_code invalid_binding_information = 21
error_code event_not_existing = 22
error_code not_subscribed = 23
error_code invalid_configuration = 24
error_code invalid_meta_model_shortname = 25
error_code service_instance_already_offered = 26
error_code could_not_restart_proxy = 27
error_code not_offered = 28
error_code instance_id_could_not_be_resolved = 29
error_code find_service_handler_failure = 30
error_code invalid_handle = 31

pub data Result {ℓ} (A : Type ℓ) : Type ℓ where
  value : A → Result A
  error : ComErrc → Result A

-- ResultBlank
abbrev pub ResultBlank : Type 0
ResultBlank = Result (Unit {0})
