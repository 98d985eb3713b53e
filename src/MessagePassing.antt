-- ===== src/MessagePassing.antt =====
-- mw/com/message_passing/: messages as bytes (serializer.cpp, shared_properties.h), and the sender that
-- does not block (NonBlockingSender).
pub mod Serializer
pub mod RoundTrip
pub mod NonBlockingSender
use inc_mw_com.Base.{
  ℕ, zero, suc, ◌+◌, ◌-◌, ◌*◌, ◌/◌, ◌%◌, ◌^◌, ◌≤◌, ◌<◌, min, max, ◌≡◌, refl, sym, ap, subst, ◌∙◌,
  ◌≢◌, ◌↔◌, ◌⊎◌, inl, inr, Bool, true, false, not, ◌&&◌, ◌||◌, Option, none, some, List, [], ◌∷◌,
  ◌++◌, map, arith, ltb, leb, ◌==◌, if◌then◌else◌, ltb→lt, ltb→ge, leb→le, leb→gt, ==→eq, ==_self,
  Bool-cases, Option-cases, length, get_elem?, get_or, set, take, drop, All, replicate,
  length-append, length-set, length-replicate, get_or-set_self, get_or-set_ne, set-set, set-get_or,
  get_elem?-set_self, get_elem?-set_ne, get_elem?-set, set_unchanged, get_elem?-append_length,
  length-map, get_elem?-map, get_elem?-replicate, ◌>>=◌, ◌>>◌, require, >>=-eq-some, some_eq,
  IfSome, IfSome-bind, IfSome-any, IfSome_eq, Interference, Words, alone, seen, load, store,
  fetch_modify, compare_exchange, Exchanged, compare_exchange_lem,
}
use inc_mw_com.Messages.{
  ShortMessage, MessageType, register_event_notifier, unregister_event_notifier,
  notify_event_update, outdated_node_id, message_id, ElementFqIdMessage,
  deserialize_to_element_fq_id_message, element_message_to_short_message, same_element_message,
  OutdatedNodeIdMessage, deserialize_to_outdated_node_id_message, outdated_message_to_short_message,
}

-- The payload is an array of 16 bytes.
pub record MediumMessage : Type 0 where
  pub id : ℕ
  pub pid : ℕ
  pub payload : List ℕ

pub data Message : Type 0 where
  short_message : ShortMessage → Message
  medium_message : MediumMessage → Message

-- The first byte of a message.
pub data RawMessageType : Type 0 where
  stop_type short_type medium_type : RawMessageType

unfoldable pub type_code : RawMessageType → ℕ
type_code stop_type = 0x00
type_code short_type = 0x42
type_code medium_type = 0x43

abbrev pub max_message_size : ℕ
max_message_size = 1 + 1 + 4 + 16

abbrev pub message_type_position : ℕ
message_type_position = 0

abbrev pub message_id_position : ℕ
message_id_position = 1

abbrev pub message_pid_position : ℕ
message_pid_position = 2

abbrev pub message_start_payload : ℕ
message_start_payload = message_pid_position + 4
