-- ===== src/Messages.antt =====
-- message_passing/message.h and mw/com/impl/bindings/lola/messaging/messages/: the messages between
-- processes. A process id is a number that is not negative, and fits 32 bits.
pub mod Laws
use inc_mw_com.Base.{
  ℕ, zero, suc, ◌+◌, ◌-◌, ◌*◌, ◌/◌, ◌%◌, ◌^◌, ◌≤◌, ◌<◌, min, max, ◌≡◌, refl, sym, ap, subst, ◌∙◌,
  ◌≢◌, ◌↔◌, ◌⊎◌, inl, inr, Bool, true, false, not, ◌&&◌, ◌||◌, Option, none, some, List, [], ◌∷◌,
  ◌++◌, map, arith, ltb, leb, ◌==◌, if◌then◌else◌, ltb→lt, ltb→ge, leb→le, leb→gt, ==→eq, ==_self,
  Bool-cases, Option-cases, length, get_elem?, get_or, set, replicate, length-append, length-set,
  length-replicate, get_or-set_self, get_or-set_ne, set-set, set-get_or, get_elem?-set_self,
  get_elem?-set_ne, get_elem?-set, set_unchanged, get_elem?-append_length, length-map,
  get_elem?-map, get_elem?-replicate, ◌>>=◌, ◌>>◌, require, >>=-eq-some, some_eq, Interference,
  Words, alone, seen, load, store, fetch_modify, compare_exchange, Exchanged, compare_exchange_lem,
}
use inc_mw_com.ElementFqId.{
  ElementType, invalid_type, event, field, ElementFqId, element_type_code, element_type_of_code,
  element_fq_id, same_element, element_before, hash_key, element_fq_id_to_short_msg_payload,
  short_msg_payload_to_element_fq_id,
}

pub record ShortMessage : Type 0 where
  pub id : ℕ
  pub pid : ℕ
  pub payload : ℕ

pub data MessageType : Type 0 where
  register_event_notifier unregister_event_notifier notify_event_update outdated_node_id :
      MessageType

unfoldable pub message_id : MessageType → ℕ
message_id register_event_notifier = 1
message_id unregister_event_notifier = 2
message_id notify_event_update = 3
message_id outdated_node_id = 4

-- The template argument is the type of the message.
pub record ElementFqIdMessage : Type 0 where
  pub message_type : MessageType
  pub element_fq_id : ElementFqId
  pub sender_node_id : ℕ

unfoldable pub deserialize_to_element_fq_id_message :
    MessageType → ℕ → ℕ → Option ElementFqIdMessage
deserialize_to_element_fq_id_message t payload sender = do
  e ← short_msg_payload_to_element_fq_id payload
  some (record { message_type = t; element_fq_id = e; sender_node_id = sender })

unfoldable pub element_message_to_short_message : ElementFqIdMessage → ShortMessage
unfolding message_id
element_message_to_short_message m = record {
  id = message_id m.message_type;
  pid = m.sender_node_id;
  payload = element_fq_id_to_short_msg_payload m.element_fq_id;
}

-- operator==: the sender is compared with itself.
unfoldable pub same_element_message : ElementFqIdMessage → ElementFqIdMessage → Bool
same_element_message a b =
    same_element a.element_fq_id b.element_fq_id && a.sender_node_id == a.sender_node_id

pub record OutdatedNodeIdMessage : Type 0 where
  pub pid_to_unregister : ℕ
  pub sender_node_id : ℕ

-- The id stands in the first four bytes of the payload, which is stored with the lowest byte first.
unfoldable pub deserialize_to_outdated_node_id_message : ℕ → ℕ → OutdatedNodeIdMessage
deserialize_to_outdated_node_id_message payload sender = record {
  pid_to_unregister = payload % 2 ^ 32;
  sender_node_id = sender;
}

unfoldable pub outdated_message_to_short_message : OutdatedNodeIdMessage → ShortMessage
unfolding message_id
outdated_message_to_short_message m = record {
  id = message_id outdated_node_id;
  pid = m.sender_node_id;
  payload = m.pid_to_unregister;
}
