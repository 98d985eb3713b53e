-- ===== src/Messages/Laws.antt =====
-- Reading back the messages between processes (messaging/messages).
use inc_mw_com.Base.{ℕ, ◌^◌, ◌<◌, ◌≡◌, some, arith}
use inc_mw_com.ElementFqId.{ElementFqId, same_element}
use inc_mw_com.ElementFqId.Laws.{Fits, short_msg_payload-element_fq_id}
use inc_mw_com.Messages.{
  MessageType, ElementFqIdMessage, deserialize_to_element_fq_id_message,
  element_message_to_short_message, same_element_message, OutdatedNodeIdMessage,
  deserialize_to_outdated_node_id_message, outdated_message_to_short_message,
}

-- What the sender put in is what the receiver gets out.
pub deserialize-element_message :
    (t : MessageType) (e : ElementFqId) (sender : ℕ)
    → Fits e
    → let m : ElementFqIdMessage = record {
      message_type = t;
      element_fq_id = e;
      sender_node_id = sender;
    } in
      deserialize_to_element_fq_id_message t (element_message_to_short_message m).payload sender
      ≡ some m
unfolding deserialize_to_element_fq_id_message element_message_to_short_message
deserialize-element_message t e sender f = simp ((short_msg_payload-element_fq_id e f).0)

-- A message about an element with fields of their widths is read back whole from its short message by the receiver for the same message type.
pub element_message-short_message :
    (m : ElementFqIdMessage)
    → Fits m.element_fq_id
    → deserialize_to_element_fq_id_message m.message_type
        (element_message_to_short_message m).payload
        (element_message_to_short_message m).pid
      ≡ some m
unfolding element_message_to_short_message
element_message-short_message m f =
    deserialize-element_message m.message_type m.element_fq_id m.sender_node_id f

-- A message about an outdated process whose id fits 32 bits is read back whole from its short message.
pub outdated_message-short_message :
    (m : OutdatedNodeIdMessage)
    → m.pid_to_unregister < 2 ^ 32
    → let s = outdated_message_to_short_message m in
      deserialize_to_outdated_node_id_message s.payload s.pid ≡ m
unfolding deserialize_to_outdated_node_id_message outdated_message_to_short_message
outdated_message-short_message m h = ground arith

-- Whatever their senders, two messages about the same element are equal for operator==.
pub same_element_message_any_sender :
    (a b : ElementFqIdMessage)
    → same_element_message a b ≡ same_element a.element_fq_id b.element_fq_id
unfolding same_element_message
same_element_message_any_sender a b = ground arith
