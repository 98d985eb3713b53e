-- ===== src/NotifyEventHandler/Incoming.antt =====
-- The messages that the handler gets from other processes (notify_event_handler.cpp).
use inc_mw_com.Base.{
  ℕ, Option, none, some, List, [], ◌∷◌, ltb, ◌==◌, if◌then◌else◌, ◌>>=◌, ◌>>◌, require,
}
use inc_mw_com.Base.Maps
use inc_mw_com.ElementFqId.{ElementFqId, same_element}
use inc_mw_com.Messages.{
  register_event_notifier, unregister_event_notifier, notify_event_update, outdated_node_id,
  message_id, deserialize_to_element_fq_id_message, deserialize_to_outdated_node_id_message,
}
use inc_mw_com.NotifyEventHandler.{
  QualityType, Nodes, sender_removed, NotifyEventHandler, valid_level, control_data,
  with_control_data, act, found, Meanwhile, notify_event_locally,
}

unfoldable pub handle_notify_event_msg :
    Meanwhile → ℕ → ℕ → QualityType → ℕ → NotifyEventHandler → Option NotifyEventHandler
unfolding notify_event_locally
handle_notify_event_msg env fuel payload level sender h = do
  require (valid_level h level)
  m ← deserialize_to_element_fq_id_message notify_event_update payload sender
  (n, h') ← notify_event_locally env fuel level m.element_fq_id h
  some h'

-- std::set::insert and std::set::erase.
unfoldable pub insert_id : ℕ → List ℕ → List ℕ
insert_id n [] = n ∷ []
insert_id n (x ∷ ids) =
    let rest = insert_id n ids in
    if ltb x n then x ∷ rest else if x == n then x ∷ ids else n ∷ x ∷ ids

unfoldable pub erase_id : ℕ → List ℕ → List ℕ
erase_id n [] = []
erase_id n (x ∷ ids) = let rest = erase_id n ids in if x == n then ids else x ∷ rest

abbrev pub with_nodes : NotifyEventHandler → QualityType → Nodes → NotifyEventHandler
with_nodes h level nodes =
    with_control_data h level
      (record (control_data h level) { event_update_interested_nodes = nodes })

unfoldable pub handle_register_notification_msg :
    ℕ → QualityType → ℕ → NotifyEventHandler → Option NotifyEventHandler
unfolding insert_id
handle_register_notification_msg payload level sender h = do
  require (valid_level h level)
  m ← deserialize_to_element_fq_id_message register_event_notifier payload sender
  let nodes = (control_data h level).event_update_interested_nodes
  some (
      with_nodes h level (
        Maps.put same_element m.element_fq_id (insert_id sender (found m.element_fq_id nodes))
          nodes))

unfoldable pub erase_at : ElementFqId → ℕ → Nodes → Option (List ℕ) → Nodes
unfolding erase_id
erase_at event_id node nodes none = nodes
erase_at event_id node nodes (some ids) = Maps.put same_element event_id (erase_id node ids) nodes

unfoldable pub handle_unregister_notification_msg :
    ℕ → QualityType → ℕ → NotifyEventHandler → Option NotifyEventHandler
unfolding erase_at
handle_unregister_notification_msg payload level sender h = do
  require (valid_level h level)
  m ← deserialize_to_element_fq_id_message unregister_event_notifier payload sender
  let nodes = (control_data h level).event_update_interested_nodes
  some (
      with_nodes h level
        (erase_at m.element_fq_id sender nodes (Maps.find same_element m.element_fq_id nodes)))

unfoldable pub erase_everywhere : ℕ → Nodes → Nodes
unfolding erase_id
erase_everywhere node [] = []
erase_everywhere node ((event_id, ids) ∷ nodes) =
    (event_id, erase_id node ids) ∷ erase_everywhere node nodes

unfoldable pub handle_outdated_node_id_msg :
    ℕ → QualityType → ℕ → NotifyEventHandler → Option NotifyEventHandler
unfolding erase_everywhere
handle_outdated_node_id_msg payload level sender h = do
  require (valid_level h level)
  let m = deserialize_to_outdated_node_id_message payload sender
  let nodes = (control_data h level).event_update_interested_nodes
  some (
      act (with_nodes h level (erase_everywhere m.pid_to_unregister nodes))
        (sender_removed level m.pid_to_unregister ∷ []))

-- The callbacks that a receiver keeps, each under the id of its messages.
pub data Callback : Type 0 where
  on_register on_unregister on_notify on_outdated : Callback

unfoldable pub register_message_received_callbacks :
    QualityType → NotifyEventHandler → Option (List (ℕ × Callback))
unfolding message_id
register_message_received_callbacks level h = do
  require (valid_level h level)
  some (
      (message_id register_event_notifier, on_register)
      ∷ (message_id unregister_event_notifier, on_unregister)
      ∷ (message_id notify_event_update, on_notify)
      ∷ (message_id outdated_node_id, on_outdated)
      ∷ [])

unfoldable pub run_callback :
    Callback → Meanwhile → ℕ → ℕ → QualityType → ℕ → NotifyEventHandler → Option NotifyEventHandler
run_callback on_register env fuel payload level sender h =
    handle_register_notification_msg payload level sender h
run_callback on_unregister env fuel payload level sender h =
    handle_unregister_notification_msg payload level sender h
run_callback on_notify env fuel payload level sender h =
    handle_notify_event_msg env fuel payload level sender h
run_callback on_outdated env fuel payload level sender h =
    handle_outdated_node_id_msg payload level sender h
