-- ===== src/NotifyEventHandler/Kept/Receiving.antt =====
-- The messages of other processes and the invariant of the tables (notify_event_handler.cpp).
use inc_mw_com.Base.{
  ℕ, ◌≡◌, refl, Option, none, some, List, [], ◌∷◌, arith, require, IfSome, IfSome-any,
}
use inc_mw_com.Base.Maps
use inc_mw_com.ElementFqId.{ElementFqId, same_element}
use inc_mw_com.Messages.{
  register_event_notifier, unregister_event_notifier, deserialize_to_element_fq_id_message,
  deserialize_to_outdated_node_id_message,
}
use inc_mw_com.NotifyEventHandler.{
  QualityType, Nodes, NotifyEventHandler, valid_level, control_data, found,
}
use inc_mw_com.NotifyEventHandler.Tables.{Ascending}
use inc_mw_com.NotifyEventHandler.Incoming.{
  with_nodes, handle_register_notification_msg, erase_at, handle_unregister_notification_msg,
  erase_everywhere, handle_outdated_node_id_msg,
}
use inc_mw_com.NotifyEventHandler.Kept.{
  Values_found, insert_id-Ascending, erase_id-Ascending, WellKept, WellKept-at, WellKept-with,
}

-- A table of ascending sets in place of the other.
with_nodes-WellKept :
    (n : ℕ) (level : QualityType) (h : NotifyEventHandler) (nodes : Nodes)
    → WellKept n h
    → Maps.Values same_element (Ascending 0) nodes
    → WellKept n (with_nodes h level nodes)
with_nodes-WellKept n level h nodes w a =
    let k = WellKept-at n h level w in
    WellKept-with n h level _ w
      record { next = k.next; handlers = k.handlers; nodes = a; counters = k.counters }

pub handle_register_notification_msg-WellKept :
    (n payload : ℕ) (level : QualityType) (sender : ℕ) (h : NotifyEventHandler)
    → WellKept n h
    → IfSome (WellKept n) (handle_register_notification_msg payload level sender h)
unfolding handle_register_notification_msg
handle_register_notification_msg-WellKept n payload level sender h w =
    let nodes = (control_data h level).event_update_interested_nodes in
    let a = (WellKept-at n h level w).nodes in
    IfSome-any (WellKept n) (require (valid_level h level)) _ (λ u.
      IfSome-any (WellKept n)
        (deserialize_to_element_fq_id_message register_event_notifier payload sender) _
        (λ m. with_nodes-WellKept n level h _ w (
          Maps.Values-put same_element (Ascending 0) m.element_fq_id _ nodes
            (insert_id-Ascending sender 0 (found m.element_fq_id nodes)
              (Values_found (Ascending 0) m.element_fq_id nodes tt a) (omega arith))
            a)))

erase_at-Ascending :
    (event_id : ElementFqId) (node : ℕ) (nodes : Nodes) (o : Option (List ℕ))
    → Maps.Values same_element (Ascending 0) nodes
    → ((ids : List ℕ) → o ≡ some ids → Ascending 0 ids)
    → Maps.Values same_element (Ascending 0) (erase_at event_id node nodes o)
unfolding erase_at
erase_at-Ascending event_id node nodes none a p = a
erase_at-Ascending event_id node nodes (some ids) a p =
    Maps.Values-put same_element (Ascending 0) event_id _ nodes
      (erase_id-Ascending node 0 ids (p ids refl)) a

pub handle_unregister_notification_msg-WellKept :
    (n payload : ℕ) (level : QualityType) (sender : ℕ) (h : NotifyEventHandler)
    → WellKept n h
    → IfSome (WellKept n) (handle_unregister_notification_msg payload level sender h)
unfolding handle_unregister_notification_msg
handle_unregister_notification_msg-WellKept n payload level sender h w =
    let nodes = (control_data h level).event_update_interested_nodes in
    let a = (WellKept-at n h level w).nodes in
    IfSome-any (WellKept n) (require (valid_level h level)) _ (λ u.
      IfSome-any (WellKept n)
        (deserialize_to_element_fq_id_message unregister_event_notifier payload sender) _
        (λ m. with_nodes-WellKept n level h _ w (
          erase_at-Ascending m.element_fq_id sender nodes
            (Maps.find same_element m.element_fq_id nodes) a
            (λ ids e. Maps.Values_find same_element (Ascending 0) m.element_fq_id nodes a e))))

erase_everywhere-Ascending :
    (node : ℕ) (nodes : Nodes)
    → Maps.Values same_element (Ascending 0) nodes
    → Maps.Values same_element (Ascending 0) (erase_everywhere node nodes)
unfolding erase_everywhere
erase_everywhere-Ascending node [] a = tt
erase_everywhere-Ascending node ((event_id, ids) ∷ nodes) (p, a) =
    (erase_id-Ascending node 0 ids p, erase_everywhere-Ascending node nodes a)

pub handle_outdated_node_id_msg-WellKept :
    (n payload : ℕ) (level : QualityType) (sender : ℕ) (h : NotifyEventHandler)
    → WellKept n h
    → IfSome (WellKept n) (handle_outdated_node_id_msg payload level sender h)
unfolding handle_outdated_node_id_msg
handle_outdated_node_id_msg-WellKept n payload level sender h w =
    let nodes = (control_data h level).event_update_interested_nodes in
    IfSome-any (WellKept n) (require (valid_level h level)) _ (λ u.
      with_nodes-WellKept n level h _ w (
        erase_everywhere-Ascending
          (deserialize_to_outdated_node_id_message payload sender).pid_to_unregister nodes
          (WellKept-at n h level w).nodes))
