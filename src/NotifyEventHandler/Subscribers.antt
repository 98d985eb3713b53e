-- ===== src/NotifyEventHandler/Subscribers.antt =====
-- Who is interested in an event after the messages of other processes (notify_event_handler.cpp).
use inc_mw_com.ElementFqId.{ElementFqId, same_element}
use inc_mw_com.ElementFqId.Laws.{Fits, same_element-SameKeys}
use inc_mw_com.Messages.Laws.{deserialize-element_message}
use inc_mw_com.Messages.{
  MessageType, register_event_notifier, unregister_event_notifier, element_message_to_short_message,
  OutdatedNodeIdMessage, deserialize_to_outdated_node_id_message, outdated_message_to_short_message,
}
use inc_mw_com.NotifyEventHandler.{
  QualityType, invalid_quality, asil_qm, asil_b, Nodes, EventNotificationControlData, Action,
  sender_removed, NotifyEventHandler, valid_level, control_data, with_control_data, act, or_else,
  found,
}
use inc_mw_com.Base.{
  ℕ, suc, ◌%◌, ◌^◌, ◌<◌, ◌≡◌, refl, sym, ap, ◌∙◌, inl, inr, Bool, true, false, not, ◌&&◌, ◌||◌,
  Option, none, some, List, [], ◌∷◌, ◌++◌, arith, ◌==◌, if◌then◌else◌, Bool-cases,
}
use inc_mw_com.Base.Maps
use inc_mw_com.NotifyEventHandler.Tables.{Ascending}
use inc_mw_com.NotifyEventHandler.Kept.{Values_found}
use inc_mw_com.NotifyEventHandler.Incoming.{
  insert_id, erase_id, with_nodes, handle_register_notification_msg, erase_at,
  handle_unregister_notification_msg, erase_everywhere, handle_outdated_node_id_msg,
}

-- Whether a process is in a set.
abbrev pub is_in : ℕ → List ℕ → Bool
is_in n [] = false
is_in n (x ∷ ids) = x == n || is_in n ids

insert_id_lem : (n m : ℕ) (ids : List ℕ) → is_in m (insert_id n ids) ≡ (n == m || is_in m ids)
unfolding insert_id
insert_id_lem n m [] = refl
insert_id_lem n m (x ∷ ids) = let ih = insert_id_lem n m ids in ground (arith, ih)

not_in : (n lo : ℕ) (ids : List ℕ) → Ascending lo ids → n < lo → is_in n ids ≡ false
not_in n lo [] a h = refl
not_in n lo (x ∷ ids) (l, a) h = let ih = not_in n (suc x) ids a (omega arith) in ground (arith, ih)

erase_id_lem :
    (n m lo : ℕ) (ids : List ℕ)
    → Ascending lo ids
    → is_in m (erase_id n ids) ≡ (not (n == m) && is_in m ids)
unfolding erase_id
erase_id_lem n m lo [] a = ground arith
erase_id_lem n m lo (x ∷ ids) (l, a) =
    ground (arith, erase_id_lem n m (suc x) ids, not_in m (suc x) ids)

-- Whether the handler tells process `node` of updates of an event.
abbrev pub interested : NotifyEventHandler → QualityType → ElementFqId → ℕ → Bool
interested h level event_id node =
    is_in node (found event_id (control_data h level).event_update_interested_nodes)

control_data-with_control_data :
    (h : NotifyEventHandler) (level : QualityType) (d : EventNotificationControlData)
    → control_data (with_control_data h level d) level ≡ d
control_data-with_control_data h invalid_quality d = refl
control_data-with_control_data h asil_qm d = refl
control_data-with_control_data h asil_b d = refl

actions-with_control_data :
    (h : NotifyEventHandler) (level : QualityType) (d : EventNotificationControlData)
    → (with_control_data h level d).actions ≡ h.actions
actions-with_control_data h invalid_quality d = refl
actions-with_control_data h asil_qm d = refl
actions-with_control_data h asil_b d = refl

control_data-act :
    (h : NotifyEventHandler) (level : QualityType) (more : List Action)
    → control_data (act h more) level ≡ control_data h level
control_data-act h invalid_quality more = refl
control_data-act h asil_qm more = refl
control_data-act h asil_b more = refl

-- Changed for one event only.
found-put :
    (j k : ElementFqId) (ids : List ℕ) (nodes : Nodes)
    → found k (Maps.put same_element j ids nodes)
      ≡ (if same_element j k then ids else found k nodes)
found-put j k ids nodes =
    simp (Maps.find-put same_element j k ids nodes same_element-SameKeys)
      (elim (Bool-cases (same_element j k)) [ inl e ↦ simp e | inr e ↦ simp e ])

-- The message by which a process registers, as another one gets it.
abbrev pub register_payload : MessageType → ElementFqId → ℕ → ℕ
register_payload t event_id sender =
    (element_message_to_short_message
      record { message_type = t; element_fq_id = event_id; sender_node_id = sender }).payload

-- Writing one event of the table.
interested-put :
    (level : QualityType) (event_id : ElementFqId) (ids : List ℕ) (h : NotifyEventHandler)
    (other : ElementFqId) (node : ℕ)
    → let nodes = (control_data h level).event_update_interested_nodes in
      interested (with_nodes h level (Maps.put same_element event_id ids nodes)) level other node
      ≡ (if same_element event_id other then is_in node ids else interested h level other node)
interested-put level event_id ids h other node =
    let nodes = (control_data h level).event_update_interested_nodes in
    simp (control_data-with_control_data h level, found-put event_id other ids nodes)
      (elim (Bool-cases (same_element event_id other)) [ inl e ↦ simp e | inr e ↦ simp e ])

-- Only those of one event changed, in the way `f`.
interested_only :
    (level : QualityType) (event_id : ElementFqId) (ids : List ℕ) (h : NotifyEventHandler)
    (f : ℕ → Bool → Bool) (other : ElementFqId) (node : ℕ)
    → let nodes = (control_data h level).event_update_interested_nodes in
      is_in node ids ≡ f node (interested h level event_id node)
      → interested (with_nodes h level (Maps.put same_element event_id ids nodes)) level other node
        ≡ (if same_element event_id other
            then f node (interested h level other node)
            else interested h level other node)
interested_only level event_id ids h f other node p =
    let nodes = (control_data h level).event_update_interested_nodes in
    interested-put level event_id ids h other node
    ∙ elim (Bool-cases (same_element event_id other)) [
      | inl e ↦ simp e (
          p
          ∙ ap (λ xs. f node (is_in node xs))
              (ap (or_else [])
                (Maps.find_same same_element event_id other nodes same_element-SameKeys e)))
      | inr e ↦ simp e
    ]

-- A registration message for an event, made from fields of their widths, adds its sender to the processes that are told of that event at that level, and changes nobody else, for this event or others.
pub handle_register_notification_msg_lem :
    (level : QualityType) (event_id : ElementFqId) (sender : ℕ) (h : NotifyEventHandler)
    → valid_level h level ≡ true
    → Fits event_id
    → (h' : NotifyEventHandler) × (handle_register_notification_msg
          (register_payload register_event_notifier event_id sender)
          level
          sender
          h
        ≡ some h')
      × ((other : ElementFqId) (node : ℕ)
          → interested h' level other node ≡ (
              if same_element event_id other
              then sender == node || interested h level other node
              else interested h level other node))
unfolding handle_register_notification_msg
handle_register_notification_msg_lem level event_id sender h ok f =
    let nodes = (control_data h level).event_update_interested_nodes in
    let ids = insert_id sender (found event_id nodes) in
    (
      with_nodes h level (Maps.put same_element event_id ids nodes),
      simp (ok, deserialize-element_message register_event_notifier event_id sender f),
      λ other node.
          interested_only level event_id ids h (λ n b. sender == n || b) other node
            (insert_id_lem sender node (found event_id nodes)),
    )

interested-erase_at :
    (level : QualityType) (event_id : ElementFqId) (gone : ℕ) (h : NotifyEventHandler)
    (other : ElementFqId) (node : ℕ) (entry : Option (List ℕ))
    → let nodes = (control_data h level).event_update_interested_nodes in
      Maps.find same_element event_id nodes ≡ entry
      → Maps.Values same_element (Ascending 0) nodes
      → interested (with_nodes h level (erase_at event_id gone nodes entry)) level other node ≡ (
          if same_element event_id other
          then not (gone == node) && interested h level other node
          else interested h level other node)
unfolding erase_at
interested-erase_at level event_id gone h other node none e a =
    let nodes = (control_data h level).event_update_interested_nodes in
    simp (control_data-with_control_data h level) (elim (Bool-cases (same_element event_id other)) [
      | inl s ↦
          let absent : Maps.find same_element other nodes ≡ none =
            sym (Maps.find_same same_element event_id other nodes same_element-SameKeys s) ∙ e in
          simp (s, absent) (elim (Bool-cases (gone == node)) [ inl g ↦ simp g | inr g ↦ simp g ])
      | inr s ↦ simp s
    ])
interested-erase_at level event_id gone h other node (some ids) e a =
    let nodes = (control_data h level).event_update_interested_nodes in
    let sorted : Ascending 0 ids = Maps.Values_find same_element (Ascending 0) event_id nodes a e in
    interested_only level event_id (erase_id gone ids) h (λ n b. not (gone == n) && b) other node
      (erase_id_lem gone node 0 ids sorted
        ∙ ap (λ o. not (gone == node) && is_in node (or_else [] o)) (sym e))

-- A message by which a process unregisters takes its sender out for that event, and changes nobody else. The sets are ascending, as they are kept.
pub handle_unregister_notification_msg_lem :
    (level : QualityType) (event_id : ElementFqId) (sender : ℕ) (h : NotifyEventHandler)
    → valid_level h level ≡ true
    → Fits event_id
    → Maps.Values same_element (Ascending 0) (control_data h level).event_update_interested_nodes
    → (h' : NotifyEventHandler) × (handle_unregister_notification_msg
          (register_payload unregister_event_notifier event_id sender)
          level
          sender
          h
        ≡ some h')
      × ((other : ElementFqId) (node : ℕ)
          → interested h' level other node ≡ (
              if same_element event_id other
              then not (sender == node) && interested h level other node
              else interested h level other node))
unfolding handle_unregister_notification_msg
handle_unregister_notification_msg_lem level event_id sender h ok f a =
    let nodes = (control_data h level).event_update_interested_nodes in
    let entry = Maps.find same_element event_id nodes in
    (
      with_nodes h level (erase_at event_id sender nodes entry),
      simp (ok, deserialize-element_message unregister_event_notifier event_id sender f),
      λ other node. interested-erase_at level event_id sender h other node entry refl a,
    )

found-erase_everywhere :
    (event_id : ElementFqId) (gone : ℕ) (nodes : Nodes)
    → found event_id (erase_everywhere gone nodes) ≡ erase_id gone (found event_id nodes)
unfolding erase_everywhere erase_id
found-erase_everywhere event_id gone [] = refl
found-erase_everywhere event_id gone ((e, ids) ∷ nodes) =
    elim (Bool-cases (same_element e event_id)) [
      | inl h ↦ simp h
      | inr h ↦ simp h (found-erase_everywhere event_id gone nodes)
    ]

-- A message about an outdated process takes that process out for every event of the level, gives up the sender to it, and changes nobody else. The sets are ascending, as they are kept.
pub handle_outdated_node_id_msg_lem :
    (level : QualityType) (m : OutdatedNodeIdMessage) (sender : ℕ) (h : NotifyEventHandler)
    → valid_level h level ≡ true
    → m.pid_to_unregister < 2 ^ 32
    → Maps.Values same_element (Ascending 0) (control_data h level).event_update_interested_nodes
    → (h' : NotifyEventHandler) × (handle_outdated_node_id_msg
          (outdated_message_to_short_message m).payload
          level
          sender
          h
        ≡ some h')
      × (h'.actions ≡ h.actions ++ sender_removed level m.pid_to_unregister ∷ [])
      × ((event_id : ElementFqId) (node : ℕ)
          → interested h' level event_id node
            ≡ (not (m.pid_to_unregister == node) && interested h level event_id node))
unfolding handle_outdated_node_id_msg deserialize_to_outdated_node_id_message
    outdated_message_to_short_message
handle_outdated_node_id_msg_lem level m sender h ok l a =
    let nodes = (control_data h level).event_update_interested_nodes in
    let gone = m.pid_to_unregister in
    let whole : gone % 2 ^ 32 ≡ gone = omega arith in
    let h' = with_nodes h level (erase_everywhere gone nodes) in
    let removed : List Action = sender_removed level gone ∷ [] in
    (
      act h' removed,
      simp (ok, whole),
      ap (λ (as' : List Action). as' ++ removed) (actions-with_control_data h level _),
      λ event_id node.
          simp
            (
              control_data-act h' level,
              control_data-with_control_data h level,
              found-erase_everywhere event_id gone nodes,
            )
            (erase_id_lem gone node 0 (found event_id nodes)
              (Values_found (Ascending 0) event_id nodes tt a)),
    )
