-- ===== src/TransactionLogRollbackExecutor/Recovery.antt =====
-- The recovery of a restarted process (transaction_log_rollback_executor.cpp), event by event.
use inc_mw_com.Base.{
  ℕ, zero, suc, ◌≡◌, refl, ap, subst, ◌∙◌, true, false, ◌&&◌, some, List, [], ◌∷◌, map, arith, ◌==◌,
  Interference,
}
use inc_mw_com.ComError.{value}
use inc_mw_com.EventDataControl.State.{
  EventDataControl, dereference_event_without_transaction_logging,
}
use inc_mw_com.EventSubscriptionControl.{EventSubscriptionControl, unsubscribe}
use inc_mw_com.TransactionLog.{contains_transactions}
use inc_mw_com.TransactionLog.Rollback.{IsCommitted}
use inc_mw_com.TransactionLog.Rollback.Loop.{held_indices, for_each}
use inc_mw_com.TransactionLogSet.{
  TransactionLogNode, to_be_rolled_back, mark_node, mark_transaction_logs_need_rollback, put_node,
}
use inc_mw_com.TransactionLogSet.Recover.{FirstMarked, rollback_proxy_transactions_lem}
use inc_mw_com.UidPidMapping.{Peers, register_pid}
use inc_mw_com.Messages.{OutdatedNodeIdMessage, outdated_message_to_short_message}
use inc_mw_com.NotifyEventHandler.{sent, NotifyEventHandler, valid_level, act}
use inc_mw_com.NotifyEventHandler.Registrations.{notify_outdated_node_id}
use inc_mw_com.TransactionLogRollbackExecutor.{
  EventControl, TransactionLogRollbackExecutor, Surroundings, mark_event, prepare_rollback,
  dereference_callback, unsubscribe_callback, rollback_event, rollback_events,
  rollback_transaction_logs,
}

-- The lowest index of a registered log of the process.
abbrev pub FirstActive : ℕ → List TransactionLogNode → ℕ → TransactionLogNode → Type 0
FirstActive id [] i node = ⊥
FirstActive id (x ∷ xs) zero node =
    (x ≡ node) × ((x.is_active && x.transaction_log_id == id) ≡ true)
FirstActive id (x ∷ xs) (suc i) node =
    ((x.is_active && x.transaction_log_id == id) ≡ false) × FirstActive id xs i node

-- Marked, a log is rolled back exactly if it is a registered log of the process.
marked_iff :
    (id : ℕ) (x : TransactionLogNode)
    → to_be_rolled_back id (mark_node id x) ≡ (x.is_active && x.transaction_log_id == id)
marked_iff id x = ground arith

abbrev pub marked_node : TransactionLogNode → TransactionLogNode
marked_node x = record x { needs_rollback = true }

mark-FirstMarked :
    (id : ℕ) (nodes : List TransactionLogNode) (i : ℕ) (node : TransactionLogNode)
    → FirstActive id nodes i node
    → FirstMarked id (map (mark_node id) nodes) i (marked_node node)
mark-FirstMarked id [] i node h = elim h [ ]
mark-FirstMarked id (x ∷ xs) zero node (same, e) = (
  simp e (ap marked_node same),
  subst (λ y. to_be_rolled_back id (marked_node y) ≡ true) same (ground (arith, e)),
)
mark-FirstMarked id (x ∷ xs) (suc i) node (e, h) =
    (marked_iff id x ∙ e, mark-FirstMarked id xs i node h)

-- The references given back one after another.
module _ (env : Interference) where
  unfoldable pub give_back : List ℕ → EventDataControl → EventDataControl
  give_back [] c = c
  give_back (i ∷ is) c = give_back is (dereference_event_without_transaction_logging env i c)

  module _ (env_s : Interference) where
    give_back_lem :
        (is : List ℕ) (c : EventDataControl) (s : EventSubscriptionControl)
        → for_each (dereference_callback env env_s) is (c, s) ≡ some (give_back is c, s)
    unfolding give_back
    give_back_lem [] c s = refl
    give_back_lem (i ∷ is) c s =
        give_back_lem is (dereference_event_without_transaction_logging env i c) s

    -- What the process left of an event: its first log there, in which no transaction was cut short, with a subscription that can be taken back.
    pub record Left (id : ℕ) (e : EventControl) : Type 0 where
      pub index : ℕ
      pub node : TransactionLogNode
      pub samples : ℕ
      pub subscription : EventSubscriptionControl
      pub first :
          FirstActive id e.data_control.transaction_log_set.proxy_transaction_logs index node
      pub committed : IsCommitted node.transaction_log samples
      pub unsubscribed : unsubscribe env_s samples e.subscription_control ≡ some subscription

    -- The event afterwards: the slots that the log held are given back, the subscription is gone, and the log is free and empty; the other logs of the process are still marked.
    abbrev pub TakenBack : (id : ℕ) (e : EventControl) → Left id e → EventControl → Type 0
    TakenBack id e l e' =
        (node' : TransactionLogNode) × (e'.data_control.transaction_log_set
          ≡ put_node l.index node'
              (mark_transaction_logs_need_rollback id e.data_control.transaction_log_set))
        × (node'.is_active ≡ false)
        × (node'.needs_rollback ≡ false)
        × (contains_transactions node'.transaction_log ≡ false)
        × (e'.data_control.state_slots
            ≡ (give_back (held_indices 0 l.node.transaction_log.reference_count_slots)
                (mark_event id e).data_control).state_slots)
        × (e'.subscription_control ≡ l.subscription)

    rollback_event_lem :
        (id : ℕ) (e : EventControl) (l : Left id e)
        → (e' : EventControl) × (rollback_event env env_s id (mark_event id e)
            ≡ some (value tt, e'))
          × TakenBack id e l e'
    unfolding rollback_event mark_transaction_logs_need_rollback
    rollback_event_lem id e l =
        let c = (mark_event id e).data_control in
        let s = e.subscription_control in
        let held = held_indices 0 l.node.transaction_log.reference_count_slots in
        let c' = give_back held c in
        let (node', run, free, unmarked, empty) =
          rollback_proxy_transactions_lem (dereference_callback env env_s)
            (unsubscribe_callback env env_s) id c.transaction_log_set l.index l.samples
            (marked_node l.node) (c, s) (c', s) (c', l.subscription)
            (mark-FirstMarked id e.data_control.transaction_log_set.proxy_transaction_logs l.index
              l.node l.first)
            l.committed (give_back_lem held c s) (simp l.unsubscribed) in
        (
          record {
            data_control = record c' {
              transaction_log_set = put_node l.index node' c.transaction_log_set;
            };
            subscription_control = l.subscription;
          },
          simp run,
          (node', refl, free, unmarked, empty, refl, refl),
        )

    -- One by one: for each event what it was, what was left of it, and what it became.
    abbrev pub AllLeft : ℕ → List EventControl → Type 0
    AllLeft id [] = Unit
    AllLeft id (e ∷ es) = Left id e × AllLeft id es

    abbrev pub AllTakenBack :
        (id : ℕ) (es : List EventControl) → AllLeft id es → List EventControl → Type 0
    AllTakenBack id [] ls es' = es' ≡ []
    AllTakenBack id (e ∷ es) (l, ls) [] = ⊥
    AllTakenBack id (e ∷ es) (l, ls) (e' ∷ es') = TakenBack id e l e' × AllTakenBack id es ls es'

    rollback_events_lem :
        (id : ℕ) (es : List EventControl) (ls : AllLeft id es)
        → (es' : List EventControl) × (rollback_events env env_s id (map (mark_event id) es)
            ≡ some (value tt, es'))
          × AllTakenBack id es ls es'
    unfolding rollback_events
    rollback_events_lem id [] ls = ([], refl, refl)
    rollback_events_lem id (e ∷ es) (l, ls) =
        let (e', run, back) = rollback_event_lem id e l in
        let (es', later, all) = rollback_events_lem id es ls in
        (e' ∷ es', simp (run, later), (back, all))

    -- A restarted process that finds another pid registered for its user, and a provider at a valid level, reports that pid to the provider once, and takes back what it had left of every event of the service: in each, the slots that its first log held are given back, its subscription is gone, and that log is free and empty. In each event the first log of the process is one without interrupted transactions, whose subscription can be taken back.
    pub rollback_transaction_logs_lem :
        (peers : Peers) (x : TransactionLogRollbackExecutor) (p : Surroundings) (previous : ℕ)
        (ls : AllLeft x.transaction_log_id p.service_data_control.event_controls)
        → p.is_prepared ≡ false
        → (register_pid peers x.transaction_log_id p.pid p.service_data_control.uid_pid_mapping).0
          ≡ some previous
        → (previous == p.pid) ≡ false
        → valid_level p.messaging x.asil_level ≡ true
        → (p' : Surroundings) × (rollback_transaction_logs env env_s peers x p
            ≡ some (value tt, p'))
          × (p'.is_prepared ≡ true)
          × (notify_outdated_node_id x.asil_level previous x.provider_pid p.messaging
              ≡ some p'.messaging)
          × AllTakenBack x.transaction_log_id p.service_data_control.event_controls ls
              p'.service_data_control.event_controls
    unfolding rollback_transaction_logs prepare_rollback notify_outdated_node_id
    rollback_transaction_logs_lem peers x p previous ls fresh registered changed valid =
        let s = p.service_data_control in
        let (es', run, all) = rollback_events_lem x.transaction_log_id s.event_controls ls in
        let report : OutdatedNodeIdMessage = record {
          pid_to_unregister = previous;
          sender_node_id = x.provider_pid;
        } in
        let messaging : NotifyEventHandler =
          act p.messaging
            (sent x.asil_level x.provider_pid (outdated_message_to_short_message report) ∷ []) in
        (
          record {
            service_data_control = record {
              event_controls = es';
              uid_pid_mapping = (register_pid peers x.transaction_log_id p.pid s.uid_pid_mapping).1;
            };
            is_prepared = true;
            pid = p.pid;
            messaging = messaging;
          },
          simp (fresh, registered, changed, valid, run),
          refl,
          simp valid,
          all,
        )
