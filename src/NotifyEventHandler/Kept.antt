-- ===== src/NotifyEventHandler/Kept.antt =====
-- The invariant of the tables of the handler (notify_event_handler.cpp).
pub mod Registering
pub mod Receiving
use inc_mw_com.Base.{
  ℕ, zero, suc, ◌+◌, ◌-◌, ◌*◌, ◌/◌, ◌%◌, ◌^◌, ◌≤◌, ◌<◌, min, max, ◌≡◌, refl, sym, ap, subst, ◌∙◌,
  ◌≢◌, ◌↔◌, ◌⊎◌, inl, inr, Bool, true, false, not, ◌&&◌, ◌||◌, Option, none, some, List, [], ◌∷◌,
  ◌++◌, map, arith, ltb, leb, ◌==◌, if◌then◌else◌, ltb→lt, ltb→ge, leb→le, leb→gt, ==→eq, ==_self,
  Bool-cases, Option-cases, length, get_elem?, get_or, set, take, drop, All, replicate,
  length-append, length-set, length-replicate, get_or-set_self, get_or-set_ne, set-set, set-get_or,
  get_elem?-set_self, get_elem?-set_ne, get_elem?-set, set_unchanged, get_elem?-append_length,
  length-map, get_elem?-map, get_elem?-replicate, ◌>>=◌, ◌>>◌, require, >>=-eq-some, some_eq,
  IfSome, IfSome-bind, IfSome-any, IfSome_eq, Interference, Words, alone, seen, load, store,
  fetch_modify, compare_exchange, Exchanged, compare_exchange_lem,
}
use inc_mw_com.Base.Maps
use inc_mw_com.ElementFqId.{
  ElementType, invalid_type, event, field, ElementFqId, element_type_code, element_type_of_code,
  element_fq_id, same_element, element_before, hash_key, element_fq_id_to_short_msg_payload,
  short_msg_payload_to_element_fq_id,
}
use inc_mw_com.NotifyEventHandler.{
  QualityType, invalid_quality, asil_qm, asil_b, RegisteredNotificationHandler, NodeCounter,
  Handlers, Nodes, EventNotificationControlData, Action, sent, posted, called, sender_removed,
  NotifyEventHandler, Handler, no_control_data, notify_event_handler, valid_level, control_data,
  with_control_data, act, or_else, found, ids_from, copy_loop, buffer_size, copy_node_identifiers,
  send_round, targets_loop, update_message, notify_event_remote, post_update, notify_event,
  upper_bound, Meanwhile, remaining_loop, handlers_called, notify_event_locally,
}
use inc_mw_com.NotifyEventHandler.Tables.{
  Ascending, Ascending-weaken, ids_from_all, ids_from-Ascending, ids_from-ids_from, last_of,
  last_bound, ids_from-drop, copy_loop_lem, take-append_drop, take_all, All-take, All-ids_from,
  All-append, Ascending-take, Ascending-append,
}
use inc_mw_com.NotifyEventHandler.Local.{
  numbers, NumberedBelow, Calls, notify_event_locally_lem, quiet, NumberedBelow-weaken,
  NumberedBelow-append, notify_event_locally_undisturbed,
}
use inc_mw_com.NotifyEventHandler.Registrations.{
  send_register_event_notification_message, count_remote, count_up,
  register_event_notification_remote, with_handlers, add_handler, register_event_notification,
  reregister_at, reregister_event_notification, erase_handler, search_in,
  search_handler_for_notification, count_down, unregister_at, unregister_event_notification_remote,
  unregister_event_notification, notify_outdated_node_id,
}
use inc_mw_com.NotifyEventHandler.Incoming.{
  handle_notify_event_msg, insert_id, erase_id, with_nodes, handle_register_notification_msg,
  erase_at, handle_unregister_notification_msg, erase_everywhere, handle_outdated_node_id_msg,
  Callback, on_register, on_unregister, on_notify, on_outdated, register_message_received_callbacks,
  run_callback,
}

-- Handlers stand in the order of their numbers, all of them given out before.
abbrev pub InOrder : ℕ → List RegisteredNotificationHandler → Type 0
InOrder next rs = Ascending 0 (numbers rs) × NumberedBelow next rs

abbrev pub Counts : ℕ → NodeCounter → Type 0
Counts calls c = (0 < c.counter) × (c.counter ≤ calls)

-- The tables after at most `calls` calls.
pub record Kept (calls : ℕ) (d : EventNotificationControlData) : Type 0 where
  pub next : d.cur_registration_no ≤ calls
  pub handlers : Maps.Values same_element (InOrder d.cur_registration_no) d.event_update_handlers
  pub nodes : Maps.Values same_element (Ascending 0) d.event_update_interested_nodes
  pub counters : Maps.Values same_element (Counts calls) d.event_update_remote_registrations

pub Kept-weaken : (n m : ℕ) (d : EventNotificationControlData) → n ≤ m → Kept n d → Kept m d
Kept-weaken n m d h k = record {
  next = let b = k.next in omega arith;
  handlers = k.handlers;
  nodes = k.nodes;
  counters =
      Maps.Values-weaken same_element (Counts n) (Counts m) d.event_update_remote_registrations
        (λ c p. (p.0, omega arith)) k.counters;
}

-- What an event has in a table of lists.
pub Values_found {ℓ} :
    {A : Type ℓ} (P : List A → Type 0) (event_id : ElementFqId) (m : List (ElementFqId × List A))
    → P []
    → Maps.Values same_element P m
    → P (found event_id m)
Values_found {A = A} P event_id m none_there a = split (Maps.find same_element event_id m) refl
  where
    split : (o : Option (List A)) → Maps.find same_element event_id m ≡ o → P (or_else [] o)
    split none e = none_there
    split (some v) e = Maps.Values_find same_element P event_id m a e

pub Ascending-snoc :
    (lo : ℕ) (rs : List RegisteredNotificationHandler) (r : RegisteredNotificationHandler)
    → Ascending lo (numbers rs)
    → NumberedBelow r.register_no rs
    → lo ≤ r.register_no
    → Ascending lo (numbers (rs ++ r ∷ []))
Ascending-snoc lo [] r a b h = (h, tt)
Ascending-snoc lo (x ∷ rs) r (l, a) (m, b) h =
    (l, Ascending-snoc (suc x.register_no) rs r a b (omega arith))

pub erase_handler-Ascending :
    (reg_no lo : ℕ) (rs : List RegisteredNotificationHandler)
    → Ascending lo (numbers rs)
    → Ascending lo (numbers (erase_handler reg_no rs).1)
unfolding erase_handler
erase_handler-Ascending reg_no lo [] a = tt
erase_handler-Ascending reg_no lo (x ∷ rs) (l, a) =
    let ih = erase_handler-Ascending reg_no (suc x.register_no) rs a in
    elim (Bool-cases (ltb x.register_no reg_no)) [
      | inl e ↦ simp e (l, ih)
      | inr e ↦ elim (Bool-cases (x.register_no == reg_no)) [
        | inl f ↦ simp (e, f) (Ascending-weaken (suc x.register_no) lo (numbers rs) (omega arith) a)
        | inr f ↦ simp (e, f) (l, a)
      ]
    ]

pub erase_handler-NumberedBelow :
    (reg_no bound : ℕ) (rs : List RegisteredNotificationHandler)
    → NumberedBelow bound rs
    → NumberedBelow bound (erase_handler reg_no rs).1
unfolding erase_handler
erase_handler-NumberedBelow reg_no bound [] a = tt
erase_handler-NumberedBelow reg_no bound (x ∷ rs) (l, a) =
    let ih = erase_handler-NumberedBelow reg_no bound rs a in
    elim (Bool-cases (ltb x.register_no reg_no)) [
      | inl e ↦ simp e (l, ih)
      | inr e ↦ elim (Bool-cases (x.register_no == reg_no)) [
        | inl f ↦ simp (e, f) a
        | inr f ↦ simp (e, f) (l, a)
      ]
    ]

pub insert_id-Ascending :
    (n lo : ℕ) (ids : List ℕ) → Ascending lo ids → lo ≤ n → Ascending lo (insert_id n ids)
unfolding insert_id
insert_id-Ascending n lo [] a h = (h, tt)
insert_id-Ascending n lo (x ∷ ids) (l, a) h = elim (Bool-cases (ltb x n)) [
  | inl e ↦ simp e (l, insert_id-Ascending n (suc x) ids a (ltb→lt _ _ e))
  | inr e ↦ elim (Bool-cases (x == n)) [
    | inl f ↦ simp (e, f) (l, a)
    | inr f ↦ let below : n < x = ground arith in simp (e, f) (h, (below, a))
  ]
]

pub erase_id-Ascending :
    (n lo : ℕ) (ids : List ℕ) → Ascending lo ids → Ascending lo (erase_id n ids)
unfolding erase_id
erase_id-Ascending n lo [] a = tt
erase_id-Ascending n lo (x ∷ ids) (l, a) = elim (Bool-cases (x == n)) [
  | inl e ↦ simp e (Ascending-weaken (suc x) lo ids (omega arith) a)
  | inr e ↦ simp e (l, erase_id-Ascending n (suc x) ids a)
]

-- Both levels are kept.
abbrev pub WellKept : ℕ → NotifyEventHandler → Type 0
WellKept n h = Kept n h.control_data_qm × Kept n h.control_data_asil

pub WellKept-at :
    (n : ℕ) (h : NotifyEventHandler) (level : QualityType)
    → WellKept n h
    → Kept n (control_data h level)
WellKept-at n h invalid_quality w = w.1
WellKept-at n h asil_qm w = w.0
WellKept-at n h asil_b w = w.1

pub WellKept-with :
    (n : ℕ) (h : NotifyEventHandler) (level : QualityType) (d : EventNotificationControlData)
    → WellKept n h
    → Kept n d
    → WellKept n (with_control_data h level d)
WellKept-with n h invalid_quality d w k = (w.0, k)
WellKept-with n h asil_qm d w k = (k, w.1)
WellKept-with n h asil_b d w k = (w.0, k)

pub WellKept-weaken : (n m : ℕ) (h : NotifyEventHandler) → n ≤ m → WellKept n h → WellKept m h
WellKept-weaken n m h l w =
    (Kept-weaken n m h.control_data_qm l w.0, Kept-weaken n m h.control_data_asil l w.1)
