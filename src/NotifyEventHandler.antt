-- ===== src/NotifyEventHandler.antt =====
-- mw/com/impl/bindings/lola/messaging/notify_event_handler.{h,cpp} and handler_base.h: who is told of
-- an update of an event, in this process and in others. Each function runs under its lock; what other
-- threads do where the code lets go of a lock is an argument. Log entries are left out.
pub mod Tables
pub mod Remote
pub mod Local
pub mod Registrations
pub mod Incoming
pub mod Kept
pub mod Calls
pub mod Subscribers
pub mod RoundTrip
use inc_mw_com.Base.{
  ℕ, zero, suc, ◌+◌, ◌-◌, ◌*◌, ◌/◌, ◌%◌, ◌^◌, ◌≤◌, ◌<◌, min, max, ◌≡◌, refl, sym, ap, subst, ◌∙◌,
  ◌≢◌, ◌↔◌, ◌⊎◌, inl, inr, Bool, true, false, not, ◌&&◌, ◌||◌, Option, none, some, List, [], ◌∷◌,
  ◌++◌, map, arith, ltb, leb, ◌==◌, if◌then◌else◌, ltb→lt, ltb→ge, leb→le, leb→gt, ==→eq, ==_self,
  Bool-cases, Option-cases, length, get_elem?, get_or, set, take, drop, All, replicate,
  length-append, length-set, length-replicate, get_or-set_self, get_or-set_ne, set-set, set-get_or,
  get_elem?-set_self, get_elem?-set_ne, get_elem?-set, set_unchanged, get_elem?-append_length,
  length-map, get_elem?-map, get_elem?-replicate, ◌>>=◌, ◌>>◌, require, >>=-eq-some, some_eq,
  Interference, Words, alone, seen, load, store, fetch_modify, compare_exchange, Exchanged,
  compare_exchange_lem,
}
use mathlib.Core.Option
use inc_mw_com.Base.Maps
use inc_mw_com.ElementFqId.{
  ElementType, invalid_type, event, field, ElementFqId, element_type_code, element_type_of_code,
  element_fq_id, same_element, element_before, hash_key, element_fq_id_to_short_msg_payload,
  short_msg_payload_to_element_fq_id,
}
use inc_mw_com.Messages.{
  ShortMessage, MessageType, register_event_notifier, unregister_event_notifier,
  notify_event_update, outdated_node_id, message_id, ElementFqIdMessage,
  deserialize_to_element_fq_id_message, element_message_to_short_message, same_element_message,
  OutdatedNodeIdMessage, deserialize_to_outdated_node_id_message, outdated_message_to_short_message,
}

pub data QualityType : Type 0 where
  invalid_quality asil_qm asil_b : QualityType

-- A handler is known by a number.
pub record RegisteredNotificationHandler : Type 0 where
  pub handler : ℕ
  pub register_no : ℕ

pub record NodeCounter : Type 0 where
  pub node_id : ℕ
  pub counter : ℕ

abbrev pub Handlers : Type 0
Handlers = List (ElementFqId × List RegisteredNotificationHandler)

-- A set of process ids is its ascending list.
abbrev pub Nodes : Type 0
Nodes = List (ElementFqId × List ℕ)

-- The pool is given by the number of its threads.
pub record EventNotificationControlData : Type 0 where
  pub event_update_handlers : Handlers
  pub event_update_interested_nodes : Nodes
  pub event_update_remote_registrations : List (ElementFqId × NodeCounter)
  pub cur_registration_no : ℕ
  pub thread_pool : Option ℕ

-- What the handler does to the world: a message sent to a process, a task given to the pool of a
-- quality, a handler called, and a sender given up.
pub data Action : Type 0 where
  sent : QualityType → ℕ → ShortMessage → Action
  posted : QualityType → ElementFqId → Action
  called : ℕ → Action
  sender_removed : QualityType → ℕ → Action

-- `node_identifier` is the id of this process; `actions` are in the order in which they were done.
pub record NotifyEventHandler : Type 0 where
  pub control_data_qm : EventNotificationControlData
  pub control_data_asil : EventNotificationControlData
  pub asil_b_capability : Bool
  pub node_identifier : ℕ
  pub actions : List Action

abbrev pub Handler : Type 0
Handler = NotifyEventHandler

abbrev pub no_control_data : Option ℕ → EventNotificationControlData
no_control_data pool = record {
  event_update_handlers = [];
  event_update_interested_nodes = [];
  event_update_remote_registrations = [];
  cur_registration_no = 0;
  thread_pool = pool;
}

unfoldable pub notify_event_handler : ℕ → Bool → ℕ → NotifyEventHandler
notify_event_handler hardware_concurrency asil_b_capability node_identifier =
    let hw_conc = if hardware_concurrency == 0 then 2 else hardware_concurrency in
    record {
      control_data_qm = no_control_data (some hw_conc);
      control_data_asil = no_control_data (if asil_b_capability then some hw_conc else none);
      asil_b_capability = asil_b_capability;
      node_identifier = node_identifier;
      actions = [];
    }

abbrev pub valid_level : NotifyEventHandler → QualityType → Bool
valid_level h invalid_quality = false
valid_level h asil_qm = true
valid_level h asil_b = h.asil_b_capability

abbrev pub control_data : NotifyEventHandler → QualityType → EventNotificationControlData
control_data h invalid_quality = h.control_data_asil
control_data h asil_qm = h.control_data_qm
control_data h asil_b = h.control_data_asil

abbrev pub with_control_data :
    NotifyEventHandler → QualityType → EventNotificationControlData → NotifyEventHandler
with_control_data h invalid_quality d = record h { control_data_asil = d }
with_control_data h asil_qm d = record h { control_data_qm = d }
with_control_data h asil_b d = record h { control_data_asil = d }

abbrev pub act : NotifyEventHandler → List Action → NotifyEventHandler
act h as' = record h { actions = h.actions ++ as' }

abbrev pub or_else {ℓ} : {A : Type ℓ} → A → Option A → A
or_else d none = d
or_else d (some a) = a

-- What the map has for an event; an absent event has nobody.
abbrev pub found {ℓ} : {A : Type ℓ} → ElementFqId → List (ElementFqId × List A) → List A
found event_id m = or_else [] (Maps.find same_element event_id m)

-- std::lower_bound on the ids of a set.
unfoldable pub ids_from : ℕ → List ℕ → List ℕ
ids_from start [] = []
ids_from start (x ∷ ids) = let rest = ids_from start ids in if ltb x start then rest else x ∷ ids

-- The loop of CopyNodeIdentifiers, with the free places of the buffer: the ids copied, and whether
-- there are more than fit.
unfoldable pub copy_loop : ℕ → List ℕ → List ℕ × Bool
copy_loop zero ids = ([], false)
copy_loop (suc free) [] = ([], false)
copy_loop (suc free) (x ∷ ids) = elim free [
  | zero ↦ (x ∷ [], not (length ids == 0))
  | suc free' ↦ let (copied, further) = copy_loop (suc free') ids in (x ∷ copied, further)
]

abbrev pub buffer_size : ℕ
buffer_size = 20

unfoldable pub copy_node_identifiers : ElementFqId → Nodes → ℕ → List ℕ × Bool
unfolding copy_loop ids_from
copy_node_identifiers event_id src_map start =
    copy_loop buffer_size (ids_from start (found event_id src_map))

-- A full buffer is followed by a round that starts behind its last id.
abbrev pub send_round : (ℕ → List ℕ) → List ℕ × Bool → List ℕ
send_round again (copied, true) = copied ++ again (get_or copied (buffer_size - 1) 0 + 1)
send_round again (copied, false) = copied

-- `rounds` is 255 less loop_count; `changed` is what other threads make of the map before a round.
unfoldable pub targets_loop : ElementFqId → (ℕ → Nodes → Nodes) → Nodes → ℕ → ℕ → List ℕ
unfolding copy_node_identifiers
targets_loop event_id changed nodes zero start = []
targets_loop event_id changed nodes (suc rounds) start =
    send_round (targets_loop event_id changed nodes rounds)
      (copy_node_identifiers event_id (changed rounds nodes) start)

abbrev pub update_message : NotifyEventHandler → MessageType → ElementFqId → ShortMessage
update_message h t event_id =
    element_message_to_short_message
      record { message_type = t; element_fq_id = event_id; sender_node_id = h.node_identifier }

unfoldable pub notify_event_remote :
    (ℕ → Nodes → Nodes) → QualityType → ElementFqId → NotifyEventHandler → NotifyEventHandler
unfolding targets_loop
notify_event_remote changed level event_id h = act h (
    map (λ node. sent level node (update_message h notify_event_update event_id))
      (targets_loop event_id changed (control_data h level).event_update_interested_nodes 255 0))

-- The handlers of this process are called by a thread of the pool, if there are any.
abbrev pub post_update : QualityType → ElementFqId → NotifyEventHandler → Option NotifyEventHandler
post_update level event_id h =
    let d = control_data h level in
    if length (found event_id d.event_update_handlers) == 0
    then some h
    else (d.thread_pool >>= λ n. some (act h (posted level event_id ∷ [])))

unfoldable pub notify_event :
    (ℕ → Nodes → Nodes) → QualityType → ElementFqId → NotifyEventHandler → Option NotifyEventHandler
unfolding notify_event_remote
notify_event changed level event_id h = do
  require (valid_level h level)
  post_update level event_id (notify_event_remote changed level event_id h)

-- std::upper_bound on the handlers of an event, whose numbers ascend: the first number above reg_no.
unfoldable pub upper_bound :
    ℕ → List RegisteredNotificationHandler → Option RegisteredNotificationHandler
upper_bound reg_no [] = none
upper_bound reg_no (r ∷ handlers) =
    let rest = upper_bound reg_no handlers in if ltb reg_no r.register_no then some r else rest

-- What other threads make of the handlers of the event before the n-th time that the lock is taken
-- again, and whether the token asks to stop after it.
pub record Meanwhile : Type 0 where
  pub changed_handlers : ℕ → List RegisteredNotificationHandler → List RegisteredNotificationHandler
  pub stop_requested : ℕ → Bool

-- The loop of NotifyEventLocally: the handlers called, in their order; `none` when the fuel ends.
unfoldable pub remaining_loop :
    Meanwhile
    → List RegisteredNotificationHandler
    → ℕ
    → ℕ
    → ℕ
    → Option (List RegisteredNotificationHandler)
unfolding upper_bound
remaining_loop env handlers zero now reg_no = none
remaining_loop env handlers (suc fuel) now reg_no =
    elim (upper_bound reg_no (env.changed_handlers now handlers)) [
      | none ↦ some []
      | some r ↦ elim (env.stop_requested now) [
        | true ↦ some (r ∷ [])
        | false ↦
            Option.map (λ rs. r ∷ rs) (remaining_loop env handlers fuel (suc now) r.register_no)
      ]
    ]

abbrev pub handlers_called :
    Meanwhile → ℕ → List RegisteredNotificationHandler → Option (List RegisteredNotificationHandler)
handlers_called env fuel [] = some []
handlers_called env fuel (r ∷ handlers) =
    Option.map (λ rs. r ∷ rs) (remaining_loop env (r ∷ handlers) fuel 0 r.register_no)

-- The number of handlers called, with 32 bits, and the handler after the calls.
unfoldable pub notify_event_locally :
    Meanwhile → ℕ → QualityType → ElementFqId → NotifyEventHandler → Option (ℕ × NotifyEventHandler)
unfolding remaining_loop
notify_event_locally env fuel level event_id h = do
  rs ← handlers_called env fuel (found event_id (control_data h level).event_update_handlers)
  some (length rs % 2 ^ 32, act h (map (λ r. called r.handler) rs))
