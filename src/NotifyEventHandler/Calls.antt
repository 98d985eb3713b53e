-- ===== src/NotifyEventHandler/Calls.antt =====
-- Calls of the handler one after another (notify_event_handler.cpp).
use inc_mw_com.Base.{
  ℕ, suc, ◌+◌, ◌-◌, ◌*◌, ◌^◌, ◌≤◌, ◌<◌, ◌≡◌, inl, inr, Bool, Option, none, some, List, [], ◌∷◌,
  arith, ◌==◌, Bool-cases, length, ◌>>=◌, require, IfSome, IfSome-bind, IfSome-any, IfSome_eq,
}
use inc_mw_com.ElementFqId.{ElementFqId}
use inc_mw_com.Messages.{notify_event_update, deserialize_to_element_fq_id_message}
use inc_mw_com.NotifyEventHandler.{
  QualityType, Nodes, NotifyEventHandler, notify_event_handler, valid_level, control_data, found,
  notify_event_remote, notify_event, Meanwhile, handlers_called, notify_event_locally,
}
use inc_mw_com.NotifyEventHandler.Registrations.{
  register_event_notification, reregister_event_notification, unregister_event_notification,
  notify_outdated_node_id,
}
use inc_mw_com.NotifyEventHandler.Incoming.{
  handle_notify_event_msg, Callback, on_register, on_unregister, on_notify, on_outdated,
  run_callback,
}
use inc_mw_com.NotifyEventHandler.Kept.{WellKept, WellKept-weaken}
use inc_mw_com.NotifyEventHandler.Kept.Registering.{
  few, register_event_notification-WellKept, reregister_event_notification-WellKept,
  unregister_event_notification-WellKept,
}
use inc_mw_com.NotifyEventHandler.Kept.Receiving.{
  handle_register_notification_msg-WellKept, handle_unregister_notification_msg-WellKept,
  handle_outdated_node_id_msg-WellKept,
}

-- A call from this process, or a message from another one, with what happens meanwhile.
pub data Call : Type 0 where
  notified : (ℕ → Nodes → Nodes) → QualityType → ElementFqId → Call
  registered : QualityType → ElementFqId → ℕ → ℕ → Call
  reregistered : QualityType → ElementFqId → ℕ → Call
  unregistered : QualityType → ElementFqId → ℕ → ℕ → Call
  told_outdated : QualityType → ℕ → ℕ → Call
  received : Callback → Meanwhile → ℕ → ℕ → QualityType → ℕ → Call

unfoldable pub step : Call → NotifyEventHandler → Option NotifyEventHandler
unfolding run_callback
step (notified changed level event_id) h = notify_event changed level event_id h
step (registered level event_id callback target) h = do
  (reg_no, h') ← register_event_notification level event_id callback target h
  some h'
step (reregistered level event_id target) h = reregister_event_notification level event_id target h
step (unregistered level event_id reg_no target) h =
    unregister_event_notification level event_id reg_no target h
step (told_outdated level outdated target) h = notify_outdated_node_id level outdated target h
step (received callback env fuel payload level sender) h =
    run_callback callback env fuel payload level sender h

unfoldable pub run : List Call → NotifyEventHandler → Option NotifyEventHandler
run [] h = some h
run (c ∷ calls) h = do h' ← step c h; run calls h'

notify_event-WellKept :
    (n : ℕ) (changed : ℕ → Nodes → Nodes) (level : QualityType) (event_id : ElementFqId)
    (h : NotifyEventHandler)
    → WellKept n h
    → IfSome (WellKept n) (notify_event changed level event_id h)
unfolding notify_event notify_event_remote
notify_event-WellKept n changed level event_id h w =
    IfSome-any (WellKept n) (require (valid_level h level)) _ (λ u.
      elim (Bool-cases
        (length (found event_id (control_data h level).event_update_handlers) == 0)) [
          | inl e ↦ simp e w
          | inr e ↦ simp e (IfSome-any (WellKept n) (control_data h level).thread_pool _ (λ p. w))
        ])

notify_outdated_node_id-WellKept :
    (n : ℕ) (level : QualityType) (outdated target : ℕ) (h : NotifyEventHandler)
    → WellKept n h
    → IfSome (WellKept n) (notify_outdated_node_id level outdated target h)
unfolding notify_outdated_node_id
notify_outdated_node_id-WellKept n level outdated target h w =
    IfSome-any (WellKept n) (require (valid_level h level)) _ (λ u. w)

notify_event_locally-WellKept :
    (n : ℕ) (env : Meanwhile) (fuel : ℕ) (level : QualityType) (event_id : ElementFqId)
    (h : NotifyEventHandler)
    → WellKept n h
    → IfSome
        (λ (r : ℕ × NotifyEventHandler). WellKept n r.1)
        (notify_event_locally env fuel level event_id h)
unfolding notify_event_locally
notify_event_locally-WellKept n env fuel level event_id h w =
    IfSome-any (λ (r : ℕ × NotifyEventHandler). WellKept n r.1)
      (handlers_called env fuel (found event_id (control_data h level).event_update_handlers)) _
      (λ rs. w)

run_callback-WellKept :
    (n : ℕ) (callback : Callback) (env : Meanwhile) (fuel payload : ℕ) (level : QualityType)
    (sender : ℕ) (h : NotifyEventHandler)
    → WellKept n h
    → IfSome (WellKept n) (run_callback callback env fuel payload level sender h)
unfolding run_callback handle_notify_event_msg
run_callback-WellKept n on_register env fuel payload level sender h w =
    handle_register_notification_msg-WellKept n payload level sender h w
run_callback-WellKept n on_unregister env fuel payload level sender h w =
    handle_unregister_notification_msg-WellKept n payload level sender h w
run_callback-WellKept n on_notify env fuel payload level sender h w =
    IfSome-any (WellKept n) (require (valid_level h level)) _ (λ u.
      IfSome-any (WellKept n)
        (deserialize_to_element_fq_id_message notify_event_update payload sender) _
        (λ m.
          IfSome-bind _ (WellKept n) (notify_event_locally env fuel level m.element_fq_id h) _
            (notify_event_locally-WellKept n env fuel level m.element_fq_id h w) (λ r k. k)))
run_callback-WellKept n on_outdated env fuel payload level sender h w =
    handle_outdated_node_id_msg-WellKept n payload level sender h w

IfSome-later :
    (n m : ℕ) (o : Option NotifyEventHandler)
    → n ≤ m
    → IfSome (WellKept n) o
    → IfSome (WellKept m) o
IfSome-later n m none l w = tt
IfSome-later n m (some h) l w = WellKept-weaken n m h l w

-- A call raises a count by two at most.
step-WellKept :
    (n : ℕ) (c : Call) (h : NotifyEventHandler)
    → suc n < few
    → WellKept n h
    → IfSome (WellKept (suc (suc n))) (step c h)
unfolding step
step-WellKept n (notified changed level event_id) h l w =
    IfSome-later n (suc (suc n)) _ (omega arith)
      (notify_event-WellKept n changed level event_id h w)
step-WellKept n (registered level event_id callback target) h l w =
    IfSome-bind _ (WellKept (suc (suc n)))
      (register_event_notification level event_id callback target h) _
      (register_event_notification-WellKept n level event_id callback target h l w) (λ r k. k)
step-WellKept n (reregistered level event_id target) h l w =
    IfSome-later (suc n) (suc (suc n)) _ (omega arith)
      (reregister_event_notification-WellKept n level event_id target h (omega arith) w)
step-WellKept n (unregistered level event_id reg_no target) h l w =
    IfSome-later n (suc (suc n)) _ (omega arith)
      (unregister_event_notification-WellKept n level event_id reg_no target h w)
step-WellKept n (told_outdated level outdated target) h l w =
    IfSome-later n (suc (suc n)) _ (omega arith)
      (notify_outdated_node_id-WellKept n level outdated target h w)
step-WellKept n (received callback env fuel payload level sender) h l w =
    IfSome-later n (suc (suc n)) _ (omega arith)
      (run_callback-WellKept n callback env fuel payload level sender h w)

steps_WellKept :
    (calls : List Call) (n : ℕ) (h : NotifyEventHandler)
    → n + 2 * length calls < few
    → WellKept n h
    → IfSome (WellKept (n + 2 * length calls)) (run calls h)
unfolding run
steps_WellKept [] n h l w = WellKept-weaken n (n + 2 * 0) h (omega arith) w
steps_WellKept (c ∷ calls) n h l w =
    IfSome-bind (WellKept (suc (suc n))) (WellKept (n + 2 * suc (length calls))) (step c h)
      (run calls) (step-WellKept n c h (omega arith) w)
      (λ h' w'.
        IfSome-later (suc (suc n) + 2 * length calls) (n + 2 * suc (length calls)) (run calls h')
          (omega arith) (steps_WellKept calls (suc (suc n)) h' (omega arith) w'))

-- After any calls and messages in any order, fewer than 32767, that a new handler goes through without ending the process: both levels keep the handlers of each event in the order of their registration numbers, all given out before, the process ids of each event ascending, and each count of remote registrations positive. No number or count is above twice the number of calls.
pub run-WellKept :
    (calls : List Call) (hardware_concurrency : ℕ) (capable : Bool) (node : ℕ)
    (h : NotifyEventHandler)
    → length calls < 2 ^ 15 - 1
    → run calls (notify_event_handler hardware_concurrency capable node) ≡ some h
    → WellKept (2 * length calls) h
unfolding notify_event_handler
run-WellKept calls hardware_concurrency capable node h l e =
    let fresh : WellKept 0 (notify_event_handler hardware_concurrency capable node) = (
      record { next = omega arith; handlers = tt; nodes = tt; counters = tt },
      record { next = omega arith; handlers = tt; nodes = tt; counters = tt },
    ) in
    let later =
      IfSome_eq (WellKept (0 + 2 * length calls)) _ h (steps_WellKept calls 0 _ (omega arith) fresh)
        e in
    WellKept-weaken (0 + 2 * length calls) (2 * length calls) h (omega arith) later
