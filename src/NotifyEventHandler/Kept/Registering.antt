-- ===== src/NotifyEventHandler/Kept/Registering.antt =====
-- Registering, unregistering and the invariant of the tables (notify_event_handler.cpp).
use inc_mw_com.Base.{
  ℕ, suc, ◌+◌, ◌-◌, ◌%◌, ◌^◌, ◌≤◌, ◌<◌, ◌≡◌, refl, inl, inr, Bool, not, ◌&&◌, Option, none, some,
  List, [], ◌∷◌, ◌++◌, arith, ltb, ◌==◌, if◌then◌else◌, Bool-cases, require, IfSome, IfSome-bind,
  IfSome-any,
}
use inc_mw_com.Base.Maps
use inc_mw_com.ElementFqId.{ElementFqId, same_element}
use inc_mw_com.NotifyEventHandler.{
  QualityType, RegisteredNotificationHandler, NodeCounter, EventNotificationControlData,
  NotifyEventHandler, valid_level, control_data, found,
}
use inc_mw_com.NotifyEventHandler.Local.{NumberedBelow-weaken, NumberedBelow-append}
use inc_mw_com.NotifyEventHandler.Registrations.{
  send_register_event_notification_message, count_remote, count_up,
  register_event_notification_remote, add_handler, register_event_notification, reregister_at,
  reregister_event_notification, search_in, search_handler_for_notification, count_down,
  unregister_at, unregister_event_notification_remote, unregister_event_notification,
}
use inc_mw_com.NotifyEventHandler.Kept.{
  InOrder, Counts, Kept, Kept-weaken, Values_found, Ascending-snoc, erase_handler-Ascending,
  erase_handler-NumberedBelow, WellKept, WellKept-at, WellKept-with, WellKept-weaken,
}

-- Of 2 ^ 16 calls at most, none wraps a counter around.
abbrev pub few : ℕ
few = 2 ^ 16 - 1

add_handler-WellKept :
    (n : ℕ) (level : QualityType) (event_id : ElementFqId) (callback : ℕ) (h : NotifyEventHandler)
    → n < few
    → WellKept n h
    → WellKept (suc n) (add_handler level event_id callback h)
unfolding add_handler
add_handler-WellKept n level event_id callback h l w =
    WellKept-with (suc n) h level _ (WellKept-weaken n (suc n) h (omega arith) w) record {
      next = rw up (omega (arith, small));
      handlers = rw up handlers;
      nodes = k.nodes;
      counters = k'.counters;
    }
  where
    d : EventNotificationControlData
    d = control_data h level

    c : ℕ
    c = d.cur_registration_no

    k : Kept n d
    k = WellKept-at n h level w

    k' : Kept (suc n) d
    k' = Kept-weaken n (suc n) d (omega arith) k

    small : c ≤ n
    small = k.next

    up : (c + 1) % 2 ^ 32 ≡ suc c
    up = omega (arith, small)

    new_handler : RegisteredNotificationHandler
    new_handler = record { handler = callback; register_no = c }

    before : InOrder c (found event_id d.event_update_handlers)
    before = Values_found (InOrder c) event_id d.event_update_handlers (tt, tt) k.handlers

    handlers : Maps.Values same_element (InOrder (suc c)) (
        Maps.put same_element event_id
          (found event_id d.event_update_handlers ++ new_handler ∷ [])
          d.event_update_handlers)
    handlers =
        Maps.Values-put same_element (InOrder (suc c)) event_id _ d.event_update_handlers
          (
            Ascending-snoc 0 (found event_id d.event_update_handlers) new_handler before.0 before.1
                (omega arith),
            NumberedBelow-append c (suc c) (found event_id d.event_update_handlers) new_handler
                before.1 (omega arith) (omega arith),
          )
          (Maps.Values-weaken same_element (InOrder c) (InOrder (suc c)) d.event_update_handlers
            (λ rs p. (p.0, NumberedBelow-weaken c (suc c) rs p.1 (omega arith))) k.handlers)

count_remote-WellKept :
    (n : ℕ) (h : NotifyEventHandler) (level : QualityType) (event_id : ElementFqId)
    (c : NodeCounter)
    → WellKept n h
    → Counts n c
    → WellKept n (count_remote h level event_id c)
count_remote-WellKept n h level event_id c w p =
    let k = WellKept-at n h level w in
    WellKept-with n h level _ w record {
      next = k.next;
      handlers = k.handlers;
      nodes = k.nodes;
      counters =
          Maps.Values-put same_element (Counts n) event_id c
            (control_data h level).event_update_remote_registrations p k.counters;
    }

count_up-Counts :
    (n target : ℕ) (o : Option NodeCounter)
    → n < few
    → ((c : NodeCounter) → o ≡ some c → Counts n c)
    → Counts (suc n) (count_up target o)
count_up-Counts n target none l p = (omega arith, omega arith)
count_up-Counts n target (some c) l p = let (b, m) = p c refl in ground arith

register_event_notification_remote-WellKept :
    (n : ℕ) (level : QualityType) (event_id : ElementFqId) (target : ℕ) (h : NotifyEventHandler)
    → n < few
    → WellKept n h
    → WellKept (suc n) (register_event_notification_remote level event_id target h)
unfolding register_event_notification_remote send_register_event_notification_message
register_event_notification_remote-WellKept n level event_id target h l w =
    let d = control_data h level in
    let o = Maps.find same_element event_id d.event_update_remote_registrations in
    let kept =
      count_remote-WellKept (suc n) h level event_id (count_up target o)
        (WellKept-weaken n (suc n) h (omega arith) w)
        (count_up-Counts n target o l (λ c e.
          Maps.Values_find same_element (Counts n) event_id d.event_update_remote_registrations
            (WellKept-at n h level w).counters e)) in
    elim (Bool-cases ((count_up target o).counter == 1)) [
      | inl e ↦ simp e kept
      | inr e ↦ simp e kept
    ]

pub register_event_notification-WellKept :
    (n : ℕ) (level : QualityType) (event_id : ElementFqId) (callback target : ℕ)
    (h : NotifyEventHandler)
    → suc n < few
    → WellKept n h
    → IfSome
        (λ (r : ℕ × NotifyEventHandler). WellKept (suc (suc n)) r.1)
        (register_event_notification level event_id callback target h)
unfolding register_event_notification
register_event_notification-WellKept n level event_id callback target h l w =
    let kept = add_handler-WellKept n level event_id callback h (omega arith) w in
    let h' = add_handler level event_id callback h in
    IfSome-any _ (require (valid_level h level)) _ (λ u.
      elim (Bool-cases (target == h.node_identifier)) [
        | inl e ↦ simp e (WellKept-weaken (suc n) (suc (suc n)) h' (omega arith) kept)
        | inr e ↦
            simp e
              (register_event_notification_remote-WellKept (suc n) level event_id target h' l kept)
      ])

reregister_at-WellKept :
    (n : ℕ) (level : QualityType) (event_id : ElementFqId) (target : ℕ) (h : NotifyEventHandler)
    (o : Option NodeCounter)
    → n < few
    → WellKept n h
    → ((c : NodeCounter) → o ≡ some c → Counts n c)
    → WellKept (suc n) (reregister_at level event_id target h o)
unfolding send_register_event_notification_message
reregister_at-WellKept n level event_id target h none l w p =
    WellKept-weaken n (suc n) h (omega arith) w
reregister_at-WellKept n level event_id target h (some c) l w p =
    let (b, m) = p c refl in
    let w' = WellKept-weaken n (suc n) h (omega arith) w in
    elim (Bool-cases (c.node_id == target)) [
      | inl e ↦
          simp e (count_remote-WellKept (suc n) h level event_id _ w' (omega arith, omega arith))
      | inr e ↦
          simp e (count_remote-WellKept (suc n) h level event_id _ w' (omega arith, omega arith))
    ]

count_down-WellKept :
    (n : ℕ) (level : QualityType) (event_id : ElementFqId) (target : ℕ) (h : NotifyEventHandler)
    (c : NodeCounter)
    → WellKept n h
    → Counts n c
    → WellKept n (count_down level event_id target h c)
count_down-WellKept n level event_id target h c w (b, m) =
    let k = WellKept-at n h level w in
    elim (Bool-cases (c.counter == 1)) [
      | inl e ↦ simp e (
          WellKept-with n h level _ w record {
            next = k.next;
            handlers = k.handlers;
            nodes = k.nodes;
            counters =
                Maps.Values-erase same_element (Counts n) event_id
                  (control_data h level).event_update_remote_registrations k.counters;
          })
      | inr e ↦ simp e (count_remote-WellKept n h level event_id _ w (ground arith, omega arith))
    ]

pub reregister_event_notification-WellKept :
    (n : ℕ) (level : QualityType) (event_id : ElementFqId) (target : ℕ) (h : NotifyEventHandler)
    → n < few
    → WellKept n h
    → IfSome (WellKept (suc n)) (reregister_event_notification level event_id target h)
unfolding reregister_event_notification
reregister_event_notification-WellKept n level event_id target h l w =
    IfSome-any _ (require (valid_level h level)) _
      (λ u. at (Maps.find same_element event_id (control_data h level).event_update_handlers))
  where
    same : WellKept (suc n) h
    same = WellKept-weaken n (suc n) h (omega arith) w

    o : Option NodeCounter
    o = Maps.find same_element event_id (control_data h level).event_update_remote_registrations

    again : WellKept (suc n) (reregister_at level event_id target h o)
    again = reregister_at-WellKept n level event_id target h o l w (λ c e.
        Maps.Values_find same_element (Counts n) event_id
          (control_data h level).event_update_remote_registrations
          (WellKept-at n h level w).counters e)

    at :
        (handlers : Option (List RegisteredNotificationHandler))
        → WellKept (suc n) (elim handlers [
          | none ↦ h
          | some handlers ↦
              if target == h.node_identifier then h else reregister_at level event_id target h o
        ])
    at none = same
    at (some handlers) = elim (Bool-cases (target == h.node_identifier)) [
      | inl e ↦ simp e same
      | inr e ↦ simp e again
    ]

search_in-WellKept :
    (n : ℕ) (level : QualityType) (event_id : ElementFqId) (reg_no : ℕ) (h : NotifyEventHandler)
    (o : Option (List RegisteredNotificationHandler))
    → WellKept n h
    → ((rs : List RegisteredNotificationHandler)
        → o ≡ some rs
        → InOrder (control_data h level).cur_registration_no rs)
    → WellKept n (search_in level event_id reg_no h o).1
unfolding search_in
search_in-WellKept n level event_id reg_no h none w p = w
search_in-WellKept n level event_id reg_no h (some rs) w p =
    let k = WellKept-at n h level w in
    let next = (control_data h level).cur_registration_no in
    let (up, below) = p rs refl in
    WellKept-with n h level _ w record {
      next = k.next;
      handlers =
          Maps.Values-put same_element (InOrder next) event_id _
            (control_data h level).event_update_handlers
            (
              erase_handler-Ascending reg_no 0 rs up,
              erase_handler-NumberedBelow reg_no next rs below,
            )
            k.handlers;
      nodes = k.nodes;
      counters = k.counters;
    }

unregister_at-WellKept :
    (n : ℕ) (level : QualityType) (event_id : ElementFqId) (target : ℕ) (h : NotifyEventHandler)
    (o : Option NodeCounter)
    → WellKept n h
    → ((c : NodeCounter) → o ≡ some c → Counts n c)
    → IfSome (WellKept n) (unregister_at level event_id target h o)
unregister_at-WellKept n level event_id target h none w p = w
unregister_at-WellKept n level event_id target h (some c) w p =
    IfSome-any _ (require (ltb 0 c.counter)) _ (λ u. elim (Bool-cases (c.node_id == target)) [
      | inl e ↦ simp e (count_down-WellKept n level event_id target h c w (p c refl))
      | inr e ↦ simp e w
    ])

search_handler_for_notification-WellKept :
    (n : ℕ) (level : QualityType) (event_id : ElementFqId) (reg_no : ℕ) (h : NotifyEventHandler)
    → WellKept n h
    → IfSome
        (λ (r : Bool × NotifyEventHandler). WellKept n r.1)
        (search_handler_for_notification level event_id reg_no h)
unfolding search_handler_for_notification
search_handler_for_notification-WellKept n level event_id reg_no h w =
    let d = control_data h level in
    IfSome-any _ (require (valid_level h level)) _ (λ u.
      search_in-WellKept n level event_id reg_no h
        (Maps.find same_element event_id d.event_update_handlers) w
        (λ rs e.
          Maps.Values_find same_element (InOrder d.cur_registration_no) event_id
            d.event_update_handlers (WellKept-at n h level w).handlers e))

pub unregister_event_notification-WellKept :
    (n : ℕ) (level : QualityType) (event_id : ElementFqId) (reg_no target : ℕ)
    (h : NotifyEventHandler)
    → WellKept n h
    → IfSome (WellKept n) (unregister_event_notification level event_id reg_no target h)
unfolding unregister_event_notification unregister_event_notification_remote
unregister_event_notification-WellKept n level event_id reg_no target h w =
    IfSome-bind _ (WellKept n) (search_handler_for_notification level event_id reg_no h) _
      (search_handler_for_notification-WellKept n level event_id reg_no h w)
      (λ r w'.
        let d = control_data r.1 level in
        let o = Maps.find same_element event_id d.event_update_remote_registrations in
        let counted = unregister_at-WellKept n level event_id target r.1 o w' (λ c e.
          Maps.Values_find same_element (Counts n) event_id d.event_update_remote_registrations
            (WellKept-at n r.1 level w').counters e) in
        elim (Bool-cases (r.0 && not (target == h.node_identifier))) [
          | inl e ↦ simp e counted
          | inr e ↦ simp e w'
        ])
