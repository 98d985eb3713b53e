-- ===== src/NotifyEventHandler/Local.antt =====
-- The handlers of this process that are called on an update (NotifyEventLocally).
use inc_mw_com.ElementFqId.{ElementFqId}
use mathlib.Core.List.{append_assoc}
use mathlib.Core.Option
use inc_mw_com.Base.{
  ℕ, zero, suc, ◌+◌, ◌%◌, ◌^◌, ◌≤◌, ◌<◌, ◌≡◌, refl, ap, subst, ◌∙◌, inl, inr, Bool, true, false,
  Option, none, some, List, [], ◌∷◌, ◌++◌, map, arith, ltb, ltb→lt, Bool-cases, length, All,
  some_eq,
}
use inc_mw_com.NotifyEventHandler.{
  QualityType, RegisteredNotificationHandler, called, NotifyEventHandler, control_data, act, found,
  upper_bound, Meanwhile, remaining_loop, handlers_called, notify_event_locally,
}
use inc_mw_com.NotifyEventHandler.Tables.{Ascending}

abbrev pub numbers : List RegisteredNotificationHandler → List ℕ
numbers rs = map (λ (r : RegisteredNotificationHandler). r.register_no) rs

abbrev pub NumberedBelow : ℕ → List RegisteredNotificationHandler → Type 0
NumberedBelow bound rs = All (λ (r : RegisteredNotificationHandler). r.register_no < bound) rs

upper_bound_found :
    (reg_no bound : ℕ) (rs : List RegisteredNotificationHandler) (r : RegisteredNotificationHandler)
    → NumberedBelow bound rs
    → upper_bound reg_no rs ≡ some r
    → (reg_no < r.register_no) × (r.register_no < bound)
unfolding upper_bound
upper_bound_found reg_no bound [] r a h = absurd cc
upper_bound_found reg_no bound (x ∷ rs) r (l, a) h = elim (Bool-cases (ltb reg_no x.register_no)) [
  | inl e ↦
      let same : x ≡ r = some_eq (simp e at h) in
      subst (λ y. (reg_no < y.register_no) × (y.register_no < bound)) same (ltb→lt _ _ e, l)
  | inr e ↦ upper_bound_found reg_no bound rs r a (simp e at h)
]

-- What a round finds, and what the loop then does.
abbrev after_bound :
    Meanwhile
    → (ℕ → Option (List RegisteredNotificationHandler))
    → ℕ
    → Option RegisteredNotificationHandler
    → Option (List RegisteredNotificationHandler)
after_bound env again now none = some []
after_bound env again now (some r) = elim (env.stop_requested now) [
  | true ↦ some (r ∷ [])
  | false ↦ Option.map (λ rs. r ∷ rs) (again r.register_no)
]

-- The loop ends with handlers of rising numbers above `reg_no`.
abbrev Rises : ℕ → Option (List RegisteredNotificationHandler) → Type 0
Rises reg_no result =
    (rs : List RegisteredNotificationHandler) × (result ≡ some rs)
    × Ascending (suc reg_no) (numbers rs)

remaining-Rises :
    (env : Meanwhile) (handlers : List RegisteredNotificationHandler) (bound fuel now reg_no : ℕ)
    → ((n : ℕ) → NumberedBelow bound (env.changed_handlers n handlers))
    → reg_no < bound
    → bound ≤ fuel + reg_no
    → Rises reg_no (remaining_loop env handlers fuel now reg_no)
unfolding remaining_loop
remaining-Rises env handlers bound zero now reg_no a l h = absurd (omega arith)
remaining-Rises env handlers bound (suc fuel) now reg_no a l h =
    by_bound (upper_bound reg_no (env.changed_handlers now handlers))
      (upper_bound_found reg_no bound (env.changed_handlers now handlers))
      (λ next p q. remaining-Rises env handlers bound fuel (suc now) next a p (omega arith))
  where
    again : ℕ → Option (List RegisteredNotificationHandler)
    again = remaining_loop env handlers fuel (suc now)

    by_stop :
        (r : RegisteredNotificationHandler) (b : Bool)
        → reg_no < r.register_no
        → Rises r.register_no (again r.register_no)
        → Rises reg_no (elim b [
          | true ↦ some (r ∷ [])
          | false ↦ Option.map (λ rs. r ∷ rs) (again r.register_no)
        ])
    by_stop r true p ih = (r ∷ [], refl, (omega arith, tt))
    by_stop r false p (rs, e, up) = (r ∷ rs, rw e, (omega arith, up))

    by_bound :
        (o : Option RegisteredNotificationHandler)
        → ((r : RegisteredNotificationHandler)
            → NumberedBelow bound (env.changed_handlers now handlers)
            → o ≡ some r
            → (reg_no < r.register_no) × (r.register_no < bound))
        → ((next : ℕ) → next < bound → reg_no < next → Rises next (again next))
        → Rises reg_no (after_bound env again now o)
    by_bound none f ih = ([], refl, tt)
    by_bound (some r) f ih =
        let (p, q) = f r (a now) refl in by_stop r (env.stop_requested now) p (ih r.register_no q p)

-- The handlers called, in their order, and what the call returns for them.
abbrev pub Calls :
    QualityType
    → ElementFqId
    → NotifyEventHandler
    → Option (ℕ × NotifyEventHandler)
    → List RegisteredNotificationHandler
    → Type 0
Calls level event_id h result rs =
    result
    ≡ some (
      length rs % 2 ^ 32,
      act h (map (λ (r : RegisteredNotificationHandler). called r.handler) rs),
    )

called_rises :
    (env : Meanwhile) (fuel : ℕ) (handlers : List RegisteredNotificationHandler)
    → NumberedBelow fuel handlers
    → ((n : ℕ) → NumberedBelow fuel (env.changed_handlers n handlers))
    → (rs : List RegisteredNotificationHandler) × (handlers_called env fuel handlers ≡ some rs)
      × Ascending 0 (numbers rs)
called_rises env fuel [] l a = ([], refl, tt)
called_rises env fuel (r ∷ handlers) (l, ls) a =
    let (rs, e, up) =
      remaining-Rises env (r ∷ handlers) fuel fuel 0 r.register_no a l (omega arith) in
    (r ∷ rs, rw e, (omega arith, up))

-- Whatever other threads make of the handlers of the event each time that the lock is free, and whenever the token asks to stop: if no registration number reaches `fuel`, `fuel` rounds are enough, and NotifyEventLocally calls handlers in the order of their numbers, so none twice, and returns how many there were.
pub notify_event_locally_lem :
    (env : Meanwhile) (fuel : ℕ) (level : QualityType) (event_id : ElementFqId)
    (h : NotifyEventHandler)
    → let handlers = found event_id (control_data h level).event_update_handlers in
      NumberedBelow fuel handlers
      → ((n : ℕ) → NumberedBelow fuel (env.changed_handlers n handlers))
      → (rs : List RegisteredNotificationHandler) × Calls level event_id h
          (notify_event_locally env fuel level event_id h)
          rs
        × Ascending 0 (numbers rs)
unfolding notify_event_locally
notify_event_locally_lem env fuel level event_id h l a =
    let (rs, e, up) =
      called_rises env fuel (found event_id (control_data h level).event_update_handlers) l a in
    (rs, simp e, up)

-- Nobody changes the handlers, and nobody asks to stop.
abbrev pub quiet : Meanwhile
quiet = record { changed_handlers = λ n rs. rs; stop_requested = λ n. false }

-- Handlers up to a number are passed over.
upper_bound-append :
    (reg_no : ℕ) (rs later : List RegisteredNotificationHandler)
    → NumberedBelow (suc reg_no) rs
    → upper_bound reg_no (rs ++ later) ≡ upper_bound reg_no later
unfolding upper_bound
upper_bound-append reg_no [] later a = refl
upper_bound-append reg_no (x ∷ rs) later (l, a) =
    let passed : ltb reg_no x.register_no ≡ false = ground arith in
    simp passed (upper_bound-append reg_no rs later a)

pub NumberedBelow-weaken :
    (a b : ℕ) (rs : List RegisteredNotificationHandler)
    → NumberedBelow a rs
    → a ≤ b
    → NumberedBelow b rs
NumberedBelow-weaken a b [] n h = tt
NumberedBelow-weaken a b (x ∷ rs) (m, n) h = (omega arith, NumberedBelow-weaken a b rs n h)

pub NumberedBelow-append :
    (a b : ℕ) (rs : List RegisteredNotificationHandler) (r : RegisteredNotificationHandler)
    → NumberedBelow a rs
    → a ≤ b
    → r.register_no < b
    → NumberedBelow b (rs ++ r ∷ [])
NumberedBelow-append a b [] r n h l = (l, tt)
NumberedBelow-append a b (x ∷ rs) r (m, n) h l = (omega arith, NumberedBelow-append a b rs r n h l)

upper_bound_next :
    (reg_no : ℕ) (r : RegisteredNotificationHandler) (later : List RegisteredNotificationHandler)
    → reg_no < r.register_no
    → upper_bound reg_no (r ∷ later) ≡ some r
unfolding upper_bound
upper_bound_next reg_no r later l =
    let next : ltb reg_no r.register_no ≡ true = ground arith in simp next

remaining_quiet :
    (before later : List RegisteredNotificationHandler) (fuel now reg_no : ℕ)
    → NumberedBelow (suc reg_no) before
    → Ascending (suc reg_no) (numbers later)
    → length later < fuel
    → remaining_loop quiet (before ++ later) fuel now reg_no ≡ some later
unfolding remaining_loop
remaining_quiet before later zero now reg_no a up h = absurd (omega arith)
remaining_quiet before [] (suc fuel) now reg_no a up h =
    let again = remaining_loop quiet (before ++ []) fuel (suc now) in
    ap (after_bound quiet again now) (upper_bound-append reg_no before [] a)
remaining_quiet before (r ∷ later) (suc fuel) now reg_no a (l, up) h =
    let again = remaining_loop quiet (before ++ r ∷ later) fuel (suc now) in
    let here : upper_bound reg_no (before ++ r ∷ later) ≡ some r =
      upper_bound-append reg_no before (r ∷ later) a ∙ upper_bound_next reg_no r later l in
    let ih =
      remaining_quiet (before ++ r ∷ []) later fuel (suc now) r.register_no
        (NumberedBelow-append (suc reg_no) (suc r.register_no) before r a (omega arith)
          (omega arith))
        up (omega arith) in
    ap (after_bound quiet again now) here
    ∙ ap (Option.map (λ rs. r ∷ rs)) (rw (append_assoc before (r ∷ []) later) at ih)

-- While nobody interferes, as many rounds as there are handlers are enough, and NotifyEventLocally calls every handler of the event once, in the order of registration. Their numbers rise, as they are given out.
pub notify_event_locally_undisturbed :
    (fuel : ℕ) (level : QualityType) (event_id : ElementFqId) (h : NotifyEventHandler)
    → let handlers = found event_id (control_data h level).event_update_handlers in
      Ascending 0 (numbers handlers)
      → length handlers ≤ fuel
      → Calls level event_id h (notify_event_locally quiet fuel level event_id h) handlers
unfolding notify_event_locally
notify_event_locally_undisturbed fuel level event_id h up l =
    simp (all_called (found event_id (control_data h level).event_update_handlers) up l)
  where
    all_called :
        (handlers : List RegisteredNotificationHandler)
        → Ascending 0 (numbers handlers)
        → length handlers ≤ fuel
        → handlers_called quiet fuel handlers ≡ some handlers
    all_called [] up l = refl
    all_called (r ∷ later) up l =
        simp
          (remaining_quiet (r ∷ []) later fuel 0 r.register_no (omega arith, tt) up.1 (omega arith))
