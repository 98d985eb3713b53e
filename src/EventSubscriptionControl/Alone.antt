-- ===== src/EventSubscriptionControl/Alone.antt =====
-- Subscribing and unsubscribing (event_subscription_control.cpp) while no other process interferes.
use inc_mw_com.EventSubscriptionControl.Fields.{create_state_fields, create_state_of_fields}
use inc_mw_com.Base.{
  ℕ, suc, ◌+◌, ◌-◌, ◌*◌, ◌%◌, ◌^◌, ◌≤◌, ◌<◌, ◌≡◌, refl, sym, subst, ◌⊎◌, inl, inr, Bool, true,
  false, ◌&&◌, some, [], ◌∷◌, arith, ltb, leb, ◌==◌, leb→le, leb→gt, ==_self, Bool-cases, alone,
  compare_exchange,
}
use inc_mw_com.EventSubscriptionControl.{
  SubscribeResult, success, max_subscribers_overflow, slot_overflow, Limits,
  EventSubscriptionControl, get_subscribers_from_state, get_subscribed_samples_from_state,
  with_state, exchange_state, subscribe_round, subscribe_loop, subscribe, unsubscribe_round,
  unsubscribe_loop, unsubscribe,
}
use inc_mw_com.EventSubscriptionControl.Bounds.{added, HasRoom, room}

-- The one word of the control is `s`.
abbrev pub Holds : EventSubscriptionControl → ℕ → Type 0
Holds c s = c.current_subscription_state.words ≡ s ∷ []

abbrev at_state : EventSubscriptionControl → ℕ → ℕ → EventSubscriptionControl
at_state c s now = with_state c (record { words = s ∷ []; now = now })

no_overflow :
    (limits : Limits) (n s : ℕ)
    → HasRoom limits n s
    → (leb limits.max_subscribers (get_subscribers_from_state s) ≡ false)
      × ((limits.enforce_max_samples
            && ltb limits.max_subscribable_slots (get_subscribed_samples_from_state s + n))
          ≡ false)
no_overflow limits n s ok =
    (ground (arith, ok.one_more), enough limits.enforce_max_samples ok.enough)
  where
    enough :
        (b : Bool)
        → (b ≡ true → get_subscribed_samples_from_state s + n ≤ limits.max_subscribable_slots)
        → (b && ltb limits.max_subscribable_slots (get_subscribed_samples_from_state s + n)) ≡ false
    enough true h = ground (arith, h refl)
    enough false h = refl

grant :
    (c : EventSubscriptionControl) (rounds n s now : ℕ)
    → HasRoom c.limits n s
    → subscribe_loop alone (suc rounds) n (at_state c s now)
      ≡ (success, at_state c (added n s) (suc (suc now)))
unfolding subscribe_loop subscribe_round exchange_state compare_exchange
grant c rounds n s now ok =
    let (below, fits) = no_overflow c.limits n s ok in simp (below, fits, ==_self s)

refuse_subscribers :
    (c : EventSubscriptionControl) (rounds n s now : ℕ)
    → c.max_subscribers ≤ get_subscribers_from_state s
    → subscribe_loop alone (suc rounds) n (at_state c s now)
      ≡ (max_subscribers_overflow, at_state c s (suc now))
unfolding subscribe_loop subscribe_round
refuse_subscribers c rounds n s now h =
    let full : leb c.max_subscribers (get_subscribers_from_state s) ≡ true = ground arith in
    simp full

refuse_slots :
    (c : EventSubscriptionControl) (rounds n s now : ℕ)
    → get_subscribers_from_state s < c.max_subscribers
    → c.enforce_max_samples ≡ true
    → c.max_subscribable_slots < get_subscribed_samples_from_state s + n
    → subscribe_loop alone (suc rounds) n (at_state c s now)
      ≡ (slot_overflow, at_state c s (suc now))
unfolding subscribe_loop subscribe_round
refuse_slots c rounds n s now h e k =
    let below : leb c.max_subscribers (get_subscribers_from_state s) ≡ false = ground arith in
    let over : ltb c.max_subscribable_slots (get_subscribed_samples_from_state s + n) ≡ true =
      ground arith in
    simp (below, e, over)

-- The rounds of a control that admits a subscriber are at least one.
rounds_suc :
    (k m : ℕ) → 0 < k → k < 4 → 0 < m → m < 2 ^ 8 → k * m % 2 ^ 16 ≡ suc (k * m % 2 ^ 16 - 1)
rounds_suc k m hk h4 hm h8 = grind arith

module _ (c : EventSubscriptionControl) (n s : ℕ) (holds : Holds c s) where
  now : ℕ
  now = c.current_subscription_state.now

  from_word :
      (r : SubscribeResult × EventSubscriptionControl)
      → 0 < c.max_subscribers
      → c.max_subscribers < 2 ^ 8
      → ((k : ℕ) → subscribe_loop alone (suc k) n (at_state c s now) ≡ r)
      → subscribe alone n c ≡ r
  unfolding subscribe now
  from_word r some_allowed fit h =
      rw (rounds_suc 2 c.max_subscribers (omega arith) (omega arith) some_allowed fit) (
        subst
          (λ ws.
            subscribe_loop alone (suc (2 * c.max_subscribers % 2 ^ 16 - 1)) n
              (with_state c (record { words = ws; now = now }))
            ≡ r)
          (sym holds) (h (2 * c.max_subscribers % 2 ^ 16 - 1)))

  -- What Subscribe does where at least one subscriber is configured: with room it succeeds and adds the subscriber and its slots to the word; with max_subscribers reached, or else the enforced slots exceeded, it reports just that and leaves the word alone.
  pub subscribe_undisturbed :
      0 < c.max_subscribers
      → c.max_subscribers < 2 ^ 8
      → (HasRoom c.limits n s
          × ((subscribe alone n c).0 ≡ success)
          × Holds (subscribe alone n c).1 (added n s))
        ⊎ ((c.max_subscribers ≤ get_subscribers_from_state s)
            × ((subscribe alone n c).0 ≡ max_subscribers_overflow)
            × Holds (subscribe alone n c).1 s)
        ⊎ ((get_subscribers_from_state s < c.max_subscribers)
            × (c.enforce_max_samples ≡ true)
            × (c.max_subscribable_slots < get_subscribed_samples_from_state s + n)
            × ((subscribe alone n c).0 ≡ slot_overflow)
            × Holds (subscribe alone n c).1 s)
  subscribe_undisturbed pos fit =
      elim (Bool-cases (leb c.max_subscribers (get_subscribers_from_state s))) [
        | inl full ↦
            let h = leb→le _ _ full in
            let e = from_word _ pos fit (λ k. refuse_subscribers c k n s now h) in
            inr (inl (h, simp e refl, simp e refl))
        | inr below ↦
            let lt : get_subscribers_from_state s < c.max_subscribers = leb→gt _ _ below in
            elim (Bool-cases (
              c.enforce_max_samples
              && ltb c.max_subscribable_slots (get_subscribed_samples_from_state s + n))) [
                | inl over ↦
                    let enforced : c.enforce_max_samples ≡ true = ground (arith, over) in
                    let exceeds : c.max_subscribable_slots
                        < get_subscribed_samples_from_state s + n =
                      ground (arith, over) in
                    let e =
                      from_word _ pos fit (λ k. refuse_slots c k n s now lt enforced exceeds) in
                    inr (inr (lt, enforced, exceeds, simp e refl, simp e refl))
                | inr fits ↦
                    let ok = room c.limits n s below fits in
                    let e = from_word _ pos fit (λ k. grant c k n s now ok) in
                    inl (ok, simp e refl, simp e refl)
              ]
      ]

give_back :
    (c : EventSubscriptionControl) (rounds n s s' now : ℕ)
    → get_subscribers_from_state s' ≡ get_subscribers_from_state s + 1
    → get_subscribed_samples_from_state s' ≡ get_subscribed_samples_from_state s + n
    → s < 2 ^ 24
    → unsubscribe_loop alone (suc rounds) n (at_state c s' now)
      ≡ some (at_state c s (suc (suc now)))
unfolding unsubscribe_loop unsubscribe_round exchange_state compare_exchange
give_back c rounds n s s' now subs slots fit =
    let some_left : (get_subscribers_from_state s' == 0) ≡ false = ground (arith, subs) in
    let enough : ltb (get_subscribed_samples_from_state s') n ≡ false = ground (arith, slots) in
    let one_less : get_subscribers_from_state s' - 1 ≡ get_subscribers_from_state s =
      omega (arith, subs) in
    let less : get_subscribed_samples_from_state s' - n ≡ get_subscribed_samples_from_state s =
      omega (arith, slots) in
    simp (some_left, enough, one_less, less, create_state_of_fields s fit, ==_self s')

-- Without interference, where the word has room for a subscriber and the counts fit their types, Subscribe succeeds and Unsubscribe with the same slots then does not end the process, and restores the word.
pub unsubscribe-subscribe :
    (c : EventSubscriptionControl) (n s : ℕ)
    → Holds c s
    → s < 2 ^ 24
    → c.max_subscribers < 2 ^ 8
    → get_subscribed_samples_from_state s + n < 2 ^ 16
    → HasRoom c.limits n s
    → (c' : EventSubscriptionControl) × ((subscribe alone n c).0 ≡ success)
      × (unsubscribe alone n (subscribe alone n c).1 ≡ some c')
      × Holds c' s
unfolding unsubscribe now
unsubscribe-subscribe c n s holds fit small slots ok =
    let pos : 0 < c.max_subscribers = omega (arith, ok.one_more) in
    let start = c.current_subscription_state.now in
    let granted = from_word c n s holds _ pos small (λ k. grant c k n s start ok) in
    let (subs', slots') =
      create_state_fields ((get_subscribers_from_state s + 1) % 2 ^ 8)
        ((get_subscribed_samples_from_state s + n) % 2 ^ 16) (omega arith) (omega arith) in
    let back =
      give_back c (3 * c.max_subscribers % 2 ^ 16 - 1) n s (added n s) (suc (suc start))
        (omega (arith, subs', ok.one_more)) (omega (arith, slots')) fit in
    (
      at_state c s (suc (suc (suc (suc start)))),
      simp granted,
      simp granted (rw (rounds_suc 3 c.max_subscribers (omega arith) (omega arith) pos small) back),
      refl,
    )
