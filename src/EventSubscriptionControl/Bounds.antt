-- ===== src/EventSubscriptionControl/Bounds.antt =====
-- Subscribing among other processes, and the configured bounds (event_subscription_control.cpp).
use inc_mw_com.Base.{
  ℕ, zero, suc, ◌+◌, ◌*◌, ◌%◌, ◌^◌, ◌≤◌, ◌<◌, ◌≡◌, refl, sym, subst, ◌⊎◌, inl, inr, Bool, true,
  false, ◌&&◌, Option, none, some, arith, ltb, leb, if◌then◌else◌, leb→le, leb→gt, Bool-cases,
  get_or, Interference, Words, seen, store, compare_exchange, look, Exchanged, compare_exchange_lem,
  Waited, untouched, looked,
}
use inc_mw_com.EventSubscriptionControl.{
  SubscribeResult, success, max_subscribers_overflow, slot_overflow, update_retry_failure, Limits,
  EventSubscriptionControl, get_subscribers_from_state, get_subscribed_samples_from_state,
  create_state, with_state, after_round, exchange_state, subscribe_round, subscribe_loop, subscribe,
}
use inc_mw_com.EventSubscriptionControl.Fields.{create_state_fields}

-- A subscriber with `n` slots added to the word `s`.
abbrev pub added : ℕ → ℕ → ℕ
added n s =
    create_state ((get_subscribers_from_state s + 1) % 2 ^ 8)
      ((get_subscribed_samples_from_state s + n) % 2 ^ 16)

-- The word has room for a subscriber with `n` slots.
pub record HasRoom (limits : Limits) (n s : ℕ) : Type 0 where
  pub one_more : get_subscribers_from_state s < limits.max_subscribers
  pub enough :
      limits.enforce_max_samples ≡ true
      → get_subscribed_samples_from_state s + n ≤ limits.max_subscribable_slots

pub room :
    (limits : Limits) (n s : ℕ)
    → leb limits.max_subscribers (get_subscribers_from_state s) ≡ false
    → (limits.enforce_max_samples
        && ltb limits.max_subscribable_slots (get_subscribed_samples_from_state s + n))
      ≡ false
    → HasRoom limits n s
room limits n s h k = record { one_more = leb→gt _ _ h; enough = λ e. ground arith }

-- The slots do not fit any more.
abbrev pub Overfull : Limits → ℕ → ℕ → Type 0
Overfull limits n state =
    (limits.enforce_max_samples ≡ true)
    × (limits.max_subscribable_slots < get_subscribed_samples_from_state state + n)

overfull :
    (limits : Limits) (n s : ℕ)
    → (limits.enforce_max_samples
        && ltb limits.max_subscribable_slots (get_subscribed_samples_from_state s + n))
      ≡ true
    → Overfull limits n s
overfull limits n s h = (ground arith, ground arith)

module _ (env : Interference) where
  -- From `s` on, the process wrote once: the subscriber was added to the word as it was at that access.
  abbrev pub Subscribes : Limits → ℕ → Words → Words → Type 0
  Subscribes limits n s after =
      (w : Words) × Waited env s w
      × HasRoom limits n (get_or (seen env w) 0 0)
      × (after ≡ store env 0 (added n (get_or (seen env w) 0 0)) w)

  -- From `s` on, nothing was written, and the last access found a word as `P` says.
  abbrev pub Found : (ℕ → Type 0) → Words → Words → Type 0
  Found P s after =
      (w : Words) × Waited env s w × P (get_or (seen env w) 0 0) × (after ≡ look env w)

  -- What a call of Subscribe does to the word, by its result.
  abbrev pub AfterSubscribe : Limits → ℕ → Words → SubscribeResult → Words → Type 0
  AfterSubscribe limits n s success after = Subscribes limits n s after
  AfterSubscribe limits n s max_subscribers_overflow after =
      Found (λ state. limits.max_subscribers ≤ get_subscribers_from_state state) s after
  AfterSubscribe limits n s slot_overflow after = Found (Overfull limits n) s after
  AfterSubscribe limits n s update_retry_failure after = Waited env s after

  abbrev SubscribeRound :
      Limits → ℕ → Words → Option SubscribeResult × EventSubscriptionControl → Type 0
  SubscribeRound limits n s (some r, c) = AfterSubscribe limits n s r c.current_subscription_state
  SubscribeRound limits n s (none, c) =
      Waited env s c.current_subscription_state × (c.limits ≡ limits)

  exchange_lem :
      (limits : Limits) (n state : ℕ) (s : Words) (c : EventSubscriptionControl)
      → c.limits ≡ limits
      → HasRoom limits n state
      → Waited env s c.current_subscription_state
      → SubscribeRound limits n s (exchange_state env success state (added n state) c)
  unfolding exchange_state
  exchange_lem limits n state s c same ok past =
      split (compare_exchange env true 0 state (added n state) c.current_subscription_state)
        (compare_exchange_lem env true 0 state (added n state) c.current_subscription_state)
    where
      split :
          (r : Bool × Words)
          → Exchanged env 0 state (added n state) c.current_subscription_state r
          → SubscribeRound limits n s (if r.0 then some success else none, with_state c r.1)
      split (true, w) (found, put) = (c.current_subscription_state, past, rw found ok, rw found put)
      split (false, w) kept = (subst (Waited env s) (sym kept) (looked past), same)

  subscribe_round_lem :
      (limits : Limits) (n : ℕ) (s : Words) (c : EventSubscriptionControl)
      → c.limits ≡ limits
      → Waited env s c.current_subscription_state
      → SubscribeRound limits n s (subscribe_round env n c)
  unfolding subscribe_round
  subscribe_round_lem limits n s c same past =
      let before = c.current_subscription_state in
      let state = get_or (seen env before) 0 0 in
      elim (Bool-cases (leb c.max_subscribers (get_subscribers_from_state state))) [
        | inl full ↦ simp full (
          before,
          past,
          subst (λ (l : Limits). l.max_subscribers ≤ get_subscribers_from_state state) same
              (leb→le _ _ full),
          refl,
        )
        | inr below ↦
            elim (Bool-cases (
              c.enforce_max_samples
              && ltb c.max_subscribable_slots (get_subscribed_samples_from_state state + n))) [
                | inl over ↦
                    simp (below, over)
                      (
                        before,
                        past,
                        subst (λ l. Overfull l n state) same (overfull c.limits n state over),
                        refl,
                      )
                | inr fits ↦
                    simp (below, fits)
                      (exchange_lem limits n state s (with_state c (look env before)) same
                        (subst (λ l. HasRoom l n state) same (room c.limits n state below fits))
                        (looked past))
              ]
      ]

  subscribe_loop_lem :
      (limits : Limits) (rounds n : ℕ) (s : Words) (c : EventSubscriptionControl)
      → c.limits ≡ limits
      → Waited env s c.current_subscription_state
      → AfterSubscribe limits n s
          (subscribe_loop env rounds n c).0
          (subscribe_loop env rounds n c).1.current_subscription_state
  unfolding subscribe_loop
  subscribe_loop_lem limits zero n s c same past = past
  subscribe_loop_lem limits (suc rounds) n s c same past =
      split (subscribe_round env n c) (subscribe_round_lem limits n s c same past)
        (subscribe_loop_lem limits rounds n s)
    where
      next :
          Option SubscribeResult × EventSubscriptionControl
          → SubscribeResult × EventSubscriptionControl
      next = after_round (λ r c₁. (r, c₁)) (subscribe_loop env rounds n)

      split :
          (r : Option SubscribeResult × EventSubscriptionControl)
          → SubscribeRound limits n s r
          → ((c₁ : EventSubscriptionControl)
              → c₁.limits ≡ limits
              → Waited env s c₁.current_subscription_state
              → AfterSubscribe limits n s
                  (subscribe_loop env rounds n c₁).0
                  (subscribe_loop env rounds n c₁).1.current_subscription_state)
          → AfterSubscribe limits n s (next r).0 (next r).1.current_subscription_state
      split (some r, c₁) a ih = a
      split (none, c₁) (past₁, same₁) ih = ih c₁ same₁ past₁

  -- Whatever other processes do meanwhile: a Subscribe that succeeds has written once, adding one subscriber with its slots to the word as it was at that access, which counted fewer subscribers than max_subscribers and, where samples are enforced, left room for the slots; any other result comes without a write, max_subscribers_overflow only if the last access found max_subscribers or more, slot_overflow only if samples are enforced and the last access found too few slots left.
  pub subscribe_lem :
      (n : ℕ) (c : EventSubscriptionControl)
      → AfterSubscribe c.limits n c.current_subscription_state
          (subscribe env n c).0
          (subscribe env n c).1.current_subscription_state
  unfolding subscribe
  subscribe_lem n c =
      subscribe_loop_lem c.limits (2 * c.max_subscribers % 2 ^ 16) n c.current_subscription_state c
        refl untouched

-- The counts of a word are within the limits.
pub record IsWithin (limits : Limits) (s : ℕ) : Type 0 where
  pub subscribers : get_subscribers_from_state s ≤ limits.max_subscribers
  pub slots :
      limits.enforce_max_samples ≡ true
      → get_subscribed_samples_from_state s ≤ limits.max_subscribable_slots

-- With limits that fit their types, adding a subscriber where there is room counts exactly one subscriber more and, where samples are enforced, exactly its slots more, and the word stays within the limits.
pub added-IsWithin :
    (limits : Limits) (n s : ℕ)
    → limits.max_subscribers < 2 ^ 8
    → limits.max_subscribable_slots < 2 ^ 16
    → HasRoom limits n s
    → IsWithin limits (added n s)
      × (get_subscribers_from_state (added n s) ≡ get_subscribers_from_state s + 1)
      × ((limits.enforce_max_samples ≡ false)
          ⊎ (get_subscribed_samples_from_state (added n s)
              ≡ get_subscribed_samples_from_state s + n))
added-IsWithin limits n s hs hn ok =
    let (subs, slots) =
      create_state_fields ((get_subscribers_from_state s + 1) % 2 ^ 8)
        ((get_subscribed_samples_from_state s + n) % 2 ^ 16) (omega arith) (omega arith) in
    (
      record {
        subscribers = omega (arith, subs, ok.one_more);
        slots = λ e. omega (arith, slots, ok.enough e);
      },
      omega (arith, subs, ok.one_more),
      elim (Bool-cases limits.enforce_max_samples) [
        | inl e ↦ inr (omega (arith, slots, ok.enough e))
        | inr e ↦ inl e
      ],
    )
