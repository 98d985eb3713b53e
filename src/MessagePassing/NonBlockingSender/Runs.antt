-- ===== src/MessagePassing/NonBlockingSender/Runs.antt =====
-- Threads that send, and the task that empties the queue, in any interleaving
-- (message_passing/non_blocking_sender.cpp).
use mathlib.Core.List.{append_assoc}
use inc_mw_com.Base.{
  ℕ, zero, suc, ◌≤◌, ◌<◌, ◌≡◌, refl, ap, subst, ◌∙◌, Bool, true, false, Option, none, some, List,
  [], ◌∷◌, ◌++◌, arith, leb, ◌==◌, if◌then◌else◌, length, ◌>>=◌, >>=-eq-some,
}
use inc_mw_com.MessagePassing.{Message}
use inc_mw_com.MessagePassing.NonBlockingSender.{
  RingBuffer, RingBufferLaws, no_task, at_token, NonBlockingSender, queue_size_upper_limit,
  non_blocking_sender, send_internal, send_queue_elements_step,
}
use inc_mw_com.MessagePassing.NonBlockingSender.Channel.{
  channel, Label, internal, ChannelRun, done, next, accepted_messages, run_history,
}
use inc_mw_com.MessagePassing.NonBlockingSender.Simulates.{
  waiting, send_label, abstract_channel, IsSound, send_lem, task_lem,
}

-- A call of Send, with the answer of the executor, or a step of the task, with the answer of its token.
pub data Access : Type 0 where
  sends : Bool → Message → Access
  works : Bool → Access

module _ (R : RingBuffer) where
  abbrev pub labelled :
      Label → Option (List Label × NonBlockingSender R) → Option (List Label × NonBlockingSender R)
  labelled l none = none
  labelled l (some (ls, s)) = some (l ∷ ls, s)

  unfoldable pub run : List Access → NonBlockingSender R → Option (List Label × NonBlockingSender R)
  run [] s = some ([], s)
  run (sends shutdown m ∷ accesses) s =
      let (ok, s') = send_internal R shutdown m s in labelled (send_label ok m) (run accesses s')
  run (works stop ∷ accesses) s = do
    s' ← send_queue_elements_step R stop s
    labelled internal (run accesses s')

  module _ (laws : RingBufferLaws R) where
    -- What a run leads to, and that the channel can do the same.
    abbrev pub Refines : ℕ → List Access → NonBlockingSender R → Type 0
    Refines bound accesses s =
        (ls : List Label) × (s' : NonBlockingSender R) × (run accesses s ≡ some (ls, s'))
        × IsSound R bound s'
        × ChannelRun bound ls (abstract_channel R s) (abstract_channel R s')

    run_lem :
        (bound : ℕ) (accesses : List Access) (s : NonBlockingSender R)
        → IsSound R bound s
        → Refines bound accesses s
    unfolding run
    run_lem bound [] s ok = ([], s, refl, ok, done (abstract_channel R s))
    run_lem bound (sends shutdown m ∷ accesses) s ok =
        let (ok₁, first) = send_lem R laws bound shutdown m s ok in
        let (sent, s₁) = send_internal R shutdown m s in
        let (ls, s', e, ok', later) = run_lem bound accesses s₁ ok₁ in
        (
          send_label sent m ∷ ls,
          s',
          simp e,
          ok',
          next (send_label sent m) ls _ (abstract_channel R s₁) _ first later,
        )
    run_lem bound (works stop ∷ accesses) s ok =
        let (s₁, e₁, ok₁, first) = task_lem R laws bound stop s ok in
        let (ls, s', e, ok', later) = run_lem bound accesses s₁ ok₁ in
        (
          internal ∷ ls,
          s',
          simp (e₁, e),
          ok',
          next internal ls _ (abstract_channel R s₁) _ first later,
        )

    new_sender :
        (n : ℕ)
        → n ≤ queue_size_upper_limit
        → (s : NonBlockingSender R) × (non_blocking_sender R n ≡ some s)
          × IsSound R n s
          × (abstract_channel R s ≡ channel [] [])
    unfolding non_blocking_sender
    new_sender n h =
        let fits : leb n queue_size_upper_limit ≡ true = ground arith in
        (
          record { queue = R.ring_buffer n; task = no_task; handed_over = [] },
          simp fits,
          record { has_work = tt; bounded = laws.capacity_new n },
          simp (laws.contents_new n),
        )

    -- In any interleaving of calls of Send with steps of the task, a new sender for `n` messages, at most 100, does not fail, and does what a channel that is bounded by `n` can do: it accepts and refuses the same messages, and has the same ones in flight and delivered.
    pub run_refines :
        (n : ℕ) (accesses : List Access)
        → n ≤ queue_size_upper_limit
        → (s₀ s : NonBlockingSender R) × (ls : List Label) × (non_blocking_sender R n ≡ some s₀)
          × (run accesses s₀ ≡ some (ls, s))
          × ChannelRun n ls (channel [] []) (abstract_channel R s)
    run_refines n accesses h =
        let (s₀, made, ok, start) = new_sender n h in
        let (ls, s, e, ok', steps) = run_lem n accesses s₀ ok in
        (s₀, s, ls, made, e, subst (λ c. ChannelRun n ls c (abstract_channel R s)) start steps)

    -- In any such interleaving, the messages that the wrapped sender got, followed by those still waiting, are the accepted ones in the order of acceptance: none is lost, doubled or overtaken.
    pub run_in_order :
        (n : ℕ) (accesses : List Access)
        → n ≤ queue_size_upper_limit
        → (s₀ s : NonBlockingSender R) × (ls : List Label) × (non_blocking_sender R n ≡ some s₀)
          × (run accesses s₀ ≡ some (ls, s))
          × (s.handed_over ++ waiting s.task (R.contents s.queue) ≡ accepted_messages ls)
    run_in_order n accesses h =
        let (s₀, s, ls, made, e, steps) = run_refines n accesses h in
        (s₀, s, ls, made, e, run_history n ls (channel [] []) (abstract_channel R s) steps)

    -- A round of the loop that does not stop.
    round :
        (m : Message) (ms : List Message) (s : NonBlockingSender R)
        → s.task ≡ at_token
        → R.contents s.queue ≡ m ∷ ms
        → (s' : NonBlockingSender R) × ((send_queue_elements_step R false s
              >>= send_queue_elements_step R false)
            ≡ some s')
          × (s'.task ≡ (if length ms == 0 then no_task else at_token))
          × (R.contents s'.queue ≡ ms)
          × (s'.handed_over ≡ s.handed_over ++ m ∷ [])
    unfolding send_queue_elements_step
    round m ms s e c =
        let out = s.handed_over ++ m ∷ [] in
        let queue' = R.pop_front s.queue in
        let (rest, cap) = laws.pop_front_lem s.queue m ms c in
        (
          record {
            queue = queue';
            task = if R.is_empty queue' then no_task else at_token;
            handed_over = out;
          },
          simp (e, laws.front_lem s.queue m ms c),
          simp (laws.is_empty_lem queue', rest),
          rest,
          refl,
        )

    -- Two steps for each message.
    abbrev pub rounds : ℕ → List Access
    rounds zero = []
    rounds (suc n) = works false ∷ works false ∷ rounds n

    abbrev HandsOver : List Message → NonBlockingSender R → Type 0
    HandsOver ms s =
        (ls : List Label) × (s' : NonBlockingSender R) × (run (rounds (length ms)) s
          ≡ some (ls, s'))
        × (s'.task ≡ no_task)
        × (R.contents s'.queue ≡ [])
        × (s'.handed_over ≡ s.handed_over ++ ms)

    two_steps :
        (accesses : List Access) (s s' : NonBlockingSender R)
        → (send_queue_elements_step R false s >>= send_queue_elements_step R false) ≡ some s'
        → run (works false ∷ works false ∷ accesses) s
          ≡ labelled internal (labelled internal (run accesses s'))
    unfolding run
    two_steps accesses s s' h =
        let (s₁, first, second) =
          >>=-eq-some (send_queue_elements_step R false s) (send_queue_elements_step R false) h in
        simp (first, second)

    labelled_end :
        (s : NonBlockingSender R)
        → labelled internal (labelled internal (run [] s)) ≡ some (internal ∷ internal ∷ [], s)
    unfolding run
    labelled_end s = refl

    hands_over :
        (m : Message) (ms : List Message) (s : NonBlockingSender R)
        → s.task ≡ at_token
        → R.contents s.queue ≡ m ∷ ms
        → HandsOver (m ∷ ms) s
    hands_over m [] s e c =
        let (s', two, t, rest, out) = round m [] s e c in
        (internal ∷ internal ∷ [], s', two_steps [] s s' two ∙ labelled_end s', t, rest, out)
    hands_over m (m' ∷ ms) s e c =
        let (s₁, two, t, rest, out) = round m (m' ∷ ms) s e c in
        let more : (length (m' ∷ ms) == 0) ≡ false = ground arith in
        let (ls, s', again, t', rest', out') = hands_over m' ms s₁ (simp more at t) rest in
        (
          internal ∷ internal ∷ ls,
          s',
          two_steps (rounds (length (m' ∷ ms))) s s₁ two
              ∙ ap (λ r. labelled internal (labelled internal r)) again,
          t',
          rest',
          out' ∙ ap (λ xs. xs ++ m' ∷ ms) out ∙ append_assoc s.handed_over (m ∷ []) (m' ∷ ms),
        )

    -- Once the task runs, and its token never asks to stop, two steps for each message in the queue hand all of them over, in order, and end the task with an empty queue.
    pub all_handed_over :
        (s : NonBlockingSender R)
        → s.task ≡ at_token
        → 0 < length (R.contents s.queue)
        → (ls : List Label) × (s' : NonBlockingSender R) × (run
              (rounds (length (R.contents s.queue)))
              s
            ≡ some (ls, s'))
          × (s'.task ≡ no_task)
          × (R.contents s'.queue ≡ [])
          × (s'.handed_over ≡ s.handed_over ++ R.contents s.queue)
    all_handed_over s e h = by_contents (R.contents s.queue) refl h
      where
        by_contents : (ms : List Message) → R.contents s.queue ≡ ms → 0 < length ms → HandsOver ms s
        by_contents [] c h = absurd (omega arith)
        by_contents (m ∷ ms) c h = hands_over m ms s e c
