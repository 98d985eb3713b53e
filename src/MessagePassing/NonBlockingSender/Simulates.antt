-- ===== src/MessagePassing/NonBlockingSender/Simulates.antt =====
-- The non-blocking sender beside a bounded channel (message_passing/non_blocking_sender.cpp).
use inc_mw_com.Base.{
  ℕ, ◌≤◌, ◌<◌, ◌≡◌, refl, sym, ap, subst, ◌∙◌, inl, inr, Bool, true, false, ◌||◌, some, List, [],
  ◌∷◌, ◌++◌, arith, ◌==◌, if◌then◌else◌, Bool-cases, length, length-append,
}
use inc_mw_com.MessagePassing.{Message}
use inc_mw_com.MessagePassing.NonBlockingSender.{
  RingBuffer, RingBufferLaws, Task, no_task, at_token, handed_front, NonBlockingSender, enqueue,
  send_internal, task_step, send_queue_elements_step,
}
use inc_mw_com.MessagePassing.NonBlockingSender.Channel.{
  Channel, channel, Label, accepted, refused, internal, ChannelStep, accepts, refuses, delivers,
  waits,
}

-- A message that was handed over stays in the queue for a while.
abbrev pub waiting : Task → List Message → List Message
waiting no_task ms = ms
waiting at_token ms = ms
waiting handed_front [] = []
waiting handed_front (m ∷ ms) = ms

-- A task runs only while there is something in the queue.
abbrev pub HasWork : Task → List Message → Type 0
HasWork no_task ms = Unit
HasWork at_token ms = 0 < length ms
HasWork handed_front ms = 0 < length ms

abbrev pub send_label : Bool → Message → Label
send_label true m = accepted m
send_label false m = refused m

module _ (R : RingBuffer) where
  abbrev pub abstract_channel : NonBlockingSender R → Channel
  abstract_channel s = channel (waiting s.task (R.contents s.queue)) s.handed_over

  pub record IsSound (bound : ℕ) (s : NonBlockingSender R) : Type 0 where
    pub has_work : HasWork s.task (R.contents s.queue)
    pub bounded : R.capacity s.queue ≡ bound

  module _ (laws : RingBufferLaws R) where
    waiting-snoc :
        (t : Task) (ms : List Message) (m : Message)
        → HasWork t ms
        → waiting t (ms ++ m ∷ []) ≡ waiting t ms ++ m ∷ []
    waiting-snoc no_task ms m h = refl
    waiting-snoc at_token ms m h = refl
    waiting-snoc handed_front [] m h = absurd (omega arith)
    waiting-snoc handed_front (x ∷ ms) m h = refl

    waiting_le : (t : Task) (ms : List Message) → length (waiting t ms) ≤ length ms
    waiting_le no_task ms = omega arith
    waiting_le at_token ms = omega arith
    waiting_le handed_front [] = omega arith
    waiting_le handed_front (x ∷ ms) = omega arith

    -- The task after a message is put behind the others.
    started :
        (t : Task) (ms : List Message) (m : Message)
        → HasWork t ms
        → let t' = if length (ms ++ m ∷ []) == 1 then at_token else t in
          HasWork t' (ms ++ m ∷ []) × (waiting t' (ms ++ m ∷ []) ≡ waiting t ms ++ m ∷ [])
    started no_task [] m h = (omega arith, refl)
    started at_token [] m h = absurd (omega arith)
    started handed_front [] m h = absurd (omega arith)
    started t (x ∷ ms) m h =
        let more : (length (x ∷ ms ++ m ∷ []) == 1) ≡ false =
          ground (arith, length-append ms (m ∷ [])) in
        simp more (still t h, waiting-snoc t (x ∷ ms) m h)
      where
        still : (t : Task) → HasWork t (x ∷ ms) → HasWork t (x ∷ ms ++ m ∷ [])
        still no_task h = tt
        still at_token h = omega arith
        still handed_front h = omega arith

    enqueue_lem :
        (bound : ℕ) (m : Message) (s : NonBlockingSender R)
        → IsSound bound s
        → length (R.contents s.queue) < bound
        → IsSound bound (enqueue R m s)
          × ChannelStep bound (accepted m) (abstract_channel s) (abstract_channel (enqueue R m s))
    enqueue_lem bound m s ok room =
        let ms = R.contents s.queue in
        let queue' = R.emplace_back m s.queue in
        let (back, cap) = laws.emplace_back_lem s.queue m (omega (arith, ok.bounded)) in
        let (work, flying) = started s.task ms m ok.has_work in
        let few : length (waiting s.task ms) < bound = omega (arith, waiting_le s.task ms) in
        (
          record { has_work = simp (laws.size_lem queue', back) work; bounded = cap ∙ ok.bounded },
          subst (λ w. ChannelStep bound (accepted m) (abstract_channel s) (channel w s.handed_over))
              (sym (simp (laws.size_lem queue', back) flying))
              (accepts (waiting s.task ms) s.handed_over m few),
        )

    -- Send accepts a message while there is room and the executor is not shutting down, and refuses it otherwise.
    pub send_lem :
        (bound : ℕ) (shutdown : Bool) (m : Message) (s : NonBlockingSender R)
        → IsSound bound s
        → let (ok, s') = send_internal R shutdown m s in
          IsSound bound s'
          × ChannelStep bound (send_label ok m) (abstract_channel s) (abstract_channel s')
    unfolding send_internal
    send_lem bound shutdown m s ok = elim (Bool-cases (R.full s.queue || shutdown)) [
      | inl e ↦ simp e (ok, refuses (abstract_channel s) m)
      | inr e ↦ simp e (enqueue_lem bound m s ok (room e))
    ]
      where
        room : (R.full s.queue || shutdown) ≡ false → length (R.contents s.queue) < bound
        room e = let full = laws.full_lem s.queue in let b = ok.bounded in ground arith

    transport_step :
        {bound : ℕ} {a a' b b' : Channel}
        → a ≡ a'
        → b ≡ b'
        → ChannelStep bound internal a' b'
        → ChannelStep bound internal a b
    transport_step {bound} {a} {a'} {b} {b'} p q h =
        subst (λ x. ChannelStep bound internal x b) (sym p)
          (subst (λ y. ChannelStep bound internal a' y) (sym q) h)

    -- The task after a message was taken out.
    next_task :
        (ms : List Message)
        → let t = if length ms == 0 then no_task else at_token in HasWork t ms × (waiting t ms ≡ ms)
    next_task [] = (tt, refl)
    next_task (m ∷ ms) =
        let some_left : (length (m ∷ ms) == 0) ≡ false = ground arith in
        simp some_left (omega arith, refl)

    -- A step of the task does not fail.
    pub task_lem :
        (bound : ℕ) (stop : Bool) (s : NonBlockingSender R)
        → IsSound bound s
        → (s' : NonBlockingSender R) × (send_queue_elements_step R stop s ≡ some s')
          × IsSound bound s'
          × ChannelStep bound internal (abstract_channel s) (abstract_channel s')
    unfolding send_queue_elements_step
    task_lem bound stop s ok = by_task s.task (R.contents s.queue) refl refl ok.has_work
      where
        by_task :
            (t : Task) (ms : List Message)
            → s.task ≡ t
            → R.contents s.queue ≡ ms
            → HasWork t ms
            → (s' : NonBlockingSender R) × (task_step R t stop s ≡ some s')
              × IsSound bound s'
              × ChannelStep bound internal (abstract_channel s) (abstract_channel s')
        by_task no_task ms e c h = (s, refl, ok, waits (abstract_channel s))
        by_task at_token [] e c h = absurd (omega arith)
        by_task at_token (m ∷ ms) e c h =
            let before = ap (λ t. channel (waiting t (R.contents s.queue)) s.handed_over) e in
            elim (Bool-cases stop) [
              | inl b ↦ (
                record s { task = no_task },
                simp b,
                record { has_work = tt; bounded = ok.bounded },
                subst
                    (λ a. ChannelStep bound internal a (channel (R.contents s.queue) s.handed_over))
                    (sym before) (waits (channel (R.contents s.queue) s.handed_over)),
              )
              | inr b ↦
                  let out = s.handed_over ++ m ∷ [] in
                  (
                    record s { task = handed_front; handed_over = out },
                    simp (b, laws.front_lem s.queue m ms c),
                    record { has_work = simp c h; bounded = ok.bounded },
                    transport_step (before ∙ ap (λ xs. channel xs s.handed_over) c)
                        (ap (λ xs. channel (waiting handed_front xs) out) c)
                        (delivers ms s.handed_over m),
                  )
            ]
        by_task handed_front [] e c h = absurd (omega arith)
        by_task handed_front (m ∷ ms) e c h =
            let queue' = R.pop_front s.queue in
            let (rest, cap) = laws.pop_front_lem s.queue m ms c in
            let (work, flying) = next_task ms in
            (
              record s { queue = queue'; task = if R.is_empty queue' then no_task else at_token },
              refl,
              record {
                has_work = simp (laws.is_empty_lem queue', rest) work;
                bounded = cap ∙ ok.bounded;
              },
              transport_step
                  (ap (λ t. channel (waiting t (R.contents s.queue)) s.handed_over) e
                    ∙ ap (λ xs. channel (waiting handed_front xs) s.handed_over) c)
                  (ap (λ xs. channel xs s.handed_over)
                    (simp (laws.is_empty_lem queue', rest) flying))
                  (waits (channel ms s.handed_over)),
            )
