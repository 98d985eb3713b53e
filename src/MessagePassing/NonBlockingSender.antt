-- ===== src/MessagePassing/NonBlockingSender.antt =====
-- The sender that does not block (message_passing/non_blocking_sender.{h,cpp}). Its queue is a ring
-- buffer of another library, given here by its operations and what they do; the executor runs the
-- task that is submitted to it. A wrapped sender that fails leads to a log entry only.
pub mod Channel
pub mod Simulates
pub mod Runs
use inc_mw_com.Base.{
  ℕ, zero, suc, ◌+◌, ◌-◌, ◌*◌, ◌/◌, ◌%◌, ◌^◌, ◌≤◌, ◌<◌, min, max, ◌≡◌, refl, sym, ap, subst, ◌∙◌,
  ◌≢◌, ◌↔◌, ◌⊎◌, inl, inr, Bool, true, false, not, ◌&&◌, ◌||◌, Option, none, some, List, [], ◌∷◌,
  ◌++◌, map, arith, ltb, leb, ◌==◌, if◌then◌else◌, ltb→lt, ltb→ge, leb→le, leb→gt, ==→eq, ==_self,
  Bool-cases, Option-cases, length, get_elem?, get_or, set, take, drop, All, replicate,
  length-append, length-set, length-replicate, get_or-set_self, get_or-set_ne, set-set, set-get_or,
  get_elem?-set_self, get_elem?-set_ne, get_elem?-set, set_unchanged, get_elem?-append_length,
  length-map, get_elem?-map, get_elem?-replicate, ◌>>=◌, ◌>>◌, require, >>=-eq-some, some_eq,
  IfSome, IfSome-bind, IfSome-any, IfSome_eq, Interference, Words, alone, seen, load, store,
  fetch_modify, compare_exchange, Exchanged, compare_exchange_lem,
}
use inc_mw_com.MessagePassing.{
  MediumMessage, Message, short_message, medium_message, RawMessageType, stop_type, short_type,
  medium_type, type_code, max_message_size, message_type_position, message_id_position,
  message_pid_position, message_start_payload,
}

-- bmw::memory::PmrRingBuffer, with the messages that it holds and their greatest number.
pub record RingBuffer : Type 1 where
  pub Buffer : Type 0
  pub ring_buffer : ℕ → Buffer
  pub full : Buffer → Bool
  pub is_empty : Buffer → Bool
  pub size : Buffer → ℕ
  pub front : Buffer → Option Message
  pub emplace_back : Message → Buffer → Buffer
  pub pop_front : Buffer → Buffer
  pub contents : Buffer → List Message
  pub capacity : Buffer → ℕ

pub record RingBufferLaws (R : RingBuffer) : Type 0 where
  pub contents_new : (n : ℕ) → R.contents (R.ring_buffer n) ≡ []
  pub capacity_new : (n : ℕ) → R.capacity (R.ring_buffer n) ≡ n
  pub full_lem : (b : R.Buffer) → R.full b ≡ leb (R.capacity b) (length (R.contents b))
  pub is_empty_lem : (b : R.Buffer) → R.is_empty b ≡ (length (R.contents b) == 0)
  pub size_lem : (b : R.Buffer) → R.size b ≡ length (R.contents b)
  pub front_lem :
      (b : R.Buffer) (m : Message) (ms : List Message) → R.contents b ≡ m ∷ ms → R.front b ≡ some m
  pub emplace_back_lem :
      (b : R.Buffer) (m : Message)
      → length (R.contents b) < R.capacity b
      → (R.contents (R.emplace_back m b) ≡ R.contents b ++ m ∷ [])
        × (R.capacity (R.emplace_back m b) ≡ R.capacity b)
  pub pop_front_lem :
      (b : R.Buffer) (m : Message) (ms : List Message)
      → R.contents b ≡ m ∷ ms
      → (R.contents (R.pop_front b) ≡ ms) × (R.capacity (R.pop_front b) ≡ R.capacity b)

-- Where the task that empties the queue stands: there is none, it is about to look at its token, or it
-- has handed the first message over, which is still in the queue.
pub data Task : Type 0 where
  no_task at_token handed_front : Task

-- `handed_over` are the messages that the wrapped sender got.
pub record NonBlockingSender (R : RingBuffer) : Type 0 where
  pub queue : R.Buffer
  pub task : Task
  pub handed_over : List Message

abbrev pub queue_size_upper_limit : ℕ
queue_size_upper_limit = 100

module _ (R : RingBuffer) where
  unfoldable pub non_blocking_sender : ℕ → Option (NonBlockingSender R)
  non_blocking_sender max_queue_size = do
    require (leb max_queue_size queue_size_upper_limit)
    some (record { queue = R.ring_buffer max_queue_size; task = no_task; handed_over = [] })

  -- The message that is put into an empty queue starts the task. The result is false for EAGAIN.
  abbrev pub enqueue : Message → NonBlockingSender R → NonBlockingSender R
  enqueue m s =
      let queue' = R.emplace_back m s.queue in
      record s { queue = queue'; task = if R.size queue' == 1 then at_token else s.task }

  unfoldable pub send_internal : Bool → Message → NonBlockingSender R → Bool × NonBlockingSender R
  send_internal shutdown_requested m s =
      if R.full s.queue || shutdown_requested then (false, s) else (true, enqueue m s)

  -- The front of an empty queue is no message: undefined behaviour.
  abbrev pub hand_over : Option Message → NonBlockingSender R → Option (NonBlockingSender R)
  hand_over none s = none
  hand_over (some m) s =
      some (record s { task = handed_front; handed_over = s.handed_over ++ m ∷ [] })

  abbrev pub task_step : Task → Bool → NonBlockingSender R → Option (NonBlockingSender R)
  task_step no_task stop_requested s = some s
  task_step at_token stop_requested s =
      if stop_requested then some (record s { task = no_task }) else hand_over (R.front s.queue) s
  task_step handed_front stop_requested s =
      let queue' = R.pop_front s.queue in
      some (record s { queue = queue'; task = if R.is_empty queue' then no_task else at_token })

  -- The loop of SendQueueElements up to its next access to what it shares with Send.
  unfoldable pub send_queue_elements_step :
      Bool → NonBlockingSender R → Option (NonBlockingSender R)
  send_queue_elements_step stop_requested s = task_step s.task stop_requested s

  -- The destructor asks the task to stop, and waits for it.
  unfoldable pub abort_and_wait : NonBlockingSender R → Option (NonBlockingSender R)
  unfolding send_queue_elements_step
  abort_and_wait s = send_queue_elements_step true s >>= send_queue_elements_step true
