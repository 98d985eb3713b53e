-- ===== src/Tests/Sending.antt =====
-- Messages as bytes, and a queue of messages that is a list (serializer.cpp, non_blocking_sender.cpp).
use inc_mw_com.Base.{
  ℕ, ◌+◌, ◌^◌, ◌≡◌, refl, false, Option, none, some, List, [], ◌∷◌, ◌++◌, arith, leb, ◌==◌, length,
  get_elem?, replicate,
}
use inc_mw_com.Messages.{ShortMessage}
use inc_mw_com.MessagePassing.{
  MediumMessage, Message, short_message, medium_message, short_type, medium_type, type_code,
  max_message_size, message_type_position,
}
use inc_mw_com.MessagePassing.Serializer.{
  serialize_short_message, serialize_medium_message, deserialize_to_short_message,
  deserialize_to_medium_message,
}
use inc_mw_com.MessagePassing.RoundTrip.{
  deserialize-serialize_short_message, deserialize-serialize_medium_message,
}
use inc_mw_com.MessagePassing.NonBlockingSender.{
  RingBuffer, RingBufferLaws, no_task, at_token, NonBlockingSender, non_blocking_sender,
}
use inc_mw_com.MessagePassing.NonBlockingSender.Channel.{channel, Label, ChannelRun}
use inc_mw_com.MessagePassing.NonBlockingSender.Simulates.{abstract_channel}
use inc_mw_com.MessagePassing.NonBlockingSender.Runs.{
  Access, sends, works, run, run_refines, rounds, all_handed_over,
}

abbrev short : ShortMessage
short = record { id = 3; pid = 70000; payload = 2 ^ 40 + 5 }

deserialize-serialize_short_message_example :
    (deserialize_to_short_message (serialize_short_message short) ≡ short)
    × (get_elem? (serialize_short_message short) message_type_position
        ≡ some (type_code short_type))
    × (length (serialize_short_message short) ≡ max_message_size)
deserialize-serialize_short_message_example =
    deserialize-serialize_short_message short
      (record { id_fits = omega arith; pid_fits = omega arith; payload_fits = omega arith })

abbrev medium : MediumMessage
medium = record { id = 4; pid = 70000; payload = 9 ∷ 8 ∷ replicate 14 7 }

deserialize-serialize_medium_message_example :
    (deserialize_to_medium_message (serialize_medium_message medium) ≡ medium)
    × (get_elem? (serialize_medium_message medium) message_type_position
        ≡ some (type_code medium_type))
    × (length (serialize_medium_message medium) ≡ max_message_size)
deserialize-serialize_medium_message_example =
    deserialize-serialize_medium_message medium
      (record { id_fits = omega arith; pid_fits = omega arith; payload_fits = refl })

-- A ring buffer as a list with its greatest length.
abbrev head_of : List Message → Option Message
head_of [] = none
head_of (m ∷ ms) = some m

abbrev tail_of : List Message → List Message
tail_of [] = []
tail_of (m ∷ ms) = ms

abbrev list_buffer : RingBuffer
list_buffer = record {
  Buffer = ℕ × List Message;
  ring_buffer = λ n. (n, []);
  full = λ b. leb b.0 (length b.1);
  is_empty = λ b. length b.1 == 0;
  size = λ b. length b.1;
  front = λ b. head_of b.1;
  emplace_back = λ m b. (b.0, b.1 ++ m ∷ []);
  pop_front = λ b. (b.0, tail_of b.1);
  contents = λ b. b.1;
  capacity = λ b. b.0;
}

list_buffer_laws : RingBufferLaws list_buffer
list_buffer_laws = record {
  contents_new = λ n. refl;
  capacity_new = λ n. refl;
  full_lem = λ b. refl;
  is_empty_lem = λ b. refl;
  size_lem = λ b. refl;
  front_lem = λ b m ms e. simp e;
  emplace_back_lem = λ b m h. (refl, refl);
  pop_front_lem = λ b m ms e. (simp e, refl);
}

-- Three messages are sent while the task works; the second one finds the queue of one full.
abbrev accesses : List Access
accesses =
    sends false (short_message short)
    ∷ works false
    ∷ sends false (medium_message medium)
    ∷ works false
    ∷ sends false (short_message short)
    ∷ []

run_refines_example :
    (s₀ s : NonBlockingSender list_buffer) × (ls : List Label) × (non_blocking_sender list_buffer 1
      ≡ some s₀)
    × (run list_buffer accesses s₀ ≡ some (ls, s))
    × ChannelRun 1 ls (channel [] []) (abstract_channel list_buffer s)
run_refines_example = run_refines list_buffer list_buffer_laws 1 accesses (omega arith)

abbrev two_queued : NonBlockingSender list_buffer
two_queued = record {
  queue = (4, short_message short ∷ medium_message medium ∷ []);
  task = at_token;
  handed_over = [];
}

all_handed_over_example :
    (ls : List Label) × (s : NonBlockingSender list_buffer) × (run list_buffer
        (rounds list_buffer list_buffer_laws 2)
        two_queued
      ≡ some (ls, s))
    × (s.task ≡ no_task)
    × (list_buffer.contents s.queue ≡ [])
    × (s.handed_over ≡ short_message short ∷ medium_message medium ∷ [])
all_handed_over_example = all_handed_over list_buffer list_buffer_laws two_queued refl (omega arith)
