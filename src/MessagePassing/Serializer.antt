-- ===== src/MessagePassing/Serializer.antt =====
-- Messages as bytes (message_passing/serializer.cpp). Signed numbers are given by their bit patterns,
-- which stand in memory with the lowest byte first.
use inc_mw_com.Base.{ℕ, zero, suc, ◌+◌, ◌*◌, ◌/◌, ◌%◌, List, [], ◌∷◌, set, take, drop, replicate}
use inc_mw_com.Messages.{ShortMessage}
use inc_mw_com.MessagePassing.{
  MediumMessage, short_type, medium_type, type_code, max_message_size, message_type_position,
  message_id_position, message_pid_position, message_start_payload,
}

-- The bytes of a number of a width in memory, and the number that bytes stand for.
abbrev pub bytes_of : ℕ → ℕ → List ℕ
bytes_of zero n = []
bytes_of (suc width) n = (n % 256) ∷ bytes_of width (n / 256)

abbrev pub number_of : List ℕ → ℕ
number_of [] = 0
number_of (b ∷ bs) = b + 256 * number_of bs

-- std::memcpy into a buffer from a position on, and out of it.
abbrev pub copy_in : ℕ → List ℕ → List ℕ → List ℕ
copy_in pos src [] = []
copy_in (suc pos) src (x ∷ buffer) = x ∷ copy_in pos src buffer
copy_in zero [] (x ∷ buffer) = x ∷ buffer
copy_in zero (b ∷ src) (x ∷ buffer) = b ∷ copy_in zero src buffer

abbrev pub copy_out : ℕ → ℕ → List ℕ → List ℕ
copy_out pos size buffer = take size (drop pos buffer)

unfoldable pub serialize_message_id : List ℕ → ℕ → List ℕ
serialize_message_id buffer id = copy_in message_id_position (bytes_of 1 id) buffer

unfoldable pub deserialize_message_id : List ℕ → ℕ
deserialize_message_id buffer = number_of (copy_out message_id_position 1 buffer)

unfoldable pub serialize_short_message : ShortMessage → List ℕ
unfolding serialize_message_id type_code
serialize_short_message m =
    let buffer = set (replicate max_message_size 0) message_type_position (type_code short_type) in
    let buffer₁ = serialize_message_id buffer m.id in
    let buffer₂ = copy_in message_pid_position (bytes_of 4 m.pid) buffer₁ in
    copy_in message_start_payload (bytes_of 8 m.payload) buffer₂

unfoldable pub serialize_medium_message : MediumMessage → List ℕ
unfolding serialize_message_id type_code
serialize_medium_message m =
    let buffer = set (replicate max_message_size 0) message_type_position (type_code medium_type) in
    let buffer₁ = serialize_message_id buffer m.id in
    let buffer₂ = copy_in message_pid_position (bytes_of 4 m.pid) buffer₁ in
    copy_in message_start_payload m.payload buffer₂

unfoldable pub deserialize_to_short_message : List ℕ → ShortMessage
unfolding deserialize_message_id
deserialize_to_short_message buffer = record {
  id = deserialize_message_id buffer;
  pid = number_of (copy_out message_pid_position 4 buffer);
  payload = number_of (copy_out message_start_payload 8 buffer);
}

unfoldable pub deserialize_to_medium_message : List ℕ → MediumMessage
unfolding deserialize_message_id
deserialize_to_medium_message buffer = record {
  id = deserialize_message_id buffer;
  pid = number_of (copy_out message_pid_position 4 buffer);
  payload = copy_out message_start_payload 16 buffer;
}
