-- ===== src/MessagePassing/RoundTrip.antt =====
-- Reading back messages from their bytes (message_passing/serializer.cpp).
use inc_mw_com.Base.{
  ℕ, zero, suc, ◌+◌, ◌*◌, ◌/◌, ◌^◌, ◌≤◌, ◌<◌, ◌≡◌, refl, ap, subst, some, List, [], ◌∷◌, arith,
  length, get_elem?, replicate,
}
use inc_mw_com.Messages.{ShortMessage}
use inc_mw_com.MessagePassing.{
  MediumMessage, short_type, medium_type, type_code, max_message_size, message_type_position,
}
use inc_mw_com.MessagePassing.Serializer.{
  bytes_of, number_of, copy_in, copy_out, serialize_short_message, serialize_medium_message,
  deserialize_to_short_message, deserialize_to_medium_message,
}

abbrev pub below : ℕ → ℕ
below zero = 1
below (suc width) = 256 * below width

number_of-bytes_of : (width n : ℕ) → n < below width → number_of (bytes_of width n) ≡ n
number_of-bytes_of zero n h = omega arith
number_of-bytes_of (suc width) n h = omega (arith, number_of-bytes_of width (n / 256) (omega arith))

copy_out-copy_in :
    (pos : ℕ) (src buffer : List ℕ)
    → pos + length src ≤ length buffer
    → copy_out pos (length src) (copy_in pos src buffer) ≡ src
copy_out-copy_in zero [] buffer h = refl
copy_out-copy_in zero (b ∷ src) [] h = absurd (omega arith)
copy_out-copy_in zero (b ∷ src) (x ∷ buffer) h =
    ap (◌∷◌ b) (copy_out-copy_in zero src buffer (omega arith))
copy_out-copy_in (suc pos) src [] h = absurd (omega arith)
copy_out-copy_in (suc pos) src (x ∷ buffer) h = copy_out-copy_in pos src buffer (omega arith)

length-copy_in : (pos : ℕ) (src buffer : List ℕ) → length (copy_in pos src buffer) ≡ length buffer
length-copy_in pos src [] = refl
length-copy_in zero [] (x ∷ buffer) = refl
length-copy_in zero (b ∷ src) (x ∷ buffer) = ap suc (length-copy_in zero src buffer)
length-copy_in (suc pos) src (x ∷ buffer) = ap suc (length-copy_in pos src buffer)

-- The fields of a short message fit their types.
pub record ShortFits (m : ShortMessage) : Type 0 where
  pub id_fits : m.id < 2 ^ 8
  pub pid_fits : m.pid < 2 ^ 32
  pub payload_fits : m.payload < 2 ^ 64

-- A short message with fields that fit their types is read back whole from the bytes that it is sent as; the bytes fill the buffer, and the first one tells that it is short.
pub deserialize-serialize_short_message :
    (m : ShortMessage)
    → ShortFits m
    → (deserialize_to_short_message (serialize_short_message m) ≡ m)
      × (get_elem? (serialize_short_message m) message_type_position ≡ some (type_code short_type))
      × (length (serialize_short_message m) ≡ max_message_size)
unfolding deserialize_to_short_message serialize_short_message
deserialize-serialize_short_message m f = (
  simp (
    number_of-bytes_of 1 m.id (omega (arith, f.id_fits)),
    number_of-bytes_of 4 m.pid (omega (arith, f.pid_fits)),
    number_of-bytes_of 8 m.payload (omega (arith, f.payload_fits)),
  ),
  refl,
  refl,
)

-- The fields of a medium message fit their types.
pub record MediumFits (m : MediumMessage) : Type 0 where
  pub id_fits : m.id < 2 ^ 8
  pub pid_fits : m.pid < 2 ^ 32
  pub payload_fits : length m.payload ≡ 16

-- A medium message with fields that fit their types is read back whole from the bytes that it is sent as; the bytes fill the buffer, and the first one tells that it is of medium size.
pub deserialize-serialize_medium_message :
    (m : MediumMessage)
    → MediumFits m
    → (deserialize_to_medium_message (serialize_medium_message m) ≡ m)
      × (get_elem? (serialize_medium_message m) message_type_position
          ≡ some (type_code medium_type))
      × (length (serialize_medium_message m) ≡ max_message_size)
unfolding deserialize_to_medium_message serialize_medium_message
deserialize-serialize_medium_message m f =
    let zeros : List ℕ = replicate 16 0 in
    let whole : copy_out 0 16 (copy_in 0 m.payload zeros) ≡ m.payload =
      subst (λ n. copy_out 0 n (copy_in 0 m.payload zeros) ≡ m.payload) f.payload_fits
        (copy_out-copy_in 0 m.payload zeros (omega (arith, f.payload_fits))) in
    (
      simp (
        number_of-bytes_of 1 m.id (omega (arith, f.id_fits)),
        number_of-bytes_of 4 m.pid (omega (arith, f.pid_fits)),
        whole,
      ),
      refl,
      omega (arith, length-copy_in 0 m.payload zeros),
    )
