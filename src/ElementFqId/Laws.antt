-- ===== src/ElementFqId/Laws.antt =====
-- Comparing, hashing and sending element ids (element_fq_id.{h,cpp}, message_common.cpp).
use inc_mw_com.Base.{
  ℕ, ◌+◌, ◌*◌, ◌/◌, ◌%◌, ◌^◌, ◌<◌, ◌≡◌, refl, ◌↔◌, ◌⊎◌, Bool, true, false, some, arith, ==_self,
}
use inc_mw_com.Base.Maps
use inc_mw_com.ElementFqId.{
  ElementType, invalid_type, event, field, ElementFqId, element_type_code, element_type_of_code,
  same_element, element_before, hash_key, element_fq_id_to_short_msg_payload,
  short_msg_payload_to_element_fq_id,
}

-- The fields fit their types.
pub record Fits (a : ElementFqId) : Type 0 where
  pub service : a.service_id < 2 ^ 16
  pub element : a.element_id < 2 ^ 8
  pub instance_fits : a.instance_id < 2 ^ 16

pub same_element_self : (a : ElementFqId) → same_element a a ≡ true
unfolding same_element
same_element_self a = simp ==_self

pub same_element-SameKeys : Maps.SameKeys same_element
unfolding same_element
same_element-SameKeys = record {
  forward = λ a b c e. ground arith;
  right = λ a b c e. ground arith;
  backward = λ a b c e f. ground arith;
}

-- The order agrees with equality: of two ids exactly one is before the other, or they are the same.
abbrev pub ExactlyOne : Bool → Bool → Bool → Type 0
ExactlyOne a b c =
    ((a ≡ true) × (b ≡ false) × (c ≡ false))
    ⊎ ((a ≡ false) × (b ≡ true) × (c ≡ false))
    ⊎ ((a ≡ false) × (b ≡ false) × (c ≡ true))

-- Two ids with fields of their widths are the same exactly when the number that is hashed is, so equal ids hash alike and no two others share the number.
pub hash_key_lem :
    (a b : ElementFqId) → Fits a → Fits b → (same_element a b ≡ true) ↔ (hash_key a ≡ hash_key b)
unfolding same_element hash_key
hash_key_lem a b fa fb = ((λ h. ground arith), λ h. ground arith)

-- Of any two ids exactly one is before the other, or they are the same: operator< is total, and agrees with operator==.
pub element_before_lem :
    (a b : ElementFqId) → ExactlyOne (element_before a b) (element_before b a) (same_element a b)
unfolding element_before same_element
element_before_lem a b = ground arith

payload_fields :
    (s e i c : ℕ)
    → s < 2 ^ 16
    → e < 2 ^ 8
    → i < 2 ^ 16
    → c < 2 ^ 8
    → let v = s * 2 ^ 32 + e * 2 ^ 24 + i * 2 ^ 8 + c in
      (v / 2 ^ 32 % 2 ^ 16 ≡ s)
      × (v / 2 ^ 24 % 2 ^ 8 ≡ e)
      × (v / 2 ^ 8 % 2 ^ 16 ≡ i)
      × (v % 2 ^ 8 ≡ c)
      × (v < 2 ^ 64)
payload_fields s e i c hs he hi hc = omega arith

element_type_lem :
    (t : ElementType)
    → (element_type_of_code (element_type_code t) ≡ some t) × (element_type_code t < 2 ^ 8)
unfolding element_type_of_code element_type_code
element_type_lem invalid_type = (refl, omega arith)
element_type_lem event = (refl, omega arith)
element_type_lem field = (refl, omega arith)

-- An id with fields of their widths is read back from the payload that it is sent in.
pub short_msg_payload-element_fq_id :
    (a : ElementFqId)
    → Fits a
    → (short_msg_payload_to_element_fq_id (element_fq_id_to_short_msg_payload a) ≡ some a)
      × (element_fq_id_to_short_msg_payload a < 2 ^ 64)
unfolding short_msg_payload_to_element_fq_id element_fq_id_to_short_msg_payload
short_msg_payload-element_fq_id a f =
    let (known, small) = element_type_lem a.element_type in
    let (s, e, i, c, fits) =
      payload_fields a.service_id a.element_id a.instance_id (element_type_code a.element_type)
        f.service f.element f.instance_fits small in
    (simp (s, e, i, c, known), fits)
