-- ===== src/ElementFqId.antt =====
-- mw/com/impl/bindings/lola/element_fq_id.{h,cpp}, the name of an event or field of a service
-- instance, and messaging/messages/message_common.cpp, its form in a message.
pub mod Laws
use inc_mw_com.Base.{
  ℕ, zero, suc, ◌+◌, ◌-◌, ◌*◌, ◌/◌, ◌%◌, ◌^◌, ◌≤◌, ◌<◌, min, max, ◌≡◌, refl, sym, ap, subst, ◌∙◌,
  ◌≢◌, ◌↔◌, ◌⊎◌, inl, inr, Bool, true, false, not, ◌&&◌, ◌||◌, Option, none, some, List, [], ◌∷◌,
  ◌++◌, map, arith, ltb, leb, ◌==◌, if◌then◌else◌, ltb→lt, ltb→ge, leb→le, leb→gt, ==→eq, ==_self,
  Bool-cases, Option-cases, length, get_elem?, get_or, set, replicate, length-append, length-set,
  length-replicate, get_or-set_self, get_or-set_ne, set-set, set-get_or, get_elem?-set_self,
  get_elem?-set_ne, get_elem?-set, set_unchanged, get_elem?-append_length, length-map,
  get_elem?-map, get_elem?-replicate, ◌>>=◌, ◌>>◌, require, >>=-eq-some, some_eq, Interference,
  Words, alone, seen, load, store, fetch_modify, compare_exchange, Exchanged, compare_exchange_lem,
}

pub data ElementType : Type 0 where
  invalid_type event field : ElementType

-- Service and instance have 16 bits, the element 8.
pub record ElementFqId : Type 0 where
  pub service_id : ℕ
  pub element_id : ℕ
  pub instance_id : ℕ
  pub element_type : ElementType

unfoldable pub element_type_code : ElementType → ℕ
element_type_code invalid_type = 0
element_type_code event = 1
element_type_code field = 2

-- The cast from a byte, and the check of the constructor: a greater one ends the process.
unfoldable pub element_type_of_code : ℕ → Option ElementType
element_type_of_code n =
    if n == 0
    then some invalid_type
    else if n == 1
    then some event
    else if n == 2
    then some field
    else none

unfoldable pub element_fq_id : ℕ → ℕ → ℕ → ℕ → Option ElementFqId
unfolding element_type_of_code
element_fq_id service_id element_id instance_id element_type = do
  t ← element_type_of_code element_type
  some (record {
    service_id = service_id;
    element_id = element_id;
    instance_id = instance_id;
    element_type = t;
  })

-- operator==, which leaves the element type out.
unfoldable pub same_element : ElementFqId → ElementFqId → Bool
same_element a b =
    a.service_id == b.service_id && a.element_id == b.element_id && a.instance_id == b.instance_id

-- operator<
unfoldable pub element_before : ElementFqId → ElementFqId → Bool
element_before a b =
    if a.service_id == b.service_id
    then if a.instance_id == b.instance_id
      then ltb a.element_id b.element_id
      else ltb a.instance_id b.instance_id
    else ltb a.service_id b.service_id

-- What std::hash is applied to. The parts do not overlap, so `|` is `+`.
unfoldable pub hash_key : ElementFqId → ℕ
hash_key a = a.service_id * 2 ^ 24 + a.element_id * 2 ^ 16 + a.instance_id

unfoldable pub element_fq_id_to_short_msg_payload : ElementFqId → ℕ
unfolding element_type_code
element_fq_id_to_short_msg_payload a =
    a.service_id * 2 ^ 32
    + a.element_id * 2 ^ 24
    + a.instance_id * 2 ^ 8
    + element_type_code a.element_type

unfoldable pub short_msg_payload_to_element_fq_id : ℕ → Option ElementFqId
unfolding element_fq_id
short_msg_payload_to_element_fq_id payload =
    element_fq_id (payload / 2 ^ 32 % 2 ^ 16) (payload / 2 ^ 24 % 2 ^ 8) (payload / 2 ^ 8 % 2 ^ 16)
      (payload % 2 ^ 8)
