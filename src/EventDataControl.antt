-- ===== src/EventDataControl.antt =====
-- mw/com/impl/bindings/lola/event_data_control.{h,cpp}: the slots of an event in shared memory.
pub mod State
pub mod Allocate
pub mod Reference
