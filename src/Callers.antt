-- ===== src/Callers.antt =====
-- The pallets that do next to nothing: two that keep their last caller (pallets/last-caller/src/lib.rs,
-- pallets/default-instance/src/lib.rs), two that emit an event (pallets/simple-event/src/lib.rs,
-- pallets/generic-event/src/lib.rs) and one that prints (pallets/hello-substrate/src/lib.rs).
pub mod LastCaller
pub mod DefaultInstance
pub mod Emitters
