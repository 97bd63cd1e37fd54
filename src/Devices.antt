-- ===== src/Devices.antt =====
-- drivers/mouse.c and kernel/rtc.c: what the drivers make of the bytes that the ports give.
pub mod Mouse
pub mod Clock
mod Tests
