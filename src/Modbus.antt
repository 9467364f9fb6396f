-- ===== src/Modbus.antt =====
-- The Modbus slave: the types that the library's callbacks pass (liblightmodbus), and the
-- modules for the register banks (src/modbus/) and for the frame receiver (src/modbus.c).
pub mod Types
pub mod Regs
pub mod Iregs
pub mod Inputs
pub mod Coils
pub mod Callback
pub mod Slave
mod Tests
