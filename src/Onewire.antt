-- ===== src/Onewire.antt =====
-- src/onewire.c: the 1-Wire line and the chips on it.
mod Bus
pub mod RomSearch
pub mod Checksum
pub mod Registers
pub mod Search
unfoldable pub use Bus.*
