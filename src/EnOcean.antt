-- ===== src/EnOcean.antt =====
-- src/enocean: the EnOcean protocol on a serial line, and the network on top of it.
pub mod Crc
pub mod Protocol
pub mod Network
pub mod Port
