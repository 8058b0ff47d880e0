-- ===== src/ZWave.antt =====
-- src/zwave: the serial protocol of the dongle, the nodes behind it and their command classes.
pub mod Request
pub mod Frame
pub mod Protocol
pub mod Classes
pub mod Fibaro
pub mod Command
pub mod Network
pub mod Port
