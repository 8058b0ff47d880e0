-- ===== src/Examples.antt =====
-- The theorems at concrete inputs: for each statement with conditions a case in which they hold.
mod Serial
mod Nodes
mod Web
mod Texts
mod Radio
mod Channels
mod Clients
mod Ports
mod Whole
mod Running
mod Pointers
