-- ===== src/Gateway.antt =====
-- src/Gateway.hpp and src/Gateway.cpp: requests over HTTP for the nodes of the network.
pub mod Codec
pub mod Query
pub mod Handler
pub mod Connection
