-- ===== src/Server.antt =====
-- MicroMediaServer.c: the media server on top of the UPnP stack.
pub mod Paths
pub mod Hex
pub mod Directive
pub mod Tests
